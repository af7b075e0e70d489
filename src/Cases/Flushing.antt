-- ===== src/Cases/Flushing.antt =====
-- `Flush` of cases.hpp.
use libmandrews.Prelude.{
  ℕ, ◌≡◌, refl, ◌∙◌, Bool, true, false, List, [], ◌∷◌, ◌++◌, append_assoc, append-nil,
}
use libmandrews.Cases.{
  Case, Child, Reading, again, broken, got, Flushed, drained, aborted, looping, flush, stuck, Visit,
  visit, waiting, wait_all, asserted,
}

-- What becomes of the pipe: it is closed, or fails, or stays open.
pub data Fate : Type 0 where
  closed failed open_still : Fate

abbrev pub fate : List Reading → Fate
fate [] = open_still
fate (again ∷ reads) = fate reads
fate (broken ∷ reads) = failed
fate (got [] ∷ reads) = closed
fate (got (b ∷ bytes) ∷ reads) = fate reads

-- What comes through it up to then.
abbrev pub printed : List Reading → List ℕ
printed [] = []
printed (again ∷ reads) = printed reads
printed (broken ∷ reads) = []
printed (got [] ∷ reads) = []
printed (got (b ∷ bytes) ∷ reads) = b ∷ bytes ++ printed reads

abbrev pub flushed : Fate → List ℕ → Flushed
flushed closed out = drained out
flushed failed out = aborted
flushed open_still out = looping out

pub flush_lem :
    (reads : List Reading) (buf : List ℕ)
    → flush reads buf ≡ flushed (fate reads) (buf ++ printed reads)
unfolding flush
flush_lem [] buf = rw append-nil refl
flush_lem (again ∷ reads) buf = flush_lem reads buf
flush_lem (broken ∷ reads) buf = refl
flush_lem (got [] ∷ reads) buf = rw append-nil refl
flush_lem (got (b ∷ bytes) ∷ reads) buf =
    flush_lem reads (buf ++ b ∷ bytes) ∙ (rw (append_assoc buf (b ∷ bytes) (printed reads)) refl)

-- A visit to a child that has not closed its end of the pipe does not return.
visit-open :
    (c : Case) (child : Child) (v : Visit) → fate v.reads ≡ open_still → (visit c child v).0 ≡ stuck
unfolding visit
visit-open c child v e = rw (flush_lem v.reads child.buf, e) refl

asserted-waiting : (cautious : Bool) → asserted cautious waiting ≡ waiting
asserted-waiting true = refl
asserted-waiting false = refl

-- While the pipe of the first child stays open WaitAll has not come to look at the clock or at
-- waitpid: it is still in its first visit and nothing is reported, whatever the time limit is.
pub wait_all-open :
    (c : Case) (cautious : Bool) (v : Visit) (visits : List Visit) (child : Child)
    (children : List Child)
    → fate v.reads ≡ open_still
    → wait_all c cautious (v ∷ visits) (child ∷ children) ≡ waiting
unfolding wait_all
wait_all-open c cautious v visits child children e =
    rw (flush_lem v.reads child.buf, e) (asserted-waiting cautious)
