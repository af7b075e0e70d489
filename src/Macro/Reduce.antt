-- ===== src/Macro/Reduce.antt =====
-- `MAP_REDUCE` and the macros made of it.
use libmandrews.Prelude.{
  ◌≤◌, ◌<◌, ◌≡◌, refl, sym, ap, ◌∙◌, true, none, some, List, [], ◌∷◌, ◌++◌, append_assoc, arith,
  length, leb,
}
use libmandrews.Macro.{
  Tokens, comma, identity, comma_separate, limit, present, map_reduce_at, map_reduce,
}
use libmandrews.Macro.Count.{length-present, num_args-length, num_args-overflow}

-- The reducer from the right over the mapped arguments.
abbrev pub foldr1 : (Tokens → Tokens) → (Tokens → Tokens → Tokens) → List Tokens → Tokens
foldr1 m r [] = []
foldr1 m r (a ∷ []) = m a
foldr1 m r (a ∷ b ∷ args) = r (m a) (foldr1 m r (b ∷ args))

map_reduce_at-foldr1 :
    (m : Tokens → Tokens) (r : Tokens → Tokens → Tokens) (args : List Tokens)
    → map_reduce_at (length args) m r args ≡ some (foldr1 m r args)
unfolding map_reduce_at
map_reduce_at-foldr1 m r [] = refl
map_reduce_at-foldr1 m r (a ∷ []) = refl
map_reduce_at-foldr1 m r (a ∷ b ∷ args) = rw (map_reduce_at-foldr1 m r (b ∷ args)) refl

map_reduce-present :
    (m : Tokens → Tokens) (r : Tokens → Tokens → Tokens) (args : List Tokens)
    → map_reduce_at (length (present args)) m r args ≡ some (foldr1 m r (present args))
unfolding map_reduce_at
map_reduce-present m r [] = refl
map_reduce-present m r ([] ∷ []) = refl
map_reduce-present m r ([] ∷ b ∷ args) = map_reduce_at-foldr1 m r ([] ∷ b ∷ args)
map_reduce-present m r ((t ∷ a) ∷ args) = map_reduce_at-foldr1 m r ((t ∷ a) ∷ args)

-- MAP_REDUCE of up to 43 arguments maps each of them and reduces from the right, and expands to
-- nothing if there are none.
pub map_reduce-foldr1 :
    (m : Tokens → Tokens) (r : Tokens → Tokens → Tokens) (args : List Tokens)
    → length args ≤ limit
    → map_reduce m r args ≡ some (foldr1 m r (present args))
unfolding map_reduce
map_reduce-foldr1 m r args h =
    let fits : leb (length (present args)) limit ≡ true = ground (arith, length-present args) in
    rw (num_args-length args h, fits) (map_reduce-present m r args)

-- MAP_REDUCE of more than 43 arguments does not expand.
pub map_reduce-overflow :
    (m : Tokens → Tokens) (r : Tokens → Tokens → Tokens) (args : List Tokens)
    → limit < length args
    → map_reduce m r args ≡ none
unfolding map_reduce
map_reduce-overflow m r args h = let (a, e) = num_args-overflow args h in rw e refl

-- Arguments with commas between them.
abbrev pub commas : List Tokens → Tokens
commas args = foldr1 identity comma_separate args

pub commas-snoc :
    (b : Tokens) (args : List Tokens) (a : Tokens)
    → commas ((b ∷ args) ++ a ∷ []) ≡ commas (b ∷ args) ++ comma ∷ a
commas-snoc b [] a = refl
commas-snoc b (c ∷ args) a =
    ap (λ l. b ++ comma ∷ l) (commas-snoc c args a)
    ∙ sym (append_assoc b (comma ∷ commas (c ∷ args)) (comma ∷ a))
