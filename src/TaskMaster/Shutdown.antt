-- ===== src/TaskMaster/Shutdown.antt =====
-- The end of `cleanup` of taskmaster.h, after `teardown`.
use libmandrews.Prelude.{
  ℕ, zero, suc, ◌≤◌, ◌<◌, ◌≡◌, ◌≢◌, refl, ◌∙◌, true, false, ◌⊎◌, inl, inr, some, arith, ◌==◌,
  if◌then◌else◌, dec_lt,
}
use libmandrews.Semaphore.{Semaphore, word}
use libmandrews.Semaphore
use libmandrews.TaskMaster.{
  Worker, waiting, stopped, joining, over, System, advance, works, joins, Reach, next,
}
use libmandrews.TaskMaster.Invariant.{parked, Reach-Inv}

module _ {T : Type 0} where
  -- Workers `0` to `k - 1` have stopped, and no work has been lost on the way.
  record Stopped (s t : System T) (k : ℕ) : Type 0 where
    reach : Reach t
    phase : t.phase ≡ joining
    same : t.threads ≡ s.threads
    work : t.finished ≡ s.finished
    gone : (i : ℕ) → i < k → t.worker i ≡ stopped

  stop-one :
      (t : System T) (k : ℕ) (w : Worker T)
      → t.worker k ≡ w
      → t.sem.running ≡ false
      → parked w ≡ true
      → w ≢ stopped
      → (t' : System T) × (advance (t.worker k) k t ≡ some t')
        × (t'.phase ≡ t.phase)
        × (t'.threads ≡ t.threads)
        × (t'.finished ≡ t.finished)
        × ((j : ℕ) → t'.worker j ≡ (if k == j then stopped else t.worker j))
  unfolding advance Semaphore.awake
  stop-one t k waiting e off q ne = rw (e, off) (_, refl, refl, refl, refl, λ j. refl)
  stop-one t k stopped e off q ne = absurd (ne refl)
  stop-one t k _ e off q ne = cc

  is_stopped : (w : Worker T) → (w ≡ stopped) ⊎ (w ≢ stopped)
  is_stopped stopped = inl refl
  is_stopped _ = inr (λ e. cc)

  stop-next :
      {s t : System T} {k : ℕ}
      → k < s.threads
      → Stopped s t k
      → (t' : System T) × Stopped s t' (suc k)
  stop-next {s} {t} {k} h v = elim (is_stopped (t.worker k)) [
    | inl old ↦ (
      t,
      record {
        reach = v.reach;
        phase = v.phase;
        same = v.same;
        work = v.work;
        gone = λ i q. elim (dec_lt i k) [
          | yes below ↦ v.gone i below
          | no last ↦ let e : i ≡ k = omega arith in rw e old
        ];
      },
    )
    | inr new ↦
        let inv = Reach-Inv v.reach in
        let phase : t.phase ≡ joining = v.phase in
        let parked_k : parked (t.worker k) ≡ true = inv.quiet (rw phase refl) k (rw (v.same) h) in
        let off : t.sem.running ≡ false = inv.up ∙ (rw phase refl) in
        let (t', step, same_phase, same_threads, same_work, at) =
          stop-one t k (t.worker k) refl off parked_k new in
        (
          t',
          record {
            reach = next v.reach (works k (rw (v.same) h) step);
            phase = same_phase ∙ v.phase;
            same = same_threads ∙ v.same;
            work = same_work ∙ v.work;
            gone = λ i q. ground (arith, at i, v.gone i);
          },
        )
  ]

  stop-all :
      {s : System T}
      → Reach s
      → s.phase ≡ joining
      → (k : ℕ) → k ≤ s.threads
      → (t : System T) × Stopped s t k
  stop-all {s} r e zero h = (
    s,
    record { reach = r; phase = e; same = refl; work = refl; gone = λ i q. absurd (omega arith) },
  )
  stop-all {s} r e (suc k) h =
      let (t, v) = stop-all r e k (omega arith) in stop-next (omega arith) v

  -- From every reachable state after teardown there is a run in which every worker stops and
  -- cleanup joins them all and returns, with the finished tasks unchanged.
  pub cleanup_ends :
      {s : System T}
      → Reach s
      → s.phase ≡ joining
      → (t : System T) × Reach t × (t.phase ≡ over) × (t.finished ≡ s.finished)
  cleanup_ends {s} r e =
      let (t, v) = stop-all r e s.threads (omega arith) in
      (
        record t { phase = over },
        next v.reach (joins v.phase (λ i h. v.gone i (rw (← v.same) h))),
        refl,
        v.work,
      )
