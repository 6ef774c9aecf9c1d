-- ===== src/Runner/Pool/Progress.antt =====
-- crates/idakit-runner/src/runner.rs: the threads do not run for ever.
use idakit.Base.{ℕ, suc, ◌+◌, ◌*◌, ◌≤◌, ◌<◌, List, [], ◌∷◌, ◌++◌, ◌≡◌, length, arith}
use idakit.Runner.Scheduler.{drain}
use idakit.Runner.Scheduler.Order.{take-length}
use idakit.Runner.Pool.{
  Worker, starting, idle, busy, failing, stopped, Pool, Step, spawned, spawn_failed, flushed, taken,
  emptied, reported, died, Reach, here, next,
}

-- How many steps a thread still has before it, other than those for pending cases.
abbrev pub weight : Worker → ℕ
weight (starting g) = 2
weight (idle g) = 1
weight (busy c) = 3
weight (failing cs reason) = 1
weight stopped = 0

abbrev pub weights : List Worker → ℕ
weights [] = 0
weights (w ∷ ws) = weight w + weights ws

weights-append : (xs ys : List Worker) → weights (xs ++ ys) ≡ weights xs + weights ys
weights-append [] ys = omega arith
weights-append (x ∷ xs) ys = omega (arith, weights-append xs ys)

-- Three for each pending case, and what the threads have before them.
abbrev pub measure : Pool → ℕ
measure p = 3 * length p.scheduler.pending + weights p.workers

module _ {secs : ℕ} where
  -- Every step of any thread brings the run nearer to its end.
  Step-measure : {p q : Pool} → Step secs p q → measure q < measure p
  unfolding drain
  Step-measure (spawned before after g) =
      omega
        (arith, weights-append before (starting g ∷ after), weights-append before (idle g ∷ after))
  Step-measure (spawn_failed {s} before after g reason) = omega (
    arith,
    weights-append before (starting g ∷ after),
    weights-append before (failing s.pending reason ∷ after),
  )
  Step-measure (flushed before after cs reason) = omega (
    arith,
    weights-append before (failing cs reason ∷ after),
    weights-append before (stopped ∷ after),
  )
  Step-measure (taken {s} {s'} before after g c e) = omega (
    arith,
    weights-append before (idle g ∷ after),
    weights-append before (busy c ∷ after),
    (take-length g s).0 c s' e,
  )
  Step-measure (emptied {s} {s'} before after g e) = omega (
    arith,
    weights-append before (idle g ∷ after),
    weights-append before (stopped ∷ after),
    (take-length g s).1 s' e,
  )
  Step-measure (reported before after c sent received result e) =
      omega (
        arith,
        weights-append before (busy c ∷ after),
        weights-append before (idle c.group ∷ after),
      )
  Step-measure (died before after c sent received reason e) = omega (
    arith,
    weights-append before (busy c ∷ after),
    weights-append before (starting c.group ∷ after),
  )

  abbrev pub steps : {p q : Pool} → Reach secs p q → ℕ
  steps here = 0
  steps (next r st) = suc (steps r)

  -- A run takes at most three steps for each case and two for each thread that is about to start.
  pub steps-le-measure : {p q : Pool} (r : Reach secs p q) → steps r + measure q ≤ measure p
  steps-le-measure here = omega arith
  steps-le-measure (next r st) = omega (arith, steps-le-measure r, Step-measure st)
