-- ===== src/Runner/Pool/Run.antt =====
-- crates/idakit-runner/src/runner.rs: what `Runner::run` returns.
use idakit.Base.{
  ℕ, zero, suc, ◌<◌, false, none, List, [], ◌∷◌, ◌≡◌, refl, ◌∙◌, ap, Str, length, replicate,
  if◌then◌else◌, arith, All, ltb, length-append, length-replicate,
}
use idakit.Runner.Scheduler.{Case, Scheduler, drain}
use idakit.Runner.Scheduler.Order.{occurrences}
use idakit.Runner.Pool.{
  CaseResult, Worker, starting, idle, busy, failing, stopped, Pool, pool, Step, spawned,
  spawn_failed, flushed, taken, emptied, reported, died, Reach, here, next, start_pool, configured,
}
use idakit.Runner.Pool.Account.{
  reports, held, total, reach-total, any_done, DoneEmpty, reach-DoneEmpty,
}

-- Every thread has returned, as `run` waits for.
abbrev pub AllStopped : List Worker → Type 0
AllStopped ws = All (λ w. w ≡ stopped) ws

held-stopped : (n : Str) (ws : List Worker) → AllStopped ws → held n ws ≡ 0
held-stopped n [] h = refl
held-stopped n (w ∷ ws) h = ground (arith, h.0, held-stopped n ws h.1)

any_done-starting : (k : ℕ) → any_done (replicate k (starting none)) ≡ false
any_done-starting zero = refl
any_done-starting (suc k) = any_done-starting k

held-starting : (n : Str) (k : ℕ) → held n (replicate k (starting none)) ≡ 0
held-starting n zero = refl
held-starting n (suc k) = omega (arith, held-starting n k)

start-total :
    (n : Str) (k : ℕ) (cases : List Case) → total n (start_pool k cases) ≡ occurrences n cases
unfolding start_pool
start-total n k cases = omega (
  arith,
  held-starting n (if ltb (configured k) (length cases) then configured k else length cases),
)

start-DoneEmpty : (k : ℕ) (cases : List Case) → DoneEmpty (start_pool k cases)
unfolding start_pool
start-DoneEmpty k cases h = cc (
  any_done-starting (if ltb (configured k) (length cases) then configured k else length cases),
  h,
)

-- A run has a thread if it has a case.
thread_count :
    (k : ℕ) (c : Case) (cs : List Case)
    → 0 < (if ltb (configured k) (length (c ∷ cs)) then configured k else length (c ∷ cs))
unfolding configured
thread_count k c cs = ground arith

-- Steps keep the number of threads.
Step-threads : {secs : ℕ} {p q : Pool} → Step secs p q → length q.workers ≡ length p.workers
Step-threads (spawned before after g) =
    omega (arith, length-append before (starting g ∷ after), length-append before (idle g ∷ after))
Step-threads (spawn_failed {s} before after g reason) = omega (
  arith,
  length-append before (starting g ∷ after),
  length-append before (failing (drain s).0 reason ∷ after),
)
Step-threads (flushed before after cs reason) = omega (
  arith,
  length-append before (failing cs reason ∷ after),
  length-append before (stopped ∷ after),
)
Step-threads (taken before after g c e) =
    omega (arith, length-append before (idle g ∷ after), length-append before (busy c ∷ after))
Step-threads (emptied before after g e) =
    omega (arith, length-append before (idle g ∷ after), length-append before (stopped ∷ after))
Step-threads (reported before after c sent received result e) =
    omega
      (arith, length-append before (busy c ∷ after), length-append before (idle c.group ∷ after))
Step-threads (died before after c sent received reason e) =
    omega (
      arith,
      length-append before (busy c ∷ after),
      length-append before (starting c.group ∷ after),
    )

reach-threads : {secs : ℕ} {p q : Pool} → Reach secs p q → length q.workers ≡ length p.workers
reach-threads here = refl
reach-threads (next r st) = Step-threads st ∙ reach-threads r

pending_done :
    (ws : List Worker) (s : Scheduler) (rs : List CaseResult)
    → 0 < length ws
    → AllStopped ws
    → DoneEmpty (pool s rs ws)
    → s.pending ≡ []
pending_done [] s rs l h d = elim l [ ]
pending_done (w ∷ ws) s rs l h d = d (rw h.0)

-- When every thread of a run has returned, the run has exactly one result for each case: for any
-- name, as many results bear it as cases did. That holds however the threads interleave, whatever
-- the workers send, and whichever spawns fail or workers die, with any number of workers asked for.
pub run-reports :
    {secs : ℕ} (k : ℕ) (cases : List Case) {p : Pool}
    → Reach secs (start_pool k cases) p
    → AllStopped p.workers
    → (n : Str) → reports n p.results ≡ occurrences n cases
run-reports k [] {p} r h n = omega (arith, start-total n k [], reach-total n r)
run-reports k (c ∷ cs) {p} r h n =
    let threads : 0 < length p.workers =
      omega (arith, thread_count k c cs, started k c cs, reach-threads r) in
    let empty : p.scheduler.pending ≡ [] =
      pending_done p.workers p.scheduler p.results threads h
        (reach-DoneEmpty r (start-DoneEmpty k (c ∷ cs))) in
    omega (
      arith,
      start-total n k (c ∷ cs),
      reach-total n r,
      held-stopped n p.workers h,
      ap (occurrences n) empty,
    )
  where
    started :
        (k : ℕ) (c : Case) (cs : List Case)
        → length (start_pool k (c ∷ cs)).workers
          ≡ (if ltb (configured k) (length (c ∷ cs)) then configured k else length (c ∷ cs))
    started k c cs = unfold start_pool in length-replicate _ (starting none)
