-- ===== src/Runner/Pool.antt =====
-- crates/idakit-runner/src/runner.rs: `Runner::run`, `Runner::serve`, `Worker::run_case` and
-- `drain_as_failed`, as the steps of the threads over the shared scheduler and results.
--
-- Each step is what one thread does under one lock, so the order of the steps is any interleaving
-- of the threads. The worker processes are the environment: what a thread receives from one is the
-- list `received`, and whether a spawn succeeds is a choice of the step.
pub mod Run
pub mod Account
pub mod Claims
pub mod Progress
use idakit.Base.{
  ℕ, zero, suc, ◌+◌, ◌*◌, Bool, true, false, Option, none, some, List, [], ◌∷◌, ◌++◌, ◌≡◌, Str, str,
  decimal, length, replicate, map, if◌then◌else◌, ltb, ◌==◌,
}
use idakit.Runner.Protocol.{Status, Event, start, finish, Line, control, output}
use idakit.Runner.Scheduler.{Case, Scheduler, take, drain}

pub record CaseResult : Type 0 where
  pub name : Str
  pub status : Status
  pub millis : ℕ
  pub message : Str
  pub output : List Str

-- `fn crashed`.
unfoldable pub crashed : Str → Str → CaseResult
crashed n reason = record {
  name = n;
  status = Status.failed;
  millis = 0;
  message = reason;
  output = [];
}

-- What `recv_timeout` yields: a line, the text of a read error, or the deadline passing. The end of
-- the list is the channel disconnecting.
pub data Received : Type 0 where
  line : Line → Received
  broken : Str → Received
  timed_out : Received

pub data Outcome : Type 0 where
  ok : CaseResult → Outcome
  err : Str → Outcome

-- `output.join("\n")`.
unfoldable pub join_lines : List Str → Str
join_lines [] = []
join_lines (s ∷ []) = s
join_lines (s ∷ t ∷ ts) = s ++ (10 ∷ join_lines (t ∷ ts))

unfoldable pub timeout_text : ℕ → List Str → Str
unfolding join_lines
timeout_text secs out =
    str "case exceeded the "
    ++ (decimal secs ++ (str "s timeout and its worker was killed:" ++ (10 ∷ join_lines out)))

unfoldable pub exited_text : Str → List Str → Str
unfolding join_lines
exited_text n out = str "worker exited during " ++ (n ++ (str ":" ++ (10 ∷ join_lines out)))

-- The loop of `run_case`; `secs` is the timeout.
unfoldable pub collect : ℕ → Str → List Str → List Received → Outcome
unfolding timeout_text exited_text
collect secs n out [] = err (exited_text n out)
collect secs n out (broken e ∷ rs) = err e
collect secs n out (timed_out ∷ rs) = err (timeout_text secs out)
collect secs n out (line (output text) ∷ rs) = collect secs n (out ++ (text ∷ [])) rs
collect secs n out (line (control (start m)) ∷ rs) = collect secs n out rs
collect secs n out (line (control (finish s ms message)) ∷ rs) =
    ok (record { name = n; status = s; millis = ms; message = message; output = out })

-- `Worker::run_case`: the request is written first, and its error is the outcome.
unfoldable pub run_case : ℕ → Str → Option Str → List Received → Outcome
unfolding collect
run_case secs n (some e) rs = err e
run_case secs n none rs = collect secs n [] rs

-- Where a thread stands in `serve`: about to spawn, between cases, on a case, in `drain_as_failed`
-- with the drained cases, or done. The group is `last_group`.
pub data Worker : Type 0 where
  starting : Option Str → Worker
  idle : Option Str → Worker
  busy : Case → Worker
  failing : List Case → Str → Worker
  stopped : Worker

pub record Pool : Type 0 where
  pub scheduler : Scheduler
  pub results : List CaseResult
  pub workers : List Worker

abbrev pub pool : Scheduler → List CaseResult → List Worker → Pool
pool s r w = record { scheduler = s; results = r; workers = w }

-- `stranded.iter().map(|case| crashed(&case.name, reason))`.
unfoldable pub all_crashed : Str → List Case → List CaseResult
unfolding crashed
all_crashed reason [] = []
all_crashed reason (c ∷ cs) = crashed c.name reason ∷ all_crashed reason cs

-- One thread's step; `before` and `after` are the other threads.
pub data Step (secs : ℕ) : Pool → Pool → Type 0 where
  spawned :
      {s : Scheduler} {r : List CaseResult} (before after : List Worker) (g : Option Str)
      → Step secs
          (pool s r (before ++ (starting g ∷ after)))
          (pool s r (before ++ (idle g ∷ after)))
  -- `serve` returns the error, and `drain_as_failed` takes the whole queue.
  spawn_failed :
      {s : Scheduler} {r : List CaseResult} (before after : List Worker) (g : Option Str)
      (reason : Str)
      → Step secs
          (pool s r (before ++ (starting g ∷ after)))
          (pool (drain s).1 r (before ++ (failing (drain s).0 reason ∷ after)))
  flushed :
      {s : Scheduler} {r : List CaseResult} (before after : List Worker) (cs : List Case)
      (reason : Str)
      → Step secs
          (pool s r (before ++ (failing cs reason ∷ after)))
          (pool s (r ++ all_crashed reason cs) (before ++ (stopped ∷ after)))
  taken :
      {s s' : Scheduler} {r : List CaseResult} (before after : List Worker) (g : Option Str)
      (c : Case)
      → take g s ≡ (some c, s')
      → Step secs (pool s r (before ++ (idle g ∷ after))) (pool s' r (before ++ (busy c ∷ after)))
  -- No case is left: the worker is shut down.
  emptied :
      {s s' : Scheduler} {r : List CaseResult} (before after : List Worker) (g : Option Str)
      → take g s ≡ (none, s')
      → Step secs (pool s r (before ++ (idle g ∷ after))) (pool s' r (before ++ (stopped ∷ after)))
  reported :
      {s : Scheduler} {r : List CaseResult} (before after : List Worker) (c : Case)
      (sent : Option Str) (received : List Received) (result : CaseResult)
      → run_case secs c.name sent received ≡ ok result
      → Step secs
          (pool s r (before ++ (busy c ∷ after)))
          (pool s (r ++ (result ∷ [])) (before ++ (idle c.group ∷ after)))
  -- The worker died on its case, and the thread goes on to spawn another.
  died :
      {s : Scheduler} {r : List CaseResult} (before after : List Worker) (c : Case)
      (sent : Option Str) (received : List Received) (reason : Str)
      → run_case secs c.name sent received ≡ err reason
      → Step secs
          (pool s r (before ++ (busy c ∷ after)))
          (pool s (r ++ (crashed c.name reason ∷ [])) (before ++ (starting c.group ∷ after)))

pub data Reach (secs : ℕ) (p : Pool) : Pool → Type 0 where
  here : Reach secs p p
  next : {q t : Pool} → Reach secs p q → Step secs q t → Reach secs p t

-- `Runner::workers`: zero is treated as one.
unfoldable pub configured : ℕ → ℕ
configured n = if n == 0 then 1 else n

-- `run` before its threads start: never more workers than cases.
unfoldable pub start_pool : ℕ → List Case → Pool
unfolding configured
start_pool n cases =
    pool (record { pending = cases; workers = [] }) []
      (replicate (if ltb (configured n) (length cases) then configured n else length cases)
        (starting none))
