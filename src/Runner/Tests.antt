-- ===== src/Runner/Tests.antt =====
-- crates/idakit-runner/src: concrete frames, and a run of one worker.
use idakit.Base.{
  ℕ, zero, suc, ◌+◌, ◌≤◌, ◌<◌, ◌^◌, Bool, true, false, Option, none, some, List, [], ◌∷◌, ◌++◌, ◌≡◌,
  ◌≢◌, refl, str, Str, str_eq, arith, All, get_elem?, ◌*◌, Bool-cases,
}
use idakit.Runner.Protocol.{
  Utf8, value, passed, finish, control, output, write_event, read_line, run, write_request,
  read_request,
}
use idakit.Runner.Protocol.RoundTrip.{
  read_line-write_event, read_line-output, read_request-write_request,
}
use idakit.Runner.Scheduler.{Case, Scheduler, take, best_index, score, pending_per_group}
use idakit.Runner.Scheduler.Best.{best_index-IsWinner, take-stays, IsWinner}
use idakit.Runner.Scheduler.Order.{take-TakesOne, TakesOne, occurrences}
use idakit.Runner.Pool.{
  CaseResult, Pool, pool, stopped, spawned, taken, reported, emptied, Reach, here, next, start_pool,
  line, run_case,
}
use idakit.Runner.Pool.Account.{reports}
use idakit.Runner.Pool.Run.{run-reports}
use idakit.Runner.Pool.Claims.{Reach-IsCovered, IsCovered}
use idakit.Runner.Pool.Progress.{steps-le-measure, steps, measure}

-- A stand-in for UTF-8 in which every byte string is valid.
abbrev bytes : Utf8
bytes = record {
  valid = λ s. true;
  lossy = λ s. s;
  valid_ascii = λ s h. refl;
  valid_append = λ s t h k. refl;
  lossy_valid = λ s h. refl;
}

read_line-write_event_example :
    read_line bytes (write_event (finish passed 12 (str "a\nb")) ++ str "next")
    ≡ value (control (finish passed 12 (str "a\nb"))) (str "next")
read_line-write_event_example =
    read_line-write_event bytes (finish passed 12 (str "a\nb")) (str "next")
      (omega arith, omega arith, refl)

read_line-output_example :
    read_line bytes (str "plain" ++ (10 ∷ str "next")) ≡ value (output (str "plain")) (str "next")
read_line-output_example =
    read_line-output bytes 112 (str "lain") (str "next") (omega arith)
      (omega arith, (omega arith, (omega arith, (omega arith, (omega arith, tt))))) refl refl

read_request-write_request_example :
    read_request bytes (write_request (run (str "a b")) ++ str "x")
    ≡ value (some (run (str "a b"))) (str "x")
read_request-write_request_example =
    read_request-write_request bytes (run (str "a b")) (str "x")
      ((omega arith, (omega arith, (omega arith, tt))), refl, refl)

abbrev case_a : Case
case_a = record { name = str "a"; group = some (str "g") }

abbrev case_b : Case
case_b = record { name = str "b"; group = none }

abbrev two : Scheduler
two = record { pending = case_b ∷ case_a ∷ []; workers = (str "g", 1) ∷ [] }

take-TakesOne_example : TakesOne two.pending (take (some (str "g")) two)
take-TakesOne_example = take-TakesOne (some (str "g")) two

take-stays_example :
    take (some (str "g")) two
    ≡ (some case_a, record { pending = case_b ∷ []; workers = (str "g", 1) ∷ [] })
unfolding idakit.Base.str_eq
take-stays_example = take-stays (str "g") two 1 case_a refl refl (refl, tt)

found : best_index two ≡ some 0
unfolding best_index idakit.Base.str_eq
found = refl

best_index-IsWinner_example :
    (q : ℕ × ℕ) × IsWinner (score (pending_per_group two.pending []) two.workers) two.pending 0 q
best_index-IsWinner_example = best_index-IsWinner two 0 found

abbrev passed_a : CaseResult
passed_a = record { name = str "a"; status = passed; millis = 3; message = []; output = [] }

-- One worker spawns, takes the case, reports it and finds nothing left.
abbrev last_pool : Pool
last_pool = pool (record { pending = []; workers = [] }) (passed_a ∷ []) (stopped ∷ [])

abbrev whole_run : Reach 60 (start_pool 4 (case_a ∷ [])) last_pool
unfolding start_pool take run_case idakit.Base.str_eq
whole_run =
    next
      (next (next (next here (spawned [] [] none)) (taken [] [] none case_a refl))
        (reported [] [] case_a none (line (control (finish passed 3 [])) ∷ []) passed_a refl))
      (emptied [] [] (some (str "g")) refl)

run-reports_example : reports (str "a") last_pool.results ≡ occurrences (str "a") (case_a ∷ [])
run-reports_example = run-reports 4 (case_a ∷ []) whole_run (refl, tt) (str "a")

Reach-IsCovered_example : IsCovered last_pool
Reach-IsCovered_example = Reach-IsCovered 4 (case_a ∷ []) whole_run

steps-le-measure_example :
    steps whole_run + measure last_pool ≤ measure (start_pool 4 (case_a ∷ []))
steps-le-measure_example = steps-le-measure whole_run
