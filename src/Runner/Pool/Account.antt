-- ===== src/Runner/Pool/Account.antt =====
-- crates/idakit-runner/src/runner.rs: every case ends in exactly one result.
use idakit.Base.{
  ℕ, suc, ◌+◌, Bool, true, false, Option, none, some, List, [], ◌∷◌, ◌++◌, ◌≡◌, ◌≢◌, refl, sym, ◌∙◌,
  ap, subst, Str, str_eq, str_eq_refl, if◌then◌else◌, arith,
}
use idakit.Runner.Protocol.{control, output, start, finish}
use idakit.Runner.Scheduler.{Case, Scheduler, take, drain}
use idakit.Runner.Scheduler.Order.{occurrences, TakesOne, take-TakesOne}
use idakit.Runner.Pool.{
  CaseResult, crashed, Received, line, broken, timed_out, ok, collect, run_case, Worker, starting,
  idle, busy, failing, stopped, Pool, all_crashed, Step, spawned, spawn_failed, flushed, taken,
  emptied, reported, died, Reach, here, next,
}

-- How many results bear the name.
abbrev pub reports : Str → List CaseResult → ℕ
reports n [] = 0
reports n (r ∷ rs) = let rest = reports n rs in if str_eq r.name n then suc rest else rest

-- How many cases of the name a thread holds.
abbrev pub holds : Str → Worker → ℕ
holds n (busy c) = occurrences n (c ∷ [])
holds n (failing cs reason) = occurrences n cs
holds n _ = 0

abbrev pub held : Str → List Worker → ℕ
held n [] = 0
held n (w ∷ ws) = holds n w + held n ws

held-append : (n : Str) (xs ys : List Worker) → held n (xs ++ ys) ≡ held n xs + held n ys
held-append n [] ys = omega arith
held-append n (x ∷ xs) ys = omega (arith, held-append n xs ys)

reports-append :
    (n : Str) (xs ys : List CaseResult) → reports n (xs ++ ys) ≡ reports n xs + reports n ys
reports-append n [] ys = omega arith
reports-append n (x ∷ xs) ys = ground (arith, reports-append n xs ys)

reports-all_crashed :
    (n reason : Str) (cs : List Case) → reports n (all_crashed reason cs) ≡ occurrences n cs
unfolding all_crashed
reports-all_crashed n reason [] = refl
reports-all_crashed n reason (c ∷ cs) = ground (arith, reports-all_crashed n reason cs)

collect-name :
    (secs : ℕ) (n : Str) (out : List Str) (rs : List Received) (r : CaseResult)
    → collect secs n out rs ≡ ok r
    → r.name ≡ n
unfolding collect
collect-name secs n out [] r h = cc
collect-name secs n out (broken e ∷ rs) r h = cc
collect-name secs n out (timed_out ∷ rs) r h = cc
collect-name secs n out (line (output t) ∷ rs) r h = collect-name secs n _ rs r h
collect-name secs n out (line (control (start m)) ∷ rs) r h = collect-name secs n out rs r h
collect-name secs n out (line (control (finish s ms m)) ∷ rs) r h = ground arith

-- A result bears the name of the case that was requested.
run_case-name :
    (secs : ℕ) (n : Str) (sent : Option Str) (rs : List Received) (r : CaseResult)
    → run_case secs n sent rs ≡ ok r
    → r.name ≡ n
unfolding run_case
run_case-name secs n (some e) rs r h = cc
run_case-name secs n none rs r h = collect-name secs n [] rs r h

-- Results, cases in the hands of a thread and pending cases.
abbrev pub total : Str → Pool → ℕ
total n p = reports n p.results + held n p.workers + occurrences n p.scheduler.pending

module _ (n : Str) where
  taken_count :
      (s s' : Scheduler) (g : Option Str) (c : Case)
      → take g s ≡ (some c, s')
      → occurrences n s.pending ≡ occurrences n (c ∷ s'.pending)
  taken_count s s' g c e = (subst (TakesOne s.pending) e (take-TakesOne g s)) n

  emptied_count :
      (s s' : Scheduler) (g : Option Str)
      → take g s ≡ (none, s')
      → (s.pending ≡ []) × (s'.pending ≡ [])
  emptied_count s s' g e = subst (TakesOne s.pending) e (take-TakesOne g s)

  -- No step loses or repeats a case.
  Step-total : {secs : ℕ} {p q : Pool} → Step secs p q → total n q ≡ total n p
  unfolding drain crashed
  Step-total (spawned before after g) =
      omega
        (arith, held-append n before (starting g ∷ after), held-append n before (idle g ∷ after))
  Step-total (spawn_failed {s} before after g reason) = omega (
    arith,
    held-append n before (starting g ∷ after),
    held-append n before (failing s.pending reason ∷ after),
  )
  Step-total (flushed {r = r} before after cs reason) = omega (
    arith,
    held-append n before (failing cs reason ∷ after),
    held-append n before (stopped ∷ after),
    reports-append n r (all_crashed reason cs),
    reports-all_crashed n reason cs,
  )
  Step-total (taken {s} {s'} before after g c e) = ground (
    arith,
    held-append n before (idle g ∷ after),
    held-append n before (busy c ∷ after),
    taken_count s s' g c e,
  )
  Step-total (emptied {s} {s'} before after g e) = ground (
    arith,
    held-append n before (idle g ∷ after),
    held-append n before (stopped ∷ after),
    (emptied_count s s' g e).0,
    (emptied_count s s' g e).1,
  )
  Step-total (reported {r = r} before after c sent received result e) = ground (
    arith,
    held-append n before (busy c ∷ after),
    held-append n before (idle c.group ∷ after),
    reports-append n r (result ∷ []),
    run_case-name _ c.name sent received result e,
  )
  Step-total (died {r = r} before after c sent received reason e) = ground (
    arith,
    held-append n before (busy c ∷ after),
    held-append n before (starting c.group ∷ after),
    reports-append n r (crashed c.name reason ∷ []),
  )

  pub reach-total : {secs : ℕ} {p q : Pool} → Reach secs p q → total n q ≡ total n p
  reach-total here = refl
  reach-total (next r st) = Step-total st ∙ reach-total r

-- A thread that will take no more cases.
abbrev pub is_done : Worker → Bool
is_done stopped = true
is_done (failing cs reason) = true
is_done _ = false

abbrev pub any_done : List Worker → Bool
any_done [] = false
any_done (w ∷ ws) = if is_done w then true else any_done ws

any_done-append :
    (xs ys : List Worker) → any_done (xs ++ ys) ≡ (if any_done xs then true else any_done ys)
any_done-append [] ys = refl
any_done-append (x ∷ xs) ys = ground (arith, any_done-append xs ys)

-- Once a thread is done, nothing is pending.
abbrev pub DoneEmpty : Pool → Type 0
DoneEmpty p = any_done p.workers ≡ true → p.scheduler.pending ≡ []

nil_of_occurrences : (c : Case) (cs : List Case) → occurrences c.name (c ∷ cs) ≢ 0
nil_of_occurrences c cs = ground (arith, str_eq_refl c.name)

-- A case was pending if one was taken.
taken_nonempty :
    (s s' : Scheduler) (g : Option Str) (c : Case) → take g s ≡ (some c, s') → s.pending ≢ []
taken_nonempty s s' g c e h =
    nil_of_occurrences c s'.pending
      (sym (taken_count c.name s s' g c e) ∙ ap (occurrences c.name) h)

Step-DoneEmpty : {secs : ℕ} {p q : Pool} → Step secs p q → DoneEmpty p → DoneEmpty q
unfolding drain
Step-DoneEmpty (spawned before after g) d = λ h. d (
    any_done-append before (starting g ∷ after) ∙ sym (any_done-append before (idle g ∷ after)) ∙ h)
Step-DoneEmpty (spawn_failed before after g reason) d = λ h. refl
Step-DoneEmpty (flushed before after cs reason) d = λ h. d (
    any_done-append before (failing cs reason ∷ after)
    ∙ sym (any_done-append before (stopped ∷ after))
    ∙ h)
Step-DoneEmpty (taken {s} {s'} before after g c e) d = λ h. absurd (
    taken_nonempty s s' g c e (
      d (
        any_done-append before (idle g ∷ after)
        ∙ sym (any_done-append before (busy c ∷ after))
        ∙ h)))
Step-DoneEmpty (emptied {s} {s'} before after g e) d = λ h. (emptied_count [] s s' g e).1
Step-DoneEmpty (reported before after c sent received result e) d = λ h. d (
    any_done-append before (busy c ∷ after)
    ∙ sym (any_done-append before (idle c.group ∷ after))
    ∙ h)
Step-DoneEmpty (died before after c sent received reason e) d = λ h. d (
    any_done-append before (busy c ∷ after)
    ∙ sym (any_done-append before (starting c.group ∷ after))
    ∙ h)

pub reach-DoneEmpty : {secs : ℕ} {p q : Pool} → Reach secs p q → DoneEmpty p → DoneEmpty q
reach-DoneEmpty here d = d
reach-DoneEmpty (next r st) d = Step-DoneEmpty st (reach-DoneEmpty r d)
