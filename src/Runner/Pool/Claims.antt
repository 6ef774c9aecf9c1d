-- ===== src/Runner/Pool/Claims.antt =====
-- crates/idakit-runner/src/runner.rs: the counts of `Scheduler::workers` cover the threads that
-- stand on a group, so that `leave` never takes one from zero.
use idakit.Base.{
  ℕ, zero, suc, ◌+◌, ◌≤◌, true, Option, none, some, List, [], ◌∷◌, ◌++◌, ◌≡◌, refl, subst, Str,
  str_eq, str_eq_iff, length, replicate, if◌then◌else◌, arith, inl, inr, Bool-cases, ltb,
}
use idakit.Runner.Scheduler.{
  Case, Counts, Scheduler, get_count, leave, leave_counts, enter, in_group, position, remove_at,
  keep_head, best_index, finish_take, take_at, take_best, take_in, take, drain,
}
use idakit.Runner.Scheduler.Counts.{
  IsUnique, get_count-bump, bump-IsUnique, get_count-leave, leave-IsUnique,
}
use idakit.Runner.Pool.{
  Worker, starting, idle, busy, failing, stopped, Pool, Step, spawned, spawn_failed, flushed, taken,
  emptied, reported, died, Reach, here, next, start_pool, configured,
}

-- 1 if the group is `g`.
abbrev pub one_if : Str → Option Str → ℕ
one_if g none = 0
one_if g (some h) = if str_eq h g then 1 else 0

-- Whether a thread stands on the group: by its last case, or by the case that it runs.
abbrev pub claims_of : Str → Worker → ℕ
claims_of g (starting o) = one_if g o
claims_of g (idle o) = one_if g o
claims_of g (busy c) = one_if g c.group
claims_of g _ = 0

abbrev pub claims : Str → List Worker → ℕ
claims g [] = 0
claims g (w ∷ ws) = claims_of g w + claims g ws

claims-append : (g : Str) (xs ys : List Worker) → claims g (xs ++ ys) ≡ claims g xs + claims g ys
claims-append g [] ys = omega arith
claims-append g (x ∷ xs) ys = omega (arith, claims-append g xs ys)

-- Each group has one entry at most, and its count covers the threads on the group.
pub record IsCovered (p : Pool) : Type 0 where
  pub unique : IsUnique p.scheduler.workers
  pub covered : (g : Str) → claims g p.workers ≤ get_count g p.scheduler.workers

enter-IsUnique : (o : Option Str) (m : Counts) → IsUnique m → IsUnique (enter o m)
enter-IsUnique none m h = h
enter-IsUnique (some g) m h = bump-IsUnique g m h

enter-count :
    (g : Str) (o : Option Str) (m : Counts) → get_count g (enter o m) ≡ get_count g m + one_if g o
enter-count g none m = omega arith
enter-count g (some h) m = ground (arith, get_count-bump h g m)

-- What `take` does to the counts, for a thread that stood on `current`: the case's group, if any,
-- takes the place of `current`.
abbrev CountsAfter : Option Str → Counts → Option Case × Scheduler → Type 0
CountsAfter current m (none, s) =
    IsUnique s.workers × ((g : Str) → get_count g m ≤ get_count g s.workers + one_if g current)
CountsAfter current m (some c, s) =
    IsUnique s.workers
    × ((g : Str) → get_count g m + one_if g c.group ≤ get_count g s.workers + one_if g current)

take_at-counts :
    (s : Scheduler) (o : Option ℕ) → IsUnique s.workers → CountsAfter none s.workers (take_at s o)
unfolding take_at finish_take
take_at-counts s none u = (u, λ g. omega arith)
take_at-counts s (some i) u = go (remove_at i s.pending)
  where
    go :
        (o : Option (Case × List Case))
        → CountsAfter none s.workers (finish_take (λ h. enter h s.workers) s o)
    go none = (u, λ g. omega arith)
    go (some (c, cs)) =
        (enter-IsUnique c.group s.workers u, λ g. omega (arith, enter-count g c.group s.workers))

leave-count :
    (h : Str) (m : Counts)
    → IsUnique m
    → (g : Str) → get_count g m ≤ get_count g (leave_counts h m) + one_if g (some h)
leave-count h m u g = ground (arith, get_count-leave h g m u)

weaken :
    (h : Str) (m : Counts) (s : Scheduler) (o : Option Case × Scheduler)
    → ((g : Str) → get_count g m ≤ get_count g s.workers + one_if g (some h))
    → CountsAfter none s.workers o
    → CountsAfter (some h) m o
weaken h m s (none, t) k (u, f) = (u, λ g. omega (arith, k g, f g))
weaken h m s (some c, t) k (u, f) = (u, λ g. omega (arith, k g, f g))

keep_head-group :
    (h : Str) (d : Case) (o : Option (Case × List Case))
    → ((c : Case) (rest : List Case) → o ≡ some (c, rest) → in_group c.group h ≡ true)
    → (c : Case) (rest : List Case) → keep_head d o ≡ some (c, rest)
    → in_group c.group h ≡ true
keep_head-group h d none f c rest q = cc
keep_head-group h d (some (b, bs)) f c rest q = ground (arith, f b bs refl)

-- The case at the position found is of the group.
position-group :
    (h : Str) (j : ℕ) (cs : List Case) (i : ℕ)
    → position h j cs ≡ some i
    → (k : ℕ) × (i ≡ j + k)
      × ((c : Case) (rest : List Case)
          → remove_at k cs ≡ some (c, rest)
          → in_group c.group h ≡ true)
unfolding position remove_at
position-group h j [] i e = cc
position-group h j (d ∷ cs) i e = elim (Bool-cases (in_group d.group h)) [
  | inl t ↦ (0, ground arith, λ c rest q. ground arith)
  | inr t ↦
      let (k, p, f) = position-group h (suc j) cs i (rw t at e) in
      (suc k, omega (arith, p), keep_head-group h d (remove_at k cs) f)
]

one_if_same : (g h : Str) (o : Option Str) → in_group o h ≡ true → one_if g o ≡ one_if g (some h)
one_if_same g h none e = cc
one_if_same g h (some k) e = ground (arith, str_eq_iff k h)

stay-counts :
    (h : Str) (s : Scheduler) (o : Option (Case × List Case))
    → ((c : Case) (rest : List Case) → o ≡ some (c, rest) → in_group c.group h ≡ true)
    → IsUnique s.workers
    → CountsAfter (some h) s.workers (finish_take (λ g. s.workers) s o)
unfolding finish_take
stay-counts h s none f u = (u, λ g. omega arith)
stay-counts h s (some (c, cs)) f u = (u, λ g. omega (arith, one_if_same g h c.group (f c cs refl)))

take-CountsAfter :
    (o : Option Str) (s : Scheduler) → IsUnique s.workers → CountsAfter o s.workers (take o s)
unfolding take take_in take_best leave
take-CountsAfter none s u = take_at-counts s (best_index s) u
take-CountsAfter (some h) s u = go (position h 0 s.pending) refl
  where
    go :
        (o : Option ℕ) → position h 0 s.pending ≡ o → CountsAfter (some h) s.workers (take_in h s o)
    go none e =
        weaken h s.workers (leave h s) (take_best (leave h s)) (leave-count h s.workers u)
          (take_at-counts (leave h s) (best_index (leave h s)) (leave-IsUnique h s.workers u))
    go (some i) e =
        let (k, p, f) = position-group h 0 s.pending i e in
        stay-counts h s (remove_at i s.pending)
          (subst
            (λ (j : ℕ).
              (c : Case) (rest : List Case)
              → remove_at j s.pending ≡ some (c, rest)
              → in_group c.group h ≡ true)
            (omega (arith, p)) f)
          u

module _ {secs : ℕ} where
  -- No step takes a count below the number of threads that stand on its group.
  pub Step-IsCovered : {p q : Pool} → Step secs p q → IsCovered p → IsCovered q
  unfolding drain
  Step-IsCovered (spawned before after g) c = record {
    unique = c.unique;
    covered = λ h. omega (
      arith,
      c.covered h,
      claims-append h before (starting g ∷ after),
      claims-append h before (idle g ∷ after),
    );
  }
  Step-IsCovered (spawn_failed {s} before after g reason) c = record {
    unique = c.unique;
    covered = λ h. omega (
      arith,
      c.covered h,
      claims-append h before (starting g ∷ after),
      claims-append h before (failing s.pending reason ∷ after),
    );
  }
  Step-IsCovered (flushed before after cs reason) c = record {
    unique = c.unique;
    covered = λ h. omega (
      arith,
      c.covered h,
      claims-append h before (failing cs reason ∷ after),
      claims-append h before (stopped ∷ after),
    );
  }
  Step-IsCovered (taken {s} {s'} before after g d e) c =
      let (u, f) = subst (CountsAfter g s.workers) e (take-CountsAfter g s c.unique) in
      record {
        unique = u;
        covered = λ h. omega (
          arith,
          c.covered h,
          f h,
          claims-append h before (idle g ∷ after),
          claims-append h before (busy d ∷ after),
        );
      }
  Step-IsCovered (emptied {s} {s'} before after g e) c =
      let (u, f) = subst (CountsAfter g s.workers) e (take-CountsAfter g s c.unique) in
      record {
        unique = u;
        covered = λ h. omega (
          arith,
          c.covered h,
          f h,
          claims-append h before (idle g ∷ after),
          claims-append h before (stopped ∷ after),
        );
      }
  Step-IsCovered (reported before after d sent received result e) c = record {
    unique = c.unique;
    covered = λ h. omega (
      arith,
      c.covered h,
      claims-append h before (busy d ∷ after),
      claims-append h before (idle d.group ∷ after),
    );
  }
  Step-IsCovered (died before after d sent received reason e) c = record {
    unique = c.unique;
    covered = λ h. omega (
      arith,
      c.covered h,
      claims-append h before (busy d ∷ after),
      claims-append h before (starting d.group ∷ after),
    );
  }

claims-starting : (g : Str) (k : ℕ) → claims g (replicate k (starting none)) ≡ 0
claims-starting g zero = refl
claims-starting g (suc k) = omega (arith, claims-starting g k)

start-IsCovered : (k : ℕ) (cases : List Case) → IsCovered (start_pool k cases)
unfolding start_pool
start-IsCovered k cases = record {
  unique = tt;
  covered = λ g. omega (
    arith,
    claims-starting g (if ltb (configured k) (length cases) then configured k else length cases),
  );
}

-- At every moment of a run each group has at most one entry in the map of counts, and the count of
-- a group is at least the number of threads whose last or current case is of that group; so the
-- decrement in `leave`, which such a thread makes, never starts from zero.
pub Reach-IsCovered :
    {secs : ℕ} (k : ℕ) (cases : List Case) {p : Pool}
    → Reach secs (start_pool k cases) p
    → IsCovered p
Reach-IsCovered k cases here = start-IsCovered k cases
Reach-IsCovered k cases (next r st) = Step-IsCovered st (Reach-IsCovered k cases r)
