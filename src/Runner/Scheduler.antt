-- ===== src/Runner/Scheduler.antt =====
-- crates/idakit-runner/src/runner.rs: `Case`, `Scheduler` and its operations.
--
-- The two `HashMap`s from group to count are association lists with one entry for a key. `*count
-- -= 1` is on a count that is at least 1 (`leave`): a zero count, which would panic in the source,
-- stays 0 here and its entry is removed.
pub mod Counts
pub mod Best
pub mod Order
use idakit.Base.{
  ℕ, zero, suc, ◌+◌, ◌-◌, ◌*◌, Bool, true, false, Option, none, some, List, [], ◌∷◌, ◌++◌, Str,
  str_eq, ltb, if◌then◌else◌, ◌==◌,
}

pub record Case : Type 0 where
  pub name : Str
  pub group : Option Str

abbrev pub Counts : Type 0
Counts = List (Str × ℕ)

-- `map.get(group).copied().unwrap_or(0)`.
unfoldable pub get_count : Str → Counts → ℕ
get_count g [] = 0
get_count g ((h, n) ∷ m) = if str_eq h g then n else get_count g m

-- `*map.entry(group).or_default() += 1`.
unfoldable pub bump : Str → Counts → Counts
bump g [] = (g, 1) ∷ []
bump g ((h, n) ∷ m) = if str_eq h g then (h, n + 1) ∷ m else (h, n) ∷ bump g m

pub record Scheduler : Type 0 where
  pub pending : List Case
  pub workers : Counts

-- `Scheduler::leave`, on the map: decrements, and removes an entry that reaches 0.
unfoldable pub leave_counts : Str → Counts → Counts
leave_counts g [] = []
leave_counts g ((h, n) ∷ m) =
    let rest = leave_counts g m in
    if str_eq h g then (if n - 1 == 0 then m else (h, n - 1) ∷ m) else (h, n) ∷ rest

unfoldable pub leave : Str → Scheduler → Scheduler
unfolding leave_counts
leave g s = record s { workers = leave_counts g s.workers }

abbrev pub in_group : Option Str → Str → Bool
in_group none g = false
in_group (some h) g = str_eq h g

-- `pending.iter().position(|case| case.group.as_deref() == Some(group))`, from index `i` on.
unfoldable pub position : Str → ℕ → List Case → Option ℕ
position g i [] = none
position g i (c ∷ cs) =
    let later = position g (suc i) cs in if in_group c.group g then some i else later

abbrev pub keep_head : Case → Option (Case × List Case) → Option (Case × List Case)
keep_head c none = none
keep_head c (some (d, ds)) = some (d, c ∷ ds)

-- `pending.remove(index)`: the case taken out, and those left; `none` where `remove` panics.
unfoldable pub remove_at : ℕ → List Case → Option (Case × List Case)
remove_at i [] = none
remove_at zero (c ∷ cs) = some (c, cs)
remove_at (suc i) (c ∷ cs) = keep_head c (remove_at i cs)

-- One more on the count of a case's group, if it has one.
abbrev pub enter : Option Str → Counts → Counts
enter none m = m
enter (some g) m = bump g m

-- The first loop of `best_index`.
unfoldable pub pending_per_group : List Case → Counts → Counts
unfolding bump
pending_per_group [] m = m
pending_per_group (c ∷ cs) m = pending_per_group cs (enter c.group m)

-- A case's score is the fraction cases / workers.
unfoldable pub score : Counts → Counts → Option Str → ℕ × ℕ
unfolding get_count
score per_group workers none = (1, 1)
score per_group workers (some g) = (get_count g per_group, get_count g workers + 1)

-- The best index so far with its fraction; a later case replaces it only if strictly better.
abbrev pub Best : Type 0
Best = Option (ℕ × ℕ × ℕ)

unfoldable pub is_better : ℕ × ℕ → Best → Bool
is_better s none = true
is_better (cases, workers) (some (i, best_cases, best_workers)) =
    ltb (best_cases * workers) (cases * best_workers)

unfoldable pub best_loop : (Option Str → ℕ × ℕ) → ℕ → List Case → Best → Best
unfolding is_better
best_loop f i [] best = best
best_loop f i (c ∷ cs) best =
    best_loop f (suc i) cs
      (if is_better (f c.group) best then some (i, (f c.group).0, (f c.group).1) else best)

abbrev pub index_of : Best → Option ℕ
index_of none = none
index_of (some (i, n, w)) = some i

unfoldable pub best_index : Scheduler → Option ℕ
unfolding best_loop score pending_per_group
best_index s =
    index_of (best_loop (score (pending_per_group s.pending []) s.workers) 0 s.pending none)

-- What `take` returns once `remove` has given the case and the rest; the new counts depend on the
-- case's group. An index out of range, where `remove` panics, hands out nothing.
unfoldable pub finish_take :
    (Option Str → Counts) → Scheduler → Option (Case × List Case) → Option Case × Scheduler
finish_take workers s none = (none, s)
finish_take workers s (some (c, cs)) = (some c, record { pending = cs; workers = workers c.group })

-- The end of `take`, for a worker that is in no group: `remove(self.best_index()?)`.
unfoldable pub take_at : Scheduler → Option ℕ → Option Case × Scheduler
unfolding finish_take remove_at bump
take_at s none = (none, s)
take_at s (some i) = finish_take (λ g. enter g s.workers) s (remove_at i s.pending)

unfoldable pub take_best : Scheduler → Option Case × Scheduler
unfolding take_at best_index
take_best s = take_at s (best_index s)

-- The case of the worker's own group at the position found, or else the best after `leave`.
unfoldable pub take_in : Str → Scheduler → Option ℕ → Option Case × Scheduler
unfolding take_best finish_take remove_at leave
take_in g s (some i) = finish_take (λ h. s.workers) s (remove_at i s.pending)
take_in g s none = take_best (leave g s)

-- `Scheduler::take`, for a worker whose last case was in the group `current`.
unfoldable pub take : Option Str → Scheduler → Option Case × Scheduler
unfolding take_best take_in position
take none s = take_best s
take (some g) s = take_in g s (position g 0 s.pending)

-- `Scheduler::drain`: every pending case, and nothing left.
unfoldable pub drain : Scheduler → List Case × Scheduler
drain s = (s.pending, record s { pending = [] })
