-- ===== src/Runner/Scheduler/Order.antt =====
-- crates/idakit-runner/src/runner.rs: which case `Scheduler::take` hands out, and what it leaves.
use idakit.Base.{
  ℕ, zero, suc, ◌+◌, ◌<◌, Option, none, some, List, [], ◌∷◌, ◌≡◌, ◌≢◌, refl, subst, Str, str_eq,
  length, if◌then◌else◌, arith, inl, inr, Bool-cases,
}
use idakit.Runner.Scheduler.{
  Case, Scheduler, in_group, position, remove_at, keep_head, best_index, best_loop, Best, is_better,
  index_of, finish_take, take_at, take_best, take_in, take, leave,
}

-- How many of the cases bear the name.
abbrev pub occurrences : Str → List Case → ℕ
occurrences n [] = 0
occurrences n (c ∷ cs) = let rest = occurrences n cs in if str_eq c.name n then suc rest else rest

-- A case taken out by `remove`, with those that stay, is what was there.
abbrev IsRemoval : List Case → Option (Case × List Case) → Type 0
IsRemoval cs none = ⊥
IsRemoval cs (some (c, rest)) = (n : Str) → occurrences n cs ≡ occurrences n (c ∷ rest)

remove_at-IsRemoval : (i : ℕ) (cs : List Case) → i < length cs → IsRemoval cs (remove_at i cs)
unfolding remove_at
remove_at-IsRemoval i [] h = elim h [ ]
remove_at-IsRemoval zero (c ∷ cs) h = λ n. refl
remove_at-IsRemoval (suc i) (c ∷ cs) h =
    go (remove_at i cs) (remove_at-IsRemoval i cs (omega arith))
  where
    go : (o : Option (Case × List Case)) → IsRemoval cs o → IsRemoval (c ∷ cs) (keep_head c o)
    go none k = k
    go (some (d, ds)) k = λ n. ground (arith, k n)

position-lt :
    (g : Str) (i : ℕ) (cs : List Case) (k : ℕ) → position g i cs ≡ some k → k < i + length cs
unfolding position
position-lt g i [] k h = cc
position-lt g i (c ∷ cs) k h = elim (Bool-cases (in_group c.group g)) [
  | inl e ↦ ground arith
  | inr e ↦ omega (arith, position-lt g (suc i) cs k (rw e at h))
]

best_loop-lt :
    (f : Option Str → ℕ × ℕ) (i : ℕ) (cs : List Case) (best : Best) (k : ℕ)
    → ((j : ℕ) → index_of best ≡ some j → j < i)
    → index_of (best_loop f i cs best) ≡ some k
    → k < i + length cs
unfolding best_loop
best_loop-lt f i [] best k b h = omega (arith, b k h)
best_loop-lt f i (c ∷ cs) best k b h = elim (Bool-cases (is_better (f c.group) best)) [
  | inl e ↦ omega (
    arith,
    best_loop-lt f (suc i) cs (some (i, (f c.group).0, (f c.group).1)) k (λ j p. ground arith)
        (rw e at h),
  )
  | inr e ↦
      omega (arith, best_loop-lt f (suc i) cs best k (λ j p. omega (arith, b j p)) (rw e at h))
]

best_index-lt : (s : Scheduler) (k : ℕ) → best_index s ≡ some k → k < length s.pending
unfolding best_index
best_index-lt s k h = omega (arith, best_loop-lt _ 0 s.pending none k (λ j p. cc) h)

-- The loop finds something as soon as there is a case.
best_loop-some :
    (f : Option Str → ℕ × ℕ) (i : ℕ) (cs : List Case) (b : ℕ × ℕ × ℕ)
    → index_of (best_loop f i cs (some b)) ≢ none
unfolding best_loop
best_loop-some f i [] (j, n, w) = λ e. cc
best_loop-some f i (c ∷ cs) b = elim (Bool-cases (is_better (f c.group) (some b))) [
  | inl e ↦ rw e (best_loop-some f (suc i) cs _)
  | inr e ↦ rw e (best_loop-some f (suc i) cs b)
]

best_index-none : (s : Scheduler) → best_index s ≡ none → s.pending ≡ []
unfolding best_index best_loop
best_index-none s h = go _ s.pending h
  where
    go :
        (f : Option Str → ℕ × ℕ) (cs : List Case)
        → index_of (best_loop f 0 cs none) ≡ none
        → cs ≡ []
    go f [] e = refl
    go f (c ∷ cs) e = absurd (best_loop-some _ 1 cs _ e)

-- What `take` may return: nothing, if nothing was pending; or one of the pending cases, with the
-- others left pending.
abbrev pub TakesOne : List Case → Option Case × Scheduler → Type 0
TakesOne cs (none, s) = (cs ≡ []) × (s.pending ≡ [])
TakesOne cs (some c, s) = (n : Str) → occurrences n cs ≡ occurrences n (c ∷ s.pending)

finish_take-TakesOne :
    (f : Option Str → List (Str × ℕ)) (s : Scheduler) (o : Option (Case × List Case))
    → IsRemoval s.pending o
    → TakesOne s.pending (finish_take f s o)
unfolding finish_take
finish_take-TakesOne f s none h = absurd h
finish_take-TakesOne f s (some (c, cs)) h = h

take_best-TakesOne : (s : Scheduler) → TakesOne s.pending (take_best s)
unfolding take_best take_at
take_best-TakesOne s = go (best_index s) refl
  where
    go : (o : Option ℕ) → best_index s ≡ o → TakesOne s.pending (take_at s o)
    go none e = (best_index-none s e, best_index-none s e)
    go (some i) e =
        finish_take-TakesOne _ s (remove_at i s.pending)
          (remove_at-IsRemoval i s.pending (best_index-lt s i e))

-- `take` hands out nothing exactly when nothing is pending, and otherwise exactly one of the
-- pending cases, leaving all the others: none is lost and none is handed out twice.
pub take-TakesOne : (current : Option Str) (s : Scheduler) → TakesOne s.pending (take current s)
unfolding take take_in
take-TakesOne none s = take_best-TakesOne s
take-TakesOne (some g) s = go (position g 0 s.pending) refl
  where
    go : (o : Option ℕ) → position g 0 s.pending ≡ o → TakesOne s.pending (take_in g s o)
    go none e = unfold leave in take_best-TakesOne (leave g s)
    go (some i) e =
        finish_take-TakesOne _ s (remove_at i s.pending)
          (remove_at-IsRemoval i s.pending (omega (arith, position-lt g 0 s.pending i e)))

remove_at-length :
    (i : ℕ) (cs : List Case) (c : Case) (rest : List Case)
    → remove_at i cs ≡ some (c, rest)
    → length cs ≡ suc (length rest)
unfolding remove_at
remove_at-length i [] c rest h = cc
remove_at-length zero (d ∷ cs) c rest h = ground arith
remove_at-length (suc i) (d ∷ cs) c rest h = go (remove_at i cs) (remove_at-length i cs) h
  where
    go :
        (o : Option (Case × List Case))
        → ((b : Case) (bs : List Case) → o ≡ some (b, bs) → length cs ≡ suc (length bs))
        → keep_head d o ≡ some (c, rest)
        → suc (length cs) ≡ suc (length rest)
    go none k p = cc
    go (some (b, bs)) k p = ground (arith, k b bs refl)

-- What `take` does to the number of pending cases.
abbrev TakesLength : ℕ → Option Case × Scheduler → Type 0
TakesLength n (none, s) = n ≡ length s.pending
TakesLength n (some c, s) = n ≡ suc (length s.pending)

finish_take-length :
    (f : Option Str → List (Str × ℕ)) (s : Scheduler) (i : ℕ)
    → TakesLength (length s.pending) (finish_take f s (remove_at i s.pending))
unfolding finish_take
finish_take-length f s i = go (remove_at i s.pending) refl
  where
    go :
        (o : Option (Case × List Case))
        → remove_at i s.pending ≡ o
        → TakesLength (length s.pending) (finish_take f s o)
    go none e = refl
    go (some (c, cs)) e = remove_at-length i s.pending c cs e

take_best-length : (s : Scheduler) → TakesLength (length s.pending) (take_best s)
unfolding take_best take_at
take_best-length s = go (best_index s)
  where
    go : (o : Option ℕ) → TakesLength (length s.pending) (take_at s o)
    go none = refl
    go (some i) = finish_take-length _ s i

take-TakesLength : (g : Option Str) (s : Scheduler) → TakesLength (length s.pending) (take g s)
unfolding take take_in
take-TakesLength none s = take_best-length s
take-TakesLength (some g) s = go (position g 0 s.pending)
  where
    go : (o : Option ℕ) → TakesLength (length s.pending) (take_in g s o)
    go none = unfold leave in take_best-length (leave g s)
    go (some i) = finish_take-length _ s i

-- One fewer is pending after a case is handed out, and as many after nothing is.
pub take-length :
    (g : Option Str) (s : Scheduler)
    → ((c : Case) (s' : Scheduler)
        → take g s ≡ (some c, s')
        → length s.pending ≡ suc (length s'.pending))
      × ((s' : Scheduler) → take g s ≡ (none, s') → length s.pending ≡ length s'.pending)
take-length g s = (
  λ c s' e. subst (TakesLength (length s.pending)) e (take-TakesLength g s),
  λ s' e. subst (TakesLength (length s.pending)) e (take-TakesLength g s),
)
