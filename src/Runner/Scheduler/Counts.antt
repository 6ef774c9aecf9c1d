-- ===== src/Runner/Scheduler/Counts.antt =====
-- crates/idakit-runner/src/runner.rs: the map from groups to worker counts.
use idakit.Base.{
  ◌+◌, ◌-◌, false, [], ◌∷◌, ◌≡◌, refl, Str, str_eq, str_eq_iff, if◌then◌else◌, arith, inl, inr,
  Bool-cases, All, ◌==◌,
}
use idakit.Runner.Scheduler.{Counts, get_count, bump, leave_counts}

-- Each group has at most one entry.
abbrev pub IsUnique : Counts → Type 0
IsUnique [] = Unit {0}
IsUnique (e ∷ m) = All (λ d. str_eq d.0 e.0 ≡ false) m × IsUnique m

pub get_count-bump :
    (g h : Str) (m : Counts)
    → get_count h (bump g m) ≡ (if str_eq g h then get_count h m + 1 else get_count h m)
unfolding get_count bump
get_count-bump g h [] = ground arith
get_count-bump g h ((k, n) ∷ m) =
    ground (arith, str_eq_iff k g, str_eq_iff k h, str_eq_iff g h, get_count-bump g h m)

bump-All :
    (k g : Str) (m : Counts)
    → str_eq g k ≡ false
    → All (λ d. str_eq d.0 k ≡ false) m
    → All (λ d. str_eq d.0 k ≡ false) (bump g m)
unfolding bump
bump-All k g [] e h = (e, tt)
bump-All k g ((j, n) ∷ m) e h = elim (Bool-cases (str_eq j g)) [
  | inl t ↦ rw t (h.0, h.1)
  | inr t ↦ rw t (h.0, bump-All k g m e h.1)
]

pub bump-IsUnique : (g : Str) (m : Counts) → IsUnique m → IsUnique (bump g m)
unfolding bump
bump-IsUnique g [] h = (tt, tt)
bump-IsUnique g ((k, n) ∷ m) h = elim (Bool-cases (str_eq k g)) [
  | inl t ↦ rw t (h.0, h.1)
  | inr t ↦
      rw t
        (bump-All k g m (ground (arith, str_eq_iff k g, str_eq_iff g k)) h.0, bump-IsUnique g m h.1)
]

leave-All :
    (k g : Str) (m : Counts)
    → All (λ d. str_eq d.0 k ≡ false) m
    → All (λ d. str_eq d.0 k ≡ false) (leave_counts g m)
unfolding leave_counts
leave-All k g [] h = tt
leave-All k g ((j, n) ∷ m) h = elim (Bool-cases (str_eq j g)) [
  | inl t ↦ elim (Bool-cases (n - 1 == 0)) [ inl z ↦ rw (t, z) h.1 | inr z ↦ rw (t, z) (h.0, h.1) ]
  | inr t ↦ rw t (h.0, leave-All k g m h.1)
]

pub leave-IsUnique : (g : Str) (m : Counts) → IsUnique m → IsUnique (leave_counts g m)
unfolding leave_counts
leave-IsUnique g [] h = tt
leave-IsUnique g ((k, n) ∷ m) h = elim (Bool-cases (str_eq k g)) [
  | inl t ↦ elim (Bool-cases (n - 1 == 0)) [ inl z ↦ rw (t, z) h.1 | inr z ↦ rw (t, z) (h.0, h.1) ]
  | inr t ↦ rw t (leave-All k g m h.0, leave-IsUnique g m h.1)
]

get_count_absent : (g : Str) (m : Counts) → All (λ d. str_eq d.0 g ≡ false) m → get_count g m ≡ 0
unfolding get_count
get_count_absent g [] h = refl
get_count_absent g ((k, n) ∷ m) h = rw h.0 (get_count_absent g m h.1)

pub get_count-leave :
    (g h : Str) (m : Counts)
    → IsUnique m
    → get_count h (leave_counts g m) ≡ (if str_eq g h then get_count h m - 1 else get_count h m)
unfolding get_count leave_counts
get_count-leave g h [] u = ground arith
get_count-leave g h ((k, n) ∷ m) u = elim (Bool-cases (str_eq k g)) [
  | inl t ↦ elim (Bool-cases (str_eq k h)) [
    | inl s ↦
        ground (arith, str_eq_iff k g, str_eq_iff k h, str_eq_iff g h, get_count_absent k m u.0)
    | inr s ↦ ground (arith, str_eq_iff k g, str_eq_iff k h, str_eq_iff g h)
  ]
  | inr t ↦
      ground (arith, str_eq_iff k g, str_eq_iff k h, str_eq_iff g h, get_count-leave g h m u.1)
]
