-- ===== src/Runner/Scheduler/Best.antt =====
-- crates/idakit-runner/src/runner.rs: `best_index` picks the best fraction, and the group a worker
-- stays in.
use native.Mathlib.Nat.{zero-add}
use idakit.Base.{
  ℕ, zero, suc, ◌+◌, ◌*◌, ◌≤◌, ◌<◌, true, false, Option, none, some, List, [], ◌∷◌, ◌≡◌, refl, sym,
  ◌∙◌, ap, take as take_list, drop as drop_list, ◌++◌, All, ◌⊎◌, subst, Str, get_elem?, arith, inl,
  inr, Bool-cases,
}
use idakit.Runner.Scheduler.{
  Case, Counts, Scheduler, in_group, position, remove_at, best_index, best_loop, Best, is_better,
  index_of, finish_take, take_in, take, score, pending_per_group,
}

-- a / b ≤ c / d, cross-multiplied as the source compares them.
abbrev pub FractionLe : ℕ × ℕ → ℕ × ℕ → Type 0
FractionLe p q = p.0 * q.1 ≤ q.0 * p.1

abbrev pub FractionLt : ℕ × ℕ → ℕ × ℕ → Type 0
FractionLt p q = p.0 * q.1 < q.0 * p.1

le_of_mul : (a b w : ℕ) → 0 < w → a * w ≤ b * w → a ≤ b
le_of_mul a b w h k = grind arith

lt_of_mul : (a b w : ℕ) → a * w < b * w → a < b
lt_of_mul a b w k = grind arith

mul_le : (a b w : ℕ) → a ≤ b → a * w ≤ b * w
mul_le a b w h = grind arith

mul_lt : (a b w : ℕ) → 0 < w → a < b → a * w < b * w
mul_lt a b w h k = grind arith

-- p ≤ q and q < r give p < r, for positive denominators.
fraction_trans :
    (p q r : ℕ × ℕ) → 0 < p.1 → 0 < q.1 → FractionLe p q → FractionLt q r → FractionLt p r
fraction_trans (a, b) (c, d) (e, f) hb hd h k =
    lt_of_mul (a * f) (e * b) d
      (omega (arith, mul_le (a * d) (c * b) f h, mul_lt (c * f) (e * d) b hb k))

-- The case at the position `j` has the score `q`, no earlier case reaches it and no case exceeds it.
pub record IsWinner (f : Option Str → ℕ × ℕ) (cs : List Case) (j : ℕ) (q : ℕ × ℕ) : Type 0 where
  pub case : Case
  pub at : get_elem? cs j ≡ some case
  pub scored : f case.group ≡ q
  pub before : All (λ c. FractionLt (f c.group) q) (take_list j cs)
  pub best : All (λ c. FractionLe (f c.group) q) cs

module _ (f : Option Str → ℕ × ℕ) (positive : (g : Option Str) → 0 < (f g).1) where
  -- What the loop returns from a best so far, of score `p`: that one, which no case exceeds, or a
  -- winner that exceeds it.
  abbrev LoopResult : ℕ → List Case → ℕ → ℕ × ℕ → ℕ → ℕ × ℕ → Type 0
  LoopResult i cs b p k q =
      ((k ≡ b) × (q ≡ p) × All (λ c. FractionLe (f c.group) p) cs)
      ⊎ ((j : ℕ) × (k ≡ i + j) × FractionLt p q × IsWinner f cs j q)

  lt_le : (p q : ℕ × ℕ) → FractionLt p q → FractionLe p q
  lt_le p q h = omega arith

  better_result :
      (i : ℕ) (c : Case) (cs : List Case) (b : ℕ) (p : ℕ × ℕ) (k : ℕ) (q : ℕ × ℕ)
      → 0 < p.1
      → FractionLt p (f c.group)
      → LoopResult (suc i) cs i (f c.group) k q
      → LoopResult i (c ∷ cs) b p k q
  better_result i c cs b p k q hp h (inl (e, s, a)) = inr (
    0,
    omega (arith, e),
    subst (FractionLt p) (sym s) h,
    record {
      case = c;
      at = refl;
      scored = sym s;
      before = tt;
      best = subst (λ r. All (λ d. FractionLe (f d.group) r) (c ∷ cs)) (sym s) (omega arith, a);
    },
  )
  better_result i c cs b p k q hp h (inr (j, e, l, w)) = inr (
    suc j,
    omega (arith, e),
    fraction_trans p (f c.group) q hp (positive c.group) (lt_le p (f c.group) h) l,
    record {
      case = w.case;
      at = w.at;
      scored = w.scored;
      before = (l, w.before);
      best = (lt_le (f c.group) q l, w.best);
    },
  )

  worse_result :
      (i : ℕ) (c : Case) (cs : List Case) (b : ℕ) (p : ℕ × ℕ) (k : ℕ) (q : ℕ × ℕ)
      → 0 < p.1
      → FractionLe (f c.group) p
      → LoopResult (suc i) cs b p k q
      → LoopResult i (c ∷ cs) b p k q
  worse_result i c cs b p k q hp h (inl (e, s, a)) = inl (e, s, (h, a))
  worse_result i c cs b p k q hp h (inr (j, e, l, w)) =
      let below = fraction_trans (f c.group) p q (positive c.group) hp h l in
      inr (
        suc j,
        omega (arith, e),
        l,
        record {
          case = w.case;
          at = w.at;
          scored = w.scored;
          before = (below, w.before);
          best = (lt_le (f c.group) q below, w.best);
        },
      )

  best_loop-LoopResult :
      (i : ℕ) (cs : List Case) (b : ℕ) (p : ℕ × ℕ) (k : ℕ) (q : ℕ × ℕ)
      → 0 < p.1
      → best_loop f i cs (some (b, p.0, p.1)) ≡ some (k, q.0, q.1)
      → LoopResult i cs b p k q
  unfolding best_loop
  best_loop-LoopResult i [] b p k q hp h = inl (ground arith, ground arith, tt)
  best_loop-LoopResult i (c ∷ cs) b p k q hp h =
      elim (Bool-cases (is_better (f c.group) (some (b, p.0, p.1)))) [
        | inl e ↦
            better_result i c cs b p k q hp (ground arith)
              (best_loop-LoopResult (suc i) cs i (f c.group) k q (positive c.group) (rw e at h))
        | inr e ↦
            worse_result i c cs b p k q hp (ground arith)
              (best_loop-LoopResult (suc i) cs b p k q hp (rw e at h))
      ]

  start_result :
      (i : ℕ) (c : Case) (cs : List Case) (k : ℕ) (q : ℕ × ℕ)
      → LoopResult (suc i) cs i (f c.group) k q
      → (j : ℕ) × (k ≡ i + j) × IsWinner f (c ∷ cs) j q
  start_result i c cs k q (inl (e, s, a)) = (
    0,
    omega (arith, e),
    record {
      case = c;
      at = refl;
      scored = sym s;
      before = tt;
      best = subst (λ r. All (λ d. FractionLe (f d.group) r) (c ∷ cs)) (sym s) (omega arith, a);
    },
  )
  start_result i c cs k q (inr (j, e, l, w)) = (
    suc j,
    omega (arith, e),
    record {
      case = w.case;
      at = w.at;
      scored = w.scored;
      before = (l, w.before);
      best = (lt_le (f c.group) q l, w.best);
    },
  )

  best_loop-IsWinner :
      (cs : List Case) (k : ℕ)
      → index_of (best_loop f 0 cs none) ≡ some k
      → (q : ℕ × ℕ) × IsWinner f cs k q
  unfolding best_loop
  best_loop-IsWinner [] k h = cc
  best_loop-IsWinner (c ∷ cs) k h =
      go (best_loop f 1 cs (some (0, (f c.group).0, (f c.group).1))) refl h
    where
      go :
          (o : Best)
          → best_loop f 1 cs (some (0, (f c.group).0, (f c.group).1)) ≡ o
          → index_of o ≡ some k
          → (q : ℕ × ℕ) × IsWinner f (c ∷ cs) k q
      go none e p = cc
      go (some (i, n, w)) e p =
          let (j, d, won) =
            start_result 0 c cs i (n, w)
              (best_loop-LoopResult 1 cs 0 (f c.group) i (n, w) (positive c.group) e) in
          ((n, w), subst (λ m. IsWinner f (c ∷ cs) m (n, w)) (ground (arith, d, p)) won)

score_pos : (p w : Counts) (g : Option Str) → 0 < (score p w g).1
unfolding score
score_pos p w none = omega arith
score_pos p w (some g) = omega arith

-- The index that `best_index` returns is that of a pending case whose fraction of pending cases to
-- workers, counting the one that would join, is at least that of every pending case, and above
-- that of every earlier one.
pub best_index-IsWinner :
    (s : Scheduler) (k : ℕ)
    → best_index s ≡ some k
    → (q : ℕ × ℕ) × IsWinner (score (pending_per_group s.pending []) s.workers) s.pending k q
unfolding best_index
best_index-IsWinner s k h = best_loop-IsWinner _ (score_pos _ _) s.pending k h

position-first :
    (g : Str) (j : ℕ) (cs : List Case) (i : ℕ) (c : Case)
    → get_elem? cs i ≡ some c
    → in_group c.group g ≡ true
    → All (λ d. in_group d.group g ≡ false) (take_list i cs)
    → position g j cs ≡ some (j + i)
unfolding position
position-first g j [] i c h t a = cc
position-first g j (d ∷ cs) zero c h t a =
    let same : c ≡ d = cc h in
    rw (subst (λ (e : Case). in_group e.group g ≡ true) same t) (ap some (omega arith))
position-first g j (d ∷ cs) (suc i) c h t a =
    rw a.0 (position-first g (suc j) cs i c h t a.1 ∙ ap some (omega arith))

remove_at-split :
    (i : ℕ) (cs : List Case) (c : Case)
    → get_elem? cs i ≡ some c
    → remove_at i cs ≡ some (c, take_list i cs ++ drop_list (suc i) cs)
unfolding remove_at
remove_at-split i [] c h = cc
remove_at-split zero (d ∷ cs) c h = ap (λ e. some (e, cs)) (cc h)
remove_at-split (suc i) (d ∷ cs) c h = rw (remove_at-split i cs c h)

-- A worker whose group still has a pending case is handed the first such case: the others keep
-- their order, and no count changes.
pub take-stays :
    (g : Str) (s : Scheduler) (i : ℕ) (c : Case)
    → get_elem? s.pending i ≡ some c
    → in_group c.group g ≡ true
    → All (λ d. in_group d.group g ≡ false) (take_list i s.pending)
    → take (some g) s ≡ (
      some c,
      record {
        pending = take_list i s.pending ++ drop_list (suc i) s.pending;
        workers = s.workers;
      },
    )
unfolding take finish_take
take-stays g s i c h t a =
    let found : position g 0 s.pending ≡ some i =
      position-first g 0 s.pending i c h t a ∙ ap some (zero-add i) in
    rw (found, take_in) (rw (remove_at-split i s.pending c h))
