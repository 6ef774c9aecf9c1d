-- ===== src/Arena/Laws.antt =====
-- crates/idakit/src/arena.rs: handles are fresh and stay valid.
use idakit.Base.{
  ℕ, zero, suc, ◌^◌, ◌<◌, Option, none, some, List, [], ◌∷◌, ◌++◌, ◌≡◌, refl, length, get_elem?,
  ltb, arith, inl, inr, Bool-cases,
}
use idakit.Arena.{Idx, alloc, get}

module _ {ℓ} {A : Type ℓ} where
  get_elem?-append_left :
      (a b : List A) (i : ℕ) {x : A} → get_elem? a i ≡ some x → get_elem? (a ++ b) i ≡ some x
  get_elem?-append_left [] b i h = cc
  get_elem?-append_left (y ∷ a) b zero h = h
  get_elem?-append_left (y ∷ a) b (suc i) h = get_elem?-append_left a b i h

  get_elem?-append_end : (a : List A) (x : A) → get_elem? (a ++ (x ∷ [])) (length a) ≡ some x
  get_elem?-append_end [] x = refl
  get_elem?-append_end (y ∷ a) x = get_elem?-append_end a x

  pub get_elem?-lt : (a : List A) (i : ℕ) {x : A} → get_elem? a i ≡ some x → i < length a
  get_elem?-lt [] i h = cc
  get_elem?-lt (y ∷ a) zero h = omega arith
  get_elem?-lt (y ∷ a) (suc i) h = omega (arith, get_elem?-lt a i h)

  -- The handle that `alloc` returns is one that was not valid before and reads the new value, and
  -- every handle that was valid still reads its own value.
  pub alloc_fresh_and_stable :
      (x : A) (a b : List A) (i : Idx)
      → alloc x a ≡ some (i, b)
      → (get a i ≡ none)
        × (get b i ≡ some x)
        × ((j : Idx) (y : A) → get a j ≡ some y → get b j ≡ some y)
  unfolding alloc get
  alloc_fresh_and_stable x a b i h = elim (Bool-cases (ltb (length a) (2 ^ 32))) [
    | inl e ↦
        let q : ◌≡◌ {A = Option (Idx × List A)} (some (length a, a ++ (x ∷ []))) (some (i, b)) =
          rw e at h in
        let hi : length a ≡ i = cc q in
        let hb : a ++ (x ∷ []) ≡ b = cc q in
        (
          rw (← hi) (past a),
          rw (← hi, ← hb) (get_elem?-append_end a x),
          λ j y g. rw (← hb) (get_elem?-append_left a (x ∷ []) j g),
        )
    | inr e ↦ absurd (none_ne (rw e at h))
  ]
    where
      past : (c : List A) → get_elem? c (length c) ≡ none
      past [] = refl
      past (y ∷ c) = past c

      none_ne : ◌≡◌ {A = Option (Idx × List A)} none (some (i, b)) → ⊥
      none_ne e = cc
