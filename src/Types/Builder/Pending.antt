-- ===== src/Types/Builder/Pending.antt =====
-- crates/idakit/src/types/builder.rs: reserving a handle and filling it keep the builder sound.
use idakit.Base.{
  ℕ_discrete, Bool, true, false, Option, none, some, List, [], ◌∷◌, Str, str_eq, str_eq_sound,
  if◌then◌else◌, ◌≡◌, ◌≢◌, refl, sym, ◌∙◌, ap, subst, arith, ◌⊎◌, inl, inr,
}
use idakit.Types.Table.{TypeId, TypeValue, TypeTable, tag_name, find_dedup, placeholder, get_type}
use idakit.Types.Table.Intern.{IsReserved, some_ne}
use idakit.Types.Builder.{find_name, find_pending, remove_pending}
use idakit.Types.Builder.Sound.{
  IsSettled, IsSound, IsGrown-IsSound, IsReserving, IsReserving-IsReserved, IsReserving-IsGrown,
  IsFilling,
}

find_pending-remove_self :
    (i : TypeId) (ps : List (TypeId × Option Str)) → find_pending i (remove_pending i ps) ≡ none
unfolding find_pending remove_pending
find_pending-remove_self i [] = refl
find_pending-remove_self i ((j, n) ∷ ps) = ground (arith, find_pending-remove_self i ps)

find_pending-remove_other :
    (i j : TypeId) (ps : List (TypeId × Option Str))
    → i ≢ j
    → find_pending j (remove_pending i ps) ≡ find_pending j ps
unfolding find_pending remove_pending
find_pending-remove_other i j [] h = refl
find_pending-remove_other i j ((m, n) ∷ ps) h = ground (arith, find_pending-remove_other i j ps h)

find_pending-cons :
    (i j : TypeId) (o : Option Str) (ps : List (TypeId × Option Str))
    → ((j ≡ i) × (find_pending j ((i, o) ∷ ps) ≡ some o))
      ⊎ ((i ≢ j) × (find_pending j ((i, o) ∷ ps) ≡ find_pending j ps))
unfolding find_pending
find_pending-cons i j o ps = ground arith

abbrev Waits : TypeTable → TypeId → Type 0
Waits t i = IsReserved i t × (v : TypeValue) × (get_type t i ≡ some v)

other :
    (i : TypeId) (o : Option Str) (ps : List (TypeId × Option Str)) (m : TypeId)
    → i ≢ m
    → find_pending m ((i, o) ∷ ps) ≡ find_pending m ps
other i o ps m d = elim (find_pending-cons i m o ps) [
  | inl (e, q) ↦ absurd (d (sym e))
  | inr (e, q) ↦ q
]

settled_beside :
    (t : TypeTable) (i : TypeId) (o : Option Str) (ps : List (TypeId × Option Str)) (n : Str)
    (m : TypeId)
    → i ≢ m
    → IsSettled t ps n m
    → IsSettled t ((i, o) ∷ ps) n m
settled_beside t i o ps n m d (inl p) = inl (other i o ps m d ∙ p)
settled_beside t i o ps n m d (inr (p, v, g, q)) = inr (other i o ps m d ∙ p, v, g, q)

none_ne : {A : Type 0} {a : A} → ◌≡◌ {A = Option A} none (some a) → ⊥
none_ne e = cc

some_same : {A : Type 0} {a b : A} → some a ≡ some b → a ≡ b
some_same e = cc

module _ {t t' : TypeTable} {ns : List (Str × TypeId)} {ps : List (TypeId × Option Str)}
    {i : TypeId} where
  -- A handle that was just reserved was not pending, and no name had it.
  fresh_for :
      IsReserving t i t'
      → IsSound t ns ps
      → (m : TypeId) (o : Option Str) → find_pending m ps ≡ some o
      → i ≢ m
  fresh_for r s m o h e =
      let (q, v, g) = s.reserved m o h in some_ne (sym r.fresh ∙ ap (get_type t) e ∙ g)

  fresh_settled :
      IsReserving t i t' → IsSound t ns ps → (n : Str) (m : TypeId) → IsSettled t ps n m → i ≢ m
  fresh_settled r s n m (inl p) e = fresh_for r s m (some n) p e
  fresh_settled r s n m (inr (p, v, g, q)) e = some_ne (sym r.fresh ∙ ap (get_type t) e ∙ g)

  pending-Waits :
      (o : Option Str)
      → IsReserving t i t'
      → IsSound t ns ps
      → (m : TypeId) (q : Option Str) → find_pending m ((i, o) ∷ ps) ≡ some q
      → Waits t' m
  pending-Waits o r s m q h = elim (find_pending-cons i m o ps) [
    | inl (e, p) ↦
        subst (Waits t') (sym e) (IsReserving-IsReserved r s.consistent, placeholder, r.reads)
    | inr (e, p) ↦ (IsGrown-IsSound (IsReserving-IsGrown r s.consistent) s).reserved m q (sym p ∙ h)
  ]

  old_names :
      (o : Option Str)
      → IsReserving t i t'
      → IsSound t ns ps
      → (n : Str) (m : TypeId) → find_name n ns ≡ some m
      → IsSettled t' ((i, o) ∷ ps) n m
  old_names o r s n m h =
      settled_beside t' i o ps n m (fresh_settled r s n m (s.names n m h))
        ((IsGrown-IsSound (IsReserving-IsGrown r s.consistent) s).names n m h)

  pub anon-IsSound : IsReserving t i t' → IsSound t ns ps → IsSound t' ns ((i, none) ∷ ps)
  anon-IsSound r s = record {
    consistent = (IsReserving-IsGrown r s.consistent).consistent;
    reserved = pending-Waits none r s;
    names = old_names none r s;
  }

  pub reserve_name-IsSound :
      (n : Str) → IsReserving t i t' → IsSound t ns ps → IsSound t' ((n, i) ∷ ns) ((i, some n) ∷ ps)
  reserve_name-IsSound n r s = record {
    consistent = (IsReserving-IsGrown r s.consistent).consistent;
    reserved = pending-Waits (some n) r s;
    names = λ m j h. go m j (str_eq m n) refl (unfold find_name in h);
  }
    where
      mine : (j : TypeId) → i ≡ j → IsSettled t' ((i, some n) ∷ ps) n j
      mine j e = elim (find_pending-cons i j (some n) ps) [
        | inl (q, p) ↦ inl p
        | inr (q, p) ↦ absurd (q e)
      ]

      go :
          (m : Str) (j : TypeId) (b : Bool)
          → str_eq m n ≡ b
          → (if b then some i else find_name m ns) ≡ some j
          → IsSettled t' ((i, some n) ∷ ps) m j
      go m j true e h =
          subst (λ (x : Str). IsSettled t' ((i, some n) ∷ ps) x j) (sym (str_eq_sound m n e))
            (mine j (cc h))
      go m j false e h = old_names (some n) r s m j h

  -- Filling a pending handle with a type of the name that it was reserved for.
  pub fill-IsSound :
      (o : Option Str) (v : TypeValue)
      → find_pending i ps ≡ some o
      → IsFilling i v t t'
      → ((n : Str) → o ≡ some n → tag_name v.shape ≡ some n)
      → IsSound t ns ps
      → IsSound t' ns (remove_pending i ps)
  fill-IsSound o v h f tag s = record {
    consistent = λ w j d. consistent w j (ap (find_dedup w) (sym f.same) ∙ d);
    reserved = λ m q d. waits m q d (s.reserved m q);
    names = λ n m d. settled n m (s.names n m d);
  }
    where
      apart : (w : TypeValue) (j : TypeId) → find_dedup w t.dedup ≡ some j → i ≢ j
      apart w j d e = (s.reserved i o h).0 w (d ∙ ap some (sym e))

      consistent :
          (w : TypeValue) (j : TypeId) → find_dedup w t.dedup ≡ some j → get_type t' j ≡ some w
      consistent w j d = f.kept j (apart w j d) ∙ s.consistent w j d

      left : (m : TypeId) (q : Option Str) → find_pending m (remove_pending i ps) ≡ some q → i ≢ m
      left m q d e = none_ne (
          sym
            (ap (λ x. find_pending x (remove_pending i ps)) (sym e) ∙ find_pending-remove_self i ps)
          ∙ d)

      waits :
          (m : TypeId) (q : Option Str)
          → find_pending m (remove_pending i ps) ≡ some q
          → (find_pending m ps ≡ some q → Waits t m)
          → Waits t' m
      waits m q d k =
          let (r, w, g) = k (sym (find_pending-remove_other i m ps (left m q d)) ∙ d) in
          (λ x y. r x (ap (find_dedup x) (sym f.same) ∙ y), w, f.kept m (left m q d) ∙ g)

      filled : (n : Str) → IsSettled t ps n i → IsSettled t' (remove_pending i ps) n i
      filled n (inl p) =
          inr (find_pending-remove_self i ps, v, f.reads, tag n (some_same (sym h ∙ p)))
      filled n (inr (p, w, g, q)) = absurd (none_ne (sym p ∙ h))

      beside :
          (n : Str) (m : TypeId)
          → i ≢ m
          → IsSettled t ps n m
          → IsSettled t' (remove_pending i ps) n m
      beside n m d (inl p) = inl (find_pending-remove_other i m ps d ∙ p)
      beside n m d (inr (p, w, g, q)) =
          inr (find_pending-remove_other i m ps d ∙ p, w, f.kept m d ∙ g, q)

      settled : (n : Str) (m : TypeId) → IsSettled t ps n m → IsSettled t' (remove_pending i ps) n m
      settled n m w = elim (ℕ_discrete i m) [
        | yes e ↦
            subst (IsSettled t' (remove_pending i ps) n) e
              (filled n (subst (IsSettled t ps n) (sym e) w))
        | no d ↦ beside n m d w
      ]
