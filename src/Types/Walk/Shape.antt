-- ===== src/Types/Walk/Shape.antt =====
-- crates/idakit/src/types/diff/canonical/model.rs: what a canonical form looks like, and that sorting
-- its members keeps it.
use idakit.Base.{
  ℕ, suc, ◌<◌, ◌≤◌, Bool, true, false, Option, none, some, List, [], ◌∷◌, ◌≡◌, refl, subst, str_le,
  length, arith, if◌then◌else◌, ◌==◌,
}
use idakit.Canonical.{
  RecordKind, CanonicalType, CanonicalMember, Members, Params, member, no_members, more_members,
  no_params, more_params,
}
use idakit.Types.Table.{TypeId}
use idakit.Types.Walk.{one_more, levels_up, insert_member, sort_members, arrange}

-- A type under `d` spelled aggregates, below the root: an aggregate or enum that is spelled has no
-- tag, and a back-reference leads to one of the `d` aggregates.
unfoldable mutual
  pub IsBelow : ℕ → CanonicalType → Type 0
  IsBelow d (CanonicalType.ptr t w) = IsBelow d t
  IsBelow d (CanonicalType.array t n) = IsBelow d t
  IsBelow d (CanonicalType.aggregate tag k ms s) = (tag ≡ none) × AreBelow (suc d) ms
  IsBelow d (CanonicalType.enumeration tag u cs s) = (tag ≡ none) × IsBelow d u
  IsBelow d (CanonicalType.function r ps v) = IsBelow d r × ParamsBelow d ps
  IsBelow d (CanonicalType.typedef n t) = IsBelow d t
  IsBelow d (CanonicalType.back_ref n) = (0 < n) × (n ≤ d)
  IsBelow d _ = Unit {0}

  pub AreBelow : ℕ → Members → Type 0
  AreBelow d no_members = Unit {0}
  AreBelow d (more_members (member n o w t) ms) = IsBelow d t × AreBelow d ms

  pub ParamsBelow : ℕ → Params → Type 0
  ParamsBelow d no_params = Unit {0}
  ParamsBelow d (more_params p ps) = IsBelow d p × ParamsBelow d ps

-- A root: never a bare reference; it may have a tag, and what it spells is below it.
unfoldable pub IsRoot : CanonicalType → Type 0
unfolding IsBelow
IsRoot (CanonicalType.named tag kind) = ⊥
IsRoot (CanonicalType.back_ref n) = ⊥
IsRoot (CanonicalType.aggregate tag k ms s) = AreBelow 1 ms
IsRoot (CanonicalType.enumeration tag u cs s) = IsBelow 0 u
IsRoot t = IsBelow 0 t

pub some_eq : {A : Type 0} {a b : A} → some a ≡ some b → a ≡ b
some_eq e = cc

pub levels_up-bounds :
    (i : TypeId) (st : List TypeId) (n : ℕ) → levels_up i st ≡ some n → (0 < n) × (n ≤ length st)
unfolding levels_up
levels_up-bounds i [] n h = cc
levels_up-bounds i (x ∷ st) n h = go (x == i) (levels_up i st) (λ m. levels_up-bounds i st m) h
  where
    go :
        (w : Bool) (o : Option ℕ)
        → ((m : ℕ) → o ≡ some m → (0 < m) × (m ≤ length st))
        → (if w then some 1 else one_more o) ≡ some n
        → (0 < n) × (n ≤ suc (length st))
    go true o ih q =
        subst (λ (m : ℕ). (0 < m) × (m ≤ suc (length st))) (some_eq q) (omega arith, omega arith)
    go false none ih q = absurd (none_number q)
      where
        none_number : ◌≡◌ {A = Option ℕ} none (some n) → ⊥
        none_number e = cc
    go false (some m) ih q =
        let b = ih m refl in
        subst (λ (m : ℕ). (0 < m) × (m ≤ suc (length st))) (some_eq q)
          (omega arith, omega (arith, b.1))

pub insert_member-AreBelow :
    (d : ℕ) (m : CanonicalMember) (ms : Members)
    → AreBelow d (more_members m no_members)
    → AreBelow d ms
    → AreBelow d (insert_member m ms)
unfolding insert_member AreBelow
insert_member-AreBelow d (member n o w t) no_members h k = h
insert_member-AreBelow d (member n o w t) (more_members (member p q v u) ms) h k =
    go (str_le n p) (insert_member-AreBelow d (member n o w t) ms h k.1)
  where
    go :
        (b : Bool)
        → AreBelow d (insert_member (member n o w t) ms)
        → AreBelow d (
            if b
            then more_members (member n o w t) (more_members (member p q v u) ms)
            else more_members (member p q v u) (insert_member (member n o w t) ms))
    go true r = (h.0, k)
    go false r = (k.0, r)

pub sort_members-AreBelow : (d : ℕ) (ms : Members) → AreBelow d ms → AreBelow d (sort_members ms)
unfolding sort_members AreBelow
sort_members-AreBelow d no_members h = h
sort_members-AreBelow d (more_members (member n o w t) ms) h =
    insert_member-AreBelow d (member n o w t) (sort_members ms) (h.0, tt)
      (sort_members-AreBelow d ms h.1)

pub arrange-AreBelow :
    (d : ℕ) (k : RecordKind) (ms : Members) → AreBelow d ms → AreBelow d (arrange k ms)
unfolding arrange
arrange-AreBelow d RecordKind.struct ms h = h
arrange-AreBelow d RecordKind.union ms h = sort_members-AreBelow d ms h
