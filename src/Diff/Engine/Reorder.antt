-- ===== src/Diff/Engine/Reorder.antt =====
-- crates/idakit/src/types/diff/canonical/engine.rs: two members in the other order are no change.
use idakit.Base.{
  ℕ, Bool, true, false, Option, none, some, List, [], ◌∷◌, ◌≡◌, ◌≢◌, refl, sym, ◌∙◌, Str, if_pos,
  if_neg, str_eq, arith, str_eq_refl, str_eq_iff, if_pos, if_neg, Bool-cases, inl, inr,
}
use idakit.Canonical.{
  CanonicalType, CanonicalMember, RecordKind, aggregate, member, no_members, more_members,
  RecordKind-discrete, CanonicalType-discrete, tag_discrete, size_discrete,
}
use idakit.Diff.Change.{Change}
use idakit.Diff.Pairing.{pair_members, any_unused, unused}
use idakit.Diff.Engine.{
  unless_equal, size_diff, width_diff, move_diff, diff_members, same_record, diff_into,
  diff_against, diff, emit_pairs, emit_removed, emit_added,
}
use idakit.Diff.Engine.Empty.{diff_into_self}

str_eq_ne : (a b : Str) → a ≢ b → str_eq a b ≡ false
str_eq_ne a b n = elim (Bool-cases (str_eq a b)) [
  | inl e ↦ absurd (n ((str_eq_iff a b).0 e))
  | inr e ↦ e
]

-- Two members of different names pair crosswise with the same two in the other order.
pair_crosswise :
    (x y : ℕ) (xs ys : Str) (o q w v : Option ℕ) (t u : CanonicalType)
    → (x ∷ xs) ≢ (y ∷ ys)
    → pair_members
        (member (x ∷ xs) o w t ∷ member (y ∷ ys) q v u ∷ [])
        (member (y ∷ ys) q v u ∷ member (x ∷ xs) o w t ∷ [])
      ≡ record {
        l_used = true ∷ true ∷ [];
        r_used = true ∷ true ∷ [];
        pairs = (0, 1, false) ∷ (1, 0, false) ∷ [];
      }
unfolding pair_members
pair_crosswise x y xs ys o q w v t u n = ground (
  arith,
  str_eq_ne (x ∷ xs) (y ∷ ys) n,
  str_eq_ne (y ∷ ys) (x ∷ xs) (λ e. n (sym e)),
  str_eq_refl (x ∷ xs),
  str_eq_refl (y ∷ ys),
)

width_diff_self : (p : Str) (w : Option ℕ) → width_diff p w w ≡ []
unfolding width_diff
width_diff_self p w = if_pos (size_discrete w w) refl _ _

size_diff_self : (p : Str) (s : Option ℕ) → size_diff p s s ≡ []
unfolding size_diff
size_diff_self p s = if_pos (size_discrete s s) refl _ _

move_diff_self : (b : Bool) (p : Str) (o : Option ℕ) → move_diff b p o o ≡ []
unfolding move_diff
move_diff_self true p none = refl
move_diff_self true p (some o) = ground arith
move_diff_self false p o = refl

same_record_self : (t : Option Str) (k : RecordKind) → same_record t k t k ≡ true
unfolding same_record
same_record_self t k =
    if_pos (RecordKind-discrete k k) refl _ _ ∙ if_pos (tag_discrete t t) refl _ _

diff_against_self : (m : CanonicalMember) (p : Str) (b : Bool) → diff_against m m p b ≡ []
unfolding diff_into
diff_against_self (member n o w t) p b =
    rw (diff_into_self t _, width_diff_self _ w) (move_diff_self b _ o)

unless_equal_of_nil : (l r : CanonicalType) (cs : List Change) → cs ≡ [] → unless_equal l r cs ≡ []
unfolding unless_equal
unless_equal_of_nil l r cs e = elim (CanonicalType-discrete l r) [
  | yes p ↦ if_pos (CanonicalType-discrete l r) p [] cs
  | no n ↦ if_neg (CanonicalType-discrete l r) n [] cs ∙ e
]

module _ (tag : Option Str) (kind : RecordKind) (size : Option ℕ) (x y : ℕ) (xs ys : Str)
    (o q w v : Option ℕ) (t u : CanonicalType) (n : (x ∷ xs) ≢ (y ∷ ys)) where
  -- The diff of two records of one tag, kind and size that hold the same two members, of different
  -- and non-empty names, in opposite orders is empty, although the two types are not equal.
  pub diff_swapped :
      let a = member (x ∷ xs) o w t in
      let b = member (y ∷ ys) q v u in
      let l = aggregate tag kind (more_members a (more_members b no_members)) size in
      let r = aggregate tag kind (more_members b (more_members a no_members)) size in
      (diff l r ≡ []) × (l ≢ r)
  unfolding diff diff_into diff_members emit_pairs any_unused unused emit_removed emit_added
  diff_swapped = (
    unless_equal_of_nil _ _ _ (
        rw
          (
            same_record_self tag kind,
            size_diff_self [] size,
            pair_crosswise x y xs ys o q w v t u n,
          )
          (simp (diff_into_self, width_diff_self, move_diff_self))),
    λ e. n (cc e),
  )
