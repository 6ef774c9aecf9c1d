-- ===== src/Diff/Engine/Sound.antt =====
-- crates/idakit/src/types/diff/canonical/engine.rs: every change that a diff reports is true.
use idakit.Base.{
  ℕ, suc, Bool, true, false, Option, none, some, ◌++◌, ◌≡◌, ◌≢◌, refl, sym, subst, Str, str,
  decimal, ite, ◌==◌, ◌&&◌, length, inl, inr, arith, Bool-cases,
}
use idakit.Canonical.{
  CanonicalType, CanonicalType-discrete, CanonicalMember, Members, Params, RecordKind,
  RecordKind-discrete, tag_discrete, size_discrete, ptr, array, aggregate, enumeration, function,
  member, no_members, more_members, no_params, more_params, bit_offset, members_list, params_list,
}
use idakit.Diff.Change.{join, path_in}
use idakit.Diff.Engine.{
  unless_equal, size_diff, width_diff, move_diff, same_record, same_tag, same_width, same_varargs,
  diff_into, diff_against, member_diffs, diff_params,
}
use idakit.Diff.Engine.Explains.{
  at_member, Explains, PairExplains, ParamsExplain, type_differs, size_differs, enum_size_differs,
  in_underlying, in_constants, in_pointee, in_element, in_result, in_params, width_differs,
  offset_differs, in_type, first_param, later_param, Each, nothing, Each-append, Each-unless,
  Each-if, Each-map, join-dotted, path_in-at_member, one_at,
}
use idakit.Diff.Engine.Emitted.{false_ne, AreDiffsOf, diff_constants-Each, diff_members-Each}

-- The guards refuse only types that are not compared part by part.
same_record-Comparable :
    (lt rt : Option Str) (lk rk : RecordKind)
    → same_record lt lk rt rk ≡ false
    → ¬ ((lk ≡ rk) × (lt ≡ rt))
unfolding same_record
same_record-Comparable lt rt lk rk h (e, f) = go (RecordKind-discrete lk rk) (tag_discrete lt rt) h
  where
    go : (d : Dec (lk ≡ rk)) (g : Dec (lt ≡ rt)) → ite d (ite g true false) false ≡ false → ⊥
    go (yes x) (yes y) k = false_ne k
    go (yes x) (no y) k = y f
    go (no x) g k = x e

ite-false : {X : Type 0} (d : Dec X) → ite d true false ≡ false → ¬ X
ite-false (yes x) k = absurd (false_ne k)
ite-false (no x) k = x

same_varargs-ne : (l r : Bool) → same_varargs l r ≡ false → l ≢ r
unfolding same_varargs
same_varargs-ne true true h e = false_ne h
same_varargs-ne true false h e = false_ne e
same_varargs-ne false true h e = false_ne (sym e)
same_varargs-ne false false h e = false_ne h

same_function-Comparable :
    (l r : Bool) (n m : ℕ) → (same_varargs l r && n == m) ≡ false → ¬ ((l ≡ r) × (n ≡ m))
same_function-Comparable l r n m h (e, f) = elim (Bool-cases (same_varargs l r)) [
  | inl q ↦ absurd (ground arith)
  | inr q ↦ same_varargs-ne l r q e
]

move_diff-Each :
    (report : Bool) (a b : CanonicalMember) (p q : Str) (from to : Option ℕ)
    → bit_offset a ≡ from
    → bit_offset b ≡ to
    → q ≡ at_member b p
    → Each (PairExplains a b p) (move_diff report q from to)
unfolding move_diff
move_diff-Each true a b p q (some from) (some to) e f s =
    Each-if (from == to) (λ h. nothing)
      (λ h. let other : from ≢ to = λ k. ground arith in one_at s (offset_differs e f other))
move_diff-Each true a b p q (some from) none e f s = nothing
move_diff-Each true a b p q none to e f s = nothing
move_diff-Each false a b p q from to e f s = nothing

mutual
  unfolding diff_into unless_equal size_diff width_diff same_tag same_width

  diff_into-explained :
      (l : CanonicalType) (p : Str) (r : CanonicalType) → Each (Explains l r p) (diff_into l p r)
  diff_into-explained (aggregate lt lk lm ls) p (aggregate rt rk rm rs) = Each-unless _ (λ ne.
      Each-if (same_record lt lk rt rk)
        (λ q.
          Each-append (Each-unless (size_discrete ls rs) (λ h. one_at refl (size_differs h)))
            (diff_members-Each lm rm p (member_diffs-explained lm)))
        (λ q. one_at refl (type_differs ne (same_record-Comparable lt rt lk rk q))))
  diff_into-explained (enumeration lt lu lm ls) p (enumeration rt ru rm rs) = Each-unless _ (λ ne.
      Each-if (same_tag lt rt)
        (λ q.
          Each-append
            (Each-map
              (λ c h.
                in_underlying
                  (subst (λ (x : Str). Explains lu ru x c) (join-dotted p (str "underlying")) h))
              (diff_into-explained lu (join p (str "underlying")) ru))
            (Each-append
              (Each-unless (size_discrete ls rs) (λ h. one_at refl (enum_size_differs h)))
              (Each-map (λ c h. in_constants h) (diff_constants-Each lm rm p))))
        (λ q. one_at refl (type_differs ne (ite-false (tag_discrete lt rt) q))))
  diff_into-explained (ptr lp lw) p (ptr rp rw) = Each-unless _ (λ ne.
      Each-if (same_width lw rw) (λ q. Each-map (λ c h. in_pointee h) (diff_into-explained lp p rp))
        (λ q. one_at refl (type_differs ne (ite-false (size_discrete lw rw) q))))
  diff_into-explained (array le ll) p (array re rl) = Each-unless _ (λ ne.
      Each-if (ll == rl) (λ q. Each-map (λ c h. in_element h) (diff_into-explained le p re))
        (λ q. let other : ll ≢ rl = λ s. ground arith in one_at refl (type_differs ne other)))
  diff_into-explained (function lret lp lv) p (function rret rp rv) = Each-unless _ (λ ne.
      Each-if (same_varargs lv rv && (length (params_list lp) == length (params_list rp)))
        (λ q.
          Each-append
            (Each-map
              (λ c h.
                in_result
                  (subst (λ (x : Str). Explains lret rret x c) (join-dotted p (str "return")) h))
              (diff_into-explained lret (join p (str "return")) rret))
            (Each-map (λ c h. in_params h) (diff_params-explained lp 0 p rp)))
        (λ q. one_at refl (type_differs ne (same_function-Comparable lv rv _ _ q))))
  diff_into-explained l p r =
      Each-unless (CanonicalType-discrete l r) (λ ne. one_at refl (type_differs ne (λ h. h)))

  diff_against-explained :
      (a b : CanonicalMember) (p : Str) (r : Bool)
      → Each (PairExplains a b p) (diff_against a b p r)
  diff_against-explained (member ln lo lw lt) (member rn ro rw rt) p r =
      let b = member rn ro rw rt in
      let there = path_in-at_member b p in
      Each-append
        (Each-map (λ c h. in_type (subst (λ (x : Str). Explains lt rt x c) there h))
          (diff_into-explained lt (path_in b p) rt))
        (Each-append (Each-unless (size_discrete lw rw) (λ h. one_at there (width_differs h)))
          (move_diff-Each r (member ln lo lw lt) b p (path_in b p) lo ro refl refl there))

  member_diffs-explained : (ms : Members) → AreDiffsOf (members_list ms) (member_diffs ms)
  member_diffs-explained no_members = tt
  member_diffs-explained (more_members m ms) = (diff_against-explained m, member_diffs-explained ms)

  diff_params-explained :
      (a : Params) (i : ℕ) (p : Str) (b : Params)
      → Each (ParamsExplain a i b p) (diff_params a i p b)
  diff_params-explained no_params i p b = nothing
  diff_params-explained (more_params a as') i p no_params = nothing
  diff_params-explained (more_params a as') i p (more_params b bs) =
      Each-append
        (Each-map
          (λ c h.
            first_param
              (subst (λ (x : Str). Explains a b x c) (join-dotted p (str "arg" ++ decimal i)) h))
          (diff_into-explained a (join p (str "arg" ++ decimal i)) b))
        (Each-map (λ c h. later_param h) (diff_params-explained as' (suc i) p bs))
