-- ===== src/Diff/Engine/Empty.antt =====
-- crates/idakit/src/types/diff/canonical/engine.rs: which comparisons report nothing.
use idakit.Base.{
  ℕ, suc, Bool, true, false, Option, List, [], ◌∷◌, ◌++◌, ◌≡◌, ap₂, subst, ==_iff, ◌↔◌, refl, Str,
  if◌then◌else◌, ite, if_pos, ◌==◌, ◌&&◌, length, arith,
}
use idakit.Canonical.{
  CanonicalType, Params, ptr, array, aggregate, enumeration, function, no_params, more_params,
  params_list, CanonicalType-discrete, size_discrete,
}
use idakit.Diff.Change.{Change}
use idakit.Diff.Engine.{
  unless_equal, retype, same_width, same_varargs, diff_into, diff_params, diff,
}

-- No aggregate and no enum is spelled where the walk goes: the walk stops at a typedef.
unfoldable mutual
  pub IsPlain : CanonicalType → Type 0
  IsPlain (aggregate t k m s) = ⊥
  IsPlain (enumeration t u m s) = ⊥
  IsPlain (ptr t w) = IsPlain t
  IsPlain (array t n) = IsPlain t
  IsPlain (function r ps v) = IsPlain r × ArePlain ps
  IsPlain _ = Unit {0}

  pub ArePlain : Params → Type 0
  ArePlain no_params = Unit {0}
  ArePlain (more_params p ps) = IsPlain p × ArePlain ps

ite_nil {ℓ} : {P : Type ℓ} (d : Dec P) (cs : List Change) → (cs ≡ [] → P) → ite d [] cs ≡ [] → P
ite_nil (yes p) cs h e = p
ite_nil (no n) cs h e = h e

unless_equal_nil :
    (l r : CanonicalType) (cs : List Change) → (cs ≡ [] → l ≡ r) → unless_equal l r cs ≡ [] → l ≡ r
unfolding unless_equal
unless_equal_nil l r cs h e = ite_nil (CanonicalType-discrete l r) cs h e

retype_ne_nil : (p : Str) (a b l r : CanonicalType) → retype p a b ≡ [] → l ≡ r
retype_ne_nil p a b l r e = cc

pub unless_equal_self : (t : CanonicalType) (cs : List Change) → unless_equal t t cs ≡ []
unfolding unless_equal
unless_equal_self t cs = if_pos _ refl [] cs

-- A type never differs from itself.
pub diff_into_self : (t : CanonicalType) (p : Str) → diff_into t p t ≡ []
unfolding diff_into
diff_into_self (aggregate tag k ms s) p = unless_equal_self _ _
diff_into_self t p = unless_equal_self _ _

append_nil : (cs ds : List Change) → cs ++ ds ≡ [] → (cs ≡ []) × (ds ≡ [])
append_nil [] ds e = (refl, e)
append_nil (c ∷ cs) ds e = cc

same_width_sound : (l r : Option ℕ) → same_width l r ≡ true → l ≡ r
unfolding same_width
same_width_sound l r h = true_of (size_discrete l r) h
  where
    true_of : (d : Dec (l ≡ r)) → ite d true false ≡ true → l ≡ r
    true_of (yes e) h = e
    true_of (no n) h = cc

if_nil :
    (b : Bool) (cs ds : List Change) {l r : CanonicalType}
    → (b ≡ true → cs ≡ [] → l ≡ r)
    → (ds ≡ [] → l ≡ r)
    → (if b then cs else ds) ≡ []
    → l ≡ r
if_nil true cs ds h k e = h refl e
if_nil false cs ds h k e = k e

function_eq :
    (a b : CanonicalType) (ps qs : Params) (v w : Bool)
    → (same_varargs v w && (length (params_list ps) == length (params_list qs))) ≡ true
    → a ≡ b
    → (length (params_list ps) ≡ length (params_list qs) → ps ≡ qs)
    → function a ps v ≡ function b qs w
unfolding same_varargs
function_eq a b ps qs true true h e k = cc (e, k ((==_iff _ _).0 h))
function_eq a b ps qs true false h e k = cc
function_eq a b ps qs false true h e k = cc
function_eq a b ps qs false false h e k = cc (e, k ((==_iff _ _).0 h))

mutual
  unfolding diff_into IsPlain same_varargs

  plain_eq :
      (l : CanonicalType) (p : Str) (r : CanonicalType) → IsPlain l → diff_into l p r ≡ [] → l ≡ r
  plain_eq (aggregate lt lk lm ls) p r h e = absurd h
  plain_eq (enumeration lt lu lm ls) p r h e = absurd h
  plain_eq (ptr lp lw) p (ptr rp rw) h e =
      unless_equal_nil _ _ _
        (if_nil (same_width lw rw) _ _
          (λ w d. ap₂ ptr (plain_eq lp p rp h d) (same_width_sound lw rw w))
          (retype_ne_nil p _ _ _ _))
        e
  plain_eq (array le ll) p (array re rl) h e =
      unless_equal_nil _ _ _
        (if_nil (ll == rl) _ _ (λ w d. ap₂ array (plain_eq le p re h d) ((==_iff ll rl).0 w))
          (retype_ne_nil p _ _ _ _))
        e
  plain_eq (function lret lp lv) p (function rret rp rv) h e =
      unless_equal_nil _ _ _
        (if_nil (same_varargs lv rv && (length (params_list lp) == length (params_list rp))) _ _
          (λ w d.
            function_eq lret rret lp rp lv rv w (plain_eq lret _ rret h.0 (append_nil _ _ d).0)
              (λ n. plain_params lp 0 p rp h.1 n (append_nil _ _ d).1))
          (retype_ne_nil p _ _ _ _))
        e
  plain_eq l p r h e = unless_equal_nil _ _ _ (retype_ne_nil p _ _ _ _) e

  plain_params :
      (a : Params) (i : ℕ) (p : Str) (b : Params)
      → ArePlain a
      → length (params_list a) ≡ length (params_list b)
      → diff_params a i p b ≡ []
      → a ≡ b
  plain_params no_params i p no_params h n e = refl
  plain_params no_params i p (more_params b bs) h n e = absurd (omega arith)
  plain_params (more_params a as') i p no_params h n e = absurd (omega arith)
  plain_params (more_params a as') i p (more_params b bs) h n e =
      ap₂ more_params (plain_eq a _ b h.0 (append_nil _ _ e).0)
        (plain_params as' (suc i) p bs h.1 (omega arith) (append_nil _ _ e).1)

-- Two types, the left with no spelled aggregate or enum under the walk, compare with no change
-- exactly when they are equal.
pub diff-eq-nil_iff : (l r : CanonicalType) → IsPlain l → (diff l r ≡ []) ↔ (l ≡ r)
unfolding diff
diff-eq-nil_iff l r h =
    (plain_eq l [] r h, λ e. subst (λ t. diff_into l [] t ≡ []) e (diff_into_self l []))
