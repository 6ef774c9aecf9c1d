-- ===== src/Expr/Check.antt =====
-- crates/idakit/src/types/expr.rs: which text `check` names when it refuses a recipe.
use idakit.Base.{
  Bool, true, false, none, some, List, [], ◌∷◌, ◌++◌, Str, str, if◌then◌else◌, ◌≡◌, refl,
}
use idakit.Expr.{
  TypeExpr, Params, void, bool, int, float, bitfield, decl, named, pointer, array, const, volatile,
  function, no_params, more_params,
}
use idakit.Expr.Wire.{
  Checked, ok, interior_nul, and_then, nul_checked, check, check_params, has_nul, checked_serialize,
  serialize,
}

-- A text that the kernel reads as a C string, under the name the error has for it.
pub data Labelled : Type 0 where
  labelled : Str → Str → Labelled

-- The texts of a recipe: a prototype's return type, then each parameter's name and its type.
abbrev mutual
  pub texts : TypeExpr → List Labelled
  texts (named n) = labelled (str "name") n ∷ []
  texts (decl t) = labelled (str "decl") t ∷ []
  texts (pointer e) = texts e
  texts (array e len) = texts e
  texts (const e) = texts e
  texts (volatile e) = texts e
  texts (function ret ps v c) = texts ret ++ texts_params ps
  texts _ = []

  pub texts_params : Params → List Labelled
  texts_params no_params = []
  texts_params (more_params none e ps) = texts e ++ texts_params ps
  texts_params (more_params (some n) e ps) =
      labelled (str "parameter name") n ∷ (texts e ++ texts_params ps)

-- `l` stands on the first text with a NUL byte.
pub data FirstNul : List Labelled → Str → Type 0 where
  here : {l s : Str} {ls : List Labelled} → has_nul s ≡ true → FirstNul (labelled l s ∷ ls) l
  later :
      {l l' s : Str} {ls : List Labelled}
      → has_nul s ≡ false
      → FirstNul ls l
      → FirstNul (labelled l' s ∷ ls) l

pub data NoNul : List Labelled → Type 0 where
  none_left : NoNul []
  more_left :
      {l s : Str} {ls : List Labelled} → has_nul s ≡ false → NoNul ls → NoNul (labelled l s ∷ ls)

-- What a check says of the texts it covers.
abbrev pub Judges : {A : Type 0} → Checked A → List Labelled → Type 0
Judges (ok a) ls = NoNul ls
Judges (interior_nul l) ls = FirstNul ls l

NoNul-append : {ls ms : List Labelled} → NoNul ls → NoNul ms → NoNul (ls ++ ms)
NoNul-append none_left q = q
NoNul-append (more_left h p) q = more_left h (NoNul-append p q)

FirstNul-append :
    {ls ms : List Labelled} {l : Str} → NoNul ls → FirstNul ms l → FirstNul (ls ++ ms) l
FirstNul-append none_left q = q
FirstNul-append (more_left h p) q = later h (FirstNul-append p q)

FirstNul-before :
    (ms : List Labelled) {ls : List Labelled} {l : Str} → FirstNul ls l → FirstNul (ls ++ ms) l
FirstNul-before ms (here h) = here h
FirstNul-before ms (later h p) = later h (FirstNul-before ms p)

Judges-and_then :
    {A B : Type 0} (c : Checked A) (f : A → Checked B) (ls ms : List Labelled)
    → Judges c ls
    → ((a : A) → Judges (f a) ms)
    → Judges (and_then c f) (ls ++ ms)
unfolding and_then
Judges-and_then (interior_nul l) f ls ms p q = FirstNul-before ms p
Judges-and_then (ok a) f ls ms p q = go (f a) (q a)
  where
    go : {B : Type 0} (d : Checked B) → Judges d ms → Judges d (ls ++ ms)
    go (ok b) r = NoNul-append p r
    go (interior_nul l) r = FirstNul-append p r

Judges-nul_checked : (s l : Str) → Judges (nul_checked s l) (labelled l s ∷ [])
unfolding nul_checked
Judges-nul_checked s l = go (has_nul s) refl
  where
    go :
        (b : Bool)
        → has_nul s ≡ b
        → Judges (if b then interior_nul l else ok tt) (labelled l s ∷ [])
    go true e = here e
    go false e = more_left e none_left

mutual
  unfolding check

  Judges-check : (e : TypeExpr) → Judges (check e) (texts e)
  Judges-check void = none_left
  Judges-check bool = none_left
  Judges-check (int b s) = none_left
  Judges-check (float b) = none_left
  Judges-check (bitfield n w s) = none_left
  Judges-check (named n) = Judges-nul_checked n (str "name")
  Judges-check (decl t) = Judges-nul_checked t (str "decl")
  Judges-check (pointer e) = Judges-check e
  Judges-check (array e len) = Judges-check e
  Judges-check (const e) = Judges-check e
  Judges-check (volatile e) = Judges-check e
  Judges-check (function ret ps v c) =
      Judges-and_then (check ret) _ (texts ret) (texts_params ps) (Judges-check ret)
        (λ u. Judges-check_params ps)

  Judges-check_params : (ps : Params) → Judges (check_params ps) (texts_params ps)
  Judges-check_params no_params = none_left
  Judges-check_params (more_params none e ps) =
      Judges-and_then (check e) _ (texts e) (texts_params ps) (Judges-check e)
        (λ u. Judges-check_params ps)
  Judges-check_params (more_params (some n) e ps) =
      Judges-and_then (nul_checked n (str "parameter name")) _
        (labelled (str "parameter name") n ∷ []) (texts e ++ texts_params ps)
        (Judges-nul_checked n (str "parameter name"))
        (λ u.
          Judges-and_then (check e) _ (texts e) (texts_params ps) (Judges-check e)
            (λ v. Judges-check_params ps))

-- Serializing a recipe fails exactly when a text of it has a NUL byte, and the error then names the
-- first such text in the order of the wire form: a prototype's return type, then each parameter's
-- name and its type.
pub checked_serialize-Judges : (e : TypeExpr) → Judges (checked_serialize e) (texts e)
unfolding checked_serialize
checked_serialize-Judges e = go (check e) (Judges-check e)
  where
    go :
        (c : Checked Unit)
        → Judges c (texts e)
        → Judges (and_then c (λ u. ok (serialize e))) (texts e)
    go (ok u) h = h
    go (interior_nul l) h = h
