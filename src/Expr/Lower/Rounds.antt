-- ===== src/Expr/Lower/Rounds.antt =====
-- crates/idakit-sys/facade/type_write_common.cpp: how many rounds of `build_recipe` the wire form of
-- crates/idakit/src/types/expr.rs takes, which is within its length.
use idakit.Base.{ℕ, suc, ◌+◌, ◌≡◌, ◌∙◌, ap, [], ◌∷◌, ◌++◌, Str, length, arith, length-append}
use idakit.Expr.{
  TypeExpr, Params, void, bool, int, float, bitfield, decl, named, pointer, array, const, volatile,
  function, no_params, more_params,
}
use idakit.Expr.Wire.{le_bytes, encode, encode_params, encode_prototype, encode_len_prefixed}

-- The rounds that a recipe takes, and `f` after it.
abbrev mutual
  pub rounds : TypeExpr → ℕ → ℕ
  rounds (pointer e) f = rounds e (suc f)
  rounds (array e len) f = rounds e (suc f)
  rounds (const e) f = rounds e (suc f)
  rounds (volatile e) f = rounds e (suc f)
  rounds (function ret ps v c) f = rounds ret (rounds_params ps (suc f))
  rounds _ f = suc f

  pub rounds_params : Params → ℕ → ℕ
  rounds_params no_params f = f
  rounds_params (more_params n e ps) f = rounds e (rounds_params ps f)

-- The rounds of a recipe under a unary constructor.
wrapped :
    (e : TypeExpr) (op : ℕ) (bytes : Str)
    → (d : ℕ) × ((f : ℕ) → length (encode e) + f ≡ rounds e (d + f))
    → (d : ℕ) × ((f : ℕ) → length (encode e ++ (op ∷ bytes)) + f ≡ rounds e (suc (d + f)))
wrapped e op bytes (d, h) = (
  d + length bytes,
  λ f.
      let n : length (encode e ++ (op ∷ bytes)) + f ≡ length (encode e) + suc (length bytes + f) =
        omega (arith, length-append (encode e) (op ∷ bytes)) in
      let m : d + suc (length bytes + f) ≡ suc (d + length bytes + f) = omega arith in
      n ∙ h (suc (length bytes + f)) ∙ ap (rounds e) m,
)

both :
    (e : TypeExpr) (ps : Params) (d d' f : ℕ)
    → ((f : ℕ) → length (encode e) + f ≡ rounds e (d + f))
    → ((f : ℕ) → length (encode_params ps) + f ≡ rounds_params ps (d' + f))
    → length (encode e) + (length (encode_params ps) + f) ≡ rounds e (rounds_params ps (d + d' + f))
both e ps d d' f p q =
    let swap : d + (length (encode_params ps) + f) ≡ length (encode_params ps) + (d + f) =
      omega arith in
    let total : d' + (d + f) ≡ d + d' + f = omega arith in
    p (length (encode_params ps) + f)
    ∙ ap (rounds e) (swap ∙ q (d + f) ∙ ap (rounds_params ps) total)

-- The rounds of a prototype.
followed :
    (e : TypeExpr) (ps : Params) (op : ℕ) (bytes : Str)
    → (d : ℕ) × ((f : ℕ) → length (encode e) + f ≡ rounds e (d + f))
    → (d : ℕ) × ((f : ℕ) → length (encode_params ps) + f ≡ rounds_params ps (d + f))
    → (d : ℕ) × ((f : ℕ)
        → length (encode e ++ (encode_params ps ++ (op ∷ bytes))) + f
          ≡ rounds e (rounds_params ps (suc (d + f))))
followed e ps op bytes (d, p) (d', q) = (
  d + d' + length bytes,
  λ f.
      let n : length (encode e ++ (encode_params ps ++ (op ∷ bytes))) + f
          ≡ length (encode e) + (length (encode_params ps) + suc (length bytes + f)) =
        omega (
          arith,
          length-append (encode e) (encode_params ps ++ (op ∷ bytes)),
          length-append (encode_params ps) (op ∷ bytes),
        ) in
      let m : d + d' + suc (length bytes + f) ≡ suc (d + d' + length bytes + f) = omega arith in
      n ∙ both e ps d d' (suc (length bytes + f)) p q ∙ ap (λ x. rounds e (rounds_params ps x)) m,
)

-- The length of the wire form is enough fuel: `d` is what is left of it.
mutual
  unfolding encode

  pub rounds_enough :
      (e : TypeExpr) → (d : ℕ) × ((f : ℕ) → length (encode e) + f ≡ rounds e (d + f))
  rounds_enough void = (0, λ f. omega arith)
  rounds_enough bool = (0, λ f. omega arith)
  rounds_enough (int b s) = (2, λ f. omega arith)
  rounds_enough (float b) = (1, λ f. omega arith)
  rounds_enough (bitfield n m s) = (3, λ f. omega arith)
  rounds_enough (named n) = (length (encode_len_prefixed n), λ f. omega arith)
  rounds_enough (decl n) = (length (encode_len_prefixed n), λ f. omega arith)
  rounds_enough (pointer e) = wrapped e 6 [] (rounds_enough e)
  rounds_enough (array e len) = wrapped e 7 (le_bytes 8 len) (rounds_enough e)
  rounds_enough (const e) = wrapped e 8 [] (rounds_enough e)
  rounds_enough (volatile e) = wrapped e 9 [] (rounds_enough e)
  rounds_enough (function ret ps v c) =
      followed ret ps 10 (encode_prototype ps v c) (rounds_enough ret) (rounds_params_enough ps)

  pub rounds_params_enough :
      (ps : Params) → (d : ℕ) × ((f : ℕ) → length (encode_params ps) + f ≡ rounds_params ps (d + f))
  rounds_params_enough no_params = (0, λ f. omega arith)
  rounds_params_enough (more_params n e ps) =
      let (d, p) = rounds_enough e in
      let (d', q) = rounds_params_enough ps in
      (
        d + d',
        λ f.
            let n : length (encode e ++ encode_params ps) + f
                ≡ length (encode e) + (length (encode_params ps) + f) =
              omega (arith, length-append (encode e) (encode_params ps)) in
            n ∙ both e ps d d' f p q,
      )
