-- ===== src/Expr/Bytes.antt =====
-- crates/idakit/src/types/expr.rs and crates/idakit-sys/facade/type_write_common.cpp: the fields of
-- the wire form, as one side writes them and the other reads them.
use idakit.Base.{
  append_assoc, ℕ, zero, suc, ◌+◌, ◌*◌, ◌/◌, ◌%◌, ◌^◌, ◌<◌, ◌≤◌, false, Option, none, some, List,
  [], ◌∷◌, ◌++◌, ◌≡◌, refl, ◌∙◌, ap, Str, length, take, drop, ltb, ◌==◌, if◌then◌else◌, ◌>>=◌,
  arith, length-append,
}
use idakit.Expr.Wire.{le_bytes, saturate, encode_len_prefixed, has_nul}
use idakit.Expr.Recipe.{read_le, read_str, c_str}

pub take-append {ℓ} : {A : Type ℓ} (xs ys : List A) → take (length xs) (xs ++ ys) ≡ xs
take-append [] ys = refl
take-append (x ∷ xs) ys = rw (take-append xs ys)

pub drop-append {ℓ} : {A : Type ℓ} (xs ys : List A) → drop (length xs) (xs ++ ys) ≡ ys
drop-append [] ys = refl
drop-append (x ∷ xs) ys = drop-append xs ys

take_all {ℓ} : {A : Type ℓ} (xs : List A) → take (length xs) xs ≡ xs
take_all [] = refl
take_all (x ∷ xs) = rw (take_all xs)

abbrev pow256 : ℕ → ℕ
pow256 zero = 1
pow256 (suc k) = 256 * pow256 k

read_le-le_bytes_lem :
    (k n : ℕ) (rest : Str) → n < pow256 k → read_le k (le_bytes k n ++ rest) ≡ some (n, rest)
unfolding le_bytes read_le
read_le-le_bytes_lem zero n rest h = let e : n ≡ 0 = omega arith in rw e
read_le-le_bytes_lem (suc k) n rest h =
    let e : n % 256 + 256 * (n / 256) ≡ n = omega arith in
    rw (read_le-le_bytes_lem k (n / 256) rest (omega arith), e)

pub read_byte : (n : ℕ) (rest : Str) → read_le 1 (n ∷ rest) ≡ some (n, rest)
unfolding read_le
read_byte n rest = ap (λ (v : ℕ). some (v, rest)) (omega arith)

pub read_le-le_bytes_two :
    (n : ℕ) (rest : Str) → n < 2 ^ 16 → read_le 2 (le_bytes 2 n ++ rest) ≡ some (n, rest)
read_le-le_bytes_two n rest h = read_le-le_bytes_lem 2 n rest (omega arith)

pub read_le-le_bytes_four :
    (n : ℕ) (rest : Str) → n < 2 ^ 32 → read_le 4 (le_bytes 4 n ++ rest) ≡ some (n, rest)
read_le-le_bytes_four n rest h = read_le-le_bytes_lem 4 n rest (omega arith)

pub read_le-le_bytes_eight :
    (n : ℕ) (rest : Str) → n < 2 ^ 64 → read_le 8 (le_bytes 8 n ++ rest) ≡ some (n, rest)
read_le-le_bytes_eight n rest h = read_le-le_bytes_lem 8 n rest (omega arith)

pub saturate_small : (n : ℕ) → n < 2 ^ 32 → saturate n ≡ n
unfolding saturate
saturate_small n h = ground arith

pub length-le_bytes : (k n : ℕ) → length (le_bytes k n) ≡ k
unfolding le_bytes
length-le_bytes zero n = refl
length-le_bytes (suc k) n = ap suc (length-le_bytes k (n / 256))

pub length-encode_len_prefixed_ge : (s : Str) → 4 ≤ length (encode_len_prefixed s)
unfolding encode_len_prefixed
length-encode_len_prefixed_ge s = omega (
  arith,
  length-append (le_bytes 4 (saturate (length s))) (take (saturate (length s)) s),
  length-le_bytes 4 (saturate (length s)),
)

abbrev take_text : Option (ℕ × Str) → Option (Str × Str)
take_text o = do
  (n, rest) ← o
  if ltb (length rest) n then none else some (take n rest, drop n rest)

read_str_lem : (buf : Str) (o : Option (ℕ × Str)) → read_le 4 buf ≡ o → read_str buf ≡ take_text o
unfolding read_str
read_str_lem buf o e = ap take_text e

take_text-append : (s rest : Str) → take_text (some (length s, s ++ rest)) ≡ some (s, rest)
take_text-append s rest =
    let bound : ltb (length (s ++ rest)) (length s) ≡ false =
      ground (arith, length-append s rest) in
    rw (bound, take-append s rest, drop-append s rest)

encode_len_prefixed_lem :
    (s : Str) → length s < 2 ^ 32 → encode_len_prefixed s ≡ le_bytes 4 (length s) ++ s
unfolding encode_len_prefixed
encode_len_prefixed_lem s h =
    ap (λ (n : ℕ). le_bytes 4 n ++ take n s) (saturate_small (length s) h)
    ∙ ap (λ (t : Str). le_bytes 4 (length s) ++ t) (take_all s)

-- A text that is short enough is read back as it was written.
pub read_str-encode_len_prefixed :
    (s rest : Str) → length s < 2 ^ 32 → read_str (encode_len_prefixed s ++ rest) ≡ some (s, rest)
read_str-encode_len_prefixed s rest h =
    read_str_lem (encode_len_prefixed s ++ rest) (some (length s, s ++ rest)) (
      ap (λ (b : Str). read_le 4 (b ++ rest)) (encode_len_prefixed_lem s h)
      ∙ ap (read_le 4) (append_assoc (le_bytes 4 (length s)) s rest)
      ∙ read_le-le_bytes_four (length s) (s ++ rest) h)
    ∙ take_text-append s rest

pub c_str_nul_free : (s : Str) → has_nul s ≡ false → c_str s ≡ s
unfolding c_str has_nul
c_str_nul_free [] h = refl
c_str_nul_free (c ∷ cs) h =
    let a : (c == 0) ≡ false = ground arith in
    let b : has_nul cs ≡ false = ground arith in rw (a, c_str_nul_free cs b)
