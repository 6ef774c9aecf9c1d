-- ===== src/Expr/Wire.antt =====
-- crates/idakit/src/types/expr.rs: `serialize`, the postfix wire form of a recipe, and `check`,
-- which gates it.
use idakit.Base.{
  ℕ, zero, suc, ◌^◌, ◌-◌, ◌/◌, ◌%◌, Bool, true, false, Option, none, some, [], ◌∷◌, ◌++◌, Str, str,
  length, take, ltb, ◌==◌, if◌then◌else◌, ◌||◌,
}
use idakit.Expr.{
  CallingConvention, convention_raw, TypeExpr, Params, params_length, void, bool, int, float,
  bitfield, decl, named, pointer, array, const, volatile, function, no_params, more_params,
}

-- `to_le_bytes` of an integer of `k` bytes.
unfoldable pub le_bytes : ℕ → ℕ → Str
le_bytes zero n = []
le_bytes (suc k) n = (n % 256) ∷ le_bytes k (n / 256)

-- `u32::try_from(n).unwrap_or(u32::MAX)`.
unfoldable pub saturate : ℕ → ℕ
saturate n = if ltb n (2 ^ 32) then n else 2 ^ 32 - 1

-- `u8::from(bool)`.
abbrev pub flag : Bool → ℕ
flag true = 1
flag false = 0

unfoldable pub encode_len_prefixed : Str → Str
unfolding le_bytes saturate
encode_len_prefixed s = le_bytes 4 (saturate (length s)) ++ take (saturate (length s)) s

unfoldable pub encode_str : ℕ → Str → Str
unfolding encode_len_prefixed
encode_str op s = op ∷ encode_len_prefixed s

-- `p.name.as_deref().unwrap_or("")`.
abbrev pub name_text : Option Str → Str
name_text none = []
name_text (some n) = n

-- The names of the first `n` parameters.
unfoldable pub encode_names : ℕ → Params → Str
unfolding encode_len_prefixed
encode_names zero ps = []
encode_names (suc n) no_params = []
encode_names (suc n) (more_params m t ps) = encode_len_prefixed (name_text m) ++ encode_names n ps

abbrev pub cc_raw : Option CallingConvention → ℕ
cc_raw none = 0
cc_raw (some c) = convention_raw c

-- What follows the opcode of a function: the count, the two flags and the names.
unfoldable pub encode_prototype : Params → Bool → Option CallingConvention → Str
unfolding le_bytes saturate encode_names convention_raw
encode_prototype ps varargs cc =
    le_bytes 4 (saturate (params_length ps))
    ++ (flag varargs ∷ (le_bytes 2 (cc_raw cc) ++ encode_names (saturate (params_length ps)) ps))

-- `encode`, with the `RECIPE_` opcodes of crates/idakit-sys-codegen/src/domains/type_build.rs.
unfoldable mutual
  unfolding encode_str encode_prototype le_bytes

  pub encode : TypeExpr → Str
  encode void = 0 ∷ []
  encode bool = 1 ∷ []
  encode (int bytes signed) = 2 ∷ bytes ∷ flag signed ∷ []
  encode (float bytes) = 3 ∷ bytes ∷ []
  encode (bitfield nbytes width signed) = 11 ∷ nbytes ∷ width ∷ flag signed ∷ []
  encode (named n) = encode_str 4 n
  encode (decl t) = encode_str 5 t
  encode (pointer t) = encode t ++ (6 ∷ [])
  encode (array t len) = encode t ++ (7 ∷ le_bytes 8 len)
  encode (const t) = encode t ++ (8 ∷ [])
  encode (volatile t) = encode t ++ (9 ∷ [])
  encode (function ret ps varargs cc) =
      encode ret ++ (encode_params ps ++ (10 ∷ encode_prototype ps varargs cc))

  pub encode_params : Params → Str
  encode_params no_params = []
  encode_params (more_params n t ps) = encode t ++ encode_params ps

unfoldable pub serialize : TypeExpr → Str
unfolding encode
serialize e = encode e

-- `s.bytes().any(|b| b == 0)`.
unfoldable pub has_nul : Str → Bool
has_nul [] = false
has_nul (c ∷ cs) = c == 0 || has_nul cs

-- A check that passes, or `Error::InteriorNul` with its `arg`.
pub data Checked (A : Type 0) : Type 0 where
  ok : A → Checked A
  interior_nul : Str → Checked A

-- `Result::and`, by which `?` goes on.
unfoldable pub and_then : {A B : Type 0} → Checked A → (A → Checked B) → Checked B
and_then (ok a) f = f a
and_then (interior_nul l) f = interior_nul l

-- crates/idakit/src/ffi.rs: `nul_checked`.
unfoldable pub nul_checked : Str → Str → Checked Unit
unfolding has_nul
nul_checked s label = if has_nul s then interior_nul label else ok tt

unfoldable pub check_name : Option Str → Checked Unit
unfolding nul_checked
check_name none = ok tt
check_name (some n) = nul_checked n (str "parameter name")

unfoldable mutual
  unfolding nul_checked check_name and_then

  pub check : TypeExpr → Checked Unit
  check (named n) = nul_checked n (str "name")
  check (decl t) = nul_checked t (str "decl")
  check (pointer t) = check t
  check (const t) = check t
  check (volatile t) = check t
  check (array t len) = check t
  check (function ret ps varargs cc) = and_then (check ret) (λ u. check_params ps)
  check _ = ok tt

  pub check_params : Params → Checked Unit
  check_params no_params = ok tt
  check_params (more_params n t ps) =
      and_then (check_name n) (λ u. and_then (check t) (λ v. check_params ps))

unfoldable pub checked_serialize : TypeExpr → Checked Str
unfolding check serialize and_then
checked_serialize e = and_then (check e) (λ u. ok (serialize e))
