-- ===== src/Expr/Lower.antt =====
-- What a recipe means to the kernel, said of the recipe itself: crates/idakit/src/types/expr.rs's
-- `TypeExpr` against the constructors of crates/idakit-sys/facade/type_write_common.cpp.
pub mod Correct
pub mod Steps
pub mod Opcodes
pub mod Rounds
use idakit.Base.{
  ℕ, ◌-◌, ◌^◌, ◌<◌, Bool, true, false, not, Option, none, some, List, [], ◌∷◌, Str, length, ltb,
  if◌then◌else◌, ◌>>=◌,
}
use idakit.Expr.{
  CallingConvention, TypeExpr, Params, params_length, void, bool, int, float, bitfield, decl, named,
  pointer, array, const, volatile, function, no_params, more_params,
}
use idakit.Expr.Wire.{name_text, cc_raw}
use idakit.Expr.Recipe.{Kernel, Convention, default, ellipsis, explicit, build_int, build_float}

-- A variadic prototype has the ellipsis convention, whatever it names.
abbrev pub meant_cc : Bool → Option CallingConvention → Convention
meant_cc true cc = ellipsis
meant_cc false none = default
meant_cc false (some c) = explicit (cc_raw (some c))

module _ {T : Type 0} (k : Kernel T) where
  open k use {
    simple_void, simple_bool, create_bitfield, get_named_type, parse_decl, create_ptr, create_array,
    set_const, set_volatile, create_func,
  }

  -- The kernel counts an array's elements in 32 bits.
  abbrev pub lower_array : T → ℕ → Option T
  lower_array t n = if ltb (2 ^ 32 - 1) n then none else create_array t n

  unfoldable mutual
    unfolding build_int build_float

    pub lower : TypeExpr → Option T
    lower void = simple_void
    lower bool = simple_bool
    lower (int bytes signed) = build_int k bytes signed
    lower (float bytes) = build_float k bytes
    lower (bitfield nbytes width signed) = create_bitfield nbytes width (not signed)
    lower (named n) = get_named_type n
    lower (decl t) = parse_decl t
    lower (pointer e) = lower e >>= create_ptr
    lower (array e len) = lower e >>= (λ t. lower_array t len)
    lower (const e) = lower e >>= (λ t. some (set_const t))
    lower (volatile e) = lower e >>= (λ t. some (set_volatile t))
    lower (function ret ps varargs cc) =
        lower ret >>= (λ r. lower_params ps >>= (λ args. create_func r args (meant_cc varargs cc)))

    pub lower_params : Params → Option (List (Str × T))
    lower_params no_params = some []
    lower_params (more_params n e ps) =
        lower e >>= (λ t. lower_params ps >>= (λ args. some ((name_text n, t) ∷ args)))

-- The fields of a recipe fit those of the wire form.
abbrev pub IsShort : Str → Type 0
IsShort s = length s < 2 ^ 32

unfoldable mutual
  pub IsWireable : TypeExpr → Type 0
  IsWireable (named n) = IsShort n
  IsWireable (decl t) = IsShort t
  IsWireable (pointer e) = IsWireable e
  IsWireable (array e len) = IsWireable e × (len < 2 ^ 64)
  IsWireable (const e) = IsWireable e
  IsWireable (volatile e) = IsWireable e
  IsWireable (function ret ps varargs cc) =
      IsWireable ret × IsWireableParams ps × (params_length ps < 2 ^ 32)
  IsWireable _ = Unit

  pub IsWireableParams : Params → Type 0
  IsWireableParams no_params = Unit
  IsWireableParams (more_params n e ps) = IsShort (name_text n) × IsWireable e × IsWireableParams ps
