-- ===== src/Expr.antt =====
-- crates/idakit/src/types/expr.rs: `TypeExpr`, the recipe of a type, its builders and projections.
pub mod Identifiers
pub mod Names
pub mod Shape
pub mod Wire
pub mod Recipe
pub mod Check
pub mod Bytes
pub mod Lower
mod Tests
use idakit.Base.{ℕ, suc, Bool, true, false, Option, none, some, Str}

-- crates/idakit/src/function/signature.rs: `CallingConvention`.
pub data CallingConvention : Type 0 where
  unknown cdecl stdcall pascal fastcall thiscall swift golang : CallingConvention

unfoldable pub convention_raw : CallingConvention → ℕ
convention_raw unknown = 16
convention_raw cdecl = 48
convention_raw stdcall = 80
convention_raw pascal = 96
convention_raw fastcall = 112
convention_raw thiscall = 128
convention_raw swift = 144
convention_raw golang = 176

mutual
  pub data TypeExpr : Type 0 where
    void : TypeExpr
    bool : TypeExpr
    -- bytes, signed
    int : ℕ → Bool → TypeExpr
    float : ℕ → TypeExpr
    -- nbytes, width, signed
    bitfield : ℕ → ℕ → Bool → TypeExpr
    decl : Str → TypeExpr
    named : Str → TypeExpr
    pointer : TypeExpr → TypeExpr
    -- elem, len
    array : TypeExpr → ℕ → TypeExpr
    const : TypeExpr → TypeExpr
    volatile : TypeExpr → TypeExpr
    -- ret, params, varargs, cc
    function : TypeExpr → Params → Bool → Option CallingConvention → TypeExpr

  -- `Vec<Param>`: each a name, if it has one, and a type.
  pub data Params : Type 0 where
    no_params : Params
    more_params : Option Str → TypeExpr → Params → Params

abbrev pub params_length : Params → ℕ
params_length no_params = 0
params_length (more_params n t ps) = suc (params_length ps)

-- `Vec::push`.
unfoldable pub push_param : Params → Option Str → TypeExpr → Params
push_param no_params n t = more_params n t no_params
push_param (more_params m u ps) n t = more_params m u (push_param ps n t)

-- `FunctionExpr`, the builder of a prototype.
pub record FunctionExpr : Type 0 where
  pub ret : TypeExpr
  pub params : Params
  pub varargs : Bool
  pub cc : Option CallingConvention

-- `expr::function`, and the methods of the builder.
unfoldable pub begin_function : TypeExpr → FunctionExpr
begin_function r = record { ret = r; params = no_params; varargs = false; cc = none }

unfoldable pub arg : FunctionExpr → TypeExpr → FunctionExpr
unfolding push_param
arg f t = record f { params = push_param f.params none t }

unfoldable pub named_arg : FunctionExpr → Str → TypeExpr → FunctionExpr
unfolding push_param
named_arg f n t = record f { params = push_param f.params (some n) t }

unfoldable pub variadic : FunctionExpr → FunctionExpr
variadic f = record f { varargs = true }

unfoldable pub calling_convention : FunctionExpr → CallingConvention → FunctionExpr
calling_convention f c = record f { cc = some c }

unfoldable pub build : FunctionExpr → TypeExpr
build f = function f.ret f.params f.varargs f.cc

-- `TypeExpr::const_` and `volatile_`, which qualify once.
unfoldable pub make_const : TypeExpr → TypeExpr
make_const (const t) = const t
make_const t = const t

unfoldable pub make_volatile : TypeExpr → TypeExpr
make_volatile (volatile t) = volatile t
make_volatile t = volatile t

-- `TypeExpr::deref`, which peels one pointer or array.
unfoldable pub deref : TypeExpr → TypeExpr
deref (pointer t) = t
deref (array t n) = t
deref t = t
