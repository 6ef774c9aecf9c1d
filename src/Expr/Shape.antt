-- ===== src/Expr/Shape.antt =====
-- crates/idakit/src/types/expr.rs: the leaves of a recipe, its projections and its rendering.
use idakit.Base.{ℕ, ◌*◌, Bool, true, false, Option, none, some, Str, str, decimal, [], ◌++◌}
use idakit.Expr.{
  TypeExpr, Params, void, bool, int, float, bitfield, decl, named, pointer, array, const, volatile,
  function, no_params, more_params,
}

-- The leaves of a fixed width: `int8` to `uint64`, `char_`, `float32` and `float64`.
abbrev pub char : TypeExpr
char = int 1 true

abbrev pub int8 : TypeExpr
int8 = int 1 true

abbrev pub int16 : TypeExpr
int16 = int 2 true

abbrev pub int32 : TypeExpr
int32 = int 4 true

abbrev pub int64 : TypeExpr
int64 = int 8 true

abbrev pub uint8 : TypeExpr
uint8 = int 1 false

abbrev pub uint16 : TypeExpr
uint16 = int 2 false

abbrev pub uint32 : TypeExpr
uint32 = int 4 false

abbrev pub uint64 : TypeExpr
uint64 = int 8 false

abbrev pub float32 : TypeExpr
float32 = float 4

abbrev pub float64 : TypeExpr
float64 = float 8

abbrev pub is_named : TypeExpr → Bool
is_named (named n) = true
is_named _ = false

abbrev pub as_named : TypeExpr → Option Str
as_named (named n) = some n
as_named _ = none

abbrev pub is_decl : TypeExpr → Bool
is_decl (decl t) = true
is_decl _ = false

abbrev pub as_decl : TypeExpr → Option Str
as_decl (decl t) = some t
as_decl _ = none

abbrev pub is_pointer : TypeExpr → Bool
is_pointer (pointer e) = true
is_pointer _ = false

abbrev pub as_pointer : TypeExpr → Option TypeExpr
as_pointer (pointer e) = some e
as_pointer _ = none

abbrev pub is_array : TypeExpr → Bool
is_array (array e len) = true
is_array _ = false

abbrev pub as_array : TypeExpr → Option (TypeExpr × ℕ)
as_array (array e len) = some (e, len)
as_array _ = none

abbrev pub is_const : TypeExpr → Bool
is_const (const e) = true
is_const _ = false

abbrev pub is_volatile : TypeExpr → Bool
is_volatile (volatile e) = true
is_volatile _ = false

abbrev pub is_void : TypeExpr → Bool
is_void void = true
is_void _ = false

abbrev pub is_scalar : TypeExpr → Bool
is_scalar void = true
is_scalar bool = true
is_scalar (int bytes signed) = true
is_scalar (float bytes) = true
is_scalar _ = false

abbrev pub is_function : TypeExpr → Bool
is_function (function ret ps varargs cc) = true
is_function _ = false

abbrev pub as_function : TypeExpr → Option (TypeExpr × Params × Bool)
as_function (function ret ps varargs cc) = some (ret, ps, varargs)
as_function _ = none

abbrev pub int_name : ℕ → Bool → Str
int_name bytes true = str "int" ++ decimal (bytes * 8)
int_name bytes false = str "uint" ++ decimal (bytes * 8)

abbrev pub with_name : Str → Option Str → Str
with_name t none = t
with_name t (some n) = t ++ (str " " ++ n)

-- What a variadic prototype has before its parenthesis closes.
abbrev pub dots : Bool → Params → Str
dots false ps = []
dots true no_params = str "..."
dots true (more_params n e ps) = str ", ..."

-- `fmt`. The first parameter has no comma before it.
unfoldable mutual
  unfolding decimal

  pub display : TypeExpr → Str
  display void = str "void"
  display bool = str "bool"
  display (int bytes signed) = int_name bytes signed
  display (float bytes) = str "float" ++ decimal (bytes * 8)
  display (bitfield nbytes width signed) = int_name nbytes signed ++ (str ":" ++ decimal width)
  display (named n) = n
  display (decl t) = t
  display (pointer e) = display e ++ str " *"
  display (array e len) = display e ++ (str "[" ++ (decimal len ++ str "]"))
  display (const e) = str "const " ++ display e
  display (volatile e) = str "volatile " ++ display e
  display (function ret ps varargs cc) =
      display ret ++ (str " (" ++ (display_params [] ps ++ (dots varargs ps ++ str ")")))

  pub display_params : Str → Params → Str
  display_params comma no_params = []
  display_params comma (more_params n e ps) =
      comma ++ (with_name (display e) n ++ display_params (str ", ") ps)
