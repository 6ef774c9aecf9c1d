-- ===== src/Expr/Tests.antt =====
-- crates/idakit/src/types/expr.rs on concrete recipes, and its theorems at them.
use idakit.Base.{
  ◌≡◌, refl, true, false, none, some, ◌==◌, if◌then◌else◌, List, [], ◌∷◌, Str, str, str_eq, length,
  arith, ◌↔◌, ◌⊎◌,
}
use idakit.Expr.{
  TypeExpr, Params, begin_function, arg, named_arg, variadic, calling_convention, build, make_const,
  deref, int, named, decl, array, pointer, const, volatile, function, no_params, more_params, cdecl,
  void, bool, float,
}
use idakit.Expr.Names.{from_text, from_text-named_iff, IsQualifiedName}
use idakit.Expr.Wire.{check, checked_serialize, serialize, ok, interior_nul}
use idakit.Expr.Recipe.{Kernel, build_recipe}
use idakit.Expr.Lower.{lower, IsWireable}
use idakit.Expr.Lower.Correct.{build_recipe-checked_serialize}
use idakit.Base.{decimal}
use idakit.Expr.Shape.{int32, uint32, display}
use idakit.Expr.Check.{texts, Judges, checked_serialize-Judges}

-- A kernel that knows two names and refuses empty arrays.
abbrev params_of : List (Str × TypeExpr) → Params
params_of [] = no_params
params_of ((n, t) ∷ ps) = more_params (some n) t (params_of ps)

abbrev small_kernel : Kernel TypeExpr
small_kernel = record {
  simple_void = some void;
  simple_bool = some bool;
  simple_int = λ b s. some (int b s);
  simple_float = λ b. some (float b);
  create_bitfield = λ n w s. none;
  get_named_type = λ n. some (named n);
  parse_decl = λ t. none;
  create_ptr = λ t. some (pointer t);
  create_array = λ t n. if n == 0 then none else some (array t n);
  set_const = const;
  set_volatile = volatile;
  create_func = λ r ps c. some (function r (params_of ps) false none);
}

-- `FILE *const f(int n, const char (&)[16], ...)`, near enough.
abbrev prototype : TypeExpr
prototype = build (
    variadic (
      arg (named_arg (begin_function (const (pointer (named (str "FILE"))))) (str "n") (int 4 true))
        (array (const (int 1 true)) 16)))

prototype_bytes : length (serialize prototype) ≡ 44
unfolding serialize build variadic arg named_arg begin_function
prototype_bytes = refl

prototype-IsWireable : IsWireable prototype
unfolding IsWireable build variadic arg named_arg begin_function
prototype-IsWireable =
    (omega arith, (omega arith, tt, (omega arith, (tt, omega arith), tt)), omega arith)

prototype_passes : checked_serialize prototype ≡ ok (serialize prototype)
unfolding checked_serialize check build variadic arg named_arg begin_function
prototype_passes = refl

-- The unnamed parameter has an empty name, and the ellipsis convention is the kernel's.
prototype_lowered :
    lower small_kernel prototype
    ≡ some (
        function
          (const (pointer (named (str "FILE"))))
          (more_params
            (some (str "n"))
            (int 4 true)
            (more_params (some []) (array (const (int 1 true)) 16) no_params))
          false
          none)
unfolding lower build variadic arg named_arg begin_function
prototype_lowered = refl

build_recipe-checked_serialize_example :
    build_recipe small_kernel (serialize prototype) ≡ lower small_kernel prototype
build_recipe-checked_serialize_example =
    build_recipe-checked_serialize small_kernel prototype prototype-IsWireable prototype_passes

-- A prototype with a NUL byte in a parameter's name and another in its type.
abbrev spoiled : TypeExpr
spoiled =
    function (named (str "FILE")) (more_params (some (110 ∷ 0 ∷ [])) (decl (0 ∷ [])) no_params)
      false (some cdecl)

spoiled_refused : checked_serialize spoiled ≡ interior_nul (str "parameter name")
unfolding checked_serialize check
spoiled_refused = refl

checked_serialize-Judges_example : Judges (checked_serialize spoiled) (texts spoiled)
checked_serialize-Judges_example = checked_serialize-Judges spoiled

from_text-named_iff_example :
    ((from_text (str "ns::Point") ≡ named (str "ns::Point")) ↔ IsQualifiedName (str "ns::Point"))
    × ((from_text (str "ns::Point") ≡ named (str "ns::Point"))
        ⊎ (from_text (str "ns::Point") ≡ decl (str "ns::Point")))
from_text-named_iff_example = from_text-named_iff (str "ns::Point")

qualified_is_named : from_text (str "ns::Point") ≡ named (str "ns::Point")
unfolding from_text str_eq
qualified_is_named = refl

pointer_is_decl : from_text (str "char *") ≡ decl (str "char *")
unfolding from_text str_eq
pointer_is_decl = refl

keyword_is_decl : from_text (str "unsigned") ≡ decl (str "unsigned")
unfolding from_text str_eq
keyword_is_decl = refl

-- `const_` qualifies once, and the ellipsis of a variadic prototype wins over its convention.
const_once : make_const (make_const (pointer void)) ≡ const (pointer void)
unfolding make_const
const_once = refl

deref_array : deref (array (int 4 true) 3) ≡ int 4 true
unfolding deref
deref_array = refl

convention_kept :
    build (calling_convention (begin_function void) cdecl)
    ≡ function void no_params false (some cdecl)
unfolding build calling_convention begin_function
convention_kept = refl

displayed :
    display (build (variadic (named_arg (arg (begin_function int32) int32) (str "flags") uint32)))
    ≡ str "int32 (int32, uint32 flags, ...)"
unfolding display build variadic arg named_arg begin_function decimal
displayed = refl
