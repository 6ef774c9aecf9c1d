-- ===== src/Ctree/Extract.antt =====
-- crates/idakit/src/decompiler/ctree/extract.rs: the tree from the callbacks of the facade's walk.
--
-- An operation returns `none` where the source panics: a full arena, and a slice out of range.
pub mod Calls
pub mod Errors
use idakit.Base.{
  ℕ, zero, suc, ◌+◌, ◌/◌, ◌%◌, ◌-◌, ◌^◌, Bool, true, false, not, Option, none, some, List, [], ◌∷◌,
  ◌++◌, map, Str, is_empty, length, take, drop, ltb, ◌==◌, if◌then◌else◌, ◌>>=◌,
}
use idakit.Address.{Address, try_new}
use idakit.Ops.{
  BinaryOp, AssignmentOp, UnaryOp, binary_try_from, assignment_try_from, unary_try_from,
}
use idakit.Types.Table.{TypeId}
use idakit.Types.Builder.{TypeBuilder, unfilled}
use idakit.Ctree.{
  ExpressionId, StatementId, LocalId, Local, LocalLocation, LocationPieces, no_pieces, more_pieces,
  from_argloc, ExpressionKind, StatementKind, Case, binary, assign, unary, ternary, call, index,
  member_ref, member_ptr, cast, deref, sizeof, num, fnum, string, obj, var, helper, type_expression,
  empty, internal, block, expression, if_statement, for_statement, while_statement, do_statement,
  switch, break, continue, return, goto, asm, try, throw, empty_statement,
}
use idakit.Ctree.Tree.{
  Ctree, CtreeBuilder, new_ctree, add_expression, add_statement, push_local, finish,
}

pub data StructuralTag : Type 0 where
  empty_tag tern_tag cast_tag idx_tag insn_tag sizeof_tag type_tag : StructuralTag

unfoldable pub structural_try_from : ℕ → Option StructuralTag
structural_try_from raw =
    if raw == 0
    then some empty_tag
    else if raw == 16
    then some tern_tag
    else if raw == 48
    then some cast_tag
    else if raw == 58
    then some idx_tag
    else if raw == 66
    then some insn_tag
    else if raw == 67
    then some sizeof_tag
    else if raw == 69
    then some type_tag
    else none

pub data ExtractError : Type 0 where
  unknown_expression_tag : ℕ → ExtractError
  bad_address : ExtractError
  scalar_too_wide : ℕ → ExtractError
  unfilled_type : ℕ → ExtractError

-- `NONE`, the handle of an absent node, and `opt_e` and `opt_s`.
abbrev pub absent : ℕ
absent = 2 ^ 32 - 1

unfoldable pub opt_id : ℕ → Option ℕ
opt_id raw = if raw == absent then none else some raw

pub record CallbackBuilder : Type 0 where
  pub b : CtreeBuilder
  pub error : Option ExtractError

unfoldable pub new_callbacks : CallbackBuilder
unfolding new_ctree
new_callbacks = record { b = new_ctree; error = none }

-- `fail`: the first failure stays.
abbrev pub first_of : Option ExtractError → ExtractError → Option ExtractError
first_of none e = some e
first_of (some f) e = some f

unfoldable pub fail : ExtractError → CallbackBuilder → CallbackBuilder
fail e c = record c { error = first_of c.error e }

unfoldable pub push_expression :
    ℕ → TypeId → ExpressionKind → CallbackBuilder → Option (ExpressionId × CallbackBuilder)
unfolding try_new add_expression
push_expression address ty kind c = do
  (i, b) ← add_expression ty kind (try_new address) c.b
  some (i, record c { b = b })

unfoldable pub push_statement :
    ℕ → StatementKind → CallbackBuilder → Option (StatementId × CallbackBuilder)
unfolding try_new add_statement
push_statement address kind c = do
  (i, b) ← add_statement kind (try_new address) c.b
  some (i, record c { b = b })

-- `obj`, at the target if it is an address.
unfoldable pub push_obj :
    ℕ
    → Option Address
    → Option Str
    → TypeId
    → CallbackBuilder
    → Option (ExpressionId × CallbackBuilder)
unfolding fail push_expression
push_obj address (some target) name ty c = push_expression address ty (obj target name) c
push_obj address none name ty c = push_expression address ty empty (fail bad_address c)

-- The kind of an operator that is none of the three groups.
unfoldable pub structural_kind : Option StructuralTag → ℕ → ℕ → ℕ → Option ExpressionKind
structural_kind (some tern_tag) x y z = some (ternary x y z)
structural_kind (some cast_tag) x y z = some (cast x)
structural_kind (some idx_tag) x y z = some (index x y)
structural_kind (some sizeof_tag) x y z = some (sizeof x)
structural_kind (some empty_tag) x y z = some empty
structural_kind (some type_tag) x y z = some type_expression
structural_kind (some insn_tag) x y z = some internal
structural_kind none x y z = none

-- `u16::try_from(ctype).ok()`, by which each group is probed.
unfoldable pub op16 : {A : Type 0} → (ℕ → Option A) → ℕ → Option A
op16 f ctype = if ltb ctype (2 ^ 16) then f ctype else none

abbrev pub or_else : {A : Type 0} → Option A → Option A → Option A
or_else none o = o
or_else (some a) o = some a

-- `classify`, assignments first; `none` is the tag it does not know.
unfoldable pub known_kind : ℕ → ℕ → ℕ → ℕ → Option ExpressionKind
unfolding structural_try_from structural_kind op16 assignment_try_from binary_try_from
    unary_try_from
known_kind ctype x y z =
    if ctype == 66
    then some internal
    else or_else (op16 assignment_try_from ctype >>= (λ op. some (assign op x y))) (
        or_else (op16 binary_try_from ctype >>= (λ op. some (binary op x y))) (
          or_else (op16 unary_try_from ctype >>= (λ op. some (unary op x)))
            (structural_kind (structural_try_from ctype) x y z)))

unfoldable pub push_classified :
    ℕ
    → ℕ
    → TypeId
    → Option ExpressionKind
    → CallbackBuilder
    → Option (ExpressionId × CallbackBuilder)
unfolding fail push_expression
push_classified address ctype ty (some kind) c = push_expression address ty kind c
push_classified address ctype ty none c =
    push_expression address ty internal (fail (unknown_expression_tag ctype) c)

-- The addresses of an assembly statement; each that is none is a failure and is left out.
unfoldable pub keep_addresses : List ℕ → List Address
unfolding try_new
keep_addresses [] = []
keep_addresses (a ∷ as') =
    let rest = keep_addresses as' in elim (try_new a) [ none ↦ rest | some e ↦ e ∷ rest ]

unfoldable pub fail_addresses : List ℕ → CallbackBuilder → CallbackBuilder
unfolding try_new fail
fail_addresses [] c = c
fail_addresses (a ∷ as') c = elim (try_new a) [
  | none ↦ fail_addresses as' (fail bad_address c)
  | some e ↦ fail_addresses as' c
]
