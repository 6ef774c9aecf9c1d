-- ===== src/Ctree.antt =====
-- crates/idakit/src/decompiler/ctree/node.rs: the nodes of a decompiled function's tree.
--
-- A signed 64-bit value and a double are their 64 bits.
pub mod Tree
pub mod Build
pub mod Render
pub mod Extract
mod Tests
use idakit.Base.{
  ℕ, Bool, true, false, Option, none, some, List, [], ◌∷◌, ◌++◌, map, Str, ◌==◌, if◌then◌else◌,
  ◌>>=◌,
}
use idakit.Address.{Address, try_new}
use idakit.Arena.{Idx}
use idakit.Ops.{BinaryOp, AssignmentOp, UnaryOp}
use idakit.Types.Table.{TypeId}

abbrev pub ExpressionId : Type 0
ExpressionId = Idx

abbrev pub StatementId : Type 0
StatementId = Idx

abbrev pub LocalId : Type 0
LocalId = ℕ

pub data NodeRef : Type 0 where
  expression_ref : ExpressionId → NodeRef
  statement_ref : StatementId → NodeRef

abbrev pub as_expression : NodeRef → Option ExpressionId
as_expression (expression_ref e) = some e
as_expression (statement_ref s) = none

abbrev pub as_statement : NodeRef → Option StatementId
as_statement (expression_ref e) = none
as_statement (statement_ref s) = some s

abbrev pub is_expression : NodeRef → Bool
is_expression (expression_ref e) = true
is_expression (statement_ref s) = false

abbrev pub is_statement : NodeRef → Bool
is_statement (expression_ref e) = false
is_statement (statement_ref s) = true

mutual
  pub data LocalLocation : Type 0 where
    register : ℕ → LocalLocation
    -- low, high
    register_pair : ℕ → ℕ → LocalLocation
    stack : ℕ → LocalLocation
    -- reg, offset
    register_relative : ℕ → ℕ → LocalLocation
    static_at : Address → LocalLocation
    scattered : LocationPieces → LocalLocation
    custom : LocalLocation
    unallocated : LocalLocation

  -- `Vec<LocationPiece>`: each a location, an offset and a size.
  pub data LocationPieces : Type 0 where
    no_pieces : LocationPieces
    more_pieces : LocalLocation → ℕ → ℕ → LocationPieces → LocationPieces

-- `LocalLocation::from_argloc`: `none` where `Address::new_const` panics.
unfoldable pub from_argloc : ℕ → ℕ → ℕ → ℕ → LocationPieces → Option LocalLocation
unfolding try_new
from_argloc atype reg1 reg2 sval pieces =
    if atype == 0
    then some unallocated
    else if atype == 1
    then some (stack sval)
    else if atype == 2
    then some (scattered pieces)
    else if atype == 3
    then some (register reg1)
    else if atype == 4
    then some (register_pair reg1 reg2)
    else if atype == 5
    then some (register_relative reg1 sval)
    else if atype == 6
    then (try_new sval >>= (λ a. some (static_at a)))
    else some custom

pub record Local : Type 0 where
  pub name : Str
  pub ty : TypeId
  pub is_arg : Bool
  pub is_result : Bool
  pub is_byref : Bool
  pub width : ℕ
  pub comment : Option Str
  pub location : LocalLocation

pub data ExpressionKind : Type 0 where
  binary : BinaryOp → ExpressionId → ExpressionId → ExpressionKind
  assign : AssignmentOp → ExpressionId → ExpressionId → ExpressionKind
  unary : UnaryOp → ExpressionId → ExpressionKind
  -- cond, then, else
  ternary : ExpressionId → ExpressionId → ExpressionId → ExpressionKind
  call : ExpressionId → List ExpressionId → ExpressionKind
  -- array, index
  index : ExpressionId → ExpressionId → ExpressionKind
  -- obj, byte_offset
  member_ref : ExpressionId → ℕ → ExpressionKind
  member_ptr : ExpressionId → ℕ → ExpressionKind
  cast : ExpressionId → ExpressionKind
  -- x, size
  deref : ExpressionId → ℕ → ExpressionKind
  sizeof : ExpressionId → ExpressionKind
  num : ℕ → ExpressionKind
  fnum : ℕ → ExpressionKind
  string : Str → ExpressionKind
  -- address, name
  obj : Address → Option Str → ExpressionKind
  var : LocalId → ExpressionKind
  helper : Str → ExpressionKind
  type_expression : ExpressionKind
  empty : ExpressionKind
  internal : ExpressionKind

pub record Case : Type 0 where
  pub values : List ℕ
  pub body : StatementId

pub data StatementKind : Type 0 where
  block : List StatementId → StatementKind
  expression : ExpressionId → StatementKind
  -- cond, then, else
  if_statement : ExpressionId → StatementId → Option StatementId → StatementKind
  -- init, cond, step, body
  for_statement :
      Option ExpressionId → Option ExpressionId → Option ExpressionId → StatementId → StatementKind
  while_statement : ExpressionId → StatementId → StatementKind
  -- body, cond
  do_statement : StatementId → ExpressionId → StatementKind
  switch : ExpressionId → List Case → StatementKind
  break : StatementKind
  continue : StatementKind
  return : Option ExpressionId → StatementKind
  goto : ℕ → StatementKind
  asm : List Address → StatementKind
  -- body, catches
  try : StatementId → List StatementId → StatementKind
  throw : Option ExpressionId → StatementKind
  empty_statement : StatementKind

pub record ExpressionNode : Type 0 where
  pub address : Option Address
  pub ty : TypeId
  pub parent : Option NodeRef
  pub kind : ExpressionKind

pub record StatementNode : Type 0 where
  pub address : Option Address
  pub parent : Option NodeRef
  pub kind : StatementKind

abbrev pub maybe_expression : Option ExpressionId → List NodeRef
maybe_expression none = []
maybe_expression (some e) = expression_ref e ∷ []

abbrev pub maybe_statement : Option StatementId → List NodeRef
maybe_statement none = []
maybe_statement (some s) = statement_ref s ∷ []

-- `for_each_child`, as the list of the children in the order of the calls.
unfoldable pub expression_children : ExpressionKind → List NodeRef
expression_children (binary op x y) = expression_ref x ∷ expression_ref y ∷ []
expression_children (assign op x y) = expression_ref x ∷ expression_ref y ∷ []
expression_children (index a i) = expression_ref a ∷ expression_ref i ∷ []
expression_children (unary op x) = expression_ref x ∷ []
expression_children (cast x) = expression_ref x ∷ []
expression_children (deref x size) = expression_ref x ∷ []
expression_children (sizeof x) = expression_ref x ∷ []
expression_children (member_ref o off) = expression_ref o ∷ []
expression_children (member_ptr o off) = expression_ref o ∷ []
expression_children (ternary c t e) = expression_ref c ∷ expression_ref t ∷ expression_ref e ∷ []
expression_children (call f args) = expression_ref f ∷ map expression_ref args
expression_children _ = []

unfoldable pub case_body : Case → NodeRef
case_body c = statement_ref c.body

unfoldable pub statement_children : StatementKind → List NodeRef
unfolding case_body
statement_children (block ss) = map statement_ref ss
statement_children (expression e) = expression_ref e ∷ []
statement_children (if_statement c t e) = expression_ref c ∷ statement_ref t ∷ maybe_statement e
statement_children (for_statement i c s b) =
    maybe_expression i ++ (maybe_expression c ++ (maybe_expression s ++ (statement_ref b ∷ [])))
statement_children (while_statement c b) = expression_ref c ∷ statement_ref b ∷ []
statement_children (do_statement b c) = statement_ref b ∷ expression_ref c ∷ []
statement_children (switch e cs) = expression_ref e ∷ map case_body cs
statement_children (return e) = maybe_expression e
statement_children (throw e) = maybe_expression e
statement_children (try b cs) = statement_ref b ∷ map statement_ref cs
statement_children _ = []

abbrev pub as_binary : ExpressionKind → Option (BinaryOp × ExpressionId × ExpressionId)
as_binary (binary op x y) = some (op, x, y)
as_binary _ = none

abbrev pub as_assign : ExpressionKind → Option (AssignmentOp × ExpressionId × ExpressionId)
as_assign (assign op x y) = some (op, x, y)
as_assign _ = none

abbrev pub as_unary : ExpressionKind → Option (UnaryOp × ExpressionId)
as_unary (unary op x) = some (op, x)
as_unary _ = none

abbrev pub as_call : ExpressionKind → Option (ExpressionId × List ExpressionId)
as_call (call f args) = some (f, args)
as_call _ = none

abbrev pub as_var : ExpressionKind → Option LocalId
as_var (var v) = some v
as_var _ = none

abbrev pub as_num : ExpressionKind → Option ℕ
as_num (num v) = some v
as_num _ = none
