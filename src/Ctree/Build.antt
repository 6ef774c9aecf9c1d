-- ===== src/Ctree/Build.antt =====
-- crates/idakit/src/decompiler/ctree/tree.rs: the builder's shorthands for a node with no address, and
-- the queries of a tree by address.
use idakit.Base.{
  ℕ, Bool, false, Option, none, some, List, [], ◌∷◌, ◌++◌, map, Str, ◌==◌, if◌then◌else◌, ◌>>=◌,
}
use idakit.Address.{Address}
use idakit.Ops.{BinaryOp, AssignmentOp, UnaryOp}
use idakit.Types.Table.{TypeId}
use idakit.Ctree.{
  ExpressionId, StatementId, LocalId, NodeRef, expression_ref, statement_ref, ExpressionNode,
  StatementNode, var, num, fnum, obj, string, helper, cast, deref, unary, binary, assign, ternary,
  index, member_ref, member_ptr, call, sizeof, expression, block, return, as_assign,
}
use idakit.Ctree.Tree.{Ctree, CtreeBuilder, add_expression, add_statement, filter_map_from}

-- A builder's operation that adds an expression or a statement.
abbrev Adds : Type 0
Adds = CtreeBuilder → Option (ℕ × CtreeBuilder)

abbrev pub build_var : TypeId → LocalId → Adds
build_var ty i = add_expression ty (var i) none

abbrev pub build_num : TypeId → ℕ → Adds
build_num ty v = add_expression ty (num v) none

abbrev pub build_fnum : TypeId → ℕ → Adds
build_fnum ty v = add_expression ty (fnum v) none

abbrev pub build_obj : TypeId → Address → Option Str → Adds
build_obj ty a n = add_expression ty (obj a n) none

abbrev pub build_string : TypeId → Str → Adds
build_string ty s = add_expression ty (string s) none

abbrev pub build_helper : TypeId → Str → Adds
build_helper ty s = add_expression ty (helper s) none

abbrev pub build_cast : TypeId → ExpressionId → Adds
build_cast ty x = add_expression ty (cast x) none

abbrev pub build_deref : TypeId → ExpressionId → ℕ → Adds
build_deref ty x size = add_expression ty (deref x size) none

abbrev pub build_unary : TypeId → UnaryOp → ExpressionId → Adds
build_unary ty op x = add_expression ty (unary op x) none

abbrev pub build_binary : TypeId → BinaryOp → ExpressionId → ExpressionId → Adds
build_binary ty op x y = add_expression ty (binary op x y) none

abbrev pub build_assign : TypeId → AssignmentOp → ExpressionId → ExpressionId → Adds
build_assign ty op x y = add_expression ty (assign op x y) none

abbrev pub build_ternary : TypeId → ExpressionId → ExpressionId → ExpressionId → Adds
build_ternary ty c t e = add_expression ty (ternary c t e) none

abbrev pub build_index : TypeId → ExpressionId → ExpressionId → Adds
build_index ty a i = add_expression ty (index a i) none

abbrev pub build_member_ref : TypeId → ExpressionId → ℕ → Adds
build_member_ref ty o off = add_expression ty (member_ref o off) none

abbrev pub build_member_ptr : TypeId → ExpressionId → ℕ → Adds
build_member_ptr ty o off = add_expression ty (member_ptr o off) none

abbrev pub build_call : TypeId → ExpressionId → List ExpressionId → Adds
build_call ty f args = add_expression ty (call f args) none

abbrev pub build_sizeof : TypeId → ExpressionId → Adds
build_sizeof ty x = add_expression ty (sizeof x) none

abbrev pub build_expression_statement : ExpressionId → Adds
build_expression_statement e = add_statement (expression e) none

abbrev pub build_block : List StatementId → Adds
build_block ss = add_statement (block ss) none

abbrev pub build_return : Option ExpressionId → Adds
build_return e = add_statement (return e) none

-- `node.address == Some(address)`: the addresses are equal when what is stored of them is.
abbrev pub is_at : Address → Option Address → Bool
is_at a none = false
is_at a (some b) = a.niche == b.niche

abbrev pub keep_at : Address → Option Address → ℕ → Option ℕ
keep_at a o i = if is_at a o then some i else none

abbrev pub head? : List ℕ → Option ℕ
head? [] = none
head? (i ∷ is) = some i

abbrev pub expressions_at : Address → Ctree → List ExpressionId
expressions_at a t =
    filter_map_from 0 (λ i (n : ExpressionNode). keep_at a n.address i) t.nodes.expressions

abbrev pub statements_at : Address → Ctree → List StatementId
statements_at a t =
    filter_map_from 0 (λ i (n : StatementNode). keep_at a n.address i) t.nodes.statements

abbrev pub expression_at : Address → Ctree → Option ExpressionId
expression_at a t = head? (expressions_at a t)

abbrev pub statement_at : Address → Ctree → Option StatementId
statement_at a t = head? (statements_at a t)

-- The expressions come before the statements.
abbrev pub items_at : Address → Ctree → List NodeRef
items_at a t = map expression_ref (expressions_at a t) ++ map statement_ref (statements_at a t)

abbrev pub assigns : Ctree → List (ExpressionId × AssignmentOp × ExpressionId × ExpressionId)
assigns t =
    filter_map_from 0
      (λ i (n : ExpressionNode). as_assign n.kind >>= (λ c. some (i, c.0, c.1, c.2)))
      t.nodes.expressions
