-- ===== src/Ctree/Tree.antt =====
-- crates/idakit/src/decompiler/ctree/tree.rs: the tree, its navigation, and the builder that
-- assembles one.
--
-- A handle out of range panics in the source, and is `none` here.
pub mod Preorder
pub mod Links
pub mod Wiring
use idakit.Base.{
  ℕ, zero, suc, ◌+◌, ◌^◌, Bool, true, false, Option, none, some, List, [], ◌∷◌, ◌++◌, length,
  get_elem?, ltb, ite, ◌>>=◌, if◌then◌else◌, ℕ_discrete,
}
use idakit.Address.{Address}
use idakit.Arena.{alloc, get, put}
use idakit.Types.Table.{TypeId, TypeValue, TypeTable, get_type}
use idakit.Types.Builder.{TypeBuilder, new_builder, into_table}
use idakit.Ctree.{
  ExpressionId, StatementId, LocalId, NodeRef, expression_ref, statement_ref, Local, ExpressionKind,
  StatementKind, ExpressionNode, StatementNode, expression_children, statement_children,
  as_expression, as_call, as_var, as_assign,
}

-- The two arenas of nodes.
pub record Nodes : Type 0 where
  pub expressions : List ExpressionNode
  pub statements : List StatementNode

pub record Ctree : Type 0 where
  pub nodes : Nodes
  pub types : TypeTable
  pub locals : List Local
  pub root : StatementId

-- `for_each_child` of a node, and `Ctree::children`.
unfoldable pub children : Nodes → NodeRef → Option (List NodeRef)
unfolding get expression_children statement_children
children d (expression_ref e) = do n ← get d.expressions e; some (expression_children n.kind)
children d (statement_ref s) = do n ← get d.statements s; some (statement_children n.kind)

unfoldable pub parent : Nodes → NodeRef → Option (Option NodeRef)
unfolding get
parent d (expression_ref e) = do n ← get d.expressions e; some n.parent
parent d (statement_ref s) = do n ← get d.statements s; some n.parent

-- `Iterator::next` of `Descendants`: the children take the place of the node, the first on top.
unfoldable pub next : Nodes → List NodeRef → Option (Option (NodeRef × List NodeRef))
unfolding children
next d [] = some none
next d (n ∷ stack) = do kids ← children d n; some (some (n, kids ++ stack))

-- What the first `k` calls of `next` yield.
unfoldable pub collect : ℕ → Nodes → List NodeRef → Option (List NodeRef)
unfolding next
collect zero d stack = some []
collect (suc k) d stack = do
  item ← next d stack
  elim item [ none ↦ some [] | some (n, stack') ↦ collect k d stack' >>= (λ ns. some (n ∷ ns)) ]

-- `Ctree::descendants`, as the stack that the iterator starts with.
abbrev pub descendants : NodeRef → List NodeRef
descendants n = n ∷ []

-- `LocalId`'s local, `this_local`, and the three queries over the arena of expressions.
unfoldable pub local : Ctree → LocalId → Option Local
local t i = get_elem? t.locals i

abbrev pub next_index : Option ℕ → Option ℕ
next_index none = none
next_index (some i) = some (suc i)

unfoldable pub position_arg : List Local → Option LocalId
position_arg [] = none
position_arg (l ∷ ls) = let rest = position_arg ls in if l.is_arg then some 0 else next_index rest

unfoldable pub this_local : Ctree → Option LocalId
unfolding position_arg
this_local t = position_arg t.locals

-- `filter_map` over the entries of an arena with their handles.
unfoldable pub filter_map_from {ℓ} : {A B : Type ℓ} → ℕ → (ℕ → A → Option B) → List A → List B
filter_map_from i f [] = []
filter_map_from i f (x ∷ xs) =
    let rest = filter_map_from (suc i) f xs in elim (f i x) [ none ↦ rest | some y ↦ y ∷ rest ]

unfoldable pub calls : Ctree → List (ExpressionId × ExpressionId × List ExpressionId)
unfolding filter_map_from
calls t =
    filter_map_from 0 (λ i (n : ExpressionNode). as_call n.kind >>= (λ c. some (i, c.0, c.1)))
      t.nodes.expressions

unfoldable pub vars : Ctree → List (ExpressionId × LocalId)
unfolding filter_map_from
vars t =
    filter_map_from 0 (λ i (n : ExpressionNode). as_var n.kind >>= (λ v. some (i, v)))
      t.nodes.expressions

-- `CtreeBuilder`.
pub record CtreeBuilder : Type 0 where
  pub nodes : Nodes
  pub types : TypeBuilder
  pub locals : List Local

unfoldable pub new_ctree : CtreeBuilder
unfolding new_builder
new_ctree = record {
  nodes = record { expressions = []; statements = [] };
  types = new_builder;
  locals = [];
}

unfoldable pub push_local : Local → CtreeBuilder → Option (LocalId × CtreeBuilder)
push_local l b =
    if ltb (length b.locals) (2 ^ 32)
    then some (length b.locals, record b { locals = b.locals ++ (l ∷ []) })
    else none

-- `CtreeBuilder::expression` and `statement`, which allocate a node with no parent yet.
unfoldable pub add_expression :
    TypeId → ExpressionKind → Option Address → CtreeBuilder → Option (ExpressionId × CtreeBuilder)
unfolding alloc
add_expression t k a b = do
  (i, es) ← alloc (record { address = a; ty = t; parent = none; kind = k }) b.nodes.expressions
  some (i, record b { nodes = record { expressions = es; statements = b.nodes.statements } })

unfoldable pub add_statement :
    StatementKind → Option Address → CtreeBuilder → Option (StatementId × CtreeBuilder)
unfolding alloc
add_statement k a b = do
  (i, ss) ← alloc (record { address = a; parent = none; kind = k }) b.nodes.statements
  some (i, record b { nodes = record { expressions = b.nodes.expressions; statements = ss } })

-- One write of a `parent` in `finish`.
unfoldable pub set_parent : NodeRef → NodeRef → Nodes → Option Nodes
unfolding get put
set_parent p (expression_ref e) d = do
  n ← get d.expressions e
  es ← put d.expressions e (record n { parent = some p })
  some (record { expressions = es; statements = d.statements })
set_parent p (statement_ref s) d = do
  n ← get d.statements s
  ss ← put d.statements s (record n { parent = some p })
  some (record { expressions = d.expressions; statements = ss })

unfoldable pub link_all : NodeRef → List NodeRef → Nodes → Option Nodes
unfolding set_parent
link_all p [] d = some d
link_all p (n ∷ ns) d = do d' ← set_parent p n d; link_all p ns d'

-- Each child is pushed, so that the last one is on top.
abbrev pub push_all : List NodeRef → List NodeRef → List NodeRef
push_all [] stack = stack
push_all (n ∷ ns) stack = push_all ns (n ∷ stack)

-- The loop of `finish`, with the visits that its assertion still allows.
unfoldable pub wire : ℕ → List NodeRef → Nodes → Option Nodes
unfolding children link_all
wire left [] d = some d
wire zero (n ∷ stack) d = none
wire (suc left) (n ∷ stack) d = do
  kids ← children d n
  d' ← link_all n kids d
  wire left (push_all kids stack) d'

-- `CtreeBuilder::finish`, as a release build has it: without the assertion that every node was visited.
unfoldable pub finish : StatementId → CtreeBuilder → Option Ctree
unfolding wire into_table
finish root b = do
  d ←
      wire (length b.nodes.expressions + length b.nodes.statements) (statement_ref root ∷ [])
        b.nodes
  some (record { nodes = d; types = into_table b.types; locals = b.locals; root = root })
