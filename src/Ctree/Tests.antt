-- ===== src/Ctree/Tests.antt =====
-- crates/idakit/src/decompiler/ctree: the tree of `{ return a + b; }`, and the theorems at it.
use idakit.Base.{
  ℕ, zero, suc, ◌+◌, ◌-◌, ◌^◌, none, some, List, [], ◌∷◌, ◌≡◌, ◌≢◌, refl, subst, length, All, arith,
  ◌>>=◌, >>=-some, ◌⊎◌,
}
use idakit.Address.{address}
use idakit.Arena.{get}
use idakit.Ops.{BinaryOp}
use idakit.Types.Builder.{scalar, new_builder}
use idakit.Ctree.{
  NodeRef, expression_ref, statement_ref, ExpressionNode, StatementNode, ExpressionKind,
  StatementKind, binary, var, block, return, expression_children, statement_children,
}
use idakit.Ctree.Tree.{Nodes, Ctree, CtreeBuilder, children, parent, collect, descendants, finish}
use idakit.Ctree.Tree.Preorder.{
  Preorder, leaves, visit, IsChildrenFirst, BelowExpression, BelowStatement, collect-descendants,
}
use idakit.Ctree.Tree.Links.{Mem}
use idakit.Ctree.Tree.Wiring.{finish-IsWired}
use idakit.Ctree.Extract.{unknown_expression_tag, absent, new_callbacks, CallbackBuilder}
use idakit.Ctree.Extract.Calls.{
  e_var, e_op, s_return, s_block, s_asm, apply, finish_walk, split_cases,
}
use idakit.Ctree.Render.{to_pseudocode, joined, all_some, expression_text}
use idakit.Base.{Str, str, ◌++◌, decimal, true}
use idakit.Types.Table.{int, TypeTable}
use idakit.Ops.{UnaryOp}
use idakit.Ctree.{unary}
use idakit.Ctree.Extract.Errors.{
  Call, on_node, on_type, apply_all, first_error, finish_walk-first_error, answer, failure,
}

abbrev pub leaf : ExpressionKind → ExpressionNode
leaf k = record { address = some (address (2 ^ 64 - 1)); ty = 0; parent = none; kind = k }

abbrev pub statement : StatementKind → StatementNode
statement k = record { address = some (address (2 ^ 64 - 1)); parent = none; kind = k }

abbrev sample : Nodes
sample = record {
  expressions = leaf (var 0) ∷ leaf (var 1) ∷ leaf (binary BinaryOp.add 0 1) ∷ [];
  statements = statement (return (some 2)) ∷ statement (block (0 ∷ [])) ∷ [];
}

abbrev sample_builder : CtreeBuilder
sample_builder = record { nodes = sample; types = new_builder; locals = [] }

-- A property of each entry of a list with its position, and of each entry that is read.
abbrev pub Each {ℓ} : {A : Type ℓ} → (ℕ → A → Type 0) → ℕ → List A → Type 0
Each P i [] = Unit
Each P i (x ∷ xs) = P i x × Each P (suc i) xs

pub each_read {ℓ} :
    {A : Type ℓ} (P : ℕ → A → Type 0) (xs : List A) (i j k : ℕ) (x : A)
    → i + j ≡ k
    → Each P i xs
    → get xs j ≡ some x
    → P k x
unfolding get
each_read P [] i j k x e h g = cc
each_read P (y ∷ xs) i zero k x e h g =
    let q : i ≡ k = omega arith in subst (λ n. P n x) q (subst (P i) (cc g) h.0)
each_read P (y ∷ xs) i (suc j) k x e h g = each_read P xs (suc i) j k x (omega arith) h.1 g

pub zero_plus : (n : ℕ) → 0 + n ≡ n
zero_plus n = omega arith

sample-IsChildrenFirst : IsChildrenFirst sample
unfolding expression_children statement_children
sample-IsChildrenFirst = record {
  of_expression = λ i n h.
      each_read
        (λ j (m : ExpressionNode). All (BelowExpression sample j) (expression_children m.kind))
        sample.expressions 0 i i n (zero_plus i) (tt, (tt, ((omega arith, (omega arith, tt)), tt)))
        h;
  of_statement = λ i n h.
      each_read (λ j (m : StatementNode). All (BelowStatement sample j) (statement_children m.kind))
        sample.statements 0 i i n (zero_plus i) ((omega arith, tt), ((omega arith, tt), tt)) h;
}

abbrev top : NodeRef
top = statement_ref 1

collect-descendants_example :
    (ns : List NodeRef) × Preorder sample (top ∷ []) ns
    × ((k : ℕ) → collect (length ns + k) sample (descendants top) ≡ some ns)
collect-descendants_example = collect-descendants sample top sample-IsChildrenFirst (omega arith)

abbrev visited : List NodeRef
visited = top ∷ statement_ref 0 ∷ expression_ref 2 ∷ expression_ref 0 ∷ expression_ref 1 ∷ []

sample_walked : collect 9 sample (descendants top) ≡ some visited
unfolding collect
sample_walked = refl

sample-Preorder : Preorder sample (top ∷ []) visited
unfolding children
sample-Preorder =
    visit refl
      (visit refl (visit refl (visit refl leaves (visit refl leaves leaves)) leaves) leaves) leaves

no_parent : (m p : NodeRef) → parent sample m ≢ some (some p)
unfolding parent
no_parent (expression_ref e) p h =
    let (n, g, q) = >>=-some (get sample.expressions e) _ h in
    let f =
      each_read (λ j (x : ExpressionNode). x.parent ≡ none) sample.expressions 0 e e n (zero_plus e)
        (refl, (refl, (refl, tt))) g in
    cc
no_parent (statement_ref s) p h =
    let (n, g, q) = >>=-some (get sample.statements s) _ h in
    let f =
      each_read (λ j (x : StatementNode). x.parent ≡ none) sample.statements 0 s s n (zero_plus s)
        (refl, (refl, tt)) g in
    cc

finish-IsWired_example :
    (t : Ctree) × (finish 1 sample_builder ≡ some t)
    × ((m : NodeRef) → children t.nodes m ≡ children sample m)
    × ((m : NodeRef)
        → Mem m visited
        → (m ≡ top) ⊎ ((p : NodeRef) × (parent t.nodes m ≡ some (some p))))
    × ((m p : NodeRef)
        → parent t.nodes m ≡ some (some p)
        → (kids : List NodeRef) × (children t.nodes p ≡ some kids) × Mem m kids)
finish-IsWired_example =
    finish-IsWired sample_builder 1 visited sample-Preorder (omega arith) no_parent

-- A node that is its own child is caught by the assertion.
abbrev self_block : CtreeBuilder
self_block = record {
  nodes = record { expressions = []; statements = statement (block (0 ∷ [])) ∷ [] };
  types = new_builder;
  locals = [];
}

self_block_caught : finish 0 self_block ≡ none
unfolding finish
self_block_caught = refl

-- A walk whose first failure is a tag that no operator has, and whose second is an address.
abbrev failing : List Call
failing =
    on_type (λ t. scalar 3 4 1 4 1 t >>= (λ p. some p.1))
    ∷ on_node (e_var 0 0 0)
    ∷ on_node (e_op 0 51 0 0 0 0)
    ∷ on_node (s_asm 0 (16 ∷ (2 ^ 64 - 1) ∷ []))
    ∷ []

failing_applied : (c : CallbackBuilder) × (apply_all failing new_callbacks ≡ some c)
unfolding apply new_callbacks scalar
failing_applied = (_, refl)

finish_walk-first_error_example :
    finish_walk 0 failing_applied.0
    ≡ answer (failure failing failing_applied.0) (finish 0 failing_applied.0.b)
finish_walk-first_error_example =
    finish_walk-first_error failing failing_applied.0 0 failing_applied.1

failing_first : first_error failing ≡ some (unknown_expression_tag 51)
failing_first = refl

-- The callbacks that build the sample.
abbrev building : List Call
building =
    on_type (λ t. scalar 3 4 1 4 1 t >>= (λ p. some p.1))
    ∷ on_node (e_var 0 0 0)
    ∷ on_node (e_var 0 1 0)
    ∷ on_node (e_op 0 35 0 1 absent 0)
    ∷ on_node (s_return 0 2)
    ∷ on_node (s_block 0 (0 ∷ []))
    ∷ []

built_nodes :
    (c : CallbackBuilder) × (apply_all building new_callbacks ≡ some c)
    × (c.b.nodes ≡ sample)
    × (c.error ≡ none)
unfolding apply new_callbacks scalar
built_nodes = (_, refl, refl, refl)

cases_split :
    split_cases (4 ∷ 5 ∷ []) (2 ∷ 0 ∷ []) (7 ∷ 9 ∷ [])
    ≡ some (record { values = 7 ∷ 9 ∷ []; body = 4 } ∷ record { values = []; body = 5 } ∷ [])
unfolding split_cases
cases_split = refl

cases_short : split_cases (4 ∷ []) (2 ∷ []) (7 ∷ []) ≡ none
unfolding split_cases
cases_short = refl

-- The sample with its locals and its one type.
abbrev int_table : TypeTable
int_table = record { arena = record { shape = int 4 true; size = some 4 } ∷ []; dedup = [] }

abbrev sample_tree : Ctree
sample_tree = record { nodes = sample; types = int_table; locals = []; root = 1 }

abbrev pub no_float : ℕ → Str
no_float v = str "?"

abbrev pub in_quotes : Str → Str
in_quotes s = 34 ∷ (s ++ (34 ∷ []))

sample_rendered :
    to_pseudocode no_float in_quotes sample_tree
    ≡ some (str "{" ++ (10 ∷ (str "  return v0 + v1;" ++ (10 ∷ (str "}" ++ (10 ∷ []))))))
unfolding to_pseudocode joined all_some decimal
sample_rendered = refl

-- A negation of a negation is rendered as a decrement is.
abbrev negated : Nodes
negated = record {
  expressions =
      leaf (var 0)
      ∷ leaf (unary UnaryOp.neg 0)
      ∷ leaf (unary UnaryOp.neg 1)
      ∷ leaf (unary UnaryOp.pre_dec 0)
      ∷ [];
  statements = [];
}

abbrev negated_tree : Ctree
negated_tree = record { nodes = negated; types = int_table; locals = []; root = 0 }

negations_rendered :
    expression_text no_float in_quotes 9 negated_tree 2 0
    ≡ expression_text no_float in_quotes 9 negated_tree 3 0
unfolding expression_text joined decimal
negations_rendered = refl
