-- ===== src/Ctree/Render/Tests.antt =====
-- crates/idakit/src/decompiler/ctree/render.rs: the rendering of `{ return (__int32 *)v0->x; }`.
use idakit.Base.{
  ℕ, zero, suc, ◌<◌, some, none, [], ◌∷◌, ◌++◌, ◌≡◌, refl, str, decimal, true, All, arith,
}
use idakit.Types.Table.{TypeTable, TypeValue, TypeMember, int, ptr, struct, get_type}
use idakit.Ctree.{
  ExpressionNode, StatementNode, ExpressionKind, var, member_ptr, cast, block, return,
  expression_children, statement_children,
}
use idakit.Ctree.Tree.{Nodes, Ctree}
use idakit.Ctree.Tree.Preorder.{IsChildrenFirst, BelowExpression, BelowStatement}
use idakit.Ctree.Render.{to_pseudocode, joined, all_some}
use idakit.Ctree.Render.Types.{HasText, IsTyped, Refers, IsHandle}
use idakit.Ctree.Render.Total.{to_pseudocode-HasText}
use idakit.Ctree.Tests.{statement, each_read, zero_plus, no_float, in_quotes}

-- An integer, a pointer to it, a record with one integer in it, and a pointer to the record.
abbrev x_member : TypeMember
x_member = record { name = str "x"; bit_offset = 0; ty = 0; bitfield_width = none; repr = none }

abbrev point_table : TypeTable
point_table = record {
  arena =
      record { shape = int 4 true; size = some 4 }
      ∷ record { shape = ptr 0; size = some 8 }
      ∷ record { shape = struct (some (str "point")) (x_member ∷ []); size = some 4 }
      ∷ record { shape = ptr 2; size = some 8 }
      ∷ [];
  dedup = [];
}

abbrev typed : ℕ → ExpressionKind → ExpressionNode
typed t k = record { address = none; ty = t; parent = none; kind = k }

abbrev casting : Nodes
casting = record {
  expressions = typed 3 (var 0) ∷ typed 0 (member_ptr 0 0) ∷ typed 1 (cast 1) ∷ [];
  statements = statement (return (some 2)) ∷ statement (block (0 ∷ [])) ∷ [];
}

abbrev casting_tree : Ctree
casting_tree = record { nodes = casting; types = point_table; locals = []; root = 1 }

casting_rendered :
    to_pseudocode no_float in_quotes casting_tree
    ≡ some (str "{" ++ (10 ∷ (str "  return (__int32 *)v0->x;" ++ (10 ∷ (str "}" ++ (10 ∷ []))))))
unfolding to_pseudocode joined all_some decimal
casting_rendered = refl

casting-IsChildrenFirst : IsChildrenFirst casting
unfolding expression_children statement_children
casting-IsChildrenFirst = record {
  of_expression = λ i n h.
      each_read
        (λ j (m : ExpressionNode). All (BelowExpression casting j) (expression_children m.kind))
        casting.expressions 0 i i n (zero_plus i) (tt, ((omega arith, tt), ((omega arith, tt), tt)))
        h;
  of_statement = λ i n h.
      each_read
        (λ j (m : StatementNode). All (BelowStatement casting j) (statement_children m.kind))
        casting.statements 0 i i n (zero_plus i) ((omega arith, tt), ((omega arith, tt), tt)) h;
}

-- A pointer is above what it points to.
abbrev depth : ℕ → ℕ
depth zero = 0
depth (suc zero) = 1
depth (suc (suc zero)) = 0
depth (suc (suc (suc i))) = 1

depth-bounded : (i : ℕ) → depth i < 4
depth-bounded zero = omega arith
depth-bounded (suc zero) = omega arith
depth-bounded (suc (suc zero)) = omega arith
depth-bounded (suc (suc (suc i))) = omega arith

point_falls :
    (i : ℕ) (v : TypeValue)
    → get_type point_table i ≡ some v
    → Refers (λ j. IsHandle point_table j × (depth j < depth i)) (IsHandle point_table) v.shape
unfolding get_type
point_falls i v h =
    each_read
      (λ k (x : TypeValue).
        Refers (λ j. IsHandle point_table j × (depth j < depth k)) (IsHandle point_table) x.shape)
      point_table.arena 0 i i v (zero_plus i)
      (tt, ((omega arith, omega arith), ((omega arith, tt), ((omega arith, omega arith), tt)))) h

casting-IsTyped : IsTyped casting_tree
casting-IsTyped = record {
  rank = depth;
  bounded = λ i h. depth-bounded i;
  falls = point_falls;
  expressions = λ e n g.
      each_read (λ j (x : ExpressionNode). x.ty < 4) casting.expressions 0 e e n (zero_plus e)
        (omega arith, (omega arith, (omega arith, tt))) g;
}

to_pseudocode-HasText_example : HasText (to_pseudocode no_float in_quotes casting_tree)
to_pseudocode-HasText_example =
    to_pseudocode-HasText no_float in_quotes casting_tree casting-IsChildrenFirst (omega arith)
      casting-IsTyped
