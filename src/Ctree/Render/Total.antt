-- ===== src/Ctree/Render/Total.antt =====
-- crates/idakit/src/decompiler/ctree/render.rs: the rendering of a well-formed tree ends.
use idakit.Base.{
  ℕ, zero, suc, ◌+◌, ◌<◌, ◌==◌, true, false, Option, none, some, List, [], ◌∷◌, ◌++◌, map, length,
  Str, str, ◌≡◌, arith, All,
}
use idakit.Address.{Address}
use idakit.Arena.{get}
use idakit.Types.Table.{TypeId}
use idakit.Ctree.{
  NodeRef, expression_ref, statement_ref, ExpressionNode, StatementNode, ExpressionKind,
  StatementKind, Case, ExpressionId, StatementId, expression_children, statement_children,
  case_body, maybe_expression, binary, assign, unary, ternary, call, index, member_ref, member_ptr,
  cast, deref, sizeof, num, fnum, string, obj, var, helper, type_expression, empty, internal, block,
  expression, if_statement, for_statement, while_statement, do_statement, switch, break, continue,
  return, goto, asm, try, throw, empty_statement,
}
use idakit.Ctree.Tree.{Ctree}
use idakit.Ctree.Tree.Preorder.{
  IsChildrenFirst, BelowExpression, BelowStatement, get_valid, All-mono,
}
use idakit.Ctree.Render.Types.{
  HasText, text_of, joined-HasText, two, three, all_some-total, if-HasText, bind-HasText, IsTyped,
  print_type-HasText, field_name-HasText,
}
use idakit.Ctree.Render.{
  joined, each, print_type, inner, prec, parenthesized, expression_text, statement_kind_text,
  statement_text, to_pseudocode, is_postfix, bin_prec, case_head, case_lines, line, optional,
}

-- What the recursion has of a child.
abbrev Ready : Ctree → (ExpressionId → ℕ → Option Str) → NodeRef → Type 0
Ready c rec (expression_ref e) =
    (e < length c.nodes.expressions) × ((least : ℕ) → HasText (rec e least))
Ready c rec (statement_ref s) = Unit

args-HasText :
    (c : Ctree) (rec : ExpressionId → ℕ → Option Str) (args : List ExpressionId)
    → All (Ready c rec) (map expression_ref args)
    → All HasText (each (λ a. rec a 2) args)
args-HasText c rec [] h = tt
args-HasText c rec (a ∷ args) (r, rs) = (r.1 2, args-HasText c rec args rs)

module _ (float_text : ℕ → Str) (quoted : Str → Str) where
  inner-HasText :
      (c : Ctree) (rec : ExpressionId → ℕ → Option Str) (a : Option Address) (t : TypeId)
      (p : Option NodeRef) (k : ExpressionKind)
      → IsTyped c
      → HasText (print_type (suc (length c.types.arena)) c.types t)
      → All (Ready c rec) (expression_children k)
      → HasText
          (inner float_text quoted rec c (record { address = a; ty = t; parent = p; kind = k }))
  unfolding inner expression_children
  inner-HasText c rec a t p (binary op x y) typed ty (hx, (hy, u)) =
      if-HasText (bin_prec op == 1) _ _ (three (hx.1 1) (text_of _) (hy.1 2))
        (three (hx.1 (bin_prec op)) (text_of _) (hy.1 (suc (bin_prec op))))
  inner-HasText c rec a t p (assign op x y) typed ty (hx, (hy, u)) =
      joined-HasText _ (hx.1 3, (text_of _, (hy.1 2, tt)))
  inner-HasText c rec a t p (unary op x) typed ty (hx, u) =
      if-HasText (is_postfix op) _ _ (two (hx.1 15) (text_of _)) (two (text_of _) (hx.1 14))
  inner-HasText c rec a t p (ternary i x y) typed ty (hi, (hx, (hy, u))) =
      joined-HasText _ (hi.1 4, (text_of _, (hx.1 0, (text_of _, (hy.1 3, tt)))))
  inner-HasText c rec a t p (call f args) typed ty (hf, hs) =
      bind-HasText _ _ (all_some-total _ (args-HasText c rec args hs))
        (λ parts. joined-HasText _ (hf.1 15, (text_of _, (text_of _, (text_of _, tt)))))
  inner-HasText c rec a t p (index x i) typed ty (hx, (hi, u)) =
      joined-HasText _ (hx.1 15, (text_of _, (hi.1 0, (text_of _, tt))))
  inner-HasText c rec a t p (member_ref o off) typed ty (ho, u) =
      joined-HasText _ (ho.1 15, (text_of _, (field_name-HasText c typed o off false ho.0, tt)))
  inner-HasText c rec a t p (member_ptr o off) typed ty (ho, u) =
      joined-HasText _ (ho.1 15, (text_of _, (field_name-HasText c typed o off true ho.0, tt)))
  inner-HasText c rec a t p (cast x) typed ty (hx, u) =
      joined-HasText _ (text_of _, (ty, (text_of _, (hx.1 14, tt))))
  inner-HasText c rec a t p (deref x size) typed ty (hx, u) =
      joined-HasText _ (text_of _, (hx.1 14, tt))
  inner-HasText c rec a t p (sizeof x) typed ty (hx, u) =
      joined-HasText _ (text_of _, (hx.1 0, (text_of _, tt)))
  inner-HasText c rec a t p (num v) typed ty h = text_of _
  inner-HasText c rec a t p (fnum v) typed ty h = text_of _
  inner-HasText c rec a t p (string s) typed ty h = text_of _
  inner-HasText c rec a t p (obj o n) typed ty h = text_of _
  inner-HasText c rec a t p (var v) typed ty h = text_of _
  inner-HasText c rec a t p (helper s) typed ty h = text_of _
  inner-HasText c rec a t p type_expression typed ty h = ty
  inner-HasText c rec a t p empty typed ty h = text_of _
  inner-HasText c rec a t p internal typed ty h = text_of _

  parenthesized-HasText :
      (p least : ℕ) (o : Option Str)
      → HasText o
      → HasText (parenthesized float_text quoted p least o)
  parenthesized-HasText p least none (s, e) = cc
  parenthesized-HasText p least (some t) h = text_of _

  expression_step :
      (c : Ctree) (fuel e least : ℕ) (n : ExpressionNode)
      → get c.nodes.expressions e ≡ some n
      → HasText (inner float_text quoted (expression_text float_text quoted fuel c) c n)
      → HasText (expression_text float_text quoted (suc fuel) c e least)
  unfolding expression_text
  expression_step c fuel e least n g h = rw g (parenthesized-HasText (prec n.kind) least _ h)

  Ready-below :
      (c : Ctree) (rec : ExpressionId → ℕ → Option Str) (e : ℕ)
      → e < length c.nodes.expressions
      → ((x : ℕ) → x < e → (least : ℕ) → HasText (rec x least))
      → (m : NodeRef) → BelowExpression c.nodes e m
      → Ready c rec m
  Ready-below c rec e v k (expression_ref x) b = (omega arith, k x b)
  Ready-below c rec e v k (statement_ref s) b = absurd b

  expression_text-HasText :
      (c : Ctree)
      → IsChildrenFirst c.nodes
      → IsTyped c
      → (fuel e : ℕ) → e < fuel
      → e < length c.nodes.expressions
      → (least : ℕ) → HasText (expression_text float_text quoted fuel c e least)
  expression_text-HasText c first typed zero e h v least = absurd (omega arith)
  expression_text-HasText c first typed (suc fuel) e h v least =
      let (n, g) = get_valid c.nodes.expressions e v in
      let smaller = λ (x : ℕ) (b : x < e).
        expression_text-HasText c first typed fuel x (omega arith) (omega arith) in
      expression_step c fuel e least n g (
        inner-HasText c (expression_text float_text quoted fuel c) n.address n.ty n.parent n.kind
          typed (print_type-HasText c typed n.ty (typed.expressions e n g))
          (All-mono (expression_children n.kind)
            (Ready-below c (expression_text float_text quoted fuel c) e v smaller)
            (first.of_expression e n g)))

  -- What the recursion has of a statement's child.
  abbrev Told : (StatementId → ℕ → Option Str) → (ExpressionId → Option Str) → NodeRef → Type 0
  Told below text (expression_ref e) = HasText (text e)
  Told below text (statement_ref s) = (indent : ℕ) → HasText (below s indent)

  block-HasText :
      (below : StatementId → ℕ → Option Str) (text : ExpressionId → Option Str) (indent : ℕ)
      (ss : List StatementId)
      → All (Told below text) (map statement_ref ss)
      → All HasText (each (λ s. below s indent) ss)
  block-HasText below text indent [] h = tt
  block-HasText below text indent (s ∷ ss) (h, hs) =
      (h indent, block-HasText below text indent ss hs)

  catches-HasText :
      (below : StatementId → ℕ → Option Str) (text : ExpressionId → Option Str) (indent : ℕ)
      (ss : List StatementId)
      → All (Told below text) (map statement_ref ss)
      → All HasText (
          each (λ s. joined (line float_text quoted indent (str "catch") ∷ below s indent ∷ [])) ss)
  catches-HasText below text indent [] h = tt
  catches-HasText below text indent (s ∷ ss) (h, hs) =
      (two (text_of _) (h indent), catches-HasText below text indent ss hs)

  case_lines-HasText : (indent : ℕ) (vs : List ℕ) → HasText (case_lines float_text quoted indent vs)
  case_lines-HasText indent [] = text_of _
  case_lines-HasText indent (v ∷ vs) =
      joined-HasText _ (text_of _, (text_of _, (text_of _, (case_lines-HasText indent vs, tt))))

  case_head-HasText : (indent : ℕ) (vs : List ℕ) → HasText (case_head float_text quoted indent vs)
  case_head-HasText indent [] = text_of _
  case_head-HasText indent (v ∷ vs) = case_lines-HasText indent (v ∷ vs)

  cases-HasText :
      (below : StatementId → ℕ → Option Str) (text : ExpressionId → Option Str) (indent : ℕ)
      (cs : List Case)
      → All (Told below text) (map case_body cs)
      → All HasText (
          each
            (λ (k : Case).
              joined (case_head float_text quoted indent k.values ∷ below k.body indent ∷ []))
            cs)
  unfolding case_body
  cases-HasText below text indent [] h = tt
  cases-HasText below text indent (k ∷ cs) (h, hs) =
      (two (case_head-HasText indent k.values) (h indent), cases-HasText below text indent cs hs)

  for_parts :
      (below : StatementId → ℕ → Option Str) (text : ExpressionId → Option Str)
      (i c s : Option ExpressionId) (b : StatementId)
      → All (Told below text) (
          maybe_expression i
          ++ (maybe_expression c ++ (maybe_expression s ++ (statement_ref b ∷ []))))
      → HasText (optional float_text quoted text i)
        × (HasText (optional float_text quoted text c)
            × (HasText (optional float_text quoted text s)
                × ((indent : ℕ) → HasText (below b indent))))
  for_parts below text none none none b (hb, u) = (text_of _, (text_of _, (text_of _, hb)))
  for_parts below text none none (some s) b (h, (hb, u)) = (text_of _, (text_of _, (h, hb)))
  for_parts below text none (some c) none b (h, (hb, u)) = (text_of _, (h, (text_of _, hb)))
  for_parts below text none (some c) (some s) b (h, (k, (hb, u))) = (text_of _, (h, (k, hb)))
  for_parts below text (some i) none none b (h, (hb, u)) = (h, (text_of _, (text_of _, hb)))
  for_parts below text (some i) none (some s) b (h, (k, (hb, u))) = (h, (text_of _, (k, hb)))
  for_parts below text (some i) (some c) none b (h, (k, (hb, u))) = (h, (k, (text_of _, hb)))
  for_parts below text (some i) (some c) (some s) b (h, (k, (l, (hb, u)))) = (h, (k, (l, hb)))

  statement_kind-HasText :
      (below : StatementId → ℕ → Option Str) (text : ExpressionId → Option Str) (indent : ℕ)
      (k : StatementKind)
      → All (Told below text) (statement_children k)
      → HasText (statement_kind_text float_text quoted below text indent k)
  unfolding statement_kind_text statement_children case_body
  statement_kind-HasText below text indent (block ss) h =
      three (text_of _) (joined-HasText _ (block-HasText below text (suc indent) ss h)) (text_of _)
  statement_kind-HasText below text indent (expression e) (h, u) = three (text_of _) h (text_of _)
  statement_kind-HasText below text indent (if_statement i t none) (hi, (ht, u)) =
      joined-HasText _ (text_of _, (hi, (text_of _, (ht indent, (text_of _, tt)))))
  statement_kind-HasText below text indent (if_statement i t (some e)) (hi, (ht, (he, u))) =
      joined-HasText _
        (text_of _, (hi, (text_of _, (ht indent, (two (text_of _) (he indent), tt)))))
  statement_kind-HasText below text indent (while_statement c b) (hc, (hb, u)) =
      joined-HasText _ (text_of _, (hc, (text_of _, (hb indent, tt))))
  statement_kind-HasText below text indent (do_statement b c) (hb, (hc, u)) =
      joined-HasText _ (text_of _, (hb indent, (text_of _, (hc, (text_of _, tt)))))
  statement_kind-HasText below text indent break h = text_of _
  statement_kind-HasText below text indent continue h = text_of _
  statement_kind-HasText below text indent (return none) h =
      three (text_of _) (text_of _) (text_of _)
  statement_kind-HasText below text indent (return (some e)) (h, u) =
      three (text_of _) (two (text_of _) h) (text_of _)
  statement_kind-HasText below text indent (throw none) h =
      three (text_of _) (text_of _) (text_of _)
  statement_kind-HasText below text indent (throw (some e)) (h, u) =
      three (text_of _) (two (text_of _) h) (text_of _)
  statement_kind-HasText below text indent (goto label) h = text_of _
  statement_kind-HasText below text indent (asm eas) h = text_of _
  statement_kind-HasText below text indent (try b cs) (hb, hs) =
      three (text_of _) (hb indent) (joined-HasText _ (catches-HasText below text indent cs hs))
  statement_kind-HasText below text indent (switch e cs) (he, hs) = joined-HasText _ (
    text_of _,
    (
      he,
      (
        text_of _,
        (text_of _, (joined-HasText _ (cases-HasText below text indent cs hs), (text_of _, tt))),
      ),
    ),
  )
  statement_kind-HasText below text indent (for_statement i c s b) h =
      let (hi, (hc, (hs, hb))) = for_parts below text i c s b h in
      joined-HasText _
        (text_of _, (hi, (text_of _, (hc, (text_of _, (hs, (text_of _, (hb indent, tt))))))))
  statement_kind-HasText below text indent empty_statement h = text_of _

  statement_step :
      (c : Ctree) (fuel s indent : ℕ) (n : StatementNode)
      → get c.nodes.statements s ≡ some n
      → HasText (
          statement_kind_text float_text quoted
            (statement_text float_text quoted fuel c)
            (λ e. expression_text float_text quoted fuel c e 0)
            indent
            n.kind)
      → HasText (statement_text float_text quoted (suc fuel) c s indent)
  unfolding statement_text
  statement_step c fuel s indent n g (t, h) = (t, rw (g, h))

  Told-below :
      (c : Ctree) (below : StatementId → ℕ → Option Str) (text : ExpressionId → Option Str) (s : ℕ)
      → ((e : ℕ) → e < length c.nodes.expressions → HasText (text e))
      → ((x : ℕ) → x < s → (indent : ℕ) → HasText (below x indent))
      → (m : NodeRef) → BelowStatement c.nodes s m
      → Told below text m
  Told-below c below text s k l (expression_ref e) b = k e b
  Told-below c below text s k l (statement_ref x) b = l x b

  statement_text-HasText :
      (c : Ctree)
      → IsChildrenFirst c.nodes
      → IsTyped c
      → (fuel s : ℕ) → length c.nodes.expressions + s < fuel
      → s < length c.nodes.statements
      → (indent : ℕ) → HasText (statement_text float_text quoted fuel c s indent)
  statement_text-HasText c first typed zero s h v indent = absurd (omega arith)
  statement_text-HasText c first typed (suc fuel) s h v indent =
      let (n, g) = get_valid c.nodes.statements s v in
      let expressions = λ (e : ℕ) (b : e < length c.nodes.expressions).
        expression_text-HasText c first typed fuel e (omega arith) b 0 in
      let smaller = λ (x : ℕ) (b : x < s).
        statement_text-HasText c first typed fuel x (omega arith) (omega arith) in
      statement_step c fuel s indent n g (
        statement_kind-HasText _ _ indent n.kind (
          All-mono (statement_children n.kind) (Told-below c _ _ s expressions smaller)
            (first.of_statement s n g)))

-- For any writing of doubles and quoting of texts, a tree is rendered when its nodes were allocated
-- children first, its root is one of them, its type references are handles of its table, and no type
-- is under itself through pointers, arrays and functions, as a rank of the types shows: the recursion
-- over the nodes and that over their types end, within the fuel that `to_pseudocode` gives, and no
-- handle is out of range.
pub to_pseudocode-HasText :
    (float_text : ℕ → Str) (quoted : Str → Str) (c : Ctree)
    → IsChildrenFirst c.nodes
    → c.root < length c.nodes.statements
    → IsTyped c
    → HasText (to_pseudocode float_text quoted c)
unfolding to_pseudocode
to_pseudocode-HasText float_text quoted c first v typed =
    statement_text-HasText float_text quoted c first typed
      (suc (length c.nodes.expressions + length c.nodes.statements)) c.root (omega arith) v 0
