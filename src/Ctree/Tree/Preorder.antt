-- ===== src/Ctree/Tree/Preorder.antt =====
-- crates/idakit/src/decompiler/ctree/tree.rs: the order in which `Descendants` yields the nodes.
use idakit.Base.{
  append_assoc, append-nil, ℕ, zero, suc, ◌+◌, ◌<◌, Option, none, some, List, [], ◌∷◌, ◌++◌, length,
  length-append, ◌>>=◌, ◌≡◌, refl, sym, ◌∙◌, ap, arith, All,
}
use idakit.Arena.{get}
use idakit.Ctree.{
  NodeRef, expression_ref, statement_ref, ExpressionNode, StatementNode, expression_children,
  statement_children,
}
use idakit.Ctree.Tree.{Nodes, children, collect, descendants}

-- Each node of a list, then the nodes below it, before the next one.
pub data Preorder (d : Nodes) : List NodeRef → List NodeRef → Type 0 where
  leaves : Preorder d [] []
  visit :
      {n : NodeRef} {kids rest ns ms : List NodeRef}
      → children d n ≡ some kids
      → Preorder d kids ns
      → Preorder d rest ms
      → Preorder d (n ∷ rest) (n ∷ (ns ++ ms))

abbrev prefix : List NodeRef → Option (List NodeRef) → Option (List NodeRef)
prefix ns none = none
prefix ns (some ms) = some (ns ++ ms)

collect-visit :
    (k : ℕ) (d : Nodes) (n : NodeRef) (kids stack : List NodeRef)
    → children d n ≡ some kids
    → collect (suc k) d (n ∷ stack) ≡ prefix (n ∷ []) (collect k d (kids ++ stack))
unfolding collect
collect-visit k d n kids stack h = rw h (go (collect k d (kids ++ stack)))
  where
    go : (o : Option (List NodeRef)) → (o >>= (λ ns. some (n ∷ ns))) ≡ prefix (n ∷ []) o
    go none = refl
    go (some ns) = refl

prefix-prefix :
    (ns ms : List NodeRef) (o : Option (List NodeRef))
    → prefix ns (prefix ms o) ≡ prefix (ns ++ ms) o
prefix-prefix ns ms none = refl
prefix-prefix ns ms (some ls) = ap some (sym (append_assoc ns ms ls))

prefix_nil : (o : Option (List NodeRef)) → prefix [] o ≡ o
prefix_nil none = refl
prefix_nil (some ns) = refl

collect-Preorder :
    (d : Nodes) (k : ℕ) {l ns : List NodeRef} (stack : List NodeRef)
    → Preorder d l ns
    → collect (length ns + k) d (l ++ stack) ≡ prefix ns (collect k d stack)
collect-Preorder d k stack leaves =
    let e : 0 + k ≡ k = omega arith in
    ap (λ m. collect m d stack) e ∙ sym (prefix_nil (collect k d stack))
collect-Preorder d k stack (visit {n = n} {kids = kids} {rest = rest} {ns = ns} {ms = ms} h p q) =
    let e : suc (length (ns ++ ms)) + k ≡ suc (length ns + (length ms + k)) =
      omega (arith, length-append ns ms) in
    ap (λ m. collect m d (n ∷ (rest ++ stack))) e
    ∙ collect-visit (length ns + (length ms + k)) d n kids (rest ++ stack) h
    ∙ ap (prefix (n ∷ [])) (
        collect-Preorder d (length ms + k) (rest ++ stack) p
        ∙ ap (prefix ns) (collect-Preorder d k stack q)
        ∙ prefix-prefix ns ms (collect k d stack))
    ∙ prefix-prefix (n ∷ []) (ns ++ ms) (collect k d stack)

collect_end : (k : ℕ) (d : Nodes) → collect k d [] ≡ some []
unfolding collect
collect_end zero d = refl
collect_end (suc k) d = refl

-- A child of an expression is an expression allocated before it; a child of a statement is any
-- expression, or a statement allocated before it.
abbrev pub BelowExpression : Nodes → ℕ → NodeRef → Type 0
BelowExpression d i (expression_ref e) = (e < i)
BelowExpression d i (statement_ref s) = ⊥

abbrev pub BelowStatement : Nodes → ℕ → NodeRef → Type 0
BelowStatement d i (expression_ref e) = (e < length d.expressions)
BelowStatement d i (statement_ref s) = (s < i)

pub record IsChildrenFirst (d : Nodes) : Type 0 where
  pub of_expression :
      (i : ℕ) (n : ExpressionNode)
      → get d.expressions i ≡ some n
      → All (BelowExpression d i) (expression_children n.kind)
  pub of_statement :
      (i : ℕ) (n : StatementNode)
      → get d.statements i ≡ some n
      → All (BelowStatement d i) (statement_children n.kind)

abbrev pub IsValid : Nodes → NodeRef → Type 0
IsValid d (expression_ref e) = (e < length d.expressions)
IsValid d (statement_ref s) = (s < length d.statements)

pub get_valid {ℓ} :
    {A : Type ℓ} (xs : List A) (i : ℕ) → i < length xs → (x : A) × (get xs i ≡ some x)
unfolding get
get_valid [] i h = elim h [ ]
get_valid (x ∷ xs) zero h = (x, refl)
get_valid (x ∷ xs) (suc i) h = get_valid xs i (omega arith)

abbrev Ordered : Nodes → NodeRef → Type 0
Ordered d n = (ns : List NodeRef) × Preorder d (n ∷ []) ns

joined : {d : Nodes} (l : List NodeRef) → All (Ordered d) l → (ns : List NodeRef) × Preorder d l ns
joined [] h = ([], leaves)
joined (n ∷ l) ((ns, visit h p q), hs) = let (ms, r) = joined l hs in (_, visit h p r)

pub All-mono :
    {A : Type 0} {P Q : A → Type 0} (l : List A) → ((a : A) → P a → Q a) → All P l → All Q l
All-mono [] f h = tt
All-mono (a ∷ l) f h = (f a h.0, All-mono l f h.1)

children_expression :
    (d : Nodes) (i : ℕ) (n : ExpressionNode)
    → get d.expressions i ≡ some n
    → children d (expression_ref i) ≡ some (expression_children n.kind)
unfolding children
children_expression d i n h = rw h

children_statement :
    (d : Nodes) (i : ℕ) (n : StatementNode)
    → get d.statements i ≡ some n
    → children d (statement_ref i) ≡ some (statement_children n.kind)
unfolding children
children_statement d i n h = rw h

below_expression :
    (d : Nodes) (i : ℕ)
    → ((e : ℕ) → e < i → Ordered d (expression_ref e))
    → (m : NodeRef) → BelowExpression d i m
    → Ordered d m
below_expression d i k (expression_ref e) b = k e b
below_expression d i k (statement_ref s) b = absurd b

below_statement :
    (d : Nodes) (i : ℕ)
    → ((e : ℕ) → e < length d.expressions → Ordered d (expression_ref e))
    → ((s : ℕ) → s < i → Ordered d (statement_ref s))
    → (m : NodeRef) → BelowStatement d i m
    → Ordered d m
below_statement d i k l (expression_ref e) b = k e b
below_statement d i k l (statement_ref s) b = l s b

-- The nodes below the bound `f`.
Ordered-expression :
    (d : Nodes)
    → IsChildrenFirst d
    → (f i : ℕ) → i < f
    → i < length d.expressions
    → Ordered d (expression_ref i)
Ordered-expression d c zero i h v = absurd (omega arith)
Ordered-expression d c (suc f) i h v =
    let (n, g) = get_valid d.expressions i v in
    let smaller = λ (e : ℕ) (b : e < i). Ordered-expression d c f e (omega arith) (omega arith) in
    let (ns, p) =
      joined (expression_children n.kind)
        (All-mono _ (below_expression d i smaller) (c.of_expression i n g)) in
    (_, visit (children_expression d i n g) p leaves)

Ordered-statement :
    (d : Nodes)
    → IsChildrenFirst d
    → (f i : ℕ) → i < f
    → i < length d.statements
    → Ordered d (statement_ref i)
Ordered-statement d c zero i h v = absurd (omega arith)
Ordered-statement d c (suc f) i h v =
    let (n, g) = get_valid d.statements i v in
    let expressions =
      λ (e : ℕ) (b : e < length d.expressions). Ordered-expression d c (suc e) e (omega arith) b in
    let smaller = λ (s : ℕ) (b : s < i). Ordered-statement d c f s (omega arith) (omega arith) in
    let (ns, p) =
      joined (statement_children n.kind)
        (All-mono _ (below_statement d i expressions smaller) (c.of_statement i n g)) in
    (_, visit (children_statement d i n g) p leaves)

pub ordered : (d : Nodes) → IsChildrenFirst d → (n : NodeRef) → IsValid d n → Ordered d n
ordered d c (expression_ref e) v = Ordered-expression d c (suc e) e (omega arith) v
ordered d c (statement_ref s) v = Ordered-statement d c (suc s) s (omega arith) v

-- In arenas whose nodes were allocated children first, the iterator over the descendants of a valid
-- node ends, and it yields the node and then, child by child and in their order, what it yields of
-- each child: the preorder of the tree, however often `next` is called.
pub collect-descendants :
    (d : Nodes) (n : NodeRef)
    → IsChildrenFirst d
    → IsValid d n
    → (ns : List NodeRef) × Preorder d (n ∷ []) ns
      × ((k : ℕ) → collect (length ns + k) d (descendants n) ≡ some ns)
collect-descendants d n c v =
    let (ns, p) = ordered d c n v in
    (
      ns,
      p,
      λ k. collect-Preorder d k [] p ∙ ap (prefix ns) (collect_end k d) ∙ ap some (append-nil ns),
    )
