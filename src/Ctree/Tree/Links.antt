-- ===== src/Ctree/Tree/Links.antt =====
-- crates/idakit/src/decompiler/ctree/tree.rs: what writing the parents of a node's children does.
use idakit.Base.{
  ℕ, Bool, true, false, none, some, List, [], ◌∷◌, length, get_elem?, set, get_elem?-set_self,
  get_elem?-set_ne, ltb, if◌then◌else◌, >>=-some, ◌≡◌, ◌≢◌, refl, ◌∙◌, subst, arith, ◌⊎◌, inl, inr,
  ℕ_discrete,
}
use idakit.Arena.{get, put}
use idakit.Arena.Laws.{get_elem?-lt}
use idakit.Ctree.{NodeRef, expression_ref, statement_ref, ExpressionNode, StatementNode}
use idakit.Ctree.Tree.{Nodes, children, parent, set_parent, link_all}

pub data Mem {ℓ} {A : Type ℓ} (x : A) : List A → Type ℓ where
  here : {xs : List A} → Mem x (x ∷ xs)
  there : {y : A} {xs : List A} → Mem x xs → Mem x (y ∷ xs)

-- What is known of the nodes after `p` became the parent of `kids`.
pub record IsLinked (p : NodeRef) (kids : List NodeRef) (d d' : Nodes) : Type 0 where
  pub shape : (m : NodeRef) → children d' m ≡ children d m
  pub linked : (m : NodeRef) → Mem m kids → parent d' m ≡ some (some p)
  pub others :
      (m : NodeRef) → ((parent d' m ≡ some (some p)) × Mem m kids) ⊎ (parent d' m ≡ parent d m)

-- An entry that is put reads back, and the other entries read what they read.
put_reads {ℓ} :
    {A : Type ℓ} (xs ys : List A) (i : ℕ) (x : A)
    → put xs i x ≡ some ys
    → (get ys i ≡ some x) × ((j : ℕ) → i ≢ j → get ys j ≡ get xs j)
unfolding put get
put_reads xs ys i x h = go (ltb i (length xs)) refl h
  where
    go :
        (b : Bool)
        → ltb i (length xs) ≡ b
        → (if b then some (set xs i x) else none) ≡ some ys
        → (get_elem? ys i ≡ some x) × ((j : ℕ) → i ≢ j → get_elem? ys j ≡ get_elem? xs j)
    go true e q =
        subst
          (λ zs. (get_elem? zs i ≡ some x) × ((j : ℕ) → i ≢ j → get_elem? zs j ≡ get_elem? xs j))
          (cc q) (get_elem?-set_self xs i x (ground arith), λ j n. get_elem?-set_ne xs x n)
    go false e q = cc

put_valid {ℓ} :
    {A : Type ℓ} (xs : List A) (i : ℕ) (x y : A)
    → get xs i ≡ some y
    → (ys : List A) × (put xs i x ≡ some ys)
unfolding put get
put_valid xs i x y h = (set xs i x, ground (arith, get_elem?-lt xs i h))

some_same : {A : Type 0} {a b : A} → some a ≡ some b → a ≡ b
some_same e = cc

-- One expression gets its parent.
expression-IsLinked :
    (p : NodeRef) (e : ℕ) (n : ExpressionNode) (es : List ExpressionNode) (d : Nodes)
    → get d.expressions e ≡ some n
    → put d.expressions e (record n { parent = some p }) ≡ some es
    → IsLinked p (expression_ref e ∷ []) d (record { expressions = es; statements = d.statements })
unfolding children parent
expression-IsLinked p e n es d g h =
    let (r, k) = put_reads d.expressions es e _ h in
    record { shape = shape r k; linked = linked r; others = others r k }
  where
    after : Nodes
    after = record { expressions = es; statements = d.statements }

    shape :
        get es e ≡ some (record n { parent = some p })
        → ((j : ℕ) → e ≢ j → get es j ≡ get d.expressions j)
        → (m : NodeRef) → children after m ≡ children d m
    shape r k (statement_ref s) = refl
    shape r k (expression_ref j) = elim (ℕ_discrete e j) [
      | yes q ↦
          subst (λ x. children after (expression_ref x) ≡ children d (expression_ref x)) q
            (rw (r, g))
      | no q ↦ rw (k j q)
    ]

    linked :
        get es e ≡ some (record n { parent = some p })
        → (m : NodeRef) → Mem m (expression_ref e ∷ [])
        → parent after m ≡ some (some p)
    linked r m here = rw r
    linked r m (there x) = elim x [ ]

    others :
        get es e ≡ some (record n { parent = some p })
        → ((j : ℕ) → e ≢ j → get es j ≡ get d.expressions j)
        → (m : NodeRef)
        → ((parent after m ≡ some (some p)) × Mem m (expression_ref e ∷ []))
          ⊎ (parent after m ≡ parent d m)
    others r k (statement_ref s) = inr refl
    others r k (expression_ref j) = elim (ℕ_discrete e j) [
      | yes q ↦ inl (
          subst
            (λ x.
              (parent after (expression_ref x) ≡ some (some p))
              × Mem (expression_ref x) (expression_ref e ∷ []))
            q (rw r, here))
      | no q ↦ inr (rw (k j q))
    ]

-- One statement gets its parent.
statement-IsLinked :
    (p : NodeRef) (e : ℕ) (n : StatementNode) (ss : List StatementNode) (d : Nodes)
    → get d.statements e ≡ some n
    → put d.statements e (record n { parent = some p }) ≡ some ss
    → IsLinked p (statement_ref e ∷ []) d (record { expressions = d.expressions; statements = ss })
unfolding children parent
statement-IsLinked p e n ss d g h =
    let (r, k) = put_reads d.statements ss e _ h in
    record { shape = shape r k; linked = linked r; others = others r k }
  where
    after : Nodes
    after = record { expressions = d.expressions; statements = ss }

    shape :
        get ss e ≡ some (record n { parent = some p })
        → ((j : ℕ) → e ≢ j → get ss j ≡ get d.statements j)
        → (m : NodeRef) → children after m ≡ children d m
    shape r k (expression_ref s) = refl
    shape r k (statement_ref j) = elim (ℕ_discrete e j) [
      | yes q ↦
          subst (λ x. children after (statement_ref x) ≡ children d (statement_ref x)) q (rw (r, g))
      | no q ↦ rw (k j q)
    ]

    linked :
        get ss e ≡ some (record n { parent = some p })
        → (m : NodeRef) → Mem m (statement_ref e ∷ [])
        → parent after m ≡ some (some p)
    linked r m here = rw r
    linked r m (there x) = elim x [ ]

    others :
        get ss e ≡ some (record n { parent = some p })
        → ((j : ℕ) → e ≢ j → get ss j ≡ get d.statements j)
        → (m : NodeRef)
        → ((parent after m ≡ some (some p)) × Mem m (statement_ref e ∷ []))
          ⊎ (parent after m ≡ parent d m)
    others r k (expression_ref s) = inr refl
    others r k (statement_ref j) = elim (ℕ_discrete e j) [
      | yes q ↦ inl (
          subst
            (λ x.
              (parent after (statement_ref x) ≡ some (some p))
              × Mem (statement_ref x) (statement_ref e ∷ []))
            q (rw r, here))
      | no q ↦ inr (rw (k j q))
    ]

set_parent_expression :
    (p : NodeRef) (e : ℕ) (d : Nodes) (n : ExpressionNode) (es : List ExpressionNode)
    → get d.expressions e ≡ some n
    → put d.expressions e (record n { parent = some p }) ≡ some es
    → set_parent p (expression_ref e) d
      ≡ some (record { expressions = es; statements = d.statements })
unfolding set_parent
set_parent_expression p e d n es g k = rw (g, k)

set_parent_statement :
    (p : NodeRef) (s : ℕ) (d : Nodes) (n : StatementNode) (ss : List StatementNode)
    → get d.statements s ≡ some n
    → put d.statements s (record n { parent = some p }) ≡ some ss
    → set_parent p (statement_ref s) d
      ≡ some (record { expressions = d.expressions; statements = ss })
unfolding set_parent
set_parent_statement p s d n ss g k = rw (g, k)

-- `set_parent` returns on a valid handle, and links it.
set_parent-IsLinked :
    (p n : NodeRef) (d : Nodes) {kids : List NodeRef}
    → children d n ≡ some kids
    → (d' : Nodes) × (set_parent p n d ≡ some d') × IsLinked p (n ∷ []) d d'
unfolding children
set_parent-IsLinked p (expression_ref e) d h =
    let (n, g, q) = >>=-some (get d.expressions e) _ h in
    let (es, k) = put_valid d.expressions e (record n { parent = some p }) n g in
    (
      record { expressions = es; statements = d.statements },
      set_parent_expression p e d n es g k,
      expression-IsLinked p e n es d g k,
    )
set_parent-IsLinked p (statement_ref s) d h =
    let (n, g, q) = >>=-some (get d.statements s) _ h in
    let (ss, k) = put_valid d.statements s (record n { parent = some p }) n g in
    (
      record { expressions = d.expressions; statements = ss },
      set_parent_statement p s d n ss g k,
      statement-IsLinked p s n ss d g k,
    )

module _ {p n : NodeRef} {ns : List NodeRef} {d d' d'' : Nodes} where
  IsLinked-cons : IsLinked p (n ∷ []) d d' → IsLinked p ns d' d'' → IsLinked p (n ∷ ns) d d''
  IsLinked-cons a b = record {
    shape = λ m. b.shape m ∙ a.shape m;
    linked = linked;
    others = λ m. others m (b.others m) (a.others m);
  }
    where
      linked : (m : NodeRef) → Mem m (n ∷ ns) → parent d'' m ≡ some (some p)
      linked m (there x) = b.linked m x
      linked m here = elim (b.others n) [ inl q ↦ q.0 | inr q ↦ q ∙ a.linked n here ]

      others :
          (m : NodeRef)
          → ((parent d'' m ≡ some (some p)) × Mem m ns) ⊎ (parent d'' m ≡ parent d' m)
          → ((parent d' m ≡ some (some p)) × Mem m (n ∷ [])) ⊎ (parent d' m ≡ parent d m)
          → ((parent d'' m ≡ some (some p)) × Mem m (n ∷ ns)) ⊎ (parent d'' m ≡ parent d m)
      others m (inl (q, x)) y = inl (q, there x)
      others m (inr q) (inl (r, here)) = inl (q ∙ r, here)
      others m (inr q) (inl (r, there x)) = elim x [ ]
      others m (inr q) (inr r) = inr (q ∙ r)

-- The children are all valid.
pub data AllValid (d : Nodes) : List NodeRef → Type 0 where
  no_more : AllValid d []
  valid :
      {n : NodeRef} {ns kids : List NodeRef}
      → children d n ≡ some kids
      → AllValid d ns
      → AllValid d (n ∷ ns)

AllValid-shape :
    {d d' : Nodes} {ns : List NodeRef}
    → ((m : NodeRef) → children d' m ≡ children d m)
    → AllValid d ns
    → AllValid d' ns
AllValid-shape h no_more = no_more
AllValid-shape h (valid {n = n} e v) = valid (h n ∙ e) (AllValid-shape h v)

pub link_all-IsLinked :
    (p : NodeRef) (ns : List NodeRef) (d : Nodes)
    → AllValid d ns
    → (d' : Nodes) × (link_all p ns d ≡ some d') × IsLinked p ns d d'
unfolding link_all
link_all-IsLinked p [] d v =
    (d, refl, record { shape = λ m. refl; linked = λ m x. elim x [ ]; others = λ m. inr refl })
link_all-IsLinked p (n ∷ ns) d (valid e v) =
    let (d1, h1, l1) = set_parent-IsLinked p n d e in
    let (d2, h2, l2) = link_all-IsLinked p ns d1 (AllValid-shape l1.shape v) in
    (d2, rw (h1, h2), IsLinked-cons l1 l2)
