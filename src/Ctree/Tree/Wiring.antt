-- ===== src/Ctree/Tree/Wiring.antt =====
-- crates/idakit/src/decompiler/ctree/tree.rs: what `finish` leaves of the parents.
use idakit.Base.{
  ℕ, zero, suc, ◌+◌, ◌≤◌, Option, some, List, [], ◌∷◌, ◌++◌, length, length-append, ◌≡◌, ◌≢◌, refl,
  sym, ◌∙◌, subst, arith, ◌⊎◌, inl, inr,
}
use idakit.Ctree.{NodeRef, statement_ref, StatementId}
use idakit.Ctree.Tree.{Nodes, Ctree, CtreeBuilder, children, parent, push_all, wire, finish}
use idakit.Types.Builder.{into_table}
use idakit.Ctree.Tree.Preorder.{Preorder, leaves, visit}
use idakit.Ctree.Tree.Links.{
  Mem, here, there, IsLinked, AllValid, no_more, valid, link_all-IsLinked,
}

Preorder-shape :
    {d d' : Nodes} {l ns : List NodeRef}
    → ((m : NodeRef) → children d' m ≡ children d m)
    → Preorder d l ns
    → Preorder d' l ns
Preorder-shape h leaves = leaves
Preorder-shape h (visit {n = n} e p q) = visit (h n ∙ e) (Preorder-shape h p) (Preorder-shape h q)

Preorder-AllValid : {d : Nodes} {l ns : List NodeRef} → Preorder d l ns → AllValid d l
Preorder-AllValid leaves = no_more
Preorder-AllValid (visit e p q) = valid e (Preorder-AllValid q)

mem_left : {A : Type 0} {x : A} {xs : List A} (ys : List A) → Mem x xs → Mem x (xs ++ ys)
mem_left ys here = here
mem_left ys (there m) = there (mem_left ys m)

mem_right : {A : Type 0} {x : A} {ys : List A} (xs : List A) → Mem x ys → Mem x (xs ++ ys)
mem_right [] m = m
mem_right (x ∷ xs) m = there (mem_right xs m)

mem_split : {A : Type 0} {x : A} (xs ys : List A) → Mem x (xs ++ ys) → Mem x xs ⊎ Mem x ys
mem_split [] ys m = inr m
mem_split (x ∷ xs) ys here = inl here
mem_split (x ∷ xs) ys (there m) = elim (mem_split xs ys m) [ inl a ↦ inl (there a) | inr b ↦ inr b ]

-- Pushed on the stack, the children are visited in the other order: the same nodes, as often.
record Pushed (d : Nodes) (l ns ms : List NodeRef) : Type 0 where
  all : List NodeRef
  order : Preorder d l all
  count : length all ≡ length ns + length ms
  from_kids : (m : NodeRef) → Mem m ns → Mem m all
  from_rest : (m : NodeRef) → Mem m ms → Mem m all

pushed_kids :
    {n : NodeRef} (ns : List NodeRef) {ls : List NodeRef} (ms : List NodeRef) {all : List NodeRef}
    → ((m : NodeRef) → Mem m ls → Mem m all)
    → ((m : NodeRef) → Mem m (n ∷ (ns ++ ms)) → Mem m all)
    → (m : NodeRef) → Mem m (n ∷ (ns ++ ls))
    → Mem m all
pushed_kids ns ms f g m here = g m here
pushed_kids ns {ls = ls} ms f g m (there x) = elim (mem_split ns ls x) [
  | inl a ↦ g m (there (mem_left ms a))
  | inr b ↦ f m b
]

pushed :
    {d : Nodes} {kids rest ns ms : List NodeRef}
    → Preorder d kids ns
    → Preorder d rest ms
    → Pushed d (push_all kids rest) ns ms
pushed {ms = ms} leaves q = record {
  all = ms;
  order = q;
  count = omega arith;
  from_kids = λ m x. elim x [ ];
  from_rest = λ m x. x;
}
pushed {ms = ms} (visit {n = n} {ns = ns} {ms = ls} e p r) q =
    let b = pushed r (visit e p q) in
    record {
      all = b.all;
      order = b.order;
      count = omega (arith, b.count, length-append ns ms, length-append ns ls);
      from_kids = pushed_kids ns ms b.from_kids b.from_rest;
      from_rest = λ m x. b.from_rest m (there (mem_right ns x));
    }

mem_sorted :
    (kids rest : List NodeRef) (m k : NodeRef)
    → Mem m kids ⊎ Mem m (k ∷ rest)
    → Mem m (k ∷ kids) ⊎ Mem m rest
mem_sorted kids rest m k (inl a) = inl (there a)
mem_sorted kids rest m k (inr here) = inl here
mem_sorted kids rest m k (inr (there b)) = inr b

push_split :
    (kids rest : List NodeRef) (m : NodeRef) → Mem m (push_all kids rest) → Mem m kids ⊎ Mem m rest
push_split [] rest m x = inr x
push_split (k ∷ kids) rest m x = mem_sorted kids rest m k (push_split kids (k ∷ rest) m x)

abbrev IsChild : Nodes → NodeRef → NodeRef → Type 0
IsChild d m p = (kids : List NodeRef) × (children d p ≡ some kids) × Mem m kids

-- What the loop leaves when it starts with a stack below which the nodes `ns` are.
record IsWired (d : Nodes) (stack ns : List NodeRef) (d' : Nodes) : Type 0 where
  shape : (m : NodeRef) → children d' m ≡ children d m
  sound :
      (m p : NodeRef) → parent d' m ≡ some (some p) → (parent d m ≡ some (some p)) ⊎ IsChild d m p
  reached : (m : NodeRef) → Mem m ns → Mem m stack ⊎ ((p : NodeRef) × (parent d' m ≡ some (some p)))
  kept :
      (m p : NodeRef) → parent d m ≡ some (some p) → (q : NodeRef) × (parent d' m ≡ some (some q))

some_injective :
    {A : Type 0} {a b : A} → ◌≡◌ {A = Option (Option A)} (some (some a)) (some (some b)) → a ≡ b
some_injective e = cc

-- One round: the node `n` off the stack, its children linked, and the rest of the loop.
IsWired-round :
    {d d1 d2 : Nodes} {n : NodeRef} {kids rest ns ms all : List NodeRef}
    → children d n ≡ some kids
    → IsLinked n kids d d1
    → ((m : NodeRef) → Mem m ns → Mem m all)
    → ((m : NodeRef) → Mem m ms → Mem m all)
    → IsWired d1 (push_all kids rest) all d2
    → IsWired d (n ∷ rest) (n ∷ (ns ++ ms)) d2
IsWired-round {d = d} {d1 = d1} {d2 = d2} {n = n} {kids = kids} {rest = rest} {ns = ns} {ms = ms} e
      l f g w =
    record {
      shape = λ m. w.shape m ∙ l.shape m;
      sound = λ m p h. sound m p (w.sound m p h) (l.others m);
      reached = reached;
      kept = λ m p h. kept m p h (l.others m);
    }
  where
    sound :
        (m p : NodeRef)
        → (parent d1 m ≡ some (some p)) ⊎ IsChild d1 m p
        → ((parent d1 m ≡ some (some n)) × Mem m kids) ⊎ (parent d1 m ≡ parent d m)
        → (parent d m ≡ some (some p)) ⊎ IsChild d m p
    sound m p (inr (ks, c, x)) o = inr (ks, sym (l.shape p) ∙ c, x)
    sound m p (inl h) (inl (q, x)) =
        inr (subst (IsChild d m) (some_injective (sym q ∙ h)) (kids, e, x))
    sound m p (inl h) (inr q) = inl (sym q ∙ h)

    known :
        (m : NodeRef)
        → Mem m (push_all kids rest) ⊎ ((p : NodeRef) × (parent d2 m ≡ some (some p)))
        → Mem m (n ∷ rest) ⊎ ((p : NodeRef) × (parent d2 m ≡ some (some p)))
    known m (inr q) = inr q
    known m (inl x) = elim (push_split kids rest m x) [
      | inl a ↦ inr (w.kept m n (l.linked m a))
      | inr b ↦ inl (there b)
    ]

    reached :
        (m : NodeRef)
        → Mem m (n ∷ (ns ++ ms))
        → Mem m (n ∷ rest) ⊎ ((p : NodeRef) × (parent d2 m ≡ some (some p)))
    reached m here = inl here
    reached m (there x) = elim (mem_split ns ms x) [
      | inl a ↦ known m (w.reached m (f m a))
      | inr b ↦ known m (w.reached m (g m b))
    ]

    kept :
        (m p : NodeRef)
        → parent d m ≡ some (some p)
        → ((parent d1 m ≡ some (some n)) × Mem m kids) ⊎ (parent d1 m ≡ parent d m)
        → (q : NodeRef) × (parent d2 m ≡ some (some q))
    kept m p h (inl (q, x)) = w.kept m n q
    kept m p h (inr q) = w.kept m p (q ∙ h)

wire-IsWired :
    (left : ℕ) (d : Nodes) {stack ns : List NodeRef}
    → Preorder d stack ns
    → length ns ≤ left
    → (d' : Nodes) × (wire left stack d ≡ some d') × IsWired d stack ns d'
unfolding wire
wire-IsWired zero d leaves h = (
  d,
  refl,
  record {
    shape = λ m. refl;
    sound = λ m p q. inl q;
    reached = λ m x. elim x [ ];
    kept = λ m p q. (p, q);
  },
)
wire-IsWired (suc left) d leaves h = (
  d,
  refl,
  record {
    shape = λ m. refl;
    sound = λ m p q. inl q;
    reached = λ m x. elim x [ ];
    kept = λ m p q. (p, q);
  },
)
wire-IsWired zero d (visit e p q) h = absurd (omega arith)
wire-IsWired (suc left) d (visit {n = n} {kids = kids} {ns = ns} {ms = ms} e p q) h =
    let (d1, h1, l1) = link_all-IsLinked n kids d (Preorder-AllValid p) in
    let b = pushed (Preorder-shape l1.shape p) (Preorder-shape l1.shape q) in
    let (d2, h2, w) = wire-IsWired left d1 b.order (omega (arith, b.count, length-append ns ms)) in
    (d2, rw (e, h1, h2), IsWired-round e l1 b.from_kids b.from_rest w)

-- When no node has a parent yet and the preorder of the root has no more entries than there are nodes,
-- `finish` returns; every node then has the children it had, every node below the root has a parent,
-- and wherever a node has a parent it is one of that parent's children.
pub finish-IsWired :
    (b : CtreeBuilder) (root : StatementId) (ns : List NodeRef)
    → Preorder b.nodes (statement_ref root ∷ []) ns
    → length ns ≤ length b.nodes.expressions + length b.nodes.statements
    → ((m p : NodeRef) → parent b.nodes m ≢ some (some p))
    → (t : Ctree) × (finish root b ≡ some t)
      × ((m : NodeRef) → children t.nodes m ≡ children b.nodes m)
      × ((m : NodeRef)
          → Mem m ns
          → (m ≡ statement_ref root) ⊎ ((p : NodeRef) × (parent t.nodes m ≡ some (some p))))
      × ((m p : NodeRef)
          → parent t.nodes m ≡ some (some p)
          → (kids : List NodeRef) × (children t.nodes p ≡ some kids) × Mem m kids)
unfolding finish
finish-IsWired b root ns o h free =
    let (d, e, w) =
      wire-IsWired (length b.nodes.expressions + length b.nodes.statements) b.nodes o h in
    (
      record { nodes = d; types = into_table b.types; locals = b.locals; root = root },
      rw e,
      w.shape,
      λ m x. only_root d m (w.reached m x),
      λ m p q. child w m p (w.sound m p q),
    )
  where
    only_root :
        (d : Nodes) (m : NodeRef)
        → Mem m (statement_ref root ∷ []) ⊎ ((p : NodeRef) × (parent d m ≡ some (some p)))
        → (m ≡ statement_ref root) ⊎ ((p : NodeRef) × (parent d m ≡ some (some p)))
    only_root d m (inl here) = inl refl
    only_root d m (inl (there x)) = elim x [ ]
    only_root d m (inr q) = inr q

    child :
        {d : Nodes}
        → IsWired b.nodes (statement_ref root ∷ []) ns d
        → (m p : NodeRef) → (parent b.nodes m ≡ some (some p)) ⊎ IsChild b.nodes m p
        → IsChild d m p
    child w m p (inl q) = absurd (free m p q)
    child w m p (inr (ks, c, x)) = (ks, w.shape p ∙ c, x)
