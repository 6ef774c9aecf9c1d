-- ===== src/Ctree/Render/Types.antt =====
-- crates/idakit/src/decompiler/ctree/render.rs: the types and fields of a well-formed tree have texts.
use idakit.Base.{
  ℕ, zero, suc, ◌<◌, ◌==◌, Bool, true, false, Option, none, some, List, [], ◌∷◌, ◌++◌, length, ◌*◌,
  Str, if◌then◌else◌, ◌>>=◌, ◌≡◌, refl, arith, All,
}
use idakit.Arena.{get}
use idakit.Types.Table.{TypeId, TypeMember, TypeShape, TypeValue, TypeTable, get_type}
use idakit.Ctree.{ExpressionId, ExpressionNode}
use idakit.Ctree.Tree.{Ctree}
use idakit.Ctree.Tree.Preorder.{get_valid, All-mono}
use idakit.Ctree.Render.{
  joined, all_some, each, type_text, print_type, field_name, members_of, member_at, through,
  member_name,
}

abbrev pub HasText : Option Str → Type 0
HasText o = (s : Str) × (o ≡ some s)

pub text_of : (s : Str) → HasText (some s)
text_of s = (s, refl)

pub joined-HasText : (ps : List (Option Str)) → All HasText ps → HasText (joined ps)
unfolding joined
joined-HasText [] h = ([], refl)
joined-HasText (p ∷ ps) ((s, e), hs) = let (t, f) = joined-HasText ps hs in (s ++ t, rw (e, f))

pub two : {p q : Option Str} → HasText p → HasText q → HasText (joined (p ∷ q ∷ []))
two {p = p} {q = q} h k = joined-HasText (p ∷ q ∷ []) (h, (k, tt))

pub three :
    {p q r : Option Str} → HasText p → HasText q → HasText r → HasText (joined (p ∷ q ∷ r ∷ []))
three {p = p} {q = q} {r = r} h k l = joined-HasText (p ∷ q ∷ r ∷ []) (h, (k, (l, tt)))

pub all_some-total :
    (ps : List (Option Str)) → All HasText ps → (ss : List Str) × (all_some ps ≡ some ss)
unfolding all_some
all_some-total [] h = ([], refl)
all_some-total (p ∷ ps) ((s, e), hs) = let (ss, f) = all_some-total ps hs in (s ∷ ss, rw (e, f))

pub if-HasText :
    (b : Bool) (p q : Option Str) → HasText p → HasText q → HasText (if b then p else q)
if-HasText true p q h k = h
if-HasText false p q h k = k

pub bind-HasText :
    (o : Option (List Str)) (f : List Str → Option Str)
    → ((ss : List Str) × (o ≡ some ss))
    → ((ss : List Str) → HasText (f ss))
    → HasText (o >>= f)
bind-HasText none f (ss, e) k = cc
bind-HasText (some s) f (ss, e) k = k s

value-HasText :
    {A : Type 0} (o : Option A) (f : A → Str)
    → ((a : A) × (o ≡ some a))
    → HasText (o >>= (λ a. some (f a)))
value-HasText o f (a, e) = (f a, rw e)

-- The types that a shape refers to: `low` is for those whose text is a part of its own, `any` for the
-- types of its members, which its own text does not have.
abbrev pub Refers : (TypeId → Type 0) → (TypeId → Type 0) → TypeShape → Type 0
Refers low any (TypeShape.ptr e) = low e
Refers low any (TypeShape.array e len) = low e
Refers low any (TypeShape.function r ps varargs) = low r × All low ps
Refers low any (TypeShape.struct n ms) = All (λ m. any m.ty) ms
Refers low any (TypeShape.union n ms) = All (λ m. any m.ty) ms
Refers low any _ = Unit {0}

-- The handle is one of the table.
abbrev pub IsHandle : TypeTable → TypeId → Type 0
IsHandle t i = i < length t.arena

-- The handles of a tree's types are those of its table, and a rank below the number of types falls
-- from a pointer to its target, from an array to its element, and from a function to its result and
-- parameters.
pub record IsTyped (c : Ctree) : Type 0 where
  pub rank : TypeId → ℕ
  pub bounded : (i : TypeId) → IsHandle c.types i → rank i < length c.types.arena
  pub falls :
      (i : TypeId) (v : TypeValue)
      → get_type c.types i ≡ some v
      → Refers (λ j. IsHandle c.types j × (rank j < rank i)) (IsHandle c.types) v.shape
  pub expressions :
      (e : ExpressionId) (n : ExpressionNode)
      → get c.nodes.expressions e ≡ some n
      → IsHandle c.types n.ty

each-HasText :
    {A : Type 0} (f : A → Option Str) (xs : List A)
    → All (λ x. HasText (f x)) xs
    → All HasText (each f xs)
each-HasText f [] h = tt
each-HasText f (x ∷ xs) (h, hs) = (h, each-HasText f xs hs)

type_text-HasText :
    (rec : TypeId → Option Str) (any : TypeId → Type 0) (s : TypeShape)
    → Refers (λ j. HasText (rec j)) any s
    → HasText (type_text rec s)
unfolding type_text
type_text-HasText rec any TypeShape.void h = text_of _
type_text-HasText rec any TypeShape.bool h = text_of _
type_text-HasText rec any (TypeShape.int bytes true) h = text_of _
type_text-HasText rec any (TypeShape.int bytes false) h = text_of _
type_text-HasText rec any (TypeShape.float bytes) h = text_of _
type_text-HasText rec any (TypeShape.ptr e) h = two h (text_of _)
type_text-HasText rec any (TypeShape.array e len) h =
    joined-HasText _ (h, (text_of _, (text_of _, (text_of _, tt))))
type_text-HasText rec any (TypeShape.struct n ms) h = text_of _
type_text-HasText rec any (TypeShape.union n ms) h = text_of _
type_text-HasText rec any (TypeShape.enumeration n u ms b r) h = text_of _
type_text-HasText rec any (TypeShape.function r ps varargs) (h, hs) =
    bind-HasText _ _ (all_some-total _ (each-HasText rec ps hs))
      (λ parts. joined-HasText _ (h, (text_of _, (text_of _, (text_of _, tt)))))
type_text-HasText rec any (TypeShape.typedef n u) h = text_of _
type_text-HasText rec any (TypeShape.opaque n) h = text_of _
type_text-HasText rec any TypeShape.unknown h = text_of _

Refers-mono :
    (P Q any : TypeId → Type 0) (s : TypeShape)
    → ((j : TypeId) → P j → Q j)
    → Refers P any s
    → Refers Q any s
Refers-mono P Q any TypeShape.void f h = tt
Refers-mono P Q any TypeShape.bool f h = tt
Refers-mono P Q any (TypeShape.int bytes signed) f h = tt
Refers-mono P Q any (TypeShape.float bytes) f h = tt
Refers-mono P Q any (TypeShape.ptr e) f h = f e h
Refers-mono P Q any (TypeShape.array e len) f h = f e h
Refers-mono P Q any (TypeShape.struct n ms) f h = h
Refers-mono P Q any (TypeShape.union n ms) f h = h
Refers-mono P Q any (TypeShape.enumeration n u ms b r) f h = tt
Refers-mono P Q any (TypeShape.function r ps varargs) f (h, hs) = (f r h, All-mono ps f hs)
Refers-mono P Q any (TypeShape.typedef n u) f h = tt
Refers-mono P Q any (TypeShape.opaque n) f h = tt
Refers-mono P Q any TypeShape.unknown f h = tt

module _ (c : Ctree) (typed : IsTyped c) where
  read_type : (i : TypeId) → IsHandle c.types i → (v : TypeValue) × (get_type c.types i ≡ some v)
  unfolding get_type
  read_type i h = get_valid c.types.arena i h

  print_type_below :
      (fuel i : ℕ) → IsHandle c.types i → typed.rank i < fuel → HasText (print_type fuel c.types i)
  unfolding print_type
  print_type_below zero i v h = absurd (omega arith)
  print_type_below (suc fuel) i v h =
      let (w, g) = read_type i v in
      let smaller = λ (j : ℕ) (k : IsHandle c.types j × (typed.rank j < typed.rank i)).
        print_type_below fuel j k.0 (omega (arith, k.1)) in
      rw g (
        type_text-HasText (print_type fuel c.types) (IsHandle c.types) w.shape
          (Refers-mono _ _ (IsHandle c.types) w.shape smaller (typed.falls i w g)))

  -- Every type of the table has a text, within the fuel that the renderer gives.
  pub print_type-HasText :
      (i : TypeId)
      → IsHandle c.types i
      → HasText (print_type (suc (length c.types.arena)) c.types i)
  print_type-HasText i v = print_type_below _ i v (omega (arith, typed.bounded i v))

  MemberKnown : Option TypeMember → Type 0
  MemberKnown none = Unit {0}
  MemberKnown (some m) = IsHandle c.types m.ty

  member_at-known :
      (bit : ℕ) (ms : List TypeMember)
      → All (λ m. IsHandle c.types m.ty) ms
      → MemberKnown (member_at bit ms)
  unfolding member_at MemberKnown
  member_at-known bit [] h = tt
  member_at-known bit (m ∷ ms) (h, hs) = go (m.bit_offset == bit) (member_at-known bit ms hs)
    where
      go :
          (b : Bool)
          → MemberKnown (member_at bit ms)
          → MemberKnown (if b then some m else member_at bit ms)
      go true k = h
      go false k = k

  member_name-HasText :
      (byte_off : ℕ) (o : Option TypeMember)
      → MemberKnown o
      → HasText (member_name c.types byte_off o)
  unfolding MemberKnown
  member_name-HasText byte_off none h = text_of _
  member_name-HasText byte_off (some m) h =
      if-HasText _ _ _ (text_of _) (value-HasText (get_type c.types m.ty) _ (read_type m.ty h))

  members-known :
      (low : TypeId → Type 0) (s : TypeShape)
      → Refers low (IsHandle c.types) s
      → All (λ m. IsHandle c.types m.ty) (members_of s)
  members-known low (TypeShape.struct n ms) h = h
  members-known low (TypeShape.union n ms) h = h
  members-known low _ h = tt

  -- The type that a reference goes through is there, and so are the types of its members.
  through-known :
      {low : TypeId → Type 0} (b : Bool) (s : TypeShape)
      → ((j : TypeId) → low j → IsHandle c.types j)
      → Refers low (IsHandle c.types) s
      → (r : TypeShape) × (through b c.types s ≡ some r)
        × All (λ m. IsHandle c.types m.ty) (members_of r)
  unfolding through
  through-known {low} true (TypeShape.ptr p) f h =
      let (v, e) = read_type p (f p h) in
      (v.shape, rw e refl, members-known _ v.shape (typed.falls p v e))
  through-known {low} true s f h = (s, refl, members-known low s h)
  through-known {low} false s f h = (s, refl, members-known low s h)

  -- A field that is asked for has a name.
  pub field_name-HasText :
      (o : ExpressionId) (byte_off : ℕ) (through_ptr : Bool)
      → o < length c.nodes.expressions
      → HasText (field_name c o byte_off through_ptr)
  unfolding field_name
  field_name-HasText o byte_off through_ptr h =
      let (n, g) = get_valid c.nodes.expressions o h in
      let (v, e) = read_type n.ty (typed.expressions o n g) in
      let (r, q, k) = through-known through_ptr v.shape (λ j p. p.0) (typed.falls n.ty v e) in
      rw (g, e, q)
        (member_name-HasText byte_off (member_at (byte_off * 8) (members_of r))
          (member_at-known (byte_off * 8) (members_of r) k))
