-- ===== src/Types/Walk/Fuel.antt =====
-- crates/idakit/src/types/diff/canonical/model.rs: the walk ends.
use idakit.Base.{
  ℕ, zero, suc, ◌+◌, ◌<◌, ◌≤◌, Bool, true, false, Option, none, some, List, [], ◌∷◌, ◌≡◌, refl, sym,
  ap, subst, Str, length, arith, ◌>>=◌, All, inl, inr, Bool-cases, ltb, ltb→lt, Bool-cases, ltb,
  ltb→lt,
}
use idakit.Arena.{get}
use idakit.Canonical.{AggregateKind, RecordKind, from_record, CanonicalType}
use idakit.Types.Table.{TypeId, TypeMember, EnumMember, TypeShape, TypeValue, TypeTable, get_type}
use idakit.Types.Walk.{
  CanonicalOptions, nominal_cut, levels_up, one_more, Walker, canon_members, canon_params,
  spell_aggregate, close_cycle, after_cut, aggregate, spell_enum, walk, canon, canonicalize,
}
use idakit.Types.Walk.Cut.{canonicalize-IsRoot}
use idakit.Types.Walk.Shape.{IsRoot}

abbrev free_step : Option ℕ → ℕ → ℕ
free_step none n = suc n
free_step (some k) n = n

-- How many of the handles under `n` are not on the stack.
unfoldable pub count_free : ℕ → List TypeId → ℕ
count_free zero st = 0
count_free (suc n) st = free_step (levels_up n st) (count_free n st)

levels_up-ne :
    (n i : ℕ) (st : List TypeId) → n < i → (levels_up n (i ∷ st) ≡ one_more (levels_up n st))
unfolding levels_up
levels_up-ne n i st h = ground arith

free_step-one_more : (o : Option ℕ) (n : ℕ) → free_step (one_more o) n ≡ free_step o n
free_step-one_more none n = refl
free_step-one_more (some k) n = refl

levels_up-above :
    (n i : ℕ) (st : List TypeId) → i < n → (levels_up n (i ∷ st) ≡ one_more (levels_up n st))
unfolding levels_up
levels_up-above n i st h = ground arith

count_free-past : (n i : ℕ) (st : List TypeId) → n ≤ i → count_free n (i ∷ st) ≡ count_free n st
unfolding count_free
count_free-past zero i st h = refl
count_free-past (suc n) i st h =
    rw (levels_up-ne n i st (omega (arith, h)), free_step-one_more (levels_up n st))
      (ap (free_step (levels_up n st)) (count_free-past n i st (omega (arith, h))))

levels_up_self : (n i : ℕ) (st : List TypeId) → n ≡ i → levels_up n (i ∷ st) ≡ some 1
unfolding levels_up
levels_up_self n i st h = ground arith

free_step-suc : (o : Option ℕ) (n m : ℕ) → suc n ≡ m → suc (free_step o n) ≡ free_step o m
free_step-suc none n m h = ap suc h
free_step-suc (some k) n m h = h

-- Pushing a handle that is not on the stack uses up one of the free ones.
count_free-push :
    (n i : ℕ) (st : List TypeId)
    → i < n
    → levels_up i st ≡ none
    → suc (count_free n (i ∷ st)) ≡ count_free n st
unfolding count_free
count_free-push zero i st h e = absurd (omega arith)
count_free-push (suc n) i st h e = elim (Bool-cases (ltb i n)) [
  | inl q ↦
      let l : i < n = ltb→lt i n q in
      rw (levels_up-above n i st l, free_step-one_more (levels_up n st))
        (free_step-suc (levels_up n st) _ _ (count_free-push n i st l e))
  | inr q ↦
      let same : i ≡ n = ground arith in
      let top : levels_up n st ≡ none = subst (λ (m : ℕ). levels_up m st ≡ none) same e in
      rw (levels_up_self n i st (sym same), top)
        (ap suc (count_free-past n i st (omega (arith, same))))
]

pub data IsSome {A : Type 0} : Option A → Type 0 where
  is_some : (a : A) → IsSome (some a)

bind-IsSome :
    {A B : Type 0} (o : Option A) (f : A → Option B)
    → IsSome o
    → ((a : A) → IsSome (f a))
    → IsSome (o >>= f)
bind-IsSome (some a) f h k = k a
bind-IsSome none f h k = elim h [ ]

-- The edges of a shape: `low` holds of a child that is walked with the same stack, `any` of a child
-- that is walked inside an aggregate.
abbrev pub Edges : (ℕ → Type 0) → (ℕ → Type 0) → TypeShape → Type 0
Edges low any (TypeShape.ptr e) = low e
Edges low any (TypeShape.array e n) = low e
Edges low any (TypeShape.struct n ms) = All (λ m. any m.ty) ms
Edges low any (TypeShape.union n ms) = All (λ m. any m.ty) ms
Edges low any (TypeShape.enumeration n u ms b r) = low u
Edges low any (TypeShape.function r ps v) = low r × All low ps
Edges low any (TypeShape.typedef n e) = low e
Edges low any _ = Unit {0}

module _ (opts : CanonicalOptions) (rec : Walker) (i : TypeId) (st : List TypeId)
    (low any : ℕ → Type 0) (walk_low : (j : TypeId) → low j → IsSome (rec j st))
    (walk_any : (j : TypeId) → levels_up i st ≡ none → any j → IsSome (rec j (i ∷ st))) where
  canon_members-IsSome :
      (ms : List TypeMember)
      → levels_up i st ≡ none
      → All (λ m. any m.ty) ms
      → IsSome (canon_members opts rec (i ∷ st) ms)
  unfolding canon_members
  canon_members-IsSome [] e h = is_some _
  canon_members-IsSome (m ∷ ms) e h = bind-IsSome (rec m.ty (i ∷ st)) _ (walk_any m.ty e h.0) (λ t.
      bind-IsSome (canon_members opts rec (i ∷ st) ms) _ (canon_members-IsSome ms e h.1)
        (λ rest. is_some _))

  canon_params-IsSome : (ps : List TypeId) → All low ps → IsSome (canon_params opts rec st ps)
  unfolding canon_params
  canon_params-IsSome [] h = is_some _
  canon_params-IsSome (p ∷ ps) h = bind-IsSome (rec p st) _ (walk_low p h.0) (λ t.
      bind-IsSome (canon_params opts rec st ps) _ (canon_params-IsSome ps h.1) (λ rest. is_some _))

  aggregate-IsSome :
      (k : RecordKind) (n : Option Str) (ms : List TypeMember) (s : Option ℕ) (spell : Bool)
      → All (λ m. any m.ty) ms
      → IsSome (aggregate opts rec i k n ms s st spell)
  unfolding aggregate
  aggregate-IsSome k n ms s spell h = cut (nominal_cut n (from_record k) spell)
    where
      closed : (o : Option ℕ) → levels_up i st ≡ o → IsSome (close_cycle opts rec i k n ms s st o)
      closed (some up) e = unfold close_cycle in is_some _
      closed none e =
          unfold close_cycle spell_aggregate in
          bind-IsSome (canon_members opts rec (i ∷ st) ms) _ (canon_members-IsSome ms e h)
            (λ d. is_some _)

      cut : (o : Option CanonicalType) → IsSome (after_cut opts rec i k n ms s st o)
      cut (some c) = unfold after_cut in is_some c
      cut none = unfold after_cut in closed (levels_up i st) refl

  spell_enum-IsSome :
      (n : Option Str) (u : TypeId) (ms : List EnumMember) (s : Option ℕ) (o : Option CanonicalType)
      → low u
      → IsSome (spell_enum opts rec n u ms s st o)
  unfolding spell_enum
  spell_enum-IsSome n u ms s (some c) h = is_some c
  spell_enum-IsSome n u ms s none h = bind-IsSome (rec u st) _ (walk_low u h) (λ t. is_some _)

  walk-IsSome :
      (spell : Bool) (s : Option ℕ) (shape : TypeShape)
      → Edges low any shape
      → IsSome (walk opts rec i st spell s shape)
  unfolding walk
  walk-IsSome spell s TypeShape.void h = is_some _
  walk-IsSome spell s TypeShape.bool h = is_some _
  walk-IsSome spell s (TypeShape.int b g) h = is_some _
  walk-IsSome spell s (TypeShape.float b) h = is_some _
  walk-IsSome spell s (TypeShape.ptr e) h = bind-IsSome (rec e st) _ (walk_low e h) (λ t. is_some _)
  walk-IsSome spell s (TypeShape.array e n) h =
      bind-IsSome (rec e st) _ (walk_low e h) (λ t. is_some _)
  walk-IsSome spell s (TypeShape.struct n ms) h = aggregate-IsSome RecordKind.struct n ms s spell h
  walk-IsSome spell s (TypeShape.union n ms) h = aggregate-IsSome RecordKind.union n ms s spell h
  walk-IsSome spell s (TypeShape.enumeration n u ms b r) h =
      spell_enum-IsSome n u ms s (nominal_cut n AggregateKind.enum spell) h
  walk-IsSome spell s (TypeShape.function ret ps v) h =
      bind-IsSome (rec ret st) _ (walk_low ret h.0) (λ r.
        bind-IsSome (canon_params opts rec st ps) _ (canon_params-IsSome ps h.1) (λ out. is_some _))
  walk-IsSome spell s (TypeShape.typedef n e) h =
      bind-IsSome (rec e st) _ (walk_low e h) (λ t. is_some _)
  walk-IsSome spell s (TypeShape.opaque n) h = is_some _
  walk-IsSome spell s TypeShape.unknown h = is_some _

-- The handles of a table are its own, and a rank of at most `top` falls along each edge that does
-- not leave an aggregate; the edges out of aggregates are free.
pub record IsRanked (t : TypeTable) (rank : TypeId → ℕ) (top : ℕ) : Type 0 where
  pub bounded : (i : TypeId) → rank i ≤ top
  pub edges :
      (i : TypeId) (v : TypeValue)
      → get_type t i ≡ some v
      → Edges (λ j. (j < length t.arena) × (rank j < rank i)) (λ j. j < length t.arena) v.shape

get-below : {A : Type 0} (a : List A) (i : ℕ) → i < length a → (x : A) × (get a i ≡ some x)
unfolding get
get-below [] i h = absurd (omega arith)
get-below (x ∷ a) zero h = (x, refl)
get-below (x ∷ a) (suc i) h = get-below a i (omega (arith, h))

-- The fuel that a walk needs: a round of `top + 2` steps for each handle that is free, and the rank.
abbrev pub enough : ℕ → ℕ → ℕ → ℕ
enough top zero r = r
enough top (suc c) r = top + 2 + enough top c r

enough-low : (top c r q : ℕ) → q < r → enough top c q < enough top c r
enough-low top zero r q h = h
enough-low top (suc c) r q h = omega (arith, enough-low top c r q h)

enough-any : (top c r q : ℕ) → q ≤ top → enough top c q < enough top (suc c) r
enough-any top zero r q h = omega (arith, h)
enough-any top (suc c) r q h = omega (arith, enough-any top c r q h)

canon-IsSome :
    (fuel : ℕ) (t : TypeTable) (opts : CanonicalOptions) (rank : TypeId → ℕ) (top : ℕ)
    → IsRanked t rank top
    → (i : TypeId) (st : List TypeId) (spell : Bool) → i < length t.arena
    → enough top (count_free (length t.arena) st) (rank i) < fuel
    → IsSome (canon fuel t opts i st spell)
unfolding canon
canon-IsSome zero t opts rank top g i st spell h k = absurd (omega (arith, k))
canon-IsSome (suc fuel) t opts rank top g i st spell h k =
    let (v, e) = get-below t.arena i h in
    let e' : get_type t i ≡ some v = unfold get_type in e in
    rw e' (
      walk-IsSome opts (λ j s. canon fuel t opts j s false) i st
        (λ j. (j < length t.arena) × (rank j < rank i)) (λ j. j < length t.arena)
        (λ j l.
          canon-IsSome fuel t opts rank top g j st false l.0 (
            omega
              (arith, k, enough-low top (count_free (length t.arena) st) (rank i) (rank j) l.1)))
        (λ j f l. canon-IsSome fuel t opts rank top g j (i ∷ st) false l (room j f)) spell v.size
        v.shape (g.edges i v e'))
  where
    room :
        (j : TypeId)
        → levels_up i st ≡ none
        → enough top (count_free (length t.arena) (i ∷ st)) (rank j) < fuel
    room j f =
        let p = count_free-push (length t.arena) i st h f in
        let q =
          enough-any top (count_free (length t.arena) (i ∷ st)) (rank i) (rank j) (g.bounded j) in
        omega (
          arith,
          k,
          subst
              (λ (c : ℕ).
                enough top (count_free (length t.arena) (i ∷ st)) (rank j) < enough top c (rank i))
              p q,
        )

IsSome-value : {A : Type 0} (o : Option A) → IsSome o → (a : A) × (o ≡ some a)
IsSome-value (some a) h = (a, refl)
IsSome-value none h = elim h [ ]

count_free-nil : (n : ℕ) → count_free n [] ≡ n
unfolding count_free levels_up
count_free-nil zero = refl
count_free-nil (suc n) = ap suc (count_free-nil n)

-- Canonicalizing a handle of a table returns: fuel is enough that exceeds, for each entry of the
-- table, the greatest rank and two, and the rank of the root. What it returns is spelled at the root,
-- never a bare reference, and below the root every aggregate and enum that is spelled has no tag and
-- every back-reference leads to an aggregate that encloses it. A table must hold its own handles, and
-- a rank must fall along every edge that does not leave an aggregate; aggregates may be recursive.
pub canonicalize-IsRoot_total :
    (t : TypeTable) (rank : TypeId → ℕ) (top : ℕ) (root : TypeId) (opts : CanonicalOptions)
    (fuel : ℕ)
    → IsRanked t rank top
    → root < length t.arena
    → enough top (length t.arena) (rank root) < fuel
    → (c : CanonicalType) × (canonicalize fuel t root opts ≡ some c) × IsRoot c
canonicalize-IsRoot_total t rank top root opts fuel g h k =
    let (c, e) = IsSome-value (canonicalize fuel t root opts) (
      unfold canonicalize in
      canon-IsSome fuel t opts rank top g root [] true h
        (rw (count_free-nil (length t.arena)) k)) in
    (c, e, canonicalize-IsRoot fuel t root opts c e)
