-- ===== src/Types/Walk.antt =====
-- crates/idakit/src/types/diff/canonical/model.rs: `canonicalize`, from a table and a handle to the
-- table-free form.
--
-- `canon` has fuel, and `none` where it runs out or where a handle is not of the table. The stack is
-- the list of the aggregates being spelled, innermost first; the source pops what it pushed, so it is
-- an argument. A helper takes the walk of the children as `rec`.
pub mod Shape
pub mod Cut
pub mod Fuel
pub mod Cycle
use idakit.Base.{
  ℕ, zero, suc, ◌^◌, Bool, true, false, not, ◌&&◌, Option, none, some, List, [], ◌∷◌, Str, str,
  str_le, ltb, ◌==◌, if◌then◌else◌, ◌>>=◌,
}
use idakit.Canonical.{
  AggregateKind, RecordKind, from_record, CanonicalType, CanonicalMember, Members, Params, member,
  name, no_members, more_members, no_params, more_params,
}
use idakit.Types.Table.{TypeId, TypeMember, EnumMember, TypeShape, TypeValue, TypeTable, get_type}

-- `CanonicalOptions`: whether sizes are included.
pub record CanonicalOptions : Type 0 where
  pub include_sizes : Bool

-- `CanonicalOptions::strict` and `logical`.
abbrev pub strict : CanonicalOptions
strict = record { include_sizes = true }

abbrev pub logical : CanonicalOptions
logical = record { include_sizes = false }

-- `then_some` on the policy: `width`, `offset` and, flattened, `size`.
unfoldable pub width : CanonicalOptions → ℕ → Option ℕ
width opts n = if opts.include_sizes then some n else none

unfoldable pub size : CanonicalOptions → Option ℕ → Option ℕ
size opts s = if opts.include_sizes then s else none

-- `u8::try_from(s).ok()` on the recorded size.
unfoldable pub narrow : Option ℕ → Option ℕ
narrow none = none
narrow (some s) = if ltb s 256 then some s else none

unfoldable pub ptr_width : CanonicalOptions → Option ℕ → Option ℕ
unfolding narrow
ptr_width opts s = if opts.include_sizes then narrow s else none

-- `is_synthetic`: an empty tag, or one that starts with `$`.
unfoldable pub is_synthetic : Str → Bool
is_synthetic [] = true
is_synthetic (c ∷ cs) = c == 36

unfoldable pub real_tag : Option Str → Option Str
unfolding is_synthetic
real_tag none = none
real_tag (some n) = if is_synthetic n then none else some n

unfoldable pub cut_tag : Option Str → AggregateKind → Bool → Option CanonicalType
cut_tag (some tag) kind false = some (CanonicalType.named tag kind)
cut_tag tag kind spell = none

unfoldable pub nominal_cut : Option Str → AggregateKind → Bool → Option CanonicalType
unfolding cut_tag real_tag
nominal_cut n kind spell = cut_tag (real_tag n) kind spell

abbrev pub one_more : Option ℕ → Option ℕ
one_more none = none
one_more (some n) = some (suc n)

-- `stack.len() - stack.iter().rposition(|x| *x == id)`, on a stack with its top first.
unfoldable pub levels_up : TypeId → List TypeId → Option ℕ
levels_up i [] = none
levels_up i (x ∷ xs) = let rest = levels_up i xs in if x == i then some 1 else one_more rest

-- `sort_by(|a, b| a.0.cmp(&b.0))`, which is stable, on constants and on members.
unfoldable pub insert_constant : Str × ℕ → List (Str × ℕ) → List (Str × ℕ)
insert_constant p [] = p ∷ []
insert_constant p (q ∷ qs) =
    let rest = insert_constant p qs in if str_le p.0 q.0 then p ∷ q ∷ qs else q ∷ rest

unfoldable pub constants_of : List EnumMember → List (Str × ℕ)
unfolding insert_constant
constants_of [] = []
constants_of (m ∷ ms) = insert_constant (m.name, m.value) (constants_of ms)

unfoldable pub insert_member : CanonicalMember → Members → Members
insert_member m no_members = more_members m no_members
insert_member m (more_members n ms) =
    let rest = insert_member m ms in
    if str_le (name m) (name n) then more_members m (more_members n ms) else more_members n rest

unfoldable pub sort_members : Members → Members
unfolding insert_member
sort_members no_members = no_members
sort_members (more_members m ms) = insert_member m (sort_members ms)

-- A union's members are sorted, a struct's are left.
unfoldable pub arrange : RecordKind → Members → Members
unfolding sort_members
arrange RecordKind.struct ms = ms
arrange RecordKind.union ms = sort_members ms

-- The walk of a child, given the stack.
abbrev pub Walker : Type 0
Walker = TypeId → List TypeId → Option CanonicalType

module _ (opts : CanonicalOptions) (rec : Walker) where
  unfoldable pub canon_members : List TypeId → List TypeMember → Option Members
  unfolding width
  canon_members stack [] = some no_members
  canon_members stack (m ∷ ms) = do
    t ← rec m.ty stack
    rest ← canon_members stack ms
    some (more_members (member m.name (width opts m.bit_offset) m.bitfield_width t) rest)

  unfoldable pub canon_params : List TypeId → List TypeId → Option Params
  canon_params stack [] = some no_params
  canon_params stack (p ∷ ps) = do
    t ← rec p stack
    rest ← canon_params stack ps
    some (more_params t rest)

  -- The body of an aggregate, pushed on the stack while its members are walked.
  unfoldable pub spell_aggregate :
      TypeId
      → RecordKind
      → Option Str
      → List TypeMember
      → Option ℕ
      → List TypeId
      → Option CanonicalType
  unfolding canon_members arrange real_tag size
  spell_aggregate i kind n ms s stack = do
    done ← canon_members (i ∷ stack) ms
    some (CanonicalType.aggregate (real_tag n) kind (arrange kind done) (size opts s))

  unfoldable pub close_cycle :
      TypeId
      → RecordKind
      → Option Str
      → List TypeMember
      → Option ℕ
      → List TypeId
      → Option ℕ
      → Option CanonicalType
  unfolding spell_aggregate
  close_cycle i kind n ms s stack (some up) = some (CanonicalType.back_ref up)
  close_cycle i kind n ms s stack none = spell_aggregate i kind n ms s stack

  unfoldable pub after_cut :
      TypeId
      → RecordKind
      → Option Str
      → List TypeMember
      → Option ℕ
      → List TypeId
      → Option CanonicalType
      → Option CanonicalType
  unfolding close_cycle levels_up
  after_cut i kind n ms s stack (some cut) = some cut
  after_cut i kind n ms s stack none = close_cycle i kind n ms s stack (levels_up i stack)

  -- `aggregate`.
  unfoldable pub aggregate :
      TypeId
      → RecordKind
      → Option Str
      → List TypeMember
      → Option ℕ
      → List TypeId
      → Bool
      → Option CanonicalType
  unfolding after_cut nominal_cut
  aggregate i kind n ms s stack spell =
      after_cut i kind n ms s stack (nominal_cut n (from_record kind) spell)

  unfoldable pub spell_enum :
      Option Str
      → TypeId
      → List EnumMember
      → Option ℕ
      → List TypeId
      → Option CanonicalType
      → Option CanonicalType
  unfolding constants_of real_tag size
  spell_enum n u ms s stack (some cut) = some cut
  spell_enum n u ms s stack none = do
    t ← rec u stack
    some (CanonicalType.enumeration (real_tag n) t (constants_of ms) (size opts s))

  -- The `match` of `canon` on the shape of the value.
  unfoldable pub walk : TypeId → List TypeId → Bool → Option ℕ → TypeShape → Option CanonicalType
  unfolding aggregate spell_enum nominal_cut canon_params width ptr_width
  walk i stack spell s TypeShape.void = some CanonicalType.void
  walk i stack spell s TypeShape.bool = some CanonicalType.bool
  walk i stack spell s (TypeShape.int bytes signed) =
      some (CanonicalType.int (width opts bytes) signed)
  walk i stack spell s (TypeShape.float bytes) = some (CanonicalType.float (width opts bytes))
  walk i stack spell s (TypeShape.ptr inner) = do
    t ← rec inner stack
    some (CanonicalType.ptr t (ptr_width opts s))
  walk i stack spell s (TypeShape.array elem len) = do
    t ← rec elem stack
    some (CanonicalType.array t len)
  walk i stack spell s (TypeShape.struct n ms) = aggregate i RecordKind.struct n ms s stack spell
  walk i stack spell s (TypeShape.union n ms) = aggregate i RecordKind.union n ms s stack spell
  walk i stack spell s (TypeShape.enumeration n u ms b r) =
      spell_enum n u ms s stack (nominal_cut n AggregateKind.enum spell)
  walk i stack spell s (TypeShape.function ret params varargs) = do
    r ← rec ret stack
    ps ← canon_params stack params
    some (CanonicalType.function r ps varargs)
  walk i stack spell s (TypeShape.typedef n u) = do
    t ← rec u stack
    some (CanonicalType.typedef n t)
  walk i stack spell s (TypeShape.opaque n) = some (CanonicalType.opaque n)
  walk i stack spell s TypeShape.unknown = some (CanonicalType.opaque (str "<unfilled>"))

unfoldable pub canon :
    ℕ → TypeTable → CanonicalOptions → TypeId → List TypeId → Bool → Option CanonicalType
unfolding walk get_type
canon zero t opts i stack spell = none
canon (suc fuel) t opts i stack spell = do
  v ← get_type t i
  walk opts (λ j st. canon fuel t opts j st false) i stack spell v.size v.shape

unfoldable pub canonicalize : ℕ → TypeTable → TypeId → CanonicalOptions → Option CanonicalType
unfolding canon
canonicalize fuel t root opts = canon fuel t opts root [] true
