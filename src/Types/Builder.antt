-- ===== src/Types/Builder.antt =====
-- crates/idakit/src/types/builder.rs: `TypeBuilder`, which fills the type table from the callbacks of
-- a walk, and crates/idakit/src/types/sink.rs, which marshals their arguments.
--
-- An operation returns `none` where the source panics: on an arena that is full, and on a handle out
-- of range. The two hash maps are association lists, read from the front.
pub mod Sound
pub mod Pending
pub mod Handlers
pub mod Names
mod Tests
use idakit.Base.{
  ℕ, Bool, true, false, not, Option, none, some, List, [], ◌∷◌, Str, str_eq, ltb, ◌==◌,
  if◌then◌else◌, ◌>>=◌, length, map,
}
use idakit.Types.Table.{
  TypeId, NumberFormat, binary, octal, hexadecimal, decimal, char, ValueRepr, TypeMember,
  EnumMember, TypeShape, void, bool, int, float, ptr, array, struct, union, enumeration, function,
  typedef, opaque, unknown, TypeValue, TypeTable, new_table, intern, alloc_placeholder, fill,
  get_type,
}

-- crates/idakit/src/types/repr.rs: `NumberFormat::try_from`.
unfoldable pub format_try_from : ℕ → Option NumberFormat
format_try_from raw =
    if raw == 1
    then some binary
    else if raw == 2
    then some octal
    else if raw == 3
    then some hexadecimal
    else if raw == 4
    then some decimal
    else if raw == 6
    then some char
    else none

unfoldable pub read_repr : ℕ → Bool → Bool → Option ValueRepr
unfolding format_try_from
read_repr vtype is_signed zeros = do
  f ← format_try_from vtype
  some (record { format = f; signed = is_signed; leading_zeros = zeros })

unfoldable pub opt_size : ℕ → ℕ → Option ℕ
opt_size size has_size = if not (has_size == 0) then some size else none

pub record TypeBuilder : Type 0 where
  pub table : TypeTable
  pub name2type : List (Str × TypeId)
  pub pending : List (TypeId × Option Str)
  pub too_wide : Option ℕ

unfoldable pub new_builder : TypeBuilder
unfolding new_table
new_builder = record { table = new_table; name2type = []; pending = []; too_wide = none }

-- `HashMap::get` and `remove`; an insertion of the source has a key that is not there.
unfoldable pub find_name : Str → List (Str × TypeId) → Option TypeId
find_name n [] = none
find_name n ((m, i) ∷ ns) = let rest = find_name n ns in if str_eq n m then some i else rest

unfoldable pub find_pending : TypeId → List (TypeId × Option Str) → Option (Option Str)
find_pending i [] = none
find_pending i ((j, n) ∷ ps) = let rest = find_pending i ps in if i == j then some n else rest

unfoldable pub remove_pending : TypeId → List (TypeId × Option Str) → List (TypeId × Option Str)
remove_pending i [] = []
remove_pending i ((j, n) ∷ ps) =
    let rest = remove_pending i ps in if i == j then rest else (j, n) ∷ rest

abbrev pub value : TypeShape → Option ℕ → TypeValue
value s n = record { shape = s; size = n }

-- `TypeBuilder::intern`, `alloc_placeholder` and `fill`.
unfoldable pub intern_value : TypeValue → TypeBuilder → Option (TypeId × TypeBuilder)
unfolding intern
intern_value v b = do (i, t) ← intern v b.table; some (i, record b { table = t })

unfoldable pub reserve : TypeBuilder → Option (TypeId × TypeBuilder)
unfolding alloc_placeholder
reserve b = do (i, t) ← alloc_placeholder b.table; some (i, record b { table = t })

unfoldable pub fill_value : TypeId → TypeValue → TypeBuilder → Option TypeBuilder
unfolding fill
fill_value i v b = do t ← fill i v b.table; some (record b { table = t })

unfoldable pub type_size : TypeId → TypeBuilder → Option (Option ℕ)
unfolding get_type
type_size i b = do v ← get_type b.table i; some v.size

-- The shape of a scalar of a kind and a width.
unfoldable pub scalar_shape : ℕ → ℕ → ℕ → TypeShape
scalar_shape kind width is_signed =
    if kind == 1
    then void
    else if kind == 2
    then bool
    else if kind == 3
    then int width (not (is_signed == 0))
    else if kind == 4
    then float width
    else unknown

-- `get_or_insert`: the first width that is too wide stays.
unfoldable pub note_too_wide : ℕ → Option ℕ → Option ℕ
note_too_wide bytes none = some bytes
note_too_wide bytes (some first) = some first

unfoldable pub scalar : ℕ → ℕ → ℕ → ℕ → ℕ → TypeBuilder → Option (TypeId × TypeBuilder)
unfolding intern_value opt_size scalar_shape note_too_wide
scalar kind bytes is_signed size has_size b =
    if ltb bytes 256
    then intern_value (value (scalar_shape kind bytes is_signed) (opt_size size has_size)) b
    else intern_value (value (scalar_shape kind 0 is_signed) (opt_size size has_size))
        (record b { too_wide = note_too_wide bytes b.too_wide })

unfoldable pub pointer : TypeId → ℕ → ℕ → TypeBuilder → Option (TypeId × TypeBuilder)
unfolding intern_value opt_size
pointer target size has_size b = intern_value (value (ptr target) (opt_size size has_size)) b

unfoldable pub array_of : TypeId → ℕ → ℕ → ℕ → TypeBuilder → Option (TypeId × TypeBuilder)
unfolding intern_value opt_size
array_of elem nelems size has_size b =
    intern_value (value (array elem nelems) (opt_size size has_size)) b

unfoldable pub function_of : TypeId → List TypeId → ℕ → TypeBuilder → Option (TypeId × TypeBuilder)
unfolding intern_value
function_of ret params vararg b =
    intern_value (value (function ret params (not (vararg == 0))) none) b

unfoldable pub opaque_of : Str → TypeBuilder → Option (TypeId × TypeBuilder)
unfolding intern_value
opaque_of name b = intern_value (value (opaque name) none) b

-- A name that is new reserves a handle.
unfoldable pub reserve_name : Str → TypeBuilder → Option (TypeId × TypeBuilder)
unfolding reserve
reserve_name name b = do
  (i, b') ← reserve b
  some
      (i, record b' { name2type = (name, i) ∷ b'.name2type; pending = (i, some name) ∷ b'.pending })

abbrev pub known_or : Str → TypeBuilder → Option TypeId → Option (TypeId × TypeBuilder)
known_or name b (some i) = some (i, b)
known_or name b none = reserve_name name b

unfoldable pub named_ref : Str → TypeBuilder → Option (TypeId × TypeBuilder)
unfolding find_name reserve_name
named_ref name b = known_or name b (find_name name b.name2type)

unfoldable pub anon : TypeBuilder → Option (TypeId × TypeBuilder)
unfolding reserve
anon b = do (i, b') ← reserve b; some (i, record b' { pending = (i, none) ∷ b'.pending })

-- `take_name`: the name that the handle was reserved for, and the builder without it.
abbrev pub flatten : Option (Option Str) → Option Str
flatten none = none
flatten (some n) = n

unfoldable pub taken_name : TypeId → TypeBuilder → Option Str
unfolding find_pending
taken_name i b = flatten (find_pending i b.pending)

unfoldable pub without_pending : TypeId → TypeBuilder → TypeBuilder
unfolding remove_pending
without_pending i b = record b { pending = remove_pending i b.pending }

unfoldable pub fill_struct :
    TypeId → Bool → List TypeMember → ℕ → ℕ → TypeBuilder → Option TypeBuilder
unfolding taken_name without_pending fill_value opt_size
fill_struct i is_union members size has_size b =
    fill_value i
      (value (if is_union then union (taken_name i b) members else struct (taken_name i b) members)
        (opt_size size has_size))
      (without_pending i b)

unfoldable pub fill_enum :
    TypeId
    → TypeId
    → List EnumMember
    → ℕ
    → ℕ
    → Bool
    → Option ValueRepr
    → TypeBuilder
    → Option TypeBuilder
unfolding taken_name without_pending fill_value opt_size
fill_enum i underlying members size has_size is_bitmask repr b =
    fill_value i
      (value (enumeration (taken_name i b) underlying members is_bitmask repr)
        (opt_size size has_size))
      (without_pending i b)

-- `unwrap_or_default`.
abbrev pub name_or_empty : Option Str → Str
name_or_empty none = []
name_or_empty (some n) = n

unfoldable pub fill_typedef : TypeId → TypeId → TypeBuilder → Option TypeBuilder
unfolding taken_name without_pending fill_value type_size
fill_typedef i underlying b = do
  s ← type_size underlying (without_pending i b)
  fill_value i (value (typedef (name_or_empty (taken_name i b)) underlying) s) (without_pending i b)

unfoldable pub unfilled : TypeBuilder → ℕ
unfilled b = length b.pending

unfoldable pub into_table : TypeBuilder → TypeTable
into_table b = b.table
