-- ===== src/Types/Table.antt =====
-- crates/idakit/src/types/mod.rs and repr.rs: `TypeValue`, `TypeShape` and the interned `TypeTable`.
--
-- The `HashMap` `dedup` is an association list, whose keys `intern` keeps distinct.
pub mod Intern
use idakit.Base.{
  ℕ, Bool, Option, none, some, List, [], ◌∷◌, ◌++◌, ℕ_discrete, Str, ite, ◌>>=◌, length, get_elem?,
}
use idakit.Arena.{Idx, alloc, get, put}

abbrev pub TypeId : Type 0
TypeId = Idx

pub data NumberFormat : Type 0 where
  binary octal hexadecimal decimal char : NumberFormat

pub record ValueRepr : Type 0 where
  pub format : NumberFormat
  pub signed : Bool
  pub leading_zeros : Bool

pub record TypeMember : Type 0 where
  pub name : Str
  pub bit_offset : ℕ
  pub ty : TypeId
  pub bitfield_width : Option ℕ
  pub repr : Option ValueRepr

pub record EnumMember : Type 0 where
  pub name : Str
  pub value : ℕ

pub data TypeShape : Type 0 where
  void : TypeShape
  bool : TypeShape
  -- bytes, signed
  int : ℕ → Bool → TypeShape
  float : ℕ → TypeShape
  ptr : TypeId → TypeShape
  -- elem, len
  array : TypeId → ℕ → TypeShape
  -- name, members
  struct : Option Str → List TypeMember → TypeShape
  union : Option Str → List TypeMember → TypeShape
  -- name, underlying, members, is_bitmask, repr
  enumeration : Option Str → TypeId → List EnumMember → Bool → Option ValueRepr → TypeShape
  -- ret, params, varargs
  function : TypeId → List TypeId → Bool → TypeShape
  typedef : Str → TypeId → TypeShape
  opaque : Str → TypeShape
  unknown : TypeShape

pub record TypeValue : Type 0 where
  pub shape : TypeShape
  pub size : Option ℕ

pub TypeValue-discrete : Discrete TypeValue
TypeValue-discrete = hlevel ℕ_discrete

-- `TypeShape::pointee` and `tag_name`.
unfoldable pub pointee : TypeShape → Option TypeId
pointee (ptr e) = some e
pointee _ = none

unfoldable pub tag_name : TypeShape → Option Str
tag_name (struct n ms) = n
tag_name (union n ms) = n
tag_name (enumeration n u ms b r) = n
tag_name (typedef n u) = some n
tag_name _ = none

pub record TypeTable : Type 0 where
  pub arena : List TypeValue
  pub dedup : List (TypeValue × TypeId)

abbrev pub table : List TypeValue → List (TypeValue × TypeId) → TypeTable
table a d = record { arena = a; dedup = d }

-- `TypeTable::new`.
unfoldable pub new_table : TypeTable
new_table = table [] []

unfoldable pub find_dedup : TypeValue → List (TypeValue × TypeId) → Option TypeId
find_dedup v [] = none
find_dedup v ((w, i) ∷ d) = let rest = find_dedup v d in ite (TypeValue-discrete w v) (some i) rest

-- The value is new: it is allocated and recorded. `none` is the arena's panic.
unfoldable pub intern_new : TypeValue → TypeTable → Option (TypeId × TypeTable)
unfolding alloc
intern_new v t = do (i, a) ← alloc v t.arena; some (i, table a ((v, i) ∷ t.dedup))

unfoldable pub intern_found : TypeValue → TypeTable → Option TypeId → Option (TypeId × TypeTable)
unfolding intern_new
intern_found v t (some i) = some (i, t)
intern_found v t none = intern_new v t

unfoldable pub intern : TypeValue → TypeTable → Option (TypeId × TypeTable)
unfolding intern_found find_dedup
intern v t = intern_found v t (find_dedup v t.dedup)

abbrev pub placeholder : TypeValue
placeholder = record { shape = unknown; size = none }

unfoldable pub alloc_placeholder : TypeTable → Option (TypeId × TypeTable)
unfolding alloc
alloc_placeholder t = do (i, a) ← alloc placeholder t.arena; some (i, table a t.dedup)

-- `fill`, which replaces the entry and leaves `dedup` as it is.
unfoldable pub fill : TypeId → TypeValue → TypeTable → Option TypeTable
unfolding put
fill i v t = do a ← put t.arena i v; some (table a t.dedup)

-- `TypeTable::get`.
unfoldable pub get_type : TypeTable → TypeId → Option TypeValue
unfolding get
get_type t i = get t.arena i
