-- ===== src/Canonical.antt =====
-- crates/idakit/src/types/diff/canonical/model.rs: the table-free form of a type.
--
-- `CanonicalType` has the source's constructors; `CanonicalMember` and the two kinds of list stand
-- in one block with it. Rust's derived `PartialEq` is the decision of equality.
use idakit.Base.{ℕ, Bool, Option, none, some, List, [], ◌∷◌, ℕ_discrete, Str}

pub data AggregateKind : Type 0 where
  struct union enum : AggregateKind

pub data RecordKind : Type 0 where
  struct union : RecordKind

-- `impl From<RecordKind> for AggregateKind`.
unfoldable pub from_record : RecordKind → AggregateKind
from_record RecordKind.struct = AggregateKind.struct
from_record RecordKind.union = AggregateKind.union

mutual
  pub data CanonicalType : Type 0 where
    void : CanonicalType
    bool : CanonicalType
    -- bytes, signed
    int : Option ℕ → Bool → CanonicalType
    float : Option ℕ → CanonicalType
    -- pointee, width
    ptr : CanonicalType → Option ℕ → CanonicalType
    -- elem, len
    array : CanonicalType → ℕ → CanonicalType
    named : Str → AggregateKind → CanonicalType
    -- tag, kind, members, size
    aggregate : Option Str → RecordKind → Members → Option ℕ → CanonicalType
    -- tag, underlying, members, size
    enumeration : Option Str → CanonicalType → List (Str × ℕ) → Option ℕ → CanonicalType
    -- ret, params, varargs
    function : CanonicalType → Params → Bool → CanonicalType
    typedef : Str → CanonicalType → CanonicalType
    opaque : Str → CanonicalType
    back_ref : ℕ → CanonicalType

  -- name, bit_offset, bitfield_width, ty
  pub data CanonicalMember : Type 0 where
    member : Str → Option ℕ → Option ℕ → CanonicalType → CanonicalMember

  -- `Vec<CanonicalMember>`
  pub data Members : Type 0 where
    no_members : Members
    more_members : CanonicalMember → Members → Members

  -- `Vec<CanonicalType>`
  pub data Params : Type 0 where
    no_params : Params
    more_params : CanonicalType → Params → Params

unfoldable pub CanonicalType-discrete : Discrete CanonicalType
CanonicalType-discrete = hlevel ℕ_discrete

pub AggregateKind-discrete : Discrete AggregateKind
AggregateKind-discrete = hlevel

unfoldable pub RecordKind-discrete : Discrete RecordKind
RecordKind-discrete = hlevel

unfoldable pub tag_discrete : Discrete (Option Str)
tag_discrete = hlevel ℕ_discrete

unfoldable pub size_discrete : Discrete (Option ℕ)
size_discrete = hlevel ℕ_discrete

abbrev pub name : CanonicalMember → Str
name (member n o w t) = n

abbrev pub bit_offset : CanonicalMember → Option ℕ
bit_offset (member n o w t) = o

abbrev pub bitfield_width : CanonicalMember → Option ℕ
bitfield_width (member n o w t) = w

abbrev pub ty : CanonicalMember → CanonicalType
ty (member n o w t) = t

abbrev pub members_list : Members → List CanonicalMember
members_list no_members = []
members_list (more_members m ms) = m ∷ members_list ms

abbrev pub params_list : Params → List CanonicalType
params_list no_params = []
params_list (more_params p ps) = p ∷ params_list ps

-- The nominal identity by which a type is paired with one of another database.
pub data TypeIdentity : Type 0 where
  tagged : Str → AggregateKind → TypeIdentity
  alias : Str → TypeIdentity

-- `CanonicalType::identity`: reads only the root.
unfoldable pub identity : CanonicalType → Option TypeIdentity
unfolding from_record
identity (named tag kind) = some (tagged tag kind)
identity (aggregate (some tag) kind ms size) = some (tagged tag (from_record kind))
identity (enumeration (some tag) u ms size) = some (tagged tag AggregateKind.enum)
identity (typedef n u) = some (alias n)
identity _ = none
