-- ===== src/Diff/Catalog.antt =====
-- crates/idakit/src/types/diff/catalog.rs: catalogs of named types, and their partition by name.
--
-- A `BTreeMap` is the list of its entries in the order of their names. `key` is `CanonicalType::key`:
-- the digest that the SipHash crate computes, a parameter. A catalog is its map of types: the options
-- it was built with, which `diff` only asserts to be equal in debug builds, are left out, and
-- `type_catalog` gives the number of skipped types beside the map.
pub mod Partition
pub mod Entries
pub mod Lists
pub mod Build
use idakit.Base.{
  ℕ, Bool, true, false, not, Option, none, some, List, [], ◌∷◌, ◌++◌, Str, str_eq, str_lt, length,
  if◌then◌else◌, ◌==◌, ◌&&◌, ◌+◌,
}
use idakit.Canonical.{CanonicalType}
use idakit.Diff.Change.{TypeDiff}
use idakit.Diff.Engine.{diff}

-- `struct Entry`.
pub record Entry : Type 0 where
  pub canonical : CanonicalType
  pub key : ℕ

abbrev pub TypeMap : Type 0
TypeMap = List (Str × Entry)

-- `BTreeMap::get`; `TypeCatalog::get` takes the canonical type of the entry.
unfoldable pub get : Str → TypeMap → Option Entry
get n [] = none
get n ((m, e) ∷ ts) = let rest = get n ts in if str_eq m n then some e else rest

-- `BTreeMap::contains_key`.
unfoldable pub contains : Str → TypeMap → Bool
contains n [] = false
contains n ((m, e) ∷ ts) = let rest = contains n ts in if str_eq m n then true else rest

pub record CatalogDiff : Type 0 where
  pub identical : List Str
  pub drifted : List (Str × TypeDiff)
  pub only_left : List Str
  pub only_right : List Str

abbrev pub catalog_diff : List Str → List (Str × TypeDiff) → List Str → List Str → CatalogDiff
catalog_diff i d l r = record { identical = i; drifted = d; only_left = l; only_right = r }

-- What the loop of `diff` makes of one name: which of the three lists it is pushed to.
unfoldable pub classify : Str → Entry → Option Entry → CatalogDiff → CatalogDiff
unfolding diff
classify n left (some right) d =
    if left.key == right.key
    then record d { identical = n ∷ d.identical }
    else record d { drifted = (n, diff left.canonical right.canonical) ∷ d.drifted }
classify n left none d = record d { only_left = n ∷ d.only_left }

-- The loop of `diff`; it pushes in order, so an earlier name stands before the later ones.
unfoldable pub classify_all : TypeMap → TypeMap → CatalogDiff
unfolding classify get
classify_all [] right = catalog_diff [] [] [] []
classify_all ((n, e) ∷ ts) right = classify n e (get n right) (classify_all ts right)

-- `other.types.keys().filter(|n| !self.types.contains_key(*n))`.
unfoldable pub names_missing : TypeMap → TypeMap → List Str
unfolding contains
names_missing [] left = []
names_missing ((n, e) ∷ ts) left =
    let rest = names_missing ts left in if contains n left then rest else n ∷ rest

-- `TypeCatalog::diff`.
unfoldable pub diff_catalogs : TypeMap → TypeMap → CatalogDiff
unfolding classify_all names_missing
diff_catalogs left right = record (classify_all left right) {
  only_right = names_missing right left;
}

-- `CatalogDiff::shared` and `CatalogDiff::is_empty`.
unfoldable pub shared : CatalogDiff → ℕ
shared d = length d.identical + length d.drifted

abbrev pub none_left {ℓ} : {A : Type ℓ} → List A → Bool
none_left [] = true
none_left (x ∷ xs) = false

unfoldable pub agrees : CatalogDiff → Bool
agrees d = none_left d.drifted && none_left d.only_left && none_left d.only_right

-- What resolving a named type yields: its canonical form, or an error.
abbrev pub Resolved : Type 0
Resolved = Str × Option CanonicalType

-- `BTreeMap::insert`, which replaces the value of a name that is there.
unfoldable pub insert : Str → Entry → TypeMap → TypeMap
insert n e [] = (n, e) ∷ []
insert n e ((m, f) ∷ ts) =
    let rest = insert n e ts in
    if str_eq m n then (m, e) ∷ ts else if str_lt n m then (n, e) ∷ (m, f) ∷ ts else (m, f) ∷ rest

-- `Database::type_catalog_with`: the types inserted, and how many were skipped.
unfoldable pub type_catalog : (CanonicalType → ℕ) → List Resolved → TypeMap × ℕ → TypeMap × ℕ
unfolding insert
type_catalog key [] c = c
type_catalog key ((n, some t) ∷ rs) (types, skipped) =
    type_catalog key rs (insert n (record { canonical = t; key = key t }) types, skipped)
type_catalog key ((n, none) ∷ rs) (types, skipped) = type_catalog key rs (types, skipped + 1)
