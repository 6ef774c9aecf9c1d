-- ===== src/Diff/Change.antt =====
-- crates/idakit/src/types/diff/canonical/engine.rs: `Change`, `ChangeKind`, `TypeDiff` and its
-- counters, and the dotted paths at which changes are anchored.
pub mod Counts
use idakit.Base.{
  ℕ, zero, suc, Bool, true, false, Option, none, some, List, [], ◌∷◌, ◌++◌, Str, is_empty, length,
  if◌then◌else◌,
}
use idakit.Canonical.{CanonicalType, CanonicalMember, member}

pub data ChangeKind : Type 0 where
  added : CanonicalType → ChangeKind
  removed : CanonicalType → ChangeKind
  -- left, right
  retyped : CanonicalType → CanonicalType → ChangeKind
  -- the old name
  renamed : Str → ChangeKind
  -- from, to
  moved : ℕ → ℕ → ChangeKind
  bitfield_changed : Option ℕ → Option ℕ → ChangeKind
  -- left, right
  size_changed : Option ℕ → Option ℕ → ChangeKind
  constant_added : ℕ → ChangeKind
  constant_removed : ℕ → ChangeKind
  constant_changed : ℕ → ℕ → ChangeKind

pub record Change : Type 0 where
  pub path : Str
  pub kind : ChangeKind

abbrev pub change : Str → ChangeKind → Change
change p k = record { path = p; kind = k }

-- `TypeDiff`: the changes in reading order.
abbrev pub TypeDiff : Type 0
TypeDiff = List Change

-- `filter(..).count()` over the kinds.
unfoldable pub count_kinds : (ChangeKind → Bool) → TypeDiff → ℕ
count_kinds test [] = 0
count_kinds test (c ∷ cs) = let rest = count_kinds test cs in if test c.kind then suc rest else rest

unfoldable pub is_added : ChangeKind → Bool
is_added (added t) = true
is_added (constant_added v) = true
is_added _ = false

unfoldable pub is_removed : ChangeKind → Bool
is_removed (removed t) = true
is_removed (constant_removed v) = true
is_removed _ = false

unfoldable pub is_changed : ChangeKind → Bool
is_changed (retyped l r) = true
is_changed (renamed n) = true
is_changed (moved f t) = true
is_changed (bitfield_changed f t) = true
is_changed (constant_changed l r) = true
is_changed _ = false

-- `TypeDiff::added`, `removed` and `changed`.
unfoldable pub count_added : TypeDiff → ℕ
unfolding count_kinds is_added
count_added = count_kinds is_added

unfoldable pub count_removed : TypeDiff → ℕ
unfolding count_kinds is_removed
count_removed = count_kinds is_removed

unfoldable pub count_changed : TypeDiff → ℕ
unfolding count_kinds is_changed
count_changed = count_kinds is_changed

-- The sizes of a `SizeChanged` at the root, and `none` for any other change.
unfoldable pub root_size : Change → Option (Option ℕ × Option ℕ)
root_size c = at_root c.kind
  where
    at_root : ChangeKind → Option (Option ℕ × Option ℕ)
    at_root (size_changed l r) = if is_empty c.path then some (l, r) else none
    at_root _ = none

-- `TypeDiff::size_change`, by `find_map`.
unfoldable pub size_change : TypeDiff → Option (Option ℕ × Option ℕ)
unfolding root_size
size_change [] = none
size_change (c ∷ cs) =
    let rest = size_change cs in elim (root_size c) [ some s ↦ some s | none ↦ rest ]

-- `join`: a dotted path extended by a child's name.
unfoldable pub join : Str → Str → Str
join path n = if is_empty path then n else path ++ (46 ∷ n)

-- `CanonicalMember::path_in`.
unfoldable pub path_in : CanonicalMember → Str → Str
unfolding join
path_in (member n o w t) parent = if is_empty n then parent else join parent n
