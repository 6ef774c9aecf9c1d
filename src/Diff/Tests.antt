-- ===== src/Diff/Tests.antt =====
-- crates/idakit/src/types/diff/canonical: comparisons of concrete types.
use idakit.Diff.Catalog.Lists.{IsPartition, diff_catalogs-IsPartition}
use idakit.Base.{
  ℕ, ◌<◌, ◌+◌, Bool, true, false, Option, none, some, List, [], ◌∷◌, ◌++◌, ◌≡◌, ◌≢◌, ap, ◌↔◌, refl,
  str_eq, arith, str, Str, length,
}
use idakit.Canonical.{
  CanonicalType-discrete, RecordKind-discrete, tag_discrete, size_discrete, CanonicalType,
  CanonicalMember, Members, RecordKind, member, no_members, more_members, bool, int, ptr, aggregate,
}
use idakit.Diff.Change.{
  change, added, removed, moved, renamed, retyped, size_changed, constant_changed, count_added,
  count_removed, count_changed, size_change,
}
use idakit.Diff.Change.Counts.{length-counts, count_resized}
use idakit.Diff.Pairing.{pair_members, unused}
use idakit.Diff.Pairing.Account.{pair_members-account}
use idakit.Diff.Engine.{diff}
use idakit.Diff.Engine.Empty.{diff-eq-nil_iff, IsPlain}
use idakit.Diff.Engine.Explains.{Explains}
use idakit.Diff.Engine.Reorder.{diff_swapped}
use idakit.Diff.Catalog.{Entry, TypeMap, diff_catalogs, agrees, shared, type_catalog, Resolved}
use idakit.Diff.Catalog.Partition.{agrees-diff_catalogs, key_of, DistinctNames}
use idakit.Diff.Catalog.Build.{type_catalog-IsBuilt, IsBuilt}

abbrev i32 : CanonicalType
i32 = int (some 4) true

abbrev a : CanonicalMember
a = member (str "a") (some 0) none i32

abbrev b : CanonicalMember
b = member (str "b") (some 32) none i32

abbrev c : CanonicalMember
c = member (str "c") (some 32) none i32

abbrev record_of : List CanonicalMember → CanonicalType
record_of ms = aggregate (some (str "p")) RecordKind.struct (go ms) (some 8)
  where
    go : List CanonicalMember → Members
    go [] = no_members
    go (m ∷ ms) = more_members m (go ms)

-- A renamed member keeps its offset.
diff_renamed :
    diff (record_of (a ∷ b ∷ [])) (record_of (a ∷ c ∷ []))
    ≡ change (str "c") (renamed (str "b")) ∷ []
unfolding diff CanonicalType-discrete RecordKind-discrete tag_discrete size_discrete
    idakit.Base.str_eq idakit.Base.ℕ_discrete pair_members idakit.Diff.Pairing.any_unused
    idakit.Diff.Change.path_in unused
diff_renamed = refl

-- A member that is gone.
diff_removed :
    diff (record_of (a ∷ b ∷ [])) (record_of (a ∷ [])) ≡ change (str "b") (removed i32) ∷ []
unfolding diff CanonicalType-discrete RecordKind-discrete tag_discrete size_discrete
    idakit.Base.str_eq idakit.Base.ℕ_discrete pair_members idakit.Diff.Pairing.any_unused
    idakit.Diff.Change.path_in unused
diff_removed = refl

pair_members-account_example :
    let s = pair_members (a ∷ b ∷ []) (c ∷ a ∷ []) in
    (length (a ∷ b ∷ []) ≡ length (unused s.l_used (a ∷ b ∷ [])) + length s.pairs)
    × (length (c ∷ a ∷ []) ≡ length (unused s.r_used (c ∷ a ∷ [])) + length s.pairs)
pair_members-account_example = pair_members-account (a ∷ b ∷ []) (c ∷ a ∷ [])

diff-eq-nil_iff_example :
    (diff (ptr i32 (some 8)) (ptr bool (some 8)) ≡ []) ↔ (ptr i32 (some 8) ≡ ptr bool (some 8))
unfolding IsPlain
diff-eq-nil_iff_example = diff-eq-nil_iff (ptr i32 (some 8)) (ptr bool (some 8)) tt

length-counts_example :
    let d =
      change (str "c") (renamed (str "b")) ∷ change [] (size_changed (some 8) (some 4)) ∷ [] in
    length d ≡ count_added d + count_removed d + count_changed d + count_resized d
length-counts_example =
    length-counts
      (change (str "c") (renamed (str "b")) ∷ change [] (size_changed (some 8) (some 4)) ∷ [])

-- The members of `{a, b}` in the other order.
first_byte : Str → ℕ
first_byte [] = 0
first_byte (x ∷ xs) = x

apart : (m n : ℕ) → m ≡ n → m < n → ⊥
apart m n e h = omega arith

ne_names : str "a" ≢ str "b"
unfolding first_byte
ne_names e = apart 97 98 (ap first_byte e) (omega arith)

diff_swapped_example :
    (diff (record_of (a ∷ b ∷ [])) (record_of (b ∷ a ∷ [])) ≡ [])
    × (record_of (a ∷ b ∷ []) ≢ record_of (b ∷ a ∷ []))
diff_swapped_example =
    diff_swapped (some (str "p")) RecordKind.struct (some 8) 97 98 [] [] (some 0) (some 32) none
      none i32 i32 ne_names

abbrev left_types : TypeMap
left_types =
    (str "p", record { canonical = i32; key = 1 })
    ∷ (str "q", record { canonical = bool; key = 2 })
    ∷ []

abbrev right_types : TypeMap
right_types = (str "p", record { canonical = i32; key = 1 }) ∷ []

distinct : DistinctNames left_types
unfolding idakit.Diff.Catalog.contains idakit.Base.str_eq
distinct = (refl, (refl, tt))

one_name : DistinctNames right_types
unfolding idakit.Diff.Catalog.contains
one_name = (refl, tt)

agrees-diff_catalogs_example :
    (agrees (diff_catalogs left_types right_types) ≡ true)
    ↔ ((n : Str) → key_of n left_types ≡ key_of n right_types)
agrees-diff_catalogs_example = agrees-diff_catalogs left_types right_types distinct one_name

diff_catalogs-IsPartition_example :
    IsPartition left_types right_types (diff_catalogs left_types right_types)
diff_catalogs-IsPartition_example = diff_catalogs-IsPartition left_types right_types one_name

-- One type resolves, and one does not.
abbrev resolved : List Resolved
resolved = (str "q", some bool) ∷ (str "p", none) ∷ []

type_catalog-IsBuilt_example :
    IsBuilt (λ t. 3) resolved ([], 0) (type_catalog (λ t. 3) resolved ([], 0))
type_catalog-IsBuilt_example = type_catalog-IsBuilt (λ t. 3) resolved ([], 0) tt
