-- ===== src/Diff/Change/Counts.antt =====
-- crates/idakit/src/types/diff/canonical/engine.rs: what the counters of `TypeDiff` add up to.
use idakit.Base.{ℕ, ◌+◌, ◌≡◌, ◌≢◌, refl, Bool, true, false, Option, some, [], ◌∷◌, length, arith}
use idakit.Diff.Change.{
  Change, ChangeKind, TypeDiff, size_changed, count_kinds, count_added, count_removed,
  count_changed, root_size, size_change,
}

-- The kind that none of the three counters counts.
unfoldable pub is_resized : ChangeKind → Bool
is_resized (size_changed l r) = true
is_resized _ = false

unfoldable pub count_resized : TypeDiff → ℕ
unfolding count_kinds is_resized
count_resized = count_kinds is_resized

counts_step :
    (c : Change) (cs : TypeDiff)
    → count_added (c ∷ cs)
        + count_removed (c ∷ cs)
        + count_changed (c ∷ cs)
        + count_resized (c ∷ cs)
      ≡ 1 + (count_added cs + count_removed cs + count_changed cs + count_resized cs)
unfolding count_added count_removed count_changed count_resized
counts_step c cs = ground arith

-- The changes fall into additions, removals, changes in place and resizes, with no overlap: the
-- length of a diff is the sum of the counters `added`, `removed` and `changed` and of the number
-- of its size changes.
pub length-counts :
    (d : TypeDiff) → length d ≡ count_added d + count_removed d + count_changed d + count_resized d
unfolding count_added count_removed count_changed count_resized
length-counts [] = refl
length-counts (c ∷ cs) = omega (arith, counts_step c cs, length-counts cs)

-- A size change that `size_change` reports is one of the resizes.
size_change-resized :
    (d : TypeDiff) {s : Option ℕ × Option ℕ} → size_change d ≡ some s → count_resized d ≢ 0
unfolding size_change root_size count_resized
size_change-resized [] h = cc
size_change-resized (c ∷ cs) {s} h = ground (arith, size_change-resized cs {s = s})
