-- ===== src/Diff/Catalog/Lists.antt =====
-- crates/idakit/src/types/diff/catalog.rs: which names stand in which list of the partition.
use idakit.Base.{
  IsIn, Bool, true, false, Option, none, some, List, [], ◌∷◌, ◌≡◌, ◌≢◌, ◌↔◌, ◌⊎◌, refl, sym, ◌∙◌,
  ap, Str, if◌then◌else◌, ◌==◌, arith, Bool-cases, suc, inl, inr, length, ◌+◌,
}
use idakit.Diff.Change.{TypeDiff}
use idakit.Diff.Engine.{diff}
use idakit.Diff.Catalog.{
  Entry, TypeMap, get, contains, CatalogDiff, classify, classify_all, names_missing, diff_catalogs,
}
use idakit.Diff.Catalog.Partition.{DistinctNames}
use idakit.Diff.Catalog.Entries.{
  none_entry, some_entry, false_ne, get-IsIn, IsIn-get, Has, Has-step, IsAbsent, get-IsAbsent,
  contains-IsAbsent,
}

-- What the three lists say of the left entry of a name, from what the right one reads.
abbrev Same : Option Entry → Entry → Type 0
Same o e = (f : Entry) × (o ≡ some f) × (e.key ≡ f.key)

abbrev Drifted : Option Entry → TypeDiff → Entry → Type 0
Drifted o td e = (f : Entry) × (o ≡ some f) × (e.key ≢ f.key) × (td ≡ diff e.canonical f.canonical)

classify-identical :
    (n m : Str) (e : Entry) (o : Option Entry) (d : CatalogDiff)
    → IsIn n (classify m e o d).identical ↔ (((n ≡ m) × Same o e) ⊎ IsIn n d.identical)
unfolding classify
classify-identical n m e none d =
    (λ h. inr h, λ k. elim k [ inl (q, (f, r, s)) ↦ absurd (none_entry r) | inr h ↦ h ])
classify-identical n m e (some f) d = elim (Bool-cases (e.key == f.key)) [
  | inl q ↦
      let same : e.key ≡ f.key = ground arith in
      rw q (
        λ k. elim k [ inl p ↦ inl (p, (f, refl, same)) | inr h ↦ inr h ],
        λ k. elim k [ inl (p, r) ↦ inl p | inr h ↦ inr h ],
      )
  | inr q ↦
      let other : e.key ≢ f.key = λ s. ground arith in
      rw q (
        λ h. inr h,
        λ k. elim k [
          | inl (p, (g, r, s)) ↦ absurd (other (s ∙ ap (λ (x : Entry). x.key) (sym (some_entry r))))
          | inr h ↦ h
        ],
      )
]

classify-drifted :
    (n m : Str) (td : TypeDiff) (e : Entry) (o : Option Entry) (d : CatalogDiff)
    → IsIn (n, td) (classify m e o d).drifted
      ↔ (((n ≡ m) × Drifted o td e) ⊎ IsIn (n, td) d.drifted)
unfolding classify
classify-drifted n m td e none d =
    (λ h. inr h, λ k. elim k [ inl (q, (f, r, s, t)) ↦ absurd (none_entry r) | inr h ↦ h ])
classify-drifted n m td e (some f) d = elim (Bool-cases (e.key == f.key)) [
  | inl q ↦
      let same : e.key ≡ f.key = ground arith in
      rw q (
        λ h. inr h,
        λ k. elim k [
          | inl (p, (g, r, s, t)) ↦ absurd (s (same ∙ ap (λ (x : Entry). x.key) (some_entry r)))
          | inr h ↦ h
        ],
      )
  | inr q ↦
      let other : e.key ≢ f.key = λ s. ground arith in
      rw q (
        λ k. elim k [ inl p ↦ inl (cc p, (f, refl, other, cc p)) | inr h ↦ inr h ],
        λ k. elim k [
          | inl (p, (g, r, s, t)) ↦
              inl (cc (p, t, ap (λ (x : Entry). diff e.canonical x.canonical) (some_entry r)))
          | inr h ↦ inr h
        ],
      )
]

classify-only_left :
    (n m : Str) (e : Entry) (o : Option Entry) (d : CatalogDiff)
    → IsIn n (classify m e o d).only_left ↔ (((n ≡ m) × (o ≡ none)) ⊎ IsIn n d.only_left)
unfolding classify
classify-only_left n m e none d = (
  λ k. elim k [ inl p ↦ inl (p, refl) | inr h ↦ inr h ],
  λ k. elim k [ inl (p, r) ↦ inl p | inr h ↦ inr h ],
)
classify-only_left n m e (some f) d = elim (Bool-cases (e.key == f.key)) [
  | inl q ↦ rw q (λ h. inr h, λ k. elim k [ inl (p, r) ↦ absurd (none_entry (sym r)) | inr h ↦ h ])
  | inr q ↦ rw q (λ h. inr h, λ k. elim k [ inl (p, r) ↦ absurd (none_entry (sym r)) | inr h ↦ h ])
]

classify_all-identical :
    (n : Str) (left right : TypeMap)
    → IsIn n (classify_all left right).identical ↔ Has (Same (get n right)) n left
unfolding classify_all
classify_all-identical n [] right = (λ h. absurd h, λ h. absurd h.1)
classify_all-identical n ((m, e) ∷ ts) right =
    Has-step (λ k. Same (get k right)) n m e ts
      (classify-identical n m e (get m right) (classify_all ts right))
      (classify_all-identical n ts right)

classify_all-drifted :
    (n : Str) (td : TypeDiff) (left right : TypeMap)
    → IsIn (n, td) (classify_all left right).drifted ↔ Has (Drifted (get n right) td) n left
unfolding classify_all
classify_all-drifted n td [] right = (λ h. absurd h, λ h. absurd h.1)
classify_all-drifted n td ((m, e) ∷ ts) right =
    Has-step (λ k. Drifted (get k right) td) n m e ts
      (classify-drifted n m td e (get m right) (classify_all ts right))
      (classify_all-drifted n td ts right)

classify_all-only_left :
    (n : Str) (left right : TypeMap)
    → IsIn n (classify_all left right).only_left ↔ Has (λ e. get n right ≡ none) n left
unfolding classify_all
classify_all-only_left n [] right = (λ h. absurd h, λ h. absurd h.1)
classify_all-only_left n ((m, e) ∷ ts) right =
    Has-step (λ k f. get k right ≡ none) n m e ts
      (classify-only_left n m e (get m right) (classify_all ts right))
      (classify_all-only_left n ts right)

names_missing-cons :
    (n m : Str) (b : Bool) (rest : List Str)
    → IsIn n (if b then rest else m ∷ rest) ↔ (((n ≡ m) × (b ≡ false)) ⊎ IsIn n rest)
names_missing-cons n m true rest =
    (λ h. inr h, λ k. elim k [ inl p ↦ absurd (false_ne p.1) | inr h ↦ h ])
names_missing-cons n m false rest = (
  λ k. elim k [ inl p ↦ inl (p, refl) | inr h ↦ inr h ],
  λ k. elim k [ inl p ↦ inl p.0 | inr h ↦ inr h ],
)

names_missing-Has :
    (n : Str) (ts left : TypeMap)
    → IsIn n (names_missing ts left) ↔ Has (λ e. contains n left ≡ false) n ts
unfolding names_missing
names_missing-Has n [] left = (λ h. absurd h, λ h. absurd h.1)
names_missing-Has n ((m, e) ∷ ts) left =
    Has-step (λ k f. contains k left ≡ false) n m e ts
      (names_missing-cons n m (contains m left) (names_missing ts left))
      (names_missing-Has n ts left)

length-classify :
    (n : Str) (e : Entry) (o : Option Entry) (d : CatalogDiff)
    → length (classify n e o d).identical
        + length (classify n e o d).drifted
        + length (classify n e o d).only_left
      ≡ suc (length d.identical + length d.drifted + length d.only_left)
unfolding classify
length-classify n e none d = omega arith
length-classify n e (some f) d = ground arith

length-classify_all :
    (left right : TypeMap)
    → length (classify_all left right).identical
        + length (classify_all left right).drifted
        + length (classify_all left right).only_left
      ≡ length left
unfolding classify_all
length-classify_all [] right = refl
length-classify_all ((n, e) ∷ ts) right =
    omega (
      arith,
      length-classify_all ts right,
      length-classify n e (get n right) (classify_all ts right),
    )

-- Which names stand in which list: those with equal keys in both catalogs, those with different keys
-- and the difference of their types, and those of one catalog alone. Each entry of the left catalog
-- gives one name to one list.
pub record IsPartition (left right : TypeMap) (d : CatalogDiff) : Type 0 where
  pub identical_iff :
      (n : Str)
      → IsIn n d.identical
        ↔ ((e : Entry) × IsIn (n, e) left × (f : Entry) × IsIn (n, f) right × (e.key ≡ f.key))
  pub drifted_iff :
      (n : Str) (td : TypeDiff)
      → IsIn (n, td) d.drifted ↔ (
          (e : Entry) × IsIn (n, e) left
          × (f : Entry) × IsIn (n, f) right
          × (e.key ≢ f.key)
          × (td ≡ diff e.canonical f.canonical))
  pub only_left_iff :
      (n : Str) → IsIn n d.only_left ↔ ((e : Entry) × IsIn (n, e) left × IsAbsent n right)
  pub only_right_iff :
      (n : Str) → IsIn n d.only_right ↔ ((e : Entry) × IsIn (n, e) right × IsAbsent n left)
  pub count : length d.identical + length d.drifted + length d.only_left ≡ length left

-- The difference of two catalogs partitions their names, which are distinct in the right catalog.
-- The identical names are those with equal keys in both, the drifted ones those with different keys,
-- each with the difference of its two types, and the others are those of the left or of the right
-- catalog alone. The first three lists have as many entries together as the left catalog.
pub diff_catalogs-IsPartition :
    (left right : TypeMap) → DistinctNames right → IsPartition left right (diff_catalogs left right)
unfolding diff_catalogs
diff_catalogs-IsPartition left right d = record {
  identical_iff = λ n.
      let (there, back) = classify_all-identical n left right in
      (
        λ h. let (e, i, (f, g, k)) = there h in (e, i, f, get-IsIn n right f g, k),
        λ (e, i, f, j, k). back (e, i, (f, IsIn-get n right f d j, k)),
      );
  drifted_iff = λ n td.
      let (there, back) = classify_all-drifted n td left right in
      (
        λ h. let (e, i, (f, g, k, t)) = there h in (e, i, f, get-IsIn n right f g, k, t),
        λ (e, i, f, j, k, t). back (e, i, (f, IsIn-get n right f d j, k, t)),
      );
  only_left_iff = λ n.
      let (there, back) = classify_all-only_left n left right in
      let absent = get-IsAbsent n right d in
      (λ h. let (e, i, g) = there h in (e, i, absent.0 g), λ (e, i, g). back (e, i, absent.1 g));
  only_right_iff = λ n.
      let (there, back) = names_missing-Has n right left in
      let absent = contains-IsAbsent n left in
      (λ h. let (e, i, g) = there h in (e, i, absent.0 g), λ (e, i, g). back (e, i, absent.1 g));
  count = length-classify_all left right;
}
