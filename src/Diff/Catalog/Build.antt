-- ===== src/Diff/Catalog/Build.antt =====
-- crates/idakit/src/types/diff/catalog.rs: how a catalog is built.
use idakit.Base.{
  ℕ, suc, Bool, true, false, Option, none, some, List, [], ◌∷◌, ◌≡◌, refl, ◌∙◌, ap, Str, str_eq,
  str_eq_refl, str_eq_sound, All, if◌then◌else◌, arith, ◌+◌, str_lt, str_lt_trans, str_lt_total,
  str_eq_sym,
}
use idakit.Canonical.{CanonicalType}
use idakit.Diff.Catalog.{Entry, TypeMap, get, insert, type_catalog, Resolved}

-- Every name of the map is above the given one.
abbrev pub AllAbove : Str → TypeMap → Type 0
AllAbove n ts = All (λ p. str_lt n p.0 ≡ true) ts

-- The names are in strictly increasing order, as a `BTreeMap` holds them.
abbrev pub IsSorted : TypeMap → Type 0
IsSorted [] = Unit {0}
IsSorted ((n, e) ∷ ts) = AllAbove n ts × IsSorted ts

above_trans : (a b : Str) (ts : TypeMap) → str_lt a b ≡ true → AllAbove b ts → AllAbove a ts
above_trans a b [] h k = tt
above_trans a b ((n, e) ∷ ts) h k = (str_lt_trans a b n h k.0, above_trans a b ts h k.1)

insert-AllAbove :
    (a n : Str) (e : Entry) (ts : TypeMap)
    → str_lt a n ≡ true
    → AllAbove a ts
    → AllAbove a (insert n e ts)
unfolding insert
insert-AllAbove a n e [] h k = (h, tt)
insert-AllAbove a n e ((m, f) ∷ ts) h k = ground (arith, insert-AllAbove a n e ts)

insert-IsSorted : (n : Str) (e : Entry) (ts : TypeMap) → IsSorted ts → IsSorted (insert n e ts)
unfolding insert
insert-IsSorted n e [] h = (tt, tt)
insert-IsSorted n e ((m, f) ∷ ts) h =
    go (insert-IsSorted n e ts h.1) (str_eq m n) (str_lt n m) refl refl
  where
    go :
        IsSorted (insert n e ts)
        → (p q : Bool) → str_eq m n ≡ p
        → str_lt n m ≡ q
        → IsSorted
            (if p then (m, e) ∷ ts else if q then (n, e) ∷ (m, f) ∷ ts else (m, f) ∷ insert n e ts)
    go ih true q a b = h
    go ih false true a b = ((b, above_trans n m ts b h.0), h)
    go ih false false a b =
        (insert-AllAbove m n e ts (str_lt_total n m (str_eq_sym n m ∙ a) b) h.0, ih)

get-insert :
    (k n : Str) (e : Entry) (ts : TypeMap)
    → get k (insert n e ts) ≡ (if str_eq n k then some e else get k ts)
unfolding get insert
get-insert k n e [] = refl
get-insert k n e ((m, f) ∷ ts) = ground (
  arith,
  get-insert k n e ts,
  str_eq_sound m n,
  str_eq_sound m k,
  str_eq_sound n k,
  str_eq_refl k,
  str_eq_refl n,
)

-- The entry of the last of the resolved types of a name, or else what was there before.
abbrev pub last_of : (CanonicalType → ℕ) → Str → List Resolved → Option Entry → Option Entry
last_of key n [] before = before
last_of key n ((m, none) ∷ rs) before = last_of key n rs before
last_of key n ((m, some t) ∷ rs) before =
    last_of key n rs (if str_eq m n then some (record { canonical = t; key = key t }) else before)

-- How many of the types fail to resolve.
abbrev pub failures : List Resolved → ℕ
failures [] = 0
failures ((n, none) ∷ rs) = suc (failures rs)
failures ((n, some t) ∷ rs) = failures rs

-- What building a catalog on top of another gives.
pub record IsBuilt (key : CanonicalType → ℕ) (rs : List Resolved) (before after : TypeMap × ℕ)
    : Type 0 where
  pub sorted : IsSorted after.0
  pub entries : (n : Str) → get n after.0 ≡ last_of key n rs (get n before.0)
  pub skipped : after.1 ≡ before.1 + failures rs

-- A catalog built from the named types is sorted by name with no name twice; under each name it
-- holds the last type of that name that resolved, with its key; and it counts as skipped exactly
-- the types that failed to resolve. It starts from any sorted catalog, such as the empty one.
pub type_catalog-IsBuilt :
    (key : CanonicalType → ℕ) (rs : List Resolved) (c : TypeMap × ℕ)
    → IsSorted c.0
    → IsBuilt key rs c (type_catalog key rs c)
unfolding type_catalog
type_catalog-IsBuilt key [] (ts, k) h = record {
  sorted = h;
  entries = λ n. refl;
  skipped = omega arith;
}
type_catalog-IsBuilt key ((m, none) ∷ rs) (ts, k) h =
    let ih = type_catalog-IsBuilt key rs (ts, k + 1) h in
    record { sorted = ih.sorted; entries = ih.entries; skipped = omega (arith, ih.skipped) }
type_catalog-IsBuilt key ((m, some t) ∷ rs) (ts, k) h =
    let e : Entry = record { canonical = t; key = key t } in
    let ih = type_catalog-IsBuilt key rs (insert m e ts, k) (insert-IsSorted m e ts h) in
    record {
      sorted = ih.sorted;
      entries = λ n. ih.entries n ∙ ap (last_of key n rs) (get-insert n m e ts);
      skipped = ih.skipped;
    }
