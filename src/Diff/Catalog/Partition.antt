-- ===== src/Diff/Catalog/Partition.antt =====
-- crates/idakit/src/types/diff/catalog.rs: what the partition of two catalogs says of them.
use idakit.Base.{
  ℕ, Bool, true, false, Option, none, some, [], ◌∷◌, ◌≡◌, ◌↔◌, refl, sym, ◌∙◌, ap, Str, str_eq,
  str_eq_refl, str_eq_sound, All, if◌then◌else◌, ==_iff, ◌&&◌, arith, Option-cases, inl, inr, subst,
}
use idakit.Diff.Catalog.{
  Entry, TypeMap, get, contains, CatalogDiff, classify, classify_all, names_missing, diff_catalogs,
  agrees, none_left,
}

abbrev pub key_at : Option Entry → Option ℕ
key_at none = none
key_at (some e) = some e.key

-- The key that a catalog has for a name.
abbrev pub key_of : Str → TypeMap → Option ℕ
key_of n ts = key_at (get n ts)

-- No name stands twice, as in a `BTreeMap`.
abbrev pub DistinctNames : TypeMap → Type 0
DistinctNames [] = Unit {0}
DistinctNames ((n, e) ∷ ts) = (contains n ts ≡ false) × DistinctNames ts

contains-get : (n : Str) (ts : TypeMap) → contains n ts ≡ true → (e : Entry) × (get n ts ≡ some e)
unfolding contains get
contains-get n [] h = absurd (ground (arith, h))
contains-get n ((m, e) ∷ ts) h = go (contains-get n ts) (str_eq m n) h
  where
    go :
        (contains n ts ≡ true → (f : Entry) × (get n ts ≡ some f))
        → (b : Bool) → (if b then true else contains n ts) ≡ true
        → (f : Entry) × ((if b then some e else get n ts) ≡ some f)
    go ih true k = (e, refl)
    go ih false k = ih k

contains-some : (n : Str) (ts : TypeMap) (k : ℕ) → key_of n ts ≡ some k → contains n ts ≡ true
unfolding contains get
contains-some n [] k h = cc
contains-some n ((m, e) ∷ ts) k h = go (contains-some n ts k) (str_eq m n) h
  where
    go :
        (key_of n ts ≡ some k → contains n ts ≡ true)
        → (b : Bool) → key_at (if b then some e else get n ts) ≡ some k
        → (if b then true else contains n ts) ≡ true
    go ih true q = refl
    go ih false q = ih q

-- Every entry of the left has its key in the right.
abbrev KeysIn : TypeMap → TypeMap → Type 0
KeysIn left right = All (λ p. key_of p.0 right ≡ some p.1.key) left

abbrev no_drift : CatalogDiff → Bool
no_drift d = none_left d.drifted && none_left d.only_left

none_key : {k : ℕ} → ◌≡◌ {A = Option ℕ} none (some k) → ⊥
none_key h = cc

classify-no_drift :
    (n : Str) (e : Entry) (o : Option Entry) (d : CatalogDiff)
    → (no_drift (classify n e o d) ≡ true) ↔ ((key_at o ≡ some e.key) × (no_drift d ≡ true))
unfolding classify
classify-no_drift n e none d = (λ h. absurd (ground (arith, h)), λ h. absurd (none_key h.0))
classify-no_drift n e (some f) d = ground (arith, ==_iff e.key f.key)

classify_all-no_drift :
    (left right : TypeMap) → (no_drift (classify_all left right) ≡ true) ↔ KeysIn left right
unfolding classify_all
classify_all-no_drift [] right = (λ h. tt, λ h. refl)
classify_all-no_drift ((n, e) ∷ ts) right =
    let step = classify-no_drift n e (get n right) (classify_all ts right) in
    let rest = classify_all-no_drift ts right in
    (λ h. ((step.0 h).0, rest.0 (step.0 h).1), λ h. step.1 (h.0, rest.1 h.1))

names_missing-none :
    (ts left : TypeMap)
    → (none_left (names_missing ts left) ≡ true) ↔ All (λ p. contains p.0 left ≡ true) ts
unfolding names_missing
names_missing-none [] left = (λ h. tt, λ h. refl)
names_missing-none ((n, e) ∷ ts) left = go (names_missing-none ts left) (contains n left)
  where
    go :
        ((none_left (names_missing ts left) ≡ true) ↔ All (λ p. contains p.0 left ≡ true) ts)
        → (b : Bool)
        → (none_left (if b then names_missing ts left else n ∷ names_missing ts left) ≡ true)
          ↔ ((b ≡ true) × All (λ p. contains p.0 left ≡ true) ts)
    go rest true = (λ h. (refl, rest.0 h), λ h. rest.1 h.1)
    go rest false = (λ h. absurd (ground (arith, h)), λ h. absurd (ground (arith, h)))

All-get :
    (P : Str × Entry → Type 0) (n : Str) (e : Entry) (ts : TypeMap)
    → All P ts
    → get n ts ≡ some e
    → P (n, e)
unfolding get
All-get P n e [] h g = absurd (none_entry g)
  where
    none_entry : ◌≡◌ {A = Option Entry} none (some e) → ⊥
    none_entry q = cc
All-get P n e ((m, f) ∷ ts) h g = go (str_eq m n) refl g (All-get P n e ts h.1)
  where
    go :
        (b : Bool)
        → str_eq m n ≡ b
        → (if b then some f else get n ts) ≡ some e
        → (get n ts ≡ some e → P (n, e))
        → P (n, e)
    go true q k ih = subst P (cc (str_eq_sound m n q, k)) h.0
    go false q k ih = ih k

false_ne : true ≡ false → ⊥
false_ne e = cc

-- With distinct names every entry is the one that its name reads.
get-All :
    (P : Str × Entry → Type 0) (all ts : TypeMap)
    → ((n : Str) (e : Entry) → get n ts ≡ some e → get n all ≡ some e)
    → DistinctNames ts
    → ((n : Str) (e : Entry) → get n all ≡ some e → P (n, e))
    → All P ts
unfolding get
get-All P all [] sub d h = tt
get-All P all ((n, e) ∷ ts) sub d h =
    (h n e (sub n e (here n e ts)), get-All P all ts (λ k f g. sub k f (later k f g)) d.1 h)
  where
    here : (n : Str) (e : Entry) (ts : TypeMap) → get n ((n, e) ∷ ts) ≡ some e
    here n e ts = rw (str_eq_refl n)

    later : (k : Str) (f : Entry) → get k ts ≡ some f → get k ((n, e) ∷ ts) ≡ some f
    later k f g = go (str_eq n k) refl
      where
        go : (b : Bool) → str_eq n k ≡ b → (if b then some e else get k ts) ≡ some f
        go true q =
            let there : contains n ts ≡ true =
              subst (λ (x : Str). contains x ts ≡ true) (sym (str_eq_sound n k q))
                (contains-some k ts f.key (ap key_at g)) in
            absurd (false_ne (sym there ∙ d.0))
        go false q = g

-- The lists of the partition, without the right-hand names.
none_left-agrees :
    (left right : TypeMap)
    → (agrees (diff_catalogs left right) ≡ true) ↔ (
        (no_drift (classify_all left right) ≡ true) × (none_left (names_missing right left) ≡ true))
unfolding agrees diff_catalogs
none_left-agrees left right = ground arith

missing-key : (n : Str) (ts : TypeMap) → contains n ts ≡ false → get n ts ≡ none
unfolding contains get
missing-key n [] h = refl
missing-key n ((m, e) ∷ ts) h = ground (arith, missing-key n ts)

-- The difference of two catalogs is empty exactly when they give every name the same key, or both
-- none. The names of a catalog are distinct.
pub agrees-diff_catalogs :
    (left right : TypeMap)
    → DistinctNames left
    → DistinctNames right
    → (agrees (diff_catalogs left right) ≡ true) ↔ ((n : Str) → key_of n left ≡ key_of n right)
agrees-diff_catalogs left right dl dr = (
  λ h.
      let p = (none_left-agrees left right).0 h in
      let keys = (classify_all-no_drift left right).0 p.0 in
      let names = (names_missing-none right left).0 p.1 in λ n. same keys names n,
  λ h. (none_left-agrees left right).1 (
    (classify_all-no_drift left right).1 (
        get-All (λ p. key_of p.0 right ≡ some p.1.key) left left (λ n e g. g) dl
          (λ n e g. sym (h n) ∙ ap key_at g)),
    (names_missing-none right left).1 (
        get-All (λ p. contains p.0 left ≡ true) right right (λ n e g. g) dr
          (λ n e g. contains-some n left e.key (h n ∙ ap key_at g))),
  ),
)
  where
    same :
        KeysIn left right
        → All (λ p. contains p.0 left ≡ true) right
        → (n : Str) → key_of n left ≡ key_of n right
    same keys names n = elim (Option-cases (get n left)) [
      | inr (e, g) ↦
          ap key_at g ∙ sym (All-get (λ p. key_of p.0 right ≡ some p.1.key) n e left keys g)
      | inl g ↦ elim (Option-cases (get n right)) [
        | inl k ↦ ap key_at (g ∙ sym k)
        | inr (e, k) ↦
            let (f, there) =
              contains-get n left (All-get (λ p. contains p.0 left ≡ true) n e right names k) in
            absurd (none_entry f (sym g ∙ there))
      ]
    ]
      where
        none_entry : (f : Entry) → ◌≡◌ {A = Option Entry} none (some f) → ⊥
        none_entry f q = cc
