-- ===== src/Diff/Catalog/Entries.antt =====
-- crates/idakit/src/types/diff/catalog.rs: the entries of a catalog, and the names that have one.
use idakit.Base.{
  IsIn, Bool, true, false, Option, none, some, [], ◌∷◌, ◌≡◌, ◌↔◌, ◌⊎◌, refl, sym, ◌∙◌, ap, Str,
  str_eq, str_eq_refl, str_eq_sound, if◌then◌else◌, arith, Option-cases, Bool-cases, inl, inr,
  subst,
}
use idakit.Diff.Catalog.{Entry, TypeMap, get, contains}
use idakit.Diff.Catalog.Partition.{DistinctNames}

pub none_entry : {e : Entry} → ◌≡◌ {A = Option Entry} none (some e) → ⊥
none_entry h = cc

pub some_entry : {e f : Entry} → some e ≡ some f → e ≡ f
some_entry h = cc

pub false_ne : true ≡ false → ⊥
false_ne e = cc

pub get-IsIn : (n : Str) (ts : TypeMap) (e : Entry) → get n ts ≡ some e → IsIn (n, e) ts
unfolding get
get-IsIn n [] e h = absurd (none_entry h)
get-IsIn n ((m, f) ∷ ts) e h = go (get-IsIn n ts e) (str_eq m n) refl h
  where
    go :
        (get n ts ≡ some e → IsIn (n, e) ts)
        → (b : Bool) → str_eq m n ≡ b
        → (if b then some f else get n ts) ≡ some e
        → IsIn (n, e) ((m, f) ∷ ts)
    go ih true q k = inl (cc (str_eq_sound m n q, k))
    go ih false q k = inr (ih k)

IsIn-contains : (n : Str) (ts : TypeMap) (e : Entry) → IsIn (n, e) ts → contains n ts ≡ true
unfolding contains
IsIn-contains n [] e h = absurd h
IsIn-contains n ((m, f) ∷ ts) e (inl h) =
    let same : m ≡ n = cc h in let q : str_eq m n ≡ true = rw same (str_eq_refl n) in rw q
IsIn-contains n ((m, f) ∷ ts) e (inr h) = go (IsIn-contains n ts e h) (str_eq m n)
  where
    go : contains n ts ≡ true → (b : Bool) → (if b then true else contains n ts) ≡ true
    go ih true = refl
    go ih false = ih

contains-IsIn : (n : Str) (ts : TypeMap) → contains n ts ≡ true → (e : Entry) × IsIn (n, e) ts
unfolding contains
contains-IsIn n [] h = absurd (ground (arith, h))
contains-IsIn n ((m, f) ∷ ts) h = go (contains-IsIn n ts) (str_eq m n) refl h
  where
    go :
        (contains n ts ≡ true → (e : Entry) × IsIn (n, e) ts)
        → (b : Bool) → str_eq m n ≡ b
        → (if b then true else contains n ts) ≡ true
        → (e : Entry) × IsIn (n, e) ((m, f) ∷ ts)
    go ih true q k = (f, inl (ap (λ (x : Str). (x, f)) (sym (str_eq_sound m n q))))
    go ih false q k = let (e, i) = ih k in (e, inr i)

pub IsIn-get :
    (n : Str) (ts : TypeMap) (e : Entry) → DistinctNames ts → IsIn (n, e) ts → get n ts ≡ some e
unfolding get
IsIn-get n [] e d h = absurd h
IsIn-get n ((m, f) ∷ ts) e d (inl h) =
    let same : m ≡ n = cc h in let q : str_eq m n ≡ true = rw same (str_eq_refl n) in rw q (cc h)
IsIn-get n ((m, f) ∷ ts) e d (inr h) = go (IsIn-get n ts e d.1 h) (str_eq m n) refl
  where
    go : get n ts ≡ some e → (b : Bool) → str_eq m n ≡ b → (if b then some f else get n ts) ≡ some e
    go ih true q =
        let there : contains m ts ≡ true =
          subst (λ (x : Str). contains x ts ≡ true) (sym (str_eq_sound m n q))
            (IsIn-contains n ts e h) in
        absurd (false_ne (sym there ∙ d.0))
    go ih false q = ih

-- The name has an entry of which `P` holds.
abbrev pub Has : (Entry → Type 0) → Str → TypeMap → Type 0
Has P n ts = (e : Entry) × IsIn (n, e) ts × P e

Has-cons :
    (P : Entry → Type 0) (n m : Str) (f : Entry) (ts : TypeMap)
    → (((n ≡ m) × P f) ⊎ Has P n ts) ↔ Has P n ((m, f) ∷ ts)
Has-cons P n m f ts = (there, back)
  where
    there : ((n ≡ m) × P f) ⊎ Has P n ts → Has P n ((m, f) ∷ ts)
    there (inl (q, p)) = (f, inl (ap (λ (x : Str). (x, f)) q), p)
    there (inr (e, i, p)) = (e, inr i, p)

    back : Has P n ((m, f) ∷ ts) → ((n ≡ m) × P f) ⊎ Has P n ts
    back (e, inl q, p) = let same : e ≡ f = cc q in inl (cc q, subst P same p)
    back (e, inr i, p) = inr (e, i, p)

-- One entry more, for a list whose names are those of the entries of which `P` holds.
pub Has-step :
    {A B : Type 0} (P : Str → Entry → Type 0) (n m : Str) (e : Entry) (ts : TypeMap)
    → A ↔ (((n ≡ m) × P m e) ⊎ B)
    → B ↔ Has (P n) n ts
    → A ↔ Has (P n) n ((m, e) ∷ ts)
Has-step {A = A} {B = B} P n m e ts step rest = (
  λ a. (Has-cons (P n) n m e ts).0 (there (step.0 a)),
  λ h. step.1 (back ((Has-cons (P n) n m e ts).1 h)),
)
  where
    there : ((n ≡ m) × P m e) ⊎ B → ((n ≡ m) × P n e) ⊎ Has (P n) n ts
    there (inl (q, p)) = inl (q, subst (λ k. P k e) (sym q) p)
    there (inr b) = inr (rest.0 b)

    back : ((n ≡ m) × P n e) ⊎ Has (P n) n ts → ((n ≡ m) × P m e) ⊎ B
    back (inl (q, p)) = inl (q, subst (λ k. P k e) q p)
    back (inr h) = inr (rest.1 h)

-- The name has no entry.
abbrev pub IsAbsent : Str → TypeMap → Type 0
IsAbsent n ts = (e : Entry) → ¬ IsIn (n, e) ts

pub get-IsAbsent : (n : Str) (ts : TypeMap) → DistinctNames ts → (get n ts ≡ none) ↔ IsAbsent n ts
get-IsAbsent n ts d = (
  λ h e i. none_entry (sym h ∙ IsIn-get n ts e d i),
  λ h. elim (Option-cases (get n ts)) [ inl q ↦ q | inr (e, q) ↦ absurd (h e (get-IsIn n ts e q)) ],
)

pub contains-IsAbsent : (n : Str) (ts : TypeMap) → (contains n ts ≡ false) ↔ IsAbsent n ts
contains-IsAbsent n ts = (
  λ h e i. false_ne (sym (IsIn-contains n ts e i) ∙ h),
  λ h. elim (Bool-cases (contains n ts)) [
    | inl q ↦ let (e, i) = contains-IsIn n ts q in absurd (h e i)
    | inr q ↦ q
  ],
)
