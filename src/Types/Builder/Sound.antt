-- ===== src/Types/Builder/Sound.antt =====
-- crates/idakit/src/types/builder.rs: what the table, the names and the pending handles of a builder
-- have to do with each other, and that growing and filling the table keep it.
use idakit.Base.{
  Option, none, some, List, ◌∷◌, Str, >>=-some, ◌≡◌, ◌≢◌, refl, sym, ◌∙◌, ap, subst, ◌⊎◌, inl, inr,
}
use idakit.Arena.{alloc, put}
use idakit.Arena.Laws.{alloc_fresh_and_stable}
use idakit.Types.Table.{
  TypeId, TypeValue, TypeTable, table, tag_name, find_dedup, intern, intern_found, intern_new,
  alloc_placeholder, placeholder, fill, get_type,
}
use idakit.Types.Table.Intern.{
  IsConsistent, Extends, intern-IsInterned, IsReserved, find_dedup-cons, put-law, some_ne,
}
use idakit.Types.Builder.{find_name, find_pending}

-- The name's handle waits for the body, or reads a type of that name.
abbrev pub IsSettled : TypeTable → List (TypeId × Option Str) → Str → TypeId → Type 0
IsSettled t ps n i =
    (find_pending i ps ≡ some (some n))
    ⊎ ((find_pending i ps ≡ none)
        × (v : TypeValue) × (get_type t i ≡ some v)
        × (tag_name v.shape ≡ some n))

pub record IsSound (t : TypeTable) (ns : List (Str × TypeId)) (ps : List (TypeId × Option Str))
    : Type 0 where
  pub consistent : IsConsistent t
  -- A pending handle is valid, and interning never gives it out.
  pub reserved :
      (i : TypeId) (o : Option Str)
      → find_pending i ps ≡ some o
      → IsReserved i t × (v : TypeValue) × (get_type t i ≡ some v)
  pub names : (n : Str) (i : TypeId) → find_name n ns ≡ some i → IsSettled t ps n i

-- A table that has more entries, of which only new ones are recorded.
pub record IsGrown (t t' : TypeTable) : Type 0 where
  pub consistent : IsConsistent t'
  pub extends : Extends t t'
  pub recorded :
      (w : TypeValue) (i : TypeId)
      → find_dedup w t'.dedup ≡ some i
      → (find_dedup w t.dedup ≡ some i) ⊎ (get_type t i ≡ none)

pub IsGrown-IsSound :
    {t t' : TypeTable} {ns : List (Str × TypeId)} {ps : List (TypeId × Option Str)}
    → IsGrown t t'
    → IsSound t ns ps
    → IsSound t' ns ps
IsGrown-IsSound {t = t} {t' = t'} {ps = ps} g s = record {
  consistent = g.consistent;
  reserved = λ i o h. waits i (s.reserved i o h);
  names = λ n i h. settled n i (s.names n i h);
}
  where
    waits :
        (i : TypeId)
        → IsReserved i t × (v : TypeValue) × (get_type t i ≡ some v)
        → IsReserved i t' × (v : TypeValue) × (get_type t' i ≡ some v)
    waits i (r, v, e) = (
      λ w d. elim (g.recorded w i d) [ inl old ↦ r w old | inr new ↦ some_ne (sym new ∙ e) ],
      v,
      g.extends i v e,
    )

    settled : (n : Str) (i : TypeId) → IsSettled t ps n i → IsSettled t' ps n i
    settled n i (inl p) = inl p
    settled n i (inr (p, v, e, q)) = inr (p, v, g.extends i v e, q)

new_recorded :
    (v : TypeValue) (t : TypeTable) (k : TypeId)
    → get_type t k ≡ none
    → (w : TypeValue) (j : TypeId) → find_dedup w ((v, k) ∷ t.dedup) ≡ some j
    → (find_dedup w t.dedup ≡ some j) ⊎ (get_type t j ≡ none)
new_recorded v t k fresh w j d = elim (find_dedup-cons w v k j t.dedup d) [
  | inl (p, r) ↦ inr (subst (λ (x : TypeId). get_type t x ≡ none) r fresh)
  | inr r ↦ inl r
]

pair_right :
    {A B : Type 0} {a c : A} {b d : B}
    → ◌≡◌ {A = Option (A × B)} (some (a, b)) (some (c, d))
    → b ≡ d
pair_right h = cc

intern_new-recorded :
    (v : TypeValue) (t : TypeTable) (i : TypeId) (t' : TypeTable)
    → intern_new v t ≡ some (i, t')
    → (w : TypeValue) (j : TypeId) → find_dedup w t'.dedup ≡ some j
    → (find_dedup w t.dedup ≡ some j) ⊎ (get_type t j ≡ none)
unfolding intern_new get_type
intern_new-recorded v t i t' h w j d =
    let ((k, a), e, f) = >>=-some (alloc v t.arena) _ h in
    let made : table a ((v, k) ∷ t.dedup) ≡ t' = pair_right f in
    new_recorded v t k (alloc_fresh_and_stable v t.arena a k e).0 w j
      (ap (λ (x : TypeTable). find_dedup w x.dedup) made ∙ d)

intern-recorded :
    (v : TypeValue) (t : TypeTable) (i : TypeId) (t' : TypeTable) (o : Option TypeId)
    → intern_found v t o ≡ some (i, t')
    → (w : TypeValue) (j : TypeId) → find_dedup w t'.dedup ≡ some j
    → (find_dedup w t.dedup ≡ some j) ⊎ (get_type t j ≡ none)
unfolding intern_found
intern-recorded v t i t' (some k) q w j d =
    inl (ap (λ (x : TypeTable). find_dedup w x.dedup) (pair_right q) ∙ d)
intern-recorded v t i t' none q w j d = intern_new-recorded v t i t' q w j d

pub intern-IsGrown :
    (v : TypeValue) (t : TypeTable) (i : TypeId) (t' : TypeTable)
    → IsConsistent t
    → intern v t ≡ some (i, t')
    → IsGrown t t'
unfolding intern
intern-IsGrown v t i t' c h =
    let made = intern-IsInterned v t i t' c h in
    record {
      consistent = made.consistent;
      extends = made.extends;
      recorded = intern-recorded v t i t' (find_dedup v t.dedup) h;
    }

-- What reserving a handle does to the table.
pub record IsReserving (t : TypeTable) (i : TypeId) (t' : TypeTable) : Type 0 where
  pub fresh : get_type t i ≡ none
  pub reads : get_type t' i ≡ some placeholder
  pub extends : Extends t t'
  pub same : t'.dedup ≡ t.dedup

pub alloc-IsReserving :
    (t : TypeTable) (i : TypeId) (t' : TypeTable)
    → alloc_placeholder t ≡ some (i, t')
    → IsReserving t i t'
unfolding alloc_placeholder get_type
alloc-IsReserving t i t' h =
    let ((k, a), e, f) = >>=-some (alloc placeholder t.arena) _ h in
    let law = alloc_fresh_and_stable placeholder t.arena a k e in
    subst (λ (p : TypeId × TypeTable). IsReserving t p.0 p.1) (cc f)
      (record { fresh = law.0; reads = law.1; extends = law.2; same = refl })

IsReserving-IsConsistent :
    {t t' : TypeTable} {i : TypeId} → IsReserving t i t' → IsConsistent t → IsConsistent t'
IsReserving-IsConsistent r c w j h = r.extends j w (c w j (ap (find_dedup w) (sym r.same) ∙ h))

-- A handle that was just reserved is recorded for no value.
pub IsReserving-IsReserved :
    {t t' : TypeTable} {i : TypeId} → IsReserving t i t' → IsConsistent t → IsReserved i t'
IsReserving-IsReserved {i = i} r c w h =
    some_ne (sym r.fresh ∙ c w i (ap (find_dedup w) (sym r.same) ∙ h))

pub IsReserving-IsGrown :
    {t t' : TypeTable} {i : TypeId} → IsReserving t i t' → IsConsistent t → IsGrown t t'
IsReserving-IsGrown r c = record {
  consistent = IsReserving-IsConsistent r c;
  extends = r.extends;
  recorded = λ w j h. inl (ap (find_dedup w) (sym r.same) ∙ h);
}

-- What filling a handle does to the table.
pub record IsFilling (i : TypeId) (v : TypeValue) (t t' : TypeTable) : Type 0 where
  pub reads : get_type t' i ≡ some v
  pub kept : (m : TypeId) → i ≢ m → get_type t' m ≡ get_type t m
  pub same : t'.dedup ≡ t.dedup

pub fill-IsFilling :
    (i : TypeId) (v : TypeValue) (t t' : TypeTable) → fill i v t ≡ some t' → IsFilling i v t t'
unfolding fill get_type
fill-IsFilling i v t t' h =
    let (b, p, q) = >>=-some (put t.arena i v) _ h in
    let (read, kept) = put-law t.arena b i v p in
    subst (λ (x : TypeTable). IsFilling i v t x) (cc q)
      (record { reads = read; kept = kept; same = refl })
