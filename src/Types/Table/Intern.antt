-- ===== src/Types/Table/Intern.antt =====
-- crates/idakit/src/types/mod.rs: what interning promises.
use idakit.Base.{
  [], ◌∷◌, List, ltb, if◌then◌else◌, ◌++◌, ◌<◌, ◌^◌, Bool, true, false, Option, none, some, ◌≡◌,
  ◌≢◌, refl, sym, ◌∙◌, ap, subst, ite, if_pos, length, get_elem?, set, arith, inl, inr,
  get_elem?-set_self, get_elem?-set_ne, >>=-some, ◌⊎◌,
}
use idakit.Arena.{alloc, get, put}
use idakit.Arena.Laws.{alloc_fresh_and_stable}
use idakit.Types.Table.{
  TypeId, TypeValue, TypeValue-discrete, TypeTable, table, new_table, find_dedup, intern_new,
  intern_found, intern, placeholder, alloc_placeholder, fill, get_type,
}

-- Every handle that `dedup` gives for a value reads that value.
abbrev pub IsConsistent : TypeTable → Type 0
IsConsistent t =
    (v : TypeValue) (i : TypeId) → find_dedup v t.dedup ≡ some i → get_type t i ≡ some v

-- Handles that were valid read what they read.
abbrev pub Extends : TypeTable → TypeTable → Type 0
Extends t t' = (j : TypeId) (w : TypeValue) → get_type t j ≡ some w → get_type t' j ≡ some w

pub find_dedup-cons :
    (v w : TypeValue) (i j : TypeId) (d : List (TypeValue × TypeId))
    → find_dedup v ((w, i) ∷ d) ≡ some j
    → ((w ≡ v) × (i ≡ j)) ⊎ (find_dedup v d ≡ some j)
unfolding find_dedup
find_dedup-cons v w i j d h = go (TypeValue-discrete w v) h
  where
    go :
        (e : Dec (w ≡ v))
        → ite e (some i) (find_dedup v d) ≡ some j
        → ((w ≡ v) × (i ≡ j)) ⊎ (find_dedup v d ≡ some j)
    go (yes p) q = inl (p, cc q)
    go (no n) q = inr q

find_dedup_self :
    (v : TypeValue) (i : TypeId) (d : List (TypeValue × TypeId))
    → find_dedup v ((v, i) ∷ d) ≡ some i
unfolding find_dedup
find_dedup_self v i d = if_pos (TypeValue-discrete v v) refl _ _

-- What a call of `intern` leaves.
pub record IsInterned (v : TypeValue) (t : TypeTable) (i : TypeId) (t' : TypeTable) : Type 0 where
  pub reads : get_type t' i ≡ some v
  pub consistent : IsConsistent t'
  pub extends : Extends t t'
  pub again : intern v t' ≡ some (i, t')

intern_new-IsInterned :
    (v : TypeValue) (t : TypeTable) (i : TypeId) (t' : TypeTable)
    → IsConsistent t
    → intern_new v t ≡ some (i, t')
    → IsInterned v t i t'
unfolding intern_new get_type
intern_new-IsInterned v t i t' c h =
    let ((k, a), e, f) = >>=-some (alloc v t.arena) _ h in
    let law = alloc_fresh_and_stable v t.arena a k e in made k a law (cc f)
  where
    made :
        (k : TypeId) (a : List TypeValue)
        → (get t.arena k ≡ none)
          × (get a k ≡ some v)
          × ((j : TypeId) (y : TypeValue) → get t.arena j ≡ some y → get a j ≡ some y)
        → ◌≡◌ {A = TypeId × TypeTable} (k, table a ((v, k) ∷ t.dedup)) (i, t')
        → IsInterned v t i t'
    made k a law e =
        subst (λ (p : TypeId × TypeTable). IsInterned v t p.0 p.1) e
          (record {
            reads = law.1;
            consistent = λ w j q. elim (find_dedup-cons w v k j t.dedup q) [
              | inl (p, r) ↦ rw (← p, ← r) law.1
              | inr r ↦ law.2 j w (c w j r)
            ];
            extends = law.2;
            again = unfold intern intern_found in rw (find_dedup_self v k t.dedup);
          })

-- What interning leaves when it returns.
pub intern-IsInterned :
    (v : TypeValue) (t : TypeTable) (i : TypeId) (t' : TypeTable)
    → IsConsistent t
    → intern v t ≡ some (i, t')
    → IsInterned v t i t'
unfolding intern
intern-IsInterned v t i t' c h = go (find_dedup v t.dedup) refl h
  where
    go :
        (o : Option TypeId)
        → find_dedup v t.dedup ≡ o
        → intern_found v t o ≡ some (i, t')
        → IsInterned v t i t'
    go none e q = unfold intern_found in intern_new-IsInterned v t i t' c q
    go (some k) e q =
        unfold intern_found in
        subst (λ (p : TypeId × TypeTable). IsInterned v t p.0 p.1) (cc q)
          (record { reads = c v k e; consistent = c; extends = λ j w g. g; again = rw e })

intern_new-some :
    (v : TypeValue) (t : TypeTable)
    → length t.arena < 2 ^ 32
    → intern_new v t
      ≡ some (length t.arena, table (t.arena ++ (v ∷ [])) ((v, length t.arena) ∷ t.dedup))
unfolding intern_new alloc
intern_new-some v t h = ground arith

-- Interning a value in a consistent table that has room for one more entry returns a handle that
-- reads the value. It keeps the table consistent and every valid handle as it was; and interning the
-- value again gives the same handle and leaves the table as it is.
pub intern-IsInterned_total :
    (v : TypeValue) (t : TypeTable)
    → IsConsistent t
    → length t.arena < 2 ^ 32
    → (i : TypeId) × (t' : TypeTable) × (intern v t ≡ some (i, t')) × IsInterned v t i t'
intern-IsInterned_total v t c h = go (find_dedup v t.dedup) refl
  where
    done :
        (i : TypeId) (t' : TypeTable)
        → intern v t ≡ some (i, t')
        → (i : TypeId) × (t' : TypeTable) × (intern v t ≡ some (i, t')) × IsInterned v t i t'
    done i t' e = (i, t', e, intern-IsInterned v t i t' c e)

    go :
        (o : Option TypeId)
        → find_dedup v t.dedup ≡ o
        → (i : TypeId) × (t' : TypeTable) × (intern v t ≡ some (i, t')) × IsInterned v t i t'
    go none e =
        done (length t.arena) (table (t.arena ++ (v ∷ [])) ((v, length t.arena) ∷ t.dedup))
          (unfold intern intern_found in rw e (intern_new-some v t h))
    go (some k) e = done k t (unfold intern intern_found in rw e)

pub new_table-IsConsistent : IsConsistent new_table
unfolding new_table find_dedup
new_table-IsConsistent v i h = cc

-- No value is recorded under the handle.
abbrev pub IsReserved : TypeId → TypeTable → Type 0
IsReserved i t = (w : TypeValue) → find_dedup w t.dedup ≢ some i

pub some_ne : {x : TypeValue} → ◌≡◌ {A = Option TypeValue} none (some x) → ⊥
some_ne e = cc

some_table : {x y : TypeTable} → some x ≡ some y → x ≡ y
some_table e = cc

none_list : {b : List TypeValue} → ◌≡◌ {A = Option (List TypeValue)} none (some b) → ⊥
none_list e = cc

pub put-law :
    (a b : List TypeValue) (i : TypeId) (v : TypeValue)
    → put a i v ≡ some b
    → (get b i ≡ some v) × ((m : TypeId) → i ≢ m → get b m ≡ get a m)
unfolding put get
put-law a b i v p = go (ltb i (length a)) refl p
  where
    go :
        (w : Bool)
        → ltb i (length a) ≡ w
        → (if w then some (set a i v) else none) ≡ some b
        → (get_elem? b i ≡ some v) × ((m : TypeId) → i ≢ m → get_elem? b m ≡ get_elem? a m)
    go true e q =
        subst
          (λ (c : List TypeValue).
            (get_elem? c i ≡ some v) × ((m : TypeId) → i ≢ m → get_elem? c m ≡ get_elem? a m))
          (cc q) (get_elem?-set_self a i v (ground arith), λ m n. get_elem?-set_ne a v n)
    go false e q = absurd (none_list q)

-- A handle reserved by `alloc_placeholder` in a consistent table is recorded for no value, and
-- filling it with any value keeps the table consistent: the handle is then still recorded for no
-- value, it reads the value that it was filled with, and every handle that was valid before the
-- placeholder was allocated reads what it read then.
pub fill_placeholder :
    (v : TypeValue) (t t' t'' : TypeTable) (i : TypeId)
    → IsConsistent t
    → alloc_placeholder t ≡ some (i, t')
    → fill i v t' ≡ some t''
    → IsReserved i t'
      × IsReserved i t''
      × IsConsistent t''
      × (get_type t'' i ≡ some v)
      × Extends t t''
unfolding alloc_placeholder fill get_type
fill_placeholder v t t' t'' i c h k =
    let ((j, a), e, f) = >>=-some (alloc placeholder t.arena) _ h in
    let (b, p, q) = >>=-some (put t'.arena i v) _ k in
    let at : j ≡ i = cc f in
    let made : table a t.dedup ≡ t' = cc f in
    let law = alloc_fresh_and_stable placeholder t.arena a j e in
    let (read, kept) = put-law t'.arena b i v p in
    let reserved : (w : TypeValue) → find_dedup w t.dedup ≢ some i =
      λ w r. some_ne (sym law.0 ∙ ap (get t.arena) at ∙ c w i r) in
    let old : (m : TypeId) (w : TypeValue) → get t.arena m ≡ some w → get b m ≡ some w = λ m w g.
      kept m (λ d. some_ne (sym law.0 ∙ ap (get t.arena) (at ∙ d) ∙ g))
      ∙ ap (λ (x : TypeTable). get x.arena m) (sym made)
      ∙ law.2 m w g in
    (
      subst (λ (x : TypeTable). (w : TypeValue) → find_dedup w x.dedup ≢ some i) made reserved,
      subst (λ (x : TypeTable). (w : TypeValue) → find_dedup w x.dedup ≢ some i)
          (ap (λ (x : TypeTable). table b x.dedup) made ∙ some_table q) reserved,
      subst
          (λ (x : TypeTable).
            (w : TypeValue) (m : TypeId) → find_dedup w x.dedup ≡ some m → get x.arena m ≡ some w)
          (ap (λ (x : TypeTable). table b x.dedup) made ∙ cc q) (λ w m g. old m w (c w m g)),
      rw (← (some_table q)) read,
      λ m w g. rw (← (some_table q)) (old m w g),
    )
