-- ===== src/Types/Builder/Handlers.antt =====
-- crates/idakit/src/types/builder.rs: each callback keeps the builder sound.
use idakit.Base.{
  ℕ, Bool, true, false, Option, none, some, List, ◌∷◌, Str, if◌then◌else◌, ltb, >>=-some, ◌≡◌, ◌∙◌,
  ap, subst,
}
use idakit.Types.Table.{
  TypeId, TypeValue, TypeTable, TypeMember, EnumMember, ValueRepr, tag_name, intern,
  alloc_placeholder, fill,
}
use idakit.Types.Builder.{
  TypeBuilder, value, find_pending, intern_value, reserve, fill_value, type_size, scalar,
  reserve_name, known_or, anon, flatten, taken_name, without_pending, fill_struct, fill_enum,
  fill_typedef, name_or_empty, scalar_shape, opt_size, note_too_wide,
}
use idakit.Types.Builder.Sound.{
  IsSound, IsGrown-IsSound, intern-IsGrown, alloc-IsReserving, fill-IsFilling,
}
use idakit.Types.Builder.Pending.{anon-IsSound, reserve_name-IsSound, fill-IsSound}

abbrev pub Sound : TypeBuilder → Type 0
Sound b = IsSound b.table b.name2type b.pending

some_pair :
    {A B : Type 0} {a c : A} {b d : B}
    → ◌≡◌ {A = Option (A × B)} (some (a, b)) (some (c, d))
    → b ≡ d
some_pair h = cc

pub none_ne : {A : Type 0} {a : A} → ◌≡◌ {A = Option A} none (some a) → ⊥
none_ne e = cc

some_same : {A : Type 0} {a b : A} → some a ≡ some b → a ≡ b
some_same e = cc

pub intern_value-Sound :
    (v : TypeValue) (b b' : TypeBuilder) (i : TypeId)
    → intern_value v b ≡ some (i, b')
    → Sound b
    → Sound b'
unfolding intern_value
intern_value-Sound v b b' i h s =
    let ((k, t), e, f) = >>=-some (intern v b.table) _ h in
    subst Sound (some_pair f) (IsGrown-IsSound (intern-IsGrown v b.table k t s.consistent e) s)

-- What reserving a handle leaves, for any statement of it.
reserve_lem :
    (b : TypeBuilder) (p : TypeId × TypeBuilder) (P : TypeId × TypeBuilder → Type 0)
    → reserve b ≡ some p
    → ((m : TypeId) (t : TypeTable)
        → alloc_placeholder b.table ≡ some (m, t)
        → P (m, record b { table = t }))
    → P p
unfolding reserve
reserve_lem b p P h k =
    let ((m, t), d, g) = >>=-some (alloc_placeholder b.table) _ h in subst P (some_same g) (k m t d)

reserve_name-Sound :
    (n : Str) (b b' : TypeBuilder) (i : TypeId)
    → reserve_name n b ≡ some (i, b')
    → Sound b
    → Sound b'
unfolding reserve_name
reserve_name-Sound n b b' i h s =
    let (q, e, f) = >>=-some (reserve b) _ h in
    subst Sound (some_pair f) (
      reserve_lem b q
        (λ x. IsSound x.1.table ((n, x.0) ∷ x.1.name2type) ((x.0, some n) ∷ x.1.pending)) e
        (λ m t d. reserve_name-IsSound n (alloc-IsReserving b.table m t d) s))

pub anon-Sound : (b b' : TypeBuilder) (i : TypeId) → anon b ≡ some (i, b') → Sound b → Sound b'
unfolding anon
anon-Sound b b' i h s =
    let (q, e, f) = >>=-some (reserve b) _ h in
    subst Sound (some_pair f) (
      reserve_lem b q (λ x. IsSound x.1.table x.1.name2type ((x.0, none) ∷ x.1.pending)) e
        (λ m t d. anon-IsSound (alloc-IsReserving b.table m t d) s))

pub named_ref-Sound :
    (n : Str) (b b' : TypeBuilder) (i : TypeId) (o : Option TypeId)
    → known_or n b o ≡ some (i, b')
    → Sound b
    → Sound b'
named_ref-Sound n b b' i (some k) h s = subst Sound (some_pair h) s
named_ref-Sound n b b' i none h s = reserve_name-Sound n b b' i h s

fill_value-Sound :
    (i : TypeId) (v : TypeValue) (o : Option Str) (b b' : TypeBuilder)
    → find_pending i b.pending ≡ some o
    → ((n : Str) → o ≡ some n → tag_name v.shape ≡ some n)
    → fill_value i v (without_pending i b) ≡ some b'
    → Sound b
    → Sound b'
unfolding fill_value without_pending
fill_value-Sound i v o b b' p tag h s =
    let (t, e, f) = >>=-some (fill i v b.table) _ h in
    subst Sound (some_same f) (fill-IsSound o v p (fill-IsFilling i v b.table t e) tag s)

pub scalar-Sound :
    (kind bytes sg size hs : ℕ) (b b' : TypeBuilder) (i : TypeId)
    → scalar kind bytes sg size hs b ≡ some (i, b')
    → Sound b
    → Sound b'
unfolding scalar
scalar-Sound kind bytes sg size hs b b' i h s = go (ltb bytes 256) h
  where
    go :
        (w : Bool)
        → (if w
            then intern_value (value (scalar_shape kind bytes sg) (opt_size size hs)) b
            else intern_value
                (value (scalar_shape kind 0 sg) (opt_size size hs))
                (record b { too_wide = note_too_wide bytes b.too_wide }))
          ≡ some (i, b')
        → Sound b'
    go true q = intern_value-Sound _ b b' i q s
    go false q =
        intern_value-Sound _ (record b { too_wide = note_too_wide bytes b.too_wide }) b' i q s

taken_name_lem :
    (i : TypeId) (b : TypeBuilder) (o : Option Str)
    → find_pending i b.pending ≡ some o
    → taken_name i b ≡ o
unfolding taken_name
taken_name_lem i b o h = ap flatten h

pub fill_struct-Sound :
    (i : TypeId) (is_union : Bool) (ms : List TypeMember) (size has_size : ℕ) (o : Option Str)
    (b b' : TypeBuilder)
    → find_pending i b.pending ≡ some o
    → fill_struct i is_union ms size has_size b ≡ some b'
    → Sound b
    → Sound b'
unfolding fill_struct tag_name
fill_struct-Sound i true ms size has_size o b b' p h s =
    fill_value-Sound i _ o b b' p (λ n e. taken_name_lem i b o p ∙ e) h s
fill_struct-Sound i false ms size has_size o b b' p h s =
    fill_value-Sound i _ o b b' p (λ n e. taken_name_lem i b o p ∙ e) h s

pub fill_enum-Sound :
    (i u : TypeId) (ms : List EnumMember) (size has_size : ℕ) (bm : Bool) (r : Option ValueRepr)
    (o : Option Str) (b b' : TypeBuilder)
    → find_pending i b.pending ≡ some o
    → fill_enum i u ms size has_size bm r b ≡ some b'
    → Sound b
    → Sound b'
unfolding fill_enum tag_name
fill_enum-Sound i u ms size has_size bm r o b b' p h s =
    fill_value-Sound i _ o b b' p (λ n e. taken_name_lem i b o p ∙ e) h s

pub fill_typedef-Sound :
    (i u : TypeId) (o : Option Str) (b b' : TypeBuilder)
    → find_pending i b.pending ≡ some o
    → fill_typedef i u b ≡ some b'
    → Sound b
    → Sound b'
unfolding fill_typedef tag_name
fill_typedef-Sound i u o b b' p h s =
    let (size, e, f) = >>=-some (type_size u (without_pending i b)) _ h in
    fill_value-Sound i _ o b b' p
      (λ n e. ap (λ x. some (name_or_empty x)) (taken_name_lem i b o p ∙ e)) f s
