-- ===== src/Types/Builder/Names.antt =====
-- crates/idakit/src/types/builder.rs: what a walk that has filled every handle leaves.
use idakit.Base.{ℕ, Bool, Option, some, List, [], ◌∷◌, Str, length, ◌≡◌, arith, inl, inr}
use idakit.Types.Table.{TypeId, TypeValue, TypeMember, EnumMember, ValueRepr, tag_name, get_type}
use idakit.Types.Table.Intern.{IsConsistent, new_table-IsConsistent}
use idakit.Types.Builder.{
  TypeBuilder, new_builder, find_name, find_pending, scalar, pointer, array_of, function_of,
  opaque_of, named_ref, anon, fill_struct, fill_enum, fill_typedef, unfilled, into_table,
}
use idakit.Types.Builder.Sound.{IsSettled}
use idakit.Types.Builder.Handlers.{
  Sound, none_ne, intern_value-Sound, named_ref-Sound, anon-Sound, scalar-Sound, fill_struct-Sound,
  fill_enum-Sound, fill_typedef-Sound,
}

-- One callback of a walk. A body comes for a handle that was reserved and has none yet.
pub data Callback : TypeBuilder → TypeBuilder → Type 0 where
  on_scalar :
      {b b' : TypeBuilder} {i : TypeId} (kind bytes is_signed size has_size : ℕ)
      → scalar kind bytes is_signed size has_size b ≡ some (i, b')
      → Callback b b'
  on_pointer :
      {b b' : TypeBuilder} {i : TypeId} (target : TypeId) (size has_size : ℕ)
      → pointer target size has_size b ≡ some (i, b')
      → Callback b b'
  on_array :
      {b b' : TypeBuilder} {i : TypeId} (elem : TypeId) (nelems size has_size : ℕ)
      → array_of elem nelems size has_size b ≡ some (i, b')
      → Callback b b'
  on_function :
      {b b' : TypeBuilder} {i : TypeId} (ret : TypeId) (params : List TypeId) (vararg : ℕ)
      → function_of ret params vararg b ≡ some (i, b')
      → Callback b b'
  on_opaque :
      {b b' : TypeBuilder} {i : TypeId} (name : Str)
      → opaque_of name b ≡ some (i, b')
      → Callback b b'
  on_named_ref :
      {b b' : TypeBuilder} {i : TypeId} (name : Str)
      → named_ref name b ≡ some (i, b')
      → Callback b b'
  on_anon : {b b' : TypeBuilder} {i : TypeId} → anon b ≡ some (i, b') → Callback b b'
  on_fill_struct :
      {b b' : TypeBuilder} {o : Option Str} (i : TypeId) (is_union : Bool)
      (members : List TypeMember) (size has_size : ℕ)
      → find_pending i b.pending ≡ some o
      → fill_struct i is_union members size has_size b ≡ some b'
      → Callback b b'
  on_fill_enum :
      {b b' : TypeBuilder} {o : Option Str} (i underlying : TypeId) (members : List EnumMember)
      (size has_size : ℕ) (is_bitmask : Bool) (repr : Option ValueRepr)
      → find_pending i b.pending ≡ some o
      → fill_enum i underlying members size has_size is_bitmask repr b ≡ some b'
      → Callback b b'
  on_fill_typedef :
      {b b' : TypeBuilder} {o : Option Str} (i underlying : TypeId)
      → find_pending i b.pending ≡ some o
      → fill_typedef i underlying b ≡ some b'
      → Callback b b'

pub data Walked : TypeBuilder → Type 0 where
  starts : Walked new_builder
  walks : {b b' : TypeBuilder} → Walked b → Callback b b' → Walked b'

Callback-Sound : {b b' : TypeBuilder} → Callback b b' → Sound b → Sound b'
unfolding scalar pointer array_of function_of opaque_of named_ref
Callback-Sound (on_scalar kind bytes sg size hs h) s = scalar-Sound kind bytes sg size hs _ _ _ h s
Callback-Sound (on_pointer target size hs h) s = intern_value-Sound _ _ _ _ h s
Callback-Sound (on_array elem n size hs h) s = intern_value-Sound _ _ _ _ h s
Callback-Sound (on_function r ps va h) s = intern_value-Sound _ _ _ _ h s
Callback-Sound (on_opaque n h) s = intern_value-Sound _ _ _ _ h s
Callback-Sound (on_named_ref n h) s = named_ref-Sound n _ _ _ _ h s
Callback-Sound (on_anon h) s = anon-Sound _ _ _ h s
Callback-Sound (on_fill_struct i un ms size hs p h) s =
    fill_struct-Sound i un ms size hs _ _ _ p h s
Callback-Sound (on_fill_enum i u ms size hs bm r p h) s =
    fill_enum-Sound i u ms size hs bm r _ _ _ p h s
Callback-Sound (on_fill_typedef i u p h) s = fill_typedef-Sound i u _ _ _ p h s

new_builder-Sound : Sound new_builder
unfolding new_builder find_name find_pending
new_builder-Sound = record {
  consistent = new_table-IsConsistent;
  reserved = λ i o h. absurd (none_ne h);
  names = λ n i h. absurd (none_ne h);
}

Walked-Sound : {b : TypeBuilder} → Walked b → Sound b
Walked-Sound starts = new_builder-Sound
Walked-Sound (walks w c) = Callback-Sound c (Walked-Sound w)

nothing_waits :
    (i : TypeId) (ps : List (TypeId × Option Str)) {o : Option Str}
    → length ps ≡ 0
    → find_pending i ps ≡ some o
    → ⊥
unfolding find_pending
nothing_waits i [] e h = none_ne h
nothing_waits i (p ∷ ps) e h = omega arith

-- After a walk that left no handle unfilled, from the empty builder and over any callbacks whose
-- bodies come for handles that wait for one, the table is consistent, and every name that was
-- referred to has a handle that reads a type of that name.
pub Walked-into_table :
    {b : TypeBuilder}
    → Walked b
    → unfilled b ≡ 0
    → IsConsistent (into_table b)
      × ((n : Str) (i : TypeId)
          → find_name n b.name2type ≡ some i
          → (v : TypeValue) × (get_type (into_table b) i ≡ some v) × (tag_name v.shape ≡ some n))
unfolding unfilled into_table
Walked-into_table {b = b} w e =
    let s = Walked-Sound w in (s.consistent, λ n i h. read n i (s.names n i h))
  where
    read :
        (n : Str) (i : TypeId)
        → IsSettled b.table b.pending n i
        → (v : TypeValue) × (get_type b.table i ≡ some v) × (tag_name v.shape ≡ some n)
    read n i (inl p) = absurd (nothing_waits i b.pending e p)
    read n i (inr (p, v, g, q)) = (v, g, q)
