-- ===== src/Types/Builder/Tests.antt =====
-- crates/idakit/src/types/builder.rs and sink.rs on a concrete walk, and the theorem at it.
use idakit.Base.{true, false, none, some, [], ◌∷◌, Str, str, str_eq, ◌≡◌, refl}
use idakit.Types.Table.{TypeId, TypeValue, TypeMember, tag_name, get_type, struct, int, hexadecimal}
use idakit.Types.Table.Intern.{IsConsistent}
use idakit.Types.Builder.{
  TypeBuilder, new_builder, find_name, scalar, pointer, named_ref, fill_struct, unfilled,
  into_table, value, find_pending,
}
use idakit.Types.Sink.{marshal_member}
use idakit.Types.Builder.Names.{
  Walked, starts, walks, on_named_ref, on_pointer, on_fill_struct, Walked-into_table,
}

-- `struct Node { Node *next; }`: the name, the pointer to it, and then the body.
abbrev node : Str
node = str "Node"

abbrev next_member : TypeMember
next_member = record {
  name = str "next";
  bit_offset = 0;
  ty = 1;
  bitfield_width = none;
  repr = none;
}

node_walked :
    (b : TypeBuilder) × Walked b × (unfilled b ≡ 0) × (find_name node b.name2type ≡ some 0)
unfolding new_builder named_ref pointer fill_struct unfilled find_name find_pending str_eq
node_walked = (
  _,
  walks (walks (walks starts (on_named_ref node refl)) (on_pointer 0 8 1 refl))
      (on_fill_struct 0 false (next_member ∷ []) 8 1 refl refl),
  refl,
  refl,
)

abbrev node_builder : TypeBuilder
node_builder = node_walked.0

Walked-into_table_example :
    IsConsistent (into_table node_builder)
    × ((n : Str) (i : TypeId)
        → find_name n node_builder.name2type ≡ some i
        → (v : TypeValue) × (get_type (into_table node_builder) i ≡ some v)
          × (tag_name v.shape ≡ some n))
Walked-into_table_example = Walked-into_table node_walked.1 node_walked.2

node_read :
    get_type (into_table node_builder) 0
    ≡ some (value (struct (some node) (next_member ∷ [])) (some 8))
unfolding node_walked into_table get_type new_builder named_ref pointer fill_struct
node_read = refl

-- A width that no scalar has leaves the first such width, and a width of none in its place.
too_wide_noted :
    (b : TypeBuilder) × (scalar 3 300 0 0 0 new_builder ≡ some (0, b))
    × (b.too_wide ≡ some 300)
    × (get_type (into_table b) 0 ≡ some (value (int 0 false) none))
unfolding scalar new_builder into_table get_type
too_wide_noted = (_, refl, refl, refl)

-- A member's width of none is an ordinary field, and its format is read by its number.
member_marshalled :
    marshal_member (record {
      name = node;
      bit_offset = 3;
      ty = 7;
      bitfield_width = 0;
      repr_vtype = 3;
      repr_signed = true;
      repr_leading_zeros = false;
    })
    ≡ record {
      name = node;
      bit_offset = 3;
      ty = 7;
      bitfield_width = none;
      repr = some (record { format = hexadecimal; signed = true; leading_zeros = false });
    }
unfolding marshal_member
member_marshalled = refl
