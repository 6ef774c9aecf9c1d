-- ===== src/Types/Sink.antt =====
-- crates/idakit/src/types/sink.rs: how the arguments of a callback are marshalled for the builder.
use idakit.Base.{ℕ, Bool, Option, none, some, List, Str, ◌==◌, if◌then◌else◌, map}
use idakit.Types.Table.{TypeMember, EnumMember}
use idakit.Types.Builder.{TypeBuilder, read_repr, fill_struct, fill_enum}

-- What the facade sends of a member and of a constant, as
-- crates/idakit-sys-codegen/src/visitors/typewalk.rs declares them.
pub record MemberInfo : Type 0 where
  pub name : Str
  pub bit_offset : ℕ
  pub ty : ℕ
  pub bitfield_width : ℕ
  pub repr_vtype : ℕ
  pub repr_signed : Bool
  pub repr_leading_zeros : Bool

pub record EnumConstInfo : Type 0 where
  pub name : Str
  pub value : ℕ

unfoldable pub marshal_member : MemberInfo → TypeMember
unfolding read_repr
marshal_member m = record {
  name = m.name;
  bit_offset = m.bit_offset;
  ty = m.ty;
  bitfield_width = if m.bitfield_width == 0 then none else some m.bitfield_width;
  repr = read_repr m.repr_vtype m.repr_signed m.repr_leading_zeros;
}

unfoldable pub marshal_constant : EnumConstInfo → EnumMember
marshal_constant c = record { name = c.name; value = c.value }

-- `SinkAdapter::fill_struct` and `fill_enum`.
unfoldable pub sink_fill_struct :
    ℕ → Bool → List MemberInfo → ℕ → ℕ → TypeBuilder → Option TypeBuilder
unfolding marshal_member fill_struct
sink_fill_struct i is_union members size has_size b =
    fill_struct i is_union (map marshal_member members) size has_size b

unfoldable pub sink_fill_enum :
    ℕ → ℕ → List EnumConstInfo → ℕ → ℕ → Bool → ℕ → Bool → Bool → TypeBuilder → Option TypeBuilder
unfolding marshal_constant fill_enum read_repr
sink_fill_enum i underlying consts size has_size is_bitmask vtype is_signed zeros b =
    fill_enum i underlying (map marshal_constant consts) size has_size is_bitmask
      (read_repr vtype is_signed zeros) b
