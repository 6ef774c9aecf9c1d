-- ===== src/Types/Tests.antt =====
-- crates/idakit/src/types/mod.rs: a type interned in an empty table.
use idakit.Base.{
  ℕ, zero, suc, str, Option, none, arith, ◌<◌, ◌≤◌, subst, true, some, [], ◌∷◌, ◌≡◌, refl,
}
use idakit.Types.Table.{
  TypeValue, TypeTable, table, new_table, intern, alloc_placeholder, fill, get_type, placeholder,
  int, ptr,
}
use idakit.Types.Table.{TypeId, struct, TypeMember, TypeShape}
use idakit.Canonical.{CanonicalType, RecordKind, member, more_members, no_members}
use idakit.Types.Walk.{canonicalize, strict}
use idakit.Types.Walk.Shape.{IsRoot}
use idakit.Types.Walk.Fuel.{IsRanked, Edges, canonicalize-IsRoot_total}
use idakit.Types.Walk.Cycle.{self_pointer, canonicalize-self_pointer}
use idakit.Types.Table.Intern.{
  intern-IsInterned, intern-IsInterned_total, IsInterned, new_table-IsConsistent, fill_placeholder,
  IsConsistent, IsReserved, Extends,
}

abbrev i32 : TypeValue
i32 = record { shape = int 4 true; size = some 4 }

abbrev one : TypeTable
one = table (i32 ∷ []) ((i32, 0) ∷ [])

interned : intern i32 new_table ≡ some (0, one)
unfolding intern new_table
interned = refl

one-IsConsistent : IsConsistent one
one-IsConsistent =
    (intern-IsInterned i32 new_table 0 one new_table-IsConsistent interned).consistent

intern-IsInterned_total_example :
    (i : TypeId) × (t' : TypeTable) × (intern i32 one ≡ some (i, t')) × IsInterned i32 one i t'
intern-IsInterned_total_example = intern-IsInterned_total i32 one one-IsConsistent (omega arith)

-- A list node whose only member points to it.
abbrev node : TypeValue
node = record { shape = ptr 0; size = some 8 }

reserved : alloc_placeholder new_table ≡ some (0, table (placeholder ∷ []) [])
unfolding alloc_placeholder new_table
reserved = refl

filled : fill 0 node (table (placeholder ∷ []) []) ≡ some (table (node ∷ []) [])
unfolding fill
filled = refl

fill_placeholder_example :
    IsReserved 0 (table (placeholder ∷ []) [])
    × IsReserved 0 (table (node ∷ []) [])
    × IsConsistent (table (node ∷ []) [])
    × (get_type (table (node ∷ []) []) 0 ≡ some node)
    × Extends new_table (table (node ∷ []) [])
fill_placeholder_example =
    fill_placeholder node new_table (table (placeholder ∷ []) []) (table (node ∷ []) []) 0
      new_table-IsConsistent reserved filled

-- An anonymous list node: `0` is a struct whose member is `1`, a pointer to it.
abbrev next : TypeMember
next = record { name = str "next"; bit_offset = 0; ty = 1; bitfield_width = none; repr = none }

abbrev list_node : TypeValue
list_node = record { shape = struct none (next ∷ []); size = some 8 }

abbrev nodes : TypeTable
nodes = table (list_node ∷ node ∷ []) []

abbrev node_rank : TypeId → ℕ
node_rank zero = 0
node_rank (suc i) = 1

node_rank-le : (i : TypeId) → node_rank i ≤ 1
node_rank-le zero = omega arith
node_rank-le (suc i) = omega arith

abbrev NodeEdges : TypeId → TypeShape → Type 0
NodeEdges i = Edges (λ j. (j < 2) × (node_rank j < node_rank i)) (λ j. j < 2)

some_value : {v w : TypeValue} → some v ≡ some w → v ≡ w
some_value e = cc

no_value : {v : TypeValue} → ◌≡◌ {A = Option TypeValue} none (some v) → ⊥
no_value e = cc

node_edges : (i : TypeId) (v : TypeValue) → get_type nodes i ≡ some v → NodeEdges i v.shape
unfolding get_type
node_edges zero v h =
    subst (λ (w : TypeValue). NodeEdges 0 w.shape) (some_value h) (omega arith, tt)
node_edges (suc zero) v h =
    subst (λ (w : TypeValue). NodeEdges 1 w.shape) (some_value h) (omega arith, omega arith)
node_edges (suc (suc i)) v h = absurd (no_value h)

ranked : IsRanked nodes node_rank 1
ranked = record { bounded = node_rank-le; edges = node_edges }

-- The member of the node is spelled as a pointer back to it.
canonicalize-nodes :
    canonicalize 7 nodes 0 strict
    ≡ some (
        CanonicalType.aggregate none RecordKind.struct
          (more_members
            (member
              (str "next")
              (some 0)
              none
              (CanonicalType.ptr (CanonicalType.back_ref 1) (some 8)))
            no_members)
          (some 8))
unfolding canonicalize
canonicalize-nodes = refl

canonicalize-IsRoot_total_example :
    (c : CanonicalType) × (canonicalize 7 nodes 0 strict ≡ some c) × IsRoot c
canonicalize-IsRoot_total_example =
    canonicalize-IsRoot_total nodes node_rank 1 0 strict 7 ranked (omega arith) (omega arith)

canonicalize-self_pointer_example : canonicalize 100 (self_pointer (some 8)) 0 strict ≡ none
canonicalize-self_pointer_example = canonicalize-self_pointer 100 (some 8) strict
