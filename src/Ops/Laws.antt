-- ===== src/Ops/Laws.antt =====
-- crates/idakit/src/decompiler/ctree/ops.rs: raw tags and operators.
use idakit.Base.{none, ◌≡◌, arith}
use idakit.Ops.{
  BinaryOp, AssignmentOp, UnaryOp, binary_raw, binary_try_from, assignment_raw, assignment_try_from,
  unary_raw, unary_try_from,
}

-- The tag of an operator is rejected by the other two groups.
pub try_from-exclusive :
    (b : BinaryOp) (a : AssignmentOp) (u : UnaryOp)
    → ((assignment_try_from (binary_raw b) ≡ none) × (unary_try_from (binary_raw b) ≡ none))
      × ((binary_try_from (assignment_raw a) ≡ none) × (unary_try_from (assignment_raw a) ≡ none))
      × ((binary_try_from (unary_raw u) ≡ none) × (assignment_try_from (unary_raw u) ≡ none))
unfolding binary_try_from binary_raw assignment_try_from assignment_raw unary_try_from unary_raw
try_from-exclusive b a u = ground arith
