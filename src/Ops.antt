-- ===== src/Ops.antt =====
-- crates/idakit/src/decompiler/ctree/ops.rs: the operators of the decompiler's tree.
--
-- An operator's discriminant is the decompiler's raw tag.
pub mod Laws
use idakit.Base.{ℕ, Option, none, some, Str, str, ◌==◌, if◌then◌else◌}

pub data BinaryOp : Type 0 where
  comma log_or log_and bit_or bit_xor bit_and eq ne : BinaryOp
  sge uge sle ule sgt ugt slt ult : BinaryOp
  sshr ushr shl add sub mul sdiv udiv : BinaryOp
  smod umod fadd fsub fmul fdiv : BinaryOp

-- `u16::from`, `BinaryOp::try_from` and `BinaryOp::symbol`.
unfoldable pub binary_raw : BinaryOp → ℕ
binary_raw BinaryOp.comma = 1
binary_raw BinaryOp.log_or = 17
binary_raw BinaryOp.log_and = 18
binary_raw BinaryOp.bit_or = 19
binary_raw BinaryOp.bit_xor = 20
binary_raw BinaryOp.bit_and = 21
binary_raw BinaryOp.eq = 22
binary_raw BinaryOp.ne = 23
binary_raw BinaryOp.sge = 24
binary_raw BinaryOp.uge = 25
binary_raw BinaryOp.sle = 26
binary_raw BinaryOp.ule = 27
binary_raw BinaryOp.sgt = 28
binary_raw BinaryOp.ugt = 29
binary_raw BinaryOp.slt = 30
binary_raw BinaryOp.ult = 31
binary_raw BinaryOp.sshr = 32
binary_raw BinaryOp.ushr = 33
binary_raw BinaryOp.shl = 34
binary_raw BinaryOp.add = 35
binary_raw BinaryOp.sub = 36
binary_raw BinaryOp.mul = 37
binary_raw BinaryOp.sdiv = 38
binary_raw BinaryOp.udiv = 39
binary_raw BinaryOp.smod = 40
binary_raw BinaryOp.umod = 41
binary_raw BinaryOp.fadd = 42
binary_raw BinaryOp.fsub = 43
binary_raw BinaryOp.fmul = 44
binary_raw BinaryOp.fdiv = 45

unfoldable pub binary_try_from : ℕ → Option BinaryOp
binary_try_from raw =
    if raw == 1
    then some BinaryOp.comma
    else if raw == 17
    then some BinaryOp.log_or
    else if raw == 18
    then some BinaryOp.log_and
    else if raw == 19
    then some BinaryOp.bit_or
    else if raw == 20
    then some BinaryOp.bit_xor
    else if raw == 21
    then some BinaryOp.bit_and
    else if raw == 22
    then some BinaryOp.eq
    else if raw == 23
    then some BinaryOp.ne
    else if raw == 24
    then some BinaryOp.sge
    else if raw == 25
    then some BinaryOp.uge
    else if raw == 26
    then some BinaryOp.sle
    else if raw == 27
    then some BinaryOp.ule
    else if raw == 28
    then some BinaryOp.sgt
    else if raw == 29
    then some BinaryOp.ugt
    else if raw == 30
    then some BinaryOp.slt
    else if raw == 31
    then some BinaryOp.ult
    else if raw == 32
    then some BinaryOp.sshr
    else if raw == 33
    then some BinaryOp.ushr
    else if raw == 34
    then some BinaryOp.shl
    else if raw == 35
    then some BinaryOp.add
    else if raw == 36
    then some BinaryOp.sub
    else if raw == 37
    then some BinaryOp.mul
    else if raw == 38
    then some BinaryOp.sdiv
    else if raw == 39
    then some BinaryOp.udiv
    else if raw == 40
    then some BinaryOp.smod
    else if raw == 41
    then some BinaryOp.umod
    else if raw == 42
    then some BinaryOp.fadd
    else if raw == 43
    then some BinaryOp.fsub
    else if raw == 44
    then some BinaryOp.fmul
    else if raw == 45
    then some BinaryOp.fdiv
    else none

unfoldable pub binary_symbol : BinaryOp → Str
binary_symbol BinaryOp.comma = str ","
binary_symbol BinaryOp.log_or = str "||"
binary_symbol BinaryOp.log_and = str "&&"
binary_symbol BinaryOp.bit_or = str "|"
binary_symbol BinaryOp.bit_xor = str "^"
binary_symbol BinaryOp.bit_and = str "&"
binary_symbol BinaryOp.eq = str "=="
binary_symbol BinaryOp.ne = str "!="
binary_symbol BinaryOp.sge = str ">="
binary_symbol BinaryOp.uge = str ">="
binary_symbol BinaryOp.sle = str "<="
binary_symbol BinaryOp.ule = str "<="
binary_symbol BinaryOp.sgt = str ">"
binary_symbol BinaryOp.ugt = str ">"
binary_symbol BinaryOp.slt = str "<"
binary_symbol BinaryOp.ult = str "<"
binary_symbol BinaryOp.sshr = str ">>"
binary_symbol BinaryOp.ushr = str ">>"
binary_symbol BinaryOp.shl = str "<<"
binary_symbol BinaryOp.add = str "+"
binary_symbol BinaryOp.sub = str "-"
binary_symbol BinaryOp.mul = str "*"
binary_symbol BinaryOp.sdiv = str "/"
binary_symbol BinaryOp.udiv = str "/"
binary_symbol BinaryOp.smod = str "%"
binary_symbol BinaryOp.umod = str "%"
binary_symbol BinaryOp.fadd = str "+"
binary_symbol BinaryOp.fsub = str "-"
binary_symbol BinaryOp.fmul = str "*"
binary_symbol BinaryOp.fdiv = str "/"

pub data AssignmentOp : Type 0 where
  assign bit_or_assign bit_xor_assign bit_and_assign add_assign sub_assign mul_assign sshr_assign :
      AssignmentOp
  ushr_assign shl_assign sdiv_assign udiv_assign smod_assign umod_assign : AssignmentOp

-- `u16::from`, `AssignmentOp::try_from` and `AssignmentOp::symbol`.
unfoldable pub assignment_raw : AssignmentOp → ℕ
assignment_raw AssignmentOp.assign = 2
assignment_raw AssignmentOp.bit_or_assign = 3
assignment_raw AssignmentOp.bit_xor_assign = 4
assignment_raw AssignmentOp.bit_and_assign = 5
assignment_raw AssignmentOp.add_assign = 6
assignment_raw AssignmentOp.sub_assign = 7
assignment_raw AssignmentOp.mul_assign = 8
assignment_raw AssignmentOp.sshr_assign = 9
assignment_raw AssignmentOp.ushr_assign = 10
assignment_raw AssignmentOp.shl_assign = 11
assignment_raw AssignmentOp.sdiv_assign = 12
assignment_raw AssignmentOp.udiv_assign = 13
assignment_raw AssignmentOp.smod_assign = 14
assignment_raw AssignmentOp.umod_assign = 15

unfoldable pub assignment_try_from : ℕ → Option AssignmentOp
assignment_try_from raw =
    if raw == 2
    then some AssignmentOp.assign
    else if raw == 3
    then some AssignmentOp.bit_or_assign
    else if raw == 4
    then some AssignmentOp.bit_xor_assign
    else if raw == 5
    then some AssignmentOp.bit_and_assign
    else if raw == 6
    then some AssignmentOp.add_assign
    else if raw == 7
    then some AssignmentOp.sub_assign
    else if raw == 8
    then some AssignmentOp.mul_assign
    else if raw == 9
    then some AssignmentOp.sshr_assign
    else if raw == 10
    then some AssignmentOp.ushr_assign
    else if raw == 11
    then some AssignmentOp.shl_assign
    else if raw == 12
    then some AssignmentOp.sdiv_assign
    else if raw == 13
    then some AssignmentOp.udiv_assign
    else if raw == 14
    then some AssignmentOp.smod_assign
    else if raw == 15
    then some AssignmentOp.umod_assign
    else none

unfoldable pub assignment_symbol : AssignmentOp → Str
assignment_symbol AssignmentOp.assign = str "="
assignment_symbol AssignmentOp.bit_or_assign = str "|="
assignment_symbol AssignmentOp.bit_xor_assign = str "^="
assignment_symbol AssignmentOp.bit_and_assign = str "&="
assignment_symbol AssignmentOp.add_assign = str "+="
assignment_symbol AssignmentOp.sub_assign = str "-="
assignment_symbol AssignmentOp.mul_assign = str "*="
assignment_symbol AssignmentOp.sshr_assign = str ">>="
assignment_symbol AssignmentOp.ushr_assign = str ">>="
assignment_symbol AssignmentOp.shl_assign = str "<<="
assignment_symbol AssignmentOp.sdiv_assign = str "/="
assignment_symbol AssignmentOp.udiv_assign = str "/="
assignment_symbol AssignmentOp.smod_assign = str "%="
assignment_symbol AssignmentOp.umod_assign = str "%="

pub data UnaryOp : Type 0 where
  fneg neg log_not bit_not ref post_inc post_dec pre_inc : UnaryOp
  pre_dec : UnaryOp

-- `u16::from`, `UnaryOp::try_from` and `UnaryOp::symbol`.
unfoldable pub unary_raw : UnaryOp → ℕ
unary_raw UnaryOp.fneg = 46
unary_raw UnaryOp.neg = 47
unary_raw UnaryOp.log_not = 49
unary_raw UnaryOp.bit_not = 50
unary_raw UnaryOp.ref = 52
unary_raw UnaryOp.post_inc = 53
unary_raw UnaryOp.post_dec = 54
unary_raw UnaryOp.pre_inc = 55
unary_raw UnaryOp.pre_dec = 56

unfoldable pub unary_try_from : ℕ → Option UnaryOp
unary_try_from raw =
    if raw == 46
    then some UnaryOp.fneg
    else if raw == 47
    then some UnaryOp.neg
    else if raw == 49
    then some UnaryOp.log_not
    else if raw == 50
    then some UnaryOp.bit_not
    else if raw == 52
    then some UnaryOp.ref
    else if raw == 53
    then some UnaryOp.post_inc
    else if raw == 54
    then some UnaryOp.post_dec
    else if raw == 55
    then some UnaryOp.pre_inc
    else if raw == 56
    then some UnaryOp.pre_dec
    else none

unfoldable pub unary_symbol : UnaryOp → Str
unary_symbol UnaryOp.fneg = str "-"
unary_symbol UnaryOp.neg = str "-"
unary_symbol UnaryOp.log_not = str "!"
unary_symbol UnaryOp.bit_not = str "~"
unary_symbol UnaryOp.ref = str "&"
unary_symbol UnaryOp.post_inc = str "++"
unary_symbol UnaryOp.post_dec = str "--"
unary_symbol UnaryOp.pre_inc = str "++"
unary_symbol UnaryOp.pre_dec = str "--"
