-- ===== src/Ctree/Render.antt =====
-- crates/idakit/src/decompiler/ctree/render.rs: a tree as C-like text.
--
-- A text is made whole instead of pushed piece by piece. The recursion over the arenas has fuel; `none`
-- is a handle out of range, or the fuel spent. How Rust writes a double and quotes a text are
-- parameters.
pub mod Types
pub mod Total
pub mod Tests
use idakit.Base.{
  ℕ, zero, suc, ◌+◌, ◌*◌, ◌-◌, ◌/◌, ◌%◌, ◌^◌, Bool, true, false, Option, none, some, List, [], ◌∷◌,
  ◌++◌, length, get_elem?, Str, str, decimal, ltb, ◌==◌, is_empty, if◌then◌else◌, ◌>>=◌, ◌&&◌, not,
}
use idakit.Address.{Address}
use idakit.Address.{get as raw_of}
use idakit.Arena.{get}
use idakit.Ops.{BinaryOp, AssignmentOp, UnaryOp, binary_symbol, assignment_symbol, unary_symbol}
use idakit.Types.Table.{
  TypeId, TypeMember, TypeShape, TypeValue, TypeTable, get_type, void, bool, int, float, ptr, array,
  struct, union, enumeration, function, typedef, opaque, unknown,
}
use idakit.Ctree.{
  ExpressionId, StatementId, LocalId, Local, ExpressionNode, ExpressionKind, StatementKind, Case,
  binary, assign, unary, ternary, call, index, member_ref, member_ptr, cast, deref, sizeof, num,
  fnum, string, obj, var, helper, type_expression, empty, internal, block, expression, if_statement,
  for_statement, while_statement, do_statement, switch, break, continue, return, goto, asm, try,
  throw, empty_statement,
}
use idakit.Ctree.Tree.{Nodes, Ctree, local}

-- `Prec`, and `bin_prec`. `tighter` is the next one.
unfoldable pub bin_prec : BinaryOp → ℕ
bin_prec BinaryOp.comma = 1
bin_prec BinaryOp.log_or = 4
bin_prec BinaryOp.log_and = 5
bin_prec BinaryOp.bit_or = 6
bin_prec BinaryOp.bit_xor = 7
bin_prec BinaryOp.bit_and = 8
bin_prec BinaryOp.eq = 9
bin_prec BinaryOp.ne = 9
bin_prec BinaryOp.sge = 10
bin_prec BinaryOp.uge = 10
bin_prec BinaryOp.sle = 10
bin_prec BinaryOp.ule = 10
bin_prec BinaryOp.sgt = 10
bin_prec BinaryOp.ugt = 10
bin_prec BinaryOp.slt = 10
bin_prec BinaryOp.ult = 10
bin_prec BinaryOp.sshr = 11
bin_prec BinaryOp.ushr = 11
bin_prec BinaryOp.shl = 11
bin_prec BinaryOp.add = 12
bin_prec BinaryOp.sub = 12
bin_prec BinaryOp.fadd = 12
bin_prec BinaryOp.fsub = 12
bin_prec BinaryOp.mul = 13
bin_prec BinaryOp.sdiv = 13
bin_prec BinaryOp.udiv = 13
bin_prec BinaryOp.smod = 13
bin_prec BinaryOp.umod = 13
bin_prec BinaryOp.fmul = 13
bin_prec BinaryOp.fdiv = 13

abbrev pub is_postfix : UnaryOp → Bool
is_postfix UnaryOp.post_inc = true
is_postfix UnaryOp.post_dec = true
is_postfix _ = false

unfoldable pub prec : ExpressionKind → ℕ
unfolding bin_prec
prec (binary op x y) = bin_prec op
prec (assign op x y) = 2
prec (ternary c t e) = 3
prec (unary op x) = if is_postfix op then 15 else 14
prec (call f args) = 15
prec (index a i) = 15
prec (member_ref o off) = 15
prec (member_ptr o off) = 15
prec (cast x) = 14
prec (deref x size) = 14
prec (sizeof x) = 14
prec _ = 16

-- `{:#x}`.
abbrev pub hex_digit : ℕ → ℕ
hex_digit d = if ltb d 10 then 48 + d else 87 + d

unfoldable pub hex_digits : ℕ → ℕ → Str → Str
hex_digits zero n rest = rest
hex_digits (suc fuel) n rest =
    let more = hex_digits fuel (n / 16) (hex_digit (n % 16) ∷ rest) in
    if n / 16 == 0 then hex_digit (n % 16) ∷ rest else more

unfoldable pub hex : ℕ → Str
unfolding hex_digits
hex n = str "0x" ++ hex_digits 16 n []

-- A text of pieces, if each is there.
unfoldable pub joined : List (Option Str) → Option Str
joined [] = some []
joined (p ∷ ps) = p >>= (λ s. joined ps >>= (λ t. some (s ++ t)))

abbrev pub join_comma : List Str → Str
join_comma [] = []
join_comma (s ∷ []) = s
join_comma (s ∷ t ∷ ss) = s ++ (str ", " ++ join_comma (t ∷ ss))

unfoldable pub all_some : List (Option Str) → Option (List Str)
all_some [] = some []
all_some (o ∷ os) = o >>= (λ s. all_some os >>= (λ ss. some (s ∷ ss)))

abbrev pub each : {A B : Type 0} → (A → B) → List A → List B
each f [] = []
each f (x ∷ xs) = f x ∷ each f xs

abbrev pub name_or : Str → Option Str → Str
name_or d none = d
name_or d (some n) = n

abbrev pub more_dots : Bool → List Str
more_dots true = str "..." ∷ []
more_dots false = []

-- `print_type`, with the types below by `rec`.
unfoldable pub type_text : (TypeId → Option Str) → TypeShape → Option Str
unfolding decimal
type_text rec void = some (str "void")
type_text rec bool = some (str "bool")
type_text rec (int bytes true) = some (str "__int" ++ decimal (bytes * 8))
type_text rec (int bytes false) = some (str "unsigned __int" ++ decimal (bytes * 8))
type_text rec (float bytes) =
    some
      (if bytes == 4 then str "float" else if bytes == 8 then str "double" else str "long double")
type_text rec (ptr p) = joined (rec p ∷ some (str " *") ∷ [])
type_text rec (array e len) =
    joined (rec e ∷ some (str "[") ∷ some (decimal len) ∷ some (str "]") ∷ [])
type_text rec (struct n ms) = some (name_or (str "struct") n)
type_text rec (union n ms) = some (name_or (str "union") n)
type_text rec (enumeration n u ms b r) = some (name_or (str "enum") n)
type_text rec (function ret ps varargs) = all_some (each rec ps) >>= (λ parts. joined (
    rec ret
    ∷ some (str " (*)(")
    ∷ some (join_comma (parts ++ more_dots varargs))
    ∷ some (str ")")
    ∷ []))
type_text rec (typedef n u) = some n
type_text rec (opaque n) = some n
type_text rec unknown = some (str "_UNKNOWN")

unfoldable pub print_type : ℕ → TypeTable → TypeId → Option Str
unfolding type_text get_type
print_type zero t i = none
print_type (suc fuel) t i = get_type t i >>= (λ v. type_text (print_type fuel t) v.shape)

unfoldable pub type_tag_name : TypeShape → Option Str
type_tag_name (struct n ms) = n
type_tag_name (union n ms) = n
type_tag_name (enumeration n u ms b r) = n
type_tag_name (typedef n u) = some n
type_tag_name (opaque n) = some n
type_tag_name _ = none

abbrev pub members_of : TypeShape → List TypeMember
members_of (struct n ms) = ms
members_of (union n ms) = ms
members_of _ = []

unfoldable pub member_at : ℕ → List TypeMember → Option TypeMember
member_at bit [] = none
member_at bit (m ∷ ms) = let rest = member_at bit ms in if m.bit_offset == bit then some m else rest

-- The type whose members a reference goes through.
unfoldable pub through : Bool → TypeTable → TypeShape → Option TypeShape
unfolding get_type
through true t (ptr p) = get_type t p >>= (λ v. some v.shape)
through b t s = some s

abbrev pub offset_name : ℕ → Str
offset_name byte_off = str "field_" ++ hex byte_off

abbrev pub member_name : TypeTable → ℕ → Option TypeMember → Option Str
member_name t byte_off none = some (offset_name byte_off)
member_name t byte_off (some m) =
    if not (is_empty m.name)
    then some m.name
    else (get_type t m.ty >>= (λ v. some (name_or (offset_name byte_off) (type_tag_name v.shape))))

unfoldable pub field_name : Ctree → ExpressionId → ℕ → Bool → Option Str
unfolding get through member_at type_tag_name hex get_type
field_name c o byte_off through_ptr = do
  n ← get c.nodes.expressions o
  v ← get_type c.types n.ty
  s ← through through_ptr c.types v.shape
  member_name c.types byte_off (member_at (byte_off * 8) (members_of s))

unfoldable pub local_name : Ctree → LocalId → Str
unfolding local decimal
local_name c v = elim (local c v) [ none ↦ str "v" ++ decimal v | some l ↦ l.name ]

module _ (float_text : ℕ → Str) (quoted : Str → Str) where
  -- `expression_inner`, with the operands at a least precedence by `rec`.
  unfoldable pub inner : (ExpressionId → ℕ → Option Str) → Ctree → ExpressionNode → Option Str
  unfolding bin_prec binary_symbol assignment_symbol unary_symbol field_name local_name print_type
      hex decimal
  inner rec c node = kind_text node.kind
    where
      kind_text : ExpressionKind → Option Str
      kind_text (binary op x y) =
          if bin_prec op == 1
          then joined (rec x 1 ∷ some (str ", ") ∷ rec y 2 ∷ [])
          else joined (
              rec x (bin_prec op)
              ∷ some (str " " ++ (binary_symbol op ++ str " "))
              ∷ rec y (suc (bin_prec op))
              ∷ [])
      kind_text (assign op x y) =
          joined (rec x 3 ∷ some (str " " ++ (assignment_symbol op ++ str " ")) ∷ rec y 2 ∷ [])
      kind_text (unary op x) =
          if is_postfix op
          then joined (rec x 15 ∷ some (unary_symbol op) ∷ [])
          else joined (some (unary_symbol op) ∷ rec x 14 ∷ [])
      kind_text (ternary i t e) =
          joined (rec i 4 ∷ some (str " ? ") ∷ rec t 0 ∷ some (str " : ") ∷ rec e 3 ∷ [])
      kind_text (call f args) = all_some (each (λ a. rec a 2) args) >>= (λ parts.
          joined (rec f 15 ∷ some (str "(") ∷ some (join_comma parts) ∷ some (str ")") ∷ []))
      kind_text (index a i) = joined (rec a 15 ∷ some (str "[") ∷ rec i 0 ∷ some (str "]") ∷ [])
      kind_text (member_ref o off) =
          joined (rec o 15 ∷ some (str ".") ∷ field_name c o off false ∷ [])
      kind_text (member_ptr o off) =
          joined (rec o 15 ∷ some (str "->") ∷ field_name c o off true ∷ [])
      kind_text (cast x) = joined (
          some (str "(")
          ∷ print_type (suc (length c.types.arena)) c.types node.ty
          ∷ some (str ")")
          ∷ rec x 14
          ∷ [])
      kind_text (deref x size) = joined (some (str "*") ∷ rec x 14 ∷ [])
      kind_text (sizeof x) = joined (some (str "sizeof(") ∷ rec x 0 ∷ some (str ")") ∷ [])
      kind_text (num v) = some (if ltb v 10 then decimal v else hex v)
      kind_text (fnum v) = some (float_text v)
      kind_text (string s) = some (quoted s)
      kind_text (obj a n) = some (name_or (hex (raw_of a)) n)
      kind_text (var v) = some (local_name c v)
      kind_text (helper s) = some s
      kind_text type_expression = print_type (suc (length c.types.arena)) c.types node.ty
      kind_text empty = some []
      kind_text internal = some (str "/* internal */")

  -- `expression`: in parentheses when it binds looser than the least precedence asked for.
  abbrev pub parenthesized : ℕ → ℕ → Option Str → Option Str
  parenthesized p least none = none
  parenthesized p least (some t) = some (if ltb p least then str "(" ++ (t ++ str ")") else t)

  unfoldable pub expression_text : ℕ → Ctree → ExpressionId → ℕ → Option Str
  unfolding inner prec get
  expression_text zero c e least = none
  expression_text (suc fuel) c e least =
      get c.nodes.expressions e
      >>= (λ n. parenthesized (prec n.kind) least (inner (expression_text fuel c) c n))

  abbrev pub spaces : ℕ → Str
  spaces zero = []
  spaces (suc n) = str "  " ++ spaces n

  abbrev newline : Str
  newline = 10 ∷ []

  -- `line`.
  abbrev pub line : ℕ → Str → Option Str
  line indent s = some (spaces indent ++ (s ++ newline))

  -- A 32-bit pattern as a signed number.
  abbrev signed_decimal : ℕ → Str
  signed_decimal n = if ltb n (2 ^ 31) then decimal n else str "-" ++ decimal (2 ^ 32 - n)

  abbrev pub optional : {A : Type 0} → (A → Option Str) → Option A → Option Str
  optional f none = some []
  optional f (some a) = f a

  abbrev pub case_lines : ℕ → List ℕ → Option Str
  case_lines indent [] = some []
  case_lines indent (v ∷ vs) = joined (
      some (spaces indent)
      ∷ some (str "case " ++ (decimal v ++ str ":"))
      ∷ some newline
      ∷ case_lines indent vs
      ∷ [])

  abbrev pub case_head : ℕ → List ℕ → Option Str
  case_head indent [] = line indent (str "default:")
  case_head indent (v ∷ vs) = case_lines indent (v ∷ vs)

  -- `statement`, with the statements below by `below` and the expressions by `text`.
  unfoldable pub statement_kind_text :
      (StatementId → ℕ → Option Str) → (ExpressionId → Option Str) → ℕ → StatementKind → Option Str
  unfolding decimal
  statement_kind_text below text indent (block ss) = joined (
      line indent (str "{")
      ∷ joined (each (λ s. below s (suc indent)) ss)
      ∷ line indent (str "}")
      ∷ [])
  statement_kind_text below text indent (expression e) =
      joined (some (spaces indent) ∷ text e ∷ some (str ";" ++ newline) ∷ [])
  statement_kind_text below text indent (if_statement i t e) = joined (
      some (spaces indent ++ str "if ( ")
      ∷ text i
      ∷ some (str " )" ++ newline)
      ∷ below t indent
      ∷ optional (λ s. joined (line indent (str "else") ∷ below s indent ∷ [])) e
      ∷ [])
  statement_kind_text below text indent (for_statement i c s b) = joined (
      some (spaces indent ++ str "for ( ")
      ∷ optional text i
      ∷ some (str "; ")
      ∷ optional text c
      ∷ some (str "; ")
      ∷ optional text s
      ∷ some (str " )" ++ newline)
      ∷ below b indent
      ∷ [])
  statement_kind_text below text indent (while_statement c b) = joined (
      some (spaces indent ++ str "while ( ")
      ∷ text c
      ∷ some (str " )" ++ newline)
      ∷ below b indent
      ∷ [])
  statement_kind_text below text indent (do_statement b c) = joined (
      line indent (str "do")
      ∷ below b indent
      ∷ some (spaces indent ++ str "while ( ")
      ∷ text c
      ∷ some (str " );" ++ newline)
      ∷ [])
  statement_kind_text below text indent (switch e cs) = joined (
      some (spaces indent ++ str "switch ( ")
      ∷ text e
      ∷ some (str " )" ++ newline)
      ∷ line indent (str "{")
      ∷ joined
          (each (λ (k : Case). joined (case_head indent k.values ∷ below k.body indent ∷ [])) cs)
      ∷ line indent (str "}")
      ∷ [])
  statement_kind_text below text indent break = line indent (str "break;")
  statement_kind_text below text indent continue = line indent (str "continue;")
  statement_kind_text below text indent (return e) = joined (
      some (spaces indent ++ str "return")
      ∷ optional (λ x. joined (some (str " ") ∷ text x ∷ [])) e
      ∷ some (str ";" ++ newline)
      ∷ [])
  statement_kind_text below text indent (goto label) =
      line indent (str "goto LABEL_" ++ (signed_decimal label ++ str ";"))
  statement_kind_text below text indent (asm eas) =
      line indent (str "__asm { /* " ++ (decimal (length eas) ++ str " insns */ }"))
  statement_kind_text below text indent (try b cs) = joined (
      line indent (str "try")
      ∷ below b indent
      ∷ joined (each (λ s. joined (line indent (str "catch") ∷ below s indent ∷ [])) cs)
      ∷ [])
  statement_kind_text below text indent (throw e) = joined (
      some (spaces indent ++ str "throw")
      ∷ optional (λ x. joined (some (str " ") ∷ text x ∷ [])) e
      ∷ some (str ";" ++ newline)
      ∷ [])
  statement_kind_text below text indent empty_statement = line indent (str ";")

  unfoldable pub statement_text : ℕ → Ctree → StatementId → ℕ → Option Str
  unfolding statement_kind_text expression_text get
  statement_text zero c s indent = none
  statement_text (suc fuel) c s indent = get c.nodes.statements s >>= (λ n.
      statement_kind_text (statement_text fuel c) (λ e. expression_text fuel c e 0) indent n.kind)

  -- With as much fuel as a path through the two arenas is long.
  unfoldable pub to_pseudocode : Ctree → Option Str
  unfolding statement_text
  to_pseudocode c =
      statement_text (suc (length c.nodes.expressions + length c.nodes.statements)) c c.root 0
