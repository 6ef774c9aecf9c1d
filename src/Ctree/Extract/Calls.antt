-- ===== src/Ctree/Extract/Calls.antt =====
-- crates/idakit/src/decompiler/ctree/extract.rs: the handler of each callback of a walk, and what
-- `finish` does after the last one.
use idakit.Base.{
  ℕ, ◌/◌, ◌%◌, ◌^◌, Bool, not, Option, none, some, List, [], ◌∷◌, Str, is_empty, length, take, drop,
  ltb, ◌==◌, if◌then◌else◌, ◌>>=◌,
}
use idakit.Address.{try_new}
use idakit.Types.Table.{TypeId}
use idakit.Types.Builder.{TypeBuilder, unfilled}
use idakit.Ctree.{
  StatementId, LocationPieces, no_pieces, more_pieces, from_argloc, Case, call, member_ref,
  member_ptr, deref, num, fnum, string, var, helper, block, expression, if_statement, for_statement,
  while_statement, do_statement, switch, break, continue, return, goto, asm, try, throw,
  empty_statement,
}
use idakit.Ctree.Tree.{Ctree, CtreeBuilder, push_local, finish}
use idakit.Ctree.Extract.{
  ExtractError, opt_id, CallbackBuilder, push_expression, push_statement, push_obj, known_kind,
  push_classified, keep_addresses, fail_addresses, scalar_too_wide, unfilled_type,
}

-- The cases of a switch: each body with as many of the values as its count says.
unfoldable pub split_cases : List StatementId → List ℕ → List ℕ → Option (List Case)
split_cases (body ∷ bodies) (n ∷ counts) values =
    let rest = split_cases bodies counts (drop n values) in
    if ltb (length values) n
    then none
    else (rest >>= (λ cs. some (record { values = take n values; body = body } ∷ cs)))
split_cases bodies counts values = some []

-- One node callback of the walk.
pub data NodeCall : Type 0 where
  -- address, value, type
  e_num e_fnum : ℕ → ℕ → TypeId → NodeCall
  -- address, target, name, type
  e_obj : ℕ → ℕ → Str → TypeId → NodeCall
  e_var : ℕ → ℕ → TypeId → NodeCall
  e_str e_helper : ℕ → Str → TypeId → NodeCall
  -- address, callee, arguments, type
  e_call : ℕ → ℕ → List ℕ → TypeId → NodeCall
  -- address, object, offset, type
  e_memref e_memptr : ℕ → ℕ → ℕ → TypeId → NodeCall
  -- address, x, size, type
  e_deref : ℕ → ℕ → ℕ → TypeId → NodeCall
  -- address, ctype, x, y, z, type
  e_op : ℕ → ℕ → ℕ → ℕ → ℕ → TypeId → NodeCall
  s_block : ℕ → List ℕ → NodeCall
  s_expr : ℕ → ℕ → NodeCall
  -- address, cond, then, else
  s_if : ℕ → ℕ → ℕ → ℕ → NodeCall
  -- address, init, cond, step, body
  s_for : ℕ → ℕ → ℕ → ℕ → ℕ → NodeCall
  s_while s_do : ℕ → ℕ → ℕ → NodeCall
  -- address, expression, bodies, counts, values
  s_switch : ℕ → ℕ → List ℕ → List ℕ → List ℕ → NodeCall
  s_break s_continue s_empty : ℕ → NodeCall
  s_return s_throw s_goto : ℕ → ℕ → NodeCall
  s_asm : ℕ → List ℕ → NodeCall
  -- address, body, catches
  s_try : ℕ → ℕ → List ℕ → NodeCall

-- `(!name.is_empty()).then_some(name)`.
abbrev pub non_empty : Str → Option Str
non_empty s = if is_empty s then none else some s

-- The callback's handler: the handle of the new node, and the builder.
unfoldable pub apply : NodeCall → CallbackBuilder → Option (ℕ × CallbackBuilder)
unfolding push_expression push_statement push_obj push_classified known_kind keep_addresses
    fail_addresses split_cases opt_id try_new
apply (e_num a v t) c = push_expression a t (num v) c
apply (e_fnum a v t) c = push_expression a t (fnum v) c
apply (e_obj a target name t) c = push_obj a (try_new target) (non_empty name) t c
apply (e_var a i t) c = push_expression a t (var i) c
apply (e_str a s t) c = push_expression a t (string s) c
apply (e_helper a s t) c = push_expression a t (helper s) c
apply (e_call a f args t) c = push_expression a t (call f args) c
apply (e_memref a o off t) c = push_expression a t (member_ref o off) c
apply (e_memptr a o off t) c = push_expression a t (member_ptr o off) c
apply (e_deref a x size t) c = push_expression a t (deref x size) c
apply (e_op a ctype x y z t) c = push_classified a ctype t (known_kind ctype x y z) c
apply (s_block a kids) c = push_statement a (block kids) c
apply (s_expr a e) c = push_statement a (expression e) c
apply (s_if a cond yes_s no_s) c = push_statement a (if_statement cond yes_s (opt_id no_s)) c
apply (s_for a i cond step body) c =
    push_statement a (for_statement (opt_id i) (opt_id cond) (opt_id step) body) c
apply (s_while a cond body) c = push_statement a (while_statement cond body) c
apply (s_do a body cond) c = push_statement a (do_statement body cond) c
apply (s_switch a e bodies counts values) c = do
  cs ← split_cases bodies counts values
  push_statement a (switch e cs) c
apply (s_break a) c = push_statement a break c
apply (s_continue a) c = push_statement a continue c
apply (s_empty a) c = push_statement a empty_statement c
apply (s_return a e) c = push_statement a (return (opt_id e)) c
apply (s_throw a e) c = push_statement a (throw (opt_id e)) c
apply (s_goto a label) c = push_statement a (goto label) c
apply (s_asm a addrs) c = push_statement a (asm (keep_addresses addrs)) (fail_addresses addrs c)
apply (s_try a body catches) c = push_statement a (try body catches) c

-- A type callback changes the type builder and no other part.
abbrev pub with_types : TypeBuilder → CallbackBuilder → CallbackBuilder
with_types t c = record {
  b = record { nodes = c.b.nodes; types = t; locals = c.b.locals };
  error = c.error;
}

-- `l_lvar`, with the bits of its flags.
pub record LocPiece : Type 0 where
  pub atype : ℕ
  pub reg : ℕ
  pub sval : ℕ
  pub off : ℕ
  pub size : ℕ

unfoldable pub read_pieces : List LocPiece → Option LocationPieces
unfolding from_argloc
read_pieces [] = some no_pieces
read_pieces (p ∷ ps) = do
  l ← from_argloc p.atype p.reg 0 p.sval no_pieces
  rest ← read_pieces ps
  some (more_pieces l p.off p.size rest)

abbrev pub flag_bit : ℕ → ℕ → Bool
flag_bit flags k = not ((flags / 2 ^ k) % 2 == 0)

unfoldable pub l_lvar :
    Str
    → TypeId
    → ℕ
    → ℕ
    → Str
    → ℕ
    → ℕ
    → ℕ
    → ℕ
    → List LocPiece
    → CallbackBuilder
    → Option CallbackBuilder
unfolding read_pieces from_argloc push_local
l_lvar name ty flags width comment atype reg1 reg2 sval pieces c = do
  ps ← read_pieces pieces
  l ← from_argloc atype reg1 reg2 sval ps
  (i, b) ←
      push_local
        (record {
          name = name;
          ty = ty;
          is_arg = flag_bit flags 0;
          is_result = flag_bit flags 1;
          is_byref = flag_bit flags 2;
          width = width;
          comment = non_empty comment;
          location = l;
        })
        c.b
  some (record c { b = b })

-- `finish`: a node failure, then a width that is too great, then a type that was never filled.
pub data Outcome : Type 0 where
  extracted : Ctree → Outcome
  failed : ExtractError → Outcome

abbrev pub built : Option Ctree → Option Outcome
built none = none
built (some t) = some (extracted t)

unfoldable pub finish_types : Option ℕ → ℕ → StatementId → CtreeBuilder → Option Outcome
unfolding finish
finish_types (some bytes) n root b = some (failed (scalar_too_wide bytes))
finish_types none n root b =
    let done = built (finish root b) in if n == 0 then done else some (failed (unfilled_type n))

abbrev pub finish_with : Option ExtractError → StatementId → CtreeBuilder → Option Outcome
finish_with (some e) root b = some (failed e)
finish_with none root b = finish_types b.types.too_wide (unfilled b.types) root b

unfoldable pub finish_walk : StatementId → CallbackBuilder → Option Outcome
unfolding finish_types unfilled
finish_walk root c = finish_with c.error root c.b
