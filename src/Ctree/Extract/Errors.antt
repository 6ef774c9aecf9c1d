-- ===== src/Ctree/Extract/Errors.antt =====
-- crates/idakit/src/decompiler/ctree/extract.rs: which failure a walk reports.
use idakit.Base.{
  ℕ, zero, suc, length, ◌-◌, ◌^◌, Bool, true, false, Option, none, some, List, [], ◌∷◌, Str, leb,
  ◌==◌, ◌||◌, ◌&&◌, if◌then◌else◌, ◌>>=◌, >>=-some, ◌≡◌, refl, sym, ◌∙◌, ap, arith,
}
use idakit.Address.{Address, try_new}
use idakit.Ops.{binary_try_from, assignment_try_from, unary_try_from}
use idakit.Types.Table.{TypeId}
use idakit.Types.Builder.{TypeBuilder, unfilled}
use idakit.Ctree.{Local, ExpressionKind, StatementKind, internal, empty}
use idakit.Ctree.Tree.{Ctree, CtreeBuilder, finish, push_local, add_expression, add_statement}
use idakit.Ctree.Extract.{
  ExtractError, unknown_expression_tag, bad_address, CallbackBuilder, new_callbacks, first_of, fail,
  push_expression, push_statement, push_obj, or_else, known_kind, structural_try_from,
  structural_kind, op16, push_classified, fail_addresses, scalar_too_wide, unfilled_type,
}
use idakit.Ctree.Extract.Calls.{
  split_cases, NodeCall, e_num, e_fnum, e_obj, e_var, e_str, e_helper, e_call, e_memref, e_memptr,
  e_deref, e_op, s_block, s_expr, s_if, s_for, s_while, s_do, s_switch, s_break, s_continue,
  s_empty, s_return, s_throw, s_goto, s_asm, s_try, apply, with_types, finish_with, finish_walk,
  finish_types, Outcome, extracted, failed, built,
}

-- A callback of the walk: for a node, for a type, or for a local.
pub data Call : Type 0 where
  on_node : NodeCall → Call
  on_type : (TypeBuilder → Option TypeBuilder) → Call
  on_local : Local → Call

abbrev pub apply_call : Call → CallbackBuilder → Option CallbackBuilder
apply_call (on_node n) c = apply n c >>= (λ p. some p.1)
apply_call (on_type f) c = f c.b.types >>= (λ t. some (with_types t c))
apply_call (on_local l) c = push_local l c.b >>= (λ p. some (record c { b = p.1 }))

abbrev pub apply_all : List Call → CallbackBuilder → Option CallbackBuilder
apply_all [] c = some c
apply_all (n ∷ ns) c = apply_call n c >>= apply_all ns

-- The tags of `ctype_t` that a generic operator callback may have.
abbrev pub is_known : ℕ → Bool
is_known c = leb c 50 || (leb 52 c && leb c 56) || c == 58 || c == 66 || c == 67 || c == 69

abbrev pub any_bad : List ℕ → Bool
any_bad [] = false
any_bad (a ∷ as') = leb (2 ^ 64 - 1) a || any_bad as'

-- What is wrong with a callback, of itself.
abbrev pub error_of : NodeCall → Option ExtractError
error_of (e_obj a target name t) = if leb (2 ^ 64 - 1) target then some bad_address else none
error_of (e_op a ctype x y z t) =
    if is_known ctype then none else some (unknown_expression_tag ctype)
error_of (s_asm a addrs) = if any_bad addrs then some bad_address else none
error_of _ = none

abbrev pub first_error : List Call → Option ExtractError
first_error [] = none
first_error (on_node n ∷ ns) = or_else (error_of n) (first_error ns)
first_error (on_type f ∷ ns) = first_error ns
first_error (on_local l ∷ ns) = first_error ns

some_pair :
    {A B : Type 0} {a c : A} {b d : B}
    → ◌≡◌ {A = Option (A × B)} (some (a, b)) (some (c, d))
    → b ≡ d
some_pair h = cc

push_expression-error :
    (a : ℕ) (t : TypeId) (k : ExpressionKind) (c c' : CallbackBuilder) (i : ℕ)
    → push_expression a t k c ≡ some (i, c')
    → c'.error ≡ c.error
unfolding push_expression
push_expression-error a t k c c' i h =
    let ((j, b), e, f) = >>=-some (add_expression t k (try_new a) c.b) _ h in
    ap (λ (x : CallbackBuilder). x.error) (sym (some_pair f))

push_statement-error :
    (a : ℕ) (k : StatementKind) (c c' : CallbackBuilder) (i : ℕ)
    → push_statement a k c ≡ some (i, c')
    → c'.error ≡ c.error
unfolding push_statement
push_statement-error a k c c' i h =
    let ((j, b), e, f) = >>=-some (add_statement k (try_new a) c.b) _ h in
    ap (λ (x : CallbackBuilder). x.error) (sym (some_pair f))

first_of-or_else : (o : Option ExtractError) (e : ExtractError) → first_of o e ≡ or_else o (some e)
first_of-or_else none e = refl
first_of-or_else (some f) e = refl

or_else_right : (o : Option ExtractError) → or_else o none ≡ o
or_else_right none = refl
or_else_right (some f) = refl

or_else_assoc : (o p q : Option ExtractError) → or_else (or_else o p) q ≡ or_else o (or_else p q)
or_else_assoc none p q = refl
or_else_assoc (some e) p q = refl

-- The failures of an assembly statement's addresses.
fail_addresses-error :
    (as' : List ℕ) (c : CallbackBuilder)
    → (fail_addresses as' c).error
      ≡ or_else c.error (if any_bad as' then some bad_address else none)
unfolding fail_addresses try_new fail
fail_addresses-error [] c = sym (or_else_right c.error)
fail_addresses-error (a ∷ as') c = ground (
  arith,
  fail_addresses-error as' c,
  fail_addresses-error as' (fail bad_address c),
  first_of-or_else c.error bad_address,
)

abbrev is_some : {A : Type 0} → Option A → Bool
is_some none = false
is_some (some a) = true

-- Which tags are classified.
known_kind-is_known : (ctype x y z : ℕ) → is_some (known_kind ctype x y z) ≡ is_known ctype
unfolding known_kind structural_try_from structural_kind op16 assignment_try_from binary_try_from
    unary_try_from
known_kind-is_known ctype x y z = ground arith

push_classified-error :
    (a ctype : ℕ) (t : TypeId) (k : Option ExpressionKind) (c c' : CallbackBuilder) (i : ℕ)
    → push_classified a ctype t k c ≡ some (i, c')
    → c'.error ≡ or_else c.error (if is_some k then none else some (unknown_expression_tag ctype))
unfolding push_classified fail
push_classified-error a ctype t (some k) c c' i h =
    push_expression-error a t k c c' i h ∙ sym (or_else_right c.error)
push_classified-error a ctype t none c c' i h =
    push_expression-error a t internal (fail (unknown_expression_tag ctype) c) c' i h
    ∙ first_of-or_else c.error (unknown_expression_tag ctype)

push_obj_lem :
    (a : ℕ) (o : Option Address) (n : Option Str) (t : TypeId) (c c' : CallbackBuilder) (i : ℕ)
    → push_obj a o n t c ≡ some (i, c')
    → c'.error ≡ or_else c.error (if is_some o then none else some bad_address)
unfolding push_obj fail
push_obj_lem a (some x) n t c c' i h =
    push_expression-error a t _ c c' i h ∙ sym (or_else_right c.error)
push_obj_lem a none n t c c' i h =
    push_expression-error a t empty (fail bad_address c) c' i h
    ∙ first_of-or_else c.error bad_address

is_some-try_new :
    (target : ℕ)
    → (if is_some (try_new target) then none else some bad_address)
      ≡ (if leb (2 ^ 64 - 1) target then some bad_address else none)
unfolding try_new
is_some-try_new target = ground arith

push_obj-error :
    (a target : ℕ) (n : Option Str) (t : TypeId) (c c' : CallbackBuilder) (i : ℕ)
    → push_obj a (try_new target) n t c ≡ some (i, c')
    → c'.error ≡ or_else c.error (if leb (2 ^ 64 - 1) target then some bad_address else none)
push_obj-error a target n t c c' i h =
    push_obj_lem a (try_new target) n t c c' i h ∙ ap (or_else c.error) (is_some-try_new target)

same_error : (c c' : CallbackBuilder) → c'.error ≡ c.error → c'.error ≡ or_else c.error none
same_error c c' h = h ∙ sym (or_else_right c.error)

apply-error :
    (n : NodeCall) (c c' : CallbackBuilder) (i : ℕ)
    → apply n c ≡ some (i, c')
    → c'.error ≡ or_else c.error (error_of n)
unfolding apply
apply-error (e_num a v t) c c' i h = same_error c c' (push_expression-error _ _ _ c c' i h)
apply-error (e_fnum a v t) c c' i h = same_error c c' (push_expression-error _ _ _ c c' i h)
apply-error (e_obj a target name t) c c' i h = push_obj-error a target _ t c c' i h
apply-error (e_var a v t) c c' i h = same_error c c' (push_expression-error _ _ _ c c' i h)
apply-error (e_str a s t) c c' i h = same_error c c' (push_expression-error _ _ _ c c' i h)
apply-error (e_helper a s t) c c' i h = same_error c c' (push_expression-error _ _ _ c c' i h)
apply-error (e_call a f args t) c c' i h = same_error c c' (push_expression-error _ _ _ c c' i h)
apply-error (e_memref a o off t) c c' i h = same_error c c' (push_expression-error _ _ _ c c' i h)
apply-error (e_memptr a o off t) c c' i h = same_error c c' (push_expression-error _ _ _ c c' i h)
apply-error (e_deref a x size t) c c' i h = same_error c c' (push_expression-error _ _ _ c c' i h)
apply-error (e_op a ctype x y z t) c c' i h =
    push_classified-error a ctype t (known_kind ctype x y z) c c' i h
    ∙ ap (λ (b : Bool). or_else c.error (if b then none else some (unknown_expression_tag ctype)))
        (known_kind-is_known ctype x y z)
apply-error (s_block a kids) c c' i h = same_error c c' (push_statement-error _ _ c c' i h)
apply-error (s_expr a e) c c' i h = same_error c c' (push_statement-error _ _ c c' i h)
apply-error (s_if a cond yes_s no_s) c c' i h = same_error c c' (push_statement-error _ _ c c' i h)
apply-error (s_for a init cond step body) c c' i h =
    same_error c c' (push_statement-error _ _ c c' i h)
apply-error (s_while a cond body) c c' i h = same_error c c' (push_statement-error _ _ c c' i h)
apply-error (s_do a body cond) c c' i h = same_error c c' (push_statement-error _ _ c c' i h)
apply-error (s_switch a e bodies counts values) c c' i h =
    let (cs, x, y) = >>=-some (split_cases bodies counts values) _ h in
    same_error c c' (push_statement-error _ _ c c' i y)
apply-error (s_break a) c c' i h = same_error c c' (push_statement-error _ _ c c' i h)
apply-error (s_continue a) c c' i h = same_error c c' (push_statement-error _ _ c c' i h)
apply-error (s_empty a) c c' i h = same_error c c' (push_statement-error _ _ c c' i h)
apply-error (s_return a e) c c' i h = same_error c c' (push_statement-error _ _ c c' i h)
apply-error (s_throw a e) c c' i h = same_error c c' (push_statement-error _ _ c c' i h)
apply-error (s_goto a label) c c' i h = same_error c c' (push_statement-error _ _ c c' i h)
apply-error (s_asm a addrs) c c' i h =
    push_statement-error _ _ (fail_addresses addrs c) c' i h ∙ fail_addresses-error addrs c
apply-error (s_try a body catches) c c' i h = same_error c c' (push_statement-error _ _ c c' i h)

abbrev call_error : Call → Option ExtractError
call_error (on_node n) = error_of n
call_error (on_type f) = none
call_error (on_local l) = none

some_same : {A : Type 0} {a b : A} → some a ≡ some b → a ≡ b
some_same e = cc

apply_call-error :
    (n : Call) (c c' : CallbackBuilder)
    → apply_call n c ≡ some c'
    → c'.error ≡ or_else c.error (call_error n)
apply_call-error (on_node n) c c' h =
    let ((i, d), e, f) = >>=-some (apply n c) _ h in
    ap (λ (x : CallbackBuilder). x.error) (sym (some_same f)) ∙ apply-error n c d i e
apply_call-error (on_type g) c c' h =
    let (t, e, f) = >>=-some (g c.b.types) _ h in
    same_error c c' (ap (λ (x : CallbackBuilder). x.error) (sym (some_same f)))
apply_call-error (on_local l) c c' h =
    let (p, e, f) = >>=-some (push_local l c.b) _ h in
    same_error c c' (ap (λ (x : CallbackBuilder). x.error) (sym (some_same f)))

first_error-cons :
    (n : Call) (ns : List Call) → first_error (n ∷ ns) ≡ or_else (call_error n) (first_error ns)
first_error-cons (on_node n) ns = refl
first_error-cons (on_type f) ns = refl
first_error-cons (on_local l) ns = refl

apply_all-error :
    (ns : List Call) (c c' : CallbackBuilder)
    → apply_all ns c ≡ some c'
    → c'.error ≡ or_else c.error (first_error ns)
apply_all-error [] c c' h =
    same_error c c' (ap (λ (x : CallbackBuilder). x.error) (sym (some_same h)))
apply_all-error (n ∷ ns) c c' h =
    let (d, e, f) = >>=-some (apply_call n c) _ h in
    apply_all-error ns d c' f
    ∙ ap (λ o. or_else o (first_error ns)) (apply_call-error n c d e)
    ∙ or_else_assoc c.error (call_error n) (first_error ns)
    ∙ ap (or_else c.error) (sym (first_error-cons n ns))

-- What else may be wrong at the end of a walk: a width that is too great, or else types that were
-- declared and never filled.
abbrev pub type_error : Option ℕ → ℕ → Option ExtractError
type_error (some bytes) n = some (scalar_too_wide bytes)
type_error none zero = none
type_error none (suc n) = some (unfilled_type (suc n))

-- The failure that a walk has to report: that of a callback before that of the types.
abbrev pub failure : List Call → CallbackBuilder → Option ExtractError
failure calls c =
    or_else (first_error calls) (type_error c.b.types.too_wide (length c.b.types.pending))

-- The answer of a walk, from the failure it has to report and the tree it made.
abbrev pub answer : Option ExtractError → Option Ctree → Option Outcome
answer (some e) t = some (failed e)
answer none (some t) = some (extracted t)
answer none none = none

built-answer : (t : Option Ctree) → built t ≡ answer none t
built-answer none = refl
built-answer (some t) = refl

finish_types-answer :
    (w : Option ℕ) (n root : ℕ) (b : CtreeBuilder)
    → finish_types w n root b ≡ answer (type_error w n) (finish root b)
unfolding finish_types
finish_types-answer (some bytes) n root b = refl
finish_types-answer none zero root b = built-answer (finish root b)
finish_types-answer none (suc n) root b = ground arith

finish_with-answer :
    (o : Option ExtractError) (root : ℕ) (b : CtreeBuilder)
    → finish_with o root b
      ≡ answer (or_else o (type_error b.types.too_wide (length b.types.pending))) (finish root b)
unfolding finish_types unfilled
finish_with-answer (some e) root b = refl
finish_with-answer none root b =
    finish_types-answer b.types.too_wide (length b.types.pending) root b

-- When the callbacks of a walk, in any order and mixed with those for types and locals, have all been
-- handled, `finish` answers with the error of the first node callback that has one of itself: a
-- required address that is the sentinel, or a tag outside the known ones. When none has, it answers
-- with a scalar that was too wide, or else with the number of types never filled, if there are any.
-- Only when there is none of these does it answer with the tree.
pub finish_walk-first_error :
    (calls : List Call) (c : CallbackBuilder) (root : ℕ)
    → apply_all calls new_callbacks ≡ some c
    → finish_walk root c ≡ answer (failure calls c) (finish root c.b)
unfolding finish_walk new_callbacks
finish_walk-first_error calls c root h =
    ap (λ o. finish_with o root c.b) (apply_all-error calls new_callbacks c h)
    ∙ finish_with-answer (first_error calls) root c.b
