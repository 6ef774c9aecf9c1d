-- ===== src/Expr/Lower/Correct.antt =====
-- crates/idakit/src/types/expr.rs against crates/idakit-sys/facade/type_write_common.cpp: what
-- `build_recipe` makes of the bytes that `checked_serialize` writes.
use idakit.Base.{
  append_assoc, append-nil, ℕ, zero, suc, ◌+◌, ◌<◌, ◌≡◌, refl, sym, ◌∙◌, ap, Bool, Option, none,
  some, List, [], ◌∷◌, ◌++◌, Str, length, ◌>>=◌, arith, >>=-some, ◌^◌,
}
use idakit.Expr.{
  CallingConvention, TypeExpr, Params, params_length, void, bool, int, float, bitfield, decl, named,
  pointer, array, const, volatile, function, no_params, more_params,
}
use idakit.Expr.Wire.{
  name_text, le_bytes, encode, encode_params, encode_prototype, checked_serialize, check,
  check_params, ok,
}
use idakit.Expr.Recipe.{Kernel, run, only, build_recipe}
use idakit.Expr.Bytes.{read_le-le_bytes_eight, read_str-encode_len_prefixed}
use idakit.Expr.Lower.{meant_cc, lower_array, lower, lower_params, IsWireable, IsWireableParams}
use idakit.Expr.Lower.Opcodes.{
  some_injective, ok_injective, >>=-two, >>=-congr, run-push, step_int, step_float, step_bitfield,
  step_named, step_decl, step_array_lem, step_leaf, step_top_lem,
}
use idakit.Expr.Lower.Rounds.{rounds, rounds_params, rounds_enough}
use idakit.Expr.Lower.Steps.{
  fsts, snds, rev_onto, names, and_then-ok, nul_checked-ok, check_params-ok, names-NulFree,
  step_function-encode_prototype,
}

module _ {T : Type 0} (k : Kernel T) where
  open k use {
    simple_void, simple_bool, create_bitfield, get_named_type, parse_decl, create_ptr, create_array,
    set_const, set_volatile, create_func,
  }

  lower_params-names :
      (ps : Params) (qs : List (Str × T)) → lower_params k ps ≡ some qs → fsts qs ≡ names ps
  unfolding lower
  lower_params-names no_params qs h = ap fsts (some_injective (sym h))
  lower_params-names (more_params n e ps) qs h =
      let (t, a, h') = >>=-some (lower k e) _ h in
      let (rs, b, c) = >>=-some (lower_params k ps) _ h' in
      ap fsts (some_injective (sym c)) ∙ ap (λ l. name_text n ∷ l) (lower_params-names ps rs b)

  function_round :
      (ps : Params) (v : Bool) (c : Option CallingConvention) (f : ℕ) (rest : Str) (r : T)
      (st : List T) (qs : List (Str × T))
      → IsWireableParams ps
      → params_length ps < 2 ^ 32
      → check_params ps ≡ ok tt
      → lower_params k ps ≡ some qs
      → run k (suc f) (10 ∷ (encode_prototype ps v c ++ rest)) (rev_onto (snds qs) (r ∷ st))
        ≡ (create_func r qs (meant_cc v c) >>= (λ t. run k f rest (t ∷ st)))
  function_round ps v c f rest r st qs w small h e =
      let buf = encode_prototype ps v c ++ rest in
      let stack = rev_onto (snds qs) (r ∷ st) in
      run-push k 10 f buf rest stack st (create_func r qs (meant_cc v c)) (
        (step_leaf k buf stack).2
        ∙ step_function-encode_prototype k ps v c rest qs r st w small (names-NulFree ps h)
            (lower_params-names ps qs e))

  mutual
    unfolding encode lower check IsWireable

    run-encode :
        (e : TypeExpr) (f : ℕ) (rest : Str) (st : List T)
        → IsWireable e
        → check e ≡ ok tt
        → run k (rounds e f) (encode e ++ rest) st ≡ (lower k e >>= (λ t. run k f rest (t ∷ st)))
    run-encode void f rest st w h =
        run-push k 0 f rest rest st st simple_void (step_leaf k rest st).0
    run-encode bool f rest st w h =
        run-push k 1 f rest rest st st simple_bool (step_leaf k rest st).1
    run-encode (int b s) f rest st w h = run-push k 2 f _ rest st st _ (step_int k b s rest st)
    run-encode (float b) f rest st w h = run-push k 3 f _ rest st st _ (step_float k b rest st)
    run-encode (bitfield n m s) f rest st w h =
        run-push k 11 f _ rest st st _ (step_bitfield k n m s rest st)
    run-encode (named n) f rest st w h =
        run-push k 4 f _ rest st st _
          (step_named k _ rest n st (read_str-encode_len_prefixed n rest w) (nul_checked-ok n _ h))
    run-encode (decl n) f rest st w h =
        run-push k 5 f _ rest st st _
          (step_decl k _ rest n st (read_str-encode_len_prefixed n rest w) (nul_checked-ok n _ h))
    run-encode (pointer e) f rest st w h =
        ap (λ b. run k (rounds e (suc f)) b st) (append_assoc (encode e) (6 ∷ []) rest)
        ∙ run-encode e (suc f) (6 ∷ rest) st w h
        ∙ >>=-two (lower k e) create_ptr _ _
            (λ t. run-push k 6 f rest rest (t ∷ st) st (create_ptr t) (step_top_lem k rest t st).0)
    run-encode (array e len) f rest st w h =
        ap (λ b. run k (rounds e (suc f)) b st) (append_assoc (encode e) (7 ∷ le_bytes 8 len) rest)
        ∙ run-encode e (suc f) (7 ∷ (le_bytes 8 len ++ rest)) st w.0 h
        ∙ >>=-two (lower k e) _ _ _ (λ t.
          run-push k 7 f _ rest (t ∷ st) st (lower_array k t len)
            (step_array_lem k len _ rest t st (read_le-le_bytes_eight len rest w.1)))
    run-encode (const e) f rest st w h =
        ap (λ b. run k (rounds e (suc f)) b st) (append_assoc (encode e) (8 ∷ []) rest)
        ∙ run-encode e (suc f) (8 ∷ rest) st w h
        ∙ >>=-two (lower k e) _ _ _ (λ t.
          run-push k 8 f rest rest (t ∷ st) st (some (set_const t)) (step_top_lem k rest t st).1)
    run-encode (volatile e) f rest st w h =
        ap (λ b. run k (rounds e (suc f)) b st) (append_assoc (encode e) (9 ∷ []) rest)
        ∙ run-encode e (suc f) (9 ∷ rest) st w h
        ∙ >>=-two (lower k e) _ _ _ (λ t.
          run-push k 9 f rest rest (t ∷ st) st (some (set_volatile t)) (step_top_lem k rest t st).2)
    run-encode (function ret ps v c) f rest st w h =
        let (u, a, b) = and_then-ok (check ret) _ h in
        let proto = 10 ∷ encode_prototype ps v c in
        ap (λ b. run k (rounds ret (rounds_params ps (suc f))) b st)
          (append_assoc (encode ret) (encode_params ps ++ proto) rest
            ∙ ap (λ b. encode ret ++ b) (append_assoc (encode_params ps) proto rest))
        ∙ run-encode ret (rounds_params ps (suc f)) (encode_params ps ++ (proto ++ rest)) st w.0 a
        ∙ >>=-two (lower k ret) _ _ _ (λ r.
          run-encode_params ps (suc f) (proto ++ rest) (r ∷ st) w.1 b
          ∙ >>=-congr (lower_params k ps) _ _
              (λ qs e. function_round ps v c f rest r st qs w.1 w.2 b e)
          ∙ >>=-two (lower_params k ps) _ _ _ (λ qs. refl))

    run-encode_params :
        (ps : Params) (f : ℕ) (rest : Str) (st : List T)
        → IsWireableParams ps
        → check_params ps ≡ ok tt
        → run k (rounds_params ps f) (encode_params ps ++ rest) st
          ≡ (lower_params k ps >>= (λ qs. run k f rest (rev_onto (snds qs) st)))
    run-encode_params no_params f rest st w h = refl
    run-encode_params (more_params n e ps) f rest st w h =
        let (a, b, c) = check_params-ok n e ps h in
        ap (λ b. run k (rounds e (rounds_params ps f)) b st)
          (append_assoc (encode e) (encode_params ps) rest)
        ∙ run-encode e (rounds_params ps f) (encode_params ps ++ rest) st w.1 b
        ∙ >>=-two (lower k e) _ _ _ (λ t.
          run-encode_params ps f rest (t ∷ st) w.2 c
          ∙ >>=-two (lower_params k ps) _ _ _ (λ qs. refl))

>>=-some_last :
    {A : Type 0} (o : Option A) (f : A → Option A) → ((a : A) → f a ≡ some a) → (o >>= f) ≡ o
>>=-some_last none f h = refl
>>=-some_last (some a) f h = h a

run_end : {T : Type 0} (k : Kernel T) (f : ℕ) (t : T) → (run k f [] (t ∷ []) >>= only k) ≡ some t
unfolding run only
run_end k zero t = refl
run_end k (suc f) t = refl

build_recipe-encode :
    {T : Type 0} (k : Kernel T) (e : TypeExpr)
    → IsWireable e
    → check e ≡ ok tt
    → build_recipe k (encode e) ≡ lower k e
unfolding build_recipe
build_recipe-encode k e w h =
    let (d, enough) = rounds_enough e in
    let fuel : length (encode e) ≡ rounds e (d + 0) = omega (arith, enough 0) in
    ap (λ f. run k f (encode e) [] >>= only k) fuel
    ∙ ap (λ b. run k (rounds e (d + 0)) b [] >>= only k) (sym (append-nil (encode e)))
    ∙ ap (λ o. o >>= only k) (run-encode k e (d + 0) [] [] w h)
    ∙ sym (>>=-two (lower k e) (λ t. run k (d + 0) [] (t ∷ [])) (only k) _ (λ t. refl))
    ∙ >>=-some_last (lower k e) _ (run_end k (d + 0))

-- For every kernel, when a recipe whose fields fit the wire form passes the check against NUL bytes
-- and is serialized, the facade builds from those bytes what the kernel's constructors give for the
-- recipe itself, and fails exactly where one of them does.
pub build_recipe-checked_serialize :
    {T : Type 0} (k : Kernel T) (e : TypeExpr) {buf : Str}
    → IsWireable e
    → checked_serialize e ≡ ok buf
    → build_recipe k buf ≡ lower k e
unfolding checked_serialize
build_recipe-checked_serialize k e w h =
    let (u, passes, same) = and_then-ok (check e) _ h in
    ap (build_recipe k) (ok_injective (sym same)) ∙ build_recipe-encode k e w passes
