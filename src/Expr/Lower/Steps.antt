-- ===== src/Expr/Lower/Steps.antt =====
-- crates/idakit-sys/facade/type_write_common.cpp: the function step of `build_recipe` on the bytes
-- that crates/idakit/src/types/expr.rs writes for a prototype.
use idakit.Base.{
  append_assoc, append-nil, ℕ, suc, ◌+◌, ◌*◌, ◌/◌, ◌^◌, ◌<◌, ◌≤◌, ◌≡◌, refl, sym, subst, ◌∙◌, ap,
  Bool, true, false, Option, none, some, List, [], ◌∷◌, ◌++◌, Str, length, ltb, arith, All,
  length-append,
}
use idakit.Expr.{
  CallingConvention, unknown, cdecl, stdcall, pascal, fastcall, thiscall, swift, golang,
  convention_raw, TypeExpr, Params, params_length, no_params, more_params,
}
use idakit.Expr.Wire.{
  flag, name_text, cc_raw, le_bytes, encode_names, encode_len_prefixed, encode_prototype, has_nul,
  check, check_params, check_name, nul_checked, Checked, ok, interior_nul, and_then,
}
use idakit.Expr.Recipe.{
  Kernel, explicit, choose_cc, read_le, read_names, read_str, zip_args, pop_args, step_function,
  push,
}
use idakit.Expr.Bytes.{
  read_byte, read_le-le_bytes_two, read_le-le_bytes_four, saturate_small,
  length-encode_len_prefixed_ge, read_str-encode_len_prefixed, c_str_nul_free,
}
use idakit.Expr.Lower.{meant_cc, IsWireable, IsWireableParams}

abbrev pub fsts : {T : Type 0} → List (Str × T) → List Str
fsts [] = []
fsts ((n, t) ∷ ps) = n ∷ fsts ps

abbrev pub snds : {T : Type 0} → List (Str × T) → List T
snds [] = []
snds ((n, t) ∷ ps) = t ∷ snds ps

-- The stack, top first, after its entries were pushed.
abbrev pub rev_onto : {T : Type 0} → List T → List T → List T
rev_onto [] st = st
rev_onto (t ∷ ts) st = rev_onto ts (t ∷ st)

abbrev pub names : Params → List Str
names no_params = []
names (more_params n e ps) = name_text n ∷ names ps

abbrev pub NulFree : List Str → Type 0
NulFree = All (λ s. has_nul s ≡ false)

pub and_then-ok :
    {A B : Type 0} (c : Checked A) (f : A → Checked B) {b : B}
    → and_then c f ≡ ok b
    → (a : A) × (c ≡ ok a) × (f a ≡ ok b)
unfolding and_then
and_then-ok (ok a) f h = (a, refl, h)
and_then-ok (interior_nul l) f h = cc

pub nul_checked-ok : (s l : Str) → nul_checked s l ≡ ok tt → has_nul s ≡ false
unfolding nul_checked
nul_checked-ok s l h = ground arith

check_name-ok : (n : Option Str) → check_name n ≡ ok tt → has_nul (name_text n) ≡ false
unfolding check_name has_nul
check_name-ok none h = refl
check_name-ok (some n) h = nul_checked-ok n _ h

pub check_params-ok :
    (n : Option Str) (e : TypeExpr) (ps : Params)
    → check_params (more_params n e ps) ≡ ok tt
    → (has_nul (name_text n) ≡ false) × (check e ≡ ok tt) × (check_params ps ≡ ok tt)
unfolding check
check_params-ok n e ps h =
    let (u, a, h') = and_then-ok (check_name n) _ h in
    let (v, b, c) = and_then-ok (check e) _ h' in (check_name-ok n a, b, c)

pub names-NulFree : (ps : Params) → check_params ps ≡ ok tt → NulFree (names ps)
names-NulFree no_params h = tt
names-NulFree (more_params n e ps) h =
    let (a, b, c) = check_params-ok n e ps h in (a, names-NulFree ps c)

read_names_none : (rest : Str) → read_names 0 rest ≡ some ([], rest)
unfolding read_names
read_names_none rest = refl

read_names_more :
    (n : ℕ) (buf : Str) {r rest : Str} {s : Str} {ss : List Str}
    → read_str buf ≡ some (s, r)
    → read_names n r ≡ some (ss, rest)
    → read_names (suc n) buf ≡ some (s ∷ ss, rest)
unfolding read_names
read_names_more n buf h h' = rw (h, h')

read_names-encode_names :
    (ps : Params) (rest : Str)
    → IsWireableParams ps
    → read_names (params_length ps) (encode_names (params_length ps) ps ++ rest)
      ≡ some (names ps, rest)
unfolding encode_names IsWireable
read_names-encode_names no_params rest w = read_names_none rest
read_names-encode_names (more_params n e ps) rest w =
    let after = encode_names (params_length ps) ps in
    read_names_more _ _
      (ap read_str (append_assoc (encode_len_prefixed (name_text n)) after rest)
        ∙ read_str-encode_len_prefixed (name_text n) (after ++ rest) w.0)
      (read_names-encode_names ps rest w.2)

length-encode_names_ge :
    (ps : Params) → 4 * params_length ps ≤ length (encode_names (params_length ps) ps)
unfolding encode_names
length-encode_names_ge no_params = omega arith
length-encode_names_ge (more_params n e ps) = omega (
  arith,
  length-encode_names_ge ps,
  length-encode_len_prefixed_ge (name_text n),
  length-append (encode_len_prefixed (name_text n)) (encode_names (params_length ps) ps),
)

module _ {T : Type 0} where
  pub pop_args-rev_onto :
      (ts st acc : List T) (n : ℕ)
      → pop_args (length ts + n) (rev_onto ts st) acc ≡ pop_args n st (ts ++ acc)
  unfolding pop_args
  pop_args-rev_onto [] st acc n =
      let e : 0 + n ≡ n = omega arith in ap (λ (m : ℕ). pop_args m st acc) e
  pop_args-rev_onto (t ∷ ts) st acc n =
      let e : length (t ∷ ts) + n ≡ length ts + suc n = omega arith in
      ap (λ (m : ℕ). pop_args m (rev_onto ts (t ∷ st)) acc) e
      ∙ pop_args-rev_onto ts (t ∷ st) acc (suc n)

  popped : (ts st : List T) → pop_args 0 st (ts ++ []) ≡ some (ts, st)
  unfolding pop_args
  popped ts st = ap (λ (l : List T). some (l, st)) (append-nil ts)

  zip_args-names : (qs : List (Str × T)) → NulFree (fsts qs) → zip_args (fsts qs) (snds qs) ≡ qs
  zip_args-names [] h = refl
  zip_args-names ((n, t) ∷ qs) h = rw (c_str_nul_free n h.0, zip_args-names qs h.1)

module _ {T : Type 0} (k : Kernel T) where
  open k use {create_func}

  step_function_lem :
      (buf : Str) (st : List T) {b1 b2 b3 rest : Str} {st' : List T} {n v c : ℕ} {ns : List Str}
      {ts : List T} {r : T}
      → read_le 4 buf ≡ some (n, b1)
      → read_le 1 b1 ≡ some (v, b2)
      → read_le 2 b2 ≡ some (c, b3)
      → ltb (length b3 / 4) n ≡ false
      → read_names n b3 ≡ some (ns, rest)
      → pop_args n st [] ≡ some (ts, r ∷ st')
      → step_function k buf st ≡ push k st' rest (create_func r (zip_args ns ts) (choose_cc k v c))
  unfolding step_function
  step_function_lem buf st a b c g d e = rw (a, b, c, g, d, e)

  by_convention :
      (c : CallingConvention) → choose_cc k 0 (convention_raw c) ≡ explicit (convention_raw c)
  unfolding choose_cc convention_raw
  by_convention unknown = refl
  by_convention cdecl = refl
  by_convention stdcall = refl
  by_convention pascal = refl
  by_convention fastcall = refl
  by_convention thiscall = refl
  by_convention swift = refl
  by_convention golang = refl

  choose-meant_cc :
      (v : Bool) (c : Option CallingConvention) → choose_cc k (flag v) (cc_raw c) ≡ meant_cc v c
  unfolding choose_cc convention_raw
  choose-meant_cc true c = refl
  choose-meant_cc false none = refl
  choose-meant_cc false (some c) = by_convention c

module _ {T : Type 0} where
  length-fsts : (qs : List (Str × T)) → length (snds qs) ≡ length (fsts qs)
  length-fsts [] = refl
  length-fsts ((n, t) ∷ qs) = ap suc (length-fsts qs)

length-names : (ps : Params) → length (names ps) ≡ params_length ps
length-names no_params = refl
length-names (more_params n e ps) = ap suc (length-names ps)

encode_prototype_lem :
    (ps : Params) (v : Bool) (c : Option CallingConvention) (rest : Str)
    → params_length ps < 2 ^ 32
    → encode_prototype ps v c ++ rest
      ≡ le_bytes 4 (params_length ps)
        ++ (flag v ∷ (le_bytes 2 (cc_raw c) ++ (encode_names (params_length ps) ps ++ rest)))
unfolding encode_prototype
encode_prototype_lem ps v c rest h =
    let n = params_length ps in
    ap
      (λ (m : ℕ). (le_bytes 4 m ++ (flag v ∷ (le_bytes 2 (cc_raw c) ++ encode_names m ps))) ++ rest)
      (saturate_small n h)
    ∙ append_assoc (le_bytes 4 n) (flag v ∷ (le_bytes 2 (cc_raw c) ++ encode_names n ps)) rest
    ∙ ap (λ (t : Str). le_bytes 4 n ++ (flag v ∷ t))
        (append_assoc (le_bytes 2 (cc_raw c)) (encode_names n ps) rest)

cc_raw_small : (c : Option CallingConvention) → cc_raw c < 2 ^ 16
unfolding convention_raw
cc_raw_small c = ground arith

count_fits :
    (ps : Params) (rest : Str)
    → ltb (length (encode_names (params_length ps) ps ++ rest) / 4) (params_length ps) ≡ false
count_fits ps rest =
    ground
      (arith, length-encode_names_ge ps, length-append (encode_names (params_length ps) ps) rest)

-- The step makes the prototype of the types on the stack and of the names that were written.
pub step_function-encode_prototype :
    {T : Type 0} (k : Kernel T) (ps : Params) (v : Bool) (c : Option CallingConvention) (rest : Str)
    (qs : List (Str × T)) (r : T) (st : List T)
    → IsWireableParams ps
    → params_length ps < 2 ^ 32
    → NulFree (names ps)
    → fsts qs ≡ names ps
    → step_function k (encode_prototype ps v c ++ rest) (rev_onto (snds qs) (r ∷ st))
      ≡ push k st rest (k.create_func r qs (meant_cc v c))
step_function-encode_prototype k ps v c rest qs r st w small free e =
    let n = params_length ps in
    let ns = encode_names n ps ++ rest in
    let same : length (snds qs) + 0 ≡ n =
      omega (arith, length-fsts qs, ap length e, length-names ps) in
    let args : zip_args (names ps) (snds qs) ≡ qs =
      ap (λ l. zip_args l (snds qs)) (sym e) ∙ zip_args-names qs (subst NulFree (sym e) free) in
    step_function_lem k (encode_prototype ps v c ++ rest) (rev_onto (snds qs) (r ∷ st))
      (ap (read_le 4) (encode_prototype_lem ps v c rest small)
        ∙ read_le-le_bytes_four n (flag v ∷ (le_bytes 2 (cc_raw c) ++ ns)) small)
      (read_byte (flag v) (le_bytes 2 (cc_raw c) ++ ns))
      (read_le-le_bytes_two (cc_raw c) ns (cc_raw_small c)) (count_fits ps rest)
      (read_names-encode_names ps rest w)
      (ap (λ m. pop_args m (rev_onto (snds qs) (r ∷ st)) []) (sym same)
        ∙ pop_args-rev_onto (snds qs) (r ∷ st) [] 0
        ∙ popped (snds qs) (r ∷ st))
    ∙ ap (λ o. push k st rest (k.create_func r o (choose_cc k (flag v) (cc_raw c)))) args
    ∙ ap (λ o. push k st rest (k.create_func r qs o)) (choose-meant_cc k v c)
