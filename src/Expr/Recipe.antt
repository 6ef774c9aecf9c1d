-- ===== src/Expr/Recipe.antt =====
-- crates/idakit-sys/facade/type_write_common.cpp: `build_recipe`, which rebuilds a type from the wire
-- form with one stack.
--
-- The kernel's type constructors are a parameter. `none` is `TYPE_ERR_INPUT`; a read past the end of
-- the buffer, which the source notes in `ok`, ends in it too.
use idakit.Base.{
  ℕ, zero, suc, ◌+◌, ◌*◌, ◌-◌, ◌/◌, ◌^◌, Bool, not, ◌||◌, Option, none, some, List, [], ◌∷◌, Str,
  length, take, drop, ltb, ◌==◌, if◌then◌else◌, ◌>>=◌,
}

-- `ftd.set_cc`: the default, the ellipsis convention, or an explicit one.
pub data Convention : Type 0 where
  default ellipsis : Convention
  explicit : ℕ → Convention

-- The SDK's constructors of a `tinfo_t`.
pub record Kernel (T : Type 0) : Type 0 where
  pub simple_void : Option T
  pub simple_bool : Option T
  pub simple_int : ℕ → Bool → Option T
  pub simple_float : ℕ → Option T
  pub create_bitfield : ℕ → ℕ → Bool → Option T
  pub get_named_type : Str → Option T
  pub parse_decl : Str → Option T
  pub create_ptr : T → Option T
  pub create_array : T → ℕ → Option T
  pub set_const : T → T
  pub set_volatile : T → T
  pub create_func : T → List (Str × T) → Convention → Option T

-- `uint_le`.
unfoldable pub read_le : ℕ → Str → Option (ℕ × Str)
read_le zero buf = some (0, buf)
read_le (suc k) [] = none
read_le (suc k) (c ∷ buf) = do (v, rest) ← read_le k buf; some (c + 256 * v, rest)

-- `str`: a length of four bytes, and that many bytes.
unfoldable pub read_str : Str → Option (Str × Str)
unfolding read_le
read_str buf = do
  (n, rest) ← read_le 4 buf
  if ltb (length rest) n then none else some (take n rest, drop n rest)

-- `c_str()`: what a C string holds of a text.
unfoldable pub c_str : Str → Str
c_str [] = []
c_str (c ∷ cs) = let rest = c_str cs in if c == 0 then [] else c ∷ rest

unfoldable pub read_names : ℕ → Str → Option (List Str × Str)
unfolding read_str
read_names zero buf = some ([], buf)
read_names (suc n) buf = do
  (s, rest) ← read_str buf
  (ss, rest') ← read_names n rest
  some (s ∷ ss, rest')

abbrev pub zip_args : {T : Type 0} → List Str → List T → List (Str × T)
zip_args (n ∷ ns) (t ∷ ts) = (c_str n, t) ∷ zip_args ns ts
zip_args ns ts = []

module _ {T : Type 0} where
  -- The top `n` of the stack, whose top is first, in the order in which they were pushed.
  unfoldable pub pop_args : ℕ → List T → List T → Option (List T × List T)
  pop_args zero stack args = some (args, stack)
  pop_args (suc n) [] args = none
  pop_args (suc n) (t ∷ stack) args = pop_args n stack (t ∷ args)

module _ {T : Type 0} (k : Kernel T) where
  open k use {
    simple_void, simple_bool, simple_int, simple_float, create_bitfield, get_named_type, parse_decl,
    create_ptr, create_array, set_const, set_volatile, create_func,
  }

  -- `build_int` and `build_float`.
  unfoldable pub build_int : ℕ → Bool → Option T
  build_int bytes signed =
      if bytes == 1 || bytes == 2 || bytes == 4 || bytes == 8 || bytes == 16
      then simple_int bytes signed
      else none

  unfoldable pub build_float : ℕ → Option T
  build_float bytes = if bytes == 4 || bytes == 8 then simple_float bytes else none

  abbrev pub push : List T → Str → Option T → Option (Str × List T)
  push stack rest none = none
  push stack rest (some t) = some (rest, t ∷ stack)

  unfoldable pub choose_cc : ℕ → ℕ → Convention
  choose_cc varargs cc =
      if varargs == 0 then (if cc == 0 then default else explicit cc) else ellipsis

  -- The return type stands just below the parameters.
  unfoldable pub make_func : List Str → Convention → Str → List T × List T → Option (Str × List T)
  make_func names cc rest (args, []) = none
  make_func names cc rest (args, ret ∷ stack) =
      push stack rest (create_func ret (zip_args names args) cc)

  unfoldable pub step_function : Str → List T → Option (Str × List T)
  unfolding read_le read_names pop_args make_func choose_cc
  step_function buf stack = do
    (nparams, buf1) ← read_le 4 buf
    (varargs, buf2) ← read_le 1 buf1
    (cc, buf3) ← read_le 2 buf2
    (names, rest) ← (if ltb (length buf3 / 4) nparams then none else read_names nparams buf3)
    popped ← pop_args nparams stack []
    make_func names (choose_cc varargs cc) rest popped

  unfoldable pub step_array : Str → List T → Option (Str × List T)
  unfolding read_le
  step_array buf [] = none
  step_array buf (t ∷ stack) = do
    (n, rest) ← read_le 8 buf
    if ltb (2 ^ 32 - 1) n then none else push stack rest (create_array t n)

  abbrev pub step_top : (T → Option T) → Str → List T → Option (Str × List T)
  step_top f buf [] = none
  step_top f buf (t ∷ stack) = push stack buf (f t)

  -- The `switch` on the opcode, at the bytes behind it.
  unfoldable pub step : ℕ → Str → List T → Option (Str × List T)
  unfolding read_le read_str build_int build_float c_str step_function step_array
  step op buf stack =
      if op == 0
      then push stack buf simple_void
      else if op == 1
      then push stack buf simple_bool
      else if op == 2
      then (do
        (bytes, buf1) ← read_le 1 buf
        (signed, rest) ← read_le 1 buf1
        push stack rest (build_int bytes (not (signed == 0))))
      else if op == 3
      then (do (bytes, rest) ← read_le 1 buf; push stack rest (build_float bytes))
      else if op == 4
      then (do (name, rest) ← read_str buf; push stack rest (get_named_type (c_str name)))
      else if op == 5
      then (do (text, rest) ← read_str buf; push stack rest (parse_decl (c_str text)))
      else if op == 6
      then step_top create_ptr buf stack
      else if op == 7
      then step_array buf stack
      else if op == 8
      then step_top (λ t. some (set_const t)) buf stack
      else if op == 9
      then step_top (λ t. some (set_volatile t)) buf stack
      else if op == 10
      then step_function buf stack
      else if op == 11
      then (do
        (nbytes, buf1) ← read_le 1 buf
        (width, buf2) ← read_le 1 buf1
        (signed, rest) ← read_le 1 buf2
        push stack rest (create_bitfield nbytes width (signed == 0)))
      else none

  -- The loop; each round reads a byte at least, so the length of the buffer is enough fuel.
  unfoldable pub run : ℕ → Str → List T → Option (List T)
  unfolding step
  run fuel [] stack = some stack
  run zero (op ∷ buf) stack = none
  run (suc fuel) (op ∷ buf) stack = do (rest, stack') ← step op buf stack; run fuel rest stack'

  unfoldable pub only : List T → Option T
  only [] = none
  only (t ∷ []) = some t
  only (t ∷ u ∷ ts) = none

  unfoldable pub build_recipe : Str → Option T
  unfolding run only
  build_recipe buf = run (length buf) buf [] >>= only
