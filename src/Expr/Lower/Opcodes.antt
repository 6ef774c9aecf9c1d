-- ===== src/Expr/Lower/Opcodes.antt =====
-- crates/idakit-sys/facade/type_write_common.cpp: each round of `build_recipe` on the bytes that
-- crates/idakit/src/types/expr.rs writes.
use idakit.Base.{
  ℕ, suc, ◌+◌, ◌-◌, ◌≡◌, refl, ◌∙◌, ap, Bool, true, false, not, Option, none, some, List, ◌∷◌, Str,
  ltb, if◌then◌else◌, ◌>>=◌, arith, ap₂, ◌^◌,
}
use idakit.Expr.Wire.{flag, ok, has_nul}
use idakit.Expr.Recipe.{
  Kernel, step, run, push, read_le, read_str, build_int, build_float, step_function,
}
use idakit.Expr.Bytes.{c_str_nul_free}
use idakit.Expr.Lower.{lower_array}

plus_none : (n : ℕ) → n + 0 ≡ n
plus_none n = omega arith

pub some_injective : {A : Type 0} {a b : A} → some a ≡ some b → a ≡ b
some_injective h = cc

pub ok_injective : {A : Type 0} {a b : A} → ok a ≡ ok b → a ≡ b
ok_injective h = cc

-- A chain whose last link takes two steps.
pub >>=-two :
    {A B C : Type 0} (o : Option A) (g : A → Option B) (h : B → Option C) (f : A → Option C)
    → ((a : A) → f a ≡ (g a >>= h))
    → (o >>= f) ≡ ((o >>= g) >>= h)
>>=-two none g h f e = refl
>>=-two (some a) g h f e = e a

pub >>=-congr :
    {A B : Type 0} (o : Option A) (f g : A → Option B)
    → ((a : A) → o ≡ some a → f a ≡ g a)
    → (o >>= f) ≡ (o >>= g)
>>=-congr none f g e = refl
>>=-congr (some a) f g e = e a refl

module _ {T : Type 0} (k : Kernel T) where
  open k use {
    simple_void, simple_bool, create_bitfield, get_named_type, parse_decl, create_ptr, create_array,
    set_const, set_volatile, create_func,
  }

  >>=-push :
      {S : Type 0} (o : Option T) (st : List T) (rest : Str) (g : Str × List T → Option S)
      → (push k st rest o >>= g) ≡ (o >>= (λ t. g (rest, t ∷ st)))
  >>=-push none st rest g = refl
  >>=-push (some t) st rest g = refl

  -- A round whose step pushes `o`.
  pub run-push :
      (op f : ℕ) (buf rest : Str) (st st' : List T) (o : Option T)
      → step k op buf st ≡ push k st' rest o
      → run k (suc f) (op ∷ buf) st ≡ (o >>= (λ t. run k f rest (t ∷ st')))
  unfolding run
  run-push op f buf rest st st' o e =
      ap (λ s. s >>= (λ p. run k f p.0 p.1)) e ∙ >>=-push o st' rest (λ p. run k f p.0 p.1)

  pub step_int :
      (bytes : ℕ) (signed : Bool) (buf : Str) (st : List T)
      → step k 2 (bytes ∷ flag signed ∷ buf) st ≡ push k st buf (build_int k bytes signed)
  unfolding step
  step_int bytes true buf st = ap (λ b. push k st buf (build_int k b true)) (plus_none bytes)
  step_int bytes false buf st = ap (λ b. push k st buf (build_int k b false)) (plus_none bytes)

  pub step_float :
      (bytes : ℕ) (buf : Str) (st : List T)
      → step k 3 (bytes ∷ buf) st ≡ push k st buf (build_float k bytes)
  unfolding step
  step_float bytes buf st = ap (λ b. push k st buf (build_float k b)) (plus_none bytes)

  pub step_bitfield :
      (nbytes width : ℕ) (signed : Bool) (buf : Str) (st : List T)
      → step k 11 (nbytes ∷ width ∷ flag signed ∷ buf) st
        ≡ push k st buf (create_bitfield nbytes width (not signed))
  unfolding step
  step_bitfield n w true buf st =
      ap₂ (λ a b. push k st buf (create_bitfield a b false)) (plus_none n) (plus_none w)
  step_bitfield n w false buf st =
      ap₂ (λ a b. push k st buf (create_bitfield a b true)) (plus_none n) (plus_none w)

  pub step_named :
      (buf rest : Str) (n : Str) (st : List T)
      → read_str buf ≡ some (n, rest)
      → has_nul n ≡ false
      → step k 4 buf st ≡ push k st rest (get_named_type n)
  unfolding step
  step_named buf rest n st e h =
      rw e (ap (λ s. push k st rest (get_named_type s)) (c_str_nul_free n h))

  pub step_decl :
      (buf rest : Str) (n : Str) (st : List T)
      → read_str buf ≡ some (n, rest)
      → has_nul n ≡ false
      → step k 5 buf st ≡ push k st rest (parse_decl n)
  unfolding step
  step_decl buf rest n st e h = rw e (ap (λ s. push k st rest (parse_decl s)) (c_str_nul_free n h))

  pub step_array_lem :
      (len : ℕ) (buf rest : Str) (t : T) (st : List T)
      → read_le 8 buf ≡ some (len, rest)
      → step k 7 buf (t ∷ st) ≡ push k st rest (lower_array k t len)
  unfolding step
  step_array_lem len buf rest t st e = rw e (go (ltb (2 ^ 32 - 1) len))
    where
      go :
          (b : Bool)
          → (if b then none else push k st rest (create_array t len))
            ≡ push k st rest (if b then none else create_array t len)
      go true = refl
      go false = refl

  pub step_leaf :
      (buf : Str) (st : List T)
      → (step k 0 buf st ≡ push k st buf simple_void)
        × (step k 1 buf st ≡ push k st buf simple_bool)
        × (step k 10 buf st ≡ step_function k buf st)
  unfolding step
  step_leaf buf st = (refl, refl, refl)

  pub step_top_lem :
      (buf : Str) (t : T) (st : List T)
      → (step k 6 buf (t ∷ st) ≡ push k st buf (create_ptr t))
        × (step k 8 buf (t ∷ st) ≡ push k st buf (some (set_const t)))
        × (step k 9 buf (t ∷ st) ≡ push k st buf (some (set_volatile t)))
  unfolding step
  step_top_lem buf t st = (refl, refl, refl)
