-- ===== src/Base/Decimal.antt =====
-- Decimal text: how Rust's formatting prints an unsigned integer, and how `parse` reads one.
use Prim.Native.Nat.{ℕ, zero, suc, ◌+◌, ◌-◌, ◌*◌, ◌/◌, ◌%◌, ◌<◌, ◌≤◌, ◌^◌}
use mathlib.Core.Path.{◌≡◌, refl, ap, ◌∙◌}
use mathlib.Core.Bool.{Bool, false, ◌&&◌}
use mathlib.Core.Option.{Option, none, some}
use mathlib.Core.List.{[], ◌∷◌}
use mathlib.Core.Logic.{inl, inr}
use native.Mathlib.Omega.{arith}
use idakit.Base.Tests.{ltb, leb, if◌then◌else◌, Bool-cases, ◌==◌}
use idakit.Base.Lists.{All}
use idakit.Base.Text.{Str, is_empty}

-- The digits of `n` before `rest`, least significant last.
unfoldable pub print_digits : ℕ → ℕ → Str → Str
print_digits zero n rest = rest
print_digits (suc fuel) n rest =
    let more = print_digits fuel (n / 10) ((48 + n % 10) ∷ rest) in
    if ltb n 10 then (48 + n) ∷ rest else more

-- `format!("{n}")`: `n + 1` rounds are enough, since each divides by ten.
unfoldable pub decimal : ℕ → Str
unfolding print_digits
decimal n = print_digits (suc n) n []

unfoldable pub is_digit : ℕ → Bool
is_digit c = leb 48 c && leb c 57

-- The value of a run of digits behind an accumulator; any other byte is an error.
unfoldable pub parse_digits : ℕ → Str → Option ℕ
unfolding is_digit
parse_digits acc [] = some acc
parse_digits acc (c ∷ cs) =
    let more = parse_digits (acc * 10 + (c - 48)) cs in if is_digit c then more else none

-- `str::parse` into an integer of 64 bits: one `+` may stand in front; no digit, another byte or a
-- value out of range is an error.
unfoldable pub parse_bounded : Option ℕ → Option ℕ
parse_bounded none = none
parse_bounded (some n) = if ltb n (2 ^ 64) then some n else none

unfoldable pub strip_plus : Str → Str
strip_plus [] = []
strip_plus (c ∷ cs) = if c == 43 then cs else c ∷ cs

unfoldable pub parse_u64 : Str → Option ℕ
unfolding strip_plus parse_bounded parse_digits
parse_u64 s =
    if is_empty (strip_plus s) then none else parse_bounded (parse_digits 0 (strip_plus s))

abbrev pub IsDigit : ℕ → Type 0
IsDigit c = (48 ≤ c) × (c ≤ 57)

print_digits-All :
    (fuel n : ℕ) (rest : Str) → All IsDigit rest → All IsDigit (print_digits fuel n rest)
unfolding print_digits
print_digits-All zero n rest h = h
print_digits-All (suc fuel) n rest h = elim (Bool-cases (ltb n 10)) [
  | inl e ↦ rw e ((omega arith, ground arith), h)
  | inr e ↦ rw e (print_digits-All fuel (n / 10) _ ((omega arith, omega arith), h))
]

-- A number prints as digits alone.
pub decimal-All : (n : ℕ) → All IsDigit (decimal n)
unfolding decimal
decimal-All n = print_digits-All (suc n) n [] tt

parse-print_digits :
    (fuel n : ℕ) (rest : Str)
    → n < fuel
    → parse_digits 0 (print_digits fuel n rest) ≡ parse_digits n rest
unfolding print_digits parse_digits
parse-print_digits zero n rest h = elim h [ ]
parse-print_digits (suc fuel) n rest h = elim (Bool-cases (ltb n 10)) [
  | inl e ↦ rw e (ground (arith, ap (λ k. parse_digits k rest) (digit n (ground arith))))
  | inr e ↦ rw e (
      parse-print_digits fuel (n / 10) ((48 + n % 10) ∷ rest) (ground arith)
      ∙ ground (arith, ap (λ k. parse_digits k rest) (step n)))
]
  where
    digit : (m : ℕ) → m < 10 → 0 * 10 + (48 + m - 48) ≡ m
    digit m k = omega arith

    step : (m : ℕ) → m / 10 * 10 + (48 + m % 10 - 48) ≡ m
    step m = omega arith

parse-decimal : (n : ℕ) → parse_digits 0 (decimal n) ≡ some n
unfolding decimal parse_digits
parse-decimal n = parse-print_digits (suc n) n [] (omega arith)

print_digits_nonempty :
    (fuel n : ℕ) (rest : Str) → n < fuel → is_empty (print_digits fuel n rest) ≡ false
unfolding print_digits
print_digits_nonempty zero n rest h = elim h [ ]
print_digits_nonempty (suc fuel) n rest h = elim (Bool-cases (ltb n 10)) [
  | inl e ↦ rw e
  | inr e ↦ rw e (print_digits_nonempty fuel (n / 10) _ (ground arith))
]

strip_plus-digits : (s : Str) → All IsDigit s → strip_plus s ≡ s
unfolding strip_plus
strip_plus-digits [] h = refl
strip_plus-digits (c ∷ cs) h = ground arith

decimal_nonempty : (n : ℕ) → is_empty (decimal n) ≡ false
unfolding decimal
decimal_nonempty n = print_digits_nonempty (suc n) n [] (omega arith)

-- A 64-bit number is read back from its decimal text.
pub parse_u64-decimal : (n : ℕ) → n < 2 ^ 64 → parse_u64 (decimal n) ≡ some n
unfolding parse_u64
parse_u64-decimal n h =
    rw (strip_plus-digits (decimal n) (decimal-All n), decimal_nonempty n, parse-decimal n)
      (ground arith)
