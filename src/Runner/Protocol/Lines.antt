-- ===== src/Runner/Protocol/Lines.antt =====
-- crates/idakit-runner/src/protocol.rs: lines, prefixes and fields of a stream.
use idakit.Base.{
  ℕ, ◌<◌, true, false, some, List, [], ◌∷◌, ◌++◌, ◌≡◌, ◌≢◌, refl, Str, str_eq, length, take, drop,
  decimal, decimal-All, parse_u64-decimal, arith, All, ◌^◌,
}
use idakit.Runner.Protocol.{
  Utf8, split_line, is_line_end, trim_end, split_space, Status, passed, skipped, as_str,
  parse_status, end_fields, read_trimmed, read_line, read_request, classify_request, value,
}

abbrev pub NoNewline : Str → Type 0
NoNewline = All (λ c. c ≢ 10)

-- The text does not end with a carriage return or a newline.
abbrev pub EndsClean : Str → Type 0
EndsClean [] = Unit {0}
EndsClean (c ∷ []) = is_line_end c ≡ false
EndsClean (c ∷ d ∷ cs) = EndsClean (d ∷ cs)

abbrev pub IsAscii : Str → Type 0
IsAscii = All (λ c. c < 128)

pub All-append {ℓ κ} :
    {A : Type ℓ} (P : A → Type κ) (xs ys : List A) → All P xs → All P ys → All P (xs ++ ys)
All-append P [] ys h k = k
All-append P (x ∷ xs) ys h k = (h.0, All-append P xs ys h.1 k)

pub All-map {ℓ κ μ} :
    {A : Type ℓ} {P : A → Type κ} {Q : A → Type μ} (xs : List A)
    → ((x : A) → P x → Q x)
    → All P xs
    → All Q xs
All-map [] f h = tt
All-map (x ∷ xs) f h = (f x h.0, All-map xs f h.1)

split_line-append :
    (s rest : Str) → NoNewline s → split_line (s ++ (10 ∷ rest)) ≡ (s ++ (10 ∷ []), rest)
unfolding split_line
split_line-append [] rest h = refl
split_line-append (c ∷ cs) rest h = ground (arith, split_line-append cs rest)

trim_end-newline : (s : Str) → trim_end (s ++ (10 ∷ [])) ≡ trim_end s
unfolding trim_end
trim_end-newline [] = refl
trim_end-newline (c ∷ cs) = rw (trim_end-newline cs)

trim_end-clean : (s : Str) → EndsClean s → trim_end s ≡ s
unfolding trim_end
trim_end-clean [] h = refl
trim_end-clean (c ∷ []) h = rw h
trim_end-clean (c ∷ d ∷ cs) h = rw (trim_end-clean (d ∷ cs) h, trim_end)

pub split_space-append :
    (s rest : Str) → All (λ c. c ≢ 32) s → split_space (s ++ (32 ∷ rest)) ≡ (s, some rest)
unfolding split_space
split_space-append [] rest h = refl
split_space-append (c ∷ cs) rest h = ground (arith, split_space-append cs rest)

pub take-append : (s rest : Str) → take (length s) (s ++ rest) ≡ s
take-append [] rest = refl
take-append (c ∷ cs) rest = rw (take-append cs rest)

pub drop-append : (s rest : Str) → drop (length s) (s ++ rest) ≡ rest
drop-append [] rest = refl
drop-append (c ∷ cs) rest = drop-append cs rest

parse_status-as_str : (s : Status) → parse_status (as_str s) ≡ some s
unfolding parse_status as_str str_eq
parse_status-as_str passed = refl
parse_status-as_str Status.failed = refl
parse_status-as_str skipped = refl

no_space : (n : ℕ) → All (λ c. c ≢ 32) (decimal n)
no_space n = All-map (decimal n) (λ c h. omega arith) (decimal-All n)

as_str_no_space : (s : Status) → All (λ c. c ≢ 32) (as_str s)
unfolding as_str
as_str_no_space passed = omega arith
as_str_no_space Status.failed = omega arith
as_str_no_space skipped = omega arith

-- The fields of an `END` line are read back.
pub end_fields-written :
    (s : Status) (ms n : ℕ)
    → ms < 2 ^ 64
    → n < 2 ^ 64
    → end_fields (as_str s ++ (32 ∷ (decimal ms ++ (32 ∷ decimal n)))) ≡ some (s, ms, n)
unfolding end_fields
end_fields-written s ms n h k =
    rw
      (
        split_space-append (as_str s) (decimal ms ++ (32 ∷ decimal n)) (as_str_no_space s),
        parse_status-as_str s,
      )
      (rw (
        split_space-append (decimal ms) (decimal n) (no_space ms),
        parse_u64-decimal ms h,
        parse_u64-decimal n k,
      ))

-- A line written with its newline is read as that line.
pub read_line-written :
    (u : Utf8) (line rest : Str)
    → NoNewline line
    → EndsClean line
    → u.valid (line ++ (10 ∷ [])) ≡ true
    → read_line u (line ++ (10 ∷ rest)) ≡ read_trimmed u line rest
unfolding read_line
read_line-written u [] rest n e v = rw v
read_line-written u (c ∷ cs) rest n e v =
    rw (split_line-append (c ∷ cs) rest n, v, trim_end-newline (c ∷ cs), trim_end-clean (c ∷ cs) e)

-- So is a request's line.
pub read_request-written :
    (u : Utf8) (line rest : Str)
    → NoNewline line
    → EndsClean line
    → u.valid (line ++ (10 ∷ [])) ≡ true
    → read_request u (line ++ (10 ∷ rest)) ≡ value (classify_request line) rest
unfolding read_request
read_request-written u [] rest n e v = rw v
read_request-written u (c ∷ cs) rest n e v =
    rw (split_line-append (c ∷ cs) rest n, v, trim_end-newline (c ∷ cs), trim_end-clean (c ∷ cs) e)
