-- ===== src/Expr/Identifiers.antt =====
-- crates/idakit/src/types/expr.rs: C identifiers, and the words of the builtin types.
use idakit.Base.{
  ℕ, Bool, true, false, ◌&&◌, ◌||◌, List, [], ◌∷◌, ◌≡◌, ◌≤◌, str_eq_refl, str_eq_sound, ◌↔◌, refl,
  Str, str, str_eq, leb, ◌==◌, arith, All, Bool-cases, inl, inr, ◌⊎◌,
}

abbrev pub is_alphabetic : ℕ → Bool
is_alphabetic c = (leb 65 c && leb c 90) || (leb 97 c && leb c 122)

abbrev pub is_word : ℕ → Bool
is_word c = c == 95 || is_alphabetic c || (leb 48 c && leb c 57)

unfoldable pub all_word : Str → Bool
all_word [] = true
all_word (c ∷ cs) = is_word c && all_word cs

-- `is_c_identifier`, on bytes: a character beyond ASCII has no byte that is a letter or digit.
unfoldable pub is_c_identifier : Str → Bool
unfolding all_word
is_c_identifier [] = false
is_c_identifier (c ∷ cs) = (c == 95 || is_alphabetic c) && all_word cs

unfoldable pub is_one_of : Str → List Str → Bool
is_one_of s [] = false
is_one_of s (k ∷ ks) = str_eq s k || is_one_of s ks

abbrev pub keywords : List Str
keywords =
    str "void"
    ∷ str "bool"
    ∷ str "_Bool"
    ∷ str "char"
    ∷ str "short"
    ∷ str "int"
    ∷ str "long"
    ∷ str "float"
    ∷ str "double"
    ∷ str "signed"
    ∷ str "unsigned"
    ∷ str "wchar_t"
    ∷ str "__int8"
    ∷ str "__int16"
    ∷ str "__int32"
    ∷ str "__int64"
    ∷ str "__int128"
    ∷ []

unfoldable pub is_builtin_type_keyword : Str → Bool
unfolding is_one_of
is_builtin_type_keyword s = is_one_of s keywords

-- The characters of a C identifier: a letter or `_` first, and after it also digits.
abbrev pub IsLetter : ℕ → Type 0
IsLetter c = ((65 ≤ c) × (c ≤ 90)) ⊎ ((97 ≤ c) × (c ≤ 122))

abbrev pub IsFirst : ℕ → Type 0
IsFirst c = (c ≡ 95) ⊎ IsLetter c

abbrev pub IsLater : ℕ → Type 0
IsLater c = ((48 ≤ c) × (c ≤ 57)) ⊎ IsFirst c

abbrev pub IsIdentifier : Str → Type 0
IsIdentifier [] = ⊥
IsIdentifier (c ∷ cs) = IsFirst c × All IsLater cs

-- The text is one of the words.
abbrev pub IsAmong : Str → List Str → Type 0
IsAmong s [] = ⊥
IsAmong s (w ∷ ws) = (s ≡ w) ⊎ IsAmong s ws

-- The words that name the builtin types of the compiler.
abbrev pub builtin_words : List Str
builtin_words =
    str "__int128"
    ∷ str "__int64"
    ∷ str "__int32"
    ∷ str "__int16"
    ∷ str "__int8"
    ∷ str "_Bool"
    ∷ str "bool"
    ∷ str "char"
    ∷ str "double"
    ∷ str "float"
    ∷ str "int"
    ∷ str "long"
    ∷ str "short"
    ∷ str "signed"
    ∷ str "unsigned"
    ∷ str "void"
    ∷ str "wchar_t"
    ∷ []

is_word_iff : (c : ℕ) → (is_word c ≡ true) ↔ IsLater c
is_word_iff c = ground arith

IsFirst-iff : (c : ℕ) → ((c == 95 || is_alphabetic c) ≡ true) ↔ IsFirst c
IsFirst-iff c = ground arith

pub &&_iff : (a b : Bool) → ((a && b) ≡ true) ↔ ((a ≡ true) × (b ≡ true))
&&_iff a b = ground arith

all_word_iff : (cs : Str) → (all_word cs ≡ true) ↔ All IsLater cs
unfolding all_word
all_word_iff [] = (λ h. tt, λ h. refl)
all_word_iff (c ∷ cs) =
    let both = &&_iff (is_word c) (all_word cs) in
    let rest = all_word_iff cs in
    (
      λ h. ((is_word_iff c).0 (both.0 h).0, rest.0 (both.0 h).1),
      λ h. both.1 ((is_word_iff c).1 h.0, rest.1 h.1),
    )

pub is_c_identifier_iff : (s : Str) → (is_c_identifier s ≡ true) ↔ IsIdentifier s
unfolding is_c_identifier
is_c_identifier_iff [] = (λ h. absurd (ground (arith, h)), λ h. absurd h)
is_c_identifier_iff (c ∷ cs) =
    let both = &&_iff (c == 95 || is_alphabetic c) (all_word cs) in
    let rest = all_word_iff cs in
    (
      λ h. ((IsFirst-iff c).0 (both.0 h).0, rest.0 (both.0 h).1),
      λ h. both.1 ((IsFirst-iff c).1 h.0, rest.1 h.1),
    )

is_one_of-not-IsAmong : (s : Str) (ws : List Str) → is_one_of s ws ≡ false → ¬ IsAmong s ws
unfolding is_one_of
is_one_of-not-IsAmong s [] h k = k
is_one_of-not-IsAmong s (w ∷ ws) h (inl e) =
    let same : str_eq s w ≡ true = rw (← e) (str_eq_refl s) in absurd (ground arith)
is_one_of-not-IsAmong s (w ∷ ws) h (inr k) = is_one_of-not-IsAmong s ws (ground arith) k

is_one_of-IsAmong : (s : Str) (ws : List Str) → is_one_of s ws ≡ true → IsAmong s ws
unfolding is_one_of
is_one_of-IsAmong s [] h = absurd (ground (arith, h))
is_one_of-IsAmong s (w ∷ ws) h = elim (Bool-cases (str_eq s w)) [
  | inl e ↦ inl (str_eq_sound s w e)
  | inr e ↦ inr (is_one_of-IsAmong s ws (ground arith))
]

-- The two lists have the same words, in other orders.
IsAmong-keywords : (s : Str) → IsAmong s keywords ↔ IsAmong s builtin_words
IsAmong-keywords s = ground arith

pub is_builtin_type_keyword_iff :
    (s : Str) → (is_builtin_type_keyword s ≡ false) ↔ (¬ IsAmong s builtin_words)
unfolding is_builtin_type_keyword
is_builtin_type_keyword_iff s = (
  λ h k. is_one_of-not-IsAmong s keywords h ((IsAmong-keywords s).1 k),
  λ h. elim (Bool-cases (is_one_of s keywords)) [
    | inl e ↦ absurd (h ((IsAmong-keywords s).0 (is_one_of-IsAmong s keywords e)))
    | inr e ↦ e
  ],
)
