-- ===== src/Expr/Names.antt =====
-- crates/idakit/src/types/expr.rs: how a text is classified as a name or a declaration.
use idakit.Base.{
  ℕ, Bool, true, false, not, ◌&&◌, List, [], ◌∷◌, ◌++◌, ◌≡◌, ◌↔◌, refl, sym, ◌∙◌, ap, subst, Str,
  is_empty, ◌==◌, if◌then◌else◌, arith, All, Bool-cases, inl, inr, ◌⊎◌,
}
use idakit.Expr.Identifiers.{
  all_word, is_c_identifier, is_builtin_type_keyword, IsIdentifier, IsAmong, builtin_words, &&_iff,
  is_c_identifier_iff, is_builtin_type_keyword_iff,
}
use idakit.Expr.{TypeExpr, named, decl}

-- A byte in front of the first piece.
abbrev pub grow_first : ℕ → List Str → List Str
grow_first c [] = (c ∷ []) ∷ []
grow_first c (p ∷ ps) = (c ∷ p) ∷ ps

-- `s.split("::")`.
unfoldable pub split_colons : Str → List Str
split_colons [] = [] ∷ []
split_colons (c ∷ []) = (c ∷ []) ∷ []
split_colons (c ∷ d ∷ cs) =
    let after = split_colons cs in
    let within = split_colons (d ∷ cs) in
    if c == 58 && d == 58 then [] ∷ after else grow_first c within

unfoldable pub all_identifiers : List Str → Bool
unfolding is_c_identifier
all_identifiers [] = true
all_identifiers (p ∷ ps) = is_c_identifier p && all_identifiers ps

unfoldable pub is_bare_type_name : Str → Bool
unfolding is_builtin_type_keyword split_colons all_identifiers
is_bare_type_name s =
    not (is_empty s) && (not (is_builtin_type_keyword s) && all_identifiers (split_colons s))

-- `TypeExpr::from` on a text.
unfoldable pub from_text : Str → TypeExpr
unfolding is_bare_type_name
from_text s = if is_bare_type_name s then named s else decl s

-- The pieces with `::` between each two.
abbrev pub join_colons : List Str → Str
join_colons [] = []
join_colons (p ∷ []) = p
join_colons (p ∷ q ∷ ps) = p ++ (58 ∷ 58 ∷ join_colons (q ∷ ps))

join-grow_first : (c : ℕ) (ps : List Str) → join_colons (grow_first c ps) ≡ c ∷ join_colons ps
join-grow_first c [] = refl
join-grow_first c (p ∷ []) = refl
join-grow_first c (p ∷ q ∷ ps) = refl

split_colons-cons : (s : Str) → (p : Str) × (ps : List Str) × (split_colons s ≡ p ∷ ps)
unfolding split_colons
split_colons-cons [] = ([], [], refl)
split_colons-cons (c ∷ []) = (c ∷ [], [], refl)
split_colons-cons (c ∷ d ∷ cs) = go (c == 58 && d == 58) (split_colons-cons (d ∷ cs))
  where
    go :
        (b : Bool)
        → ((p : Str) × (ps : List Str) × (split_colons (d ∷ cs) ≡ p ∷ ps))
        → (p : Str) × (ps : List Str) × ((if b
              then [] ∷ split_colons cs
              else grow_first c (split_colons (d ∷ cs)))
            ≡ p ∷ ps)
    go true h = ([], split_colons cs, refl)
    go false (p, ps, e) = (c ∷ p, ps, rw e)

join-split_colons : (s : Str) → join_colons (split_colons s) ≡ s
unfolding split_colons
join-split_colons [] = refl
join-split_colons (c ∷ []) = refl
join-split_colons (c ∷ d ∷ cs) =
    go (split_colons-cons cs) (Bool-cases (c == 58 && d == 58)) (join-split_colons cs)
      (join-split_colons (d ∷ cs))
  where
    two :
        (p : Str) (ps : List Str)
        → split_colons cs ≡ p ∷ ps
        → join_colons (split_colons cs) ≡ cs
        → join_colons ([] ∷ split_colons cs) ≡ 58 ∷ 58 ∷ cs
    two p ps e ih = rw e (ap (λ (t : Str). 58 ∷ 58 ∷ t) (ap join_colons (sym e) ∙ ih))

    go :
        ((p : Str) × (ps : List Str) × (split_colons cs ≡ p ∷ ps))
        → ((c == 58 && d == 58) ≡ true) ⊎ ((c == 58 && d == 58) ≡ false)
        → join_colons (split_colons cs) ≡ cs
        → join_colons (split_colons (d ∷ cs)) ≡ d ∷ cs
        → join_colons (
            if c == 58 && d == 58
            then [] ∷ split_colons cs
            else grow_first c (split_colons (d ∷ cs)))
          ≡ c ∷ d ∷ cs
    go (p, ps, e) (inl h) ih ih' =
        let hc : c ≡ 58 = ground arith in
        let hd : d ≡ 58 = ground arith in rw h (two p ps e ih ∙ ground (arith, hc, hd))
    go (p, ps, e) (inr h) ih ih' =
        rw h (join-grow_first c (split_colons (d ∷ cs)) ∙ ap (λ (t : Str). c ∷ t) ih')

abbrev NoColon : Str → Type 0
NoColon = All (λ c. (c == 58) ≡ false)

split_colons-append :
    (p rest : Str) → NoColon p → split_colons (p ++ (58 ∷ 58 ∷ rest)) ≡ p ∷ split_colons rest
unfolding split_colons
split_colons-append [] rest h = refl
split_colons-append (c ∷ []) rest h = rw h.0
split_colons-append (c ∷ d ∷ p) rest h = rw (h.0, split_colons-append (d ∷ p) rest h.1)

split_colons-one : (p : Str) → NoColon p → split_colons p ≡ p ∷ []
unfolding split_colons
split_colons-one [] h = refl
split_colons-one (c ∷ []) h = refl
split_colons-one (c ∷ d ∷ p) h = rw (h.0, split_colons-one (d ∷ p) h.1)

all_word-NoColon : (p : Str) → all_word p ≡ true → NoColon p
unfolding all_word
all_word-NoColon [] h = tt
all_word-NoColon (c ∷ p) h = (ground arith, all_word-NoColon p (ground arith))

is_c_identifier-NoColon : (p : Str) → is_c_identifier p ≡ true → NoColon p
unfolding is_c_identifier
is_c_identifier-NoColon [] h = tt
is_c_identifier-NoColon (c ∷ p) h = (ground arith, all_word-NoColon p (ground arith))

split-join_colons :
    (p : Str) (ps : List Str)
    → all_identifiers (p ∷ ps) ≡ true
    → split_colons (join_colons (p ∷ ps)) ≡ p ∷ ps
unfolding all_identifiers
split-join_colons p [] h = split_colons-one p (is_c_identifier-NoColon p (ground arith))
split-join_colons p (q ∷ ps) h =
    split_colons-append p (join_colons (q ∷ ps)) (is_c_identifier-NoColon p (ground arith))
    ∙ ap (λ (t : List Str). p ∷ t) (split-join_colons q ps (ground arith))

-- The text is one or more C identifiers with `::` between them, and not a word of a builtin type.
abbrev pub IsQualifiedName : Str → Type 0
IsQualifiedName s =
    (p : Str) × (ps : List Str) × All IsIdentifier (p ∷ ps)
    × (join_colons (p ∷ ps) ≡ s)
    × (¬ IsAmong s builtin_words)

all_identifiers_iff : (ps : List Str) → (all_identifiers ps ≡ true) ↔ All IsIdentifier ps
unfolding all_identifiers
all_identifiers_iff [] = (λ h. tt, λ h. refl)
all_identifiers_iff (p ∷ ps) =
    let both = &&_iff (is_c_identifier p) (all_identifiers ps) in
    let rest = all_identifiers_iff ps in
    (
      λ h. ((is_c_identifier_iff p).0 (both.0 h).0, rest.0 (both.0 h).1),
      λ h. both.1 ((is_c_identifier_iff p).1 h.0, rest.1 h.1),
    )

identifiers-not_empty :
    (p : Str) (ps : List Str)
    → all_identifiers (p ∷ ps) ≡ true
    → is_empty (join_colons (p ∷ ps)) ≡ false
unfolding all_identifiers is_c_identifier
identifiers-not_empty [] ps h = cc
identifiers-not_empty (c ∷ p) [] h = refl
identifiers-not_empty (c ∷ p) (q ∷ ps) h = refl

is_bare_type_name_iff : (s : Str) → (is_bare_type_name s ≡ true) ↔ IsQualifiedName s
unfolding is_bare_type_name
is_bare_type_name_iff s = (there, back)
  where
    there : is_bare_type_name s ≡ true → IsQualifiedName s
    there h =
        let (p, ps, e) = split_colons-cons s in
        let k : is_builtin_type_keyword s ≡ false = ground arith in
        let a : all_identifiers (split_colons s) ≡ true = ground arith in
        (
          p,
          ps,
          (all_identifiers_iff (p ∷ ps)).0 (subst (λ (l : List Str). all_identifiers l ≡ true) e a),
          ap join_colons (sym e) ∙ join-split_colons s,
          (is_builtin_type_keyword_iff s).0 k,
        )

    back : IsQualifiedName s → is_bare_type_name s ≡ true
    back (p, ps, identifiers, j, words) =
        let a = (all_identifiers_iff (p ∷ ps)).1 identifiers in
        let k = (is_builtin_type_keyword_iff s).1 words in
        let n : is_empty s ≡ false =
          subst (λ (t : Str). is_empty t ≡ false) j (identifiers-not_empty p ps a) in
        let q : split_colons s ≡ p ∷ ps = ap split_colons (sym j) ∙ split-join_colons p ps a in
        rw (n, k, q, a)

-- A text is taken for the name of a type exactly when it is one or more C identifiers (each a letter
-- or `_`, then letters, digits and `_`) with `::` between each two, and none of the words that name
-- builtin types; any other text is taken for a declaration.
pub from_text-named_iff :
    (s : Str)
    → ((from_text s ≡ named s) ↔ IsQualifiedName s)
      × ((from_text s ≡ named s) ⊎ (from_text s ≡ decl s))
unfolding from_text
from_text-named_iff s = go (is_bare_type_name s) (is_bare_type_name_iff s)
  where
    go :
        (b : Bool)
        → (b ≡ true) ↔ IsQualifiedName s
        → (((if b then named s else decl s) ≡ named s) ↔ IsQualifiedName s)
          × (((if b then named s else decl s) ≡ named s)
              ⊎ ((if b then named s else decl s) ≡ decl s))
    go true h = ((λ e. h.0 refl, λ q. refl), inl refl)
    go false h = ((λ e. absurd (apart e), λ q. absurd (ground (arith, h.1 q))), inr refl)
      where
        apart : decl s ≡ named s → ⊥
        apart e = cc
