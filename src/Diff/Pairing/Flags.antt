-- ===== src/Diff/Pairing/Flags.antt =====
-- crates/idakit/src/types/diff/canonical/engine.rs: the `used` vectors of `diff_members`, and
-- pass 1, which pairs by name.
use idakit.Base.{
  ℕ, zero, suc, ◌+◌, ◌≤◌, ◌<◌, Bool, true, false, Option, none, some, List, [], ◌∷◌, ◌≡◌, ◌≢◌, refl,
  subst, ◌∙◌, ap, Str, is_empty, length, set, get_elem?, replicate, str_eq, arith, length-append,
  length-set, length-replicate, get_elem?-set_ne, inl, inr, Bool-cases,
}
use idakit.Canonical.{CanonicalMember, name}
use idakit.Diff.Pairing.{PairState, pair_up, find_name, match_name, pair_by_name, unused}

abbrev pub count_true : List Bool → ℕ
count_true [] = 0
count_true (true ∷ us) = suc (count_true us)
count_true (false ∷ us) = count_true us

-- The index is in range and its flag is not set.
abbrev pub IsFree : List Bool → ℕ → Type 0
IsFree us i = get_elem? us i ≡ some false

pub IsFree-lt : (us : List Bool) (i : ℕ) → IsFree us i → i < length us
IsFree-lt [] i h = cc
IsFree-lt (u ∷ us) zero h = omega arith
IsFree-lt (u ∷ us) (suc i) h = omega (arith, IsFree-lt us i h)

count_true-set :
    (us : List Bool) (i : ℕ) → IsFree us i → count_true (set us i true) ≡ suc (count_true us)
count_true-set [] i h = cc
count_true-set (true ∷ us) zero h = cc
count_true-set (false ∷ us) zero h = refl
count_true-set (true ∷ us) (suc i) h = ap suc (count_true-set us i h)
count_true-set (false ∷ us) (suc i) h = count_true-set us i h

count_true-replicate : (n : ℕ) → count_true (replicate n false) ≡ 0
count_true-replicate zero = refl
count_true-replicate (suc n) = count_true-replicate n

pub IsFree-set : (us : List Bool) (i j : ℕ) → i ≢ j → IsFree us j → IsFree (set us i true) j
IsFree-set us i j n h = get_elem?-set_ne us true n ∙ h

-- The members that no flag marks, with the flags that are set, make up the whole list.
pub length-unused :
    (us : List Bool) (ms : List CanonicalMember)
    → length us ≡ length ms
    → length (unused us ms) + count_true us ≡ length ms
unfolding unused
length-unused [] [] h = refl
length-unused [] (m ∷ ms) h = absurd (omega arith)
length-unused (u ∷ us) [] h = absurd (omega arith)
length-unused (true ∷ us) (m ∷ ms) h = omega (arith, length-unused us ms (omega arith))
length-unused (false ∷ us) (m ∷ ms) h = omega (arith, length-unused us ms (omega arith))

-- Each flag that is set belongs to one pair.
pub record IsCounted (lm rm : List CanonicalMember) (s : PairState) : Type 0 where
  pub left_length : length s.l_used ≡ length lm
  pub right_length : length s.r_used ≡ length rm
  pub left_count : count_true s.l_used ≡ length s.pairs
  pub right_count : count_true s.r_used ≡ length s.pairs

module _ {lm rm : List CanonicalMember} where
  pub pair_up-IsCounted :
      (li ri : ℕ) (crossed : Bool) (s : PairState)
      → IsFree s.l_used li
      → IsFree s.r_used ri
      → IsCounted lm rm s
      → IsCounted lm rm (pair_up li ri crossed s)
  unfolding pair_up
  pair_up-IsCounted li ri crossed s hl hr c = record {
    left_length = length-set s.l_used li true ∙ c.left_length;
    right_length = length-set s.r_used ri true ∙ c.right_length;
    left_count = omega (
      arith,
      count_true-set s.l_used li hl,
      c.left_count,
      length-append s.pairs ((li, ri, crossed) ∷ []),
    );
    right_count = omega (
      arith,
      count_true-set s.r_used ri hr,
      c.right_count,
      length-append s.pairs ((li, ri, crossed) ∷ []),
    );
  }

find_name-IsFree :
    (n : Str) (i : ℕ) (rs : List CanonicalMember) (us : List Bool) (ri : ℕ)
    → find_name n i rs us ≡ some ri
    → (k : ℕ) × (ri ≡ i + k) × IsFree us k
unfolding find_name
find_name-IsFree n i [] us ri h = cc
find_name-IsFree n i (r ∷ rs) [] ri h = cc
find_name-IsFree n i (r ∷ rs) (true ∷ us) ri h =
    let (k, e, f) = find_name-IsFree n (suc i) rs us ri h in (suc k, omega arith, f)
find_name-IsFree n i (r ∷ rs) (false ∷ us) ri h = elim (Bool-cases (str_eq (name r) n)) [
  | inl e ↦ (0, ground arith, refl)
  | inr e ↦
      let (k, d, f) = find_name-IsFree n (suc i) rs us ri (rw e at h) in (suc k, omega arith, f)
]

-- From index `li` on the left flags are free.
abbrev FreeFrom : ℕ → List Bool → Type 0
FreeFrom li us = (j : ℕ) → li ≤ j → j < length us → IsFree us j

FreeFrom-set : (li : ℕ) (us : List Bool) → FreeFrom li us → FreeFrom (suc li) (set us li true)
FreeFrom-set li us h j le lt =
    IsFree-set us li j (λ e. absurd (omega (arith, e)))
      (h j (omega arith) (omega (arith, length-set us li true)))

module _ {lm rm : List CanonicalMember} where
  match_name-step :
      (li : ℕ) (n : Str) (s : PairState)
      → li < length lm
      → FreeFrom li s.l_used
      → IsCounted lm rm s
      → FreeFrom (suc li) (match_name li n rm s).l_used × IsCounted lm rm (match_name li n rm s)
  unfolding match_name
  match_name-step li n s lt free c = go (find_name n 0 rm s.r_used) refl
    where
      found : (ri : ℕ) → (k : ℕ) × (ri ≡ 0 + k) × IsFree s.r_used k → IsFree s.r_used ri
      found ri (k, e, f) = subst (λ m. IsFree s.r_used m) (omega arith) f

      go :
          (o : Option ℕ)
          → find_name n 0 rm s.r_used ≡ o
          → FreeFrom
              (suc li)
              (elim o as (λ x. PairState) [ some ri ↦ pair_up li ri false s | none ↦ s ]).l_used
            × IsCounted lm rm
                (elim o as (λ x. PairState) [ some ri ↦ pair_up li ri false s | none ↦ s ])
      go none e = (λ j le l. free j (omega arith) l, c)
      go (some ri) e = (
        unfold pair_up in FreeFrom-set li s.l_used free,
        pair_up-IsCounted li ri false s (free li (omega arith) (omega (arith, c.left_length)))
            (found ri (find_name-IsFree n 0 rm s.r_used ri e)) c,
      )

  pub pair_by_name-IsCounted :
      (li : ℕ) (ls : List CanonicalMember) (s : PairState)
      → li + length ls ≤ length lm
      → FreeFrom li s.l_used
      → IsCounted lm rm s
      → IsCounted lm rm (pair_by_name li ls rm s)
  unfolding pair_by_name
  pair_by_name-IsCounted li [] s lt free c = c
  pair_by_name-IsCounted li (l ∷ ls) s lt free c = elim (Bool-cases (is_empty (name l))) [
    | inl e ↦
        rw e
          (pair_by_name-IsCounted (suc li) ls s (omega arith) (λ j le h. free j (omega arith) h) c)
    | inr e ↦
        let (free', c') = match_name-step li (name l) s (omega arith) free c in
        rw e
          (pair_by_name-IsCounted (suc li) ls (match_name li (name l) rm s) (omega arith) free' c')
  ]

-- Nothing is used at the start.
pub start-IsCounted :
    (lm rm : List CanonicalMember)
    → IsCounted lm rm (record {
      l_used = replicate (length lm) false;
      r_used = replicate (length rm) false;
      pairs = [];
    })
start-IsCounted lm rm = record {
  left_length = length-replicate (length lm) false;
  right_length = length-replicate (length rm) false;
  left_count = count_true-replicate (length lm);
  right_count = count_true-replicate (length rm);
}

pub start-FreeFrom : (n j : ℕ) → j < length (replicate n false) → IsFree (replicate n false) j
start-FreeFrom zero j lt = elim lt [ ]
start-FreeFrom (suc n) zero lt = refl
start-FreeFrom (suc n) (suc j) lt = start-FreeFrom n j (omega arith)
