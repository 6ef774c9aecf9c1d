-- ===== src/Diff/Engine/Emitted.antt =====
-- crates/idakit/src/types/diff/canonical/engine.rs: what the loops over constants and members report.
use idakit.Base.{
  ℕ, zero, suc, Bool, true, false, not, Option, none, some, List, [], ◌∷◌, ◌≡◌, ◌≢◌, refl, sym, ◌∙◌,
  ap, subst, Str, get_elem?, if◌then◌else◌, str_eq, str_eq_refl, str_eq_sound, ◌==◌, ◌&&◌, IsIn,
  inl, inr, arith,
}
use idakit.Canonical.{CanonicalMember, Members, RecordKind, aggregate, name, ty, members_list}
use idakit.Diff.Change.{Change, change, join, removed, added}
use idakit.Diff.Pairing.{unused}
use idakit.Diff.Engine.{
  MemberDiff, find_constant, left_constant, right_constant, constants_left, constants_right,
  emit_found, emit_pairs, emit_removed, emit_added, diff_constants, diff_members, member_diffs,
}
use idakit.Diff.Engine.Explains.{
  at_member, Explains, PairExplains, ConstantExplains, member_gone, member_new, in_members,
  name_differs, constant_gone, constant_new, value_differs, Each, nothing, more, Each-append,
  Each-if, Each-map, join-dotted, path_in-at_member, one_at,
}

pub false_ne : true ≡ false → ⊥
false_ne e = cc

none_value : {v : ℕ} → ◌≡◌ {A = Option ℕ} none (some v) → ⊥
none_value e = cc

-- The first constant of a name is one of them, and there is none if none is found.
find_constant-IsIn :
    (n : Str) (cs : List (Str × ℕ)) (v : ℕ) → find_constant n cs ≡ some v → IsIn (n, v) cs
unfolding find_constant
find_constant-IsIn n [] v h = absurd (none_value h)
find_constant-IsIn n ((m, w) ∷ cs) v h = go (find_constant-IsIn n cs v) (str_eq m n) refl h
  where
    go :
        (find_constant n cs ≡ some v → IsIn (n, v) cs)
        → (b : Bool) → str_eq m n ≡ b
        → (if b then some w else find_constant n cs) ≡ some v
        → IsIn (n, v) ((m, w) ∷ cs)
    go ih true q k = inl (cc (str_eq_sound m n q, k))
    go ih false q k = inr (ih k)

find_constant-none :
    (n : Str) (cs : List (Str × ℕ)) → find_constant n cs ≡ none → (v : ℕ) → ¬ IsIn (n, v) cs
unfolding find_constant
find_constant-none n [] h v i = i
find_constant-none n ((m, w) ∷ cs) h v i = go (find_constant-none n cs) (str_eq m n) refl h i
  where
    go :
        (find_constant n cs ≡ none → (v : ℕ) → ¬ IsIn (n, v) cs)
        → (b : Bool) → str_eq m n ≡ b
        → (if b then some w else find_constant n cs) ≡ none
        → IsIn (n, v) ((m, w) ∷ cs)
        → ⊥
    go ih true q k i = none_value (sym k)
    go ih false q k (inl e) =
        let same : m ≡ n = cc e in
        false_ne (sym (subst (λ (x : Str). str_eq m x ≡ true) same (str_eq_refl m)) ∙ q)
    go ih false q k (inr i) = ih k v i

-- Both lists of constants whole, while the loops go through a part of them.
module _ (lm rm : List (Str × ℕ)) (p : Str) where
  constants_left-Each :
      (ls : List (Str × ℕ))
      → ((x : Str × ℕ) → IsIn x ls → IsIn x lm)
      → Each (ConstantExplains lm rm p) (constants_left p ls rm)
  unfolding constants_left left_constant
  constants_left-Each [] sub = nothing
  constants_left-Each ((n, v) ∷ ls) sub =
      Each-append (one (find_constant n rm) refl) (constants_left-Each ls (λ x i. sub x (inr i)))
    where
      one :
          (found : Option ℕ)
          → find_constant n rm ≡ found
          → Each (ConstantExplains lm rm p) (left_constant (join p n) v found)
      one (some w) q =
          Each-if (v == w) (λ e. nothing)
            (λ e.
              let other : v ≢ w = λ s. ground arith in
              one_at (join-dotted p n)
                (value_differs n (sub (n, v) (inl refl)) (find_constant-IsIn n rm w q) other))
      one none q =
          one_at (join-dotted p n)
            (constant_gone n (sub (n, v) (inl refl)) (find_constant-none n rm q))

  constants_right-Each :
      (rs : List (Str × ℕ))
      → ((x : Str × ℕ) → IsIn x rs → IsIn x rm)
      → Each (ConstantExplains lm rm p) (constants_right p lm rs)
  unfolding constants_right right_constant
  constants_right-Each [] sub = nothing
  constants_right-Each ((n, w) ∷ rs) sub =
      Each-append (one (find_constant n lm) refl) (constants_right-Each rs (λ x i. sub x (inr i)))
    where
      one :
          (found : Option ℕ)
          → find_constant n lm ≡ found
          → Each (ConstantExplains lm rm p) (right_constant (join p n) w found)
      one (some v) q = nothing
      one none q =
          one_at (join-dotted p n)
            (constant_new n (sub (n, w) (inl refl)) (find_constant-none n lm q))

  pub diff_constants-Each : Each (ConstantExplains lm rm p) (diff_constants p lm rm)
  unfolding diff_constants
  diff_constants-Each =
      Each-append (constants_left-Each lm (λ x i. i)) (constants_right-Each rm (λ x i. i))

unused-IsIn :
    (used : List Bool) (ms : List CanonicalMember) (m : CanonicalMember)
    → IsIn m (unused used ms)
    → IsIn m ms
unfolding unused
unused-IsIn [] ms m i = absurd i
unused-IsIn (u ∷ us) [] m i = absurd i
unused-IsIn (true ∷ us) (x ∷ ms) m i = inr (unused-IsIn us ms m i)
unused-IsIn (false ∷ us) (x ∷ ms) m (inl e) = inl e
unused-IsIn (false ∷ us) (x ∷ ms) m (inr i) = inr (unused-IsIn us ms m i)

get_elem?-IsIn :
    (ms : List CanonicalMember) (i : ℕ) (m : CanonicalMember) → get_elem? ms i ≡ some m → IsIn m ms
get_elem?-IsIn [] i m h = absurd (no_member h)
  where
    no_member : ◌≡◌ {A = Option CanonicalMember} none (some m) → ⊥
    no_member e = cc
get_elem?-IsIn (x ∷ ms) zero m h = inl (cc h)
get_elem?-IsIn (x ∷ ms) (suc i) m h = inr (get_elem?-IsIn ms i m h)

-- What the walk hands to `diff_members` for each left member explains its changes into any other.
abbrev pub IsDiffOf : CanonicalMember → MemberDiff → Type 0
IsDiffOf a d = (b : CanonicalMember) (p : Str) (r : Bool) → Each (PairExplains a b p) (d b p r)

abbrev pub AreDiffsOf : List CanonicalMember → List MemberDiff → Type 0
AreDiffsOf [] [] = Unit {0}
AreDiffsOf (a ∷ as') (d ∷ ds) = IsDiffOf a d × AreDiffsOf as' ds
AreDiffsOf _ _ = ⊥

AreDiffsOf-get :
    (ms : List CanonicalMember) (ds : List MemberDiff) (i : ℕ) (a : CanonicalMember)
    (d : MemberDiff)
    → AreDiffsOf ms ds
    → get_elem? ms i ≡ some a
    → get_elem? ds i ≡ some d
    → IsDiffOf a d
AreDiffsOf-get [] [] i a d h e f = absurd (no_member e)
  where
    no_member : ◌≡◌ {A = Option CanonicalMember} none (some a) → ⊥
    no_member q = cc
AreDiffsOf-get [] (y ∷ ds) i a d h e f = elim h [ ]
AreDiffsOf-get (x ∷ ms) [] i a d h e f = elim h [ ]
AreDiffsOf-get (x ∷ ms) (y ∷ ds) zero a d h e f =
    subst (λ (m : CanonicalMember). IsDiffOf m d) (cc e) (subst (IsDiffOf x) (cc f) h.0)
AreDiffsOf-get (x ∷ ms) (y ∷ ds) (suc i) a d h e f = AreDiffsOf-get ms ds i a d h.1 e f

-- A change of two paired members of the two records.
data InPair (lm rm : List CanonicalMember) (p : Str) (c : Change) : Type 0 where
  in_pair :
      {a b : CanonicalMember} → IsIn a lm → IsIn b rm → PairExplains a b p c → InPair lm rm p c

module _ (lm rm : List CanonicalMember) (ds : List MemberDiff) (h : AreDiffsOf lm ds)
    (p : Str) where
  emit_found-Each :
      (report crossed : Bool) (li ri : ℕ) (l : Option CanonicalMember) (d : Option MemberDiff)
      (r : Option CanonicalMember)
      → get_elem? lm li ≡ l
      → get_elem? ds li ≡ d
      → get_elem? rm ri ≡ r
      → Each (InPair lm rm p) (emit_found p report crossed l d r)
  unfolding emit_found
  emit_found-Each report crossed li ri (some l) (some d) (some r) el ed er =
      let il = get_elem?-IsIn lm li l el in
      let ir = get_elem?-IsIn rm ri r er in
      Each-append
        (Each-if (crossed && not (str_eq (name l) (name r)))
          (λ q.
            let other : name l ≢ name r = λ s. renamed_apart s (ground arith) in
            one_at (path_in-at_member r p) (in_pair il ir (name_differs other)))
          (λ q. nothing))
        (Each-map (λ c k. in_pair il ir k) (AreDiffsOf-get lm ds li l d h el ed r p report))
    where
      renamed_apart : name l ≡ name r → str_eq (name l) (name r) ≡ false → ⊥
      renamed_apart s q =
          false_ne
            (sym (subst (λ (x : Str). str_eq (name l) x ≡ true) s (str_eq_refl (name l))) ∙ q)
  emit_found-Each report crossed li ri _ _ _ el ed er = nothing

  emit_pairs-Each :
      (report : Bool) (qs : List (ℕ × ℕ × Bool))
      → Each (InPair lm rm p) (emit_pairs p lm ds rm report qs)
  unfolding emit_pairs
  emit_pairs-Each report [] = nothing
  emit_pairs-Each report ((li, ri, crossed) ∷ qs) =
      Each-append
        (emit_found-Each report crossed li ri (get_elem? lm li) (get_elem? ds li) (get_elem? rm ri)
          refl refl refl)
        (emit_pairs-Each report qs)

  emit_removed-Each :
      (ls : List CanonicalMember)
      → Each
          (λ c. (a : CanonicalMember) × IsIn a ls × (c ≡ change (at_member a p) (removed (ty a))))
          (emit_removed p ls)
  unfolding emit_removed
  emit_removed-Each [] = nothing
  emit_removed-Each (l ∷ ls) =
      more (l, inl refl, ap (λ x. change x (removed (ty l))) (path_in-at_member l p))
        (Each-map (λ c (a, i, e). (a, inr i, e)) (emit_removed-Each ls))

  emit_added-Each :
      (rs : List CanonicalMember)
      → Each
          (λ c. (b : CanonicalMember) × IsIn b rs × (c ≡ change (at_member b p) (added (ty b))))
          (emit_added p rs)
  unfolding emit_added
  emit_added-Each [] = nothing
  emit_added-Each (r ∷ rs) =
      more (r, inl refl, ap (λ x. change x (added (ty r))) (path_in-at_member r p))
        (Each-map (λ c (b, i, e). (b, inr i, e)) (emit_added-Each rs))

module _ {lt rt : Option Str} {lk rk : RecordKind} (lm rm : Members) {ls rs : Option ℕ}
    (p : Str) where
  pub diff_members-Each :
      AreDiffsOf (members_list lm) (member_diffs lm)
      → Each
          (Explains (aggregate lt lk lm ls) (aggregate rt rk rm rs) p)
          (diff_members p (members_list lm) (member_diffs lm) (members_list rm))
  unfolding diff_members
  diff_members-Each h =
      let left = members_list lm in
      let right = members_list rm in
      let ds = member_diffs lm in
      Each-append (Each-map (λ c k. paired c k) (emit_pairs-Each left right ds h p _ _)) (
        Each-append
          (Each-map
            (λ c (a, i, e).
              subst (λ (x : Change). Explains (aggregate lt lk lm ls) (aggregate rt rk rm rs) p x)
                (sym e) (member_gone a (unused-IsIn _ left a i)))
            (emit_removed-Each left right ds h p _))
          (Each-map
            (λ c (b, i, e).
              subst (λ (x : Change). Explains (aggregate lt lk lm ls) (aggregate rt rk rm rs) p x)
                (sym e) (member_new b (unused-IsIn _ right b i)))
            (emit_added-Each left right ds h p _)))
    where
      paired :
          (c : Change)
          → InPair (members_list lm) (members_list rm) p c
          → Explains (aggregate lt lk lm ls) (aggregate rt rk rm rs) p c
      paired c (in_pair i j k) = in_members i j k
