-- ===== src/Diff/Pairing/Account.antt =====
-- crates/idakit/src/types/diff/canonical/engine.rs: every member is paired once or left over.
use idakit.Base.{
  ℕ, ◌+◌, Bool, true, Option, none, some, List, [], ◌∷◌, ◌≡◌, ◌≢◌, refl, sym, ap, subst, length,
  get_elem?, arith, leb, inl, inr, Bool-cases, All,
}
use idakit.Canonical.{CanonicalMember}
use idakit.Diff.Pairing.{
  PairState, pair_up, Groups, get_group, group_unpaired, only_index, insert_pair, sort_pairs,
  offset_pair, with_left, single_pair, push_pair, offset_pairs, pair_all, pair_by_offset,
  pair_members, unused,
}
use idakit.Diff.Pairing.Flags.{
  IsFree, IsFree-set, IsCounted, pair_up-IsCounted, pair_by_name-IsCounted, start-IsCounted,
  start-FreeFrom, length-unused,
}
use idakit.Diff.Pairing.Groups.{
  offset_of, HasOffset, GroupOk, GroupsOk, get_group-GroupOk, KeysDistinct,
  group_unpaired-KeysDistinct, grouped-GroupsOk,
}

abbrev Apart : ℕ × ℕ → ℕ × ℕ → Type 0
Apart p q = (p.0 ≢ q.0) × (p.1 ≢ q.1)

-- No index stands in two pairs.
abbrev PairsDistinct : List (ℕ × ℕ) → Type 0
PairsDistinct [] = Unit {0}
PairsDistinct (p ∷ ps) = All (Apart p) ps × PairsDistinct ps

Apart-sym : (p q : ℕ × ℕ) → Apart p q → Apart q p
Apart-sym p q h = (λ e. h.0 (sym e), λ e. h.1 (sym e))

insert_pair-All :
    (P : ℕ × ℕ → Type 0) (p : ℕ × ℕ) (qs : List (ℕ × ℕ)) → P p → All P qs → All P (insert_pair p qs)
unfolding insert_pair
insert_pair-All P p [] h k = (h, tt)
insert_pair-All P p (q ∷ qs) h k = elim (Bool-cases (leb p.0 q.0)) [
  | inl e ↦ rw e (h, (k.0, k.1))
  | inr e ↦ rw e (k.0, insert_pair-All P p qs h k.1)
]

insert_pair-Distinct :
    (p : ℕ × ℕ) (qs : List (ℕ × ℕ))
    → All (Apart p) qs
    → PairsDistinct qs
    → PairsDistinct (insert_pair p qs)
unfolding insert_pair
insert_pair-Distinct p [] h d = (tt, tt)
insert_pair-Distinct p (q ∷ qs) h d = elim (Bool-cases (leb p.0 q.0)) [
  | inl e ↦ rw e (h, d)
  | inr e ↦
      rw e
        (insert_pair-All (Apart q) p qs (Apart-sym p q h.0) d.0, insert_pair-Distinct p qs h.1 d.1)
]

sort_pairs-All : (P : ℕ × ℕ → Type 0) (ps : List (ℕ × ℕ)) → All P ps → All P (sort_pairs ps)
unfolding sort_pairs
sort_pairs-All P [] h = tt
sort_pairs-All P (p ∷ ps) h = insert_pair-All P p (sort_pairs ps) h.0 (sort_pairs-All P ps h.1)

sort_pairs-Distinct : (ps : List (ℕ × ℕ)) → PairsDistinct ps → PairsDistinct (sort_pairs ps)
unfolding sort_pairs
sort_pairs-Distinct [] h = tt
sort_pairs-Distinct (p ∷ ps) h =
    insert_pair-Distinct p (sort_pairs ps) (sort_pairs-All (Apart p) ps h.0)
      (sort_pairs-Distinct ps h.1)

module _ (lm rm : List CanonicalMember) (lu ru : List Bool) where
  -- Both indices of a pair are free and have the offset.
  abbrev IsPairAt : ℕ → ℕ × ℕ → Type 0
  IsPairAt off p = (IsFree lu p.0 × HasOffset lm off p.0) × (IsFree ru p.1 × HasOffset rm off p.1)

  only_index-Ok :
      (ms : List CanonicalMember) (us : List Bool) (off : ℕ) (is : List ℕ) (i : ℕ)
      → GroupOk ms us (off, is)
      → only_index is ≡ some i
      → IsFree us i × HasOffset ms off i
  unfolding only_index
  only_index-Ok ms us off [] i h e = cc
  only_index-Ok ms us off (j ∷ []) i h e = subst (λ k. IsFree us k × HasOffset ms off k) (cc e) h.0
  only_index-Ok ms us off (j ∷ k ∷ is) i h e = cc

  offset_pair-IsPairAt :
      (right : Groups) (off : ℕ) (ls : List ℕ) (p : ℕ × ℕ)
      → GroupsOk rm ru right
      → GroupOk lm lu (off, ls)
      → offset_pair right (off, ls) ≡ some p
      → IsPairAt off p
  unfolding offset_pair single_pair with_left
  offset_pair-IsPairAt right off ls p hr hl e = go (only_index ls) (get_group off right) refl refl e
    where
      last :
          (li : ℕ) (rs : List ℕ) (o : Option ℕ)
          → only_index ls ≡ some li
          → get_group off right ≡ some rs
          → only_index rs ≡ o
          → with_left li o ≡ some p
          → IsPairAt off p
      last li rs none l g r h = cc
      last li rs (some ri) l g r h = subst (IsPairAt off) (cc h) (
        only_index-Ok lm lu off ls li hl l,
        only_index-Ok rm ru off rs ri (get_group-GroupOk rm ru off right rs hr g) r,
      )

      go :
          (l : Option ℕ) (g : Option (List ℕ))
          → only_index ls ≡ l
          → get_group off right ≡ g
          → single_pair l g ≡ some p
          → IsPairAt off p
      go (some li) (some rs) l g h = last li rs (only_index rs) l g refl h
      go (some li) none l g h = cc
      go none g l k h = cc

  -- The pair of one offset shares no index with a pair of another.
  IsPairAt-Apart : (off k : ℕ) (p q : ℕ × ℕ) → off ≢ k → IsPairAt off p → IsPairAt k q → Apart p q
  IsPairAt-Apart off k p q n hp hq = (
    λ e. n (cc (ap (λ i. offset_of (get_elem? lm i)) e, hp.0.1, hq.0.1)),
    λ e. n (cc (ap (λ i. offset_of (get_elem? rm i)) e, hp.1.1, hq.1.1)),
  )

  abbrev IsPairSomewhere : (ℕ → Type 0) → ℕ × ℕ → Type 0
  IsPairSomewhere P q = (k : ℕ) × P k × IsPairAt k q

  offset_pairs-All :
      (P : ℕ → Type 0) (gs right : Groups)
      → All (λ g. P g.0) gs
      → GroupsOk lm lu gs
      → GroupsOk rm ru right
      → All (IsPairSomewhere P) (offset_pairs gs right)
  unfolding offset_pairs push_pair
  offset_pairs-All P [] right hp hl hr = tt
  offset_pairs-All P ((off, ls) ∷ gs) right hp hl hr =
      go (offset_pair right (off, ls)) refl (offset_pairs-All P gs right hp.1 hl.1 hr)
    where
      go :
          (o : Option (ℕ × ℕ))
          → offset_pair right (off, ls) ≡ o
          → All (IsPairSomewhere P) (offset_pairs gs right)
          → All (IsPairSomewhere P) (push_pair o (offset_pairs gs right))
      go none e rest = rest
      go (some p) e rest = ((off, hp.0, offset_pair-IsPairAt right off ls p hr hl.0 e), rest)

  All-Apart :
      (off : ℕ) (p : ℕ × ℕ) (qs : List (ℕ × ℕ))
      → IsPairAt off p
      → All (IsPairSomewhere (λ k. k ≢ off)) qs
      → All (Apart p) qs
  All-Apart off p [] h k = tt
  All-Apart off p (q ∷ qs) h ((k, n, a), rest) =
      (IsPairAt-Apart off k p q (λ e. n (sym e)) h a, All-Apart off p qs h rest)

  offset_pairs-Distinct :
      (gs right : Groups)
      → KeysDistinct gs
      → GroupsOk lm lu gs
      → GroupsOk rm ru right
      → PairsDistinct (offset_pairs gs right)
  unfolding offset_pairs push_pair
  offset_pairs-Distinct [] right d hl hr = tt
  offset_pairs-Distinct ((off, ls) ∷ gs) right d hl hr =
      go (offset_pair right (off, ls)) refl (offset_pairs-Distinct gs right d.1 hl.1 hr)
    where
      go :
          (o : Option (ℕ × ℕ))
          → offset_pair right (off, ls) ≡ o
          → PairsDistinct (offset_pairs gs right)
          → PairsDistinct (push_pair o (offset_pairs gs right))
      go none e rest = rest
      go (some p) e rest = (
        All-Apart off p (offset_pairs gs right) (offset_pair-IsPairAt right off ls p hr hl.0 e)
            (offset_pairs-All (λ k. k ≢ off) gs right d.0 hl.1 hr),
        rest,
      )

-- Both indices of a pair are free.
abbrev IsFreePair : PairState → ℕ × ℕ → Type 0
IsFreePair s p = IsFree s.l_used p.0 × IsFree s.r_used p.1

free_after :
    (s : PairState) (p : ℕ × ℕ) (qs : List (ℕ × ℕ))
    → All (Apart p) qs
    → All (IsFreePair s) qs
    → All (IsFreePair (pair_up p.0 p.1 true s)) qs
unfolding pair_up
free_after s p [] a f = tt
free_after s p (q ∷ qs) a f = (
  (IsFree-set s.l_used p.0 q.0 a.0.0 f.0.0, IsFree-set s.r_used p.1 q.1 a.0.1 f.0.1),
  free_after s p qs a.1 f.1,
)

module _ (lm rm : List CanonicalMember) where
  pair_all-IsCounted :
      (ps : List (ℕ × ℕ)) (s : PairState)
      → PairsDistinct ps
      → All (IsFreePair s) ps
      → IsCounted lm rm s
      → IsCounted lm rm (pair_all ps s)
  unfolding pair_all
  pair_all-IsCounted [] s d f c = c
  pair_all-IsCounted ((li, ri) ∷ ps) s d f c =
      pair_all-IsCounted ps (pair_up li ri true s) d.1 (free_after s (li, ri) ps d.0 f.1)
        (pair_up-IsCounted li ri true s f.0.0 f.0.1 c)

  All-free :
      (s : PairState) (qs : List (ℕ × ℕ))
      → All (IsPairSomewhere lm rm s.l_used s.r_used (λ k. Unit {0})) qs
      → All (IsFreePair s) qs
  All-free s [] h = tt
  All-free s (q ∷ qs) ((k, n, a), rest) = ((a.0.0, a.1.0), All-free s qs rest)

  All-unit : (gs : Groups) → All (λ g. Unit {0}) gs
  All-unit [] = tt
  All-unit (g ∷ gs) = (tt, All-unit gs)

  pair_by_offset-IsCounted :
      (s : PairState) → IsCounted lm rm s → IsCounted lm rm (pair_by_offset lm rm s)
  unfolding pair_by_offset
  pair_by_offset-IsCounted s c =
      let left = group_unpaired 0 s.l_used lm [] in
      let right = group_unpaired 0 s.r_used rm [] in
      let hl = grouped-GroupsOk lm s.l_used in
      let hr = grouped-GroupsOk rm s.r_used in
      pair_all-IsCounted (sort_pairs (offset_pairs left right)) s
        (sort_pairs-Distinct _ (
          offset_pairs-Distinct lm rm s.l_used s.r_used left right
            (group_unpaired-KeysDistinct 0 s.l_used lm [] tt) hl hr))
        (sort_pairs-All (IsFreePair s) (offset_pairs left right) (
          All-free s _ (
            offset_pairs-All lm rm s.l_used s.r_used (λ k. Unit {0}) left right (All-unit left) hl
              hr)))
        c

  pair_members-IsCounted : IsCounted lm rm (pair_members lm rm)
  unfolding pair_members
  pair_members-IsCounted = pair_by_offset-IsCounted _ (
      pair_by_name-IsCounted 0 lm _ (omega arith) (λ j le lt. start-FreeFrom (length lm) j lt)
        (start-IsCounted lm rm))

-- The two passes of the pairing account for every member: on each side the number of the members
-- that are left over, to be reported as removed or added, and the number of pairs add up to the
-- length of the list.
pub pair_members-account :
    (lm rm : List CanonicalMember)
    → let s = pair_members lm rm in
      (length lm ≡ length (unused s.l_used lm) + length s.pairs)
      × (length rm ≡ length (unused s.r_used rm) + length s.pairs)
pair_members-account lm rm =
    let s = pair_members lm rm in
    let c = pair_members-IsCounted lm rm in
    (
      omega (arith, length-unused s.l_used lm c.left_length, c.left_count),
      omega (arith, length-unused s.r_used rm c.right_length, c.right_count),
    )
