-- ===== src/Diff/Pairing.antt =====
-- crates/idakit/src/types/diff/canonical/engine.rs: how `diff_members` pairs the members of two
-- aggregates, by name and then by an offset that is unique on both sides.
--
-- The `HashMap` from offsets to indices is an association list in order of first entry; the
-- source sorts what it reads from the map, so that the order of the map is not seen.
pub mod Flags
pub mod Groups
pub mod Account
use idakit.Base.{
  ℕ, zero, suc, Bool, true, false, not, ◌&&◌, ◌||◌, Option, none, some, List, [], ◌∷◌, ◌++◌, Str,
  is_empty, length, set, get_or, get_elem?, replicate, if◌then◌else◌, ◌==◌, leb, str_eq, map,
}
use idakit.Canonical.{CanonicalMember, member, name, bit_offset}

-- The three vectors that both passes fill; a pair is left index, right index, and whether the
-- pairing crossed a name change.
pub record PairState : Type 0 where
  pub l_used : List Bool
  pub r_used : List Bool
  pub pairs : List (ℕ × ℕ × Bool)

-- Marks both indices and records the pair.
unfoldable pub pair_up : ℕ → ℕ → Bool → PairState → PairState
pair_up li ri renamed s = record {
  l_used = set s.l_used li true;
  r_used = set s.r_used ri true;
  pairs = s.pairs ++ ((li, ri, renamed) ∷ []);
}

-- `(0..rm.len()).find(|&ri| !r_used[ri] && rm[ri].name == n)`, from index `i` on.
unfoldable pub find_name : Str → ℕ → List CanonicalMember → List Bool → Option ℕ
find_name n i [] used = none
find_name n i (r ∷ rs) [] = none
find_name n i (r ∷ rs) (u ∷ us) =
    let later = find_name n (suc i) rs us in if not u && str_eq (name r) n then some i else later

unfoldable pub match_name : ℕ → Str → List CanonicalMember → PairState → PairState
unfolding find_name pair_up
match_name li n rm s = elim (find_name n 0 rm s.r_used) [
  | some ri ↦ pair_up li ri false s
  | none ↦ s
]

-- Pass 1: exact name matches, anonymous members skipped.
unfoldable pub pair_by_name :
    ℕ → List CanonicalMember → List CanonicalMember → PairState → PairState
unfolding match_name
pair_by_name li [] rm s = s
pair_by_name li (l ∷ ls) rm s =
    pair_by_name (suc li) ls rm (if is_empty (name l) then s else match_name li (name l) rm s)

abbrev pub Groups : Type 0
Groups = List (ℕ × List ℕ)

-- `groups.entry(off).or_default().push(i)`.
unfoldable pub push_group : ℕ → ℕ → Groups → Groups
push_group off i [] = (off, i ∷ []) ∷ []
push_group off i ((o, is) ∷ gs) =
    if o == off then (o, is ++ (i ∷ [])) ∷ gs else (o, is) ∷ push_group off i gs

unfoldable pub get_group : ℕ → Groups → Option (List ℕ)
get_group off [] = none
get_group off ((o, is) ∷ gs) = if o == off then some is else get_group off gs

-- `group_unpaired_by_offset`, from index `i` on.
unfoldable pub group_unpaired : ℕ → List Bool → List CanonicalMember → Groups → Groups
unfolding push_group
group_unpaired i [] ms gs = gs
group_unpaired i (u ∷ us) [] gs = gs
group_unpaired i (u ∷ us) (m ∷ ms) gs =
    group_unpaired (suc i) us ms
      (if u then gs else elim (bit_offset m) [ some off ↦ push_group off i gs | none ↦ gs ])

-- `let [i] = is.as_slice()`.
unfoldable pub only_index : List ℕ → Option ℕ
only_index [] = none
only_index (i ∷ []) = some i
only_index (i ∷ j ∷ is) = none

-- `sort_unstable_by_key(|&(li, _)| li)`, whose keys are distinct.
unfoldable pub insert_pair : ℕ × ℕ → List (ℕ × ℕ) → List (ℕ × ℕ)
insert_pair p [] = p ∷ []
insert_pair p (q ∷ qs) = if leb p.0 q.0 then p ∷ q ∷ qs else q ∷ insert_pair p qs

unfoldable pub sort_pairs : List (ℕ × ℕ) → List (ℕ × ℕ)
unfolding insert_pair
sort_pairs [] = []
sort_pairs (p ∷ ps) = insert_pair p (sort_pairs ps)

-- `let [ri] = rs.as_slice()`, with the left index at hand.
unfoldable pub with_left : ℕ → Option ℕ → Option (ℕ × ℕ)
with_left li (some ri) = some (li, ri)
with_left li none = none

unfoldable pub single_pair : Option ℕ → Option (List ℕ) → Option (ℕ × ℕ)
single_pair (some li) (some rs) = with_left li (only_index rs)
single_pair left right = none

-- One entry of the loop over `l_groups`: the pair of an offset with one index on each side.
unfoldable pub offset_pair : Groups → ℕ × List ℕ → Option (ℕ × ℕ)
offset_pair right (off, ls) = single_pair (only_index ls) (get_group off right)

unfoldable pub push_pair : Option (ℕ × ℕ) → List (ℕ × ℕ) → List (ℕ × ℕ)
push_pair none ps = ps
push_pair (some p) ps = p ∷ ps

unfoldable pub offset_pairs : Groups → Groups → List (ℕ × ℕ)
offset_pairs [] right = []
offset_pairs (g ∷ gs) right = push_pair (offset_pair right g) (offset_pairs gs right)

unfoldable pub pair_all : List (ℕ × ℕ) → PairState → PairState
unfolding pair_up
pair_all [] s = s
pair_all ((li, ri) ∷ ps) s = pair_all ps (pair_up li ri true s)

-- Pass 2, over what pass 1 left.
unfoldable pub pair_by_offset : List CanonicalMember → List CanonicalMember → PairState → PairState
unfolding group_unpaired offset_pairs push_pair offset_pair single_pair with_left only_index
    get_group sort_pairs pair_all
pair_by_offset lm rm s =
    pair_all
      (sort_pairs
        (offset_pairs (group_unpaired 0 s.l_used lm []) (group_unpaired 0 s.r_used rm [])))
      s

-- Both passes, from nothing used.
unfoldable pub pair_members : List CanonicalMember → List CanonicalMember → PairState
unfolding pair_by_name pair_by_offset
pair_members lm rm = pair_by_offset lm rm (
    pair_by_name 0 lm rm (record {
      l_used = replicate (length lm) false;
      r_used = replicate (length rm) false;
      pairs = [];
    }))

-- `used.iter().any(|u| !u)`.
unfoldable pub any_unused : List Bool → Bool
any_unused [] = false
any_unused (u ∷ us) = not u || any_unused us

-- The members whose flag is not set, in order.
unfoldable pub unused : List Bool → List CanonicalMember → List CanonicalMember
unused [] ms = []
unused (u ∷ us) [] = []
unused (u ∷ us) (m ∷ ms) = if u then unused us ms else m ∷ unused us ms
