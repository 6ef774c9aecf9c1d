-- ===== src/Diff/Engine.antt =====
-- crates/idakit/src/types/diff/canonical/engine.rs: the walk that produces the changes.
--
-- `diff_into` appends to `out` in the source and returns what it appends here. `diff_members`
-- visits the pairs in the order of the pairing, so it takes `diff_against` of each left member as
-- a function (`member_diffs`), which keeps the recursion structural.
pub mod Explains
pub mod Emitted
pub mod Sound
pub mod Reorder
pub mod Empty
use idakit.Base.{
  ℕ, zero, suc, Bool, true, false, not, ◌&&◌, ◌||◌, Option, none, some, List, [], ◌∷◌, ◌++◌, Str,
  str, decimal, length, get_elem?, if◌then◌else◌, ◌==◌, str_eq, ite, ℕ_discrete,
}
use idakit.Canonical.{
  CanonicalType, CanonicalMember, Members, Params, RecordKind, void, bool, int, float, ptr, array,
  named, aggregate, enumeration, function, typedef, opaque, back_ref, member, no_members,
  more_members, no_params, more_params, CanonicalType-discrete, RecordKind-discrete, tag_discrete,
  size_discrete, name, ty, members_list, params_list,
}
use idakit.Diff.Change.{
  ChangeKind, Change, change, TypeDiff, added, removed, retyped, renamed, moved, bitfield_changed,
  size_changed, constant_added, constant_removed, constant_changed, join, path_in,
}
use idakit.Diff.Pairing.{PairState, pair_members, any_unused, unused}

-- `if self == other { return; }`.
unfoldable pub unless_equal : CanonicalType → CanonicalType → List Change → List Change
unless_equal l r changes = ite (CanonicalType-discrete l r) [] changes

unfoldable pub size_diff : Str → Option ℕ → Option ℕ → List Change
size_diff path l r = ite (size_discrete l r) [] (change path (size_changed l r) ∷ [])

unfoldable pub width_diff : Str → Option ℕ → Option ℕ → List Change
width_diff path l r = ite (size_discrete l r) [] (change path (bitfield_changed l r) ∷ [])

-- The move of a paired member, reported when nothing was inserted or removed.
unfoldable pub move_diff : Bool → Str → Option ℕ → Option ℕ → List Change
move_diff true path (some from) (some to) =
    if from == to then [] else change path (moved from to) ∷ []
move_diff _ path l r = []

-- `rm.iter().find(|(rn, _)| rn == name)`: the value of the first constant of that name.
unfoldable pub find_constant : Str → List (Str × ℕ) → Option ℕ
find_constant n [] = none
find_constant n ((m, v) ∷ cs) = if str_eq m n then some v else find_constant n cs

-- What a left constant of value `v` reports against the right constant of its name.
unfoldable pub left_constant : Str → ℕ → Option ℕ → List Change
left_constant at v (some w) = if v == w then [] else change at (constant_changed v w) ∷ []
left_constant at v none = change at (constant_removed v) ∷ []

-- What a right constant reports against the left constant of its name.
unfoldable pub right_constant : Str → ℕ → Option ℕ → List Change
right_constant at v (some w) = []
right_constant at v none = change at (constant_added v) ∷ []

-- The first loop of `diff_constants`, over the left constants.
unfoldable pub constants_left : Str → List (Str × ℕ) → List (Str × ℕ) → List Change
unfolding find_constant left_constant
constants_left path [] rm = []
constants_left path ((n, v) ∷ lm) rm =
    left_constant (join path n) v (find_constant n rm) ++ constants_left path lm rm

-- The second loop, over the right constants that the left side lacks.
unfoldable pub constants_right : Str → List (Str × ℕ) → List (Str × ℕ) → List Change
unfolding find_constant right_constant
constants_right path lm [] = []
constants_right path lm ((n, v) ∷ rm) =
    right_constant (join path n) v (find_constant n lm) ++ constants_right path lm rm

unfoldable pub diff_constants : Str → List (Str × ℕ) → List (Str × ℕ) → List Change
unfolding constants_left constants_right
diff_constants path lm rm = constants_left path lm rm ++ constants_right path lm rm

-- `diff_against` of one left member: right member, parent path, `report_move`.
abbrev pub MemberDiff : Type 0
MemberDiff = CanonicalMember → Str → Bool → List Change

-- The body of the loop over the pairs, at the two members; an index out of range, which the
-- source would panic on, reports nothing.
unfoldable pub emit_found :
    Str
    → Bool
    → Bool
    → Option CanonicalMember
    → Option MemberDiff
    → Option CanonicalMember
    → List Change
emit_found path report crossed (some l) (some d) (some r) =
    (if crossed && not (str_eq (name l) (name r))
      then change (path_in r path) (renamed (name l)) ∷ []
      else [])
    ++ d r path report
emit_found path report crossed l d r = []

unfoldable pub emit_pair :
    Str
    → List CanonicalMember
    → List MemberDiff
    → List CanonicalMember
    → Bool
    → ℕ × ℕ × Bool
    → List Change
unfolding emit_found
emit_pair path lm diffs rm report (li, ri, crossed) =
    emit_found path report crossed (get_elem? lm li) (get_elem? diffs li) (get_elem? rm ri)

unfoldable pub emit_pairs :
    Str
    → List CanonicalMember
    → List MemberDiff
    → List CanonicalMember
    → Bool
    → List (ℕ × ℕ × Bool)
    → List Change
unfolding emit_pair
emit_pairs path lm diffs rm report [] = []
emit_pairs path lm diffs rm report (p ∷ ps) =
    emit_pair path lm diffs rm report p ++ emit_pairs path lm diffs rm report ps

-- The two closing loops, over the members left without a partner.
unfoldable pub emit_removed : Str → List CanonicalMember → List Change
emit_removed path [] = []
emit_removed path (l ∷ ls) = change (path_in l path) (removed (ty l)) ∷ emit_removed path ls

unfoldable pub emit_added : Str → List CanonicalMember → List Change
emit_added path [] = []
emit_added path (r ∷ rs) = change (path_in r path) (added (ty r)) ∷ emit_added path rs

unfoldable pub diff_members :
    Str → List CanonicalMember → List MemberDiff → List CanonicalMember → List Change
unfolding emit_pairs emit_removed emit_added
diff_members path lm diffs rm =
    let s = pair_members lm rm in
    let structural = any_unused s.l_used || any_unused s.r_used in
    emit_pairs path lm diffs rm (not structural) s.pairs
    ++ (emit_removed path (unused s.l_used lm) ++ emit_added path (unused s.r_used rm))

-- The guards of the arms of `diff_into`.
unfoldable pub same_record : Option Str → RecordKind → Option Str → RecordKind → Bool
same_record lt lk rt rk =
    ite (RecordKind-discrete lk rk) (ite (tag_discrete lt rt) true false) false

unfoldable pub same_tag : Option Str → Option Str → Bool
same_tag lt rt = ite (tag_discrete lt rt) true false

unfoldable pub same_width : Option ℕ → Option ℕ → Bool
same_width lw rw = ite (size_discrete lw rw) true false

unfoldable pub same_varargs : Bool → Bool → Bool
same_varargs true v = v
same_varargs false v = not v

abbrev pub retype : Str → CanonicalType → CanonicalType → List Change
retype path l r = change path (retyped l r) ∷ []

unfoldable mutual
  unfolding unless_equal size_diff width_diff move_diff diff_constants diff_members same_record
      same_tag same_width same_varargs

  pub diff_into : CanonicalType → Str → CanonicalType → List Change
  diff_into (aggregate lt lk lm ls) path (aggregate rt rk rm rs) =
      unless_equal (aggregate lt lk lm ls) (aggregate rt rk rm rs) (
        if same_record lt lk rt rk
        then size_diff path ls rs
          ++ diff_members path (members_list lm) (member_diffs lm) (members_list rm)
        else retype path (aggregate lt lk lm ls) (aggregate rt rk rm rs))
  diff_into (enumeration lt lu lm ls) path (enumeration rt ru rm rs) =
      unless_equal (enumeration lt lu lm ls) (enumeration rt ru rm rs) (
        if same_tag lt rt
        then diff_into lu (join path (str "underlying")) ru
          ++ (size_diff path ls rs ++ diff_constants path lm rm)
        else retype path (enumeration lt lu lm ls) (enumeration rt ru rm rs))
  diff_into (ptr lp lw) path (ptr rp rw) =
      unless_equal (ptr lp lw) (ptr rp rw)
        (if same_width lw rw then diff_into lp path rp else retype path (ptr lp lw) (ptr rp rw))
  diff_into (array le ll) path (array re rl) =
      unless_equal (array le ll) (array re rl)
        (if ll == rl then diff_into le path re else retype path (array le ll) (array re rl))
  diff_into (function lret lp lv) path (function rret rp rv) =
      unless_equal (function lret lp lv) (function rret rp rv) (
        if same_varargs lv rv && (length (params_list lp) == length (params_list rp))
        then diff_into lret (join path (str "return")) rret ++ diff_params lp 0 path rp
        else retype path (function lret lp lv) (function rret rp rv))
  diff_into l path r = unless_equal l r (retype path l r)

  pub diff_against : CanonicalMember → CanonicalMember → Str → Bool → List Change
  diff_against (member ln lo lw lt) (member rn ro rw rt) parent report =
      let at = path_in (member rn ro rw rt) parent in
      diff_into lt at rt ++ (width_diff at lw rw ++ move_diff report at lo ro)

  pub member_diffs : Members → List MemberDiff
  member_diffs no_members = []
  member_diffs (more_members m ms) = diff_against m ∷ member_diffs ms

  pub diff_params : Params → ℕ → Str → Params → List Change
  diff_params no_params i path r = []
  diff_params (more_params a as') i path no_params = []
  diff_params (more_params a as') i path (more_params b bs) =
      diff_into a (join path (str "arg" ++ decimal i)) b ++ diff_params as' (suc i) path bs

-- `CanonicalType::diff`.
unfoldable pub diff : CanonicalType → CanonicalType → TypeDiff
unfolding diff_into
diff l r = diff_into l [] r
