-- ===== src/Diff/Engine/Explains.antt =====
-- crates/idakit/src/types/diff/canonical/engine.rs: what a reported change says of the two types.
use idakit.Base.{
  ℕ, suc, Bool, true, false, length, Option, some, List, [], ◌∷◌, ◌++◌, ◌≡◌, ◌≢◌, refl, subst, sym,
  Str, str, decimal, IsIn, if◌then◌else◌, ite,
}
use idakit.Canonical.{
  CanonicalType, CanonicalMember, Members, Params, RecordKind, ptr, array, aggregate, enumeration,
  function, member, more_params, params_list, name, ty, bit_offset, bitfield_width, members_list,
}
use idakit.Diff.Change.{
  Change, ChangeKind, change, added, removed, retyped, renamed, moved, bitfield_changed,
  size_changed, constant_added, constant_removed, constant_changed, join, path_in,
}

-- The path of a part named `n` of what stands at `p`: a dot between the two, unless `p` is the root.
abbrev pub dotted : Str → Str → Str
dotted [] n = n
dotted (x ∷ xs) n = (x ∷ xs) ++ (str "." ++ n)

-- The path of a member: a member without a name is at the path of its record.
abbrev pub at_member : CanonicalMember → Str → Str
at_member (member [] o w t) p = p
at_member (member (x ∷ xs) o w t) p = dotted p (x ∷ xs)

-- Two types that are compared part by part: records of one tag and kind, enumerations of one tag,
-- pointers of one width, arrays of one length, and functions with as many parameters each, and with
-- variable arguments both or neither.
abbrev pub Comparable : CanonicalType → CanonicalType → Type 0
Comparable (aggregate lt lk lm ls) (aggregate rt rk rm rs) = (lk ≡ rk) × (lt ≡ rt)
Comparable (enumeration lt lu lm ls) (enumeration rt ru rm rs) = lt ≡ rt
Comparable (ptr lp lw) (ptr rp rw) = lw ≡ rw
Comparable (array le ll) (array re rl) = ll ≡ rl
Comparable (function lret lp lv) (function rret rp rv) =
    (lv ≡ rv) × (length (params_list lp) ≡ length (params_list rp))
Comparable l r = ⊥

mutual
  -- The change, reported of two types at a path, is true of them: it stands at the path of the part
  -- that differs, and it says how that part differs.
  pub data Explains : CanonicalType → CanonicalType → Str → Change → Type 0 where
    type_differs :
        {l r : CanonicalType} {p : Str}
        → l ≢ r
        → ¬ Comparable l r
        → Explains l r p (change p (retyped l r))
    size_differs :
        {lt rt : Option Str} {lk rk : RecordKind} {lm rm : Members} {ls rs : Option ℕ} {p : Str}
        → ls ≢ rs
        → Explains (aggregate lt lk lm ls) (aggregate rt rk rm rs) p (change p (size_changed ls rs))
    member_gone :
        {lt rt : Option Str} {lk rk : RecordKind} {lm rm : Members} {ls rs : Option ℕ} {p : Str}
        (a : CanonicalMember)
        → IsIn a (members_list lm)
        → Explains
            (aggregate lt lk lm ls)
            (aggregate rt rk rm rs)
            p
            (change (at_member a p) (removed (ty a)))
    member_new :
        {lt rt : Option Str} {lk rk : RecordKind} {lm rm : Members} {ls rs : Option ℕ} {p : Str}
        (b : CanonicalMember)
        → IsIn b (members_list rm)
        → Explains
            (aggregate lt lk lm ls)
            (aggregate rt rk rm rs)
            p
            (change (at_member b p) (added (ty b)))
    in_members :
        {lt rt : Option Str} {lk rk : RecordKind} {lm rm : Members} {ls rs : Option ℕ} {p : Str}
        {a b : CanonicalMember} {c : Change}
        → IsIn a (members_list lm)
        → IsIn b (members_list rm)
        → PairExplains a b p c
        → Explains (aggregate lt lk lm ls) (aggregate rt rk rm rs) p c
    enum_size_differs :
        {lt rt : Option Str} {lu ru : CanonicalType} {lm rm : List (Str × ℕ)} {ls rs : Option ℕ}
        {p : Str}
        → ls ≢ rs
        → Explains
            (enumeration lt lu lm ls)
            (enumeration rt ru rm rs)
            p
            (change p (size_changed ls rs))
    in_underlying :
        {lt rt : Option Str} {lu ru : CanonicalType} {lm rm : List (Str × ℕ)} {ls rs : Option ℕ}
        {p : Str} {c : Change}
        → Explains lu ru (dotted p (str "underlying")) c
        → Explains (enumeration lt lu lm ls) (enumeration rt ru rm rs) p c
    in_constants :
        {lt rt : Option Str} {lu ru : CanonicalType} {lm rm : List (Str × ℕ)} {ls rs : Option ℕ}
        {p : Str} {c : Change}
        → ConstantExplains lm rm p c
        → Explains (enumeration lt lu lm ls) (enumeration rt ru rm rs) p c
    in_pointee :
        {lp rp : CanonicalType} {lw rw : Option ℕ} {p : Str} {c : Change}
        → Explains lp rp p c
        → Explains (ptr lp lw) (ptr rp rw) p c
    in_element :
        {le re : CanonicalType} {ll rl : ℕ} {p : Str} {c : Change}
        → Explains le re p c
        → Explains (array le ll) (array re rl) p c
    in_result :
        {lret rret : CanonicalType} {lp rp : Params} {lv rv : Bool} {p : Str} {c : Change}
        → Explains lret rret (dotted p (str "return")) c
        → Explains (function lret lp lv) (function rret rp rv) p c
    in_params :
        {lret rret : CanonicalType} {lp rp : Params} {lv rv : Bool} {p : Str} {c : Change}
        → ParamsExplain lp 0 rp p c
        → Explains (function lret lp lv) (function rret rp rv) p c

  -- A change of one member into another.
  pub data PairExplains : CanonicalMember → CanonicalMember → Str → Change → Type 0 where
    name_differs :
        {a b : CanonicalMember} {p : Str}
        → name a ≢ name b
        → PairExplains a b p (change (at_member b p) (renamed (name a)))
    width_differs :
        {a b : CanonicalMember} {p : Str}
        → bitfield_width a ≢ bitfield_width b
        → PairExplains a b p
            (change (at_member b p) (bitfield_changed (bitfield_width a) (bitfield_width b)))
    offset_differs :
        {a b : CanonicalMember} {p : Str} {from to : ℕ}
        → bit_offset a ≡ some from
        → bit_offset b ≡ some to
        → from ≢ to
        → PairExplains a b p (change (at_member b p) (moved from to))
    in_type :
        {a b : CanonicalMember} {p : Str} {c : Change}
        → Explains (ty a) (ty b) (at_member b p) c
        → PairExplains a b p c

  -- A change of the named values of an enumeration.
  pub data ConstantExplains : List (Str × ℕ) → List (Str × ℕ) → Str → Change → Type 0 where
    constant_gone :
        {lm rm : List (Str × ℕ)} {p : Str} {v : ℕ} (n : Str)
        → IsIn (n, v) lm
        → ((w : ℕ) → ¬ IsIn (n, w) rm)
        → ConstantExplains lm rm p (change (dotted p n) (constant_removed v))
    constant_new :
        {lm rm : List (Str × ℕ)} {p : Str} {w : ℕ} (n : Str)
        → IsIn (n, w) rm
        → ((v : ℕ) → ¬ IsIn (n, v) lm)
        → ConstantExplains lm rm p (change (dotted p n) (constant_added w))
    value_differs :
        {lm rm : List (Str × ℕ)} {p : Str} {v w : ℕ} (n : Str)
        → IsIn (n, v) lm
        → IsIn (n, w) rm
        → v ≢ w
        → ConstantExplains lm rm p (change (dotted p n) (constant_changed v w))

  -- A change of a parameter, at its position counted from the given one.
  pub data ParamsExplain : Params → ℕ → Params → Str → Change → Type 0 where
    first_param :
        {a b : CanonicalType} {as' bs : Params} {i : ℕ} {p : Str} {c : Change}
        → Explains a b (dotted p (str "arg" ++ decimal i)) c
        → ParamsExplain (more_params a as') i (more_params b bs) p c
    later_param :
        {a b : CanonicalType} {as' bs : Params} {i : ℕ} {p : Str} {c : Change}
        → ParamsExplain as' (suc i) bs p c
        → ParamsExplain (more_params a as') i (more_params b bs) p c

-- Every change of a list has the property.
pub data Each (P : Change → Type 0) : List Change → Type 0 where
  nothing : Each P []
  more : {c : Change} {cs : List Change} → P c → Each P cs → Each P (c ∷ cs)

module _ {P : Change → Type 0} where
  pub Each-append : {cs ds : List Change} → Each P cs → Each P ds → Each P (cs ++ ds)
  Each-append nothing k = k
  Each-append (more h hs) k = more h (Each-append hs k)

  pub Each-unless {ℓ} :
      {X : Type ℓ} (d : Dec X) {cs : List Change} → (¬ X → Each P cs) → Each P (ite d [] cs)
  Each-unless (yes h) k = nothing
  Each-unless (no h) k = k h

  pub Each-if :
      (b : Bool) {cs ds : List Change}
      → (b ≡ true → Each P cs)
      → (b ≡ false → Each P ds)
      → Each P (if b then cs else ds)
  Each-if true hc hd = hc refl
  Each-if false hc hd = hd refl

  pub Each-map :
      {Q : Change → Type 0} {cs : List Change} → ((c : Change) → P c → Q c) → Each P cs → Each Q cs
  Each-map f nothing = nothing
  Each-map f (more h hs) = more (f _ h) (Each-map f hs)

pub join-dotted : (p n : Str) → join p n ≡ dotted p n
unfolding join
join-dotted [] n = refl
join-dotted (x ∷ xs) n = refl

pub path_in-at_member : (m : CanonicalMember) (p : Str) → path_in m p ≡ at_member m p
unfolding path_in
path_in-at_member (member [] o w t) p = refl
path_in-at_member (member (x ∷ xs) o w t) p = join-dotted p (x ∷ xs)

-- A change at a path that is spelled in another way.
pub one_at :
    {P : Change → Type 0} {p q : Str} {k : ChangeKind}
    → p ≡ q
    → P (change q k)
    → Each P (change p k ∷ [])
one_at {P} {k = k} e h = more (subst (λ x. P (change x k)) (sym e) h) nothing
