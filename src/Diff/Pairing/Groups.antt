-- ===== src/Diff/Pairing/Groups.antt =====
-- crates/idakit/src/types/diff/canonical/engine.rs: pass 2 of `diff_members`, the grouping by
-- offset and the pairs that it yields.
use idakit.Base.{
  ℕ, suc, ◌+◌, Bool, true, false, Option, none, some, List, [], ◌∷◌, ◌++◌, ◌≡◌, ◌≢◌, refl, sym, ◌∙◌,
  ap, subst, get_elem?, if◌then◌else◌, arith, ◌==◌, ==_iff, inl, inr, Bool-cases, All,
}
use idakit.Canonical.{CanonicalMember, bit_offset}
use idakit.Diff.Pairing.{Groups, push_group, get_group, group_unpaired}
use idakit.Diff.Pairing.Flags.{IsFree}

-- The offset of the member at an index.
abbrev pub offset_of : Option CanonicalMember → Option ℕ
offset_of none = none
offset_of (some m) = bit_offset m

abbrev pub HasOffset : List CanonicalMember → ℕ → ℕ → Type 0
HasOffset ms off i = offset_of (get_elem? ms i) ≡ some off

module _ (ms : List CanonicalMember) (used : List Bool) where
  -- Each index of a group is free and has the group's offset.
  abbrev pub GroupOk : ℕ × List ℕ → Type 0
  GroupOk g = All (λ i. IsFree used i × HasOffset ms g.0 i) g.1

  abbrev pub GroupsOk : Groups → Type 0
  GroupsOk gs = All GroupOk gs

  All-push :
      (off i : ℕ) (is : List ℕ)
      → GroupOk (off, is)
      → IsFree used i
      → HasOffset ms off i
      → GroupOk (off, is ++ (i ∷ []))
  All-push off i [] h f o = ((f, o), tt)
  All-push off i (j ∷ js) h f o = (h.0, All-push off i js h.1 f o)

  push_group-GroupsOk :
      (off i : ℕ) (gs : Groups)
      → GroupsOk gs
      → IsFree used i
      → HasOffset ms off i
      → GroupsOk (push_group off i gs)
  unfolding push_group
  push_group-GroupsOk off i [] h f o = (((f, o), tt), tt)
  push_group-GroupsOk off i ((k, is) ∷ gs) h f o = elim (Bool-cases (k == off)) [
    | inl e ↦ rw e (All-push k i is h.0 f (rw ((==_iff k off).0 e) o), h.1)
    | inr e ↦ rw e (h.0, push_group-GroupsOk off i gs h.1 f o)
  ]

  pub get_group-GroupOk :
      (off : ℕ) (gs : Groups) (is : List ℕ)
      → GroupsOk gs
      → get_group off gs ≡ some is
      → GroupOk (off, is)
  unfolding get_group
  get_group-GroupOk off [] is h e = cc
  get_group-GroupOk off ((k, js) ∷ gs) is h e = elim (Bool-cases (k == off)) [
    | inl t ↦ subst GroupOk (cc (sym ((==_iff k off).0 t), rw t at e)) h.0
    | inr t ↦ get_group-GroupOk off gs is h.1 (rw t at e)
  ]

  group_unpaired-GroupsOk :
      (i : ℕ) (us : List Bool) (rest : List CanonicalMember) (gs : Groups)
      → ((k : ℕ) → get_elem? us k ≡ get_elem? used (i + k))
      → ((k : ℕ) → get_elem? rest k ≡ get_elem? ms (i + k))
      → GroupsOk gs
      → GroupsOk (group_unpaired i us rest gs)
  unfolding group_unpaired
  group_unpaired-GroupsOk i [] rest gs hu hm h = h
  group_unpaired-GroupsOk i (u ∷ us) [] gs hu hm h = h
  group_unpaired-GroupsOk i (u ∷ us) (m ∷ rest) gs hu hm h =
      group_unpaired-GroupsOk (suc i) us rest _
        (λ k. hu (suc k) ∙ ap (get_elem? used) (omega arith))
        (λ k. hm (suc k) ∙ ap (get_elem? ms) (omega arith)) (step u (bit_offset m) (hu 0) refl)
    where
      here : some m ≡ get_elem? ms i
      here = hm 0 ∙ ap (get_elem? ms) (omega arith)

      step :
          (v : Bool) (o : Option ℕ)
          → some v ≡ get_elem? used (i + 0)
          → bit_offset m ≡ o
          → GroupsOk (if v then gs else elim o [ some off ↦ push_group off i gs | none ↦ gs ])
      step true o e d = h
      step false none e d = h
      step false (some off) e d =
          push_group-GroupsOk off i gs h (ap (get_elem? used) (omega arith) ∙ sym e) (rw (← here) d)

abbrev pub NotKey : ℕ → Groups → Type 0
NotKey off gs = All (λ g. g.0 ≢ off) gs

-- No two groups share an offset.
abbrev pub KeysDistinct : Groups → Type 0
KeysDistinct [] = Unit {0}
KeysDistinct (g ∷ gs) = NotKey g.0 gs × KeysDistinct gs

push_group-NotKey :
    (k off i : ℕ) (gs : Groups) → off ≢ k → NotKey k gs → NotKey k (push_group off i gs)
unfolding push_group
push_group-NotKey k off i [] n h = (n, tt)
push_group-NotKey k off i ((o, is) ∷ gs) n h = elim (Bool-cases (o == off)) [
  | inl e ↦ rw e (h.0, h.1)
  | inr e ↦ rw e (h.0, push_group-NotKey k off i gs n h.1)
]

push_group-KeysDistinct :
    (off i : ℕ) (gs : Groups) → KeysDistinct gs → KeysDistinct (push_group off i gs)
unfolding push_group
push_group-KeysDistinct off i [] h = (tt, tt)
push_group-KeysDistinct off i ((o, is) ∷ gs) h = elim (Bool-cases (o == off)) [
  | inl e ↦ rw e (h.0, h.1)
  | inr e ↦ rw e (
    push_group-NotKey o off i gs (λ p. ground (arith, p, e)) h.0,
    push_group-KeysDistinct off i gs h.1,
  )
]

pub group_unpaired-KeysDistinct :
    (i : ℕ) (us : List Bool) (ms : List CanonicalMember) (gs : Groups)
    → KeysDistinct gs
    → KeysDistinct (group_unpaired i us ms gs)
unfolding group_unpaired
group_unpaired-KeysDistinct i [] ms gs h = h
group_unpaired-KeysDistinct i (u ∷ us) [] gs h = h
group_unpaired-KeysDistinct i (u ∷ us) (m ∷ ms) gs h =
    group_unpaired-KeysDistinct (suc i) us ms _ (step u (bit_offset m))
  where
    step :
        (v : Bool) (o : Option ℕ)
        → KeysDistinct (if v then gs else elim o [ some off ↦ push_group off i gs | none ↦ gs ])
    step true o = h
    step false none = h
    step false (some off) = push_group-KeysDistinct off i gs h

pub grouped-GroupsOk :
    (ms : List CanonicalMember) (used : List Bool) → GroupsOk ms used (group_unpaired 0 used ms [])
grouped-GroupsOk ms used =
    group_unpaired-GroupsOk ms used 0 used ms [] (λ k. ap (get_elem? used) (omega arith))
      (λ k. ap (get_elem? ms) (omega arith)) tt
