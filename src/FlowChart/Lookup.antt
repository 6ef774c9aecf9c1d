-- ===== src/FlowChart/Lookup.antt =====
-- crates/idakit/src/flowchart.rs: the block at an address.
use idakit.Base.{
  ℕ, zero, suc, ◌+◌, ◌<◌, ◌≤◌, Bool, true, false, Option, none, some, List, [], ◌∷◌, ◌≡◌, refl,
  subst, get_elem?, arith, if◌then◌else◌,
}
use idakit.Address.{Address, get}
use idakit.FlowChart.{BasicBlock, BasicBlockId, block_at, covers}

-- The raw address is in the half-open range of the block.
abbrev pub IsInside : BasicBlock → Address → Type 0
IsInside b a = (get b.start ≤ get a) × (get a < get b.end)

covers-IsInside : (b : BasicBlock) (a : Address) → covers b a ≡ true → IsInside b a
covers-IsInside b a h = ground arith

covers-not-IsInside : (b : BasicBlock) (a : Address) → covers b a ≡ false → ¬ IsInside b a
covers-not-IsInside b a h k = ground arith

-- What the block at an address is, in the blocks from the index `i` on.
abbrev pub IsFirstCover : ℕ → List BasicBlock → Address → Option BasicBlockId → Type 0
IsFirstCover i bs a none = (j : ℕ) (b : BasicBlock) → get_elem? bs j ≡ some b → ¬ IsInside b a
IsFirstCover i bs a (some k) =
    (j : ℕ) × (k ≡ i + j)
    × ((b : BasicBlock) × (get_elem? bs j ≡ some b) × IsInside b a)
    × ((m : ℕ) (c : BasicBlock) → m < j → get_elem? bs m ≡ some c → ¬ IsInside c a)

none_block : {b : BasicBlock} → ◌≡◌ {A = Option BasicBlock} none (some b) → ⊥
none_block e = cc

-- The lookup of an address gives the index of the first block with the raw address at or after its
-- start and before its end, and nothing only if there is no such block.
pub block_at-IsFirstCover :
    (i : ℕ) (bs : List BasicBlock) (a : Address) → IsFirstCover i bs a (block_at i bs a)
unfolding block_at
block_at-IsFirstCover i [] a = λ j b h. absurd (none_block h)
block_at-IsFirstCover i (b ∷ bs) a =
    first (covers b a) refl (block_at (suc i) bs a) (block_at-IsFirstCover (suc i) bs a)
  where
    first :
        (w : Bool)
        → covers b a ≡ w
        → (o : Option BasicBlockId) → IsFirstCover (suc i) bs a o
        → IsFirstCover i (b ∷ bs) a (if w then some i else o)
    first true q o h =
        (0, omega arith, (b, refl, covers-IsInside b a q), λ m c l. absurd (below_zero m l))
      where
        below_zero : (m : ℕ) → m < 0 → ⊥
        below_zero m l = omega arith
    first false q none h = at_none
      where
        at_none : (j : ℕ) (c : BasicBlock) → get_elem? (b ∷ bs) j ≡ some c → ¬ IsInside c a
        at_none zero c g =
            subst (λ (x : BasicBlock). ¬ IsInside x a) {x = b} {y = c} (cc g)
              (covers-not-IsInside b a q)
        at_none (suc j) c g = h j c g
    first false q (some k) (j, e, there, before) = (suc j, omega (arith, e), there, earlier)
      where
        earlier :
            (m : ℕ) (c : BasicBlock) → m < suc j → get_elem? (b ∷ bs) m ≡ some c → ¬ IsInside c a
        earlier zero c l g =
            subst (λ (x : BasicBlock). ¬ IsInside x a) {x = b} {y = c} (cc g)
              (covers-not-IsInside b a q)
        earlier (suc m) c l g = before m c (omega (arith, l)) g
