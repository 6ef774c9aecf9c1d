-- ===== src/FlowChart/Graph.antt =====
-- crates/idakit/src/flowchart.rs: the whole extracted graph.
use idakit.Base.{
  ℕ, zero, suc, ◌+◌, Bool, true, false, Option, none, some, List, [], ◌∷◌, ◌++◌, ◌≡◌, refl, sym,
  ◌∙◌, subst, get_elem?, length, arith, if◌then◌else◌, ltb, length-append, inl, inr, ◌^◌, ◌⊎◌,
}
use idakit.Arena.{alloc, get}
use idakit.FlowChart.{BasicBlock, Chart, ok, expect, read_block, extract_loop, extract}
use idakit.FlowChart.Extract.{and_then-ok, ok-eq, expect-ok, read_block-IsBlock, IsBlock}

-- The arena is the chart's first `n` blocks, each at its own index.
pub record IsGraph (chart : Chart) (n : ℕ) (blocks : List BasicBlock) : Type 0 where
  pub count : length blocks ≡ n
  pub each : (i : ℕ) (b : BasicBlock) → get blocks i ≡ some b → IsBlock chart i b

alloc-append :
    (b : BasicBlock) (bs : List BasicBlock) (i : ℕ) (cs : List BasicBlock)
    → alloc b bs ≡ some (i, cs)
    → cs ≡ bs ++ (b ∷ [])
unfolding alloc
alloc-append b bs i cs h = go (ltb (length bs) (2 ^ 32)) h
  where
    go :
        (w : Bool)
        → ◌≡◌ {A = Option (ℕ × List BasicBlock)}
            (if w then some (length bs, bs ++ (b ∷ [])) else none)
            (some (i, cs))
        → cs ≡ bs ++ (b ∷ [])
    go true e = cc
    go false e = cc

none_block : {b : BasicBlock} → ◌≡◌ {A = Option BasicBlock} none (some b) → ⊥
none_block e = cc

-- An entry of an extended list is an old one or the new one.
get_elem?-append_cases :
    (bs : List BasicBlock) (b c : BasicBlock) (m : ℕ)
    → get_elem? (bs ++ (b ∷ [])) m ≡ some c
    → (get_elem? bs m ≡ some c) ⊎ ((m ≡ length bs) × (b ≡ c))
get_elem?-append_cases [] b c zero h = inr (refl, cc)
get_elem?-append_cases [] b c (suc m) h = absurd (none_block h)
get_elem?-append_cases (x ∷ bs) b c zero h = inl h
get_elem?-append_cases (x ∷ bs) b c (suc m) h = elim (get_elem?-append_cases bs b c m h) [
  | inl e ↦ inl e
  | inr (e, f) ↦ inr (omega (arith, e), f)
]

extract_loop-IsGraph :
    (chart : Chart) (k i : ℕ) (blocks out : List BasicBlock)
    → IsGraph chart i blocks
    → extract_loop chart k i blocks ≡ ok out
    → IsGraph chart (i + k) out
unfolding extract_loop get
extract_loop-IsGraph chart zero i blocks out g h =
    subst (IsGraph chart (i + 0)) (ok-eq h)
      (record { count = omega (arith, g.count); each = g.each })
extract_loop-IsGraph chart (suc k) i blocks out g h =
    let (b, p, h1) = and_then-ok (read_block chart i) _ h in
    let ((j, made), q, h2) = and_then-ok (expect (alloc b blocks)) _ h1 in
    subst (λ (m : ℕ). IsGraph chart m out) (omega arith)
      (extract_loop-IsGraph chart k (suc i) made out
        (grown b (read_block-IsBlock chart i b p) j made (expect-ok (alloc b blocks) q)) h2)
  where
    grown :
        (b : BasicBlock)
        → IsBlock chart i b
        → (j : ℕ) (made : List BasicBlock) → alloc b blocks ≡ some (j, made)
        → IsGraph chart (suc i) made
    grown b r j made e =
        subst (IsGraph chart (suc i)) (sym (alloc-append b blocks j made e)) (record {
          count = omega (arith, g.count, length-append blocks (b ∷ []));
          each = λ m c h. elim (get_elem?-append_cases blocks b c m h) [
            | inl q ↦ g.each m c q
            | inr (q, f) ↦
                subst (λ (n : ℕ). IsBlock chart n c) (sym (q ∙ g.count))
                  (subst (IsBlock chart i) f r)
          ];
        })

-- When the chart is extracted, the arena holds exactly the function's own blocks, each under the
-- index that the kernel uses for it. A block has the range that the kernel gives it and the kind of
-- its byte. Its successors are the kernel's targets below the number of the function's blocks, in
-- their order, its exits are the other targets, each with its address and the mark of a stub that
-- never returns, and its predecessors are the kernel's sources below that number.
pub extract-IsGraph :
    (chart : Chart) (blocks : List BasicBlock)
    → extract chart ≡ ok blocks
    → IsGraph chart chart.nproper blocks
unfolding extract get
extract-IsGraph chart blocks h =
    subst (λ (n : ℕ). IsGraph chart n blocks) (omega arith)
      (extract_loop-IsGraph chart chart.nproper 0 [] blocks
        (record { count = refl; each = λ i b e. absurd (nothing i b e) }) h)
  where
    nothing : (i : ℕ) (b : BasicBlock) → get_elem? {A = BasicBlock} [] i ≡ some b → ⊥
    nothing i b e = cc
