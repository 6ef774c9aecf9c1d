-- ===== src/Tests.antt =====
-- crates/idakit/src: addresses, arenas, operators and graphs on concrete inputs.
use idakit.Base.{
  ℕ, zero, suc, ◌+◌, ◌-◌, ◌^◌, ◌<◌, ◌≤◌, true, none, some, [], ◌∷◌, ◌≡◌, ◌↔◌, refl, arith,
}
use idakit.Address
use idakit.Arena
use idakit.Address.{
  Address, address, try_new, bit_not, advance, distance_to, less, min, max_ea, bad_address,
}
use idakit.Address.Laws.{try_new-get, advance_lem, less-niche, IsAddress}
use idakit.Arena.{alloc}
use idakit.Arena.Laws.{alloc_fresh_and_stable}
use idakit.Ops.{
  BinaryOp, AssignmentOp, UnaryOp, binary_raw, binary_try_from, assignment_raw, assignment_try_from,
  unary_raw, unary_try_from,
}
use idakit.Ops.Laws.{try_from-exclusive}
use idakit.FlowChart.{BasicBlock, BlockInfo, Chart, extract, ok, block_at, normal}
use idakit.FlowChart.Lookup.{block_at-IsFirstCover, IsFirstCover}
use idakit.FlowChart.Graph.{extract-IsGraph, IsGraph}

-- The address 4096, and the greatest one.
abbrev low : Address
low = address (2 ^ 64 - 1 - 4096)

abbrev top : Address
top = address 1

try_new-get_example :
    ((try_new 4096 ≡ none) ↔ (4096 ≡ bad_address))
    × ((a : Address) → try_new 4096 ≡ some a → IsAddress a × (idakit.Address.get a ≡ 4096))
try_new-get_example = try_new-get 4096 (omega arith)

advance_lem_example :
    (b : Address) × (advance top 7 ≡ some b)
    × IsAddress b
    × (idakit.Address.get b ≡ min (idakit.Address.get top + 7) max_ea)
    × (idakit.Address.get top + 7 ≤ max_ea → distance_to top b ≡ 7)
advance_lem_example = advance_lem top 7 (omega arith, omega arith) (omega arith)

less-niche_example : (less low top ≡ true) ↔ (1 < low.niche)
less-niche_example = less-niche low top (omega arith, omega arith) (omega arith, omega arith)

made : alloc {A = ℕ} 7 (5 ∷ []) ≡ some (1, 5 ∷ 7 ∷ [])
unfolding alloc
made = refl

alloc_fresh_and_stable_example :
    (idakit.Arena.get {A = ℕ} (5 ∷ []) 1 ≡ none)
    × (idakit.Arena.get {A = ℕ} (5 ∷ 7 ∷ []) 1 ≡ some 7)
    × ((j y : ℕ)
        → idakit.Arena.get {A = ℕ} (5 ∷ []) j ≡ some y
        → idakit.Arena.get {A = ℕ} (5 ∷ 7 ∷ []) j ≡ some y)
alloc_fresh_and_stable_example = alloc_fresh_and_stable 7 (5 ∷ []) (5 ∷ 7 ∷ []) 1 made

try_from-exclusive_example :
    ((assignment_try_from (binary_raw BinaryOp.add) ≡ none)
      × (unary_try_from (binary_raw BinaryOp.add) ≡ none))
    × ((binary_try_from (assignment_raw AssignmentOp.assign) ≡ none)
        × (unary_try_from (assignment_raw AssignmentOp.assign) ≡ none))
    × ((binary_try_from (unary_raw UnaryOp.neg) ≡ none)
        × (assignment_try_from (unary_raw UnaryOp.neg) ≡ none))
try_from-exclusive_example = try_from-exclusive BinaryOp.add AssignmentOp.assign UnaryOp.neg

-- A function of one block, which jumps to itself or out to a stub.
abbrev entry_info : BlockInfo
entry_info = record { start = 16; end = 32; kind = 0 }

abbrev stub_info : BlockInfo
stub_info = record { start = 64; end = 64; kind = 5 }

abbrev loop_chart : Chart
loop_chart = record {
  nproper = 1;
  block = λ i. some (pick i);
  succs = λ i. some (0 ∷ 1 ∷ []);
  preds = λ i. some (0 ∷ []);
}
  where
    pick : ℕ → BlockInfo
    pick zero = entry_info
    pick (suc i) = stub_info

abbrev loop_block : BasicBlock
loop_block = record {
  start = address (2 ^ 64 - 1 - 16);
  end = address (2 ^ 64 - 1 - 32);
  kind = normal;
  succ = 0 ∷ [];
  pred = 0 ∷ [];
  exits = record { target = address (2 ^ 64 - 1 - 64); noreturn = true } ∷ [];
}

extracted : extract loop_chart ≡ ok (loop_block ∷ [])
unfolding extract try_new
extracted = refl

extract-IsGraph_example : IsGraph loop_chart 1 (loop_block ∷ [])
extract-IsGraph_example = extract-IsGraph loop_chart (loop_block ∷ []) extracted

block_at-IsFirstCover_example :
    IsFirstCover 0 (loop_block ∷ []) low (block_at 0 (loop_block ∷ []) low)
block_at-IsFirstCover_example = block_at-IsFirstCover 0 (loop_block ∷ []) low
