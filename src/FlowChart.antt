-- ===== src/FlowChart.antt =====
-- crates/idakit/src/flowchart.rs: the owned control-flow graph, and its extraction from the
-- kernel's chart.
--
-- The kernel's chart is a parameter: what its accessors return, `none` where they fail.
pub mod Extract
pub mod Lookup
pub mod Graph
pub mod Total
use idakit.Base.{
  ℕ, zero, suc, ◌+◌, ◌%◌, Bool, true, false, ◌&&◌, Option, none, some, List, [], ◌∷◌, ◌++◌, ltb,
  leb, ◌==◌, if◌then◌else◌,
}
use idakit.Address.{Address, try_new, get}
use idakit.Arena.{alloc}

pub data BasicBlockKind : Type 0 where
  normal indirect_jump return cond_return no_return error : BasicBlockKind

-- The discriminants, `u8::from` and `BasicBlockKind::try_from`.
unfoldable pub kind_raw : BasicBlockKind → ℕ
kind_raw normal = 0
kind_raw indirect_jump = 1
kind_raw return = 2
kind_raw cond_return = 3
kind_raw no_return = 4
kind_raw error = 7

unfoldable pub kind_try_from : ℕ → Option BasicBlockKind
kind_try_from raw =
    if raw == 0
    then some normal
    else if raw == 1
    then some indirect_jump
    else if raw == 2
    then some return
    else if raw == 3
    then some cond_return
    else if raw == 4
    then some no_return
    else if raw == 7
    then some error
    else none

-- A handle in the arena of blocks.
abbrev pub BasicBlockId : Type 0
BasicBlockId = ℕ

pub record ExternalExit : Type 0 where
  pub target : Address
  pub noreturn : Bool

pub record BasicBlock : Type 0 where
  pub start : Address
  pub end : Address
  pub kind : BasicBlockKind
  pub succ : List BasicBlockId
  pub pred : List BasicBlockId
  pub exits : List ExternalExit

-- What `cfg_block` returns of a block.
pub record BlockInfo : Type 0 where
  pub start : ℕ
  pub end : ℕ
  pub kind : ℕ

-- `cfg_nproper`, `cfg_block`, `cfg_succs` and `cfg_preds` on the kernel's chart.
pub record Chart : Type 0 where
  pub nproper : ℕ
  pub block : ℕ → Option BlockInfo
  pub succs : ℕ → Option (List ℕ)
  pub preds : ℕ → Option (List ℕ)

-- What building a graph yields: a value, `Error::UnknownBlockKind` with its two fields, or a panic.
pub data Outcome (A : Type 0) : Type 0 where
  ok : A → Outcome A
  -- block, raw
  unknown_block_kind : ℕ → ℕ → Outcome A
  panic : Outcome A

unfoldable pub and_then : {A B : Type 0} → Outcome A → (A → Outcome B) → Outcome B
and_then (ok a) f = f a
and_then (unknown_block_kind b r) f = unknown_block_kind b r
and_then panic f = panic

-- `expect` on an option.
unfoldable pub expect : {A : Type 0} → Option A → Outcome A
expect none = panic
expect (some a) = ok a

-- The raw code of an external stub that never returns.
abbrev pub fcb_enoret : ℕ
fcb_enoret = 5

-- `block_range`.
unfoldable pub block_range : ℕ → ℕ → Outcome (Address × Address)
unfolding and_then expect
block_range start end =
    and_then (expect (try_new start)) (λ s. and_then (expect (try_new end)) (λ e. ok (s, e)))

-- The exit for an external stub.
unfoldable pub exit_to : BlockInfo → Outcome ExternalExit
unfolding and_then expect
exit_to info =
    and_then (expect (try_new info.start))
      (λ a. ok (record { target = a; noreturn = info.kind % 256 == fcb_enoret }))

-- The loop of `successors`, which splits the targets into blocks and exits.
unfoldable pub split_targets : Chart → List ℕ → Outcome (List BasicBlockId × List ExternalExit)
unfolding and_then expect exit_to
split_targets chart [] = ok ([], [])
split_targets chart (j ∷ js) =
    let rest = split_targets chart js in
    if ltb j chart.nproper
    then and_then rest (λ r. ok (j ∷ r.0, r.1))
    else and_then (and_then (expect (chart.block j)) exit_to)
        (λ x. and_then rest (λ r. ok (r.0, x ∷ r.1)))

unfoldable pub successors : Chart → ℕ → Outcome (List BasicBlockId × List ExternalExit)
unfolding and_then expect split_targets
successors chart n = and_then (expect (chart.succs n)) (split_targets chart)

-- `filter(|&j| j < nproper)`.
unfoldable pub keep_proper : ℕ → List ℕ → List BasicBlockId
keep_proper nproper [] = []
keep_proper nproper (j ∷ js) =
    let rest = keep_proper nproper js in if ltb j nproper then j ∷ rest else rest

unfoldable pub predecessors : Chart → ℕ → Outcome (List BasicBlockId)
unfolding and_then expect keep_proper
predecessors chart n = and_then (expect (chart.preds n)) (λ js. ok (keep_proper chart.nproper js))

-- `BasicBlockKind::try_from(raw).map_err(..)?`.
unfoldable pub kind_or_error : ℕ → ℕ → Option BasicBlockKind → Outcome BasicBlockKind
kind_or_error start raw none = unknown_block_kind start raw
kind_or_error start raw (some k) = ok k

-- The body of `extract`'s loop before `alloc`.
unfoldable pub read_block : Chart → ℕ → Outcome BasicBlock
unfolding and_then expect kind_or_error kind_try_from successors block_range predecessors
read_block chart i = and_then (expect (chart.block i)) (λ info.
    and_then (kind_or_error info.start (info.kind % 256) (kind_try_from (info.kind % 256))) (λ kind.
      and_then (successors chart i) (λ out. and_then (block_range info.start info.end) (λ range.
        and_then (predecessors chart i) (λ pred. ok (record {
          start = range.0;
          end = range.1;
          kind = kind;
          succ = out.0;
          pred = pred;
          exits = out.1;
        }))))))

-- `extract` from the block `i` on, with `k` blocks to go.
unfoldable pub extract_loop : Chart → ℕ → ℕ → List BasicBlock → Outcome (List BasicBlock)
unfolding and_then expect read_block alloc
extract_loop chart zero i blocks = ok blocks
extract_loop chart (suc k) i blocks =
    and_then (read_block chart i)
      (λ b. and_then (expect (alloc b blocks)) (λ made. extract_loop chart k (suc i) made.1))

unfoldable pub extract : Chart → Outcome (List BasicBlock)
unfolding extract_loop
extract chart = extract_loop chart chart.nproper 0 []

-- `FlowChart::block_at`, by `find_map` over the arena from the index `i` on.
abbrev pub covers : BasicBlock → Address → Bool
covers b a = leb (get b.start) (get a) && ltb (get a) (get b.end)

unfoldable pub block_at : ℕ → List BasicBlock → Address → Option BasicBlockId
block_at i [] a = none
block_at i (b ∷ bs) a = let later = block_at (suc i) bs a in if covers b a then some i else later

-- `BasicBlockKind::is_return` and `is_noreturn`.
unfoldable pub is_return : BasicBlockKind → Bool
is_return return = true
is_return cond_return = true
is_return _ = false

unfoldable pub is_noreturn : BasicBlockKind → Bool
is_noreturn no_return = true
is_noreturn _ = false
