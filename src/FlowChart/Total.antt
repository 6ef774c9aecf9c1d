-- ===== src/FlowChart/Total.antt =====
-- crates/idakit/src/flowchart.rs: charts on which extraction does not fail.
use idakit.Base.{ℕ, ◌≤◌, some, List, ◌≡◌, ◌%◌, All}
use idakit.Address.{Address, try_new}
use idakit.FlowChart.{BasicBlockKind, BlockInfo, Chart, Outcome, ok, kind_try_from}

-- `Address::try_new` accepts the value.
abbrev pub IsRaw : ℕ → Type 0
IsRaw raw = (a : Address) × (try_new raw ≡ some a)

-- A target of an edge is a block of the function, or a stub that starts at an address.
abbrev pub IsTarget : Chart → ℕ → Type 0
IsTarget chart j =
    chart.nproper ≤ j → (info : BlockInfo) × (chart.block j ≡ some info) × IsRaw info.start

-- What the kernel gives of a proper block.
pub record IsReadable (chart : Chart) (i : ℕ) : Type 0 where
  pub info : BlockInfo
  pub info_read : chart.block i ≡ some info
  pub start_raw : IsRaw info.start
  pub end_raw : IsRaw info.end
  pub kind : BasicBlockKind
  pub kind_read : kind_try_from (info.kind % 256) ≡ some kind
  pub targets : List ℕ
  pub targets_read : chart.succs i ≡ some targets
  pub each_target : All (IsTarget chart) targets
  pub sources : List ℕ
  pub sources_read : chart.preds i ≡ some sources

-- The outcome is a value: neither an error nor a panic.
pub data IsOk {A : Type 0} : Outcome A → Type 0 where
  is_ok : (a : A) → IsOk (ok a)
