-- ===== src/FlowChart/Extract.antt =====
-- crates/idakit/src/flowchart.rs: what `extract` makes of a chart.
use idakit.Base.{
  ℕ, ◌<◌, ◌≤◌, ◌%◌, ==_iff, ◌↔◌, Bool, true, false, Option, none, some, List, [], ◌∷◌, ◌≡◌, refl,
  subst, arith, if◌then◌else◌, ltb,
}
use idakit.Address.{Address, try_new}
use idakit.FlowChart.{
  BasicBlockKind, normal, indirect_jump, return, cond_return, no_return, error, kind_try_from,
  BasicBlock, BlockInfo, Chart, Outcome, ok, panic, unknown_block_kind, and_then, expect,
  block_range, exit_to, split_targets, successors, keep_proper, predecessors, kind_or_error,
  read_block, ExternalExit,
}

-- A result that is a value came from a value.
pub and_then-ok :
    {A B : Type 0} (o : Outcome A) (f : A → Outcome B) {b : B}
    → and_then o f ≡ ok b
    → (a : A) × (o ≡ ok a) × (f a ≡ ok b)
unfolding and_then
and_then-ok (ok a) f h = (a, refl, h)
and_then-ok (unknown_block_kind s r) f h = cc
and_then-ok panic f h = cc

pub ok-eq : {A : Type 0} {a b : A} → ok a ≡ ok b → a ≡ b
ok-eq h = cc

pub expect-ok : {A : Type 0} (o : Option A) {a : A} → expect o ≡ ok a → o ≡ some a
unfolding expect
expect-ok none h = cc
expect-ok (some x) h = cc h

-- The byte that the kernel has for each kind of a proper block.
abbrev pub IsKindByte : ℕ → BasicBlockKind → Type 0
IsKindByte byte normal = byte ≡ 0
IsKindByte byte indirect_jump = byte ≡ 1
IsKindByte byte return = byte ≡ 2
IsKindByte byte cond_return = byte ≡ 3
IsKindByte byte no_return = byte ≡ 4
IsKindByte byte error = byte ≡ 7

-- The exit is what the kernel says of a stub: its address, and whether its kind is the fifth, that
-- of a stub which never returns.
pub record IsExit (info : BlockInfo) (x : ExternalExit) : Type 0 where
  pub target_read : try_new info.start ≡ some x.target
  pub noreturn_iff : (x.noreturn ≡ true) ↔ (info.kind % 256 ≡ 5)

-- The targets of a block in their order: those that are blocks of the function are its successors,
-- and the others are its exits.
pub data Splits (chart : Chart) : List ℕ → List ℕ → List ExternalExit → Type 0 where
  no_targets : Splits chart [] [] []
  to_block :
      {j : ℕ} {js succ : List ℕ} {exits : List ExternalExit}
      → j < chart.nproper
      → Splits chart js succ exits
      → Splits chart (j ∷ js) (j ∷ succ) exits
  to_stub :
      {j : ℕ} {js succ : List ℕ} {x : ExternalExit} {exits : List ExternalExit} (info : BlockInfo)
      → chart.nproper ≤ j
      → chart.block j ≡ some info
      → IsExit info x
      → Splits chart js succ exits
      → Splits chart (j ∷ js) succ (x ∷ exits)

-- The sources of a block that are blocks of the function, in their order.
pub data Keeps (n : ℕ) : List ℕ → List ℕ → Type 0 where
  no_sources : Keeps n [] []
  kept : {j : ℕ} {js pred : List ℕ} → j < n → Keeps n js pred → Keeps n (j ∷ js) (j ∷ pred)
  left_out : {j : ℕ} {js pred : List ℕ} → n ≤ j → Keeps n js pred → Keeps n (j ∷ js) pred

exit_to-IsExit : (info : BlockInfo) (x : ExternalExit) → exit_to info ≡ ok x → IsExit info x
unfolding exit_to
exit_to-IsExit info x h =
    let (a, e, f) = and_then-ok (expect (try_new info.start)) _ h in
    subst (IsExit info) (ok-eq f) (record {
      target_read = expect-ok (try_new info.start) e;
      noreturn_iff = ==_iff (info.kind % 256) 5;
    })

split_targets-Splits :
    (chart : Chart) (js : List ℕ) (r : List ℕ × List ExternalExit)
    → split_targets chart js ≡ ok r
    → Splits chart js r.0 r.1
unfolding split_targets
split_targets-Splits chart [] r h =
    subst (λ (r : List ℕ × List ExternalExit). Splits chart [] r.0 r.1) (ok-eq h) no_targets
split_targets-Splits chart (j ∷ js) r h =
    go (split_targets-Splits chart js) (ltb j chart.nproper) refl h
  where
    go :
        ((r : List ℕ × List ExternalExit) → split_targets chart js ≡ ok r → Splits chart js r.0 r.1)
        → (w : Bool) → ltb j chart.nproper ≡ w
        → (if w
            then and_then (split_targets chart js) (λ r. ok (j ∷ r.0, r.1))
            else and_then
                (and_then (expect (chart.block j)) exit_to)
                (λ x. and_then (split_targets chart js) (λ r. ok (r.0, x ∷ r.1))))
          ≡ ok r
        → Splits chart (j ∷ js) r.0 r.1
    go ih true q k =
        let (a, e, f) = and_then-ok (split_targets chart js) _ k in
        let l : j < chart.nproper = ground arith in
        subst (λ (r : List ℕ × List ExternalExit). Splits chart (j ∷ js) r.0 r.1) (ok-eq f)
          (to_block l (ih a e))
    go ih false q k =
        let (x, e, f) = and_then-ok (and_then (expect (chart.block j)) exit_to) _ k in
        let (info, b, c) = and_then-ok (expect (chart.block j)) _ e in
        let (a, d, g) = and_then-ok (split_targets chart js) _ f in
        let l : chart.nproper ≤ j = ground arith in
        subst (λ (r : List ℕ × List ExternalExit). Splits chart (j ∷ js) r.0 r.1) (ok-eq g)
          (to_stub info l (expect-ok (chart.block j) b) (exit_to-IsExit info x c) (ih a d))

keep_proper-Keeps : (n : ℕ) (js : List ℕ) → Keeps n js (keep_proper n js)
unfolding keep_proper
keep_proper-Keeps n [] = no_sources
keep_proper-Keeps n (j ∷ js) = go (ltb j n) refl (keep_proper-Keeps n js)
  where
    go :
        (w : Bool)
        → ltb j n ≡ w
        → Keeps n js (keep_proper n js)
        → Keeps n (j ∷ js) (if w then j ∷ keep_proper n js else keep_proper n js)
    go true q h = kept (ground arith) h
    go false q h = left_out (ground arith) h

kind_try_from-IsKindByte :
    (byte : ℕ) (k : BasicBlockKind) → kind_try_from byte ≡ some k → IsKindByte byte k
unfolding kind_try_from
kind_try_from-IsKindByte byte k h = ground arith

-- What a block of the extracted graph is: its range and kind are those that the kernel gives, its
-- successors and exits are the kernel's targets, and its predecessors the kernel's sources that are
-- blocks of the function, each in the kernel's order.
pub record IsBlock (chart : Chart) (i : ℕ) (b : BasicBlock) : Type 0 where
  pub info : BlockInfo
  pub targets : List ℕ
  pub sources : List ℕ
  pub info_read : chart.block i ≡ some info
  pub targets_read : chart.succs i ≡ some targets
  pub sources_read : chart.preds i ≡ some sources
  pub start_read : try_new info.start ≡ some b.start
  pub end_read : try_new info.end ≡ some b.end
  pub kind_read : IsKindByte (info.kind % 256) b.kind
  pub edges_out : Splits chart targets b.succ b.exits
  pub edges_in : Keeps chart.nproper sources b.pred

kind_or_error-ok :
    (s r : ℕ) (o : Option BasicBlockKind) {k : BasicBlockKind}
    → kind_or_error s r o ≡ ok k
    → o ≡ some k
unfolding kind_or_error
kind_or_error-ok s r none h = cc
kind_or_error-ok s r (some k) h = cc h

block_range-ok :
    (s e : ℕ) (r : Address × Address)
    → block_range s e ≡ ok r
    → (try_new s ≡ some r.0) × (try_new e ≡ some r.1)
unfolding block_range
block_range-ok s e r h =
    let (a, p, k) = and_then-ok (expect (try_new s)) _ h in
    let (b, q, m) = and_then-ok (expect (try_new e)) _ k in
    subst (λ (x : Address × Address). (try_new s ≡ some x.0) × (try_new e ≡ some x.1)) (ok-eq m)
      (expect-ok (try_new s) p, expect-ok (try_new e) q)

successors-ok :
    (chart : Chart) (i : ℕ) (r : List ℕ × List ExternalExit)
    → successors chart i ≡ ok r
    → (js : List ℕ) × (chart.succs i ≡ some js) × Splits chart js r.0 r.1
unfolding successors
successors-ok chart i r h =
    let (js, p, k) = and_then-ok (expect (chart.succs i)) _ h in
    (js, expect-ok (chart.succs i) p, split_targets-Splits chart js r k)

predecessors-ok :
    (chart : Chart) (i : ℕ) (r : List ℕ)
    → predecessors chart i ≡ ok r
    → (js : List ℕ) × (chart.preds i ≡ some js) × Keeps chart.nproper js r
unfolding predecessors
predecessors-ok chart i r h =
    let (js, p, k) = and_then-ok (expect (chart.preds i)) _ h in
    (
      js,
      expect-ok (chart.preds i) p,
      subst (Keeps chart.nproper js) (ok-eq k) (keep_proper-Keeps chart.nproper js),
    )

pub read_block-IsBlock :
    (chart : Chart) (i : ℕ) (b : BasicBlock) → read_block chart i ≡ ok b → IsBlock chart i b
unfolding read_block
read_block-IsBlock chart i b h =
    let (info, p, h1) = and_then-ok (expect (chart.block i)) _ h in
    let (kind, q, h2) =
      and_then-ok (kind_or_error info.start (info.kind % 256) (kind_try_from (info.kind % 256))) _
        h1 in
    let (out, r, h3) = and_then-ok (successors chart i) _ h2 in
    let (range, s, h4) = and_then-ok (block_range info.start info.end) _ h3 in
    let (pred, t, h5) = and_then-ok (predecessors chart i) _ h4 in
    let (js, u, v) = successors-ok chart i out r in
    let (ks, x, y) = predecessors-ok chart i pred t in
    subst (IsBlock chart i) (ok-eq h5) (record {
      info = info;
      targets = js;
      sources = ks;
      info_read = expect-ok (chart.block i) p;
      targets_read = u;
      sources_read = x;
      start_read = (block_range-ok info.start info.end range s).0;
      end_read = (block_range-ok info.start info.end range s).1;
      kind_read =
          kind_try_from-IsKindByte (info.kind % 256) kind
            (kind_or_error-ok info.start (info.kind % 256) _ q);
      edges_out = v;
      edges_in = y;
    })
