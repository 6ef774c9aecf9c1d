-- ===== src/Lib.antt =====
-- A verification library for idakit, the Rust bindings of the IDA kernel, and for its test runner.
--
-- The program's parts, and the files that model them:
--
-- * crates/idakit-runner/src/runner.rs hands test cases to worker processes. `Scheduler` is in
--   Runner/Scheduler, with `take`, `best_index`, `leave` and `drain` under their own names. The
--   threads of `Runner::run` (`serve`, `run_case`, `drain_as_failed`) are the steps of
--   Runner/Pool: a step is what a thread does under one lock, so a run is any interleaving.
--   Spawning a process and what a worker sends are choices of a step.
-- * crates/idakit-runner/src/protocol.rs is the line protocol between the two, in Runner/Protocol:
--   `write_request` and `write_event` are the two `write_to`, `read_request` and `read_line` read
--   them. A stream is the list of the bytes left; the UTF-8 check is a parameter.
-- * crates/idakit/src/arena.rs is the append-only arena, in Arena; types/mod.rs interns types in it,
--   in Types/Table: `intern`, `alloc_placeholder`, `fill` and `get_type`.
-- * crates/idakit/src/types/builder.rs fills the table from the callbacks of a walk, in Types/Builder,
--   and types/sink.rs marshals their arguments, in Types/Sink.
-- * crates/idakit/src/types/diff/canonical/model.rs has the table-free form of a type, in
--   Canonical, and the walk from a table to it, `canonicalize`, in Types/Walk; engine.rs compares two
--   of them: Diff/Change has the changes, Diff/Pairing the passes that pair the members, and
--   Diff/Engine `diff` and what it calls.
-- * crates/idakit/src/types/diff/catalog.rs compares whole databases by name, in Diff/Catalog. The
--   128-bit key of a type is a parameter there.
-- * crates/idakit/src/flowchart.rs copies the kernel's flow chart into an arena, in FlowChart. What
--   the kernel's accessors return is a parameter.
-- * crates/idakit/src/types/expr.rs is the recipe of a type to write, in Expr: the builders and
--   `TypeExpr` there, its projections and rendering in Expr/Shape, `from` on a text in Expr/Names
--   and Expr/Identifiers,
--   `check` and `serialize` in Expr/Wire. Expr/Recipe is `build_recipe` of
--   crates/idakit-sys/facade/type_write_common.cpp, the stack machine that reads the bytes; the
--   kernel's type constructors are a parameter there. Expr/Lower says what a recipe means.
-- * crates/idakit/src/decompiler/ctree/node.rs has the nodes of a decompiled function's tree, in
--   Ctree; tree.rs navigates and builds it, in Ctree/Tree and Ctree/Build; extract.rs builds it
--   from the callbacks of the facade's walk, in Ctree/Extract and Ctree/Extract/Calls; render.rs
--   prints it, in Ctree/Render. The two arenas of a tree are the record `Nodes` there. A child list
--   is in the order of the calls of `for_each_child`.
-- * crates/idakit/src/address.rs is in Address, and decompiler/ctree/ops.rs in Ops.
--
-- Base has what they share: text as bytes, decimal numbers, lists over the native numbers. Each
-- part's laws stand in its child modules, and its runs on concrete inputs in Tests, Ctree/Tests,
-- Ctree/Render/Tests, Diff/Tests, Expr/Tests, Runner/Tests, Types/Tests and Types/Builder/Tests.
--
-- Numbers are unbounded, and where the source's width matters it is written out: addresses have 64
-- bits, an arena 2 ^ 32 entries, a number on the wire 64 bits. Panics are `none` or a constructor
-- of their own. Loops are recursion on the list or on the number of rounds left. `canonicalize` and
-- `build_recipe` have fuel: Types/Walk/Fuel says how much is enough for the one, and the length of
-- the buffer is for the other, since each round reads a byte. The printer of Ctree/Render has the
-- number of nodes as fuel, and for a type the number of types; Ctree/Render/Types and Ctree/Render/Total are about it.
-- Derived equality of types is a decision. A hash map is an association list, whose order no result
-- depends on.
--
-- Not modelled: the kernel and the foreign calls to it, process and pipe I/O, text rendering other than
-- of recipes and of trees, the generated bindings, and the views that pass a kernel call through.
pub mod Address
pub mod Arena
pub mod Base
pub mod Canonical
pub mod Ctree
pub mod Diff
pub mod Expr
pub mod FlowChart
pub mod Ops
pub mod Runner
pub mod Tests
pub mod Types
