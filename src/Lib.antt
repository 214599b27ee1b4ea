-- ===== src/Lib.antt =====
-- Aether Terminal: the rule language, the process graph, the metric store with its diagnostic rules,
-- the approval queue, the kernel events, the keys of the terminal interface, the progress of the
-- user, the sliding windows of the prediction and the correlation of diagnostics.
--
-- The program watches processes. Rules in a small language (crates/aether-script) say when a
-- process calls for an action: their text becomes tokens, a parser makes syntax trees of them, a
-- type checker looks at the comparisons, a code generator emits native code through Cranelift, and
-- an evaluation loop runs that code on the state of a process and keeps the timers of rules with a
-- `for` duration. Agents ask for actions through a queue that a person approves or denies
-- (crates/aether-core). Points and achievements follow what the user does
-- (crates/aether-gamification). Kernel events arrive as bytes in ring buffers (crates/aether-ebpf).
-- Each snapshot of the system is put into the graph of processes and connections
-- (crates/aether-core), whose processes give the metric store its samples; diagnostic rules with
-- timers are evaluated on the store (crates/aether-analyze). The keys of the user go through a
-- handler with modes (crates/aether-render). The prediction keeps the latest samples of each process
-- (crates/aether-predict), and the analysis groups diagnostics that belong together
-- (crates/aether-analyze).
--
-- Files, and the code that they model:
--   Script/Token           crates/aether-script/src/lexer.rs: the tokens
--   Script/Ast             crates/aether-script/src/ast.rs
--   Script/Types           crates/aether-script/src/types.rs: `check` and what it calls
--   Script/Parser          crates/aether-script/src/parser.rs: a method of `Parser` is an action of
--                          the monad in Script/Parser/Monad, with the method's name
--   Script/Codegen         crates/aether-script/src/codegen.rs: `generate_rule` and what it calls;
--                          Script/Codegen/Machine has the call of a compiled rule,
--                          Script/Codegen/Layout the struct that rules read
--   Script/Runtime         crates/aether-script/src/runtime.rs: `check_duration`, `compile`,
--                          `evaluate`, `evaluate_with_tracker`
--   Script/Reload          crates/aether-script/src/hot_reload.rs: `recompile`, `parse_rules`
--   Script/Engine          crates/aether-script/src/engine.rs: `evaluate_snapshot`, `collect_actions`
--   Core/Arbiter           crates/aether-core/src/arbiter.rs: `ArbiterQueue`
--   Core/Graph             crates/aether-core/src/graph.rs: `WorldGraph`; Core/Petgraph has the laws
--                          of `petgraph::StableGraph`, Core/Models the types of models.rs
--   Core/Metrics           crates/aether-core/src/metrics.rs: `TimeSeries`
--   Analyze/Store          crates/aether-analyze/src/store.rs: `MetricStore`
--   Analyze/Rules          crates/aether-analyze/src/rules: `RuleEngine` and `eval_condition`;
--                          Analyze/Trend has `slope` of analyzers/trend.rs
--   Game/Xp                crates/aether-gamification/src/xp.rs: `Rank`, `XpTracker`
--   Game/Achievements      crates/aether-gamification/src/achievements.rs: `AchievementTracker`
--   Predict/Window         crates/aether-predict/src/window.rs: `SlidingWindow`
--   Analyze/Correlator     crates/aether-analyze/src/analyzers/correlator.rs: `correlate`
--   Tui/Input              crates/aether-render/src/tui/input.rs: `InputHandler::handle_key`
--   Ebpf/Events            crates/aether-ebpf/src/events.rs: `parse_event`, `comm_to_string`;
--                          Ebpf/Bytes has the layout of `#[repr(C)]`
--   Ebpf/RingBuffer        crates/aether-ebpf/src/ring_buffer.rs: `RingBufferReader::poll`
-- The modules below a component hold its proofs, and the modules named Tests concrete runs.
--
-- How the code is rendered. A method that changes its object takes the object and returns it. A
-- `Result` is a sum, and an error message is a constructor with what the source formats into the
-- text. A panic is a value of its own: `panicked` in the parser for an index out of bounds and for
-- `unreachable!()`, in the queue for `Vec::remove` out of bounds, and `none` in the process graph
-- for an index that is not in use. A `HashMap` is an association list. An `f64` is its 64-bit
-- pattern. A `u32` sum of points is taken modulo 2 ^ 32, as in a release build, and the `u64` sum
-- of memory modulo 2 ^ 64; the other counters and positions stay far below their width and are
-- natural numbers.
--
-- Parameters, for what is not in the repository: the meaning of Cranelift's instructions (the
-- record Machine, with laws for truth values, selections and constants), its verifier, its JIT and
-- whether it supports the host;
-- the contents of the rule files and the generated scanner; the readings of the clock; UUIDs;
-- whether the engine's channel takes an action; petgraph (the record StableGraph of its
-- operations, with its documented laws); the arithmetic of `f64` (the record Floats) and the parse
-- of a pid; from_utf8_lossy; which ring `tokio::select!` finds readable; the place of the state
-- record in memory; the `f32` of the uptime (the record Uptime) and the test on the `f32` hours.
--
-- Bounds. Each loop of the parser, and the recursion of `parse_not`, has as many rounds as tokens
-- are left and one more, and each round consumes a token. The loop of `tick` has rounds given by
-- its caller; one more than the minutes that the accumulated uptime holds are enough. An `f32` so
-- large that taking off 60 leaves it the same holds a minute for ever, and no number is enough.
--
-- Not modelled: the scanner, which `logos` generates from attributes; the depth of the native stack
-- in `parse_not`; texts of messages; the watching of rule files, the loop that waits for
-- snapshots, the merge of diagnostics over time, the collectors, the servers, the
-- outputs and the rendering.
pub mod Prelude
pub mod Script
pub mod Core
pub mod Game
pub mod Predict
pub mod Analyze
pub mod Ebpf
pub mod Tui
