-- ===== src/Script/Reload/Runs.antt =====
-- How reloaded rules (crates/aether-script/src/hot_reload.rs) run.
use aether_terminal.Prelude.{ℕ, String, ◌≡◌, Option, [], inl, inr}
use aether_terminal.Script.Codegen.{Function}
use aether_terminal.Script.Codegen.Machine.{Machine}
use aether_terminal.Script.Runtime.{DurationTracker, evaluate_with_tracker}
use aether_terminal.Script.Runtime.Refine.{interpret, evaluate_with_tracker-interpret}
use aether_terminal.Script.Reload.{ok, HotReloader, Scanned, recompile}
use aether_terminal.Script.Reload.Laws.{Reloaded, recompile-cases}

-- After a reload that succeeds, the active rules are those of the files, read, scanned, parsed and
-- well typed, and their native code triggers on every process state what the interpreter of the
-- syntax trees triggers, with the same timers.
pub recompile-interpret :
    (read : String → Option String) (tokenize : String → Scanned)
    (verify jit : Function → Option String) (host : Option String) (m : Machine) (st : m.State)
    (clock : ℕ → ℕ × ℕ) (tracker : DurationTracker) (h : HotReloader)
    → (recompile read tokenize verify jit host h).1 ≡ ok tt
    → (r : Reloaded read tokenize verify jit host h.watch_paths
        (recompile read tokenize verify jit host h).0.rules)
      × (evaluate_with_tracker m st clock
            (recompile read tokenize verify jit host h).0.rules
            tracker
          ≡ interpret m st clock 0 r.file.rules tracker [])
recompile-interpret read tokenize verify jit host m st clock tracker h done =
    elim (recompile-cases read tokenize verify jit host h) [
      | inl (e, failed) ↦ cc
      | inr (set, r, stored) ↦ rw stored (
        r,
        evaluate_with_tracker-interpret m st verify jit host clock r.file.rules tracker
            r.is_compiled,
      )
    ]
