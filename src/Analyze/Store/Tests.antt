-- ===== src/Analyze/Store/Tests.antt =====
-- Runs of the metric store.
use aether_terminal.Prelude.{ℕ, ◌≡◌, ◌≤◌, refl, List, [], ◌∷◌, length, String, Option, none, some}
use aether_terminal.Prelude.Map.{lookup, insert}
use aether_terminal.Core.Models.{ProcessNode, running}
use aether_terminal.Core.Metrics.{TimeSeries}
use aether_terminal.Core.Metrics.Ring.{room}
use aether_terminal.Core.Metrics.Numbers.{numbers}
use aether_terminal.Core.Graph.Snapshot.{last_with, or_else}
use aether_terminal.Analyze.Store.{
  MetricStore, key_of, new_store, get, ingest_world_state, cleanup_dead_processes, process_pids,
  push_metric,
}
use aether_terminal.Analyze.Store.Lookup.{latest, cpu_sample, mem_sample, latest-ingest_world_state}
use aether_terminal.Analyze.Store.Bounds.{StoreCall, push, ingest, cleanup, run, run-length}

abbrev process : ℕ → ℕ → ProcessNode
process pid cpu = record {
  pid = pid;
  ppid = 1;
  name = "worker";
  cpu_percent = cpu;
  mem_bytes = 1024;
  state = running;
  hp = 0;
  xp = 0;
  position_3d = (0, 0, 0);
}

abbrev world : List ProcessNode
world = process 7 40 ∷ process 8 50 ∷ []

abbrev ingested : MetricStore
ingested = ingest_world_state numbers "local" 100 world (new_store 2)

latest-ingest_world_state_example :
    (latest (key_of "local" (some 8) "cpu_percent") ingested
      ≡ or_else
          (cpu_sample numbers 100 (last_with 8 world))
          (latest (key_of "local" (some 8) "cpu_percent") (new_store 2)))
    × (latest (key_of "local" (some 8) "mem_bytes") ingested
        ≡ or_else
            (mem_sample numbers 100 (last_with 8 world))
            (latest (key_of "local" (some 8) "mem_bytes") (new_store 2)))
latest-ingest_world_state_example =
    latest-ingest_world_state numbers "local" 100 world (new_store 2) 8

pids_after : process_pids "local" (cleanup_dead_processes "local" (8 ∷ []) ingested) ≡ 8 ∷ []
unfolding process_pids cleanup_dead_processes ingest_world_state new_store insert
pids_after = refl

abbrev no_pid : String → Option ℕ
no_pid text = none

abbrev calls : List StoreCall
calls =
    push "local" none "load" 1 5
    ∷ push "local" none "load" 2 6
    ∷ ingest "local" 3 world
    ∷ push "local" none "load" 4 7
    ∷ cleanup "local" []
    ∷ []

abbrev load : TimeSeries
load = record {
  name = "load";
  labels = [];
  samples = record { timestamp = 2; value = 6 } ∷ record { timestamp = 4; value = 7 } ∷ [];
  capacity = 2;
}

load_after : get "local" none "load" (run numbers no_pid calls (new_store 2)) ≡ some load
unfolding run get lookup cleanup_dead_processes push_metric insert ingest_world_state new_store
load_after = refl

run-length_example : (load.capacity ≡ 2) × (length load.samples ≤ room 2)
run-length_example = run-length numbers no_pid 2 calls "local" none "load" load load_after
