-- ===== src/Analyze/Store.antt =====
-- `MetricStore` of `aether-analyze/src/store.rs`: one series for each host, process and metric.
-- The parse of a pid label, a call of the standard library, is a parameter.
pub mod Lookup
pub mod Bounds
mod Tests
use aether_terminal.Prelude.{
  ℕ, ◌+◌, ◌%◌, ◌≡◌, refl, ◌↔◌, Bool, true, false, not, ◌&&◌, if◌then◌else◌, List, [], ◌∷◌, length,
  ◌==◌, String, str_eq, str_eq_iff, Option, none, some, Eq, nat_eq, string_eq, F64, arith,
}
use aether_terminal.Prelude.Map.{Map, lookup, insert}
use aether_terminal.Core.Models.{ProcessNode}
use aether_terminal.Core.Metrics.{
  Floats, HostId, MetricSample, TimeSeries, new, push_sample, push_all,
}

pub record MetricKey : Type 0 where
  pub host : HostId
  pub pid : Option ℕ
  pub metric : String

abbrev pub pid_eqb : Option ℕ → Option ℕ → Bool
pid_eqb none none = true
pid_eqb none (some n) = false
pid_eqb (some m) none = false
pid_eqb (some m) (some n) = m == n

pub pid_eqb_iff : (o q : Option ℕ) → (pid_eqb o q ≡ true) ↔ (o ≡ q)
pid_eqb_iff none none = ground arith
pid_eqb_iff none (some n) = ground arith
pid_eqb_iff (some m) none = ground arith
pid_eqb_iff (some m) (some n) = ground arith

abbrev pub key_eqb : MetricKey → MetricKey → Bool
key_eqb a b = str_eq a.host b.host && pid_eqb a.pid b.pid && str_eq a.metric b.metric

pub key_eqb_iff : (a b : MetricKey) → (key_eqb a b ≡ true) ↔ (a ≡ b)
key_eqb_iff a b =
    ground (arith, str_eq_iff a.host b.host, pid_eqb_iff a.pid b.pid, str_eq_iff a.metric b.metric)

-- The derived `Eq`.
instance abbrev pub key_eq : Eq MetricKey
key_eq = record { eqb = key_eqb; eqb_iff = key_eqb_iff }

abbrev pub key_of : HostId → Option ℕ → String → MetricKey
key_of host pid metric = record { host = host; pid = pid; metric = metric }

pub record MetricStore : Type 0 where
  pub series : Map MetricKey TimeSeries
  pub capacity : ℕ

unfoldable pub new_store : ℕ → MetricStore
new_store capacity = record { series = []; capacity = capacity }

unfoldable pub get : HostId → Option ℕ → String → MetricStore → Option TimeSeries
get host pid metric st = lookup (key_of host pid metric) st.series

-- `entry(key).or_insert_with(|| TimeSeries::new(name, self.capacity))`.
unfoldable pub entry : MetricKey → String → MetricStore → TimeSeries
unfolding new
entry key name st = elim (lookup key st.series) [ none ↦ new name st.capacity | some ts ↦ ts ]

unfoldable pub put_series : MetricKey → TimeSeries → MetricStore → MetricStore
put_series key ts st = record st { series = insert key ts st.series }

unfoldable pub push_metric : HostId → Option ℕ → String → ℕ → F64 → MetricStore → MetricStore
unfolding entry put_series push_sample
push_metric host pid metric timestamp value st =
    put_series (key_of host pid metric)
      (push_sample (record { timestamp = timestamp; value = value })
        (entry (key_of host pid metric) metric st))
      st

-- The total is a `u64`.
unfoldable pub total_mem : ℕ → List ProcessNode → ℕ
total_mem total [] = total
total_mem total (proc ∷ processes) =
    total_mem ((total + proc.mem_bytes) % 0x10000000000000000) processes

module _ (f : Floats) where
  -- One round of the loop over the processes: the two series of a process.
  unfoldable pub ingest_process : HostId → ℕ → ProcessNode → MetricStore → MetricStore
  unfolding push_metric
  ingest_process host now proc st =
      push_metric host (some proc.pid) "mem_bytes" now (f.of_nat proc.mem_bytes)
        (push_metric host (some proc.pid) "cpu_percent" now (f.of_f32 proc.cpu_percent) st)

  unfoldable pub ingest_processes : HostId → ℕ → List ProcessNode → MetricStore → MetricStore
  unfolding ingest_process
  ingest_processes host now [] st = st
  ingest_processes host now (proc ∷ processes) st =
      ingest_processes host now processes (ingest_process host now proc st)

  unfoldable pub total_cpu : F64 → List ProcessNode → F64
  total_cpu total [] = total
  total_cpu total (proc ∷ processes) = total_cpu (f.add total (f.of_f32 proc.cpu_percent)) processes

  -- The processes of the graph are given in the order of its iterator.
  unfoldable pub ingest_world_state : HostId → ℕ → List ProcessNode → MetricStore → MetricStore
  unfolding ingest_processes total_cpu push_metric total_mem
  ingest_world_state host now processes st =
      push_metric host none "process_count" now (f.of_nat (length processes)) (
        push_metric host none "total_memory" now (f.of_nat (total_mem 0 processes)) (
          push_metric host none "total_cpu" now (total_cpu f.zero processes)
            (ingest_processes host now processes st)))

module _ (parse_pid : String → Option ℕ) where
  unfoldable pub remote_key : TimeSeries → MetricKey
  remote_key ts = record {
    host = elim (lookup "host" ts.labels) [ none ↦ "local" | some h ↦ h ];
    pid = elim (lookup "pid" ts.labels) [ none ↦ none | some p ↦ parse_pid p ];
    metric = elim (lookup "__name__" ts.labels) [ none ↦ ts.name | some m ↦ m ];
  }

  unfoldable pub ingest_remote : List TimeSeries → MetricStore → MetricStore
  unfolding remote_key entry put_series push_all
  ingest_remote [] st = st
  ingest_remote (ts ∷ series) st =
      let key = remote_key ts in
      ingest_remote series (put_series key (push_all ts.samples (entry key ts.name st)) st)

unfoldable pub is_of_process : HostId → ℕ → MetricKey → Bool
is_of_process host pid k = str_eq k.host host && pid_eqb k.pid (some pid)

unfoldable pub is_of_host : HostId → MetricKey → Bool
is_of_host host k = str_eq k.host host && pid_eqb k.pid none

-- The names and series of the keys that a test takes.
unfoldable pub metrics_where :
    (MetricKey → Bool) → Map MetricKey TimeSeries → List (String × TimeSeries)
metrics_where test [] = []
metrics_where test ((k, ts) ∷ m) =
    let rest = metrics_where test m in if test k then (k.metric, ts) ∷ rest else rest

unfoldable pub process_metrics : HostId → ℕ → MetricStore → List (String × TimeSeries)
unfolding metrics_where is_of_process
process_metrics host pid st = metrics_where (is_of_process host pid) st.series

unfoldable pub host_metrics : HostId → MetricStore → List (String × TimeSeries)
unfolding metrics_where is_of_host
host_metrics host st = metrics_where (is_of_host host) st.series

unfoldable pub elem : ℕ → List ℕ → Bool
elem n [] = false
elem n (m ∷ ms) = if n == m then true else elem n ms

-- The set of pids, in the order in which the map first shows them.
unfoldable pub pids_of : HostId → Map MetricKey TimeSeries → List ℕ
unfolding elem
pids_of host [] = []
pids_of host ((k, ts) ∷ m) =
    let rest = pids_of host m in
    elim k.pid [
      | none ↦ rest
      | some pid ↦ if str_eq k.host host && not (elem pid rest) then pid ∷ rest else rest
    ]

unfoldable pub process_pids : HostId → MetricStore → List ℕ
unfolding pids_of
process_pids host st = pids_of host st.series

-- Whether `cleanup_dead_processes` keeps a key.
unfoldable pub is_kept : HostId → List ℕ → MetricKey → Bool
unfolding elem
is_kept host alive_pids k =
    if str_eq k.host host then elim k.pid [ none ↦ true | some pid ↦ elem pid alive_pids ] else true

unfoldable pub retain : (MetricKey → Bool) → Map MetricKey TimeSeries → Map MetricKey TimeSeries
retain test [] = []
retain test ((k, ts) ∷ m) = let rest = retain test m in if test k then (k, ts) ∷ rest else rest

unfoldable pub cleanup_dead_processes : HostId → List ℕ → MetricStore → MetricStore
unfolding retain is_kept
cleanup_dead_processes host alive_pids st = record st {
  series = retain (is_kept host alive_pids) st.series;
}
