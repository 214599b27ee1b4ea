-- ===== src/Analyze/Store/Lookup.antt =====
-- What the store answers after its calls.
use aether_terminal.Prelude.{
  ℕ, ◌≡◌, refl, sym, ap, ◌∙◌, Bool, true, false, if◌then◌else◌, List, [], ◌∷◌, length, ◌==◌, String,
  str_eq_iff, Option, none, some, F64, arith, Bool-cases, inl, inr, ◌⊎◌,
}
use aether_terminal.Prelude.Map.{Map, lookup, lookup-insert}
use aether_terminal.Core.Models.{ProcessNode}
use aether_terminal.Core.Metrics.{Floats, HostId, MetricSample, TimeSeries, last, push_sample}
use aether_terminal.Core.Metrics.Ring.{last-push_sample}
use aether_terminal.Core.Graph.Snapshot.{last_with, or_else}
use aether_terminal.Analyze.Store.{
  MetricKey, key_of, key_eqb, key_eqb_iff, key_eq, MetricStore, get, entry, put_series, push_metric,
  ingest_process, ingest_processes, ingest_world_state, is_kept, retain, cleanup_dead_processes,
  total_cpu, total_mem,
}

abbrev pub last_of : Option TimeSeries → Option MetricSample
last_of none = none
last_of (some ts) = last ts

-- The latest sample of a series.
unfoldable pub latest : MetricKey → MetricStore → Option MetricSample
latest key st = last_of (lookup key st.series)

abbrev pub sample : ℕ → F64 → MetricSample
sample timestamp value = record { timestamp = timestamp; value = value }

latest-push_metric :
    (host : HostId) (pid : Option ℕ) (metric : String) (now : ℕ) (v : F64) (st : MetricStore)
    (j : MetricKey)
    → latest j (push_metric host pid metric now v st)
      ≡ (if key_eqb (key_of host pid metric) j then some (sample now v) else latest j st)
unfolding latest push_metric put_series
latest-push_metric host pid metric now v st j =
    let key = key_of host pid metric in
    let ts = push_sample (sample now v) (entry key metric st) in
    let l = lookup-insert key j ts st.series in
    ap last_of l ∙ go (key_eqb key j) (last-push_sample (sample now v) (entry key metric st))
  where
    go :
        (b : Bool)
        → last (push_sample (sample now v) (entry (key_of host pid metric) metric st))
          ≡ some (sample now v)
        → last_of (
            if b
            then some (push_sample (sample now v) (entry (key_of host pid metric) metric st))
            else lookup j st.series)
          ≡ (if b then some (sample now v) else last_of (lookup j st.series))
    go true e = e
    go false e = refl

module _ (f : Floats) where
  -- The sample that a process leaves under a metric.
  unfoldable pub cpu_sample : ℕ → Option ProcessNode → Option MetricSample
  cpu_sample now none = none
  cpu_sample now (some n) = some (sample now (f.of_f32 n.cpu_percent))

  unfoldable pub mem_sample : ℕ → Option ProcessNode → Option MetricSample
  mem_sample now none = none
  mem_sample now (some n) = some (sample now (f.of_nat n.mem_bytes))

  latest_cpu-ingest_process :
      (host : HostId) (now : ℕ) (n : ProcessNode) (st : MetricStore) (pid : ℕ)
      → latest (key_of host (some pid) "cpu_percent") (ingest_process f host now n st) ≡ (
          if n.pid == pid
          then some (sample now (f.of_f32 n.cpu_percent))
          else latest (key_of host (some pid) "cpu_percent") st)
  unfolding ingest_process
  latest_cpu-ingest_process host now n st pid =
      let j = key_of host (some pid) "cpu_percent" in
      let a =
        latest-push_metric host (some n.pid) "cpu_percent" now (f.of_f32 n.cpu_percent) st j in
      let b =
        latest-push_metric host (some n.pid) "mem_bytes" now (f.of_nat n.mem_bytes)
          (push_metric host (some n.pid) "cpu_percent" now (f.of_f32 n.cpu_percent) st) j in
      b ∙ ground (arith, a, str_eq_iff host host)

  latest_mem-ingest_process :
      (host : HostId) (now : ℕ) (n : ProcessNode) (st : MetricStore) (pid : ℕ)
      → latest (key_of host (some pid) "mem_bytes") (ingest_process f host now n st) ≡ (
          if n.pid == pid
          then some (sample now (f.of_nat n.mem_bytes))
          else latest (key_of host (some pid) "mem_bytes") st)
  unfolding ingest_process
  latest_mem-ingest_process host now n st pid =
      let j = key_of host (some pid) "mem_bytes" in
      let a =
        latest-push_metric host (some n.pid) "cpu_percent" now (f.of_f32 n.cpu_percent) st j in
      let b =
        latest-push_metric host (some n.pid) "mem_bytes" now (f.of_nat n.mem_bytes)
          (push_metric host (some n.pid) "cpu_percent" now (f.of_f32 n.cpu_percent) st) j in
      b ∙ ground (arith, a, str_eq_iff host host)

  cpu_sample-or_else :
      (now : ℕ) (o : Option ProcessNode) (n : ProcessNode) (b : Bool) (old : Option MetricSample)
      → or_else (cpu_sample now o) (if b then some (sample now (f.of_f32 n.cpu_percent)) else old)
        ≡ or_else (cpu_sample now (or_else o (if b then some n else none))) old
  unfolding cpu_sample
  cpu_sample-or_else now none n true old = refl
  cpu_sample-or_else now none n false old = refl
  cpu_sample-or_else now (some m) n b old = refl

  mem_sample-or_else :
      (now : ℕ) (o : Option ProcessNode) (n : ProcessNode) (b : Bool) (old : Option MetricSample)
      → or_else (mem_sample now o) (if b then some (sample now (f.of_nat n.mem_bytes)) else old)
        ≡ or_else (mem_sample now (or_else o (if b then some n else none))) old
  unfolding mem_sample
  mem_sample-or_else now none n true old = refl
  mem_sample-or_else now none n false old = refl
  mem_sample-or_else now (some m) n b old = refl

  latest_cpu-ingest_processes :
      (host : HostId) (now : ℕ) (processes : List ProcessNode) (st : MetricStore) (pid : ℕ)
      → latest (key_of host (some pid) "cpu_percent") (ingest_processes f host now processes st)
        ≡ or_else
            (cpu_sample now (last_with pid processes))
            (latest (key_of host (some pid) "cpu_percent") st)
  unfolding ingest_processes last_with cpu_sample
  latest_cpu-ingest_processes host now [] st pid = refl
  latest_cpu-ingest_processes host now (n ∷ processes) st pid =
      latest_cpu-ingest_processes host now processes (ingest_process f host now n st) pid
      ∙ ap (or_else (cpu_sample now (last_with pid processes)))
          (latest_cpu-ingest_process host now n st pid)
      ∙ cpu_sample-or_else now (last_with pid processes) n (n.pid == pid)
          (latest (key_of host (some pid) "cpu_percent") st)

  latest_mem-ingest_processes :
      (host : HostId) (now : ℕ) (processes : List ProcessNode) (st : MetricStore) (pid : ℕ)
      → latest (key_of host (some pid) "mem_bytes") (ingest_processes f host now processes st)
        ≡ or_else
            (mem_sample now (last_with pid processes))
            (latest (key_of host (some pid) "mem_bytes") st)
  unfolding ingest_processes last_with mem_sample
  latest_mem-ingest_processes host now [] st pid = refl
  latest_mem-ingest_processes host now (n ∷ processes) st pid =
      latest_mem-ingest_processes host now processes (ingest_process f host now n st) pid
      ∙ ap (or_else (mem_sample now (last_with pid processes)))
          (latest_mem-ingest_process host now n st pid)
      ∙ mem_sample-or_else now (last_with pid processes) n (n.pid == pid)
          (latest (key_of host (some pid) "mem_bytes") st)

  -- The series of the host are not those of a process.
  latest-push_host :
      (host : HostId) (name : String) (now : ℕ) (v : F64) (st : MetricStore) (pid : ℕ)
      (metric : String)
      → latest (key_of host (some pid) metric) (push_metric host none name now v st)
        ≡ latest (key_of host (some pid) metric) st
  latest-push_host host name now v st pid metric =
      latest-push_metric host none name now v st (key_of host (some pid) metric) ∙ ground arith

  -- After the ingestion of the processes of the world, the latest sample of the two series of a
  -- pid is that of the last process with this pid, taken now; a pid without a process keeps the
  -- samples that it had.
  pub latest-ingest_world_state :
      (host : HostId) (now : ℕ) (processes : List ProcessNode) (st : MetricStore) (pid : ℕ)
      → (latest (key_of host (some pid) "cpu_percent") (ingest_world_state f host now processes st)
          ≡ or_else
              (cpu_sample now (last_with pid processes))
              (latest (key_of host (some pid) "cpu_percent") st))
        × (latest (key_of host (some pid) "mem_bytes") (ingest_world_state f host now processes st)
            ≡ or_else
                (mem_sample now (last_with pid processes))
                (latest (key_of host (some pid) "mem_bytes") st))
  unfolding ingest_world_state
  latest-ingest_world_state host now processes st pid =
      let one = ingest_processes f host now processes st in
      let two = push_metric host none "total_cpu" now (total_cpu f f.zero processes) one in
      let three = push_metric host none "total_memory" now (f.of_nat (total_mem 0 processes)) two in
      let same = λ (metric : String).
        latest-push_host host "process_count" now (f.of_nat (length processes)) three pid metric
        ∙ latest-push_host host "total_memory" now (f.of_nat (total_mem 0 processes)) two pid metric
        ∙ latest-push_host host "total_cpu" now (total_cpu f f.zero processes) one pid metric in
      (
        same "cpu_percent" ∙ latest_cpu-ingest_processes host now processes st pid,
        same "mem_bytes" ∙ latest_mem-ingest_processes host now processes st pid,
      )

pub lookup-retain :
    (test : MetricKey → Bool) (m : Map MetricKey TimeSeries) (j : MetricKey)
    → lookup j (retain test m) ≡ (if test j then lookup j m else none)
unfolding retain lookup
lookup-retain test [] j = ground arith
lookup-retain test ((k, ts) ∷ m) j =
    go (lookup-retain test m j) (Bool-cases (test k)) (Bool-cases (key_eqb k j))
  where
    go :
        lookup j (retain test m) ≡ (if test j then lookup j m else none)
        → (test k ≡ true) ⊎ (test k ≡ false)
        → (key_eqb k j ≡ true) ⊎ (key_eqb k j ≡ false)
        → lookup j (retain test ((k, ts) ∷ m)) ≡ (if test j then lookup j ((k, ts) ∷ m) else none)
    go ih (inl t) (inl e) = rw (t, e) (rw (sym (ap test ((key_eqb_iff k j).0 e)) ∙ t) refl)
    go ih (inl t) (inr e) = rw (t, e) ih
    go ih (inr t) (inl e) = rw t (ih ∙ (rw (sym (ap test ((key_eqb_iff k j).0 e)) ∙ t) refl))
    go ih (inr t) (inr e) = rw (t, e) ih

-- `cleanup_dead_processes` keeps every series of another host and of the host itself, and those of
-- the pids that are alive, unchanged, and removes the others.
pub get-cleanup_dead_processes :
    (host h : HostId) (alive_pids : List ℕ) (pid : Option ℕ) (metric : String) (st : MetricStore)
    → get h pid metric (cleanup_dead_processes host alive_pids st)
      ≡ (if is_kept host alive_pids (key_of h pid metric) then get h pid metric st else none)
unfolding get cleanup_dead_processes
get-cleanup_dead_processes host h alive_pids pid metric st =
    lookup-retain (is_kept host alive_pids) st.series (key_of h pid metric)
