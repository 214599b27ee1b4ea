-- ===== src/Analyze/Store/Bounds.antt =====
-- No series of the store outgrows the store's capacity, over every sequence of calls.
use aether_terminal.Prelude.{
  ℕ, ◌≤◌, ◌≡◌, refl, sym, ◌∙◌, subst, Bool, true, false, if◌then◌else◌, List, [], ◌∷◌, length,
  String, Option, none, some, F64, Bool-cases, inl, inr,
}
use aether_terminal.Prelude.Map.{Map, lookup, insert, lookup-insert}
use aether_terminal.Core.Models.{ProcessNode}
use aether_terminal.Core.Metrics.{
  Floats, HostId, MetricSample, TimeSeries, new, push_sample, push_all,
}
use aether_terminal.Core.Metrics.Ring.{
  room, IsBounded, push_sample-IsBounded, push_all-IsBounded, new-IsBounded,
}
use aether_terminal.Analyze.Store.{
  MetricKey, key_of, key_eqb, key_eq, MetricStore, new_store, get, entry, put_series, push_metric,
  ingest_process, ingest_processes, ingest_world_state, remote_key, ingest_remote, is_kept, retain,
  cleanup_dead_processes,
}
use aether_terminal.Analyze.Store.Lookup.{lookup-retain}

-- Every series has this capacity, the store's, and keeps to it.
pub record IsWithin (n : ℕ) (st : MetricStore) : Type 0 where
  pub whole : st.capacity ≡ n
  pub bounded : (key : MetricKey) (ts : TimeSeries) → lookup key st.series ≡ some ts → IsBounded ts
  pub sized : (key : MetricKey) (ts : TimeSeries) → lookup key st.series ≡ some ts → ts.capacity ≡ n

if-true : (b : Bool) (x y : Option TimeSeries) → b ≡ true → (if b then x else y) ≡ x
if-true b x y e = rw e refl

if-false : (b : Bool) (x y : Option TimeSeries) → b ≡ false → (if b then x else y) ≡ y
if-false b x y e = rw e refl

some-injective : {x y : TimeSeries} → some x ≡ some y → x ≡ y
some-injective q = cc q

put_series-IsWithin :
    {n : ℕ} (key : MetricKey) (ts : TimeSeries) (st : MetricStore)
    → IsWithin n st
    → IsBounded ts
    → ts.capacity ≡ n
    → IsWithin n (put_series key ts st)
unfolding put_series
put_series-IsWithin {n = n} key ts st w b c = record {
  whole = w.whole;
  bounded = λ j t e. go (λ (u : TimeSeries). IsBounded u) j t e b (λ u q. w.bounded j u q);
  sized = λ j t e. go (λ (u : TimeSeries). u.capacity ≡ n) j t e c (λ u q. w.sized j u q);
}
  where
    go :
        (P : TimeSeries → Type 0) (j : MetricKey) (t : TimeSeries)
        → lookup j (insert key ts st.series) ≡ some t
        → P ts
        → ((u : TimeSeries) → lookup j st.series ≡ some u → P u)
        → P t
    go P j t e new_one old = elim (Bool-cases (key_eqb key j)) [
      | inl b ↦
          let q = sym (lookup-insert key j ts st.series) ∙ e in
          subst P
            (some-injective (sym (if-true (key_eqb key j) (some ts) (lookup j st.series) b) ∙ q))
            new_one
      | inr b ↦
          let q = sym (lookup-insert key j ts st.series) ∙ e in
          old t (sym (if-false (key_eqb key j) (some ts) (lookup j st.series) b) ∙ q)
    ]

entry-IsBounded :
    {n : ℕ} (key : MetricKey) (name : String) (st : MetricStore)
    → IsWithin n st
    → IsBounded (entry key name st) × ((entry key name st).capacity ≡ n)
unfolding entry new
entry-IsBounded {n = n} key name st w = go (lookup key st.series) refl
  where
    go :
        (o : Option TimeSeries)
        → lookup key st.series ≡ o
        → IsBounded (entry key name st) × ((entry key name st).capacity ≡ n)
    go none e = rw (e, entry) (new-IsBounded (new name st.capacity) refl, w.whole)
    go (some ts) e = rw (e, entry) (w.bounded key ts e, w.sized key ts e)

capacity-push_all :
    (xs : List MetricSample) (ts : TimeSeries) → (push_all xs ts).capacity ≡ ts.capacity
unfolding push_all push_sample
capacity-push_all [] ts = refl
capacity-push_all (x ∷ xs) ts = capacity-push_all xs (push_sample x ts)

push_metric-IsWithin :
    {n : ℕ} (host : HostId) (pid : Option ℕ) (metric : String) (now : ℕ) (v : F64)
    (st : MetricStore)
    → IsWithin n st
    → IsWithin n (push_metric host pid metric now v st)
unfolding push_metric push_sample
push_metric-IsWithin host pid metric now v st w =
    let key = key_of host pid metric in
    let x : MetricSample = record { timestamp = now; value = v } in
    let old = entry-IsBounded key metric st w in
    put_series-IsWithin key (push_sample x (entry key metric st)) st w
      (push_sample-IsBounded x (entry key metric st) old.0) old.1

pub data StoreCall : Type 0 where
  push : HostId → Option ℕ → String → ℕ → F64 → StoreCall
  ingest : HostId → ℕ → List ProcessNode → StoreCall
  remote : List TimeSeries → StoreCall
  cleanup : HostId → List ℕ → StoreCall

module _ (f : Floats) (parse_pid : String → Option ℕ) where
  unfoldable pub call : StoreCall → MetricStore → MetricStore
  call (push host pid metric now v) st = push_metric host pid metric now v st
  call (ingest host now processes) st = ingest_world_state f host now processes st
  call (remote series) st = ingest_remote parse_pid series st
  call (cleanup host alive_pids) st = cleanup_dead_processes host alive_pids st

  unfoldable pub run : List StoreCall → MetricStore → MetricStore
  unfolding call
  run [] st = st
  run (c ∷ calls) st = run calls (call c st)

  ingest_processes-IsWithin :
      {k : ℕ} (host : HostId) (now : ℕ) (processes : List ProcessNode) (st : MetricStore)
      → IsWithin k st
      → IsWithin k (ingest_processes f host now processes st)
  unfolding ingest_processes ingest_process
  ingest_processes-IsWithin host now [] st w = w
  ingest_processes-IsWithin host now (n ∷ processes) st w =
      ingest_processes-IsWithin host now processes (ingest_process f host now n st) (
        push_metric-IsWithin host (some n.pid) "mem_bytes" now (f.of_nat n.mem_bytes)
          (push_metric host (some n.pid) "cpu_percent" now (f.of_f32 n.cpu_percent) st)
          (push_metric-IsWithin host (some n.pid) "cpu_percent" now (f.of_f32 n.cpu_percent) st w))

  ingest_remote-IsWithin :
      {n : ℕ} (series : List TimeSeries) (st : MetricStore)
      → IsWithin n st
      → IsWithin n (ingest_remote parse_pid series st)
  unfolding ingest_remote
  ingest_remote-IsWithin [] st w = w
  ingest_remote-IsWithin (ts ∷ series) st w =
      let key = remote_key parse_pid ts in
      let old = entry-IsBounded key ts.name st w in
      let grown = push_all ts.samples (entry key ts.name st) in
      ingest_remote-IsWithin series (put_series key grown st) (
        put_series-IsWithin key grown st w
          (push_all-IsBounded ts.samples (entry key ts.name st) old.0)
          (capacity-push_all ts.samples (entry key ts.name st) ∙ old.1))

  retained :
      (test : MetricKey → Bool) (m : Map MetricKey TimeSeries) (j : MetricKey) (t : TimeSeries)
      → lookup j (retain test m) ≡ some t
      → lookup j m ≡ some t
  retained test m j t e = elim (Bool-cases (test j)) [
    | inl b ↦
        let q = sym (lookup-retain test m j) ∙ e in sym (if-true (test j) (lookup j m) none b) ∙ q
    | inr b ↦
        let q = sym (lookup-retain test m j) ∙ e in
        absurd (cc (sym (if-false (test j) (lookup j m) none b) ∙ q))
  ]

  call-IsWithin :
      {n : ℕ} (c : StoreCall) (st : MetricStore) → IsWithin n st → IsWithin n (call c st)
  unfolding call ingest_world_state cleanup_dead_processes
  call-IsWithin (push host pid metric now v) st w = push_metric-IsWithin host pid metric now v st w
  call-IsWithin (ingest host now processes) st w =
      push_metric-IsWithin host none "process_count" now _ _ (
        push_metric-IsWithin host none "total_memory" now _ _ (
          push_metric-IsWithin host none "total_cpu" now _ _
            (ingest_processes-IsWithin host now processes st w)))
  call-IsWithin (remote series) st w = ingest_remote-IsWithin series st w
  call-IsWithin (cleanup host alive_pids) st w = record {
    whole = w.whole;
    bounded = λ j t e. w.bounded j t (retained (is_kept host alive_pids) st.series j t e);
    sized = λ j t e. w.sized j t (retained (is_kept host alive_pids) st.series j t e);
  }

  run-IsWithin :
      {n : ℕ} (calls : List StoreCall) (st : MetricStore)
      → IsWithin n st
      → IsWithin n (run calls st)
  unfolding run
  run-IsWithin [] st w = w
  run-IsWithin (c ∷ calls) st w = run-IsWithin calls (call c st) (call-IsWithin c st w)

  new-IsWithin : (n : ℕ) → IsWithin n (new_store n)
  unfolding new_store lookup
  new-IsWithin n = record {
    whole = refl;
    bounded = λ key ts e. absurd (cc e);
    sized = λ key ts e. absurd (cc e);
  }

  -- After every sequence of calls on a new store, each series that `get` answers has the capacity
  -- of the store and at most that many samples, or one where the capacity is zero.
  pub run-length :
      (capacity : ℕ) (calls : List StoreCall) (host : HostId) (pid : Option ℕ) (metric : String)
      (ts : TimeSeries)
      → get host pid metric (run calls (new_store capacity)) ≡ some ts
      → (ts.capacity ≡ capacity) × (length ts.samples ≤ room capacity)
  unfolding get IsBounded
  run-length capacity calls host pid metric ts e =
      let w = run-IsWithin calls (new_store capacity) (new-IsWithin capacity) in
      let c = w.sized (key_of host pid metric) ts e in
      (c, subst (λ k. length ts.samples ≤ room k) c (w.bounded (key_of host pid metric) ts e))
