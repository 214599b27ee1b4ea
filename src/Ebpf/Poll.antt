-- ===== src/Ebpf/Poll.antt =====
-- What one poll of the two rings returns.
use aether_terminal.Prelude.{
  ℕ, ◌≤◌, ◌<◌, ◌≡◌, refl, ap, ◌∙◌, List, [], ◌∷◌, ◌++◌, length, some, none, arith, All,
}
use aether_terminal.Ebpf.Bytes.{write_le, write_i32, size_of, align_up, end_of, widest}
use aether_terminal.Ebpf.Events.{
  ProcessForkEvent, ProcessExitEvent, fork, exit, read_fork, read_exit, Result, ok, RawKernelEvent,
}
use aether_terminal.Ebpf.RingBuffer.{
  RingBufferReader, parse_fork, parse_exit, drain_fork, drain_exit, push_event, fork_ready,
  exit_ready, poll,
}
use aether_terminal.Ebpf.Encode.{fork_bytes, exit_bytes, IsForkInRange, IsExitInRange}
use aether_terminal.Ebpf.RoundTrip.{read_fork-fork_bytes, read_exit-exit_bytes}

parse_fork_long : (bytes : List ℕ) → 16 ≤ length bytes → parse_fork bytes ≡ some (read_fork bytes)
unfolding parse_fork size_of align_up end_of widest
parse_fork_long bytes h = ground arith

parse_exit_long : (bytes : List ℕ) → 16 ≤ length bytes → parse_exit bytes ≡ some (read_exit bytes)
unfolding parse_exit size_of align_up end_of widest
parse_exit_long bytes h = ground arith

parse_fork-fork_bytes :
    (e : ProcessForkEvent) (pad : List ℕ)
    → IsForkInRange e
    → parse_fork (fork_bytes e ++ pad) ≡ some e
unfolding fork_bytes write_le
parse_fork-fork_bytes e pad h =
    parse_fork_long (fork_bytes e ++ pad) (omega arith) ∙ ap some (read_fork-fork_bytes e pad h)

parse_exit-exit_bytes :
    (e : ProcessExitEvent) (pad : List ℕ)
    → IsExitInRange e
    → parse_exit (exit_bytes e ++ pad) ≡ some e
unfolding exit_bytes write_le write_i32
parse_exit-exit_bytes e pad h =
    parse_exit_long (exit_bytes e ++ pad) (omega arith) ∙ ap some (read_exit-exit_bytes e pad h)

-- A truncated item is skipped.
parse_fork_short : (bytes : List ℕ) → length bytes < 16 → parse_fork bytes ≡ none
unfolding parse_fork size_of align_up end_of widest
parse_fork_short bytes h = ground arith

parse_exit_short : (bytes : List ℕ) → length bytes < 16 → parse_exit bytes ≡ none
unfolding parse_exit size_of align_up end_of widest
parse_exit_short bytes h = ground arith

-- What waits in a ring: an event with the bytes that follow it, or fewer bytes than an event has.
pub data Item (E : Type 0) : Type 0 where
  whole : E → List ℕ → Item E
  truncated : List ℕ → Item E

module _ {E : Type 0} where
  unfoldable pub ring_of : (E → List ℕ) → List (Item E) → List (List ℕ)
  ring_of bytes [] = []
  ring_of bytes (whole e pad ∷ items) = (bytes e ++ pad) ∷ ring_of bytes items
  ring_of bytes (truncated short ∷ items) = short ∷ ring_of bytes items

  unfoldable pub events_in : (E → RawKernelEvent) → List (Item E) → List RawKernelEvent
  events_in tag [] = []
  events_in tag (whole e pad ∷ items) = tag e ∷ events_in tag items
  events_in tag (truncated short ∷ items) = events_in tag items

  unfoldable pub IsItem : (E → Type 0) → Item E → Type 0
  IsItem P (whole e pad) = P e
  IsItem P (truncated short) = length short < 16

-- The loop empties the ring and returns the whole events in their order.
drain_fork-ring_of :
    (items : List (Item ProcessForkEvent))
    → All (IsItem IsForkInRange) items
    → drain_fork (ring_of fork_bytes items) ≡ (events_in fork items, [])
unfolding push_event drain_fork ring_of events_in IsItem
drain_fork-ring_of [] hs = refl
drain_fork-ring_of (whole e pad ∷ items) (h, hs) =
    rw (parse_fork-fork_bytes e pad h, drain_fork-ring_of items hs) refl
drain_fork-ring_of (truncated short ∷ items) (h, hs) =
    rw (parse_fork_short short h, drain_fork-ring_of items hs) refl

drain_exit-ring_of :
    (items : List (Item ProcessExitEvent))
    → All (IsItem IsExitInRange) items
    → drain_exit (ring_of exit_bytes items) ≡ (events_in exit items, [])
unfolding push_event drain_exit ring_of events_in IsItem
drain_exit-ring_of [] hs = refl
drain_exit-ring_of (whole e pad ∷ items) (h, hs) =
    rw (parse_exit-exit_bytes e pad h, drain_exit-ring_of items hs) refl
drain_exit-ring_of (truncated short ∷ items) (h, hs) =
    rw (parse_exit_short short h, drain_exit-ring_of items hs) refl

unfoldable pub reader_of :
    List (Item ProcessForkEvent) → List (Item ProcessExitEvent) → RingBufferReader
reader_of forks exits = record {
  fork_buf = ring_of fork_bytes forks;
  exit_buf = ring_of exit_bytes exits;
}

unfoldable pub events_of :
    List (Item ProcessForkEvent)
    → List (Item ProcessExitEvent)
    → Result (List RawKernelEvent) × RingBufferReader
events_of forks exits =
    (ok (events_in fork forks ++ events_in exit exits), record { fork_buf = []; exit_buf = [] })

-- Whichever of the two rings became readable, a poll empties both and returns every whole fork
-- event, then every whole exit event, each in the order of its ring, when the rings hold events
-- whose fields are in range and items shorter than an event. The short items are skipped, so rings
-- that hold only such items give an empty list and no error; bytes after a whole event are ignored.
pub poll-ring_of :
    (forks : List (Item ProcessForkEvent)) (exits : List (Item ProcessExitEvent))
    → All (IsItem IsForkInRange) forks
    → All (IsItem IsExitInRange) exits
    → (poll fork_ready (reader_of forks exits) ≡ events_of forks exits)
      × (poll exit_ready (reader_of forks exits) ≡ events_of forks exits)
unfolding poll reader_of events_of
poll-ring_of forks exits hf he = (
  rw (drain_fork-ring_of forks hf, drain_exit-ring_of exits he) refl,
  rw (drain_fork-ring_of forks hf, drain_exit-ring_of exits he) refl,
)
