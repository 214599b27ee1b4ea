-- ===== src/Ebpf/Tests.antt =====
-- Runs of the event parser and of a poll on concrete bytes.
use aether_terminal.Prelude.{ℕ, ◌≤◌, length, ◌≡◌, refl, List, [], ◌∷◌, ◌++◌, negsuc, arith, some}
use aether_terminal.Ebpf.Bytes.{read_le, IsI32, IsBytes, size_of}
use aether_terminal.Ebpf.Events.{
  read_fork, ProcessForkEvent, ProcessExitEvent, fork, exit, ok, parse_event, parse_error,
  expected_at_least, tcp_connect_widths, tcp_close_widths,
}
use aether_terminal.Ebpf.RingBuffer.{
  fork_ready, exit_ready, poll, drain_fork, drain_exit, parse_fork,
}
use aether_terminal.Ebpf.Encode.{
  bytes_of, bytes_taken, event_type_of, event_size, failure, failure_of, IsInRange, IsForkInRange,
  IsExitInRange,
}
use aether_terminal.Ebpf.RoundTrip.{parse_event-bytes_of}
use aether_terminal.Ebpf.Outcome.{parse_event-IsInRange, failure-parse_event}
use aether_terminal.Ebpf.Poll.{
  Item, whole, truncated, IsItem, reader_of, ring_of, events_in, events_of, poll-ring_of,
}

size_of_tcp_connect : size_of tcp_connect_widths ≡ 24
unfolding size_of
size_of_tcp_connect = refl

size_of_tcp_close : size_of tcp_close_widths ≡ 40
unfolding size_of
size_of_tcp_close = refl

abbrev killed : ProcessExitEvent
killed = record { pid = 100; exit_code = negsuc 8; timestamp_ns = 987654321 }

abbrev forked : ProcessForkEvent
forked = record { parent_pid = 1; child_pid = 42; timestamp_ns = 123456789 }

parse_event-bytes_of_example : parse_event 2 (bytes_of (exit killed) ++ (7 ∷ [])) ≡ ok (exit killed)
unfolding event_type_of IsInRange IsExitInRange IsI32
parse_event-bytes_of_example =
    parse_event-bytes_of (exit killed) (7 ∷ []) (omega arith, omega arith, omega arith)

abbrev fork_buffer : List ℕ
fork_buffer = 1 ∷ 0 ∷ 0 ∷ 0 ∷ 2 ∷ 1 ∷ 0 ∷ 0 ∷ 5 ∷ 0 ∷ 0 ∷ 0 ∷ 0 ∷ 0 ∷ 0 ∷ 0 ∷ []

abbrev buffered : ProcessForkEvent
buffered = record { parent_pid = 1; child_pid = 258; timestamp_ns = 5 }

fork_buffer-IsBytes : IsBytes fork_buffer
unfolding IsBytes
fork_buffer-IsBytes = omega arith

fork_buffer_parsed : parse_event 1 fork_buffer ≡ ok (fork buffered)
unfolding parse_event size_of read_fork read_le
fork_buffer_parsed = refl

parse_event-IsInRange_example :
    (event_type_of (fork buffered) ≡ 1)
    × IsInRange (fork buffered)
    × (bytes_taken (fork buffered) ≤ length fork_buffer)
parse_event-IsInRange_example =
    parse_event-IsInRange 1 fork_buffer (fork buffered) fork_buffer-IsBytes fork_buffer_parsed

failure-parse_event_example :
    failure (parse_event 3 fork_buffer) ≡ failure_of 3 fork_buffer (event_size 3)
failure-parse_event_example = failure-parse_event 3 fork_buffer

short_tcp_connect :
    failure_of 3 fork_buffer (event_size 3) ≡ some (parse_error 3 16 (expected_at_least 24))
unfolding failure_of event_size
short_tcp_connect = refl

abbrev waiting_forks : List (Item ProcessForkEvent)
waiting_forks = truncated (1 ∷ 2 ∷ []) ∷ whole forked (9 ∷ []) ∷ whole buffered [] ∷ []

abbrev waiting_exits : List (Item ProcessExitEvent)
waiting_exits = whole killed [] ∷ []

poll-ring_of_example :
    (poll fork_ready (reader_of waiting_forks waiting_exits)
      ≡ events_of waiting_forks waiting_exits)
    × (poll exit_ready (reader_of waiting_forks waiting_exits)
        ≡ events_of waiting_forks waiting_exits)
unfolding IsItem IsForkInRange IsExitInRange IsI32
poll-ring_of_example =
    poll-ring_of waiting_forks waiting_exits
      (
        omega arith,
        ((omega arith, omega arith, omega arith), ((omega arith, omega arith, omega arith), tt)),
      )
      ((omega arith, omega arith, omega arith), tt)

fork_events_first :
    (events_of waiting_forks waiting_exits).0 ≡ ok (fork forked ∷ fork buffered ∷ exit killed ∷ [])
unfolding events_of events_in
fork_events_first = refl

-- A ring of truncated items alone gives an empty list.
truncated_dropped :
    (poll fork_ready (reader_of (truncated (1 ∷ 2 ∷ []) ∷ truncated [] ∷ []) [])).0 ≡ ok []
unfolding poll drain_fork drain_exit parse_fork reader_of ring_of size_of
truncated_dropped = refl
