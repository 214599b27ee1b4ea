-- ===== src/Ebpf/RingBuffer.antt =====
-- `aether-ebpf/src/ring_buffer.rs`: the two ring buffers of fork and exit events and one poll of
-- them. A ring is the list of the items that wait in it, oldest first.
use aether_terminal.Prelude.{
  ℕ, List, [], ◌∷◌, ◌++◌, length, ltb, if◌then◌else◌, Option, some, none, String, str_append,
}
use aether_terminal.Ebpf.Bytes.{size_of}
use aether_terminal.Ebpf.Events.{
  fork_widths, exit_widths, tcp_connect_widths, tcp_close_widths, syscall_widths, ProcessForkEvent,
  ProcessExitEvent, TcpConnectEvent, TcpCloseEvent, SyscallEvent, RawKernelEvent, fork, exit,
  read_fork, read_exit, read_tcp_connect, read_tcp_close, read_syscall, map_error, Result, ok, err,
}

pub record RingBufferReader : Type 0 where
  pub fork_buf : List (List ℕ)
  pub exit_buf : List (List ℕ)

unfoldable pub parse_fork : List ℕ → Option ProcessForkEvent
parse_fork bytes = if ltb (length bytes) (size_of fork_widths) then none else some (read_fork bytes)

unfoldable pub parse_exit : List ℕ → Option ProcessExitEvent
parse_exit bytes = if ltb (length bytes) (size_of exit_widths) then none else some (read_exit bytes)

unfoldable pub parse_tcp_connect : List ℕ → Option TcpConnectEvent
parse_tcp_connect bytes =
    if ltb (length bytes) (size_of tcp_connect_widths) then none else some (read_tcp_connect bytes)

unfoldable pub parse_tcp_close : List ℕ → Option TcpCloseEvent
parse_tcp_close bytes =
    if ltb (length bytes) (size_of tcp_close_widths) then none else some (read_tcp_close bytes)

unfoldable pub parse_syscall : List ℕ → Option SyscallEvent
parse_syscall bytes =
    if ltb (length bytes) (size_of syscall_widths) then none else some (read_syscall bytes)

-- One round of the loop: `if let Some(event) = … { events.push(…) }`, in front of what the later
-- rounds return.
unfoldable pub push_event :
    {E : Type 0}
    → (E → RawKernelEvent)
    → Option E
    → List RawKernelEvent × List (List ℕ)
    → List RawKernelEvent × List (List ℕ)
push_event tag none (events, ring) = (events, ring)
push_event tag (some event) (events, ring) = (tag event ∷ events, ring)

-- The loop takes an item out of the ring on each round; what is left of the ring comes second.
unfoldable pub drain_fork : List (List ℕ) → List RawKernelEvent × List (List ℕ)
unfolding parse_fork push_event
drain_fork [] = ([], [])
drain_fork (item ∷ ring) = push_event fork (parse_fork item) (drain_fork ring)

unfoldable pub drain_exit : List (List ℕ) → List RawKernelEvent × List (List ℕ)
unfolding parse_exit push_event
drain_exit [] = ([], [])
drain_exit (item ∷ ring) = push_event exit (parse_exit item) (drain_exit ring)

-- What `tokio::select!` reports: the buffer that became readable, or the failure of its wait.
pub data Ready : Type 0 where
  fork_ready : Ready
  exit_ready : Ready
  fork_failed : String → Ready
  exit_failed : String → Ready

unfoldable pub poll : Ready → RingBufferReader → Result (List RawKernelEvent) × RingBufferReader
unfolding drain_fork drain_exit
poll fork_ready r =
    let events = drain_fork r.fork_buf in
    let exit_events = drain_exit r.exit_buf in
    (ok (events.0 ++ exit_events.0), record { fork_buf = events.1; exit_buf = exit_events.1 })
poll exit_ready r =
    let events = drain_exit r.exit_buf in
    let fork_events = drain_fork r.fork_buf in
    (ok (fork_events.0 ++ events.0), record { fork_buf = fork_events.1; exit_buf = events.1 })
poll (fork_failed e) r = (err (map_error (str_append "poll fork: " e)), r)
poll (exit_failed e) r = (err (map_error (str_append "poll exit: " e)), r)
