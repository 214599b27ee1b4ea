-- ===== src/Ebpf/Encode.antt =====
-- The specification side of the event parser: the bytes of an event as C lays them out, the ranges
-- of the fields, and which buffers an event type accepts.
use aether_terminal.Prelude.{
  ℕ, ◌^◌, ◌<◌, if◌then◌else◌, List, ◌++◌, length, ltb, ◌==◌, Option, some, none,
}
use aether_terminal.Ebpf.Bytes.{write_le, write_i32, IsI32}
use aether_terminal.Ebpf.Events.{
  ProcessForkEvent, ProcessExitEvent, TcpConnectEvent, TcpCloseEvent, SyscallEvent, RawKernelEvent,
  fork, exit, tcp_connect, tcp_close, syscall, Result, ok, err, fork_repr, exit_repr,
  tcp_connect_repr, tcp_close_repr, syscall_repr, EbpfError, parse_error, expected_at_least,
  unknown_event_type,
}

-- The bytes of an event in memory, field after field, and the ranges of its fields.
unfoldable pub fork_bytes : ProcessForkEvent → List ℕ
fork_bytes e = write_le 4 e.parent_pid ++ write_le 4 e.child_pid ++ write_le 8 e.timestamp_ns

unfoldable pub IsForkInRange : ProcessForkEvent → Type 0
IsForkInRange e = (e.parent_pid < 2 ^ 32) × (e.child_pid < 2 ^ 32) × (e.timestamp_ns < 2 ^ 64)

unfoldable pub exit_bytes : ProcessExitEvent → List ℕ
exit_bytes e = write_le 4 e.pid ++ write_i32 e.exit_code ++ write_le 8 e.timestamp_ns

unfoldable pub IsExitInRange : ProcessExitEvent → Type 0
IsExitInRange e = (e.pid < 2 ^ 32) × IsI32 e.exit_code × (e.timestamp_ns < 2 ^ 64)

unfoldable pub tcp_connect_bytes : TcpConnectEvent → List ℕ
tcp_connect_bytes e =
    write_le 4 e.pid
    ++ write_le 4 e.saddr
    ++ write_le 4 e.daddr
    ++ write_le 2 e.sport
    ++ write_le 2 e.dport
    ++ write_le 8 e.timestamp_ns

unfoldable pub IsTcpConnectInRange : TcpConnectEvent → Type 0
IsTcpConnectInRange e =
    (e.pid < 2 ^ 32)
    × (e.saddr < 2 ^ 32)
    × (e.daddr < 2 ^ 32)
    × (e.sport < 2 ^ 16)
    × (e.dport < 2 ^ 16)
    × (e.timestamp_ns < 2 ^ 64)

unfoldable pub tcp_close_bytes : TcpCloseEvent → List ℕ
tcp_close_bytes e =
    write_le 4 e.pid
    ++ write_le 4 e.saddr
    ++ write_le 4 e.daddr
    ++ write_le 2 e.sport
    ++ write_le 2 e.dport
    ++ write_le 8 e.bytes_sent
    ++ write_le 8 e.bytes_recv
    ++ write_le 8 e.duration_ns

unfoldable pub IsTcpCloseInRange : TcpCloseEvent → Type 0
IsTcpCloseInRange e =
    (e.pid < 2 ^ 32)
    × (e.saddr < 2 ^ 32)
    × (e.daddr < 2 ^ 32)
    × (e.sport < 2 ^ 16)
    × (e.dport < 2 ^ 16)
    × (e.bytes_sent < 2 ^ 64)
    × (e.bytes_recv < 2 ^ 64)
    × (e.duration_ns < 2 ^ 64)

unfoldable pub syscall_bytes : SyscallEvent → List ℕ
syscall_bytes e = write_le 4 e.pid ++ write_le 4 e.syscall_nr ++ write_le 8 e.timestamp_ns

unfoldable pub IsSyscallInRange : SyscallEvent → Type 0
IsSyscallInRange e = (e.pid < 2 ^ 32) × (e.syscall_nr < 2 ^ 32) × (e.timestamp_ns < 2 ^ 64)

unfoldable pub bytes_of : RawKernelEvent → List ℕ
unfolding fork_bytes exit_bytes tcp_connect_bytes tcp_close_bytes syscall_bytes
bytes_of (fork e) = fork_bytes e
bytes_of (exit e) = exit_bytes e
bytes_of (tcp_connect e) = tcp_connect_bytes e
bytes_of (tcp_close e) = tcp_close_bytes e
bytes_of (syscall e) = syscall_bytes e

unfoldable pub IsInRange : RawKernelEvent → Type 0
IsInRange (fork e) = IsForkInRange e
IsInRange (exit e) = IsExitInRange e
IsInRange (tcp_connect e) = IsTcpConnectInRange e
IsInRange (tcp_close e) = IsTcpCloseInRange e
IsInRange (syscall e) = IsSyscallInRange e

unfoldable pub event_type_of : RawKernelEvent → ℕ
event_type_of (fork e) = 1
event_type_of (exit e) = 2
event_type_of (tcp_connect e) = 3
event_type_of (tcp_close e) = 4
event_type_of (syscall e) = 5

-- The number of bytes of an event of each type, and none for an unknown type.
unfoldable pub event_size : ℕ → Option ℕ
event_size t =
    if t == 1
    then some 16
    else if t == 2
    then some 16
    else if t == 3
    then some 24
    else if t == 4
    then some 40
    else if t == 5
    then some 16
    else none

-- The number of bytes that an event takes in a buffer.
unfoldable pub bytes_taken : RawKernelEvent → ℕ
bytes_taken (fork e) = 16
bytes_taken (exit e) = 16
bytes_taken (tcp_connect e) = 24
bytes_taken (tcp_close e) = 40
bytes_taken (syscall e) = 16

-- The error of a result, if it has one.
unfoldable pub failure : {A : Type 0} → Result A → Option EbpfError
failure (ok a) = none
failure (err e) = some e

-- The error that a buffer of an event type calls for, with the number of bytes of that type.
unfoldable pub failure_of : ℕ → List ℕ → Option ℕ → Option EbpfError
failure_of t bytes none = some (parse_error t (length bytes) unknown_event_type)
failure_of t bytes (some n) =
    if ltb (length bytes) n then some (parse_error t (length bytes) (expected_at_least n)) else none
