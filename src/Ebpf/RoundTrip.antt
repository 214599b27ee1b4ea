-- ===== src/Ebpf/RoundTrip.antt =====
-- An event is read back from its bytes.
use aether_terminal.Prelude.{ℕ, ◌≡◌, ap, ◌∙◌, List, ◌++◌, arith}
use aether_terminal.Ebpf.Bytes.{
  read_le, write_le, read_i32, write_i32, size_of, align_up, end_of, widest, offset_of,
  read_le-write_le, read_i32-write_i32,
}
use aether_terminal.Ebpf.Events.{
  ProcessForkEvent, ProcessExitEvent, TcpConnectEvent, TcpCloseEvent, SyscallEvent, RawKernelEvent,
  fork, exit, tcp_connect, tcp_close, syscall, ok, read_fork, read_exit, read_tcp_connect,
  read_tcp_close, read_syscall, field, parse_event, map_result, fork_repr, exit_repr,
  tcp_connect_repr, tcp_close_repr, syscall_repr,
}
use aether_terminal.Ebpf.Encode.{
  fork_bytes, IsForkInRange, exit_bytes, IsExitInRange, tcp_connect_bytes, IsTcpConnectInRange,
  tcp_close_bytes, IsTcpCloseInRange, syscall_bytes, IsSyscallInRange, bytes_of, IsInRange,
  event_type_of,
}
use aether_terminal.Ebpf.Results.{parse_repr_c_long}

pub read_fork-fork_bytes :
    (e : ProcessForkEvent) (rest : List ℕ) → IsForkInRange e → read_fork (fork_bytes e ++ rest) ≡ e
unfolding fork_bytes read_fork IsForkInRange read_le field offset_of align_up write_le write_i32
    read_i32
read_fork-fork_bytes e rest (h_parent_pid, h_child_pid, h_timestamp_ns) = λ i. record {
  parent_pid = read_le-write_le 4 e.parent_pid rest h_parent_pid i;
  child_pid = read_le-write_le 4 e.child_pid rest h_child_pid i;
  timestamp_ns = read_le-write_le 8 e.timestamp_ns rest h_timestamp_ns i;
}

pub read_exit-exit_bytes :
    (e : ProcessExitEvent) (rest : List ℕ) → IsExitInRange e → read_exit (exit_bytes e ++ rest) ≡ e
unfolding exit_bytes read_exit IsExitInRange read_le field offset_of align_up write_le write_i32
    read_i32
read_exit-exit_bytes e rest (h_pid, h_exit_code, h_timestamp_ns) = λ i. record {
  pid = read_le-write_le 4 e.pid rest h_pid i;
  exit_code = read_i32-write_i32 e.exit_code rest h_exit_code i;
  timestamp_ns = read_le-write_le 8 e.timestamp_ns rest h_timestamp_ns i;
}

read_tcp_connect-tcp_connect_bytes :
    (e : TcpConnectEvent) (rest : List ℕ)
    → IsTcpConnectInRange e
    → read_tcp_connect (tcp_connect_bytes e ++ rest) ≡ e
unfolding tcp_connect_bytes read_tcp_connect IsTcpConnectInRange read_le field offset_of align_up
    write_le write_i32 read_i32
read_tcp_connect-tcp_connect_bytes e rest
      (h_pid, h_saddr, h_daddr, h_sport, h_dport, h_timestamp_ns) =
    λ i. record {
      pid = read_le-write_le 4 e.pid rest h_pid i;
      saddr = read_le-write_le 4 e.saddr rest h_saddr i;
      daddr = read_le-write_le 4 e.daddr rest h_daddr i;
      sport = read_le-write_le 2 e.sport rest h_sport i;
      dport = read_le-write_le 2 e.dport rest h_dport i;
      timestamp_ns = read_le-write_le 8 e.timestamp_ns rest h_timestamp_ns i;
    }

read_tcp_close-tcp_close_bytes :
    (e : TcpCloseEvent) (rest : List ℕ)
    → IsTcpCloseInRange e
    → read_tcp_close (tcp_close_bytes e ++ rest) ≡ e
unfolding tcp_close_bytes read_tcp_close IsTcpCloseInRange read_le field offset_of align_up write_le
    write_i32 read_i32
read_tcp_close-tcp_close_bytes e rest
      (h_pid, h_saddr, h_daddr, h_sport, h_dport, h_bytes_sent, h_bytes_recv, h_duration_ns) =
    λ i. record {
      pid = read_le-write_le 4 e.pid rest h_pid i;
      saddr = read_le-write_le 4 e.saddr rest h_saddr i;
      daddr = read_le-write_le 4 e.daddr rest h_daddr i;
      sport = read_le-write_le 2 e.sport rest h_sport i;
      dport = read_le-write_le 2 e.dport rest h_dport i;
      bytes_sent = read_le-write_le 8 e.bytes_sent rest h_bytes_sent i;
      bytes_recv = read_le-write_le 8 e.bytes_recv rest h_bytes_recv i;
      duration_ns = read_le-write_le 8 e.duration_ns rest h_duration_ns i;
    }

read_syscall-syscall_bytes :
    (e : SyscallEvent) (rest : List ℕ)
    → IsSyscallInRange e
    → read_syscall (syscall_bytes e ++ rest) ≡ e
unfolding syscall_bytes read_syscall IsSyscallInRange read_le field offset_of align_up write_le
    write_i32 read_i32
read_syscall-syscall_bytes e rest (h_pid, h_syscall_nr, h_timestamp_ns) = λ i. record {
  pid = read_le-write_le 4 e.pid rest h_pid i;
  syscall_nr = read_le-write_le 4 e.syscall_nr rest h_syscall_nr i;
  timestamp_ns = read_le-write_le 8 e.timestamp_ns rest h_timestamp_ns i;
}

-- An event whose fields are in the range of their types is parsed back from its bytes, whatever
-- bytes follow, under its own event type.
pub parse_event-bytes_of :
    (e : RawKernelEvent) (rest : List ℕ)
    → IsInRange e
    → parse_event (event_type_of e) (bytes_of e ++ rest) ≡ ok e
unfolding parse_event map_result bytes_of event_type_of IsInRange write_le write_i32 size_of
    align_up end_of widest fork_bytes exit_bytes tcp_connect_bytes tcp_close_bytes syscall_bytes
parse_event-bytes_of (fork e) rest h =
    ap (λ r. map_result r fork) (parse_repr_c_long 1 (fork_bytes e ++ rest) (omega arith))
    ∙ ap (λ x. ok (fork x)) (read_fork-fork_bytes e rest h)
parse_event-bytes_of (exit e) rest h =
    ap (λ r. map_result r exit) (parse_repr_c_long 2 (exit_bytes e ++ rest) (omega arith))
    ∙ ap (λ x. ok (exit x)) (read_exit-exit_bytes e rest h)
parse_event-bytes_of (tcp_connect e) rest h =
    ap (λ r. map_result r tcp_connect)
      (parse_repr_c_long 3 (tcp_connect_bytes e ++ rest) (omega arith))
    ∙ ap (λ x. ok (tcp_connect x)) (read_tcp_connect-tcp_connect_bytes e rest h)
parse_event-bytes_of (tcp_close e) rest h =
    ap (λ r. map_result r tcp_close) (parse_repr_c_long 4 (tcp_close_bytes e ++ rest) (omega arith))
    ∙ ap (λ x. ok (tcp_close x)) (read_tcp_close-tcp_close_bytes e rest h)
parse_event-bytes_of (syscall e) rest h =
    ap (λ r. map_result r syscall) (parse_repr_c_long 5 (syscall_bytes e ++ rest) (omega arith))
    ∙ ap (λ x. ok (syscall x)) (read_syscall-syscall_bytes e rest h)
