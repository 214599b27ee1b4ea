-- ===== src/Ebpf/Outcome.antt =====
-- When the parser of events fails, and the ranges of what it reads.
use aether_terminal.Prelude.{ℕ, zero, suc, ◌≤◌, ◌≡◌, refl, sym, ◌∙◌, List, length, drop, arith}
use aether_terminal.Ebpf.Bytes.{
  size_of, align_up, end_of, widest, offset_of, IsBytes, read_le-lt, IsBytes-drop, read_i32-IsI32,
}
use aether_terminal.Ebpf.Events.{
  RawKernelEvent, fork, exit, tcp_connect, tcp_close, syscall, ok, err, read_fork, read_exit,
  read_tcp_connect, read_tcp_close, read_syscall, field, parse_event, fork_repr, exit_repr,
  tcp_connect_repr, tcp_close_repr, syscall_repr, parse_error, unknown_event_type,
}
use aether_terminal.Ebpf.Encode.{
  IsForkInRange, IsExitInRange, IsTcpConnectInRange, IsTcpCloseInRange, IsSyscallInRange, IsInRange,
  event_type_of, event_size, failure, failure_of, bytes_taken,
}
use aether_terminal.Ebpf.Results.{err-ok, map_result-parse_repr_c, failure-parse_repr_c}

parse_event-unknown :
    (t : ℕ) (bytes : List ℕ)
    → parse_event (suc (suc (suc (suc (suc (suc t)))))) bytes
      ≡ err (parse_error (suc (suc (suc (suc (suc (suc t)))))) (length bytes) unknown_event_type)
unfolding parse_event
parse_event-unknown t bytes = ground arith

-- The parser fails exactly on an unknown event type and on a buffer with fewer bytes than an event
-- of its type has, with the type, the length of the buffer and the reason in the error.
pub failure-parse_event :
    (t : ℕ) (bytes : List ℕ) → failure (parse_event t bytes) ≡ failure_of t bytes (event_size t)
unfolding parse_event event_size size_of align_up end_of widest failure failure_of
failure-parse_event zero bytes = refl
failure-parse_event (suc zero) bytes = failure-parse_repr_c 1 bytes fork
failure-parse_event (suc (suc zero)) bytes = failure-parse_repr_c 2 bytes exit
failure-parse_event (suc (suc (suc zero))) bytes = failure-parse_repr_c 3 bytes tcp_connect
failure-parse_event (suc (suc (suc (suc zero)))) bytes = failure-parse_repr_c 4 bytes tcp_close
failure-parse_event (suc (suc (suc (suc (suc zero))))) bytes = failure-parse_repr_c 5 bytes syscall
failure-parse_event (suc (suc (suc (suc (suc (suc t)))))) bytes = ground arith

read_fork-IsInRange : (bytes : List ℕ) → IsBytes bytes → IsForkInRange (read_fork bytes)
unfolding read_fork IsForkInRange field offset_of align_up
read_fork-IsInRange bytes h = (
  read_le-lt 4 (drop 0 bytes) (IsBytes-drop 0 bytes h),
  read_le-lt 4 (drop 4 bytes) (IsBytes-drop 4 bytes h),
  read_le-lt 8 (drop 8 bytes) (IsBytes-drop 8 bytes h),
)

read_exit-IsInRange : (bytes : List ℕ) → IsBytes bytes → IsExitInRange (read_exit bytes)
unfolding read_exit IsExitInRange field offset_of align_up
read_exit-IsInRange bytes h = (
  read_le-lt 4 (drop 0 bytes) (IsBytes-drop 0 bytes h),
  read_i32-IsI32 (drop 4 bytes) (IsBytes-drop 4 bytes h),
  read_le-lt 8 (drop 8 bytes) (IsBytes-drop 8 bytes h),
)

read_tcp_connect-IsInRange :
    (bytes : List ℕ) → IsBytes bytes → IsTcpConnectInRange (read_tcp_connect bytes)
unfolding read_tcp_connect IsTcpConnectInRange field offset_of align_up
read_tcp_connect-IsInRange bytes h = (
  read_le-lt 4 (drop 0 bytes) (IsBytes-drop 0 bytes h),
  read_le-lt 4 (drop 4 bytes) (IsBytes-drop 4 bytes h),
  read_le-lt 4 (drop 8 bytes) (IsBytes-drop 8 bytes h),
  read_le-lt 2 (drop 12 bytes) (IsBytes-drop 12 bytes h),
  read_le-lt 2 (drop 14 bytes) (IsBytes-drop 14 bytes h),
  read_le-lt 8 (drop 16 bytes) (IsBytes-drop 16 bytes h),
)

read_tcp_close-IsInRange :
    (bytes : List ℕ) → IsBytes bytes → IsTcpCloseInRange (read_tcp_close bytes)
unfolding read_tcp_close IsTcpCloseInRange field offset_of align_up
read_tcp_close-IsInRange bytes h = (
  read_le-lt 4 (drop 0 bytes) (IsBytes-drop 0 bytes h),
  read_le-lt 4 (drop 4 bytes) (IsBytes-drop 4 bytes h),
  read_le-lt 4 (drop 8 bytes) (IsBytes-drop 8 bytes h),
  read_le-lt 2 (drop 12 bytes) (IsBytes-drop 12 bytes h),
  read_le-lt 2 (drop 14 bytes) (IsBytes-drop 14 bytes h),
  read_le-lt 8 (drop 16 bytes) (IsBytes-drop 16 bytes h),
  read_le-lt 8 (drop 24 bytes) (IsBytes-drop 24 bytes h),
  read_le-lt 8 (drop 32 bytes) (IsBytes-drop 32 bytes h),
)

read_syscall-IsInRange : (bytes : List ℕ) → IsBytes bytes → IsSyscallInRange (read_syscall bytes)
unfolding read_syscall IsSyscallInRange field offset_of align_up
read_syscall-IsInRange bytes h = (
  read_le-lt 4 (drop 0 bytes) (IsBytes-drop 0 bytes h),
  read_le-lt 4 (drop 4 bytes) (IsBytes-drop 4 bytes h),
  read_le-lt 8 (drop 8 bytes) (IsBytes-drop 8 bytes h),
)

-- Every event that the parser reads from bytes has the event type it was asked for, has its fields
-- in the ranges of their types, and takes no more bytes than the buffer holds: 16 for a fork, an
-- exit and a syscall, 24 for a connect and 40 for a close.
pub parse_event-IsInRange :
    (t : ℕ) (bytes : List ℕ) (e : RawKernelEvent)
    → IsBytes bytes
    → parse_event t bytes ≡ ok e
    → (event_type_of e ≡ t) × IsInRange e × (bytes_taken e ≤ length bytes)
unfolding parse_event IsInRange event_type_of bytes_taken size_of align_up end_of widest
parse_event-IsInRange zero bytes e h q = absurd (err-ok q)
parse_event-IsInRange (suc zero) bytes e h q =
    map_result-parse_repr_c 1 bytes fork
      (λ x. (event_type_of x ≡ 1) × IsInRange x × (bytes_taken x ≤ length bytes))
      (λ s. (refl, read_fork-IsInRange bytes h, s)) e q
parse_event-IsInRange (suc (suc zero)) bytes e h q =
    map_result-parse_repr_c 2 bytes exit
      (λ x. (event_type_of x ≡ 2) × IsInRange x × (bytes_taken x ≤ length bytes))
      (λ s. (refl, read_exit-IsInRange bytes h, s)) e q
parse_event-IsInRange (suc (suc (suc zero))) bytes e h q =
    map_result-parse_repr_c 3 bytes tcp_connect
      (λ x. (event_type_of x ≡ 3) × IsInRange x × (bytes_taken x ≤ length bytes))
      (λ s. (refl, read_tcp_connect-IsInRange bytes h, s)) e q
parse_event-IsInRange (suc (suc (suc (suc zero)))) bytes e h q =
    map_result-parse_repr_c 4 bytes tcp_close
      (λ x. (event_type_of x ≡ 4) × IsInRange x × (bytes_taken x ≤ length bytes))
      (λ s. (refl, read_tcp_close-IsInRange bytes h, s)) e q
parse_event-IsInRange (suc (suc (suc (suc (suc zero))))) bytes e h q =
    map_result-parse_repr_c 5 bytes syscall
      (λ x. (event_type_of x ≡ 5) × IsInRange x × (bytes_taken x ≤ length bytes))
      (λ s. (refl, read_syscall-IsInRange bytes h, s)) e q
parse_event-IsInRange (suc (suc (suc (suc (suc (suc t)))))) bytes e h q =
    absurd (err-ok (sym (parse_event-unknown t bytes) ∙ q))
