-- ===== src/Ebpf/Events.antt =====
-- `aether-ebpf/src/events.rs` and `aether-ebpf/src/error.rs`: the event structs that the kernel
-- programs write, and their parser. A buffer is a list of bytes.
use aether_terminal.Prelude.{
  ℕ, suc, if◌then◌else◌, List, [], ◌∷◌, length, take, drop, ltb, ◌==◌, String, ℤ, Option, some,
  none,
}
use aether_terminal.Ebpf.Bytes.{read_le, read_i32, size_of, offset_of}

abbrev pub event_type_fork : ℕ
event_type_fork = 1

abbrev pub event_type_exit : ℕ
event_type_exit = 2

abbrev pub event_type_tcp_connect : ℕ
event_type_tcp_connect = 3

abbrev pub event_type_tcp_close : ℕ
event_type_tcp_close = 4

abbrev pub event_type_syscall : ℕ
event_type_syscall = 5

pub record ProcessForkEvent : Type 0 where
  pub parent_pid : ℕ
  pub child_pid : ℕ
  pub timestamp_ns : ℕ

pub record ProcessExitEvent : Type 0 where
  pub pid : ℕ
  pub exit_code : ℤ
  pub timestamp_ns : ℕ

pub record TcpConnectEvent : Type 0 where
  pub pid : ℕ
  pub saddr : ℕ
  pub daddr : ℕ
  pub sport : ℕ
  pub dport : ℕ
  pub timestamp_ns : ℕ

pub record TcpCloseEvent : Type 0 where
  pub pid : ℕ
  pub saddr : ℕ
  pub daddr : ℕ
  pub sport : ℕ
  pub dport : ℕ
  pub bytes_sent : ℕ
  pub bytes_recv : ℕ
  pub duration_ns : ℕ

pub record SyscallEvent : Type 0 where
  pub pid : ℕ
  pub syscall_nr : ℕ
  pub timestamp_ns : ℕ

pub data RawKernelEvent : Type 0 where
  fork : ProcessForkEvent → RawKernelEvent
  exit : ProcessExitEvent → RawKernelEvent
  tcp_connect : TcpConnectEvent → RawKernelEvent
  tcp_close : TcpCloseEvent → RawKernelEvent
  syscall : SyscallEvent → RawKernelEvent

-- The reason of a short buffer is its number alone; the source puts it in a sentence.
pub data ParseReason : Type 0 where
  unknown_event_type : ParseReason
  expected_at_least : ℕ → ParseReason

pub data EbpfError : Type 0 where
  permission_denied : EbpfError
  kernel_version : String → EbpfError
  btf_missing : EbpfError
  load_failed : String → EbpfError
  map_error : String → EbpfError
  parse_error : (event_type data_len : ℕ) → ParseReason → EbpfError

pub data Result (A : Type 0) : Type 0 where
  ok : A → Result A
  err : EbpfError → Result A

unfoldable pub map_result : {A B : Type 0} → Result A → (A → B) → Result B
map_result (ok a) f = ok (f a)
map_result (err e) f = err e

-- A `#[repr(C)]` type: the widths of its fields and its value in memory.
pub record ReprC (T : Type 0) : Type 0 where
  pub widths : List ℕ
  pub read : List ℕ → T

abbrev pub fork_widths : List ℕ
fork_widths = 4 ∷ 4 ∷ 8 ∷ []

abbrev pub exit_widths : List ℕ
exit_widths = 4 ∷ 4 ∷ 8 ∷ []

abbrev pub tcp_connect_widths : List ℕ
tcp_connect_widths = 4 ∷ 4 ∷ 4 ∷ 2 ∷ 2 ∷ 8 ∷ []

abbrev pub tcp_close_widths : List ℕ
tcp_close_widths = 4 ∷ 4 ∷ 4 ∷ 2 ∷ 2 ∷ 8 ∷ 8 ∷ 8 ∷ []

abbrev pub syscall_widths : List ℕ
syscall_widths = 4 ∷ 4 ∷ 8 ∷ []

-- The bytes from the start of a field on.
unfoldable pub field : List ℕ → ℕ → List ℕ → List ℕ
unfolding offset_of
field widths i bytes = drop (offset_of 0 widths i) bytes

unfoldable pub read_fork : List ℕ → ProcessForkEvent
unfolding field
read_fork bytes = record {
  parent_pid = read_le 4 (field fork_widths 0 bytes);
  child_pid = read_le 4 (field fork_widths 1 bytes);
  timestamp_ns = read_le 8 (field fork_widths 2 bytes);
}

unfoldable pub read_exit : List ℕ → ProcessExitEvent
unfolding field
read_exit bytes = record {
  pid = read_le 4 (field exit_widths 0 bytes);
  exit_code = read_i32 (field exit_widths 1 bytes);
  timestamp_ns = read_le 8 (field exit_widths 2 bytes);
}

unfoldable pub read_tcp_connect : List ℕ → TcpConnectEvent
unfolding field
read_tcp_connect bytes = record {
  pid = read_le 4 (field tcp_connect_widths 0 bytes);
  saddr = read_le 4 (field tcp_connect_widths 1 bytes);
  daddr = read_le 4 (field tcp_connect_widths 2 bytes);
  sport = read_le 2 (field tcp_connect_widths 3 bytes);
  dport = read_le 2 (field tcp_connect_widths 4 bytes);
  timestamp_ns = read_le 8 (field tcp_connect_widths 5 bytes);
}

unfoldable pub read_tcp_close : List ℕ → TcpCloseEvent
unfolding field
read_tcp_close bytes = record {
  pid = read_le 4 (field tcp_close_widths 0 bytes);
  saddr = read_le 4 (field tcp_close_widths 1 bytes);
  daddr = read_le 4 (field tcp_close_widths 2 bytes);
  sport = read_le 2 (field tcp_close_widths 3 bytes);
  dport = read_le 2 (field tcp_close_widths 4 bytes);
  bytes_sent = read_le 8 (field tcp_close_widths 5 bytes);
  bytes_recv = read_le 8 (field tcp_close_widths 6 bytes);
  duration_ns = read_le 8 (field tcp_close_widths 7 bytes);
}

unfoldable pub read_syscall : List ℕ → SyscallEvent
unfolding field
read_syscall bytes = record {
  pid = read_le 4 (field syscall_widths 0 bytes);
  syscall_nr = read_le 4 (field syscall_widths 1 bytes);
  timestamp_ns = read_le 8 (field syscall_widths 2 bytes);
}

instance abbrev pub fork_repr : ReprC ProcessForkEvent
fork_repr = record { widths = fork_widths; read = read_fork }

instance abbrev pub exit_repr : ReprC ProcessExitEvent
exit_repr = record { widths = exit_widths; read = read_exit }

instance abbrev pub tcp_connect_repr : ReprC TcpConnectEvent
tcp_connect_repr = record { widths = tcp_connect_widths; read = read_tcp_connect }

instance abbrev pub tcp_close_repr : ReprC TcpCloseEvent
tcp_close_repr = record { widths = tcp_close_widths; read = read_tcp_close }

instance abbrev pub syscall_repr : ReprC SyscallEvent
syscall_repr = record { widths = syscall_widths; read = read_syscall }

module _ {T : Type 0} ⦃r : ReprC T⦄ where
  -- Bytes after the struct are not looked at.
  unfoldable pub parse_repr_c : ℕ → List ℕ → Result T
  parse_repr_c event_type bytes =
      let expected = size_of r.widths in
      if ltb (length bytes) expected
      then err (parse_error event_type (length bytes) (expected_at_least expected))
      else ok (r.read bytes)

unfoldable pub parse_event : ℕ → List ℕ → Result RawKernelEvent
unfolding parse_repr_c map_result
parse_event event_type bytes =
    if event_type == event_type_fork
    then map_result (parse_repr_c event_type bytes) fork
    else if event_type == event_type_exit
    then map_result (parse_repr_c event_type bytes) exit
    else if event_type == event_type_tcp_connect
    then map_result (parse_repr_c event_type bytes) tcp_connect
    else if event_type == event_type_tcp_close
    then map_result (parse_repr_c event_type bytes) tcp_close
    else if event_type == event_type_syscall
    then map_result (parse_repr_c event_type bytes) syscall
    else err (parse_error event_type (length bytes) unknown_event_type)

unfoldable pub null_position : List ℕ → Option ℕ
null_position [] = none
null_position (b ∷ bytes) =
    if b == 0 then some 0 else (elim (null_position bytes) [ none ↦ none | some i ↦ some (suc i) ])

module _ (from_utf8_lossy : List ℕ → String) where
  -- The field has 16 bytes.
  unfoldable pub comm_to_string : List ℕ → String
  unfolding null_position
  comm_to_string comm =
      from_utf8_lossy (take (elim (null_position comm) [ none ↦ 16 | some i ↦ i ]) comm)
