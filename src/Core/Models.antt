-- ===== src/Core/Models.antt =====
-- The process and network types of `aether-core/src/models.rs`. An `f32` is its bit pattern, and an
-- address is a number with its version.
use aether_terminal.Prelude.{ℕ, String, List, Option}

abbrev pub F32 : Type 0
F32 = ℕ

pub data ProcessState : Type 0 where
  running sleeping zombie stopped : ProcessState

pub record ProcessNode : Type 0 where
  pub pid : ℕ
  pub ppid : ℕ
  pub name : String
  pub cpu_percent : F32
  pub mem_bytes : ℕ
  pub state : ProcessState
  pub hp : F32
  pub xp : ℕ
  pub position_3d : F32 × F32 × F32

pub data Protocol : Type 0 where
  tcp udp dns quic http https unknown : Protocol

pub data ConnectionState : Type 0 where
  established listen time_wait close_wait : ConnectionState

pub data IpAddr : Type 0 where
  v4 v6 : ℕ → IpAddr

pub record NetworkEdge : Type 0 where
  pub source_pid : ℕ
  pub dest_pid : Option ℕ
  pub dest : IpAddr × ℕ
  pub protocol : Protocol
  pub bytes_per_sec : ℕ
  pub state : ConnectionState

pub record SystemSnapshot : Type 0 where
  pub processes : List ProcessNode
  pub edges : List NetworkEdge
  pub timestamp : ℕ
