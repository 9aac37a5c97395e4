-- ===== src/Tuning.antt =====
-- tuning/tuning.go: the knobs of event loops and connections, and how a profile sets them.
pub mod Presets
use connaxis.Prelude.{ℕ, ◌*◌, Bool, true, Bytes}

-- `EventLoop`
pub record EventLoop : Type 0 where
  pub max_accept_per_event : ℕ
  pub max_read_bytes_per_event : ℕ
  pub max_flush_bytes_per_event : ℕ
  pub max_cmd_per_event : ℕ
  pub max_cmd_flush_conns_per_event : ℕ
  pub accept_socket_no_delay : Bool
  pub accept_socket_send_buf_bytes : ℕ
  pub tls_handshake_workers : ℕ
  pub tls_handshake_queue_size : ℕ
  pub tls_handshake_max_pending : ℕ

-- `Connection`
pub record Connection : Type 0 where
  pub write_queue_coalesce_max_bytes : ℕ
  pub write_queue_compact_max_bytes : ℕ
  pub write_queue_shrink_cap : ℕ

-- `Profile`; a name is the string's bytes.
pub record Profile : Type 0 where
  pub name : Bytes
  pub event_loop : EventLoop
  pub connection : Connection

-- The live globals.
pub record Globals : Type 0 where
  pub event_loop : EventLoop
  pub connection : Connection

-- Their values at the start.
abbrev pub initial : Globals
initial = record {
  event_loop = record {
    max_accept_per_event = 128;
    max_read_bytes_per_event = 256 * 1024;
    max_flush_bytes_per_event = 256 * 1024;
    max_cmd_per_event = 1024;
    max_cmd_flush_conns_per_event = 1024;
    accept_socket_no_delay = true;
    accept_socket_send_buf_bytes = 0;
    tls_handshake_workers = 0;
    tls_handshake_queue_size = 1024;
    tls_handshake_max_pending = 4096;
  };
  connection = record {
    write_queue_coalesce_max_bytes = 128;
    write_queue_compact_max_bytes = 4 * 1024;
    write_queue_shrink_cap = 4 * 1024;
  };
}

-- `Apply`
pub apply : Profile → Globals → Globals
apply p globals = record { event_loop = p.event_loop; connection = p.connection }
