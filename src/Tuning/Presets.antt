-- ===== src/Tuning/Presets.antt =====
-- tuning/tuning.go: the built-in profiles, and how one is applied by its name.
use connaxis.Prelude.{
  ◌*◌, ◌&&◌, ◌==◌, Bool, true, false, Option, none, some, List, [], ◌∷◌, Bytes, ◌≡◌, refl,
  if◌then◌else◌,
}
use connaxis.Tuning.{Profile, Globals, initial, apply}

abbrev pub balanced : Bytes
balanced = 98 ∷ 97 ∷ 108 ∷ 97 ∷ 110 ∷ 99 ∷ 101 ∷ 100 ∷ []

-- `ProfileBalanced`
abbrev pub profile_balanced : Profile
profile_balanced = record {
  name = balanced;
  event_loop = record {
    max_accept_per_event = 128;
    max_read_bytes_per_event = 256 * 1024;
    max_flush_bytes_per_event = 256 * 1024;
    max_cmd_per_event = 1024;
    max_cmd_flush_conns_per_event = 1024;
    accept_socket_no_delay = true;
    accept_socket_send_buf_bytes = 0;
    tls_handshake_workers = 0;
    tls_handshake_queue_size = 1024;
    tls_handshake_max_pending = 4096;
  };
  connection = record {
    write_queue_coalesce_max_bytes = 128;
    write_queue_compact_max_bytes = 4 * 1024;
    write_queue_shrink_cap = 4 * 1024;
  };
}

abbrev pub throughput : Bytes
throughput = 116 ∷ 104 ∷ 114 ∷ 111 ∷ 117 ∷ 103 ∷ 104 ∷ 112 ∷ 117 ∷ 116 ∷ []

-- `ProfileThroughput`
abbrev pub profile_throughput : Profile
profile_throughput = record {
  name = throughput;
  event_loop = record {
    max_accept_per_event = 256;
    max_read_bytes_per_event = 512 * 1024;
    max_flush_bytes_per_event = 512 * 1024;
    max_cmd_per_event = 2048;
    max_cmd_flush_conns_per_event = 2048;
    accept_socket_no_delay = true;
    accept_socket_send_buf_bytes = 0;
    tls_handshake_workers = 0;
    tls_handshake_queue_size = 2048;
    tls_handshake_max_pending = 8192;
  };
  connection = record {
    write_queue_coalesce_max_bytes = 512;
    write_queue_compact_max_bytes = 16 * 1024;
    write_queue_shrink_cap = 4 * 1024;
  };
}

abbrev pub latency : Bytes
latency = 108 ∷ 97 ∷ 116 ∷ 101 ∷ 110 ∷ 99 ∷ 121 ∷ []

-- `ProfileLatency`
abbrev pub profile_latency : Profile
profile_latency = record {
  name = latency;
  event_loop = record {
    max_accept_per_event = 64;
    max_read_bytes_per_event = 64 * 1024;
    max_flush_bytes_per_event = 128 * 1024;
    max_cmd_per_event = 512;
    max_cmd_flush_conns_per_event = 512;
    accept_socket_no_delay = true;
    accept_socket_send_buf_bytes = 0;
    tls_handshake_workers = 0;
    tls_handshake_queue_size = 1024;
    tls_handshake_max_pending = 4096;
  };
  connection = record {
    write_queue_coalesce_max_bytes = 256;
    write_queue_compact_max_bytes = 8 * 1024;
    write_queue_shrink_cap = 2 * 1024;
  };
}

abbrev pub gateway : Bytes
gateway = 103 ∷ 97 ∷ 116 ∷ 101 ∷ 119 ∷ 97 ∷ 121 ∷ []

-- `ProfileGateway`
abbrev pub profile_gateway : Profile
profile_gateway = record {
  name = gateway;
  event_loop = record {
    max_accept_per_event = 128;
    max_read_bytes_per_event = 64 * 1024;
    max_flush_bytes_per_event = 128 * 1024;
    max_cmd_per_event = 512;
    max_cmd_flush_conns_per_event = 512;
    accept_socket_no_delay = true;
    accept_socket_send_buf_bytes = 0;
    tls_handshake_workers = 0;
    tls_handshake_queue_size = 1024;
    tls_handshake_max_pending = 4096;
  };
  connection = record {
    write_queue_coalesce_max_bytes = 256;
    write_queue_compact_max_bytes = 8 * 1024;
    write_queue_shrink_cap = 2 * 1024;
  };
}

-- Whether two strings are the same.
pub same_bytes : Bytes → Bytes → Bool
same_bytes [] [] = true
same_bytes [] (b ∷ bs) = false
same_bytes (a ∷ rest) [] = false
same_bytes (a ∷ rest) (b ∷ bs) = a == b && same_bytes rest bs

-- `DefProfiles`, whose keys are the names of its profiles.
abbrev pub def_profiles : List Profile
def_profiles = profile_balanced ∷ profile_throughput ∷ profile_latency ∷ profile_gateway ∷ []

-- The profile with a name.
pub find_profile : Bytes → List Profile → Option Profile
unfolding same_bytes
find_profile name [] = none
find_profile name (p ∷ ps) =
    let rest = find_profile name ps in if same_bytes p.name name then some p else rest

-- `ApplyName`
pub apply_name : Bytes → Globals → Bool × Globals
unfolding find_profile apply
apply_name name globals = elim (find_profile name def_profiles) [
  | none ↦ (false, globals)
  | some p ↦ (true, apply p globals)
]

-- `ApplyName("balanced")` succeeds and gives every knob the value that it has at the start, whatever was
-- applied before.
pub apply_name-balanced : (globals : Globals) → apply_name balanced globals ≡ (true, initial)
unfolding apply_name
apply_name-balanced globals = refl
