-- ===== src/TlsBuffer/Tests.antt =====
-- connection/tlsconn.go: the TLS buffer at small inputs.
use connaxis.Prelude.{◌≡◌, refl, List, [], ◌∷◌, some, arith}
use connaxis.Ring.Tests.{eight, wrapped, wrapped-IsValid}
use connaxis.TlsBuffer.Traffic.{
  Call, reads, writes, arrives, flushes, Traffic, Faithful, run, run-Faithful,
}

-- Three bytes have arrived and nothing has been written.
abbrev under_way : Traffic (Unit {0})
under_way = record {
  cin = wrapped;
  cout = record { buf = []; size = 0; r = 0; w = 0 };
  pool = tt;
  arrived = 8 ∷ 9 ∷ 7 ∷ [];
  read_out = [];
  written = [];
  sent = [];
}

under_way-Faithful : Faithful eight under_way
under_way-Faithful = record {
  cin_valid = wrapped-IsValid;
  cout_valid = omega arith;
  pool_valid = tt;
  inward = refl;
  outward = refl;
}

abbrev history : List Call
history = reads 2 ∷ writes (5 ∷ 6 ∷ []) ∷ arrives 4 (3 ∷ []) ∷ flushes (some 1) 9 ∷ []

run-Faithful_example :
    (t' : Traffic (Unit {0})) × (run eight under_way history ≡ some t') × Faithful eight t'
run-Faithful_example = run-Faithful eight history under_way under_way-Faithful
