-- ===== src/Tests/Records.antt =====
-- Record framing over a stream of one record, and over a stream with a hole.
use securemailscope.Base.{◌≤◌, ◌≡◌, ◌⊎◌, refl, [], ◌∷◌, length, arith}
use securemailscope.Protocols.Buffer.{DirectionalBuffer, read}
use securemailscope.Protocols.Buffer.OneRun.{FromRun, read-FromRun, whole}
use securemailscope.Protocols.Framing.{handshake, content_types}
use securemailscope.Protocols.Framing.Probe.{Chain, probe_tls_records, probe_tls_records-Chain}
use securemailscope.Tls.Records.{parse_records, complete}
use securemailscope.Tls.Records.Tiling.{Tiled, parse_records-Tiled}
use securemailscope.Tls.Records.Stops.{Reason, parse_records-Reason}
use securemailscope.Tls.Records.RoundTrip.{
  Record, IsRecord, encode_records, bodies, parse_records-encode_records,
}

-- Two runs, with a hole between offset 7 and offset 20.
abbrev holed : DirectionalBuffer
holed = record {
  runs = (0, 22 ∷ 3 ∷ 3 ∷ 0 ∷ 2 ∷ 14 ∷ 0 ∷ []) ∷ (20, 1 ∷ 2 ∷ []) ∷ [];
  segments = [];
  conflicts = [];
}

parse_records-Tiled_example :
    Tiled holed 0 (parse_records holed 0 8 100 0).fragments (parse_records holed 0 8 100 0).offset
    × (length (parse_records holed 0 8 100 0).fragments ≤ 8)
parse_records-Tiled_example = parse_records-Tiled holed 0 8 100 0

parse_records-Reason_example :
    Reason holed 8 100
      (parse_records holed 0 8 100 0).parse_state
      (parse_records holed 0 8 100 0).fragments
      (parse_records holed 0 8 100 0).offset
parse_records-Reason_example = parse_records-Reason holed 0 8 100 0

read-FromRun_example : (read holed 5 30 ≡ []) ⊎ FromRun holed 5 30 (read holed 5 30)
read-FromRun_example = read-FromRun holed 5 30

abbrev hello_done : Record
hello_done = record { content_type = 22; name = handshake; minor = 3; body = 14 ∷ 0 ∷ 0 ∷ 0 ∷ [] }

hello_done-IsRecord : IsRecord 100 hello_done
unfolding content_types
hello_done-IsRecord = record {
  known = refl;
  minor_range = omega arith;
  not_empty = omega arith;
  fits = (omega arith, omega arith);
}

parse_records-encode_records_example :
    (let t = parse_records (whole (encode_records (hello_done ∷ []))) 0 8 100 0 in
      (bodies t.fragments ≡ (14 ∷ 0 ∷ 0 ∷ 0 ∷ []) ∷ [])
      × (t.parse_state ≡ complete)
      × (t.warnings ≡ []))
parse_records-encode_records_example =
    parse_records-encode_records hello_done [] 8 100 0 (hello_done-IsRecord, tt) (omega arith)

probe_tls_records-Chain_example :
    Chain holed 0 (probe_tls_records holed 0 8) × (length (probe_tls_records holed 0 8) ≤ 8)
probe_tls_records-Chain_example = probe_tls_records-Chain holed 0 8
