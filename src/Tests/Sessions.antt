-- ===== src/Tests/Sessions.antt =====
-- Two connections on one pair of addresses, with limits of one open and two recorded.
use securemailscope.Base.{
  ℕ, ◌≡◌, refl, Bool, true, false, List, [], ◌∷◌, some, map, get_elem?, All, arith,
}
use securemailscope.Base.Int.{pos, ◌+ℤ◌, ◌-ℤ◌, mod_ℤ}
use securemailscope.Network.SequenceSpace as Space
use securemailscope.Network.ByteBudget as Budget
use securemailscope.Network.Flows.{
  Endpoint, FlowKey, normalize, eq_key, eq_text, eq_endpoint, le_endpoint, lt_text,
}
use securemailscope.Network.Reassembly.Directional.{
  is_some, prior_frames, eq_ℤ, add_frame, repeats_frame,
}
use securemailscope.Network.Reassembly.Directional.Observe as Direction
use securemailscope.Network.Reassembly.Directional.Insert.{
  insert, insert_all, limit_segments, sum_lengths, classify, store, ranges_bounds, note_duplicates,
}
use securemailscope.Network.Reassembly.Limits.{accept_ranges, grant}
use securemailscope.Network.Reassembly.Walk.{walk, interval_of, walk_end}
use securemailscope.Network.Reassembly.Intervals.{
  overlapping, insert_interval, first_index, bisect_left, step_back, scan,
}
use securemailscope.Network.Reassembly.Intervals.Bytes.{byte_at}
use securemailscope.Network.Sessions.{new_direction, Packet, AnalysisConfig, new_session, key_of}
use securemailscope.Network.Sessions.Roles.{assign_roles, roles}
use securemailscope.Network.Sessions.Observe as Session
use securemailscope.Network.Sessions.Observe.{
  noted, note_count, note_handshake, note_end, note_payload, note_closed, streams, stream_of, feed,
  lend, is_from_client, is_ended,
}
use securemailscope.Network.Sessions.Engine.{
  new, observe_all, observe, serve, open_new, open_unless, refusal, open_session_count, count_open,
  opened, created, deliver, deliver_to, find_key, set_key, set_at, or_zero, reuse, warn, del_key,
  starts_new, starts_new_connection, is_open, refuse,
}
use securemailscope.Network.Sessions.Engine.Capacity.{IsWithin, observe_all-IsWithin}
use securemailscope.Network.Sessions.Engine.Counted.{accounted, observe_all-accounted}
use securemailscope.Network.Sessions.Engine.Separate.{observe_all-completed}
use securemailscope.Network.Sessions.Engine.Numbered.{number_of, observe_all-unique_number}
use securemailscope.Network.Sessions.Engine.Refused.{is_refused, of_key, observe_all-refused}
use securemailscope.Network.Sessions.Engine.Bytes.{byte_of, observe_all-bytes_stay}
use securemailscope.Network.Sessions.Engine.Report.{finalize, finalize-first_seen}
use securemailscope.Network.Sessions.Finalize.{TcpSession}

abbrev digest : List ℕ → List ℕ
digest bytes = bytes

abbrev config : AnalysisConfig
config = record {
  max_segments_per_direction = 4;
  max_session_payload_bytes = 100;
  max_total_payload_bytes = 200;
  max_concurrent_sessions = 1;
  max_total_sessions = 2;
}

abbrev client : Endpoint
client = record { ip = 1 ∷ []; port = 50000 }

abbrev server : Endpoint
server = record { ip = 2 ∷ []; port = 25 }

abbrev packet : ℕ → ℕ → Bool → List ℕ → Packet
packet number seq syn payload = record {
  packet_number = number;
  timestamp_ns = number;
  source = client;
  destination = server;
  ack_flag = false;
  ack = 0;
  segment = record {
    seq = seq;
    syn = syn;
    fin = false;
    rst = false;
    payload = payload;
    payload_truncated = false;
    declared_payload_length = 0;
    frame_digest = [];
  };
}

-- A connection opens and sends, and another opens on the same addresses.
abbrev packets : List Packet
packets = packet 1 7 true [] ∷ packet 2 8 false (65 ∷ []) ∷ packet 3 90 true [] ∷ []

observe_all-IsWithin_example :
    IsWithin config (observe_all digest digest digest [] config (new config) packets)
observe_all-IsWithin_example = observe_all-IsWithin digest digest digest [] config packets

observe_all-accounted_example :
    accounted (observe_all digest digest digest [] config (new config) packets) ≡ 3
observe_all-accounted_example = observe_all-accounted digest digest digest [] config packets

observe_all-completed_example :
    let e = observe_all digest digest digest [] config (new config) packets in
    All
      (λ i.
        get_elem? (observe_all digest digest digest [] config e packets).order i
        ≡ get_elem? e.order i)
      e.completed
observe_all-completed_example = observe_all-completed digest digest digest [] config packets packets

finalize-first_seen_example :
    let e = observe_all digest digest digest [] config (new config) packets in
    (sessions : List TcpSession) × ((finalize digest 8 e).0 ≡ some sessions)
    × (map (λ s. s.session_id) sessions ≡ map (λ s. s.session_id) e.order)
finalize-first_seen_example =
    finalize-first_seen digest 8 digest digest [] config packets
      (omega arith, (omega arith, (omega arith, tt)))

-- The first connection is the first one of its key.
opens :
    get_elem?
      (map number_of (observe_all digest digest digest [] config (new config) packets).order)
      0
    ≡ some (normalize client server, 1)
unfolding new observe_all observe serve open_new open_unless opened created deliver deliver_to
    refusal open_session_count count_open find_key set_key set_at or_zero new_session reuse warn
    del_key starts_new starts_new_connection is_open eq_key eq_text eq_endpoint normalize
    le_endpoint lt_text assign_roles roles Session.observe noted note_count note_handshake note_end
    note_payload note_closed streams is_ended is_from_client key_of Direction.observe insert walk
    overlapping Direction.note_truncated Direction.note_packet
opens = refl

observe_all-unique_number_example : let n : ℕ = 0 in n ≡ 0
observe_all-unique_number_example =
    observe_all-unique_number digest digest digest [] config packets 0 0 (normalize client server) 1
      opens opens

-- A packet between two other endpoints.
abbrev elsewhere : Packet
elsewhere = record (packet 2 5 true []) { source = server; destination = server }

abbrev crowd : List Packet
crowd = packet 1 7 true [] ∷ elsewhere ∷ []

abbrev refused_key : FlowKey
refused_key = normalize server server

turned_away :
    is_refused refused_key (observe_all digest digest digest [] config (new config) crowd) ≡ true
unfolding new observe_all observe serve open_new open_unless opened created deliver deliver_to
    refusal open_session_count count_open find_key set_key set_at or_zero new_session reuse warn
    del_key starts_new starts_new_connection is_open eq_key eq_text eq_endpoint normalize
    le_endpoint lt_text assign_roles roles Session.observe noted note_count note_handshake note_end
    note_payload note_closed streams is_ended is_from_client key_of is_refused refuse is_some
    Direction.observe Direction.note_packet
turned_away = refl

observe_all-refused_example :
    let e = observe_all digest digest digest [] config (new config) crowd in
    let e' = observe_all digest digest digest [] config e crowd in
    (is_refused refused_key e' ≡ true) × (of_key refused_key e'.order ≡ of_key refused_key e.order)
observe_all-refused_example =
    observe_all-refused digest digest digest [] config crowd crowd refused_key turned_away

-- The byte that the connection's first payload carries.
sent :
    byte_of (observe_all digest digest digest [] config (new config) packets) 0 true (pos 1)
    ≡ some 65
unfolding new observe_all observe serve open_new open_unless opened created deliver deliver_to
    refusal open_session_count count_open find_key set_key set_at or_zero new_session reuse warn
    del_key starts_new starts_new_connection is_open eq_key eq_text eq_endpoint normalize
    le_endpoint lt_text assign_roles roles Session.observe noted note_count note_handshake note_end
    note_payload note_closed streams is_ended is_from_client key_of Direction.observe lend feed
    stream_of new_direction insert byte_at Direction.note_packet Space.new Space.extend
    Direction.if_payload Direction.observe_payload Direction.data_start Direction.note_truncated
    is_some insert_all limit_segments accept_ranges walk overlapping ◌+ℤ◌ ◌-ℤ◌ grant sum_lengths
    Budget.remaining Budget.take Session.shared_of insert_interval classify interval_of store
    prior_frames eq_ℤ Space.project mod_ℤ ranges_bounds note_duplicates add_frame repeats_frame
    first_index bisect_left step_back scan walk_end
sent = refl

observe_all-bytes_stay_example :
    let e = observe_all digest digest digest [] config (new config) packets in
    byte_of (observe_all digest digest digest [] config e packets) 0 true (pos 1) ≡ some 65
observe_all-bytes_stay_example =
    observe_all-bytes_stay digest digest digest [] config packets packets 0 true (pos 1) 65 sent
