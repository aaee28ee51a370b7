-- ===== src/Evidence.antt =====
-- models/evidence.py and models/tcp.py: packet references, statuses and diagnostic codes.
use securemailscope.Base.{ℕ, List, [], ◌∷◌, ltb, ◌==◌, if◌then◌else◌}

pub data Direction : Type 0 where
  client_to_server server_to_client : Direction

-- `timestamp` is computed from `timestamp_ns` and is left out.
pub record PacketReference : Type 0 where
  pub packet_number : ℕ
  pub timestamp_ns : ℕ

pub data EvidenceStatus : Type 0 where
  observed inferred unknown not_available : EvidenceStatus

-- The codes that the modelled code hands to `WarningSink.add`; texts and details are left out.
pub data WarningCode : Type 0 where
  truncated_capture_file unsupported_link_type truncated_packet_data : WarningCode
  midstream_session no_termination_observed tuple_reuse sequence_gap : WarningCode
  overlap_conflict acked_data_not_captured protocol_gap_in_dialogue : WarningCode
  protocol_ambiguous_bytes tls_record_truncated tls_record_malformed : WarningCode
  tls_record_alignment_lost tls_record_ambiguous tls_handshake_message_incomplete : WarningCode
  limit_packet_bytes limit_total_payload_bytes limit_session_payload_bytes : WarningCode
  limit_concurrent_sessions limit_total_sessions limit_segments_per_direction : WarningCode
  limit_line_bytes limit_tls_records limit_tls_record_bytes : WarningCode
  limit_tls_handshake_messages limit_protocol_events limit_message_body_bytes : WarningCode
  protocol_desynchronised protocol_unsolicited_reply plaintext_authentication_observed : WarningCode
  upgrade_accepted_without_tls_bytes tls_framing_weak_evidence : WarningCode
  upgrade_request_without_response : WarningCode

-- `seen.setdefault(ref.packet_number, ref)` on a dict that is read in the order of its keys.
unfoldable pub add_ref : PacketReference → List PacketReference → List PacketReference
add_ref ref [] = ref ∷ []
add_ref ref (x ∷ xs) =
    if ref.packet_number == x.packet_number
    then x ∷ xs
    else if ltb ref.packet_number x.packet_number
    then ref ∷ x ∷ xs
    else x ∷ add_ref ref xs

unfoldable pub add_refs : List PacketReference → List PacketReference → List PacketReference
unfolding add_ref
add_refs [] seen = seen
add_refs (ref ∷ refs) seen = add_refs refs (add_ref ref seen)
