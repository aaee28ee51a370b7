-- ===== src/Tls/Handshake/Messages.antt =====
-- `parse_messages`: the handshake buffer of a direction split into messages.
pub mod RoundTrip
use Prim.Native.String.{String}
use securemailscope.Base.{
  ℕ, zero, suc, ◌+◌, ◌-◌, ◌*◌, Bool, not, List, [], ◌∷◌, ◌++◌, Option, length, get_or, slice,
  lookup, min, ltb, leb, if◌then◌else◌,
}
use securemailscope.Evidence.{
  EvidenceStatus, observed, inferred, WarningCode, limit_tls_handshake_messages,
  tls_handshake_message_incomplete,
}
use securemailscope.Tls.Handshake.Stream.{HandshakeStream, Place, locate}

-- HANDSHAKE_TYPE_NAMES
unfoldable pub handshake_type_names : List (ℕ × String)
handshake_type_names =
    (0, "hello_request")
    ∷ (1, "client_hello")
    ∷ (2, "server_hello")
    ∷ (4, "new_session_ticket")
    ∷ (5, "end_of_early_data")
    ∷ (8, "encrypted_extensions")
    ∷ (11, "certificate")
    ∷ (12, "server_key_exchange")
    ∷ (13, "certificate_request")
    ∷ (14, "server_hello_done")
    ∷ (15, "certificate_verify")
    ∷ (16, "client_key_exchange")
    ∷ (20, "finished")
    ∷ (24, "key_update")
    ∷ (254, "message_hash")
    ∷ []

-- The observation and the body; a missing name is the text f"unknown_{message_type}".
pub record HandshakeMessage : Type 0 where
  pub message_type : ℕ
  pub type_name : Option String
  pub place : Place
  pub declared_length : ℕ
  pub available_length : ℕ
  pub complete : Bool
  pub spans_records : Bool
  pub status : EvidenceStatus
  pub body : List ℕ

unfoldable pub declared_at : List ℕ → ℕ → ℕ
declared_at bytes p =
    get_or bytes (p + 1) 0 * 65536 + get_or bytes (p + 2) 0 * 256 + get_or bytes (p + 3) 0

-- The message whose header stands at a position that has four bytes left.
unfoldable pub message_at : HandshakeStream → ℕ → HandshakeMessage
unfolding declared_at handshake_type_names
message_at s p =
    let bytes = s.buffer in
    let type = get_or bytes p 0 in
    let declared = declared_at bytes p in
    let available = length bytes - (p + 4) in
    let body = slice bytes (p + 4) (p + 4 + min declared available) in
    let place = locate s p (4 + min declared available) in
    record {
      message_type = type;
      type_name = lookup type handshake_type_names;
      place = place;
      declared_length = declared;
      available_length = length body;
      complete = leb declared available;
      spans_records = ltb 1 (length place.records);
      status = if leb declared available then observed else inferred;
      body = body;
    }

module _ (s : HandshakeStream) (warn_incomplete : Bool) where
  incomplete : HandshakeMessage → List HandshakeMessage × List WarningCode
  incomplete m = (m ∷ [], if not warn_incomplete then [] else tls_handshake_message_incomplete ∷ [])

  in_front :
      HandshakeMessage
      → List HandshakeMessage × List WarningCode
      → List HandshakeMessage × List WarningCode
  in_front m (ms, ws) = (m ∷ ms, ws)

  -- `left` is max_tls_handshake_messages less the messages so far.
  unfoldable pub messages_from : ℕ → ℕ → List HandshakeMessage × List WarningCode
  unfolding incomplete in_front
  messages_from zero p =
      if ltb (length s.buffer) (p + 4) then ([], []) else ([], limit_tls_handshake_messages ∷ [])
  messages_from (suc left) p =
      let m = message_at s p in
      let rest = messages_from left (p + 4 + m.declared_length) in
      if ltb (length s.buffer) (p + 4)
      then ([], [])
      else if not m.complete
      then incomplete m
      else in_front m rest

unfoldable pub parse_messages :
    HandshakeStream → ℕ → Bool → List HandshakeMessage × List WarningCode
unfolding messages_from
parse_messages s max_messages warn_incomplete = messages_from s warn_incomplete max_messages 0
