-- ===== src/Protocols/Framing.antt =====
-- protocols/framing.py: record headers, handshake identification and the record probe.
pub mod Headers
pub mod Probe
use securemailscope.Base.{
  ℕ, ◌+◌, ◌-◌, ◌*◌, ◌<◌, Bool, not, ◌&&◌, ◌||◌, List, [], ◌∷◌, Option, none, some, length, get_or,
  lookup, ltb, ◌==◌, if◌then◌else◌,
}
use securemailscope.Evidence.{PacketReference, EvidenceStatus}

pub data TlsContentType : Type 0 where
  change_cipher_spec alert handshake application_data : TlsContentType

pub data HandshakeName : Type 0 where
  hello_request client_hello server_hello new_session_ticket encrypted_extensions : HandshakeName
  certificate server_key_exchange certificate_request server_hello_done : HandshakeName
  certificate_verify client_key_exchange finished : HandshakeName

pub data TlsFramingEvidence : Type 0 where
  handshake_client_hello handshake_server_hello handshake_record : TlsFramingEvidence
  record_chain single_record_header truncated_record : TlsFramingEvidence

abbrev pub record_header_size : ℕ
record_header_size = 5

abbrev pub max_record_bytes : ℕ
max_record_bytes = 18432

unfoldable pub content_types : List (ℕ × TlsContentType)
content_types =
    (20, change_cipher_spec) ∷ (21, alert) ∷ (22, handshake) ∷ (23, application_data) ∷ []

unfoldable pub handshake_types : List (ℕ × HandshakeName)
handshake_types =
    (0, hello_request)
    ∷ (1, client_hello)
    ∷ (2, server_hello)
    ∷ (4, new_session_ticket)
    ∷ (8, encrypted_extensions)
    ∷ (11, certificate)
    ∷ (12, server_key_exchange)
    ∷ (13, certificate_request)
    ∷ (14, server_hello_done)
    ∷ (15, certificate_verify)
    ∷ (16, client_key_exchange)
    ∷ (20, finished)
    ∷ []

-- The version is the text "0x03.." of the two bytes; the minor one is kept.
pub record RecordHeader : Type 0 where
  pub content_type : ℕ
  pub name : TlsContentType
  pub minor : ℕ
  pub declared : ℕ

checked_header : ℕ → ℕ → ℕ → ℕ → Option TlsContentType → Option RecordHeader
checked_header type major minor declared none = none
checked_header type major minor declared (some name) =
    if not (major == 3) || ltb 4 minor
    then none
    else if declared == 0 || ltb max_record_bytes declared
    then none
    else some (record { content_type = type; name = name; minor = minor; declared = declared })

unfoldable pub classify_record_header : List ℕ → Option RecordHeader
unfolding checked_header content_types
classify_record_header window =
    let at = λ (i : ℕ). get_or window i 0 in
    if ltb (length window) record_header_size
    then none
    else checked_header (at 0) (at 1) (at 2) (at 3 * 256 + at 4) (lookup (at 0) content_types)

named_handshake : ℕ → ℕ → ℕ → Option HandshakeName → Option (ℕ × HandshakeName)
named_handshake type inner declared none = none
named_handshake type inner declared (some name) =
    if ltb declared (inner + 4) then none else some (type, name)

-- `inner_length > declared_length - 4` over integers is `declared_length < inner_length + 4`.
unfoldable pub identify_handshake : List ℕ → ℕ → Option (ℕ × HandshakeName)
unfolding named_handshake handshake_types
identify_handshake body declared =
    let at = λ (i : ℕ). get_or body i 0 in
    if ltb (length body) 4
    then none
    else named_handshake (at 0) (at 1 * 65536 + at 2 * 256 + at 3) declared
        (lookup (at 0) handshake_types)

-- `_grade` of tls/records.py, and the same chain of tests inside `probe_tls_records`.
unfoldable pub grade : Option (ℕ × HandshakeName) → ℕ → Bool → TlsFramingEvidence
grade (some (type, client_hello)) position complete = handshake_client_hello
grade (some (type, server_hello)) position complete = handshake_server_hello
grade (some (type, _)) position complete = handshake_record
grade none position complete =
    if ltb 0 position
    then record_chain
    else if not complete
    then truncated_record
    else single_record_header

-- models/protocol.py, TLSRecordObservation, without the texts.
pub record RecordObservation : Type 0 where
  pub stream_offset : ℕ
  pub end_offset : ℕ
  pub header : RecordHeader
  pub bytes_available : ℕ
  pub complete : Bool
  pub message : Option (ℕ × HandshakeName)
  pub evidence : TlsFramingEvidence
  pub status : EvidenceStatus
  pub packets : List PacketReference
  pub record_index : Option ℕ
  pub ambiguous : Bool

-- `identify_handshake` is asked only about handshake records.
unfoldable pub message_of : TlsContentType → List ℕ → ℕ → Option (ℕ × HandshakeName)
unfolding identify_handshake
message_of handshake body declared = identify_handshake body declared
message_of _ body declared = none
