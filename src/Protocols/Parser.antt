-- ===== src/Protocols/Parser.antt =====
-- protocols/base.py: ProtocolParser, the machinery that the SMTP and POP3 parsers share. The protocol
-- and the mechanism, which are constants of a parser, and the texts of events are left out.
pub mod Reported
use securemailscope.Base.{
  ℕ, ◌+◌, Bool, true, false, ◌&&◌, ◌||◌, not, List, [], ◌∷◌, ◌++◌, Option, none, some, length, any,
  leb, ◌==◌, if◌then◌else◌,
}
use securemailscope.Evidence.{Direction, PacketReference, EvidenceStatus, WarningCode}
use securemailscope.Network.Flows.{Text}
use securemailscope.Protocols.Cursor.{StreamLine}

pub data ProtocolEventType : Type 0 where
  server_greeting client_command server_reply capability_advertisement : ProtocolEventType
  upgrade_advertised upgrade_requested upgrade_accepted upgrade_rejected : ProtocolEventType
  upgrade_temporary_failure authentication_command authentication_continuation : ProtocolEventType
  message_body_skipped literal_skipped multiline_response_skipped : ProtocolEventType
  session_termination tls_record_observed gap_encountered incomplete_record : ProtocolEventType
  parse_desynchronised : ProtocolEventType

pub data UpgradeState : Type 0 where
  plaintext upgrade_advertised upgrade_requested upgrade_accepted upgrade_rejected : UpgradeState
  tls_bytes_observed incomplete unknown : UpgradeState

pub data ParseState : Type 0 where
  complete incomplete indeterminate handed_off_to_tls not_applicable : ParseState

-- upgrade_outcome
pub data Outcome : Type 0 where
  accepted rejected temporary : Outcome

-- models/protocol.py, ProtocolEvent
pub record ProtocolEvent : Type 0 where
  pub event_type : ProtocolEventType
  pub direction : Direction
  pub stream_offset : ℕ
  pub end_offset : ℕ
  pub packet_refs : List PacketReference
  pub status : EvidenceStatus
  pub command_verb : Option Text
  pub reply_code : Option Text
  pub tag : Option Text
  pub capabilities : List Text
  pub byte_count : Option ℕ
  pub complete : Bool
  pub ambiguous : Bool

-- The keyword arguments of `add_event`.
pub record Details : Type 0 where
  pub status : EvidenceStatus
  pub command_verb : Option Text
  pub reply_code : Option Text
  pub tag : Option Text
  pub capabilities : List Text
  pub byte_count : Option ℕ
  pub end_offset : Option ℕ

-- Their defaults.
abbrev pub plain : Details
plain = record {
  status = EvidenceStatus.observed;
  command_verb = none;
  reply_code = none;
  tag = none;
  capabilities = [];
  byte_count = none;
  end_offset = none;
}

pub record PendingCommand : Type 0 where
  pub verb : Text
  pub line : StreamLine
  pub is_upgrade : Bool
  pub is_auth : Bool
  pub mechanism : Option Text

pub record AuthenticationObservation : Type 0 where
  pub command_verb : Text
  pub mechanism : Option Text
  pub direction : Direction
  pub stream_offset : ℕ
  pub packet_refs : List PacketReference
  pub occurred_before_tls_upgrade : Bool
  pub upgrade_state_at_attempt : UpgradeState
  pub continuation_exchanges : ℕ

-- `warnings` are what the parser added to its sink, the latest first.
pub record ProtocolParser : Type 0 where
  pub events : List ProtocolEvent
  pub auth : List AuthenticationObservation
  pub pending : List PendingCommand
  pub greeting_observed : Bool
  pub matched_exchanges : ℕ
  pub recognised_commands : ℕ
  pub foreign_lines : ℕ
  pub events_suppressed : ℕ
  pub advertised_event : Option ProtocolEvent
  pub requested_event : Option ProtocolEvent
  pub response_event : Option ProtocolEvent
  pub response_code : Option Text
  pub upgrade_outcome : Option Outcome
  pub gap_during_negotiation : Bool
  pub upgrade_seen : Bool
  pub gap_seen : Bool
  pub client_plaintext_end : Option ℕ
  pub server_plaintext_end : Option ℕ
  pub state : ParseState
  pub warnings : List WarningCode

-- ProtocolParser.__init__
unfoldable pub new : ProtocolParser
new = record {
  events = [];
  auth = [];
  pending = [];
  greeting_observed = false;
  matched_exchanges = 0;
  recognised_commands = 0;
  foreign_lines = 0;
  events_suppressed = 0;
  advertised_event = none;
  requested_event = none;
  response_event = none;
  response_code = none;
  upgrade_outcome = none;
  gap_during_negotiation = false;
  upgrade_seen = false;
  gap_seen = false;
  client_plaintext_end = none;
  server_plaintext_end = none;
  state = not_applicable;
  warnings = [];
}

-- StreamLine.usable
unfoldable pub usable : StreamLine → Bool
usable line = line.complete && (not line.ambiguous && not line.truncated)

unfoldable pub or_default : Option ℕ → ℕ → ℕ
or_default none n = n
or_default (some m) n = m

unfoldable pub event_of : ProtocolEventType → Direction → StreamLine → Details → ProtocolEvent
unfolding or_default
event_of event_type direction line details = record {
  event_type = event_type;
  direction = direction;
  stream_offset = line.start_offset;
  end_offset = or_default details.end_offset line.end_offset;
  packet_refs = line.packets;
  status = details.status;
  command_verb = details.command_verb;
  reply_code = details.reply_code;
  tag = details.tag;
  capabilities = details.capabilities;
  byte_count = details.byte_count;
  complete = line.complete && not line.truncated;
  ambiguous = line.ambiguous;
}

unfoldable pub warn : ProtocolParser → WarningCode → ProtocolParser
warn p code = record p { warnings = code ∷ p.warnings }

-- An event behind the limit is only counted.
unfoldable pub suppress : ProtocolParser → ProtocolParser
unfolding warn
suppress p =
    let warned = if p.events_suppressed == 0 then warn p WarningCode.limit_protocol_events else p in
    record warned { events_suppressed = p.events_suppressed + 1 }

unfoldable pub is_some {ℓ} : {A : Type ℓ} → Option A → Bool
is_some none = false
is_some (some a) = true

module _ (max_events : ℕ) where
  unfoldable pub add_event :
      ProtocolParser
      → ProtocolEventType
      → Direction
      → StreamLine
      → Details
      → Option ProtocolEvent × ProtocolParser
  unfolding suppress
  add_event p event_type direction line details =
      let event = event_of event_type direction line details in
      if leb max_events (length p.events)
      then (none, suppress p)
      else (some event, record p { events = p.events ++ (event ∷ []) })

  -- An event whose value is not used.
  unfoldable pub record_event :
      ProtocolParser → ProtocolEventType → Direction → StreamLine → Details → ProtocolParser
  unfolding add_event
  record_event p event_type direction line details =
      (add_event p event_type direction line details).1

  -- A hole in front of a line: what was outstanding is not matched any more.
  unfoldable pub drop_pending : ProtocolParser → List PendingCommand → ProtocolParser
  unfolding warn
  drop_pending p [] = p
  drop_pending p (command ∷ commands) =
      warn
        (record p {
          gap_during_negotiation =
              p.gap_during_negotiation || any (λ c. c.is_upgrade) (command ∷ commands);
          pending = [];
        })
        WarningCode.protocol_desynchronised

  -- note_gap
  unfoldable pub note_gap : ProtocolParser → Direction → StreamLine → ProtocolParser
  unfolding record_event drop_pending
  note_gap p direction line =
      let p' =
        record_event (record p { gap_seen = true }) ProtocolEventType.gap_encountered direction line
          (record plain { end_offset = some line.start_offset }) in
      drop_pending p' p'.pending

-- mark_negotiation_unsafe
unfoldable pub mark_negotiation_unsafe : ProtocolParser → ProtocolParser
mark_negotiation_unsafe p = record p { gap_during_negotiation = true }

outcome_state : Option Outcome → Bool → Bool → UpgradeState
outcome_state (some accepted) requested advertised = upgrade_accepted
outcome_state (some rejected) requested advertised = upgrade_rejected
outcome_state (some temporary) requested advertised = upgrade_rejected
outcome_state none true advertised = upgrade_requested
outcome_state none false true = upgrade_advertised
outcome_state none false false = plaintext

-- _upgrade_state
unfoldable pub upgrade_state : ProtocolParser → UpgradeState
unfolding outcome_state
upgrade_state p =
    if p.gap_during_negotiation && is_some p.requested_event
    then incomplete
    else outcome_state p.upgrade_outcome (is_some p.requested_event) (is_some p.advertised_event)

unfoldable pub is_upgraded : UpgradeState → Bool
is_upgraded upgrade_accepted = true
is_upgraded tls_bytes_observed = true
is_upgraded _ = false

unfoldable pub auth_observation :
    ProtocolParser → Direction → StreamLine → Text → Option Text → AuthenticationObservation
auth_observation p direction line verb mechanism = record {
  command_verb = verb;
  mechanism = mechanism;
  direction = direction;
  stream_offset = line.start_offset;
  packet_refs = line.packets;
  occurred_before_tls_upgrade = not (is_upgraded (upgrade_state p));
  upgrade_state_at_attempt = upgrade_state p;
  continuation_exchanges = 0;
}

-- record_auth
unfoldable pub record_auth :
    ProtocolParser → Direction → StreamLine → Text → Option Text → ProtocolParser
unfolding warn
record_auth p direction line verb mechanism =
    let p' =
      if is_upgraded (upgrade_state p)
      then p
      else warn p WarningCode.plaintext_authentication_observed in
    record p' { auth = p.auth ++ (auth_observation p direction line verb mechanism ∷ []) }

-- self.auth[-1] = last.model_copy(update={"continuation_exchanges": n}), if there is one and n > 0
unfoldable pub set_last : ℕ → List AuthenticationObservation → List AuthenticationObservation
set_last n [] = []
set_last n (a ∷ []) = record a { continuation_exchanges = n } ∷ []
set_last n (a ∷ b ∷ auth) = a ∷ set_last n (b ∷ auth)

unfoldable pub note_continuations : ProtocolParser → ℕ → ProtocolParser
note_continuations p n = if n == 0 then p else record p { auth = set_last n p.auth }

-- halt_plaintext; the cursors that it stops are not read again.
unfoldable pub halt_plaintext : ProtocolParser → ProtocolParser
halt_plaintext p = record p {
  client_plaintext_end = elim (p.requested_event) [ none ↦ none | some e ↦ some e.end_offset ];
  server_plaintext_end = elim (p.response_event) [ none ↦ none | some e ↦ some e.end_offset ];
}
