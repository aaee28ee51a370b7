-- ===== src/Network/Sessions/Finalize.antt =====
-- `_SessionState.finalize`: how complete a connection is, and the result it is reported by. The
-- assertion that a packet was seen is the `none` of the result.
use securemailscope.Base.{
  ℕ, ◌≡◌, refl, sym, subst₂, Bool, true, false, ◌&&◌, ◌||◌, not, List, [], ◌∷◌, ◌++◌, Option, none,
  some, lookup, if◌then◌else◌,
}
use securemailscope.Evidence.{PacketReference, WarningCode}
use securemailscope.Network.Flows.{Text}
use securemailscope.Network.Reassembly.Directional.Finalize.{DirectionalStream}
use securemailscope.Network.Reassembly.Directional.Finalize as Direction
use securemailscope.Network.Sessions.{SessionState, TcpFlow, Shared}
use securemailscope.Network.Sessions.Observe.{
  TerminationReason, fin_one_direction, not_observed, termination, lend,
}

pub data SessionCompleteness : Type 0 where
  truncated midstream partial complete : SessionCompleteness

-- The notes of completeness_notes, whose texts are left out.
pub data Note : Type 0 where
  limit_reached no_syn no_syn_ack has_gaps termination_unseen conflicting_overlaps : Note

-- The services of EMAIL_SERVICE_PORTS, protocols/hints.py.
pub data Service : Type 0 where
  smtp pop3 imap smtps submission imaps pop3s alternate_submission : Service

abbrev email_service_ports : List (ℕ × Service)
email_service_ports =
    (25, smtp)
    ∷ (110, pop3)
    ∷ (143, imap)
    ∷ (465, smtps)
    ∷ (587, submission)
    ∷ (993, imaps)
    ∷ (995, pop3s)
    ∷ (2525, alternate_submission)
    ∷ []

-- hint_for_port
unfoldable pub hint_for_port : ℕ → Option Service
hint_for_port port = lookup port email_service_ports

pub record HandshakeInfo : Type 0 where
  pub syn_observed : Bool
  pub syn_ack_observed : Bool
  pub ack_observed : Bool
  pub client_isn : Option ℕ
  pub server_isn : Option ℕ
  pub syn_packet : Option PacketReference
  pub syn_ack_packet : Option PacketReference

pub record TerminationInfo : Type 0 where
  pub reason : TerminationReason
  pub client_fin : Option PacketReference
  pub server_fin : Option PacketReference
  pub reset_packet : Option PacketReference

pub record TcpSession : Type 0 where
  pub session_id : Text
  pub flow : TcpFlow
  pub flow_instance : ℕ
  pub first_packet : PacketReference
  pub last_packet : PacketReference
  pub packet_count : ℕ
  pub handshake : HandshakeInfo
  pub termination : TerminationInfo
  pub completeness : SessionCompleteness
  pub completeness_notes : List Note
  pub client_to_server : DirectionalStream
  pub server_to_client : DirectionalStream
  pub protocol_hint : Option Service

unfoldable pub is_empty {ℓ} : {A : Type ℓ} → List A → Bool
is_empty [] = true
is_empty (x ∷ xs) = false

note_if : Bool → Note → List Note
note_if true note = note ∷ []
note_if false note = []

unfoldable pub is_unended : TerminationReason → Bool
is_unended not_observed = true
is_unended fin_one_direction = true
is_unended _ = false

unfoldable pub is_truncated : DirectionalStream → DirectionalStream → Bool
is_truncated c2s s2c = c2s.truncated_by_limit || s2c.truncated_by_limit

unfoldable pub gaps_seen : DirectionalStream → DirectionalStream → Bool
gaps_seen c2s s2c = not (is_empty c2s.gaps) || not (is_empty s2c.gaps)

unfoldable pub conflicts_seen : DirectionalStream → DirectionalStream → Bool
conflicts_seen c2s s2c =
    not (is_empty c2s.overlap_conflicts) || not (is_empty s2c.overlap_conflicts)

-- The notes behind the first one.
unfoldable pub later_notes : SessionState → DirectionalStream → DirectionalStream → List Note
unfolding note_if is_unended gaps_seen conflicts_seen
later_notes s c2s s2c =
    note_if (not s.syn_ack_observed && s.syn_observed) no_syn_ack
    ++ (note_if (gaps_seen c2s s2c) has_gaps
        ++ (note_if (is_unended (termination s)) termination_unseen
            ++ note_if (conflicts_seen c2s s2c) conflicting_overlaps))

unfoldable pub completeness :
    SessionState → DirectionalStream → DirectionalStream → SessionCompleteness × List Note
unfolding is_truncated
completeness s c2s s2c =
    let later = later_notes s c2s s2c in
    if is_truncated c2s s2c
    then (truncated, limit_reached ∷ later)
    else if not s.syn_observed
    then (midstream, no_syn ∷ later)
    else (if is_empty later then complete else partial, later)

is_midstream : SessionCompleteness → Bool
is_midstream midstream = true
is_midstream _ = false

is_not_observed : TerminationReason → Bool
is_not_observed not_observed = true
is_not_observed _ = false

unfoldable pub final_warnings :
    SessionCompleteness → TerminationReason → List WarningCode → List WarningCode
unfolding is_midstream is_not_observed
final_warnings c reason warnings =
    let noted = if is_midstream c then WarningCode.midstream_session ∷ warnings else warnings in
    if is_not_observed reason then WarningCode.no_termination_observed ∷ noted else noted

module _ (sha256 : List ℕ → List ℕ) (max_gaps : ℕ) where
  -- The result for a connection with a first and a last packet.
  session_of :
      SessionState
      → DirectionalStream
      → DirectionalStream
      → Option PacketReference
      → Option PacketReference
      → Option TcpSession
  session_of s c2s s2c (some first) (some last) =
      let (how, notes) = completeness s c2s s2c in
      some (record {
        session_id = s.session_id;
        flow = s.flow;
        flow_instance = s.flow_instance;
        first_packet = first;
        last_packet = last;
        packet_count = s.packet_count;
        handshake = record {
          syn_observed = s.syn_observed;
          syn_ack_observed = s.syn_ack_observed;
          ack_observed = s.handshake_ack_observed;
          client_isn = s.client_isn;
          server_isn = s.server_isn;
          syn_packet = s.syn_packet;
          syn_ack_packet = s.syn_ack_packet;
        };
        termination = record {
          reason = termination s;
          client_fin = s.client_fin;
          server_fin = s.server_fin;
          reset_packet = s.reset_packet;
        };
        completeness = how;
        completeness_notes = notes;
        client_to_server = c2s;
        server_to_client = s2c;
        protocol_hint = hint_for_port s.flow.server.port;
      })
  session_of s c2s s2c _ _ = none

  -- The directions are finalized one behind the other, into the one warning sink.
  unfoldable pub finalize : SessionState → Shared → Option TcpSession × Shared
  unfolding session_of
  finalize s shared =
      let (c2s, warnings) = Direction.finalize sha256 max_gaps (lend s.budget shared s.c2s) in
      let shared' = record shared { warnings = warnings } in
      let (s2c, warnings') = Direction.finalize sha256 max_gaps (lend s.budget shared' s.s2c) in
      (
        session_of s c2s s2c s.first_packet s.last_packet,
        record shared {
          warnings = final_warnings (completeness s c2s s2c).0 (termination s) warnings';
        },
      )

-- The result of a connection that has a packet.
pub record IsResult (s : SessionState) (ref : PacketReference) (o : Option TcpSession)
    : Type 0 where
  pub session : TcpSession
  pub is_some : o ≡ some session
  pub first_packet : session.first_packet ≡ ref
  pub session_id : session.session_id ≡ s.session_id

module _ (sha256 : List ℕ → List ℕ) (max_gaps : ℕ) where
  session_of-IsResult :
      (s : SessionState) (c2s s2c : DirectionalStream) (ref last : PacketReference)
      → IsResult s ref (session_of sha256 max_gaps s c2s s2c (some ref) (some last))
  unfolding session_of
  session_of-IsResult s c2s s2c ref last = record {
    session = _;
    is_some = refl;
    first_packet = refl;
    session_id = refl;
  }

  pub finalize-IsResult :
      (s : SessionState) (shared : Shared) (ref last : PacketReference)
      → s.first_packet ≡ some ref
      → s.last_packet ≡ some last
      → IsResult s ref (finalize sha256 max_gaps s shared).0
  unfolding finalize
  finalize-IsResult s shared ref last f l =
      let (c2s, warnings) = Direction.finalize sha256 max_gaps (lend s.budget shared s.c2s) in
      let shared' = record shared { warnings = warnings } in
      let (s2c, _) = Direction.finalize sha256 max_gaps (lend s.budget shared' s.s2c) in
      subst₂ (λ x y. IsResult s ref (session_of sha256 max_gaps s c2s s2c x y)) (sym f) (sym l)
        (session_of-IsResult s c2s s2c ref last)
