-- ===== src/Network/Sessions/Observe.antt =====
-- `_SessionState.observe`, and how the session ended.
pub mod Kept
pub mod Stores
use securemailscope.Base.{
  ℕ, ◌+◌, Bool, true, false, ◌&&◌, ◌||◌, not, List, [], ◌∷◌, Option, none, some, if◌then◌else◌,
}
use securemailscope.Evidence.{PacketReference}
use securemailscope.Network.ByteBudget as Budget
use securemailscope.Network.Flows.{eq_endpoint}
use securemailscope.Network.Reassembly.Directional.{DirectionalReassembler, is_some}
use securemailscope.Network.Reassembly.Directional.Observe as Direction
use securemailscope.Network.Sessions.{Packet, AnalysisConfig, Shared, SessionState}

unfoldable pub is_from_client : SessionState → Packet → Bool
is_from_client s packet = eq_endpoint packet.source s.flow.client

-- `if known is None: known = ref`
unfoldable pub first_of {ℓ} : {A : Type ℓ} → Option A → A → Option A
first_of none a = some a
first_of (some known) a = some known

unfoldable pub note_count : SessionState → PacketReference → SessionState
note_count s ref = record s {
  packet_count = s.packet_count + 1;
  first_packet = first_of s.first_packet ref;
  last_packet = some ref;
}

note_syn : SessionState → ℕ → PacketReference → SessionState
note_syn s seq ref =
    if s.syn_observed
    then s
    else record s { syn_observed = true; client_isn = some seq; syn_packet = some ref }

note_syn_ack : SessionState → ℕ → PacketReference → SessionState
note_syn_ack s seq ref =
    if s.syn_ack_observed
    then s
    else record s { syn_ack_observed = true; server_isn = some seq; syn_ack_packet = some ref }

unfoldable pub note_handshake : SessionState → Bool → Packet → PacketReference → SessionState
unfolding note_syn note_syn_ack
note_handshake s from_client packet ref =
    let syn = packet.segment.syn in
    let acknowledges =
      packet.ack_flag && (from_client && (s.syn_ack_observed && not s.handshake_ack_observed)) in
    if syn && not packet.ack_flag
    then note_syn s packet.segment.seq ref
    else if syn && packet.ack_flag
    then note_syn_ack s packet.segment.seq ref
    else if acknowledges
    then record s { handshake_ack_observed = true }
    else s

note_fin : SessionState → Bool → PacketReference → SessionState
note_fin s true ref = record s { client_fin = first_of s.client_fin ref }
note_fin s false ref = record s { server_fin = first_of s.server_fin ref }

unfoldable pub note_end : SessionState → Bool → Packet → PacketReference → SessionState
unfolding note_fin
note_end s from_client packet ref =
    let s' = if packet.segment.fin then note_fin s from_client ref else s in
    if packet.segment.rst then record s' { reset_packet = first_of s'.reset_packet ref } else s'

has_payload : List ℕ → Bool
has_payload [] = false
has_payload (_ ∷ _) = true

unfoldable pub note_payload : SessionState → Packet → SessionState
unfolding has_payload
note_payload s packet = record s {
  saw_payload = has_payload packet.segment.payload || s.saw_payload;
}

-- What `observe` notes in front of the streams.
unfoldable pub noted : SessionState → Bool → Packet → PacketReference → SessionState
noted s from_client packet ref =
    note_payload
      (note_end (note_handshake (note_count s ref) from_client packet ref) from_client packet ref)
      packet

-- The two directions of a connection share its budget, and all share the global one: a direction
-- is lent them for a packet, and they are read back from it.
unfoldable pub lend : Budget.ByteBudget → Shared → DirectionalReassembler → DirectionalReassembler
lend budget shared d = record d {
  limits = record d.limits {
    session_budget = budget;
    global_budget = shared.global_budget;
    warnings = shared.warnings;
  };
}

unfoldable pub shared_of : DirectionalReassembler → Shared
shared_of d = record { global_budget = d.limits.global_budget; warnings = d.limits.warnings }

-- peer.note_peer_ack(packet.ack)
unfoldable pub acknowledged : DirectionalReassembler → Packet → DirectionalReassembler
acknowledged d packet = if packet.ack_flag then Direction.note_peer_ack d packet.ack else d

-- stream.observe raised: nothing behind it runs.
unfoldable pub broken_off : SessionState → Bool → DirectionalReassembler → SessionState
broken_off s true stream = record s { c2s = stream; budget = stream.limits.session_budget }
broken_off s false stream = record s { s2c = stream; budget = stream.limits.session_budget }

unfoldable pub streams : SessionState → Bool → DirectionalReassembler → Packet → SessionState
unfolding acknowledged
streams s true stream packet = record s {
  c2s = stream;
  s2c = acknowledged s.s2c packet;
  budget = stream.limits.session_budget;
}
streams s false stream packet = record s {
  s2c = stream;
  c2s = acknowledged s.c2s packet;
  budget = stream.limits.session_budget;
}

unfoldable pub stream_of : SessionState → Bool → DirectionalReassembler
stream_of s true = s.c2s
stream_of s false = s.s2c

unfoldable pub is_ended : SessionState → Bool
is_ended s = is_some s.reset_packet || (is_some s.client_fin && is_some s.server_fin)

unfoldable pub note_closed : SessionState → SessionState
unfolding is_ended
note_closed s = record s { closed = is_ended s || s.closed }

module _ (sha256 blake2b : List ℕ → List ℕ) (config : AnalysisConfig) where
  -- stream.observe(packet, ref)
  unfoldable pub feed :
      SessionState → Shared → Bool → Packet → PacketReference → DirectionalReassembler
  unfolding lend stream_of
  feed s shared from_client packet ref =
      Direction.observe sha256 blake2b config.max_segments_per_direction
        (lend s.budget shared (stream_of s from_client)) packet.segment ref

  unfoldable pub observe : SessionState → Shared → Packet → PacketReference → SessionState × Shared
  unfolding feed is_from_client
  observe s shared packet ref =
      let from_client = is_from_client s packet in
      let s' = noted s from_client packet ref in
      let stream = feed s' shared from_client packet ref in
      (
        if stream.raised
            then broken_off s' from_client stream
            else note_closed (streams s' from_client stream packet),
        shared_of stream,
      )

pub data TerminationReason : Type 0 where
  reset fin_both_directions fin_one_direction not_observed : TerminationReason

-- The `reason` of `_termination`.
unfoldable pub termination : SessionState → TerminationReason
termination s =
    let client = is_some s.client_fin in
    let server = is_some s.server_fin in
    if is_some s.reset_packet
    then reset
    else if client && server
    then fin_both_directions
    else if client || server
    then fin_one_direction
    else not_observed
