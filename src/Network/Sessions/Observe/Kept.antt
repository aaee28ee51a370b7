-- ===== src/Network/Sessions/Observe/Kept.antt =====
-- What a packet leaves of a connection.
use securemailscope.Base.{ℕ, ◌+◌, ◌≡◌, refl, Bool, true, false, List, some, arith, ◌∙◌, if_intro}
use securemailscope.Evidence.{PacketReference}
use securemailscope.Network.Reassembly.Directional.{DirectionalReassembler}
use securemailscope.Network.Sessions.{Packet, AnalysisConfig, Shared, SessionState}
use securemailscope.Network.Sessions.Observe.{
  first_of, note_count, note_handshake, note_syn, note_syn_ack, note_end, note_fin, note_payload,
  broken_off, streams, note_closed, is_from_client, noted, feed, observe,
}

-- The same connection `n` packets later, with at least what was known of it.
pub record Follows (n : ℕ) (s t : SessionState) : Type 0 where
  pub flow : t.flow ≡ s.flow
  pub flow_instance : t.flow_instance ≡ s.flow_instance
  pub session_id : t.session_id ≡ s.session_id
  pub packet_count : t.packet_count ≡ n + s.packet_count
  pub first_packet : (ref : PacketReference) → s.first_packet ≡ some ref → t.first_packet ≡ some ref
  pub stays_closed : s.closed ≡ true → t.closed ≡ true

Follows-trans :
    {m n : ℕ} {s t u : SessionState} → Follows m s t → Follows n t u → Follows (n + m) s u
Follows-trans {m} {n} f g = record {
  flow = g.flow ∙ f.flow;
  flow_instance = g.flow_instance ∙ f.flow_instance;
  session_id = g.session_id ∙ f.session_id;
  packet_count = omega (arith, f.packet_count, g.packet_count);
  first_packet = λ ref h. g.first_packet ref (f.first_packet ref h);
  stays_closed = λ h. g.stays_closed (f.stays_closed h);
}

note_count-Follows : (s : SessionState) (ref : PacketReference) → Follows 1 s (note_count s ref)
unfolding note_count first_of
note_count-Follows s ref = ground arith

note_handshake-Follows :
    (s : SessionState) (from_client : Bool) (packet : Packet) (ref : PacketReference)
    → Follows 0 s (note_handshake s from_client packet ref)
unfolding note_handshake note_syn note_syn_ack
note_handshake-Follows s from_client packet ref = ground arith

note_end-Follows :
    (s : SessionState) (from_client : Bool) (packet : Packet) (ref : PacketReference)
    → Follows 0 s (note_end s from_client packet ref)
unfolding note_end note_fin
note_end-Follows s true packet ref = ground arith
note_end-Follows s false packet ref = ground arith

note_payload-Follows : (s : SessionState) (packet : Packet) → Follows 0 s (note_payload s packet)
unfolding note_payload
note_payload-Follows s packet = ground arith

streams-Follows :
    (s : SessionState) (from_client : Bool) (d : DirectionalReassembler) (packet : Packet)
    → Follows 0 s (streams s from_client d packet)
unfolding streams
streams-Follows s true d packet = ground arith
streams-Follows s false d packet = ground arith

broken_off-Follows :
    (s : SessionState) (from_client : Bool) (d : DirectionalReassembler)
    → Follows 0 s (broken_off s from_client d)
unfolding broken_off
broken_off-Follows s true d = ground arith
broken_off-Follows s false d = ground arith

note_closed-Follows : (s : SessionState) → Follows 0 s (note_closed s)
unfolding note_closed
note_closed-Follows s = ground arith

noted-Follows :
    (s : SessionState) (from_client : Bool) (packet : Packet) (ref : PacketReference)
    → Follows 1 s (noted s from_client packet ref)
unfolding noted
noted-Follows s from_client packet ref =
    let counted = note_count s ref in
    let shaken = note_handshake counted from_client packet ref in
    let ended = note_end shaken from_client packet ref in
    Follows-trans (note_count-Follows s ref) (
      Follows-trans (note_handshake-Follows counted from_client packet ref) (
        Follows-trans (note_end-Follows shaken from_client packet ref)
          (note_payload-Follows ended packet)))

module _ (sha256 blake2b : List ℕ → List ℕ) (config : AnalysisConfig) where
  pub observe-Follows :
      (s : SessionState) (shared : Shared) (packet : Packet) (ref : PacketReference)
      → Follows 1 s (observe sha256 blake2b config s shared packet ref).0
  unfolding observe
  observe-Follows s shared packet ref =
      let from_client = is_from_client s packet in
      let before = noted s from_client packet ref in
      let stream = feed sha256 blake2b config before shared from_client packet ref in
      Follows-trans (noted-Follows s from_client packet ref) (
        if_intro (Follows 0 before) stream.raised
          (λ _. broken_off-Follows before from_client stream)
          (λ _.
            Follows-trans (streams-Follows before from_client stream packet)
              (note_closed-Follows (streams before from_client stream packet))))

noted-packets :
    (s : SessionState) (from_client : Bool) (packet : Packet) (ref : PacketReference)
    → ((noted s from_client packet ref).first_packet ≡ first_of s.first_packet ref)
      × ((noted s from_client packet ref).last_packet ≡ some ref)
unfolding noted note_count note_handshake note_syn note_syn_ack note_end note_fin note_payload
noted-packets s true packet ref = ground arith
noted-packets s false packet ref = ground arith

streams-packets :
    (s : SessionState) (from_client : Bool) (d : DirectionalReassembler) (packet : Packet)
    → ((note_closed (streams s from_client d packet)).first_packet ≡ s.first_packet)
      × ((note_closed (streams s from_client d packet)).last_packet ≡ s.last_packet)
unfolding streams note_closed
streams-packets s true d packet = (refl, refl)
streams-packets s false d packet = (refl, refl)

broken_off-packets :
    (s : SessionState) (from_client : Bool) (d : DirectionalReassembler)
    → ((broken_off s from_client d).first_packet ≡ s.first_packet)
      × ((broken_off s from_client d).last_packet ≡ s.last_packet)
unfolding broken_off
broken_off-packets s true d = (refl, refl)
broken_off-packets s false d = (refl, refl)

module _ (sha256 blake2b : List ℕ → List ℕ) (config : AnalysisConfig) where
  pub observe-packets :
      (s : SessionState) (shared : Shared) (packet : Packet) (ref : PacketReference)
      → let t = (observe sha256 blake2b config s shared packet ref).0 in
        (t.first_packet ≡ first_of s.first_packet ref) × (t.last_packet ≡ some ref)
  unfolding observe
  observe-packets s shared packet ref =
      let from_client = is_from_client s packet in
      let before = noted s from_client packet ref in
      let stream = feed sha256 blake2b config before shared from_client packet ref in
      let kept =
        if_intro
          (λ (t : SessionState).
            (t.first_packet ≡ before.first_packet) × (t.last_packet ≡ before.last_packet))
          stream.raised (λ _. broken_off-packets before from_client stream)
          (λ _. streams-packets before from_client stream packet) in
      let now = noted-packets s from_client packet ref in (kept.0 ∙ now.0, kept.1 ∙ now.1)
