-- ===== src/Network/Sessions/Observe/Stores.antt =====
-- The bytes that the two directions of a connection hold.
use securemailscope.Base.{ℕ, ◌≡◌, refl, subst, sym, Bool, true, false, List, some, arith, if_intro}
use securemailscope.Base.Int.{ℤ}
use securemailscope.Evidence.{PacketReference}
use securemailscope.Network.Reassembly.Intervals.{Interval}
use securemailscope.Network.Reassembly.Intervals.Bytes.{byte_at}
use securemailscope.Network.Reassembly.Directional.{DirectionalReassembler}
use securemailscope.Network.Reassembly.Directional.Observe as Direction
use securemailscope.Network.Reassembly.Directional.Packets.{
  IsStore, observe-IsStore, observe-first_observed_wins,
}
use securemailscope.Network.Sessions.{Packet, AnalysisConfig, Shared, SessionState}
use securemailscope.Network.Sessions.Observe.{
  note_count, note_handshake, note_syn, note_syn_ack, note_end, note_fin, note_payload, noted,
  acknowledged, lend, stream_of, broken_off, streams, note_closed, is_from_client, feed, observe,
}

-- The intervals of the direction from the client, or of the other one.
abbrev pub intervals_of : SessionState → Bool → List Interval
intervals_of s true = s.c2s.intervals
intervals_of s false = s.s2c.intervals

-- Both directions hold a store, and a byte once held stays.
pub record Keeps (s t : SessionState) (d : Bool) : Type 0 where
  pub store : IsStore (intervals_of s d) → IsStore (intervals_of t d)
  pub byte :
      (p : ℤ) (b : ℕ)
      → IsStore (intervals_of s d)
      → byte_at (intervals_of s d) p ≡ some b
      → byte_at (intervals_of t d) p ≡ some b

same-Keeps : (s t : SessionState) (d : Bool) → intervals_of t d ≡ intervals_of s d → Keeps s t d
same-Keeps s t d e = record {
  store = subst IsStore (sym e);
  byte = λ p b _. subst (λ ivs. byte_at ivs p ≡ some b) (sym e);
}

noted-intervals :
    (s : SessionState) (from_client : Bool) (packet : Packet) (ref : PacketReference) (d : Bool)
    → intervals_of (noted s from_client packet ref) d ≡ intervals_of s d
unfolding noted note_count note_handshake note_syn note_syn_ack note_end note_fin note_payload
noted-intervals s true packet ref true = ground arith
noted-intervals s true packet ref false = ground arith
noted-intervals s false packet ref true = ground arith
noted-intervals s false packet ref false = ground arith

acknowledged-intervals :
    (s : DirectionalReassembler) (packet : Packet) → (acknowledged s packet).intervals ≡ s.intervals
unfolding acknowledged Direction.note_peer_ack
acknowledged-intervals s packet = ground arith

Keeps-trans : (s t u : SessionState) (d : Bool) → Keeps s t d → Keeps t u d → Keeps s u d
Keeps-trans s t u d k l = record {
  store = λ i. l.store (k.store i);
  byte = λ p b i h. l.byte p b (k.store i) (k.byte p b i h);
}

module _ (sha256 blake2b : List ℕ → List ℕ) (config : AnalysisConfig) where
  broken_off-intervals :
      (s : SessionState) (from_client : Bool) (stream : DirectionalReassembler) (packet : Packet)
      (d : Bool)
      → intervals_of (broken_off s from_client stream) d
        ≡ intervals_of (streams s from_client stream packet) d
  unfolding broken_off streams
  broken_off-intervals s true stream packet true = refl
  broken_off-intervals s true stream packet false = sym (acknowledged-intervals s.s2c packet)
  broken_off-intervals s false stream packet true = sym (acknowledged-intervals s.c2s packet)
  broken_off-intervals s false stream packet false = refl

  fed-Keeps :
      (s : SessionState) (shared : Shared) (from_client : Bool) (packet : Packet)
      (ref : PacketReference) (d : Bool)
      → Keeps s
          (streams s from_client
            (feed sha256 blake2b config s shared from_client packet ref)
            packet)
          d
  unfolding streams feed lend stream_of
  fed-Keeps s shared true packet ref true = record {
    store = λ i.
        observe-IsStore sha256 blake2b config.max_segments_per_direction
          (lend s.budget shared s.c2s) packet.segment ref i;
    byte = λ p b i.
        observe-first_observed_wins sha256 blake2b config.max_segments_per_direction
          (lend s.budget shared s.c2s) packet.segment ref p b i;
  }
  fed-Keeps s shared true packet ref false =
      same-Keeps s _ false (acknowledged-intervals s.s2c packet)
  fed-Keeps s shared false packet ref true =
      same-Keeps s _ true (acknowledged-intervals s.c2s packet)
  fed-Keeps s shared false packet ref false = record {
    store = λ i.
        observe-IsStore sha256 blake2b config.max_segments_per_direction
          (lend s.budget shared s.s2c) packet.segment ref i;
    byte = λ p b i.
        observe-first_observed_wins sha256 blake2b config.max_segments_per_direction
          (lend s.budget shared s.s2c) packet.segment ref p b i;
  }

  closed-intervals :
      (s : SessionState) (d : Bool) → intervals_of (note_closed s) d ≡ intervals_of s d
  unfolding note_closed
  closed-intervals s true = refl
  closed-intervals s false = refl

  pub observe-Keeps :
      (s : SessionState) (shared : Shared) (packet : Packet) (ref : PacketReference) (d : Bool)
      → Keeps s (observe sha256 blake2b config s shared packet ref).0 d
  unfolding observe
  observe-Keeps s shared packet ref d =
      let from_client = is_from_client s packet in
      let before = noted s from_client packet ref in
      let stream = feed sha256 blake2b config before shared from_client packet ref in
      let after = streams before from_client stream packet in
      let kept : (t : SessionState) → intervals_of t d ≡ intervals_of after d → Keeps s t d = λ t e.
        Keeps-trans s before t d
          (same-Keeps s before d (noted-intervals s from_client packet ref d))
          (Keeps-trans before after t d (fed-Keeps before shared from_client packet ref d)
            (same-Keeps after t d e)) in
      if_intro (λ t. Keeps s t d) stream.raised
        (λ _. kept _ (broken_off-intervals before from_client stream packet d))
        (λ _. kept _ (closed-intervals after d))
