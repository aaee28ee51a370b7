-- ===== src/Network/Reassembly/Directional/Observe.antt =====
-- `observe` and `note_peer_ack`, and the sequence numbers behind them.
use securemailscope.Base.{
  ℕ, ◌+◌, Bool, true, false, ◌||◌, List, [], ◌∷◌, ◌++◌, Option, none, some, length, if◌then◌else◌,
}
use securemailscope.Base.Int.{ℤ, pos, ◌+ℤ◌, ltb_ℤ}
use securemailscope.Evidence.{PacketReference, WarningCode}
use securemailscope.Network.SequenceSpace as Space
use securemailscope.Network.Reassembly.Directional.{ParsedPacket, DirectionalReassembler}
use securemailscope.Network.Reassembly.Directional.Insert.{insert}

or_else {ℓ} : {A : Type ℓ} → Option A → A → A
or_else none a = a
or_else (some x) a = x

first_syn : Bool → Option ℤ → ℤ → Option ℤ
first_syn true none seq_ext = some seq_ext
first_syn true (some e) seq_ext = some e
first_syn false known seq_ext = known

-- The part of `observe` in front of the payload: counters, space, flags.
unfoldable pub note_packet :
    DirectionalReassembler → ParsedPacket → PacketReference → ℤ × DirectionalReassembler
unfolding or_else first_syn
note_packet s packet ref =
    let (seq_ext, space) = Space.extend (or_else s.space (Space.new packet.seq)) packet.seq in
    (
      seq_ext,
      record s {
        packet_count = s.packet_count + 1;
        first_packet = some (or_else s.first_packet ref);
        last_packet = some ref;
        space = some space;
        syn_ext = first_syn packet.syn s.syn_ext seq_ext;
        fin_observed = packet.fin || s.fin_observed;
        rst_observed = packet.rst || s.rst_observed;
        raised = false;
      },
    )

-- A packet that the snapshot length cut: a warning, and the range that is missing.
unfoldable pub note_truncated : DirectionalReassembler → ℤ → ParsedPacket → DirectionalReassembler
note_truncated s data_start packet =
    if packet.payload_truncated
    then record s {
      snapshot_truncated_count = s.snapshot_truncated_count + 1;
      limits = record s.limits { warnings = WarningCode.truncated_packet_data ∷ s.limits.warnings };
      not_captured =
          s.not_captured
          ++ ((
            data_start +ℤ pos (length packet.payload),
            data_start +ℤ pos packet.declared_payload_length,
          )
              ∷ []);
    }
    else s

-- A SYN takes the sequence number in front of the payload.
unfoldable pub data_start : ℤ → ParsedPacket → ℤ
data_start seq_ext packet = seq_ext +ℤ pos (if packet.syn then 1 else 0)

module _ (sha256 blake2b : List ℕ → List ℕ) (max_segments_per_direction : ℕ) where
  unfoldable pub observe_payload :
      ℤ → DirectionalReassembler → ParsedPacket → PacketReference → DirectionalReassembler
  observe_payload start s packet ref =
      let s' = record s { payload_packet_count = s.payload_packet_count + 1 } in
      insert sha256 blake2b max_segments_per_direction (note_truncated s' start packet) start packet
        ref

  -- if not packet.payload: return
  unfoldable pub if_payload :
      List ℕ → ℤ → DirectionalReassembler → ParsedPacket → PacketReference → DirectionalReassembler
  unfolding observe_payload
  if_payload [] start s packet ref = s
  if_payload (_ ∷ _) start s packet ref = observe_payload start s packet ref

  unfoldable pub observe :
      DirectionalReassembler → ParsedPacket → PacketReference → DirectionalReassembler
  unfolding if_payload
  observe s packet ref =
      let (seq_ext, s') = note_packet s packet ref in
      if_payload packet.payload (data_start seq_ext packet) s' packet ref

-- note_peer_ack
unfoldable pub highest_ack : ℤ → Option ℤ → ℤ
highest_ack ack none = ack
highest_ack ack (some known) = if ltb_ℤ known ack then ack else known

unfoldable pub note_peer_ack : DirectionalReassembler → ℕ → DirectionalReassembler
note_peer_ack s ack32 = elim s.space [
  | none ↦ s
  | some space ↦ record s {
    peer_ack_ext = some (highest_ack (Space.project space ack32) s.peer_ack_ext);
  }
]
