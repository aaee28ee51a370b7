-- ===== src/Network/Reassembly/Directional.antt =====
-- DirectionalReassembler: its state, `observe`, `note_peer_ack` and `_insert`. The digests of hashlib
-- are parameters; the two budgets are shared with other directions and are passed on in `limits`.
pub mod Insert
pub mod Observe
pub mod Overlay
pub mod Stored
pub mod Held
pub mod Results
pub mod Gaps
pub mod Covered
pub mod Joins
pub mod Runs
pub mod Packets
pub mod Finalize
pub mod Reported
use securemailscope.Base.{
  ℕ, ◌+◌, ◌-◌, Bool, true, false, ◌&&◌, ◌||◌, ◌==◌, List, [], ◌∷◌, ◌++◌, Option, none, some, length,
  any, if◌then◌else◌,
}
use securemailscope.Base.Int.{ℤ, ◌+ℤ◌, pos_part, neg_part}
use securemailscope.Evidence.{PacketReference}
use securemailscope.Network.SequenceSpace as Space
use securemailscope.Network.Reassembly.Intervals.{Interval}
use securemailscope.Network.Reassembly.Walk.{OverlapConflict, eq_bytes}
use securemailscope.Network.Reassembly.Limits.{Limits}

pub data SegmentDisposition : Type 0 where
  accepted duplicate retransmission partial_overlap overlap_conflict dropped_limit :
      SegmentDisposition

-- The fields of ParsedPacket that reassembly reads.
pub record ParsedPacket : Type 0 where
  pub seq : ℕ
  pub syn : Bool
  pub fin : Bool
  pub rst : Bool
  pub payload : List ℕ
  pub payload_truncated : Bool
  pub declared_payload_length : ℕ
  pub frame_digest : List ℕ

-- `position` is the extended sequence number that stands beside the segment in `_segments`.
pub record ReassembledSegment : Type 0 where
  pub position : ℤ
  pub length : ℕ
  pub sequence_number : ℕ
  pub source : PacketReference
  pub disposition : SegmentDisposition

-- The key of `_signatures`: start, length, blake2b digest.
abbrev pub Signature : Type 0
Signature = ℤ × ℕ × List ℕ

-- `raised` tells whether the call of `observe` that is under way, or was the last, raised.
pub record DirectionalReassembler : Type 0 where
  pub space : Option Space.SequenceSpace
  pub syn_ext : Option ℤ
  pub intervals : List Interval
  pub signatures : List (Signature × List (List ℕ))
  pub conflicts : List OverlapConflict
  pub segments : List ReassembledSegment
  pub limit_dropped : List (ℤ × ℤ)
  pub not_captured : List (ℤ × ℤ)
  pub packet_count : ℕ
  pub payload_packet_count : ℕ
  pub retransmission_count : ℕ
  pub duplicate_count : ℕ
  pub out_of_order_count : ℕ
  pub dropped_by_limit_count : ℕ
  pub fin_observed : Bool
  pub rst_observed : Bool
  pub snapshot_truncated_count : ℕ
  pub max_end_ext : Option ℤ
  pub peer_ack_ext : Option ℤ
  pub first_packet : Option PacketReference
  pub last_packet : Option PacketReference
  pub limits : Limits
  pub raised : Bool

unfoldable pub eq_ℤ : ℤ → ℤ → Bool
eq_ℤ a b = pos_part a + neg_part b == pos_part b + neg_part a

eq_signature : Signature → Signature → Bool
unfolding eq_ℤ
eq_signature (start, size, digest) (start', size', digest') =
    eq_ℤ start start' && (size == size' && eq_bytes digest digest')

-- self._signatures.get(signature)
unfoldable pub prior_frames : Signature → List (Signature × List (List ℕ)) → Option (List (List ℕ))
unfolding eq_signature
prior_frames signature [] = none
prior_frames signature ((key, frames) ∷ table) =
    if eq_signature signature key then some frames else prior_frames signature table

-- self._signatures.setdefault(signature, []).append(packet.frame_digest)
unfoldable pub add_frame :
    Signature → List ℕ → List (Signature × List (List ℕ)) → List (Signature × List (List ℕ))
unfolding eq_signature
add_frame signature frame [] = (signature, frame ∷ []) ∷ []
add_frame signature frame ((key, frames) ∷ table) =
    if eq_signature signature key
    then (key, frames ++ (frame ∷ [])) ∷ table
    else (key, frames) ∷ add_frame signature frame table

unfoldable pub is_some {ℓ} : {A : Type ℓ} → Option A → Bool
is_some none = false
is_some (some a) = true

unfoldable pub repeats_frame : List ℕ → Option (List (List ℕ)) → Bool
repeats_frame frame none = false
repeats_frame frame (some frames) = any (eq_bytes frame) frames
