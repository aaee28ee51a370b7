-- ===== src/Network/Reassembly/Directional/Finalize.antt =====
-- `finalize`: the result that a direction is reported by. The direction and its endpoints, which the
-- reassembler is constructed with and only passes on, are left out.
use securemailscope.Base.{
  ℕ, ◌+◌, Bool, true, ◌&&◌, ◌||◌, List, [], ◌∷◌, ◌++◌, Option, none, some, map, length, leb,
  if◌then◌else◌,
}
use securemailscope.Base.Int.{ℤ, pos, ◌-ℤ◌, ltb_ℤ}
use securemailscope.Evidence.{PacketReference, EvidenceStatus, WarningCode}
use securemailscope.Network.SequenceSpace as Space
use securemailscope.Network.Reassembly.Intervals.{Interval, end_of}
use securemailscope.Network.Reassembly.Walk.{OverlapConflict}
use securemailscope.Network.Reassembly.Directional.{
  DirectionalReassembler, ReassembledSegment, eq_ℤ, is_some,
}
use securemailscope.Network.Reassembly.Directional.Results.{base_ext, ReassemblyGap, build_gaps}

pub record ByteRun : Type 0 where
  pub stream_offset : ℤ
  pub length : ℕ
  pub sha256 : List ℕ
  pub first_packet : PacketReference
  pub last_packet : PacketReference

-- A segment with its offset and the packets that repeated it.
pub record PlacedSegment : Type 0 where
  pub stream_offset : ℤ
  pub segment : ReassembledSegment
  pub duplicates : List PacketReference

pub record DirectionalStream : Type 0 where
  pub packet_count : ℕ
  pub payload_packet_count : ℕ
  pub stream_base_sequence : Option ℕ
  pub base_status : EvidenceStatus
  pub base_from_syn : Option Bool
  pub bytes_reconstructed : ℕ
  pub highest_offset_observed : ℤ
  pub runs : List ByteRun
  pub segments : List PlacedSegment
  pub gaps : List ReassemblyGap
  pub overlap_conflicts : List (ℤ × OverlapConflict)
  pub retransmission_count : ℕ
  pub duplicate_count : ℕ
  pub out_of_order_count : ℕ
  pub dropped_by_limit_count : ℕ
  pub truncated_by_limit : Bool
  pub fin_observed : Bool
  pub rst_observed : Bool
  pub highest_ack_observed : Option ℤ

-- A maximal run of adjacent intervals: its first one and those behind it.
abbrev pub Group : Type 0
Group = Interval × List Interval

-- The loop that groups intervals; `last` is the interval at the end of the open group.
unfoldable pub groups_from : Interval → List Interval → Interval → List Interval → List Group
groups_from head members last [] = (head, members) ∷ []
groups_from head members last (iv ∷ ivs) =
    let joined = groups_from head (members ++ (iv ∷ [])) iv ivs in
    let apart = groups_from iv [] iv ivs in
    if eq_ℤ (end_of last) iv.start then joined else (head, members) ∷ apart

unfoldable pub groups_of : List Interval → List Group
unfolding groups_from
groups_of [] = []
groups_of (iv ∷ ivs) = groups_from iv [] iv ivs

-- b"".join(item.data for item in group)
unfoldable pub joined_bytes : List Interval → List ℕ
joined_bytes [] = []
joined_bytes (iv ∷ ivs) = iv.bytes ++ joined_bytes ivs

unfoldable pub group_bytes : Group → List ℕ
unfolding joined_bytes
group_bytes (head, members) = head.bytes ++ joined_bytes members

unfoldable pub sum_bytes : List Interval → ℕ
sum_bytes [] = 0
sum_bytes (iv ∷ ivs) = length iv.bytes + sum_bytes ivs

unfoldable pub last_of : Interval → List Interval → Interval
last_of iv [] = iv
last_of iv (next ∷ ivs) = last_of next ivs

module _ (sha256 : List ℕ → List ℕ) (base : ℤ) where
  unfoldable pub byte_run : Group → ByteRun
  unfolding sum_bytes last_of
  byte_run (head, members) = record {
    stream_offset = head.start -ℤ base;
    length = length head.bytes + sum_bytes members;
    sha256 = sha256 (group_bytes (head, members));
    first_packet = head.packet;
    last_packet = (last_of head members).packet;
  }

-- by_start.get(start).duplicates
duplicates_at : ℤ → List Interval → List PacketReference
duplicates_at start [] = []
duplicates_at start (iv ∷ ivs) =
    let rest = duplicates_at start ivs in if eq_ℤ iv.start start then iv.duplicates else rest

unfoldable pub place_segment : ℤ → List Interval → ReassembledSegment → PlacedSegment
unfolding duplicates_at
place_segment base ivs segment = record {
  stream_offset = segment.position -ℤ base;
  segment = segment;
  duplicates = duplicates_at segment.position ivs;
}

-- segments_list.sort(key=...); Python's sort is stable.
le_placed : PlacedSegment → PlacedSegment → Bool
le_placed s t =
    ltb_ℤ s.stream_offset t.stream_offset
    || (eq_ℤ s.stream_offset t.stream_offset && leb s.segment.length t.segment.length)

insert_placed : PlacedSegment → List PlacedSegment → List PlacedSegment
insert_placed s [] = s ∷ []
insert_placed s (t ∷ ts) = if le_placed s t then s ∷ t ∷ ts else t ∷ insert_placed s ts

sort_segments : List PlacedSegment → List PlacedSegment
unfolding insert_placed le_placed
sort_segments [] = []
sort_segments (s ∷ ss) = insert_placed s (sort_segments ss)

rebase_conflict : ℤ → OverlapConflict → ℤ × OverlapConflict
rebase_conflict base conflict = (conflict.position -ℤ base, conflict)

-- _emit_gap_warnings
gap_warnings : List ReassemblyGap → List WarningCode → List WarningCode
gap_warnings [] warnings = warnings
gap_warnings (_ ∷ gaps) warnings = gap_warnings gaps (WarningCode.sequence_gap ∷ warnings)

-- _emit_acked_not_captured
unfoldable pub acked_warnings : Option ℤ → Option ℤ → Bool → List WarningCode → List WarningCode
acked_warnings (some ack) (some end) fin warnings =
    if ltb_ℤ end (ack -ℤ pos (if fin then 1 else 0))
    then WarningCode.acked_data_not_captured ∷ warnings
    else warnings
acked_warnings _ _ fin warnings = warnings

base_sequence : Option Space.SequenceSpace → Option ℤ → Option ℕ
base_sequence (some space) (some base) = some (Space.to_sequence space base)
base_sequence _ _ = none

-- What both results have of the state. `base_from_syn` is base_basis: TCP_SYN, LOWEST_OBSERVED_SEQUENCE
-- or None.
unfoldable pub empty_stream : DirectionalReassembler → DirectionalStream
unfolding base_sequence
empty_stream s = record {
  packet_count = s.packet_count;
  payload_packet_count = s.payload_packet_count;
  stream_base_sequence = base_sequence s.space (base_ext s);
  base_status = if is_some s.syn_ext then EvidenceStatus.observed else EvidenceStatus.unknown;
  base_from_syn = if is_some s.syn_ext then some true else none;
  bytes_reconstructed = 0;
  highest_offset_observed = pos 0;
  runs = [];
  segments = [];
  gaps = [];
  overlap_conflicts = [];
  retransmission_count = 0;
  duplicate_count = 0;
  out_of_order_count = 0;
  dropped_by_limit_count = s.dropped_by_limit_count;
  truncated_by_limit = s.limits.truncated_by_limit;
  fin_observed = s.fin_observed;
  rst_observed = s.rst_observed;
  highest_ack_observed = s.peer_ack_ext;
}

module _ (sha256 : List ℕ → List ℕ) (max_gaps : ℕ) where
  unfoldable pub full_stream :
      DirectionalReassembler → ℤ → Interval → List Interval → DirectionalStream
  unfolding empty_stream sum_bytes sort_segments rebase_conflict last_of
  full_stream s base iv ivs = record (empty_stream s) {
    base_status = if is_some s.syn_ext then EvidenceStatus.observed else EvidenceStatus.inferred;
    base_from_syn = some (is_some s.syn_ext);
    bytes_reconstructed = sum_bytes (iv ∷ ivs);
    highest_offset_observed = end_of (last_of iv ivs) -ℤ base;
    runs = map (byte_run sha256 base) (groups_of (iv ∷ ivs));
    segments = sort_segments (map (place_segment base (iv ∷ ivs)) s.segments);
    gaps = build_gaps s max_gaps base;
    overlap_conflicts = map (rebase_conflict base) s.conflicts;
    retransmission_count = s.retransmission_count;
    duplicate_count = s.duplicate_count;
    out_of_order_count = s.out_of_order_count;
  }

  unfoldable pub finalize_with :
      DirectionalReassembler → Option ℤ → List Interval → DirectionalStream × List WarningCode
  unfolding empty_stream full_stream gap_warnings
  finalize_with s none ivs = (empty_stream s, s.limits.warnings)
  finalize_with s (some base) [] = (empty_stream s, s.limits.warnings)
  finalize_with s (some base) (iv ∷ ivs) = (
    full_stream s base iv ivs,
    acked_warnings s.peer_ack_ext s.max_end_ext s.fin_observed
        (gap_warnings (build_gaps s max_gaps base) s.limits.warnings),
  )

  -- finalize
  unfoldable pub finalize : DirectionalReassembler → DirectionalStream × List WarningCode
  unfolding finalize_with
  finalize s = finalize_with s (base_ext s) s.intervals
