-- ===== src/Network/Reassembly/Directional/Insert.antt =====
-- `_insert`, the whole handler of one payload.
use securemailscope.Base.{
  ℕ, ◌+◌, Bool, true, false, ◌&&◌, ◌||◌, ◌==◌, List, [], ◌∷◌, ◌++◌, Option, none, some, map, length,
  any, ltb, if◌then◌else◌,
}
use securemailscope.Base.Int.{ℤ, pos, ◌+ℤ◌, ltb_ℤ, leb_ℤ, max_ℤ}
use securemailscope.Evidence.{PacketReference, WarningCode}
use securemailscope.Network.SequenceSpace as Space
use securemailscope.Network.Reassembly.Intervals.{Interval, overlapping, insert_interval}
use securemailscope.Network.Reassembly.Walk.{Range, interval_of, OverlapConflict, Walked, walk}
use securemailscope.Network.Reassembly.Limits.{Limits, grant, Accepted, accept_ranges}
use securemailscope.Network.Reassembly.Directional.{
  SegmentDisposition, ParsedPacket, ReassembledSegment, Signature, DirectionalReassembler, eq_ℤ,
  prior_frames, add_frame, is_some, repeats_frame,
}

-- _classify; the branches on `is_exact_repeat or covered_matching` have one result.
unfoldable pub classify : ℕ → ℕ → ℕ → ℕ → Bool → Bool → SegmentDisposition
classify new_byte_count stored_new covered_matching covered_conflicting is_exact_repeat
      is_frame_repeat =
    if ltb 0 covered_conflicting
    then SegmentDisposition.overlap_conflict
    else if new_byte_count == 0
    then (if is_frame_repeat
        then SegmentDisposition.duplicate
        else SegmentDisposition.retransmission)
    else if stored_new == 0
    then SegmentDisposition.dropped_limit
    else if ltb 0 covered_matching
    then SegmentDisposition.partial_overlap
    else SegmentDisposition.accepted

unfoldable pub sum_lengths : List Range → ℕ
sum_lengths [] = 0
sum_lengths ((_, chunk) ∷ ranges) = length chunk + sum_lengths ranges

-- interval.duplicates.append(ref) for the intervals that `touched` names by their start, which no
-- two intervals of the store share.
unfoldable pub note_duplicates : PacketReference → List ℤ → List Interval → List Interval
unfolding eq_ℤ
note_duplicates ref touched [] = []
note_duplicates ref touched (iv ∷ ivs) =
    (if any (eq_ℤ iv.start) touched
      then record iv { duplicates = iv.duplicates ++ (ref ∷ []) }
      else iv)
    ∷ note_duplicates ref touched ivs

unfoldable pub insert_all : List Interval → List Interval → List Interval
insert_all [] ivs = ivs
insert_all (new ∷ news) ivs = insert_all news (insert_interval new ivs)

unfoldable pub ranges_bounds : List Range → List (ℤ × ℤ)
ranges_bounds [] = []
ranges_bounds ((start, chunk) ∷ ranges) =
    (start, start +ℤ pos (length chunk)) ∷ ranges_bounds ranges

-- The segment limit: the ranges stay as they are, or all are dropped.
unfoldable pub limit_segments : ℕ → ℕ → Accepted → Accepted
unfolding ranges_bounds
limit_segments max_segments stored a =
    if ltb max_segments (stored + length a.ranges)
    then record { ranges = []; dropped = a.dropped ++ ranges_bounds a.ranges; stored_new = 0 }
    else a

reached_segments : ℕ → ℕ → Accepted → Bool
reached_segments max_segments stored a = ltb max_segments (stored + length a.ranges)

behind_mark : ℤ → ℤ → ℕ → Option ℤ → Bool
behind_mark start end stored_new none = false
behind_mark start end stored_new (some mark) =
    ltb_ℤ start mark && (leb_ℤ end mark && ltb 0 stored_new)

raise_mark : ℤ → Option ℤ → Option ℤ
raise_mark end none = some end
raise_mark end (some mark) = some (max_ℤ mark end)

is_duplicate : SegmentDisposition → Bool
is_duplicate SegmentDisposition.duplicate = true
is_duplicate _ = false

is_retransmission : SegmentDisposition → Bool
is_retransmission SegmentDisposition.retransmission = true
is_retransmission _ = false

is_dropped : SegmentDisposition → Bool
is_dropped SegmentDisposition.dropped_limit = true
is_dropped _ = false

count : Bool → ℕ → ℕ
count true n = n + 1
count false n = n

-- One warning per conflict, the latest first.
conflict_warnings : List OverlapConflict → List WarningCode → List WarningCode
conflict_warnings [] warnings = warnings
conflict_warnings (_ ∷ conflicts) warnings =
    conflict_warnings conflicts (WarningCode.overlap_conflict ∷ warnings)

segment_of :
    Option Space.SequenceSpace → PacketReference → SegmentDisposition → Range → ReassembledSegment
segment_of space ref disposition (start, chunk) = record {
  position = start;
  length = length chunk;
  sequence_number = elim space [ none ↦ 0 | some s ↦ Space.to_sequence s start ];
  source = ref;
  disposition = disposition;
}

-- The repeated intervals note the packet, and the accepted ranges are inserted.
unfoldable pub store :
    DirectionalReassembler
    → Walked
    → Accepted
    → SegmentDisposition
    → PacketReference
    → List Interval
unfolding is_duplicate is_retransmission
store s w a disposition ref = insert_all (map (interval_of ref) a.ranges) (
    if is_duplicate disposition || is_retransmission disposition
    then note_duplicates ref w.touched s.intervals
    else s.intervals)

module _ (sha256 blake2b : List ℕ → List ℕ) (max_segments_per_direction : ℕ) where
  -- What `_insert` finds and grants before it changes the store.
  unfoldable pub walked : DirectionalReassembler → ℤ → ParsedPacket → PacketReference → Walked
  walked s start packet ref =
      let end = start +ℤ pos (length packet.payload) in
      walk sha256 ref start packet.payload start (overlapping s.intervals start end)

  unfoldable pub granted : DirectionalReassembler → Walked → ℕ × Limits
  unfolding conflict_warnings
  granted s w =
      grant (record s.limits { warnings = conflict_warnings w.conflicts s.limits.warnings })
        (sum_lengths w.new_ranges)

  unfoldable pub admitted : DirectionalReassembler → Walked → ℕ → Accepted
  admitted s w amount =
      limit_segments max_segments_per_direction (length s.intervals)
        (accept_ranges amount w.new_ranges)

  unfoldable pub limits_after : DirectionalReassembler → Walked → Limits
  unfolding granted reached_segments
  limits_after s w =
      let (amount, l) = granted s w in
      if reached_segments max_segments_per_direction (length s.intervals)
        (accept_ranges amount w.new_ranges)
      then record l {
        truncated_by_limit = true;
        warnings = WarningCode.limit_segments_per_direction ∷ l.warnings;
      }
      else l

  -- The conflict that raises leaves only the signature and the conflicts in front of it behind.
  unfoldable pub insert_raising :
      DirectionalReassembler → ℤ → ParsedPacket → Walked → DirectionalReassembler
  unfolding conflict_warnings
  insert_raising s start packet w =
      let signature : Signature = (start, length packet.payload, blake2b packet.payload) in
      record s {
        signatures = add_frame signature packet.frame_digest s.signatures;
        conflicts = s.conflicts ++ w.conflicts;
        limits = record s.limits { warnings = conflict_warnings w.conflicts s.limits.warnings };
        raised = true;
      }

  unfoldable pub insert_whole :
      DirectionalReassembler → ℤ → ParsedPacket → PacketReference → DirectionalReassembler
  unfolding walked granted admitted limits_after store count segment_of raise_mark behind_mark
      is_dropped reached_segments
  insert_whole s start packet ref =
      let bytes = packet.payload in
      let end = start +ℤ pos (length bytes) in
      let signature : Signature = (start, length bytes, blake2b bytes) in
      let prior = prior_frames signature s.signatures in
      let w = walked s start packet ref in
      let amount = (granted s w).0 in
      let reached =
        reached_segments max_segments_per_direction (length s.intervals)
          (accept_ranges amount w.new_ranges) in
      let a = admitted s w amount in
      let disposition =
        classify (sum_lengths w.new_ranges) a.stored_new w.covered_matching w.covered_conflicting
          (is_some prior) (repeats_frame packet.frame_digest prior) in
      record s {
        signatures = add_frame signature packet.frame_digest s.signatures;
        conflicts = s.conflicts ++ w.conflicts;
        limits = limits_after s w;
        limit_dropped = s.limit_dropped ++ a.dropped;
        max_end_ext = raise_mark end s.max_end_ext;
        duplicate_count = count (is_duplicate disposition) s.duplicate_count;
        retransmission_count = count (is_retransmission disposition) s.retransmission_count;
        out_of_order_count =
            count (behind_mark start end a.stored_new s.max_end_ext) s.out_of_order_count;
        dropped_by_limit_count =
            count (is_dropped disposition) (count reached s.dropped_by_limit_count);
        intervals = store s w a disposition ref;
        segments = s.segments ++ map (segment_of s.space ref disposition) a.ranges;
      }

  unfoldable pub insert :
      DirectionalReassembler → ℤ → ParsedPacket → PacketReference → DirectionalReassembler
  unfolding walked insert_raising insert_whole
  insert s start packet ref =
      let w = walked s start packet ref in
      if w.raised then insert_raising s start packet w else insert_whole s start packet ref
