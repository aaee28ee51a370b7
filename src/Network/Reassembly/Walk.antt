-- ===== src/Network/Reassembly/Walk.antt =====
-- The loop of `_insert` over the overlapping intervals: what is new, what repeats, what conflicts.
pub mod Fresh
pub mod Raised
pub mod Rounds
use securemailscope.Base.{
  ℕ, ◌+◌, ◌-◌, ◌≡◌, refl, ap, arith, if_intro, Bool, true, false, ◌&&◌, ◌==◌, List, [], ◌∷◌, ◌++◌,
  length, drop, slice, if◌then◌else◌,
}
use securemailscope.Base.Int.{ℤ, pos, ◌+ℤ◌, gap, ltb_ℤ, max_ℤ, min_ℤ}
use securemailscope.Evidence.{PacketReference}
use securemailscope.Network.Reassembly.Intervals.{Interval, end_of}

-- A range of new bytes, `(range_start, chunk)`.
abbrev pub Range : Type 0
Range = ℤ × List ℕ

unfoldable pub interval_of : PacketReference → Range → Interval
interval_of ref range = record { start = range.0; bytes = range.1; packet = ref; duplicates = [] }

-- Two packets that deliver different bytes for one range. `position` is the extended sequence
-- number that `finalize` turns into a stream offset; where one is made, in `covered_range`, it must
-- not be negative.
pub record OverlapConflict : Type 0 where
  pub position : ℤ
  pub length : ℕ
  pub accepted_packet : PacketReference
  pub conflicting_packet : PacketReference
  pub accepted_sha256 : List ℕ
  pub conflicting_sha256 : List ℕ

-- What the loop leaves; when it raises, the conflicts are those in front of the one that raised.
pub record Walked : Type 0 where
  pub new_ranges : List Range
  pub covered_matching : ℕ
  pub covered_conflicting : ℕ
  -- the intervals that the packet repeats, named by where they start
  pub touched : List ℤ
  pub conflicts : List OverlapConflict
  pub raised : Bool

abbrev pub eq_bytes : List ℕ → List ℕ → Bool
eq_bytes [] [] = true
eq_bytes [] (y ∷ ys) = false
eq_bytes (x ∷ xs) [] = false
eq_bytes (x ∷ xs) (y ∷ ys) = x == y && eq_bytes xs ys

module _ (sha256 : List ℕ → List ℕ) (ref : PacketReference) (start : ℤ) (bytes : List ℕ) where
  -- if cursor < end: new_ranges.append((cursor, data[cursor - start :]))
  unfoldable pub walk_end : ℤ → Walked
  walk_end cursor = record {
    new_ranges =
        if ltb_ℤ cursor (start +ℤ pos (length bytes))
        then (cursor, drop (gap cursor start) bytes) ∷ []
        else [];
    covered_matching = 0;
    covered_conflicting = 0;
    touched = [];
    conflicts = [];
    raised = false;
  }

  -- if interval.start > cursor: new_ranges.append(...)
  unfoldable pub range_in_front : ℤ → Interval → List Range → List Range
  range_in_front cursor iv ranges =
      if ltb_ℤ cursor iv.start
      then (cursor, slice bytes (gap cursor start) (gap iv.start start)) ∷ ranges
      else ranges

  -- The bytes that the packet and the interval both claim. An OverlapConflict is validated when it
  -- is made: one at a negative position raises, and the loop goes no further.
  unfoldable pub covered_range : Interval → ℤ → ℤ → Walked → Walked
  covered_range iv overlap_start overlap_end rest =
      let incoming = slice bytes (gap overlap_start start) (gap overlap_end start) in
      let stored = slice iv.bytes (gap overlap_start iv.start) (gap overlap_end iv.start) in
      if eq_bytes incoming stored
      then record rest {
        covered_matching = gap overlap_end overlap_start + rest.covered_matching;
        touched = iv.start ∷ rest.touched;
      }
      else if ltb_ℤ overlap_start (pos 0)
      then record rest { conflicts = []; raised = true }
      else record rest {
        covered_conflicting = gap overlap_end overlap_start + rest.covered_conflicting;
        conflicts =
            record {
              position = overlap_start;
              length = length stored;
              accepted_packet = iv.packet;
              conflicting_packet = ref;
              accepted_sha256 = sha256 stored;
              conflicting_sha256 = sha256 incoming;
            }
            ∷ rest.conflicts;
      }

  new_ranges-covered_range :
      (iv : Interval) (overlap_start overlap_end : ℤ) (rest : Walked)
      → (covered_range iv overlap_start overlap_end rest).new_ranges ≡ rest.new_ranges
  unfolding covered_range
  new_ranges-covered_range iv overlap_start overlap_end rest = ground arith

  abbrev pub cursor_after : ℤ → Interval → ℤ
  cursor_after cursor iv =
      let overlap_start = max_ℤ cursor iv.start in
      let overlap_end = min_ℤ (start +ℤ pos (length bytes)) (end_of iv) in
      if ltb_ℤ overlap_start overlap_end then overlap_end else overlap_start

  unfoldable pub walk_round : ℤ → Interval → Walked → Walked
  unfolding range_in_front covered_range
  walk_round cursor iv rest =
      let overlap_start = max_ℤ cursor iv.start in
      let overlap_end = min_ℤ (start +ℤ pos (length bytes)) (end_of iv) in
      let later : Walked =
        if ltb_ℤ overlap_start overlap_end
        then covered_range iv overlap_start overlap_end rest
        else rest in
      record later { new_ranges = range_in_front cursor iv later.new_ranges }

  -- One run of the loop per overlapping interval. Past the guard `interval.start > cursor` the
  -- cursor is the maximum of the two.
  unfoldable pub walk : ℤ → List Interval → Walked
  unfolding walk_end walk_round
  walk cursor [] = walk_end cursor
  walk cursor (iv ∷ ivs) = walk_round cursor iv (walk (cursor_after cursor iv) ivs)

  -- The rounds as far as the new ranges go.
  pub new_ranges-walk :
      (cursor : ℤ) (iv : Interval) (ivs : List Interval)
      → (walk cursor (iv ∷ ivs)).new_ranges
        ≡ range_in_front cursor iv (walk (cursor_after cursor iv) ivs).new_ranges
  unfolding walk walk_round
  new_ranges-walk cursor iv ivs =
      let rest = walk (cursor_after cursor iv) ivs in
      let overlap_start = max_ℤ cursor iv.start in
      let overlap_end = min_ℤ (start +ℤ pos (length bytes)) (end_of iv) in
      if_intro
        (λ (w : Walked).
          range_in_front cursor iv w.new_ranges ≡ range_in_front cursor iv rest.new_ranges)
        (ltb_ℤ overlap_start overlap_end)
        (λ _.
          ap (range_in_front cursor iv)
            (new_ranges-covered_range iv overlap_start overlap_end rest))
        (λ _. refl)
