-- ===== src/Protocols/Cursor.antt =====
-- protocols/reader.py: StreamLine, StreamCursor and merge_span, line reading that keeps to one run.
pub mod Lines
pub mod Cursors
pub mod Reading
pub mod Skips
pub mod Peeks
pub mod Progress
use securemailscope.Base.{
  ℕ, suc, ◌+◌, ◌-◌, Bool, true, false, ◌&&◌, ◌||◌, List, [], ◌∷◌, ◌++◌, Option, none, some, length,
  take, drop, get_or, all, any, ltb, ◌==◌, if◌then◌else◌,
}
use securemailscope.Evidence.{PacketReference, WarningCode, add_refs}
use securemailscope.Protocols.Buffer.{DirectionalBuffer, end_offset, is_ambiguous, refs}

pub record StreamLine : Type 0 where
  pub start_offset : ℕ
  pub end_offset : ℕ
  pub content : List ℕ
  pub terminator : List ℕ
  pub complete : Bool
  pub truncated : Bool
  pub ambiguous : Bool
  pub preceded_by_gap : Bool
  pub gap_length : ℕ
  pub packets : List PacketReference

-- The offset of a byte in a list, `find` of one byte.
unfoldable pub index_of : ℕ → List ℕ → Option ℕ
index_of c [] = none
index_of c (x ∷ xs) =
    let later = index_of c xs in
    if x == c then some 0 else elim later [ none ↦ none | some i ↦ some (suc i) ]

-- A line that is read, the bytes that consuming it takes, and the warnings on the way.
pub record Taken : Type 0 where
  pub line : StreamLine
  pub consume : ℕ
  pub warnings : List WarningCode

-- What a line knows of the place it is read at.
pub record Place : Type 0 where
  pub start_offset : ℕ
  pub gap_length : ℕ
  pub more_runs : Bool

module _ (b : DirectionalBuffer) (max_line_bytes : ℕ) where
  -- _make
  unfoldable pub make : Place → ℕ → List ℕ → List ℕ → Bool → Bool → StreamLine
  make at end content terminator complete truncated = record {
    start_offset = at.start_offset;
    end_offset = end;
    content = content;
    terminator = terminator;
    complete = complete;
    truncated = truncated;
    ambiguous = is_ambiguous b at.start_offset end;
    preceded_by_gap = ltb 0 at.gap_length;
    gap_length = at.gap_length;
    packets = refs b at.start_offset end;
  }

  make_warnings : Place → ℕ → List WarningCode
  make_warnings at end =
      if is_ambiguous b at.start_offset end then WarningCode.protocol_ambiguous_bytes ∷ [] else []

  -- The end of an over-long line behind the limit, or all that is left.
  unfoldable pub resume : List ℕ → Option ℕ → ℕ
  resume tail none = length tail
  resume tail (some i) = max_line_bytes + i + 1

  -- _oversized
  unfoldable pub oversized : Place → List ℕ → Taken
  unfolding make make_warnings resume
  oversized at tail =
      let end = at.start_offset + max_line_bytes in
      record {
        line = make at end (take max_line_bytes tail) [] false true;
        consume = resume tail (index_of 10 (drop max_line_bytes tail));
        warnings = make_warnings at end ++ (WarningCode.limit_line_bytes ∷ []);
      }

  -- A run that ends in the line.
  unfoldable pub unterminated : Place → List ℕ → Taken
  unfolding make make_warnings
  unterminated at tail =
      let end = at.start_offset + length tail in
      record {
        line = make at end tail [] false false;
        consume = length tail;
        warnings =
            make_warnings at end
            ++ (if at.more_runs then WarningCode.protocol_gap_in_dialogue ∷ [] else []);
      }

  -- content_end > local and data[content_end - 1] is a carriage return
  unfoldable pub ends_in_cr : ℕ → List ℕ → Bool
  ends_in_cr n tail = ltb 0 n && get_or tail (n - 1) 0 == 13

  unfoldable pub terminated : Place → List ℕ → ℕ → Taken
  unfolding make make_warnings ends_in_cr
  terminated at tail n =
      let end = at.start_offset + n + 1 in
      record {
        line =
            if ends_in_cr n tail
            then make at end (take (n - 1) tail) (13 ∷ 10 ∷ []) true false
            else make at end (take n tail) (10 ∷ []) true false;
        consume = n + 1;
        warnings = make_warnings at end;
      }

  taken_at : Place → List ℕ → Option ℕ → Taken
  unfolding oversized unterminated terminated
  taken_at at tail none =
      if ltb max_line_bytes (length tail) then oversized at tail else unterminated at tail
  taken_at at tail (some n) = terminated at tail n

  -- The part of `_read_next` behind its guards: the line at the front of what a run has left.
  unfoldable pub take_line : Place → List ℕ → Taken
  unfolding taken_at
  take_line at tail = taken_at at tail (index_of 10 (take (max_line_bytes + 1) tail))

-- merge_span of a line and those behind it.
last_line : StreamLine → List StreamLine → StreamLine
last_line line [] = line
last_line line (next ∷ lines) = last_line next lines

span_refs : List StreamLine → List PacketReference → List PacketReference
span_refs [] seen = seen
span_refs (line ∷ lines) seen = span_refs lines (add_refs line.packets seen)

unfoldable pub merge_span : StreamLine → List StreamLine → StreamLine
unfolding last_line span_refs
merge_span first lines =
    let last = last_line first lines in
    record {
      start_offset = first.start_offset;
      end_offset = last.end_offset;
      content = [];
      terminator = last.terminator;
      complete = all (λ line. line.complete) (first ∷ lines);
      truncated = any (λ line. line.truncated) (first ∷ lines);
      ambiguous = any (λ line. line.ambiguous) (first ∷ lines);
      preceded_by_gap = first.preceded_by_gap;
      gap_length = first.gap_length;
      packets = span_refs (first ∷ lines) [];
    }
