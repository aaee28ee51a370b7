-- ===== src/Protocols/Cursor/Cursors.antt =====
-- StreamCursor: peek, advance, skip_bytes and stop.
use securemailscope.Base.{
  ℕ, zero, suc, ◌+◌, ◌-◌, Bool, true, false, not, ◌&&◌, List, [], ◌∷◌, ◌++◌, Option, none, some,
  length, drop, get_elem?, ltb, leb, ◌==◌, if◌then◌else◌, max, min,
}
use securemailscope.Evidence.{PacketReference, WarningCode}
use securemailscope.Protocols.Buffer.{DirectionalBuffer, end_offset, refs}
use securemailscope.Protocols.Cursor.{StreamLine, Taken, Place, take_line}

pub record StreamCursor : Type 0 where
  pub offset : ℕ
  pub run_index : ℕ
  pub stopped : Bool
  pub pending : Option (StreamLine × ℕ)
  pub warnings : List WarningCode

pub record SkipOutcome : Type 0 where
  pub requested : ℕ
  pub skipped : ℕ
  pub complete : Bool
  pub stopped_at_gap : Bool
  pub stopped_at_end : Bool
  pub packets : List PacketReference
  pub start_offset : ℕ
  pub end_offset : ℕ

unfoldable pub first_offset : List (ℕ × List ℕ) → ℕ
first_offset [] = 0
first_offset (run ∷ _) = run.0

unfoldable pub has_none {ℓ} : {A : Type ℓ} → List A → Bool
has_none [] = true
has_none (x ∷ xs) = false

-- The missing bytes between a run and the one in front, if the line starts the run.
unfoldable pub gap_in_front : Option (ℕ × List ℕ) → ℕ → ℕ → ℕ
gap_in_front none start local = 0
gap_in_front (some (start', bytes')) start local =
    if local == 0 then start - (start' + length bytes') else 0

-- runs[run_index - 1], if there is one
unfoldable pub run_in_front : List (ℕ × List ℕ) → ℕ → Option (ℕ × List ℕ)
run_in_front runs zero = none
run_in_front runs (suc i) = get_elem? runs i

module _ (b : DirectionalBuffer) (max_line_bytes : ℕ) where
  unfoldable pub cursor : StreamCursor
  unfolding first_offset
  cursor = record {
    offset = first_offset b.runs;
    run_index = 0;
    stopped = false;
    pending = none;
    warnings = [];
  }

  unfoldable pub stop : StreamCursor → StreamCursor
  stop c = record c { stopped = true; pending = none }

  -- `_sync_run` from one run on: the offset and the index.
  unfoldable pub sync_from : ℕ → List (ℕ × List ℕ) → ℕ → ℕ × ℕ
  sync_from index [] offset = (end_offset b.runs, index)
  sync_from index ((start, bytes) ∷ runs) offset =
      let later = sync_from (index + 1) runs offset in
      if ltb offset (start + length bytes) then (max offset start, index) else later

  unfoldable pub sync_run : StreamCursor → StreamCursor
  unfolding sync_from
  sync_run c =
      let (offset, index) = sync_from c.run_index (drop c.run_index b.runs) c.offset in
      record c { offset = offset; run_index = index }

  unfoldable pub line_of : StreamCursor → ℕ → Taken → Option StreamLine × StreamCursor
  line_of c offset t = (
    some t.line,
    record c {
      offset = offset;
      pending = some (t.line, t.consume);
      warnings = c.warnings ++ t.warnings;
    },
  )

  -- `_read_next` from one run on, with the run in front of it.
  unfoldable pub read_from :
      Option (ℕ × List ℕ) → List (ℕ × List ℕ) → StreamCursor → Option StreamLine × StreamCursor
  unfolding line_of
  read_from front [] c = (none, c)
  read_from front ((start, bytes) ∷ runs) c =
      let offset = max c.offset start in
      let local = offset - start in
      let later =
        read_from (some (start, bytes)) runs
          (record c { offset = offset; run_index = c.run_index + 1 }) in
      let at : Place = record {
        start_offset = offset;
        gap_length = gap_in_front front start local;
        more_runs = not (has_none runs);
      } in
      if leb (length bytes) local
      then later
      else line_of c offset (take_line b max_line_bytes at (drop local bytes))

  unfoldable pub read_next : StreamCursor → Option StreamLine × StreamCursor
  read_next c = read_from (run_in_front b.runs c.run_index) (drop c.run_index b.runs) c

  unfoldable pub peek_pending :
      StreamCursor → Option (StreamLine × ℕ) → Option StreamLine × StreamCursor
  peek_pending c (some (line, consume)) = (some line, c)
  peek_pending c none = read_next c

  unfoldable pub peek : StreamCursor → Option StreamLine × StreamCursor
  unfolding peek_pending
  peek c = if c.stopped then (none, c) else peek_pending c c.pending

  unfoldable pub consumed :
      StreamCursor → Option (StreamLine × ℕ) → Option StreamLine × StreamCursor
  consumed c none = (none, c)
  consumed c (some (line, consume)) =
      (some line, sync_run (record c { pending = none; offset = line.start_offset + consume }))

  unfoldable pub advanced : Option StreamLine × StreamCursor → Option StreamLine × StreamCursor
  unfolding consumed
  advanced (none, c) = (none, c)
  advanced (some line, c) = consumed c c.pending

  unfoldable pub advance : StreamCursor → Option StreamLine × StreamCursor
  unfolding advanced
  advance c = advanced (peek c)

  unfoldable pub skip_in : StreamCursor → ℕ → List (ℕ × List ℕ) → SkipOutcome × StreamCursor
  skip_in c count [] = (
    record {
      requested = count;
      skipped = 0;
      complete = count == 0;
      stopped_at_gap = false;
      stopped_at_end = true;
      packets = [];
      start_offset = c.offset;
      end_offset = c.offset;
    },
    c,
  )
  skip_in c count ((start, bytes) ∷ runs) =
      let skipped = min count (start + length bytes - c.offset) in
      (
        record {
          requested = count;
          skipped = skipped;
          complete = skipped == count;
          stopped_at_gap = ltb skipped count && not (has_none runs);
          stopped_at_end = ltb skipped count && has_none runs;
          packets = refs b c.offset (c.offset + max skipped 1);
          start_offset = c.offset;
          end_offset = c.offset + skipped;
        },
        sync_run (record c { offset = c.offset + skipped }),
      )

  unfoldable pub skip_bytes : StreamCursor → ℕ → SkipOutcome × StreamCursor
  unfolding skip_in
  skip_bytes c count =
      skip_in (record c { pending = none }) count
        (if c.stopped then [] else drop c.run_index b.runs)
