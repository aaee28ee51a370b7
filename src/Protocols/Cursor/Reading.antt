-- ===== src/Protocols/Cursor/Reading.antt =====
-- What `peek` and `advance` deliver: lines of a single run.
use securemailscope.Base.{
  ℕ, zero, suc, ◌+◌, ◌-◌, ◌≤◌, ◌<◌, ◌≡◌, refl, ap, sym, ◌∙◌, subst, List, [], ◌∷◌, ◌++◌, Option,
  none, some, length, length-drop, take, drop, leb, max, if_intro, not_leb→lt, arith, inl, inr,
}
use securemailscope.Protocols.Buffer.{DirectionalBuffer}
use securemailscope.Protocols.Buffer.OneRun.{InRuns}
use securemailscope.Protocols.Cursor.{StreamLine, Place, take_line}
use securemailscope.Protocols.Cursor.Lines.{NoNewline, take_line-IsTaken}
use securemailscope.Protocols.Cursor.Cursors.{
  StreamCursor, read_from, line_of, read_next, peek, peek_pending, advance, advanced, consumed,
  sync_run, run_in_front,
}

pub InRuns-drop :
    (start : ℕ) (run : List ℕ) (k : ℕ) (runs : List (ℕ × List ℕ))
    → InRuns start run (drop k runs)
    → InRuns start run runs
InRuns-drop start run zero runs h = h
InRuns-drop start run (suc k) [] h = h
InRuns-drop start run (suc k) (r ∷ runs) h = inr (InRuns-drop start run k runs h)

module _ (b : DirectionalBuffer) (max_line_bytes : ℕ) where
  -- The content and the terminator of the line are, together, the bytes of one run from the line's
  -- start to its end; the content holds no line feed; and consuming the line takes at least these
  -- bytes and no more than the run has.
  pub record IsLine (line : StreamLine) (consume : ℕ) : Type 0 where
    pub start : ℕ
    pub run : List ℕ
    pub is_run : InRuns start run b.runs
    pub inside : (start ≤ line.start_offset) × (line.start_offset < start + length run)
    pub bytes :
        line.content ++ line.terminator
        ≡ take (line.end_offset - line.start_offset) (drop (line.start_offset - start) run)
    pub ends :
        (line.start_offset ≤ line.end_offset) × (line.end_offset ≤ line.start_offset + consume)
    pub consumes : (0 < consume) × (line.start_offset + consume ≤ start + length run)
    pub one_line : NoNewline line.content

  abbrev IsPending : Option (StreamLine × ℕ) → Type 0
  IsPending none = Unit
  IsPending (some (line, consume)) = IsLine line consume

  -- The line that a cursor keeps between `peek` and `advance` is a line of the buffer.
  pub record IsCursor (c : StreamCursor) : Type 0 where
    pub kept : IsPending c.pending

  abbrev Peeked : Option StreamLine × StreamCursor → Type 0
  Peeked (none, c) = IsCursor c
  Peeked (some line, c) = IsCursor c

  -- What `advance` returns: a line of the buffer, or nothing.
  abbrev pub Delivers : Option StreamLine × StreamCursor → Type 0
  Delivers (none, c) = IsCursor c
  Delivers (some line, c) = ((consume : ℕ) × IsLine line consume) × IsCursor c

  taken-IsLine :
      (start : ℕ) (run : List ℕ) (offset : ℕ) (at : Place)
      → at.start_offset ≡ offset
      → InRuns start run b.runs
      → start ≤ offset
      → offset - start < length run
      → (let t = take_line b max_line_bytes at (drop (offset - start) run) in
          IsLine t.line t.consume)
  taken-IsLine start run offset at e r lo hi =
      let tail = drop (offset - start) run in
      let size = length-drop (offset - start) run in
      let t = take_line b max_line_bytes at tail in
      let i = take_line-IsTaken b max_line_bytes at tail (omega (arith, size, hi)) in
      let s : t.line.start_offset ≡ offset = i.starts ∙ e in
      record {
        start = start;
        run = run;
        is_run = r;
        inside = (omega (arith, s, lo), omega (arith, s, lo, hi));
        bytes =
            i.bytes
            ∙ subst
                (λ o.
                  take (t.line.end_offset - at.start_offset) tail
                  ≡ take (t.line.end_offset - o) (drop (o - start) run))
                (sym s) (ap (λ o. take (t.line.end_offset - o) tail) e);
        ends = (omega (arith, i.starts, i.ends), omega (arith, i.starts, i.ends));
        consumes = (i.consumes.0, omega (arith, s, i.consumes, size, lo, hi));
        one_line = i.one_line;
      }

  read_from-Peeked :
      (front : Option (ℕ × List ℕ)) (runs : List (ℕ × List ℕ)) (c : StreamCursor)
      → ((start : ℕ) (run : List ℕ) → InRuns start run runs → InRuns start run b.runs)
      → IsCursor c
      → Peeked (read_from b max_line_bytes front runs c)
  unfolding read_from line_of
  read_from-Peeked front [] c sub i = i
  read_from-Peeked front ((start, run) ∷ runs) c sub i =
      let offset = max c.offset start in
      let c' = record c { offset = offset; run_index = c.run_index + 1 } in
      if_intro Peeked (leb (length run) (offset - start))
        (λ _.
          read_from-Peeked (some (start, run)) runs c' (λ s r h. sub s r (inr h))
            (record { kept = i.kept }))
        (λ f. record {
          kept =
              taken-IsLine start run offset _ refl (sub start run (inl (refl, refl))) (omega arith)
                (not_leb→lt _ _ f);
        })

  read_next-Peeked : (c : StreamCursor) → IsCursor c → Peeked (read_next b max_line_bytes c)
  unfolding read_next
  read_next-Peeked c i =
      read_from-Peeked (run_in_front b.runs c.run_index) (drop c.run_index b.runs) c
        (λ start run h. InRuns-drop start run c.run_index b.runs h) i

  peek_pending-Peeked :
      (c : StreamCursor) (p : Option (StreamLine × ℕ))
      → IsCursor c
      → Peeked (peek_pending b max_line_bytes c p)
  unfolding peek_pending
  peek_pending-Peeked c none i = read_next-Peeked c i
  peek_pending-Peeked c (some (line, consume)) i = i

  peek-Peeked : (c : StreamCursor) → IsCursor c → Peeked (peek b max_line_bytes c)
  unfolding peek
  peek-Peeked c i = if_intro Peeked c.stopped (λ _. i) (λ _. peek_pending-Peeked c c.pending i)

  consumed-Delivers :
      (c : StreamCursor) (p : Option (StreamLine × ℕ))
      → IsCursor c
      → IsPending p
      → Delivers (consumed b max_line_bytes c p)
  unfolding consumed sync_run
  consumed-Delivers c none i k = i
  consumed-Delivers c (some (line, consume)) i k = ((consume, k), record { kept = tt })

  advanced-Delivers :
      (r : Option StreamLine × StreamCursor) → Peeked r → Delivers (advanced b max_line_bytes r)
  unfolding advanced
  advanced-Delivers (none, c) i = i
  advanced-Delivers (some line, c) i = consumed-Delivers c c.pending i i.kept

  -- `advance` delivers a line of the buffer or nothing, and leaves a cursor that again keeps no
  -- other line: no line is put together across a hole.
  pub advance-Delivers : (c : StreamCursor) → IsCursor c → Delivers (advance b max_line_bytes c)
  unfolding advance
  advance-Delivers c i = advanced-Delivers (peek b max_line_bytes c) (peek-Peeked c i)
