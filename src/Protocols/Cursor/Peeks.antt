-- ===== src/Protocols/Cursor/Peeks.antt =====
-- `advance` consumes the line that `peek` shows.
use securemailscope.Base.{
  false, if◌then◌else◌, ℕ, ◌+◌, ◌-◌, ◌≡◌, refl, sym, subst, List, [], ◌∷◌, Option, none, some,
  length, drop, leb, max, if_intro,
}
use securemailscope.Protocols.Buffer.{DirectionalBuffer}
use securemailscope.Protocols.Cursor.{StreamLine}
use securemailscope.Protocols.Cursor.Cursors.{
  StreamCursor, read_from, line_of, read_next, peek, peek_pending, advance, advanced, consumed,
  run_in_front,
}

module _ (b : DirectionalBuffer) (max_line_bytes : ℕ) where
  -- The cursor keeps the line that is shown.
  abbrev Keeps : Option StreamLine × StreamCursor → Type 0
  Keeps (none, c) = Unit
  Keeps (some line, c) = (n : ℕ) × (c.pending ≡ some (line, n))

  read_from-Keeps :
      (front : Option (ℕ × List ℕ)) (runs : List (ℕ × List ℕ)) (c : StreamCursor)
      → Keeps (read_from b max_line_bytes front runs c)
  unfolding read_from line_of
  read_from-Keeps front [] c = tt
  read_from-Keeps front ((start, run) ∷ runs) c =
      let offset = max c.offset start in
      if_intro Keeps (leb (length run) (offset - start))
        (λ _.
          read_from-Keeps (some (start, run)) runs
            (record c { offset = offset; run_index = c.run_index + 1 }))
        (λ _. (_, refl))

  peek_pending-Keeps :
      (c : StreamCursor) (p : Option (StreamLine × ℕ))
      → c.pending ≡ p
      → Keeps (peek_pending b max_line_bytes c p)
  unfolding peek_pending read_next
  peek_pending-Keeps c none e =
      read_from-Keeps (run_in_front b.runs c.run_index) (drop c.run_index b.runs) c
  peek_pending-Keeps c (some (line, n)) e = (n, e)

  peek-Keeps : (c : StreamCursor) → Keeps (peek b max_line_bytes c)
  unfolding peek
  peek-Keeps c = if_intro Keeps c.stopped (λ _. tt) (λ _. peek_pending-Keeps c c.pending refl)

  advanced_lem :
      (r : Option StreamLine × StreamCursor) → Keeps r → (advanced b max_line_bytes r).0 ≡ r.0
  unfolding advanced consumed
  advanced_lem (none, c) k = refl
  advanced_lem (some line, c) (n, e) =
      subst (λ p. (consumed b max_line_bytes c p).0 ≡ some line) (sym e) refl

  -- `advance` returns the line that `peek` shows, and none exactly if `peek` shows none.
  pub advance-peek :
      (c : StreamCursor) → (advance b max_line_bytes c).0 ≡ (peek b max_line_bytes c).0
  unfolding advance
  advance-peek c = advanced_lem (peek b max_line_bytes c) (peek-Keeps c)

  -- A line that is kept is shown by a cursor that is not stopped.
  Shows : Option StreamLine × StreamCursor → Type 0
  Shows (none, c) = Unit
  Shows (some line, c) = (n : ℕ) × (c.pending ≡ some (line, n)) × (c.stopped ≡ false)

  read_from-Shows :
      (front : Option (ℕ × List ℕ)) (runs : List (ℕ × List ℕ)) (c : StreamCursor)
      → c.stopped ≡ false
      → Shows (read_from b max_line_bytes front runs c)
  unfolding read_from line_of Shows
  read_from-Shows front [] c h = tt
  read_from-Shows front ((start, run) ∷ runs) c h =
      let offset = max c.offset start in
      if_intro Shows (leb (length run) (offset - start))
        (λ _.
          read_from-Shows (some (start, run)) runs
            (record c { offset = offset; run_index = c.run_index + 1 }) h)
        (λ _. (_, refl, h))

  peek_pending-Shows :
      (c : StreamCursor) (p : Option (StreamLine × ℕ))
      → c.pending ≡ p
      → c.stopped ≡ false
      → Shows (peek_pending b max_line_bytes c p)
  unfolding peek_pending read_next Shows
  peek_pending-Shows c none e h =
      read_from-Shows (run_in_front b.runs c.run_index) (drop c.run_index b.runs) c h
  peek_pending-Shows c (some (line, n)) e h = (n, e, h)

  peek-Shows : (c : StreamCursor) → Shows (peek b max_line_bytes c)
  unfolding peek Shows
  peek-Shows c = if_intro Shows c.stopped (λ _. tt) (λ f. peek_pending-Shows c c.pending refl f)

  shown_again :
      (r : Option StreamLine × StreamCursor) (line : StreamLine)
      → Shows r
      → r.0 ≡ some line
      → (peek b max_line_bytes r.1).0 ≡ some line
  unfolding peek peek_pending Shows
  shown_again (none, c) line k e = absurd (cc e)
  shown_again (some l, c) line (n, p, h) e =
      subst
        (λ x. (if x then (none, c) else peek_pending b max_line_bytes c c.pending).0 ≡ some line)
        (sym h) (subst (λ x. (peek_pending b max_line_bytes c x).0 ≡ some line) (sym p) e)

  pub peek_again :
      (c : StreamCursor) (line : StreamLine)
      → (peek b max_line_bytes c).0 ≡ some line
      → (peek b max_line_bytes (peek b max_line_bytes c).1).0 ≡ some line
  peek_again c line e = shown_again (peek b max_line_bytes c) line (peek-Shows c) e
