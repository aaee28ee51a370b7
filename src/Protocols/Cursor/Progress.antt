-- ===== src/Protocols/Cursor/Progress.antt =====
-- A cursor runs out: each line that it delivers takes bytes from what is left.
use securemailscope.Base.{
  ℕ, zero, suc, ◌+◌, ◌-◌, ◌≤◌, ◌<◌, ◌≡◌, refl, sym, ◌∙◌, ap, subst, List, [], ◌∷◌, Option, none,
  some, length, length-drop, drop, leb, ltb, max, arith, if_intro, not_leb→lt,
}
use securemailscope.Protocols.Buffer.{DirectionalBuffer}
use securemailscope.Protocols.Cursor.{StreamLine, Place, take_line}
use securemailscope.Protocols.Cursor.Lines.{take_line-IsTaken}
use securemailscope.Protocols.Cursor.Cursors.{
  StreamCursor, cursor, first_offset, read_from, line_of, read_next, peek, peek_pending, advance,
  advanced, consumed, sync_run, sync_from, run_in_front,
}

-- The bytes of the runs from an offset on.
pub left : List (ℕ × List ℕ) → ℕ → ℕ
left [] offset = 0
left ((start, bytes) ∷ runs) offset = (start + length bytes - max offset start) + left runs offset

unfoldable pub total_bytes : List (ℕ × List ℕ) → ℕ
total_bytes [] = 0
total_bytes ((start, bytes) ∷ runs) = length bytes + total_bytes runs

left_antitone : (runs : List (ℕ × List ℕ)) (a b : ℕ) → a ≤ b → left runs b ≤ left runs a
unfolding left
left_antitone [] a b h = omega arith
left_antitone ((start, bytes) ∷ runs) a b h = omega (arith, h, left_antitone runs a b h)

pub left-total_bytes : (runs : List (ℕ × List ℕ)) (a : ℕ) → left runs a ≤ total_bytes runs
unfolding left total_bytes
left-total_bytes [] a = omega arith
left-total_bytes ((start, bytes) ∷ runs) a = omega (arith, left-total_bytes runs a)

-- Behind a piece of the first run there is less.
left_strict :
    (start : ℕ) (bytes : List ℕ) (runs : List (ℕ × List ℕ)) (a k : ℕ)
    → max a start - start < length bytes
    → 0 < k
    → suc (left ((start, bytes) ∷ runs) (max a start + k)) ≤ left ((start, bytes) ∷ runs) a
unfolding left
left_strict start bytes runs a k h p =
    omega (arith, h, p, left_antitone runs a (max a start + k) (omega arith))

drop-suc {ℓ} :
    {A : Type ℓ} (i : ℕ) (xs : List A) (y : A) (ys : List A)
    → drop i xs ≡ y ∷ ys
    → drop (i + 1) xs ≡ ys
drop-suc zero [] y ys h = absurd (ground arith)
drop-suc zero (x ∷ xs) y ys h = ground (arith, h)
drop-suc (suc i) [] y ys h = absurd (ground arith)
drop-suc (suc i) (x ∷ xs) y ys h =
    ap (λ k. drop k (x ∷ xs)) (let e : suc i + 1 ≡ suc (i + 1) = omega arith in e)
    ∙ drop-suc i xs y ys h

module _ (b : DirectionalBuffer) (max_line_bytes : ℕ) where
  -- What a cursor has left; a line that it keeps counts once.
  rank_of : Option (StreamLine × ℕ) → StreamCursor → ℕ
  rank_of none c = left (drop c.run_index b.runs) c.offset
  rank_of (some (line, consume)) c =
      suc (left (drop c.run_index b.runs) (line.start_offset + consume))

  pub rank : StreamCursor → ℕ
  unfolding rank_of
  rank c = rank_of c.pending c

  sync_from-left :
      (index : ℕ) (runs : List (ℕ × List ℕ)) (offset : ℕ)
      → drop index b.runs ≡ runs
      → left
          (drop (sync_from b max_line_bytes index runs offset).1 b.runs)
          (sync_from b max_line_bytes index runs offset).0
        ≤ left runs offset
  unfolding sync_from left
  sync_from-left index [] offset e = rw e (omega arith)
  sync_from-left index ((start, bytes) ∷ runs) offset e =
      if_intro
        (λ (r : ℕ × ℕ).
          left (drop r.1 b.runs) r.0 ≤ (start + length bytes - max offset start) + left runs offset)
        (ltb offset (start + length bytes))
        (λ _. rw e (left_antitone ((start, bytes) ∷ runs) offset (max offset start) (omega arith)))
        (λ _. omega (
          arith,
          sync_from-left (index + 1) runs offset (drop-suc index b.runs (start, bytes) runs e),
        ))

  -- A line of the first run that is left.
  line_of-rank :
      (start : ℕ) (bytes : List ℕ) (runs : List (ℕ × List ℕ)) (c : StreamCursor) (at : Place)
      → drop c.run_index b.runs ≡ (start, bytes) ∷ runs
      → at.start_offset ≡ max c.offset start
      → max c.offset start - start < length bytes
      → rank
          (line_of b max_line_bytes c
            (max c.offset start)
            (take_line b max_line_bytes at (drop (max c.offset start - start) bytes))).1
        ≤ left ((start, bytes) ∷ runs) c.offset
  unfolding line_of rank rank_of
  line_of-rank start bytes runs c at e a inside =
      let local = max c.offset start - start in
      let t = take_line b max_line_bytes at (drop local bytes) in
      let i =
        take_line-IsTaken b max_line_bytes at (drop local bytes)
          (omega (arith, length-drop local bytes, inside)) in
      let s : t.line.start_offset ≡ max c.offset start = i.starts ∙ a in
      rw (e, s) (left_strict start bytes runs c.offset t.consume inside i.consumes.0)

  read_from-rank :
      (front : Option (ℕ × List ℕ)) (runs : List (ℕ × List ℕ)) (c : StreamCursor)
      → c.pending ≡ none
      → drop c.run_index b.runs ≡ runs
      → rank (read_from b max_line_bytes front runs c).1 ≤ left runs c.offset
  unfolding read_from rank rank_of left
  read_from-rank front [] c p e = rw (p, e) (omega arith)
  read_from-rank front ((start, bytes) ∷ runs) c p e =
      let offset = max c.offset start in
      let c' = record c { offset = offset; run_index = c.run_index + 1 } in
      if_intro
        (λ (r : Option StreamLine × StreamCursor).
          rank r.1 ≤ (start + length bytes - offset) + left runs c.offset)
        (leb (length bytes) (offset - start))
        (λ _. omega (
          arith,
          read_from-rank (some (start, bytes)) runs c' p
              (drop-suc c.run_index b.runs (start, bytes) runs e),
          left_antitone runs c.offset offset (omega arith),
        ))
        (λ f. line_of-rank start bytes runs c _ e refl (not_leb→lt _ _ f))

  peek_pending-rank :
      (c : StreamCursor) (p : Option (StreamLine × ℕ))
      → c.pending ≡ p
      → rank (peek_pending b max_line_bytes c p).1 ≤ rank c
  unfolding peek_pending read_next rank rank_of
  peek_pending-rank c none e =
      subst (λ n. rank (read_next b max_line_bytes c).1 ≤ n) (ap (λ q. rank_of q c) (sym e))
        (read_from-rank (run_in_front b.runs c.run_index) (drop c.run_index b.runs) c e refl)
  peek_pending-rank c (some (line, consume)) e = omega arith

  pub peek-rank : (c : StreamCursor) → rank (peek b max_line_bytes c).1 ≤ rank c
  unfolding peek
  peek-rank c =
      if_intro (λ (r : Option StreamLine × StreamCursor). rank r.1 ≤ rank c) c.stopped
        (λ _. omega arith) (λ _. peek_pending-rank c c.pending refl)

  -- Less is left behind a line that was delivered.
  abbrev pub Spends : ℕ → Option StreamLine × StreamCursor → Type 0
  Spends n (none, c) = Unit
  Spends n (some line, c) = rank c < n

  consumed-Spends :
      (c : StreamCursor) (p : Option (StreamLine × ℕ))
      → Spends (rank_of p c) (consumed b max_line_bytes c p)
  unfolding consumed sync_run rank rank_of
  consumed-Spends c none = tt
  consumed-Spends c (some (line, consume)) = omega (
    arith,
    sync_from-left c.run_index (drop c.run_index b.runs) (line.start_offset + consume) refl,
  )

  Spends-mono : (m n : ℕ) (r : Option StreamLine × StreamCursor) → m ≤ n → Spends m r → Spends n r
  Spends-mono m n (none, c) h s = tt
  Spends-mono m n (some line, c) h s = omega (arith, h, s)

  advanced-Spends :
      (n : ℕ) (r : Option StreamLine × StreamCursor)
      → rank r.1 ≤ n
      → Spends n (advanced b max_line_bytes r)
  unfolding advanced rank
  advanced-Spends n (none, c) h = tt
  advanced-Spends n (some line, c) h =
      Spends-mono (rank_of c.pending c) n _ h (consumed-Spends c c.pending)

  pub advance-Spends : (c : StreamCursor) → Spends (rank c) (advance b max_line_bytes c)
  unfolding advance
  advance-Spends c = advanced-Spends (rank c) (peek b max_line_bytes c) (peek-rank c)

  -- A new cursor has no more left than the runs have bytes.
  pub cursor-rank : rank (cursor b max_line_bytes) ≤ total_bytes b.runs
  unfolding cursor rank rank_of
  cursor-rank = left-total_bytes b.runs (first_offset b.runs)
