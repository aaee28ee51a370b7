-- ===== src/Tls/Handshake/Stream/Bounds.antt =====
-- The buffer stays within its limit, and its pieces map every byte back to the stream.
use securemailscope.Base.{
  ◌⊎◌, ℕ, ◌+◌, ◌-◌, ◌≤◌, ◌<◌, ◌≡◌, refl, ap, sym, ◌∙◌, true, List, [], ◌∷◌, ◌++◌, some, length,
  length-append, ltb, leb, if◌then◌else◌, arith, Bool-cases, inl, inr, not_ltb→le,
}
use securemailscope.Tls.Records.{RecordFragment}
use securemailscope.Tls.Handshake.Stream.{
  HandshakeStream, Piece, empty_stream, append, piece_of, Located, locate_piece, locate_pieces,
  nowhere, placed, locate, last_offset,
}

-- The pieces cut the buffer from one position on into consecutive stretches, up to its end.
abbrev pub Cuts : ℕ → List Piece → ℕ → Type 0
Cuts start [] end = start ≡ end
Cuts start (f ∷ fs) end = (f.buffer_start ≡ start) × Cuts (start + f.length_of) fs end

pub record IsStream (limit : ℕ) (s : HandshakeStream) : Type 0 where
  pub bounded : length s.buffer ≤ limit
  pub cuts : Cuts 0 s.pieces (length s.buffer)

Cuts-concat :
    (start : ℕ) (fs : List Piece) (end : ℕ) (f : Piece)
    → Cuts start fs end
    → f.buffer_start ≡ end
    → Cuts start (fs ++ f ∷ []) (end + f.length_of)
Cuts-concat start [] end f c e = (e ∙ sym c, ap (λ n. n + f.length_of) c)
Cuts-concat start (g ∷ fs) end f c e = (c.0, Cuts-concat (start + g.length_of) fs end f c.1 e)

-- `append` keeps the buffer within the limit and its pieces in step with it. It adds the whole body
-- or, over the limit, nothing but the mark of an overflow.
pub append-IsStream :
    (s : HandshakeStream) (f : RecordFragment) (limit : ℕ)
    → IsStream limit s
    → IsStream limit (append s f limit).1
      × ((append s f limit).0 ≡ leb (length s.buffer + length f.body) limit)
      × ((append s f limit).1.buffer
          ≡ (if (append s f limit).0 then s.buffer ++ f.body else s.buffer))
      × ((append s f limit).1.overflowed ≡ (if (append s f limit).0 then s.overflowed else true))
unfolding append piece_of
append-IsStream s f limit v =
    let grown = length-append s.buffer f.body in
    elim (Bool-cases (ltb limit (length s.buffer + length f.body))) [
      | inl over ↦ rw over (record { bounded = v.bounded; cuts = v.cuts }, ground arith, refl, refl)
      | inr fits ↦ rw fits (
        record {
          bounded = omega (arith, grown, not_ltb→le _ _ fits);
          cuts = rw grown (Cuts-concat 0 s.pieces (length s.buffer) (piece_of s f) v.cuts refl);
        },
        ground arith,
        refl,
        refl,
      )
    ]

IsStream-empty_stream : (limit : ℕ) → IsStream limit empty_stream
IsStream-empty_stream limit = record { bounded = omega arith; cuts = refl }

Cuts-le : (start : ℕ) (fs : List Piece) (end : ℕ) → Cuts start fs end → start ≤ end
Cuts-le start [] end c = omega arith
Cuts-le start (f ∷ fs) end c = omega (arith, Cuts-le (start + f.length_of) fs end c.1)

-- A range that lies behind a piece, or in front of it, passes it over.
passed_over :
    (start end : ℕ) (f : Piece) (l : Located)
    → (f.buffer_start + f.length_of ≤ start) ⊎ (end ≤ f.buffer_start)
    → locate_piece start end f l ≡ l
unfolding locate_piece
passed_over start end f l h = ground arith

skip_before :
    (start end : ℕ) (from : ℕ) (fs rest : List Piece) (to : ℕ) (l : Located)
    → Cuts from fs to
    → to ≤ start
    → locate_pieces start end (fs ++ rest) l ≡ locate_pieces start end rest l
unfolding locate_pieces
skip_before start end from [] rest to l c h = refl
skip_before start end from (f ∷ fs) rest to l c h =
    let le = Cuts-le (from + f.length_of) fs to c.1 in
    ap (locate_pieces start end (fs ++ rest))
      (passed_over start end f l (inl (omega (arith, le, c.0))))
    ∙ skip_before start end (from + f.length_of) fs rest to l c.1 h

skip_after :
    (start end : ℕ) (from : ℕ) (fs : List Piece) (to : ℕ) (l : Located)
    → Cuts from fs to
    → end ≤ from
    → locate_pieces start end fs l ≡ l
unfolding locate_pieces
skip_after start end from [] to l c h = refl
skip_after start end from (f ∷ fs) to l c h =
    ap (locate_pieces start end fs) (passed_over start end f l (inr (omega (arith, c.0))))
    ∙ skip_after start end (from + f.length_of) fs to l c.1 (omega arith)

-- Cutting at one piece.
Cuts-split :
    (start : ℕ) (fs : List Piece) (f : Piece) (gs : List Piece) (end : ℕ)
    → Cuts start (fs ++ f ∷ gs) end
    → Cuts start fs f.buffer_start × Cuts (f.buffer_start + f.length_of) gs end
Cuts-split start [] f gs end c = (sym c.0, rw c.0 c.1)
Cuts-split start (h ∷ fs) f gs end c =
    let r = Cuts-split (start + h.length_of) fs f gs end c.1 in ((c.0, r.0), r.1)

hit :
    (p : ℕ) (f : Piece)
    → f.buffer_start ≤ p
    → p < f.buffer_start + f.length_of
    → ((locate_piece p (p + 1) f nowhere).stream_start
        ≡ some (f.stream_offset + (p - f.buffer_start)))
      × ((locate_piece p (p + 1) f nowhere).stream_end ≡ f.stream_offset + (p - f.buffer_start) + 1)
      × ((locate_piece p (p + 1) f nowhere).records ≡ f.record_index ∷ [])
unfolding locate_piece
hit p f h k = ground arith

placed_lem :
    (l : Located) (fallback n : ℕ)
    → l.stream_start ≡ some n
    → ((placed l fallback l.stream_start).stream_start ≡ n)
      × ((placed l fallback l.stream_start).stream_end ≡ l.stream_end)
      × ((placed l fallback l.stream_start).records ≡ l.records)
unfolding placed
placed_lem l fallback n e = ground arith

-- A byte of the buffer is traced to the stream offset that its record put it at, and to that
-- record alone.
pub locate_byte :
    (limit : ℕ) (s : HandshakeStream) (fs : List Piece) (f : Piece) (gs : List Piece) (p : ℕ)
    → IsStream limit s
    → s.pieces ≡ fs ++ f ∷ gs
    → f.buffer_start ≤ p
    → p < f.buffer_start + f.length_of
    → ((locate s p 1).stream_start ≡ f.stream_offset + (p - f.buffer_start))
      × ((locate s p 1).stream_end ≡ f.stream_offset + (p - f.buffer_start) + 1)
      × ((locate s p 1).records ≡ f.record_index ∷ [])
unfolding locate
locate_byte limit s fs f gs p v e h k =
    let c = Cuts-split 0 fs f gs (length s.buffer) (rw e at v.cuts) in
    let l = locate_piece p (p + 1) f nowhere in
    let located : locate_pieces p (p + 1) s.pieces nowhere ≡ l =
      ap (λ ps. locate_pieces p (p + 1) ps nowhere) e
      ∙ skip_before p (p + 1) 0 fs (f ∷ gs) f.buffer_start nowhere c.0 h
      ∙ unfold locate_pieces in
        skip_after p (p + 1) (f.buffer_start + f.length_of) gs (length s.buffer) l c.1
          (omega arith) in
    let x = hit p f h k in
    let y = placed_lem l (last_offset s.pieces) (f.stream_offset + (p - f.buffer_start)) x.0 in
    rw located (y.0, y.1 ∙ x.1, y.2 ∙ x.2)
