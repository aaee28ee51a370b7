-- ===== src/Tls/Extensions/Names.antt =====
-- A well-framed extension block is read entry by entry, whatever the entries hold.
use mathlib.Core.List.{append_assoc, append-nil}
use securemailscope.Base.{
  ℕ, zero, suc, ◌<◌, ◌≡◌, refl, ap, sym, ◌∙◌, Bool, true, false, List, [], ◌∷◌, ◌++◌, map, length,
  length-append, ltb, lt→ltb, le→not_ltb, if◌then◌else◌, arith,
}
use securemailscope.Tls.Wire.{ByteReader, reader, unread, remaining, advance}
use securemailscope.Tls.Wire.Reads.{
  Reads, Reads-bind, Reads-bind_last, Reads-pure, Reads-u16, Reads-vector16, encode16,
  encode_vector16, unread-advance, remaining-unread,
}
use securemailscope.Tls.Extensions.Values.{ExtensionContext, ParsedExtensions, no_extensions}
use securemailscope.Tls.Extensions.Block.{
  entry, extension_step, extension_step-present, malformed_block, block_round, block_unrolled,
  parse_block, trailing, parse_extensions,
}

-- RFC 8446, section 4.2: each entry is its type and its body behind a two-byte length.
abbrev pub encode_entry : ℕ × List ℕ → List ℕ
encode_entry (t, body) = encode16 t ++ encode_vector16 body

abbrev pub encode_block : List (ℕ × List ℕ) → List ℕ
encode_block [] = []
encode_block (e ∷ es) = encode_entry e ++ encode_block es

-- The entries handled in their order.
unfoldable pub handle_all :
    ExtensionContext → List (ℕ × List ℕ) → ParsedExtensions → ParsedExtensions
handle_all context [] p = p
handle_all context ((t, body) ∷ es) p = handle_all context es (extension_step context t body p)

Reads-entry :
    (t : ℕ) (body : List ℕ) → Reads {A = ℕ × List ℕ} entry (encode_entry (t, body)) (t, body)
unfolding entry
Reads-entry t body =
    Reads-bind _ (Reads-u16 t)
      (Reads-bind_last _ (Reads-vector16 body) (Reads-pure {A = ℕ × List ℕ} (t, body)))

module _ (context : ExtensionContext) where
  parse_block-encode_block :
      (es : List (ℕ × List ℕ)) (rest : List ℕ) (fuel : ℕ) (p : ParsedExtensions) (r : ByteReader)
      → unread r ≡ encode_block es ++ rest
      → length rest < 4
      → length (encode_block es) < fuel
      → parse_block context fuel p r
        ≡ (handle_all context es p, advance (length (encode_block es)) r)
  unfolding parse_block block_unrolled block_round handle_all
  parse_block-encode_block es rest zero p r e few h = absurd (omega arith)
  parse_block-encode_block [] rest (suc fuel) p r e few h =
      rw (lt→ltb (remaining r) 4 (omega (arith, remaining-unread r, ap length e)))
        (ap (λ n. (p, record r { position = n })) (omega arith))
  parse_block-encode_block ((t, body) ∷ es) rest (suc fuel) p r e few h =
      let first = encode_entry (t, body) in
      let e' = e ∙ append_assoc first (encode_block es) rest in
      let more : ltb (remaining r) 4 ≡ false =
        le→not_ltb (remaining r) 4 (omega (arith, remaining-unread r, ap length e')) in
      rw more (
        rw ((Reads-entry t body).at r (encode_block es ++ rest) e') (
          parse_block-encode_block es rest fuel (extension_step context t body p)
            (advance (length first) r) (unread-advance r first (encode_block es ++ rest) e') few
            (omega (arith, length-append first (encode_block es)))
          ∙ ap
              (λ n. (
                handle_all context es (extension_step context t body p),
                record r { position = n },
              ))
              (omega (arith, length-append first (encode_block es)))))

  handle_all-present :
      (es : List (ℕ × List ℕ)) (p : ParsedExtensions)
      → (handle_all context es p).present ≡ p.present ++ map (λ e. e.0) es
  unfolding handle_all
  handle_all-present [] p = sym (append-nil p.present)
  handle_all-present ((t, body) ∷ es) p =
      handle_all-present es (extension_step context t body p)
      ∙ ap (λ ts. ts ++ map (λ e. e.0) es) (extension_step-present context t body p)
      ∙ append_assoc p.present (t ∷ []) (map (λ e. e.0) es)

  marked :
      (b : Bool) (p : ParsedExtensions) → (if b then malformed_block p else p).present ≡ p.present
  unfolding malformed_block
  marked true p = refl
  marked false p = refl

  -- A block of framed entries is handled entry by entry, in order, and every type is recorded as
  -- present, whether or not its body could be read. With one to three bytes behind it, the block
  -- is marked malformed once more.
  pub parse_extensions-encode_block :
      (es : List (ℕ × List ℕ)) (rest : List ℕ)
      → length rest < 4
      → (parse_extensions (encode_block es ++ rest) context ≡ (
          let p = handle_all context es no_extensions in
          if ltb 0 (length rest) then malformed_block p else p))
        × ((parse_extensions (encode_block es ++ rest) context).present ≡ map (λ e. e.0) es)
  unfolding parse_extensions trailing malformed_block
  parse_extensions-encode_block es rest few =
      let bytes = encode_block es ++ rest in
      let p = handle_all context es no_extensions in
      let fits = length-append (encode_block es) rest in
      let left = remaining-unread (advance (length (encode_block es)) (reader bytes)) in
      let past = ap length (unread-advance (reader bytes) (encode_block es) rest refl) in
      let all_read = remaining-unread (reader bytes) in
      rw
        (parse_block-encode_block es rest (suc (remaining (reader bytes))) no_extensions
          (reader bytes) refl few (omega (arith, fits, all_read)))
        (rw (left ∙ past)
          (refl, marked (ltb 0 (length rest)) p ∙ handle_all-present es no_extensions))
