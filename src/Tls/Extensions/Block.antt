-- ===== src/Tls/Extensions/Block.antt =====
-- `parse_extensions`: the loop over the entries of an extension block.
use securemailscope.Base.{◌≡◌, refl, ◌∙◌, ℕ, zero, suc, List, [], ◌∷◌, ◌++◌, ltb, if◌then◌else◌}
use securemailscope.Base.Int.{ℤ, pos, negsuc}
use securemailscope.Tls.Wire.{
  ByteReader, Result, ok, err, reader, Read, pure, remaining, u16, vector16, ◌>>=◌,
}
use securemailscope.Tls.Extensions.Values.{ExtensionContext, ParsedExtensions, no_extensions}
use securemailscope.Tls.Extensions.Dispatch.Untouched.{dispatch-Untouched}
use securemailscope.Tls.Extensions.Dispatch.{Dispatched, dispatch}

add_malformed : ℤ → ParsedExtensions → ParsedExtensions
add_malformed n p = record p { malformed = p.malformed ++ n ∷ [] }

-- The type and the body of one entry.
unfoldable pub entry : Read (ℕ × List ℕ)
entry = do t ← u16; body ← vector16; pure (t, body)

-- `except TLSParseError: result.malformed.append(extension_type)`
caught : ℕ → Dispatched → ParsedExtensions
unfolding add_malformed
caught t (ok _, p) = p
caught t (err e, p) = add_malformed (pos t) p

unfoldable pub extension_step : ExtensionContext → ℕ → List ℕ → ParsedExtensions → ParsedExtensions
unfolding caught
extension_step context t body p =
    caught t (dispatch t body context (record p { present = p.present ++ t ∷ [] }))

-- -1 in `malformed`
unfoldable pub malformed_block : ParsedExtensions → ParsedExtensions
unfolding add_malformed
malformed_block p = add_malformed (negsuc 0) p

module _ (context : ExtensionContext) where
  unfoldable pub block_round :
      (ParsedExtensions → ByteReader → ParsedExtensions × ByteReader)
      → ParsedExtensions
      → Result (ℕ × List ℕ) × ByteReader
      → ParsedExtensions × ByteReader
  block_round loop p (ok (t, body), r) = loop (extension_step context t body p) r
  block_round loop p (err e, r) = (malformed_block p, r)

  unfoldable pub block_unrolled :
      (ParsedExtensions → ByteReader → ParsedExtensions × ByteReader)
      → ParsedExtensions
      → ByteReader
      → ParsedExtensions × ByteReader
  unfolding block_round
  block_unrolled loop p r = if ltb (remaining r) 4 then (p, r) else block_round loop p (entry r)

  -- Each round takes four bytes, so the fuel is a round for each byte and one more.
  unfoldable pub parse_block : ℕ → ParsedExtensions → ByteReader → ParsedExtensions × ByteReader
  unfolding block_unrolled
  parse_block zero p r = (p, r)
  parse_block (suc fuel) p r = block_unrolled (parse_block fuel) p r

-- The `if reader.remaining:` behind the loop.
unfoldable pub trailing : ParsedExtensions × ByteReader → ParsedExtensions
trailing (p, r) = if ltb 0 (remaining r) then malformed_block p else p

unfoldable pub parse_extensions : List ℕ → ExtensionContext → ParsedExtensions
unfolding parse_block trailing
parse_extensions bytes context =
    let r = reader bytes in trailing (parse_block context (suc (remaining r)) no_extensions r)

caught-present :
    (t : ℕ) (x : Result (Unit {0})) (p : ParsedExtensions) → (caught t (x, p)).present ≡ p.present
unfolding caught
caught-present t (ok _) p = refl
caught-present t (err e) p = refl

-- One entry adds its type to `present`, whether or not its body could be read.
pub extension_step-present :
    (context : ExtensionContext) (t : ℕ) (body : List ℕ) (p : ParsedExtensions)
    → (extension_step context t body p).present ≡ p.present ++ t ∷ []
unfolding extension_step
extension_step-present context t body p =
    let p' = record p { present = p.present ++ t ∷ [] } in
    caught-present t (dispatch t body context p').0 (dispatch t body context p').1
    ∙ (dispatch-Untouched body p' t context).present
