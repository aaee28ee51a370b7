-- ===== src/Tls/Extensions/Rounds.antt =====
-- The loops of the extension parsers end by their own tests, not by the fuel of the model.
use securemailscope.Base.{
  ℕ, zero, suc, ◌<◌, ◌≡◌, refl, ap, sym, inl, inr, List, length, ltb, arith, Bool-cases,
}
use securemailscope.Tls.Wire.{ByteReader, Result, ok, err, remaining}
use securemailscope.Tls.Wire.Moves.{Moved, IsWithin, Moved-IsWithin, Moves-pure, moves_rules}
use securemailscope.Tls.Wire.Takes.{
  Strict, Takes, Takes-bind, Takes-u8, Takes-u16, Takes-vector8, Takes-vector16,
}
use securemailscope.Tls.Loop.Fuel.{Progress, Progress-Takes}
use securemailscope.Tls.Extensions.Values.{ExtensionContext, ParsedExtensions}
use securemailscope.Tls.Extensions.Dispatch.{share_body, name_body, alpn_body, identity_body}
use securemailscope.Tls.Extensions.Block.{entry, block_round, block_unrolled, parse_block}

pub share_body-Progress : Progress 4 share_body
unfolding share_body
share_body-Progress =
    Progress-Takes 4 share_body (λ s. Takes-bind _ _ Takes-u16 (λ g. search moves_rules))

pub name_body-Progress : Progress 3 name_body
unfolding name_body
name_body-Progress =
    Progress-Takes 3 name_body (λ s. Takes-bind _ _ Takes-u8 (λ t. search moves_rules))

pub alpn_body-Progress : Progress 1 alpn_body
unfolding alpn_body
alpn_body-Progress =
    Progress-Takes 1 alpn_body (λ s. Takes-bind _ _ Takes-vector8 (λ raw. Moves-pure _))

pub identity_body-Progress : Progress 6 identity_body
unfolding identity_body
identity_body-Progress =
    Progress-Takes 6 identity_body (λ s. Takes-bind _ _ Takes-vector16 (λ raw. search moves_rules))

Takes-entry : Takes entry
unfolding entry
Takes-entry = Takes-bind _ _ Takes-u16 (λ t. search moves_rules)

module _ (context : ExtensionContext) where
  abbrev Steady : ℕ → Type 0
  Steady fuel =
      (p : ParsedExtensions) (r : ByteReader)
      → IsWithin r
      → remaining r < fuel
      → parse_block context (suc fuel) p r ≡ parse_block context fuel p r

  round-Steady :
      (fuel : ℕ)
      → Steady fuel
      → (p : ParsedExtensions) (r : ByteReader) → remaining r < suc fuel
      → (x : Result (ℕ × List ℕ)) (r' : ByteReader) → Moved r r'
      → Strict r (x, r')
      → block_round context (parse_block context (suc fuel)) p (x, r')
        ≡ block_round context (parse_block context fuel) p (x, r')
  unfolding block_round remaining
  round-Steady fuel ih p r h (ok (t, body)) r' m lt =
      ih _ r' (Moved-IsWithin m) (omega (arith, ap length m.buffer, m.within))
  round-Steady fuel ih p r h (err e) r' m lt = refl

  steady : (fuel : ℕ) → Steady fuel
  unfolding parse_block block_unrolled
  steady zero p r w h = absurd (omega arith)
  steady (suc fuel) p r w h = elim (Bool-cases (ltb (remaining r) 4)) [
    | inl few ↦ rw few
    | inr more ↦ rw more (
        round-Steady fuel (steady fuel) p r h (entry r).0 (entry r).1 (Takes-entry.moves.at r w)
          (Takes-entry.strict r w))
  ]

  -- With more rounds than bytes left, the loop over an extension block solves its own equation.
  pub parse_block_lem :
      (fuel : ℕ) (p : ParsedExtensions) (r : ByteReader)
      → IsWithin r
      → remaining r < fuel
      → parse_block context fuel p r ≡ block_unrolled context (parse_block context fuel) p r
  unfolding parse_block
  parse_block_lem fuel p r w h = sym (steady fuel p r w h)
