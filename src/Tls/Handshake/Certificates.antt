-- ===== src/Tls/Handshake/Certificates.antt =====
-- `parse_certificate_message`: the certificate list of TLS 1.2 and of TLS 1.3.
pub mod RoundTrip
pub mod Limits
use securemailscope.Base.{
  ℕ, ◌+◌, ◌≤◌, Bool, ◌&&◌, List, [], ◌∷◌, ◌++◌, length, ltb, leb, if◌then◌else◌,
}
use securemailscope.Tls.Wire.{
  Result, ok, reader, Read, pure, lift, remaining, vector8, vector16, vector24, ◌>>=◌, ◌>>◌,
}
use securemailscope.Tls.Loop.{Next, again, leave, loop_over, while_remaining, finished}

-- Why the list was cut; the texts of the notes carry these numbers.
pub data Note : Type 0 where
  list_truncated : ℕ → Note
  certificate_too_large : ℕ → ℕ → Note

pub record CertificateList : Type 0 where
  pub certificates : List (List ℕ)
  pub notes : List Note

abbrev pub no_certificates : CertificateList
no_certificates = record { certificates = []; notes = [] }

module _ (tls13 : Bool) (max_certificates max_certificate_bytes : ℕ) where
  -- The per-certificate extensions of TLS 1.3 are read past.
  skip_extensions : Read (Unit {0})
  skip_extensions r =
      let block : Read (Unit {0}) = vector16 >>= λ _. pure tt in
      if tls13 && leb 2 (remaining r) then block r else (ok tt, r)

  -- Behind one certificate that was read.
  accept : CertificateList → List ℕ → Read (Next CertificateList)
  unfolding skip_extensions
  accept cs der =
      let too_large = record cs {
        notes = cs.notes ++ certificate_too_large (length der) max_certificate_bytes ∷ [];
      } in
      let kept = record cs { certificates = cs.certificates ++ der ∷ [] } in
      if ltb max_certificate_bytes (length der)
      then pure (leave too_large)
      else skip_extensions >>= λ _. pure (again kept)

  unfoldable pub certificate_body : CertificateList → Read (Next CertificateList)
  unfolding accept
  certificate_body cs =
      let full = record cs { notes = cs.notes ++ list_truncated max_certificates ∷ [] } in
      if leb max_certificates (length cs.certificates)
      then pure (leave full)
      else vector24 >>= accept cs

  unfoldable pub certificate_entries : List ℕ → Result CertificateList
  unfolding certificate_body while_remaining finished
  certificate_entries entries =
      finished (loop_over 3 certificate_body no_certificates (reader entries))

  entry_list : Read CertificateList
  unfolding certificate_entries
  entry_list = do entries ← vector24; lift (certificate_entries entries)

  -- The certificate_request_context of TLS 1.3 stands first.
  certificate_message : Read CertificateList
  unfolding entry_list
  certificate_message = if tls13 then vector8 >>= (λ _. entry_list) else entry_list

  unfoldable pub parse_certificate_message : List ℕ → Result CertificateList
  unfolding certificate_message
  parse_certificate_message body = (certificate_message (reader body)).0
