-- ===== src/Tls/Handshake/Certificates/Limits.antt =====
-- Whatever the message holds, the certificates taken from it are within both limits.
use securemailscope.Base.{
  ℕ, suc, ◌≤◌, ◌<◌, Bool, true, false, List, [], ◌∷◌, ◌++◌, length, length-append, ltb, leb,
  if◌then◌else◌, not_ltb→le, not_leb→lt, All, All-append, arith, Bool-cases, inl, inr,
}
use securemailscope.Tls.Wire.{
  ByteReader, Result, ok, err, reader, Read, pure, lift, then_read, remaining, vector8, vector24,
}
use securemailscope.Tls.Loop.{again, Ran, finished}
use securemailscope.Tls.Loop.Invariant.{Holds, while_remaining_inv}
use securemailscope.Tls.Handshake.Certificates.{
  CertificateList, no_certificates, skip_extensions, accept, certificate_body, certificate_entries,
  entry_list, certificate_message, parse_certificate_message,
}

module _ (tls13 : Bool) (max_certificates max_bytes : ℕ) where
  pub record IsLimited (cs : CertificateList) : Type 0 where
    pub few : length cs.certificates ≤ max_certificates
    pub small : All (λ der. length der ≤ max_bytes) cs.certificates

  -- A result, if there is one, is within the limits.
  abbrev pub Limited : Result CertificateList → Type 0
  Limited (ok cs) = IsLimited cs
  Limited (err e) = Unit

  behind_skip :
      (x : Result (Unit {0}) × ByteReader) (cs : CertificateList)
      → IsLimited cs
      → Holds IsLimited (then_read x (λ _. pure (again cs))).0
  behind_skip (ok _, r) cs l = l
  behind_skip (err e, r) cs l = tt

  accept-Limited :
      (cs : CertificateList) (der : List ℕ) (r : ByteReader)
      → IsLimited cs
      → length cs.certificates < max_certificates
      → Holds IsLimited (accept tls13 max_certificates max_bytes cs der r).0
  unfolding accept
  accept-Limited cs der r l room = elim (Bool-cases (ltb max_bytes (length der))) [
    | inl large ↦ rw large (record { few = l.few; small = l.small })
    | inr fits ↦ rw fits (
        behind_skip (skip_extensions tls13 max_certificates max_bytes r)
          (record cs { certificates = cs.certificates ++ der ∷ [] })
          (record {
            few = omega (arith, length-append cs.certificates (der ∷ []));
            small =
                All-append (λ d. length d ≤ max_bytes) cs.certificates (der ∷ []) l.small
                  (not_ltb→le _ _ fits, tt);
          }))
  ]

  certificate_body-Limited :
      (cs : CertificateList) (r : ByteReader)
      → IsLimited cs
      → Holds IsLimited (certificate_body tls13 max_certificates max_bytes cs r).0
  unfolding certificate_body
  certificate_body-Limited cs r l =
      elim (Bool-cases (leb max_certificates (length cs.certificates))) [
        | inl full ↦ rw full (record { few = l.few; small = l.small })
        | inr room ↦ rw room (read_der (vector24 r) (not_leb→lt _ _ room))
      ]
    where
      read_der :
          (x : Result (List ℕ) × ByteReader)
          → length cs.certificates < max_certificates
          → Holds IsLimited (then_read x (accept tls13 max_certificates max_bytes cs)).0
      read_der (ok der, s) room = accept-Limited cs der s l room
      read_der (err e, s) room = tt

  finished-Limited : (x : Ran CertificateList) → IsLimited x.1 → Limited (finished x)
  unfolding finished
  finished-Limited (ok _, cs, r) l = l
  finished-Limited (err e, cs, r) l = tt

  entries-Limited :
      (entries : List ℕ) → Limited (certificate_entries tls13 max_certificates max_bytes entries)
  unfolding certificate_entries
  entries-Limited entries = finished-Limited _ (
      while_remaining_inv IsLimited 3 (certificate_body tls13 max_certificates max_bytes)
        certificate_body-Limited (suc (remaining (reader entries))) no_certificates (reader entries)
        (record { few = omega arith; small = tt }))

  lifted : (x : Result CertificateList) (r : ByteReader) → Limited x → Limited (lift x r).0
  lifted (ok cs) r l = l
  lifted (err e) r l = tt

  after_vector :
      (x : Result (List ℕ) × ByteReader)
      → Limited
          (then_read x
            (λ entries. lift (certificate_entries tls13 max_certificates max_bytes entries))).0
  after_vector (ok entries, r) =
      lifted (certificate_entries tls13 max_certificates max_bytes entries) r
        (entries-Limited entries)
  after_vector (err e, r) = tt

  after_context :
      (x : Result (List ℕ) × ByteReader)
      → Limited (then_read x (λ _. entry_list tls13 max_certificates max_bytes)).0
  unfolding entry_list
  after_context (ok c, r) = after_vector (vector24 r)
  after_context (err e, r) = tt

  -- Whatever bytes a Certificate message holds, it yields at most `max_certificates` certificates,
  -- none longer than `max_certificate_bytes`.
  pub parse_certificate_message-Limited :
      (body : List ℕ) → Limited (parse_certificate_message tls13 max_certificates max_bytes body)
  unfolding parse_certificate_message certificate_message entry_list
  parse_certificate_message-Limited body =
      if_read tls13 _ _ (after_context (vector8 (reader body)))
        (after_vector (vector24 (reader body)))
    where
      if_read :
          (b : Bool) (m k : Read CertificateList)
          → Limited (m (reader body)).0
          → Limited (k (reader body)).0
          → Limited ((if b then m else k) (reader body)).0
      if_read true m k h l = h
      if_read false m k h l = l
