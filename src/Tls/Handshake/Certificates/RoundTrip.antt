-- ===== src/Tls/Handshake/Certificates/RoundTrip.antt =====
-- An encoded certificate list is read back, in both framings.
use mathlib.Core.List.{append-nil, append_assoc}
use securemailscope.Base.{
  ℕ, zero, suc, ◌+◌, ◌≤◌, ◌<◌, ◌≡◌, refl, ap, sym, ◌∙◌, Bool, true, false, List, [], ◌∷◌, ◌++◌, map,
  length, length-append, ltb, leb, le→not_ltb, lt→ltb, le→leb, if◌then◌else◌, arith, All,
}
use securemailscope.Tls.Wire.{ByteReader, ok, reader, Read, pure, unread, remaining, advance}
use securemailscope.Tls.Wire.Reads.{
  Reads, Reads-pure, Reads-bind, Reads-bind_last, Reads-lift, Reads-vector8, Reads-vector16,
  Reads-vector24, remaining-unread, unread-advance, encode_vector8, encode_vector16,
  encode_vector24,
}
use securemailscope.Tls.Loop.{Next, again, round, unrolled, while_remaining, finished}
use securemailscope.Tls.Handshake.Certificates.{
  CertificateList, no_certificates, skip_extensions, accept, certificate_body, certificate_entries,
  entry_list, certificate_message, parse_certificate_message,
}

-- A certificate and, in TLS 1.3, the extensions behind it.
pub record CertificateEntry : Type 0 where
  pub der : List ℕ
  pub extensions : List ℕ

module _ (tls13 : Bool) where
  abbrev pub encode_extensions : CertificateEntry → List ℕ
  encode_extensions e = if tls13 then encode_vector16 e.extensions else []

  abbrev pub encode_certificate : CertificateEntry → List ℕ
  encode_certificate e = encode_vector24 e.der ++ encode_extensions e

  abbrev pub encode_list : List CertificateEntry → List ℕ
  encode_list [] = []
  encode_list (e ∷ es) = encode_certificate e ++ encode_list es

  -- The message: in TLS 1.3 the request context stands in front of the list.
  abbrev pub encode_certificate_message : List ℕ → List CertificateEntry → List ℕ
  encode_certificate_message context es =
      (if tls13 then encode_vector8 context else []) ++ encode_vector24 (encode_list es)

Reads-skip_extensions :
    (tls13 : Bool) (m n : ℕ) (e : CertificateEntry)
    → Reads (skip_extensions tls13 m n) (encode_extensions tls13 e) tt
unfolding skip_extensions
Reads-skip_extensions false m n e = Reads-pure tt
Reads-skip_extensions true m n e = record {
  at = λ r rest h.
      let more : leb 2 (remaining r) ≡ true =
        le→leb 2 (remaining r) (omega (arith, remaining-unread r, ap length h)) in
      rw more ((Reads-bind_last _ (Reads-vector16 e.extensions) (Reads-pure tt)).at r rest h);
}

module _ (tls13 : Bool) (max_certificates max_bytes : ℕ) where
  abbrev with_one : CertificateList → CertificateEntry → CertificateList
  with_one cs e = record cs { certificates = cs.certificates ++ e.der ∷ [] }

  Reads-accept :
      (cs : CertificateList) (e : CertificateEntry)
      → length e.der ≤ max_bytes
      → Reads
          (accept tls13 max_certificates max_bytes cs e.der)
          (encode_extensions tls13 e)
          (again (with_one cs e))
  unfolding accept
  Reads-accept cs e h = rw (le→not_ltb max_bytes (length e.der) h) (
      Reads-bind_last (λ _. pure (again (with_one cs e)))
        (Reads-skip_extensions tls13 max_certificates max_bytes e)
        (Reads-pure (again (with_one cs e))))

  Reads-certificate_body :
      (cs : CertificateList) (e : CertificateEntry)
      → length e.der ≤ max_bytes
      → length cs.certificates < max_certificates
      → Reads
          (certificate_body tls13 max_certificates max_bytes cs)
          (encode_certificate tls13 e)
          (again (with_one cs e))
  unfolding certificate_body
  Reads-certificate_body cs e h room =
      let open_list : leb max_certificates (length cs.certificates) ≡ false = ground arith in
      rw open_list (
        Reads-bind (accept tls13 max_certificates max_bytes cs) (Reads-vector24 e.der)
          (Reads-accept cs e h))

  abbrev body : CertificateList → Read (Next CertificateList)
  body = certificate_body tls13 max_certificates max_bytes

  loop_lem :
      (es : List CertificateEntry) (fuel : ℕ) (cs : CertificateList) (r : ByteReader)
      → unread r ≡ encode_list tls13 es
      → All (λ e. length e.der ≤ max_bytes) es
      → length cs.certificates + length es ≤ max_certificates
      → remaining r < fuel
      → finished (while_remaining 3 body fuel cs r)
        ≡ ok (record cs { certificates = cs.certificates ++ map (λ e. e.der) es })
  unfolding while_remaining unrolled round finished
  loop_lem es zero cs r here small room h = absurd (omega arith)
  loop_lem [] (suc fuel) cs r here small room h =
      let none_left : ltb (remaining r) 3 ≡ true =
        lt→ltb _ _ (omega (arith, remaining-unread r, ap length here)) in
      rw none_left
        (ap (λ c. ok (record cs { certificates = c })) (sym (append-nil cs.certificates)))
  loop_lem (e ∷ es) (suc fuel) cs r here small room h =
      let bytes = encode_certificate tls13 e in
      let rest = encode_list tls13 es in
      let sizes = ap length here ∙ length-append bytes rest in
      let more : ltb (remaining r) 3 ≡ false = le→not_ltb _ _ (
        omega (
          arith,
          remaining-unread r,
          sizes,
          length-append (encode_vector24 e.der) (encode_extensions tls13 e),
        )) in
      let one = (Reads-certificate_body cs e small.0 (omega arith)).at r rest here in
      let r' = advance (length bytes) r in
      let behind = unread-advance r bytes rest here in
      let fewer : remaining r' < fuel = omega (
        arith,
        remaining-unread r,
        remaining-unread r',
        ap length behind,
        sizes,
        length-append (encode_vector24 e.der) (encode_extensions tls13 e),
      ) in
      let ih =
        loop_lem es fuel (with_one cs e) r' behind small.1
          (omega (arith, length-append cs.certificates (e.der ∷ []))) fewer in
      let regroup = append_assoc cs.certificates (e.der ∷ []) (map (λ x. x.der) es) in
      rw (more, one) (ih ∙ ap (λ c. ok (record cs { certificates = c })) regroup)

  Reads-entry_list :
      (es : List CertificateEntry)
      → All (λ e. length e.der ≤ max_bytes) es
      → length es ≤ max_certificates
      → Reads
          (entry_list tls13 max_certificates max_bytes)
          (encode_vector24 (encode_list tls13 es))
          (record { certificates = map (λ e. e.der) es; notes = [] })
  unfolding entry_list certificate_entries
  Reads-entry_list es small room =
      let entries = reader (encode_list tls13 es) in
      let all_read =
        loop_lem es (suc (remaining entries)) no_certificates entries refl small (omega arith)
          (omega arith) in
      Reads-bind_last _ (Reads-vector24 (encode_list tls13 es)) (Reads-lift _ _ all_read)

Reads-certificate_message :
    (tls13 : Bool) (max_certificates max_bytes : ℕ) (context : List ℕ) (es : List CertificateEntry)
    → All (λ e. length e.der ≤ max_bytes) es
    → length es ≤ max_certificates
    → Reads
        (certificate_message tls13 max_certificates max_bytes)
        (encode_certificate_message tls13 context es)
        (record { certificates = map (λ e. e.der) es; notes = [] })
unfolding certificate_message
Reads-certificate_message false m n context es small room = Reads-entry_list false m n es small room
Reads-certificate_message true m n context es small room =
    Reads-bind _ (Reads-vector8 context) (Reads-entry_list true m n es small room)

-- The certificates of an encoded Certificate message come back in order, without notes, in the
-- framing of TLS 1.2 and in that of TLS 1.3, if they are within the limits.
pub parse_certificate_message-encode_certificate_message :
    (tls13 : Bool) (max_certificates max_bytes : ℕ) (context : List ℕ) (es : List CertificateEntry)
    → All (λ e. length e.der ≤ max_bytes) es
    → length es ≤ max_certificates
    → parse_certificate_message tls13 max_certificates max_bytes
        (encode_certificate_message tls13 context es)
      ≡ ok (record { certificates = map (λ e. e.der) es; notes = [] })
unfolding parse_certificate_message
parse_certificate_message-encode_certificate_message tls13 m n context es small room =
    let bytes = encode_certificate_message tls13 context es in
    ap (λ x. x.0)
      ((Reads-certificate_message tls13 m n context es small room).at (reader bytes) []
        (sym (append-nil bytes)))
