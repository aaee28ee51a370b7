-- ===== src/Tls/Handshake/Hello/RoundTrip.antt =====
-- Encoded hellos are read back.
use mathlib.Core.List.{append-nil}
use mathlib.Core.Bool.{false≢true}
use securemailscope.Base.{
  ℕ, ◌≡◌, ap, sym, ◌∙◌, subst, ◌⊎◌, inl, inr, ◌↔◌, ◌≢◌, Bool-cases, Bool, true, false, List, [],
  ◌∷◌, ◌++◌, length, ltb, le→not_ltb, if◌then◌else◌, arith,
}
use securemailscope.Tls.Wire.{ok, reader, pure, remaining, take_bytes, ◌>>=◌}
use securemailscope.Tls.Wire.Reads.{
  Reads, Reads-pure, Reads-bind, Reads-bind_last, Reads-lift, Reads-take_bytes, Reads-u8, Reads-u16,
  Reads-vector8, Reads-vector16, remaining-unread, encode16, encode_vector8, encode_vector16,
  encode16_list, u16_list-encode16_list,
}
use securemailscope.Tls.Extensions.Values.{
  ExtensionContext, client_hello, server_hello, hello_retry_request,
}
use securemailscope.Tls.Extensions.Block.{parse_extensions}
use securemailscope.Tls.Handshake.Hello.{
  ClientHelloInfo, ServerHelloInfo, hello_retry_request_random, equal_bytes, optional_extensions,
  client_hello_body, parse_client_hello, server_hello_body, parse_server_hello,
}

Reads-optional_extensions :
    (context : ExtensionContext) (block : List ℕ)
    → Reads (optional_extensions context) (encode_vector16 block) (parse_extensions block context)
unfolding optional_extensions
Reads-optional_extensions context block = record {
  at = λ r rest h.
      let more : ltb (remaining r) 2 ≡ false =
        le→not_ltb (remaining r) 2 (omega (arith, remaining-unread r, ap length h)) in
      rw more (
        (Reads-bind_last _ (Reads-vector16 block) (Reads-pure (parse_extensions block context))).at
          r rest h);
}

-- RFC 8446, section 4.1.2.
pub record ClientHello : Type 0 where
  pub version : ℕ
  pub random : List ℕ
  pub session : List ℕ
  pub suites : List ℕ
  pub compression : List ℕ
  pub block : List ℕ

abbrev pub encode_client_hello : ClientHello → List ℕ
encode_client_hello h =
    encode16 h.version
    ++ (h.random
        ++ (encode_vector8 h.session
            ++ (encode_vector16 (encode16_list h.suites)
                ++ (encode_vector8 h.compression ++ encode_vector16 h.block))))

-- Every field of an encoded ClientHello is reported as it was sent, but for the random, which is
-- dropped; the extension block goes to `parse_extensions`.
pub parse_client_hello-encode_client_hello :
    (h : ClientHello)
    → length h.random ≡ 32
    → parse_client_hello (encode_client_hello h)
      ≡ ok (record {
        legacy_version = h.version;
        session_id = h.session;
        session_id_length = length h.session;
        cipher_suites = h.suites;
        compression_methods = h.compression;
        extensions = parse_extensions h.block client_hello;
      })
unfolding parse_client_hello client_hello_body
parse_client_hello-encode_client_hello h size =
    ap (λ x. x.0)
      (body.at (reader (encode_client_hello h)) [] (sym (append-nil (encode_client_hello h))))
  where
    info : ClientHelloInfo
    info = record {
      legacy_version = h.version;
      session_id = h.session;
      session_id_length = length h.session;
      cipher_suites = h.suites;
      compression_methods = h.compression;
      extensions = parse_extensions h.block client_hello;
    }

    random : Reads (take_bytes 32) h.random h.random
    random = subst (λ n. Reads (take_bytes n) h.random h.random) size (Reads-take_bytes h.random)

    tail :
        Reads
          (optional_extensions client_hello >>= λ e. pure (record info { extensions = e }))
          (encode_vector16 h.block)
          info
    tail = Reads-bind_last _ (Reads-optional_extensions client_hello h.block) (Reads-pure info)

    body : Reads client_hello_body (encode_client_hello h) info
    body = Reads-bind _ (Reads-u16 h.version) (
        Reads-bind _ random (
          Reads-bind _ (Reads-vector8 h.session) (
            Reads-bind _ (Reads-vector16 (encode16_list h.suites)) (
              Reads-bind _ {xs = []} (Reads-lift _ h.suites (u16_list-encode16_list h.suites))
                (Reads-bind _ (Reads-vector8 h.compression) tail)))))

-- RFC 8446, section 4.1.3.
pub record ServerHello : Type 0 where
  pub version : ℕ
  pub random : List ℕ
  pub session : List ℕ
  pub suite : ℕ
  pub compression : ℕ
  pub block : List ℕ

abbrev pub encode_server_hello : ServerHello → List ℕ
encode_server_hello h =
    encode16 h.version
    ++ (h.random
        ++ (encode_vector8 h.session
            ++ (encode16 h.suite ++ ((h.compression ∷ []) ++ encode_vector16 h.block))))

equal_bytes_iff : (xs ys : List ℕ) → (equal_bytes xs ys ≡ true) ↔ (xs ≡ ys)
unfolding equal_bytes
equal_bytes_iff (x ∷ xs) (y ∷ ys) = ground (arith, equal_bytes_iff xs ys)
equal_bytes_iff _ _ = ground arith

-- What the encoded ServerHello is reported as, if its random makes it a retry request or not.
pub server_info : ServerHello → Bool → ExtensionContext → ServerHelloInfo
server_info h is_hrr context = record {
  legacy_version = h.version;
  session_id = h.session;
  session_id_length = length h.session;
  cipher_suite = h.suite;
  compression_method = h.compression;
  is_hello_retry_request = is_hrr;
  extensions = parse_extensions h.block context;
}

server_hello_lem :
    (h : ServerHello)
    → length h.random ≡ 32
    → (let hrr = equal_bytes h.random hello_retry_request_random in
        parse_server_hello (encode_server_hello h)
        ≡ ok (server_info h hrr (if hrr then hello_retry_request else server_hello)))
unfolding parse_server_hello server_hello_body server_info
server_hello_lem h size =
    ap (λ x. x.0)
      (body.at (reader (encode_server_hello h)) [] (sym (append-nil (encode_server_hello h))))
  where
    hrr : Bool
    hrr = equal_bytes h.random hello_retry_request_random

    context : ExtensionContext
    context = if hrr then hello_retry_request else server_hello

    random : Reads (take_bytes 32) h.random h.random
    random = subst (λ n. Reads (take_bytes n) h.random h.random) size (Reads-take_bytes h.random)

    info : ServerHelloInfo
    info = server_info h hrr context

    tail :
        Reads
          (optional_extensions context >>= λ e. pure (record info { extensions = e }))
          (encode_vector16 h.block)
          info
    tail = Reads-bind_last _ (Reads-optional_extensions context h.block) (Reads-pure info)

    body : Reads server_hello_body (encode_server_hello h) info
    body = Reads-bind _ (Reads-u16 h.version) (
        Reads-bind _ random (
          Reads-bind _ (Reads-vector8 h.session)
            (Reads-bind _ (Reads-u16 h.suite) (Reads-bind _ (Reads-u8 h.compression) tail))))

-- An encoded ServerHello with the random of RFC 8446 is reported as a HelloRetryRequest, its
-- extensions read as such; with any other random it is a ServerHello. The other fields come back.
pub parse_server_hello-encode_server_hello :
    (h : ServerHello)
    → length h.random ≡ 32
    → ((h.random ≡ hello_retry_request_random)
        × (parse_server_hello (encode_server_hello h)
            ≡ ok (server_info h true hello_retry_request)))
      ⊎ ((h.random ≢ hello_retry_request_random)
          × (parse_server_hello (encode_server_hello h) ≡ ok (server_info h false server_hello)))
parse_server_hello-encode_server_hello h size =
    let same = equal_bytes_iff h.random hello_retry_request_random in
    elim (Bool-cases (equal_bytes h.random hello_retry_request_random)) [
      | inl hrr ↦ inl (
        same.0 hrr,
        server_hello_lem h size
            ∙ ap (λ b. ok (server_info h b (if b then hello_retry_request else server_hello))) hrr,
      )
      | inr plain ↦ inr (
        (λ e. false≢true (sym plain ∙ same.1 e)),
        server_hello_lem h size
            ∙ ap (λ b. ok (server_info h b (if b then hello_retry_request else server_hello)))
                plain,
      )
    ]
