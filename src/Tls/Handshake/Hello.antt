-- ===== src/Tls/Handshake/Hello.antt =====
-- ClientHello, ServerHello, ServerKeyExchange and alert bodies.
pub mod RoundTrip
use Prim.Native.String.{String}
use securemailscope.Base.{
  ℕ, ◌+◌, ◌*◌, ◌<◌, Bool, true, false, not, ◌&&◌, List, [], ◌∷◌, Option, none, some, length, lookup,
  ltb, ◌==◌, if◌then◌else◌,
}
use securemailscope.Tls.Wire.{
  Result, ok, err, reader, Read, pure, lift, remaining, take_bytes, u8, u16, vector8, vector16,
  u16_list, ◌>>=◌, ◌>>◌,
}
use securemailscope.Tls.Extensions.Values.{
  ExtensionContext, client_hello, server_hello, hello_retry_request, ParsedExtensions,
  no_extensions,
}
use securemailscope.Tls.Extensions.Block.{parse_extensions}

pub record ClientHelloInfo : Type 0 where
  pub legacy_version : ℕ
  pub session_id : List ℕ
  pub session_id_length : ℕ
  pub cipher_suites : List ℕ
  pub compression_methods : List ℕ
  pub extensions : ParsedExtensions

pub record ServerHelloInfo : Type 0 where
  pub legacy_version : ℕ
  pub session_id : List ℕ
  pub session_id_length : ℕ
  pub cipher_suite : ℕ
  pub compression_method : ℕ
  pub is_hello_retry_request : Bool
  pub extensions : ParsedExtensions

-- HELLO_RETRY_REQUEST_RANDOM
abbrev pub hello_retry_request_random : List ℕ
hello_retry_request_random =
    0xcf ∷ 0x21 ∷ 0xad ∷ 0x74 ∷ 0xe5 ∷ 0x9a ∷ 0x61 ∷ 0x11 ∷ 0xbe ∷ 0x1d ∷ 0x8c ∷ 0x02 ∷ 0x1e ∷ 0x65
    ∷ 0xb8 ∷ 0x91 ∷ 0xc2 ∷ 0xa2 ∷ 0x11 ∷ 0x16 ∷ 0x7a ∷ 0xbb ∷ 0x8c ∷ 0x5e ∷ 0x07 ∷ 0x9e ∷ 0x09
    ∷ 0xe2 ∷ 0xc8 ∷ 0xa8 ∷ 0x33 ∷ 0x9c ∷ []

-- random == HELLO_RETRY_REQUEST_RANDOM
unfoldable pub equal_bytes : List ℕ → List ℕ → Bool
equal_bytes [] [] = true
equal_bytes (x ∷ xs) (y ∷ ys) = x == y && equal_bytes xs ys
equal_bytes _ _ = false

-- The tail of both hellos: extensions, if two bytes for their length are left.
unfoldable pub optional_extensions : ExtensionContext → Read ParsedExtensions
optional_extensions context r =
    let block : Read ParsedExtensions =
      vector16 >>= λ bytes. pure (parse_extensions bytes context) in
    if ltb (remaining r) 2 then (ok no_extensions, r) else block r

unfoldable pub client_hello_body : Read ClientHelloInfo
unfolding optional_extensions
client_hello_body = do
  version ← u16
  take_bytes 32
  session ← vector8
  suites_raw ← vector16
  suites ← lift (u16_list suites_raw)
  compression ← vector8
  extensions ← optional_extensions client_hello
  pure (record {
    legacy_version = version;
    session_id = session;
    session_id_length = length session;
    cipher_suites = suites;
    compression_methods = compression;
    extensions = extensions;
  })

unfoldable pub parse_client_hello : List ℕ → Result ClientHelloInfo
unfolding client_hello_body
parse_client_hello body = (client_hello_body (reader body)).0

unfoldable pub server_hello_body : Read ServerHelloInfo
unfolding optional_extensions equal_bytes
server_hello_body = do
  version ← u16
  random ← take_bytes 32
  let is_hrr = equal_bytes random hello_retry_request_random
  session ← vector8
  suite ← u16
  compression ← u8
  extensions ← optional_extensions (if is_hrr then hello_retry_request else server_hello)
  pure (record {
    legacy_version = version;
    session_id = session;
    session_id_length = length session;
    cipher_suite = suite;
    compression_method = compression;
    is_hello_retry_request = is_hrr;
    extensions = extensions;
  })

unfoldable pub parse_server_hello : List ℕ → Result ServerHelloInfo
unfolding server_hello_body
parse_server_hello body = (server_hello_body (reader body)).0

-- The negotiated key exchange; any text but the two tested for is `other`.
pub data KeyExchange : Type 0 where
  ecdhe dhe other : KeyExchange

-- `note` is a text and is left out.
pub record ServerKeyExchangeInfo : Type 0 where
  pub curve_type : Option ℕ
  pub named_curve : Option ℕ
  pub public_key_length : Option ℕ
  pub dh_prime_length_bits : Option ℕ
  pub dh_generator_length : Option ℕ
  pub parsed : Bool

abbrev pub not_interpreted : ServerKeyExchangeInfo
not_interpreted = record {
  curve_type = none;
  named_curve = none;
  public_key_length = none;
  dh_prime_length_bits = none;
  dh_generator_length = none;
  parsed = false;
}

named_curve_key : ℕ → Read ServerKeyExchangeInfo
named_curve_key curve_type = do
  named_curve ← u16
  key ← vector8
  pure (record not_interpreted {
    curve_type = some curve_type;
    named_curve = some named_curve;
    public_key_length = some (length key);
    parsed = true;
  })

unfoldable pub key_exchange_body : KeyExchange → Read ServerKeyExchangeInfo
unfolding named_curve_key
key_exchange_body ecdhe = do
  curve_type ← u8
  let other_form = record not_interpreted { curve_type = some curve_type }
  if not (curve_type == 3) then pure other_form else named_curve_key curve_type
key_exchange_body dhe = do
  prime ← vector16
  generator ← vector16
  key ← vector16
  pure (record not_interpreted {
    dh_prime_length_bits = some (length prime * 8);
    dh_generator_length = some (length generator);
    public_key_length = some (length key);
    parsed = true;
  })
key_exchange_body other = pure not_interpreted

-- `except TLSParseError`
or_not_interpreted : Result ServerKeyExchangeInfo → ServerKeyExchangeInfo
or_not_interpreted (ok info) = info
or_not_interpreted (err e) = not_interpreted

unfoldable pub parse_server_key_exchange : List ℕ → KeyExchange → ServerKeyExchangeInfo
unfolding key_exchange_body or_not_interpreted
parse_server_key_exchange body kex = or_not_interpreted (key_exchange_body kex (reader body)).0

alert_levels : List (ℕ × String)
alert_levels = (1, "warning") ∷ (2, "fatal") ∷ []

alert_descriptions : List (ℕ × String)
alert_descriptions =
    (0, "close_notify")
    ∷ (10, "unexpected_message")
    ∷ (20, "bad_record_mac")
    ∷ (21, "decryption_failed")
    ∷ (22, "record_overflow")
    ∷ (40, "handshake_failure")
    ∷ (42, "bad_certificate")
    ∷ (43, "unsupported_certificate")
    ∷ (44, "certificate_revoked")
    ∷ (45, "certificate_expired")
    ∷ (46, "certificate_unknown")
    ∷ (47, "illegal_parameter")
    ∷ (48, "unknown_ca")
    ∷ (49, "access_denied")
    ∷ (50, "decode_error")
    ∷ (51, "decrypt_error")
    ∷ (70, "protocol_version")
    ∷ (71, "insufficient_security")
    ∷ (80, "internal_error")
    ∷ (86, "inappropriate_fallback")
    ∷ (90, "user_canceled")
    ∷ (109, "missing_extension")
    ∷ (110, "unsupported_extension")
    ∷ (112, "unrecognized_name")
    ∷ (116, "certificate_required")
    ∷ (120, "no_application_protocol")
    ∷ []

-- (level, level_name, description, name)
pub record Alert : Type 0 where
  pub level : Option ℕ
  pub level_name : Option String
  pub description : Option ℕ
  pub name : Option String

unfoldable pub parse_alert : List ℕ → Alert
unfolding alert_levels alert_descriptions
parse_alert (level ∷ description ∷ rest) = record {
  level = some level;
  level_name = lookup level alert_levels;
  description = some description;
  name = lookup description alert_descriptions;
}
parse_alert _ = record { level = none; level_name = none; description = none; name = none }
