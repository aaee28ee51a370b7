-- ===== src/Tests/Handshakes.antt =====
-- Handshake messages and their bodies.
use securemailscope.Base.{
  ℕ, ◌≡◌, ◌≢◌, ◌⊎◌, refl, true, false, List, [], ◌∷◌, ◌++◌, none, some, map, if◌then◌else◌, arith,
}
use securemailscope.Evidence.{inferred}
use securemailscope.Tls.Wire.{ok}
use securemailscope.Tls.Extensions.Values.{
  client_hello, server_hello, hello_retry_request, no_extensions,
}
use securemailscope.Tls.Extensions.Block.{parse_extensions, malformed_block}
use securemailscope.Tls.Extensions.Names.{encode_block, handle_all, parse_extensions-encode_block}
use securemailscope.Protocols.Framing.{TlsFramingEvidence, handshake}
use securemailscope.Tls.Records.{RecordFragment}
use securemailscope.Tls.Handshake.Stream.{HandshakeStream, Piece, append}
use securemailscope.Tls.Handshake.Stream.Bounds.{IsStream, append-IsStream}
use securemailscope.Tls.Handshake.Messages.{parse_messages}
use securemailscope.Tls.Handshake.Messages.RoundTrip.{contents, parse_messages-encode_messages}
use securemailscope.Tls.Handshake.Hello.{
  parse_client_hello, parse_server_hello, hello_retry_request_random,
}
use securemailscope.Tls.Handshake.Hello.RoundTrip.{
  ClientHello, encode_client_hello, parse_client_hello-encode_client_hello, ServerHello,
  encode_server_hello, server_info, parse_server_hello-encode_server_hello,
}
use securemailscope.Tls.Handshake.Certificates.{parse_certificate_message}
use securemailscope.Tls.Handshake.Certificates.RoundTrip.{
  CertificateEntry, encode_certificate_message,
  parse_certificate_message-encode_certificate_message,
}
use securemailscope.Tls.Handshake.Certificates.Limits.{Limited, parse_certificate_message-Limited}

abbrev piece_one : Piece
piece_one = record {
  buffer_start = 0;
  stream_offset = 5;
  length_of = 2;
  record_index = 0;
  packets = [];
}

abbrev piece_two : Piece
piece_two = record {
  buffer_start = 2;
  stream_offset = 12;
  length_of = 3;
  record_index = 1;
  packets = [];
}

-- ServerHelloDone and a byte, in two records.
abbrev two_records : HandshakeStream
two_records = record {
  buffer = 14 ∷ 0 ∷ 0 ∷ 0 ∷ 9 ∷ [];
  pieces = piece_one ∷ piece_two ∷ [];
  overflowed = false;
}

two_records-IsStream : IsStream 16 two_records
two_records-IsStream = record { bounded = omega arith; cuts = (refl, (refl, refl)) }

parse_messages-encode_messages_example :
    (map contents (parse_messages two_records 4 true).0 ≡ (14, [], true) ∷ [])
    × ((parse_messages two_records 4 true).1 ≡ [])
parse_messages-encode_messages_example =
    parse_messages-encode_messages two_records true ((14, []) ∷ []) (9 ∷ []) 4 refl (omega arith)
      (omega arith)

abbrev zeros : List ℕ
zeros =
    0 ∷ 0 ∷ 0 ∷ 0 ∷ 0 ∷ 0 ∷ 0 ∷ 0 ∷ 0 ∷ 0 ∷ 0 ∷ 0 ∷ 0 ∷ 0 ∷ 0 ∷ 0 ∷ 0 ∷ 0 ∷ 0 ∷ 0 ∷ 0 ∷ 0 ∷ 0 ∷ 0
    ∷ 0 ∷ 0 ∷ 0 ∷ 0 ∷ 0 ∷ 0 ∷ 0 ∷ 0 ∷ []

abbrev small_hello : ClientHello
small_hello = record {
  version = 771;
  random = zeros;
  session = 1 ∷ 2 ∷ [];
  suites = 4865 ∷ [];
  compression = 0 ∷ [];
  block = 0 ∷ 23 ∷ 0 ∷ 0 ∷ [];
}

parse_client_hello-encode_client_hello_example :
    parse_client_hello (encode_client_hello small_hello)
    ≡ ok (record {
      legacy_version = 771;
      session_id = 1 ∷ 2 ∷ [];
      session_id_length = 2;
      cipher_suites = 4865 ∷ [];
      compression_methods = 0 ∷ [];
      extensions = parse_extensions (0 ∷ 23 ∷ 0 ∷ 0 ∷ []) client_hello;
    })
parse_client_hello-encode_client_hello_example =
    parse_client_hello-encode_client_hello small_hello refl

abbrev answer : ServerHello
answer = record {
  version = 771;
  random = zeros;
  session = [];
  suite = 4865;
  compression = 0;
  block = [];
}

parse_server_hello-encode_server_hello_example :
    ((zeros ≡ hello_retry_request_random)
      × (parse_server_hello (encode_server_hello answer)
          ≡ ok (server_info answer true hello_retry_request)))
    ⊎ ((zeros ≢ hello_retry_request_random)
        × (parse_server_hello (encode_server_hello answer)
            ≡ ok (server_info answer false server_hello)))
parse_server_hello-encode_server_hello_example = parse_server_hello-encode_server_hello answer refl

abbrev one_certificate : CertificateEntry
one_certificate = record { der = 48 ∷ 3 ∷ []; extensions = 0 ∷ 5 ∷ 0 ∷ 0 ∷ [] }

parse_certificate_message-encode_certificate_message_example :
    parse_certificate_message true 4 100 (encode_certificate_message true [] (one_certificate ∷ []))
    ≡ ok (record { certificates = (48 ∷ 3 ∷ []) ∷ []; notes = [] })
parse_certificate_message-encode_certificate_message_example =
    parse_certificate_message-encode_certificate_message true 4 100 [] (one_certificate ∷ [])
      (omega arith, tt) (omega arith)

parse_certificate_message-Limited_example :
    Limited true 4 100
      (parse_certificate_message true 4 100 (0 ∷ 0 ∷ 0 ∷ 5 ∷ 0 ∷ 0 ∷ 2 ∷ 48 ∷ 3 ∷ []))
parse_certificate_message-Limited_example =
    parse_certificate_message-Limited true 4 100 (0 ∷ 0 ∷ 0 ∷ 5 ∷ 0 ∷ 0 ∷ 2 ∷ 48 ∷ 3 ∷ [])

parse_extensions-encode_block_example :
    (parse_extensions (encode_block ((23, []) ∷ []) ++ (7 ∷ [])) client_hello
      ≡ malformed_block (handle_all client_hello ((23, []) ∷ []) no_extensions))
    × ((parse_extensions (encode_block ((23, []) ∷ []) ++ (7 ∷ [])) client_hello).present ≡ 23 ∷ [])
parse_extensions-encode_block_example =
    parse_extensions-encode_block client_hello ((23, []) ∷ []) (7 ∷ []) (omega arith)

abbrev next_record : RecordFragment
next_record = record {
  index = 2;
  observation = record {
    stream_offset = 20;
    end_offset = 27;
    header = record { content_type = 22; name = handshake; minor = 3; declared = 2 };
    bytes_available = 2;
    complete = true;
    message = none;
    evidence = TlsFramingEvidence.record_chain;
    status = inferred;
    packets = [];
    record_index = some 2;
    ambiguous = false;
  };
  body = 0 ∷ 1 ∷ [];
  body_offset = 25;
}

append-IsStream_example :
    IsStream 16 (append two_records next_record 16).1
    × ((append two_records next_record 16).0 ≡ true)
    × ((append two_records next_record 16).1.buffer ≡ (
        if (append two_records next_record 16).0
        then 14 ∷ 0 ∷ 0 ∷ 0 ∷ 9 ∷ 0 ∷ 1 ∷ []
        else two_records.buffer))
    × ((append two_records next_record 16).1.overflowed
        ≡ (if (append two_records next_record 16).0 then false else true))
append-IsStream_example = append-IsStream two_records next_record 16 two_records-IsStream
