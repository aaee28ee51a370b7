-- ===== src/Tls/Extensions/Values.antt =====
-- ParsedExtensions and the texts that are safe to report.
use securemailscope.Base.{
  ℕ, ◌+◌, Bool, false, ◌&&◌, ◌||◌, not, List, [], map, Option, none, some, length, all, ltb, leb,
  ◌==◌, if◌then◌else◌,
}
use securemailscope.Base.Int.{ℤ}

pub data ExtensionContext : Type 0 where
  client_hello server_hello hello_retry_request : ExtensionContext

-- _PSK_MODES.get(mode, f"unknown_{mode}")
pub data PskMode : Type 0 where
  psk_ke psk_dhe_ke : PskMode
  unknown_mode : ℕ → PskMode

unfoldable pub psk_mode : ℕ → PskMode
psk_mode n = if n == 0 then psk_ke else if n == 1 then psk_dhe_ke else unknown_mode n

-- `malformed` holds extension types, and -1 for a block that cannot be framed.
pub record ParsedExtensions : Type 0 where
  pub present : List ℕ
  pub malformed : List ℤ
  pub offered_versions : List ℕ
  pub selected_version : Option ℕ
  pub supported_groups : List ℕ
  pub client_key_share_groups : List ℕ
  pub server_key_share_group : Option ℕ
  pub server_key_share_length : Option ℕ
  pub hello_retry_selected_group : Option ℕ
  pub signature_algorithms : List ℕ
  pub server_name : Option (List ℕ)
  pub server_name_rejected : Bool
  pub alpn : List (List ℕ)
  pub psk_offered : Bool
  pub psk_identity_count : ℕ
  pub psk_key_exchange_modes : List PskMode
  pub server_selected_psk_identity : Option ℕ

-- ParsedExtensions()
abbrev pub no_extensions : ParsedExtensions
no_extensions = record {
  present = [];
  malformed = [];
  offered_versions = [];
  selected_version = none;
  supported_groups = [];
  client_key_share_groups = [];
  server_key_share_group = none;
  server_key_share_length = none;
  hello_retry_selected_group = none;
  signature_algorithms = [];
  server_name = none;
  server_name_rejected = false;
  alpn = [];
  psk_offered = false;
  psk_identity_count = 0;
  psk_key_exchange_modes = [];
  server_selected_psk_identity = none;
}

is_alphanumeric : ℕ → Bool
is_alphanumeric c =
    (leb b'a' c && leb c b'z') || (leb b'A' c && leb c b'Z') || (leb b'0' c && leb c b'9')

-- _HOSTNAME_ALPHABET; every member is ASCII, so what does not decode is rejected here too.
unfoldable pub in_hostname : ℕ → Bool
unfolding is_alphanumeric
in_hostname c = is_alphanumeric c || (c == b'.' || (c == b'-' || c == b'_'))

-- _ALPN_ALPHABET
unfoldable pub in_alpn : ℕ → Bool
unfolding is_alphanumeric
in_alpn c = is_alphanumeric c || (c == b'.' || (c == b'-' || (c == b'/' || c == b'+')))

unfoldable pub lower : ℕ → ℕ
lower c = if leb b'A' c && leb c b'Z' then c + 32 else c

unfoldable pub safe_hostname : List ℕ → Option (List ℕ)
unfolding in_hostname lower
safe_hostname raw =
    if length raw == 0 || ltb 253 (length raw)
    then none
    else if not (all in_hostname raw)
    then none
    else some (map lower raw)

unfoldable pub safe_alpn : List ℕ → Option (List ℕ)
unfolding in_alpn
safe_alpn raw =
    if length raw == 0 || ltb 32 (length raw)
    then none
    else if not (all in_alpn raw)
    then none
    else some raw
