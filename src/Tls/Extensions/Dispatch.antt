-- ===== src/Tls/Extensions/Dispatch.antt =====
-- `_dispatch` and the parsers of the single extensions. Each may raise, and what it has assigned
-- to `result` before that stays assigned.
pub mod Untouched
use securemailscope.Base.{
  ℕ, ◌+◌, true, false, List, [], ◌∷◌, ◌++◌, map, Option, none, some, length, ltb, leb, ◌==◌,
  if◌then◌else◌,
}
use securemailscope.Tls.Wire.{
  ByteReader, Result, ok, err, reader, Read, pure, lift, u8, u16, u32, vector8, vector16, u16_list,
  ◌>>=◌, ◌>>◌,
}
use securemailscope.Tls.Loop.{Next, again, leave, loop_over, finished, while_remaining}
use securemailscope.Tls.Extensions.Values.{
  ExtensionContext, client_hello, server_hello, hello_retry_request, ParsedExtensions, psk_mode,
  safe_hostname, safe_alpn,
}

-- Whether the parser raised, and `result` as it left it.
abbrev pub Dispatched : Type 0
Dispatched = Result (Unit {0}) × ParsedExtensions

-- `result.field = <read>`: the assignment happens if the read does not raise.
abbrev pub assign {ℓ} :
    {A : Type ℓ} → Result A → (A → ParsedExtensions) → ParsedExtensions → Dispatched
assign (ok a) f p = (ok tt, f a)
assign (err e) f p = (err e, p)

code_points16 : Read (List ℕ)
code_points16 = do v ← vector16; lift (u16_list v)

code_points8 : Read (List ℕ)
code_points8 = do v ← vector8; lift (u16_list v)

unfoldable pub supported_versions : List ℕ → ExtensionContext → ParsedExtensions → Dispatched
unfolding code_points8 code_points16
supported_versions body client_hello p =
    assign (code_points8 (reader body)).0 (λ v. record p { offered_versions = v }) p
supported_versions body _ p =
    assign (u16 (reader body)).0 (λ v. record p { selected_version = some v }) p

unfoldable pub share_body : List ℕ → Read (Next (List ℕ))
share_body groups = do g ← u16; vector16; pure (again (groups ++ g ∷ []))

unfoldable pub share_groups : List ℕ → Result (List ℕ)
unfolding share_body while_remaining finished
share_groups entries = finished (loop_over 4 share_body [] (reader entries))

share_list : Read (List ℕ)
unfolding share_groups
share_list = do entries ← vector16; lift (share_groups entries)

-- The second assignment of a ServerHello: the length of the key, read behind the group.
share_length : Result ℕ × ByteReader → ParsedExtensions → Dispatched
share_length (ok g, r) p =
    let p' = record p { server_key_share_group = some g } in
    assign (vector16 r).0 (λ key. record p' { server_key_share_length = some (length key) }) p'
share_length (err e, r) p = (err e, p)

unfoldable pub key_share : List ℕ → ExtensionContext → ParsedExtensions → Dispatched
unfolding share_list share_length
key_share body client_hello p =
    assign (share_list (reader body)).0 (λ gs. record p { client_key_share_groups = gs }) p
key_share body hello_retry_request p =
    assign (u16 (reader body)).0 (λ g. record p { hello_retry_selected_group = some g }) p
key_share body server_hello p = share_length (u16 (reader body)) p

-- The first entry of type 0 with a safe name is kept.
set_server_name : ℕ → List ℕ → ParsedExtensions → ParsedExtensions
set_server_name name_type name p = elim p.server_name [
  | none ↦ if name_type == 0 then record p { server_name = safe_hostname name } else p
  | some _ ↦ p
]

unfoldable pub name_body : ParsedExtensions → Read (Next ParsedExtensions)
unfolding set_server_name
name_body p = do t ← u8; name ← vector16; pure (again (set_server_name t name p))

name_entries : Result (List ℕ) → ParsedExtensions → Dispatched
unfolding name_body while_remaining
name_entries (ok entries) p =
    let (outcome, p', r) = loop_over 3 name_body p (reader entries) in (outcome, p')
name_entries (err e) p = (err e, p)

unfoldable pub server_name_of : List ℕ → ExtensionContext → ParsedExtensions → Dispatched
unfolding name_entries
server_name_of body client_hello p = name_entries (vector16 (reader body)).0 p
server_name_of body _ p = (ok tt, record p { server_name_rejected = false })

-- `collected` behind one more candidate.
collect : Option (List ℕ) → List (List ℕ) → List (List ℕ)
collect none names = names
collect (some name) names = names ++ name ∷ []

unfoldable pub alpn_body : List (List ℕ) → Read (Next (List (List ℕ)))
unfolding collect
alpn_body names = do
  raw ← vector8
  let names' = collect (safe_alpn raw) names
  pure (if leb 16 (length names') then leave names' else again names')

unfoldable pub alpn_names : List ℕ → Result (List (List ℕ))
unfolding alpn_body while_remaining finished
alpn_names entries = finished (loop_over 1 alpn_body [] (reader entries))

alpn_list : Read (List (List ℕ))
unfolding alpn_names
alpn_list = do entries ← vector16; lift (alpn_names entries)

unfoldable pub alpn_of : List ℕ → ParsedExtensions → Dispatched
unfolding alpn_list
alpn_of body p = assign (alpn_list (reader body)).0 (λ names. record p { alpn = names }) p

unfoldable pub identity_body : ℕ → Read (Next ℕ)
identity_body count = do
  vector16
  u32
  pure (if ltb 64 (count + 1) then leave (count + 1) else again (count + 1))

unfoldable pub identity_count : List ℕ → Result ℕ
unfolding identity_body while_remaining finished
identity_count entries = finished (loop_over 6 identity_body 0 (reader entries))

identities : Read ℕ
unfolding identity_count
identities = do entries ← vector16; lift (identity_count entries)

unfoldable pub pre_shared_key : List ℕ → ExtensionContext → ParsedExtensions → Dispatched
unfolding identities
pre_shared_key body client_hello p =
    assign (identities (reader body)).0
      (λ n. record p { psk_offered = true; psk_identity_count = n }) p
pre_shared_key body _ p =
    assign (u16 (reader body)).0 (λ n. record p { server_selected_psk_identity = some n }) p

-- The extension types by number, as the chain of tests has them.
unfoldable pub dispatch : ℕ → List ℕ → ExtensionContext → ParsedExtensions → Dispatched
unfolding supported_versions code_points16 key_share server_name_of alpn_of pre_shared_key
dispatch type body context p =
    if type == 43
    then supported_versions body context p
    else if type == 10
    then assign (code_points16 (reader body)).0 (λ v. record p { supported_groups = v }) p
    else if type == 13
    then assign (code_points16 (reader body)).0 (λ v. record p { signature_algorithms = v }) p
    else if type == 51
    then key_share body context p
    else if type == 0
    then server_name_of body context p
    else if type == 16
    then alpn_of body p
    else if type == 41
    then pre_shared_key body context p
    else if type == 45
    then assign (vector8 (reader body)).0
        (λ modes. record p { psk_key_exchange_modes = map psk_mode modes }) p
    else (ok tt, p)
