-- ===== src/Tls/Extensions/Dispatch/Untouched.antt =====
-- The parsers of single extensions leave `present` and `malformed` to the loop.
use securemailscope.Base.{
  ℕ, suc, ◌≡◌, refl, Bool, true, false, List, some, length, ◌==◌, if◌then◌else◌, arith,
}
use securemailscope.Tls.Wire.{
  ByteReader, Result, ok, err, reader, pure, remaining, u8, u16, vector8, vector16, then_read,
  ◌>>=◌,
}
use securemailscope.Tls.Loop.{again}
use securemailscope.Tls.Loop.Invariant.{Holds, while_remaining_inv}
use securemailscope.Tls.Extensions.Values.{
  ExtensionContext, client_hello, server_hello, hello_retry_request, ParsedExtensions,
}
use securemailscope.Tls.Extensions.Dispatch.{
  Dispatched, assign, dispatch, supported_versions, key_share, share_length, server_name_of,
  name_entries, name_body, set_server_name, alpn_of, pre_shared_key, code_points8, code_points16,
  share_list, alpn_list, identities,
}

pub record Untouched (p q : ParsedExtensions) : Type 0 where
  pub present : q.present ≡ p.present
  pub malformed : q.malformed ≡ p.malformed

Untouched-refl : (p : ParsedExtensions) → Untouched p p
Untouched-refl p = record { present = refl; malformed = refl }

Untouched-assign {ℓ} :
    {A : Type ℓ} (x : Result A) (f : A → ParsedExtensions) (p : ParsedExtensions)
    → ((a : A) → Untouched p (f a))
    → Untouched p (assign x f p).1
Untouched-assign (ok a) f p h = h a
Untouched-assign (err e) f p h = Untouched-refl p

Untouched-if :
    (b : Bool) (p : ParsedExtensions) (x y : Dispatched)
    → Untouched p x.1
    → Untouched p y.1
    → Untouched p (if b then x else y).1
Untouched-if true p x y h k = h
Untouched-if false p x y h k = k

share_length-Untouched :
    (x : Result ℕ × ByteReader) (p : ParsedExtensions) → Untouched p (share_length x p).1
unfolding share_length
share_length-Untouched (ok g, r) p =
    let p' = record p { server_key_share_group = some g } in
    let u =
      Untouched-assign (vector16 r).0
        (λ key. record p' { server_key_share_length = some (length key) }) p'
        (λ key. record { present = refl; malformed = refl }) in
    record { present = u.present; malformed = u.malformed }
share_length-Untouched (err e, r) p = Untouched-refl p

set_server_name-Untouched :
    (p : ParsedExtensions) (t : ℕ) (name : List ℕ) (q : ParsedExtensions)
    → Untouched p q
    → Untouched p (set_server_name t name q)
unfolding set_server_name
set_server_name-Untouched p t name q u = record { present = ground arith; malformed = ground arith }

name_body-Untouched :
    (p q : ParsedExtensions) (r : ByteReader)
    → Untouched p q
    → Holds (Untouched p) (name_body q r).0
unfolding name_body
name_body-Untouched p q r u = named (u8 r).0 (u8 r).1
  where
    named' :
        (t : ℕ) (x : Result (List ℕ)) (s : ByteReader)
        → Holds (Untouched p) (then_read (x, s) (λ name. pure (again (set_server_name t name q)))).0
    named' t (ok name) s = set_server_name-Untouched p t name q u
    named' t (err e) s = tt

    named :
        (x : Result ℕ) (s : ByteReader)
        → Holds
            (Untouched p)
            (then_read (x, s) (λ t. vector16 >>= λ name. pure (again (set_server_name t name q)))).0
    named (ok t) s = named' t (vector16 s).0 (vector16 s).1
    named (err e) s = tt

name_entries-Untouched :
    (x : Result (List ℕ)) (p : ParsedExtensions) → Untouched p (name_entries x p).1
unfolding name_entries
name_entries-Untouched (ok entries) p =
    while_remaining_inv (Untouched p) 3 name_body (name_body-Untouched p)
      (suc (remaining (reader entries))) p (reader entries) (Untouched-refl p)
name_entries-Untouched (err e) p = Untouched-refl p

module _ (body : List ℕ) (p : ParsedExtensions) where
  supported_versions-Untouched :
      (c : ExtensionContext) → Untouched p (supported_versions body c p).1
  unfolding supported_versions
  supported_versions-Untouched client_hello =
      Untouched-assign (code_points8 (reader body)).0 _ p
        (λ a. record { present = refl; malformed = refl })
  supported_versions-Untouched _ =
      Untouched-assign (u16 (reader body)).0 _ p (λ a. record { present = refl; malformed = refl })

  key_share-Untouched : (c : ExtensionContext) → Untouched p (key_share body c p).1
  unfolding key_share
  key_share-Untouched client_hello =
      Untouched-assign (share_list (reader body)).0 _ p
        (λ a. record { present = refl; malformed = refl })
  key_share-Untouched hello_retry_request =
      Untouched-assign (u16 (reader body)).0 _ p (λ a. record { present = refl; malformed = refl })
  key_share-Untouched server_hello = share_length-Untouched (u16 (reader body)) p

  server_name_of-Untouched : (c : ExtensionContext) → Untouched p (server_name_of body c p).1
  unfolding server_name_of
  server_name_of-Untouched client_hello = name_entries-Untouched (vector16 (reader body)).0 p
  server_name_of-Untouched _ = record { present = refl; malformed = refl }

  pre_shared_key-Untouched : (c : ExtensionContext) → Untouched p (pre_shared_key body c p).1
  unfolding pre_shared_key
  pre_shared_key-Untouched client_hello =
      Untouched-assign (identities (reader body)).0 _ p
        (λ a. record { present = refl; malformed = refl })
  pre_shared_key-Untouched _ =
      Untouched-assign (u16 (reader body)).0 _ p (λ a. record { present = refl; malformed = refl })

  alpn_of-Untouched : Untouched p (alpn_of body p).1
  unfolding alpn_of
  alpn_of-Untouched =
      Untouched-assign (alpn_list (reader body)).0 _ p
        (λ a. record { present = refl; malformed = refl })

  -- Whatever the type and the body, only the values of that type change.
  pub dispatch-Untouched : (t : ℕ) (c : ExtensionContext) → Untouched p (dispatch t body c p).1
  unfolding dispatch
  dispatch-Untouched t c = Untouched-if (t == 43) p _ _ (supported_versions-Untouched c) (
      Untouched-if (t == 10) p _ _
        (Untouched-assign (code_points16 (reader body)).0 _ p
          (λ a. record { present = refl; malformed = refl }))
        (Untouched-if (t == 13) p _ _
          (Untouched-assign (code_points16 (reader body)).0 _ p
            (λ a. record { present = refl; malformed = refl }))
          (Untouched-if (t == 51) p _ _ (key_share-Untouched c) (
            Untouched-if (t == 0) p _ _ (server_name_of-Untouched c) (
              Untouched-if (t == 16) p _ _ alpn_of-Untouched (
                Untouched-if (t == 41) p _ _ (pre_shared_key-Untouched c) (
                  Untouched-if (t == 45) p _ _
                    (Untouched-assign (vector8 (reader body)).0 _ p
                      (λ a. record { present = refl; malformed = refl }))
                    (Untouched-refl p))))))))
