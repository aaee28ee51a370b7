-- ===== src/Tls/Handshake/Messages/RoundTrip.antt =====
-- Messages are recovered from the handshake buffer, however the records had cut it.
use mathlib.Core.List.{append_assoc}
use securemailscope.Base.{
  ℕ, zero, suc, ◌+◌, ◌-◌, ◌≤◌, ◌<◌, ◌≡◌, refl, ap, ap₂, sym, ◌∙◌, Bool, true, false, List, [], ◌∷◌,
  ◌++◌, map, length, length-append, length-drop, get_or, drop, drop-drop, drop-append_left,
  take-append_left, min, ltb, le→leb, le→not_ltb, lt→ltb, arith,
}
use securemailscope.Tls.Wire.Reads.{encode_vector24}
use securemailscope.Tls.Handshake.Stream.{HandshakeStream}
use securemailscope.Tls.Handshake.Messages.{
  HandshakeMessage, message_at, declared_at, messages_from, parse_messages,
}

get_or-drop : (xs : List ℕ) (p i : ℕ) → get_or xs (p + i) 0 ≡ get_or (drop p xs) i 0
get_or-drop xs zero i = ap (λ k. get_or xs k 0) (omega arith)
get_or-drop [] (suc p) i = refl
get_or-drop (x ∷ xs) (suc p) i =
    let e : suc p + i ≡ suc (p + i) = omega arith in rw e (get_or-drop xs p i)

-- A message: its type, and its body behind a three-byte length.
abbrev pub encode_message : ℕ × List ℕ → List ℕ
encode_message (t, body) = t ∷ encode_vector24 body

abbrev pub encode_messages : List (ℕ × List ℕ) → List ℕ
encode_messages [] = []
encode_messages (m ∷ ms) = encode_message m ++ encode_messages ms

-- What a parsed message says of its type and body, if it is complete.
abbrev pub contents : HandshakeMessage → ℕ × List ℕ × Bool
contents m = (m.message_type, m.body, m.complete)

module _ (s : HandshakeStream) (warn_incomplete : Bool) where
  message_at_lem :
      (p t : ℕ) (body rest : List ℕ)
      → drop p s.buffer ≡ encode_message (t, body) ++ rest
      → (contents (message_at s p) ≡ (t, body, true))
        × ((message_at s p).declared_length ≡ length body)
        × (p + 4 + length body + length rest ≡ length s.buffer)
  unfolding message_at declared_at
  message_at_lem p t body rest here =
      let bytes = s.buffer in
      let sizes : p + 4 + length body + length rest ≡ length bytes =
        omega (arith, ap length here, length-drop p bytes, length-append body rest) in
      let declared : declared_at bytes p ≡ length body =
        rw (get_or-drop bytes p 1, get_or-drop bytes p 2, get_or-drop bytes p 3, here)
          (omega arith) in
      let type : get_or bytes p 0 ≡ t =
        ap (λ k. get_or bytes k 0) (omega arith)
        ∙ get_or-drop bytes p 0
        ∙ ap (λ l. get_or l 0 0) here in
      let behind : drop (p + 4) bytes ≡ body ++ rest =
        sym (drop-drop 4 p bytes) ∙ ap (drop 4) here in
      let whole : length body ≤ length bytes - (p + 4) = omega (arith, sizes) in
      let count : p + 4 + min (length body) (length bytes - (p + 4)) - (p + 4) ≡ length body =
        omega (arith, whole) in
      (
        rw (type, declared)
            (rw (count, behind, le→leb _ _ whole) (rw (take-append_left body rest))),
        declared,
        sizes,
      )

  -- Complete messages end to end, with fewer than four bytes behind them, are read as they are.
  messages_from-encode_messages :
      (ms : List (ℕ × List ℕ)) (rest : List ℕ) (left p : ℕ)
      → drop p s.buffer ≡ encode_messages ms ++ rest
      → length rest < 4
      → length ms ≤ left
      → (map contents (messages_from s warn_incomplete left p).0 ≡ map (λ m. (m.0, m.1, true)) ms)
        × ((messages_from s warn_incomplete left p).1 ≡ [])
  unfolding messages_from
  messages_from-encode_messages [] rest left p here few h = ended left
    where
      over : ltb (length s.buffer) (p + 4) ≡ true
      over = lt→ltb _ _ (omega (arith, ap length here, length-drop p s.buffer))

      ended :
          (k : ℕ)
          → (map contents (messages_from s warn_incomplete k p).0 ≡ [])
            × ((messages_from s warn_incomplete k p).1 ≡ [])
      ended zero = rw over (refl, refl)
      ended (suc k) = rw over (refl, refl)
  messages_from-encode_messages (m ∷ ms) rest zero p here few h = absurd (omega arith)
  messages_from-encode_messages ((t, body) ∷ ms) rest (suc left) p here few h =
      let tail = encode_messages ms ++ rest in
      let here' = here ∙ append_assoc (encode_message (t, body)) (encode_messages ms) rest in
      let m = message_at_lem p t body tail here' in
      let next = p + 4 + length body in
      let room : ltb (length s.buffer) (p + 4) ≡ false = le→not_ltb _ _ (omega (arith, m.2)) in
      let behind : drop next s.buffer ≡ tail =
        ap (λ k. drop k s.buffer) (omega arith)
        ∙ sym (drop-drop (length (encode_message (t, body))) p s.buffer)
        ∙ ap (drop (length (encode_message (t, body)))) here'
        ∙ drop-append_left (encode_message (t, body)) tail in
      let ih = messages_from-encode_messages ms rest left next behind few (omega arith) in
      let whole : (message_at s p).complete ≡ true = ap (λ c. c.2) m.0 in
      let head : ◌≡◌ {A = ℕ × List ℕ × Bool}
          ((message_at s p).message_type, (message_at s p).body, true) (t, body, true) =
        ap (λ (c : ℕ × List ℕ × Bool). (c.0, c.1, true)) m.0 in
      rw (room, whole, m.1) (ap₂ ◌∷◌ head ih.0, ih.1)

-- A handshake buffer of complete messages, with fewer than four bytes behind them, is split into
-- just these messages, each with its type and its whole body, up to the limit on their number.
-- No diagnostic is recorded.
pub parse_messages-encode_messages :
    (s : HandshakeStream) (warn_incomplete : Bool) (ms : List (ℕ × List ℕ)) (rest : List ℕ)
    (max_messages : ℕ)
    → s.buffer ≡ encode_messages ms ++ rest
    → length rest < 4
    → length ms ≤ max_messages
    → (map contents (parse_messages s max_messages warn_incomplete).0
        ≡ map (λ m. (m.0, m.1, true)) ms)
      × ((parse_messages s max_messages warn_incomplete).1 ≡ [])
unfolding parse_messages
parse_messages-encode_messages s warn_incomplete ms rest max_messages =
    messages_from-encode_messages s warn_incomplete ms rest max_messages 0
