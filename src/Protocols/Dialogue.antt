-- ===== src/Protocols/Dialogue.antt =====
-- protocols/reader.py: DialogueDriver, which takes two cursors in the order of capture.
pub mod Progress
use securemailscope.Base.{
  ℕ, ◌≡◌, refl, sym, ◌∙◌, subst, Bool, true, false, ◌&&◌, ◌||◌, ◌==◌, List, [], ◌∷◌, Option, none,
  some, ◌⊎◌, inl, inr, ltb, if◌then◌else◌, if_intro, ◌<◌, ◌≤◌, arith,
}
use securemailscope.Evidence.{Direction, client_to_server, server_to_client, PacketReference}
use securemailscope.Protocols.Buffer.{DirectionalBuffer}
use securemailscope.Protocols.Cursor.{StreamLine}
use securemailscope.Protocols.Cursor.Cursors.{StreamCursor, peek, advance, stop}
use securemailscope.Protocols.Cursor.Peeks.{advance-peek, peek_again}

pub record DialogueDriver : Type 0 where
  pub client : StreamCursor
  pub server : StreamCursor

pub record DirectedLine : Type 0 where
  pub line : StreamLine
  pub direction : Direction

first_number : List PacketReference → ℕ
first_number [] = 0
first_number (ref ∷ _) = ref.packet_number

-- The first packet that a line came in; its offset in the stream breaks a tie.
abbrev pub packet_number : StreamLine → ℕ
unfolding first_number
packet_number line = first_number line.packets

-- line.order_key < other.order_key
unfoldable pub is_before : StreamLine → StreamLine → Bool
unfolding first_number
is_before l m =
    let a = first_number l.packets in
    let b = first_number m.packets in ltb a b || (a == b && ltb l.start_offset m.start_offset)

-- The first candidate; a tie goes to the client, whose direction sorts first.
unfoldable pub choose : Option StreamLine → Option StreamLine → Option Direction
choose none none = none
choose (some c) none = some client_to_server
choose none (some s) = some server_to_client
choose (some c) (some s) = if is_before s c then some server_to_client else some client_to_server

directed : Direction → Option StreamLine → Option DirectedLine
directed d none = none
directed d (some line) = some (record { line = line; direction = d })

module _ (client_bytes server_bytes : DirectionalBuffer) (max_line_bytes : ℕ) where
  take_from : Option Direction → DialogueDriver → Option DirectedLine × DialogueDriver
  unfolding directed
  take_from none d = (none, d)
  take_from (some client_to_server) d =
      let (line, cursor) = advance client_bytes max_line_bytes d.client in
      (directed client_to_server line, record d { client = cursor })
  take_from (some server_to_client) d =
      let (line, cursor) = advance server_bytes max_line_bytes d.server in
      (directed server_to_client line, record d { server = cursor })

  -- Both cursors are peeked at, and the one whose line was captured first advances.
  unfoldable pub next : DialogueDriver → Option DirectedLine × DialogueDriver
  unfolding take_from
  next d =
      let (c, client) = peek client_bytes max_line_bytes d.client in
      let (s, server) = peek server_bytes max_line_bytes d.server in
      take_from (choose c s) (record { client = client; server = server })

  unfoldable pub stop_all : DialogueDriver → DialogueDriver
  stop_all d = record {
    client = stop client_bytes max_line_bytes d.client;
    server = stop server_bytes max_line_bytes d.server;
  }

  -- The other direction has no line, or one whose first packet is not earlier, nor the same with an
  -- earlier offset.
  abbrev pub IsFirst : StreamLine → Option StreamLine → Type 0
  IsFirst line none = Unit
  IsFirst line (some other) =
      (packet_number line < packet_number other)
      ⊎ ((packet_number line ≡ packet_number other) × (line.start_offset ≤ other.start_offset))

  -- The other direction has no line, or one whose first packet is later, or the same with a later
  -- offset.
  abbrev pub IsEarlier : StreamLine → Option StreamLine → Type 0
  IsEarlier line none = Unit
  IsEarlier line (some other) =
      (packet_number line < packet_number other)
      ⊎ ((packet_number line ≡ packet_number other) × (line.start_offset < other.start_offset))

  is_before-IsEarlier : (l m : StreamLine) → is_before l m ≡ true → IsEarlier l (some m)
  unfolding is_before
  is_before-IsEarlier l m h = grind arith

  not_before-IsFirst : (l m : StreamLine) → is_before m l ≡ false → IsFirst l (some m)
  unfolding is_before
  not_before-IsFirst l m h = grind arith

  -- What is delivered, given the lines that the two cursors show.
  abbrev pub InOrder : Option StreamLine → Option StreamLine → Option DirectedLine → Type 0
  InOrder c s none = (c ≡ none) × (s ≡ none)
  InOrder c s (some d) =
      ((d.direction ≡ client_to_server) × (c ≡ some d.line) × IsFirst d.line s)
      ⊎ ((d.direction ≡ server_to_client) × (s ≡ some d.line) × IsEarlier d.line c)

  in_order :
      (c s : Option StreamLine) (d : DialogueDriver)
      → ((line : StreamLine)
          → c ≡ some line
          → (advance client_bytes max_line_bytes d.client).0 ≡ some line)
      → ((line : StreamLine)
          → s ≡ some line
          → (advance server_bytes max_line_bytes d.server).0 ≡ some line)
      → InOrder c s (take_from (choose c s) d).0
  unfolding take_from choose directed
  in_order none none d hc hs = (refl, refl)
  in_order (some c) none d hc hs =
      subst (λ x. InOrder (some c) none (directed client_to_server x)) (sym (hc c refl))
        (inl (refl, refl, tt))
  in_order none (some s) d hc hs =
      subst (λ x. InOrder none (some s) (directed server_to_client x)) (sym (hs s refl))
        (inr (refl, refl, tt))
  in_order (some c) (some s) d hc hs =
      if_intro (λ x. InOrder (some c) (some s) (take_from x d).0) (is_before s c)
        (λ t.
          subst (λ x. InOrder (some c) (some s) (directed server_to_client x)) (sym (hs s refl))
            (inr (refl, refl, is_before-IsEarlier s c t)))
        (λ f.
          subst (λ x. InOrder (some c) (some s) (directed client_to_server x)) (sym (hc c refl))
            (inl (refl, refl, not_before-IsFirst c s f)))

  -- Of the two lines that the cursors show the driver delivers the one with the lower number of its
  -- first packet, at equal numbers the one with the lower stream offset and at equal offsets the
  -- client's, and it delivers nothing exactly if neither cursor shows a line.
  pub next-InOrder :
      (d : DialogueDriver)
      → InOrder
          (peek client_bytes max_line_bytes d.client).0
          (peek server_bytes max_line_bytes d.server).0
          (next d).0
  unfolding next
  next-InOrder d =
      let c = peek client_bytes max_line_bytes d.client in
      let s = peek server_bytes max_line_bytes d.server in
      in_order c.0 s.0 (record { client = c.1; server = s.1 })
        (λ line e.
          advance-peek client_bytes max_line_bytes c.1
          ∙ peek_again client_bytes max_line_bytes d.client line e)
        (λ line e.
          advance-peek server_bytes max_line_bytes s.1
          ∙ peek_again server_bytes max_line_bytes d.server line e)
