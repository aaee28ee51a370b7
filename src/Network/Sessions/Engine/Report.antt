-- ===== src/Network/Sessions/Engine/Report.antt =====
-- `TCPSessionEngine.finalize` and `payload_runs`: the sessions of a capture, in the order in which
-- they were first seen.
use securemailscope.Base.{
  ℕ, zero, suc, ◌≡◌, refl, sym, ◌∙◌, ap, ap₂, subst, ◌≤◌, List, [], ◌∷◌, ◌++◌, Option, none, some,
  map, length, get_elem?, leb, if◌then◌else◌, arith, Option-cases, inl, inr,
}
use securemailscope.Base.Int.{ℤ}
use securemailscope.Evidence.{Direction, client_to_server, server_to_client, PacketReference}
use securemailscope.Network.Flows.{Text, FlowKey, normalize}
use securemailscope.Network.Reassembly.Directional.Results as Direction
use securemailscope.Network.Sessions.{Packet, AnalysisConfig, SessionState, Shared, new_session}
use securemailscope.Network.Sessions.Observe as Session
use securemailscope.Network.Sessions.Observe.{first_of}
use securemailscope.Network.Sessions.Observe.Kept.{observe-Follows, observe-packets}
use securemailscope.Network.Sessions.Finalize as Final
use securemailscope.Network.Sessions.Finalize.{TcpSession}
use securemailscope.Network.Sessions.Engine.{
  TcpSessionEngine, set_at, skip, reuse, refuse, warn, created, opened, deliver, deliver_to,
  observe, observe_all, ref_of, new,
}
use securemailscope.Network.Sessions.Engine.Tables.{get_elem?-append_end}
use securemailscope.Network.Sessions.Engine.Cases.{Ready, fresh, reused, observe_cases}

-- sessions.sort(key=lambda session: session.first_packet.packet_number); Python's sort is stable.
insert_session : TcpSession → List TcpSession → List TcpSession
insert_session s [] = s ∷ []
insert_session s (t ∷ ts) =
    if leb s.first_packet.packet_number t.first_packet.packet_number
    then s ∷ t ∷ ts
    else t ∷ insert_session s ts

pub sort_sessions : List TcpSession → List TcpSession
unfolding insert_session
sort_sessions [] = []
sort_sessions (s ∷ ss) = insert_session s (sort_sessions ss)

unfoldable pub add_session : Option TcpSession → Option (List TcpSession) → Option (List TcpSession)
add_session (some s) (some ss) = some (s ∷ ss)
add_session _ _ = none

-- payload_runs: a dict by session and direction, here its items in order.
pub payload_runs : TcpSessionEngine → List (Text × Direction × List (ℤ × List ℕ))
payload_runs e = from_order e.order
  where
    from_order : List SessionState → List (Text × Direction × List (ℤ × List ℕ))
    from_order [] = []
    from_order (s ∷ order) =
        (s.session_id, client_to_server, Direction.payload_runs s.c2s)
        ∷ (s.session_id, server_to_client, Direction.payload_runs s.s2c)
        ∷ from_order order

module _ (sha256 : List ℕ → List ℕ) (max_gaps : ℕ) where
  unfoldable pub finalize_order : List SessionState → Shared → Option (List TcpSession) × Shared
  unfolding add_session
  finalize_order [] shared = (some [], shared)
  finalize_order (s ∷ order) shared =
      let (session, shared') = Final.finalize sha256 max_gaps s shared in
      let (sessions, shared'') = finalize_order order shared' in
      (add_session session sessions, shared'')

  sorted : Option (List TcpSession) → Option (List TcpSession)
  sorted none = none
  sorted (some sessions) = some (sort_sessions sessions)

  -- finalize; `none` is the failing assertion that each session has a packet.
  pub finalize : TcpSessionEngine → Option (List TcpSession) × Shared
  unfolding sorted
  finalize e = let (sessions, shared) = finalize_order e.order e.shared in (sorted sessions, shared)

-- Each connection has its packets, and the first ones come later and later, from `low` up to `high`.
AreSeen : ℕ → List SessionState → ℕ → Type 0
AreSeen low [] high = low ≤ high
AreSeen low (s ∷ order) high =
    (ref : PacketReference) × (last : PacketReference) × (s.first_packet ≡ some ref)
    × (s.last_packet ≡ some last)
    × (low ≤ ref.packet_number)
    × AreSeen ref.packet_number order high

AreSeen-weaken :
    (low : ℕ) (order : List SessionState) (high high' : ℕ)
    → high ≤ high'
    → AreSeen low order high
    → AreSeen low order high'
unfolding AreSeen
AreSeen-weaken low [] high high' h a = omega (arith, h, a)
AreSeen-weaken low (s ∷ order) high high' h (ref, last, f, l, b, rest) =
    (ref, last, f, l, b, AreSeen-weaken ref.packet_number order high high' h rest)

AreSeen-append :
    (low : ℕ) (order : List SessionState) (high : ℕ) (s : SessionState) (ref last : PacketReference)
    → s.first_packet ≡ some ref
    → s.last_packet ≡ some last
    → high ≤ ref.packet_number
    → AreSeen low order high
    → AreSeen low (order ++ (s ∷ [])) ref.packet_number
unfolding AreSeen
AreSeen-append low [] high s ref last f l h a = (ref, last, f, l, omega (arith, h, a), omega arith)
AreSeen-append low (x ∷ order) high s ref last f l h (ref', last', f', l', b, rest) =
    (ref', last', f', l', b, AreSeen-append ref'.packet_number order high s ref last f l h rest)

AreSeen-set_at :
    (low : ℕ) (order : List SessionState) (high i : ℕ) (s t : SessionState) (last : PacketReference)
    → get_elem? order i ≡ some s
    → ((ref : PacketReference) → s.first_packet ≡ some ref → t.first_packet ≡ some ref)
    → t.last_packet ≡ some last
    → AreSeen low order high
    → AreSeen low (set_at i t order) high
unfolding AreSeen set_at
AreSeen-set_at low [] high i s t last found keep l a = a
AreSeen-set_at low (x ∷ order) high zero s t last found keep l (ref', last', f', l', b, rest) =
    let same : x ≡ s = ground arith in
    (ref', last, keep ref' (ap (λ (y : SessionState). y.first_packet) (sym same) ∙ f'), l, b, rest)
AreSeen-set_at low (x ∷ order) high (suc i) s t last found keep l (ref', last', f', l', b, rest) = (
  ref',
  last',
  f',
  l',
  b,
  AreSeen-set_at ref'.packet_number order high i s t last found keep l rest,
)

set_at-end :
    (order : List SessionState) (s t : SessionState)
    → set_at (length order) t (order ++ (s ∷ [])) ≡ order ++ (t ∷ [])
unfolding set_at
set_at-end [] s t = refl
set_at-end (x ∷ order) s t = ap (◌∷◌ x) (set_at-end order s t)

-- Sessions whose first packets come later and later.
AreSorted : ℕ → List TcpSession → Type 0
AreSorted low [] = Unit
AreSorted low (s ∷ ss) =
    (low ≤ s.first_packet.packet_number) × AreSorted s.first_packet.packet_number ss

-- The packets are numbered upwards, as the capture reader numbers them.
abbrev pub AreNumberedUp : ℕ → List Packet → Type 0
AreNumberedUp low [] = Unit
AreNumberedUp low (packet ∷ packets) =
    (low ≤ packet.packet_number) × AreNumberedUp packet.packet_number packets

sort_sessions-AreSorted :
    (low : ℕ) (ss : List TcpSession) → AreSorted low ss → sort_sessions ss ≡ ss
unfolding sort_sessions insert_session AreSorted
sort_sessions-AreSorted low [] h = refl
sort_sessions-AreSorted low (s ∷ []) h = refl
sort_sessions-AreSorted low (s ∷ t ∷ ss) h =
    ap (insert_session s) (sort_sessions-AreSorted s.first_packet.packet_number (t ∷ ss) h.1)
    ∙ ground arith

module _ (sha256 blake2b : List ℕ → List ℕ) (config : AnalysisConfig) where
  deliver-AreSeen :
      (e : TcpSessionEngine) (i : ℕ) (packet : Packet) (low high : ℕ)
      → AreSeen low e.order high
      → AreSeen low (deliver sha256 blake2b config e i packet).order high
  unfolding deliver deliver_to
  deliver-AreSeen e i packet low high a = elim (Option-cases (get_elem? e.order i)) [
    | inl n ↦ rw n a
    | inr (s, f) ↦
        let after = (Session.observe sha256 blake2b config s e.shared packet (ref_of packet)).0 in
        let kept = observe-Follows sha256 blake2b config s e.shared packet (ref_of packet) in
        let (_, latest) = observe-packets sha256 blake2b config s e.shared packet (ref_of packet) in
        rw f
          (AreSeen-set_at low e.order high i s after (ref_of packet) f kept.first_packet latest a)
  ]

  module _ (sha256_hex : Text → Text) (capture_id : Text) where
    opened-AreSeen :
        (e : TcpSessionEngine) (key : FlowKey) (packet : Packet) (high : ℕ)
        → high ≤ packet.packet_number
        → AreSeen 0 e.order high
        → AreSeen 0
            (deliver sha256 blake2b config
              (opened sha256_hex capture_id config e key packet)
              (length e.order)
              packet).order
            packet.packet_number
    unfolding deliver deliver_to opened created new_session ref_of first_of
    opened-AreSeen e key packet high h a =
        let s = created sha256_hex capture_id config e key packet in
        let after = (Session.observe sha256 blake2b config s e.shared packet (ref_of packet)).0 in
        let (first, latest) =
          observe-packets sha256 blake2b config s e.shared packet (ref_of packet) in
        let found : get_elem? (e.order ++ (s ∷ [])) (length e.order) ≡ some s =
          get_elem?-append_end e.order s in
        rw found (
          subst (λ order. AreSeen 0 order packet.packet_number) (sym (set_at-end e.order s after))
            (AreSeen-append 0 e.order high after (ref_of packet) (ref_of packet) first latest h a))

    Ready-order :
        (e : TcpSessionEngine) (key : FlowKey) (packet : Packet) {e' : TcpSessionEngine}
        → Ready e key packet e'
        → e'.order ≡ e.order
    unfolding reuse warn
    Ready-order e key packet (fresh n) = refl
    Ready-order e key packet (reused i f t) = refl

    observe-AreSeen :
        (e : TcpSessionEngine) (packet : Packet) (high : ℕ)
        → high ≤ packet.packet_number
        → AreSeen 0 e.order high
        → AreSeen 0
            (observe sha256 blake2b sha256_hex capture_id config e packet).order
            packet.packet_number
    unfolding skip refuse warn
    observe-AreSeen e packet high h a =
        let key = normalize packet.source packet.destination in
        observe_cases sha256 blake2b sha256_hex capture_id config
          (λ later. AreSeen 0 later.order packet.packet_number) e packet key refl
          (λ t. AreSeen-weaken 0 e.order high _ h a)
          (λ f e' code r _.
            subst (λ order. AreSeen 0 order packet.packet_number) (sym (Ready-order e key packet r))
              (AreSeen-weaken 0 e.order high _ h a))
          (λ f e' r _.
            opened-AreSeen e' key packet high h
              (subst (λ order. AreSeen 0 order high) (sym (Ready-order e key packet r)) a))
          (λ f i t. deliver-AreSeen e i packet 0 _ (AreSeen-weaken 0 e.order high _ h a))

-- What `finalize` makes of connections in the order of their first packets.
record InOrder (order : List SessionState) (low : ℕ) (o : Option (List TcpSession)) : Type 0 where
  sessions : List TcpSession
  are_some : o ≡ some sessions
  are_sorted : AreSorted low sessions
  ids :
      map (λ (t : TcpSession). t.session_id) sessions
      ≡ map (λ (s : SessionState). s.session_id) order

module _ (sha256 : List ℕ → List ℕ) (max_gaps : ℕ) where
  finalize_order-InOrder :
      (low : ℕ) (order : List SessionState) (high : ℕ) (shared : Shared)
      → AreSeen low order high
      → InOrder order low (finalize_order sha256 max_gaps order shared).0
  unfolding finalize_order AreSeen AreSorted add_session
  finalize_order-InOrder low [] high shared a = record {
    sessions = [];
    are_some = refl;
    are_sorted = tt;
    ids = refl;
  }
  finalize_order-InOrder low (s ∷ order) high shared (ref, last, f, l, b, rest) =
      let one = Final.finalize-IsResult sha256 max_gaps s shared ref last f l in
      let shared' = (Final.finalize sha256 max_gaps s shared).1 in
      let later = finalize_order-InOrder ref.packet_number order high shared' rest in
      record {
        sessions = one.session ∷ later.sessions;
        are_some = ap₂ add_session one.is_some later.are_some;
        are_sorted = (
          subst (λ r. low ≤ r.packet_number) (sym one.first_packet) b,
          subst (λ r. AreSorted r.packet_number later.sessions) (sym one.first_packet)
              later.are_sorted,
        );
        ids = ap₂ ◌∷◌ one.session_id later.ids;
      }

  module _ (blake2b : List ℕ → List ℕ) (sha256_hex : Text → Text) (capture_id : Text)
      (config : AnalysisConfig) where
    observe_all-AreSeen :
        (e : TcpSessionEngine) (packets : List Packet) (high : ℕ)
        → AreNumberedUp high packets
        → AreSeen 0 e.order high
        → (last : ℕ) × AreSeen 0
            (observe_all sha256 blake2b sha256_hex capture_id config e packets).order
            last
    unfolding observe_all
    observe_all-AreSeen e [] high n a = (high, a)
    observe_all-AreSeen e (packet ∷ packets) high n a =
        observe_all-AreSeen (observe sha256 blake2b sha256_hex capture_id config e packet) packets
          packet.packet_number n.1
          (observe-AreSeen sha256 blake2b config sha256_hex capture_id e packet high n.0 a)

    -- If the packets are numbered upwards, `finalize` never fails its assertion, and it reports the
    -- connections in the order in which they were made.
    pub finalize-first_seen :
        (packets : List Packet)
        → AreNumberedUp 0 packets
        → let e = observe_all sha256 blake2b sha256_hex capture_id config (new config) packets in
          (sessions : List TcpSession) × ((finalize sha256 max_gaps e).0 ≡ some sessions)
          × (map (λ (t : TcpSession). t.session_id) sessions
              ≡ map (λ (s : SessionState). s.session_id) e.order)
    unfolding finalize sorted new AreSeen
    finalize-first_seen packets n =
        let e = observe_all sha256 blake2b sha256_hex capture_id config (new config) packets in
        let (last, seen) = observe_all-AreSeen (new config) packets 0 n (omega arith) in
        let result = finalize_order-InOrder 0 e.order last e.shared seen in
        (
          result.sessions,
          ap (sorted sha256 max_gaps) result.are_some
              ∙ ap some (sort_sessions-AreSorted 0 result.sessions result.are_sorted),
          result.ids,
        )
