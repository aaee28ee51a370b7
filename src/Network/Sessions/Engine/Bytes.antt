-- ===== src/Network/Sessions/Engine/Bytes.antt =====
-- What a capture's connections hold, through all that is still to come.
use securemailscope.Base.{
  ℕ, zero, suc, ◌≡◌, refl, subst, Bool, true, false, List, [], ◌∷◌, ◌++◌, Option, none, some,
  get_elem?, All, All-append, arith, Option-cases, inl, inr,
}
use securemailscope.Base.Int.{ℤ, pos}
use securemailscope.Network.Flows.{Text, FlowKey, normalize}
use securemailscope.Network.Reassembly.Intervals.Bytes.{byte_at}
use securemailscope.Network.Reassembly.Directional.Packets.{IsStore}
use securemailscope.Network.Sessions.{Packet, AnalysisConfig, SessionState, new_session}
use securemailscope.Network.Sessions.Observe as Session
use securemailscope.Network.Sessions.Observe.Stores.{intervals_of, Keeps, observe-Keeps}
use securemailscope.Network.Sessions.Engine.{
  TcpSessionEngine, set_at, skip, reuse, refuse, warn, created, opened, deliver, deliver_to,
  observe, observe_all, ref_of, new,
}
use securemailscope.Network.Sessions.Engine.Cases.{Ready, fresh, reused, observe_cases}

AreStores : List SessionState → Type 0
AreStores order = All (λ s. IsStore (intervals_of s true) × IsStore (intervals_of s false)) order

-- The connection at `i` holds a byte at a position of one of its directions.
abbrev holds : Option SessionState → Bool → ℤ → Option ℕ
holds none d p = none
holds (some s) d p = byte_at (intervals_of s d) p

abbrev pub byte_of : TcpSessionEngine → ℕ → Bool → ℤ → Option ℕ
byte_of e i d p = holds (get_elem? e.order i) d p

store_of :
    (s : SessionState) (d : Bool)
    → IsStore (intervals_of s true) × IsStore (intervals_of s false)
    → IsStore (intervals_of s d)
store_of s true h = h.0
store_of s false h = h.1

set_at-AreStores :
    (order : List SessionState) (i : ℕ) (s t : SessionState)
    → get_elem? order i ≡ some s
    → ((d : Bool) → Keeps s t d)
    → AreStores order
    → AreStores (set_at i t order)
unfolding AreStores set_at
set_at-AreStores [] i s t f k h = tt
set_at-AreStores (x ∷ order) zero s t f k h =
    let e : x ≡ s = ground arith in
    (
      (
        (k true).store (subst (λ y. IsStore (intervals_of y true)) e h.0.0),
        (k false).store (subst (λ y. IsStore (intervals_of y false)) e h.0.1),
      ),
      h.1,
    )
set_at-AreStores (x ∷ order) (suc i) s t f k h = (h.0, set_at-AreStores order i s t f k h.1)

set_at-holds :
    (order : List SessionState) (i j : ℕ) (s t : SessionState) (d : Bool) (p : ℤ) (b : ℕ)
    → get_elem? order i ≡ some s
    → ((d : Bool) → Keeps s t d)
    → AreStores order
    → holds (get_elem? order j) d p ≡ some b
    → holds (get_elem? (set_at i t order) j) d p ≡ some b
unfolding AreStores set_at
set_at-holds [] i j s t d p b f k h e = e
set_at-holds (x ∷ order) zero zero s t d p b f k h e =
    let same : x ≡ s = ground arith in
    (k d).byte p b (subst (λ y. IsStore (intervals_of y d)) same (store_of x d h.0))
      (subst (λ y. byte_at (intervals_of y d) p ≡ some b) same e)
set_at-holds (x ∷ order) zero (suc j) s t d p b f k h e = e
set_at-holds (x ∷ order) (suc i) zero s t d p b f k h e = e
set_at-holds (x ∷ order) (suc i) (suc j) s t d p b f k h e =
    set_at-holds order i j s t d p b f k h.1 e

append-holds :
    (order : List SessionState) (s : SessionState) (j : ℕ) (d : Bool) (p : ℤ) (b : ℕ)
    → holds (get_elem? order j) d p ≡ some b
    → holds (get_elem? (order ++ (s ∷ [])) j) d p ≡ some b
append-holds [] s j d p b e = absurd (ground arith)
append-holds (x ∷ order) s zero d p b e = e
append-holds (x ∷ order) s (suc j) d p b e = append-holds order s j d p b e

module _ (sha256 blake2b : List ℕ → List ℕ) (sha256_hex : Text → Text) (capture_id : Text)
    (config : AnalysisConfig) where
  module _ (j : ℕ) (d : Bool) (p : ℤ) (b : ℕ) where
    -- The stores are in order, and the byte is held if it was.
    abbrev Held : TcpSessionEngine → TcpSessionEngine → Type 0
    Held e later = AreStores later.order × (byte_of e j d p ≡ some b → byte_of later j d p ≡ some b)

    deliver-Held :
        (e e' : TcpSessionEngine) (i : ℕ) (packet : Packet)
        → Held e e'
        → Held e (deliver sha256 blake2b config e' i packet)
    unfolding deliver deliver_to
    deliver-Held e e' i packet h = elim (Option-cases (get_elem? e'.order i)) [
      | inl n ↦ rw n h
      | inr (s, f) ↦
          let after =
            (Session.observe sha256 blake2b config s e'.shared packet (ref_of packet)).0 in
          let keeps = observe-Keeps sha256 blake2b config s e'.shared packet (ref_of packet) in
          rw f (
            set_at-AreStores e'.order i s after f keeps h.0,
            λ held. set_at-holds e'.order i j s after d p b f keeps h.0 (h.1 held),
          )
    ]

    opened-Held :
        (e e' : TcpSessionEngine) (key : FlowKey) (packet : Packet)
        → Held e e'
        → Held e (opened sha256_hex capture_id config e' key packet)
    unfolding opened created new_session AreStores
    opened-Held e e' key packet h =
        let s = created sha256_hex capture_id config e' key packet in
        (
          All-append _ e'.order (s ∷ []) h.0
              ((record { low = pos 0; ordered = tt }, record { low = pos 0; ordered = tt }), tt),
          λ held. append-holds e'.order s j d p b (h.1 held),
        )

    Ready-Held :
        (e : TcpSessionEngine) (key : FlowKey) (packet : Packet) {e' : TcpSessionEngine}
        → Ready e key packet e'
        → AreStores e.order
        → Held e e'
    unfolding reuse warn
    Ready-Held e key packet (fresh n) h = (h, λ held. held)
    Ready-Held e key packet (reused i f t) h = (h, λ held. held)

    observe-Held :
        (e : TcpSessionEngine) (packet : Packet)
        → AreStores e.order
        → Held e (observe sha256 blake2b sha256_hex capture_id config e packet)
    unfolding skip refuse warn
    observe-Held e packet h =
        let key = normalize packet.source packet.destination in
        observe_cases sha256 blake2b sha256_hex capture_id config (Held e) e packet key refl
          (λ t. (h, λ held. held)) (λ f e' code r _. Ready-Held e key packet r h)
          (λ f e' r _.
            deliver-Held e _ _ packet (opened-Held e e' key packet (Ready-Held e key packet r h)))
          (λ f i t. deliver-Held e e i packet (h, λ held. held))

    observe_all-Held :
        (e : TcpSessionEngine) (packets : List Packet)
        → AreStores e.order
        → Held e (observe_all sha256 blake2b sha256_hex capture_id config e packets)
    unfolding observe_all
    observe_all-Held e [] h = (h, λ held. held)
    observe_all-Held e (packet ∷ packets) h =
        let step = observe-Held e packet h in
        let rest =
          observe_all-Held (observe sha256 blake2b sha256_hex capture_id config e packet) packets
            step.0 in
        (rest.0, λ held. rest.1 (step.1 held))

  -- Whatever a capture goes on with, a byte that a connection holds is never changed.
  pub observe_all-bytes_stay :
      (packets later : List Packet) (i : ℕ) (d : Bool) (p : ℤ) (b : ℕ)
      → let e = observe_all sha256 blake2b sha256_hex capture_id config (new config) packets in
        byte_of e i d p ≡ some b
        → byte_of (observe_all sha256 blake2b sha256_hex capture_id config e later) i d p ≡ some b
  unfolding new AreStores
  observe_all-bytes_stay packets later i d p b held =
      let first = observe_all-Held i d p b (new config) packets tt in
      (observe_all-Held i d p b _ later first.0).1 held
