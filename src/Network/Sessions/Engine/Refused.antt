-- ===== src/Network/Sessions/Engine/Refused.antt =====
-- A connection that a limit refused stays refused: its packets reach no connection.
use securemailscope.Base.{
  ℕ, zero, suc, ◌≡◌, refl, sym, ◌∙◌, ap, Bool, true, false, List, [], ◌∷◌, ◌++◌, some, length,
  get_elem?, any, if◌then◌else◌, arith, Bool-cases, inl, inr,
}
use securemailscope.Evidence.{WarningCode}
use securemailscope.Network.Flows.{Text, FlowKey, normalize, eq_key}
use securemailscope.Network.Flows.Identity.{eq_key_iff}
use securemailscope.Network.Sessions.{Packet, AnalysisConfig, SessionState, key_of, TcpFlow}
use securemailscope.Network.Sessions.Observe as Session
use securemailscope.Network.Sessions.Observe.Kept.{observe-Follows}
use securemailscope.Network.Sessions.Engine.{
  TcpSessionEngine, set_at, skip, reuse, refuse, warn, opened, deliver, deliver_to, observe,
  observe_all, ref_of, new,
}
use securemailscope.Network.Sessions.Engine.Tables.{get_elem?-append_end, find_key-All}
use securemailscope.Network.Sessions.Engine.Cases.{Ready, fresh, reused, observe_cases}
use securemailscope.Network.Sessions.Engine.Filed.{
  keys, IsFiled, observe-IsFiled, observe_all-IsFiled, created-key,
}
use securemailscope.Network.Sessions.Engine.Counted.{found_of}

-- The connections of a key, in order.
unfoldable pub of_key : FlowKey → List SessionState → List SessionState
of_key key [] = []
of_key key (s ∷ order) =
    let rest = of_key key order in if eq_key key (key_of s) then s ∷ rest else rest

unfoldable pub is_refused : FlowKey → TcpSessionEngine → Bool
is_refused key e = any (eq_key key) e.refused_keys

of_key-set_at :
    (key : FlowKey) (order : List SessionState) (i : ℕ) (s t : SessionState)
    → get_elem? order i ≡ some s
    → key_of t ≡ key_of s
    → eq_key key (key_of s) ≡ false
    → of_key key (set_at i t order) ≡ of_key key order
unfolding of_key set_at
of_key-set_at key [] i s t f k n = refl
of_key-set_at key (x ∷ order) zero s t f k n =
    let same : x ≡ s = ground arith in
    let a : eq_key key (key_of t) ≡ false = ap (eq_key key) k ∙ n in
    let b : eq_key key (key_of x) ≡ false = ap (λ y. eq_key key (key_of y)) same ∙ n in
    ground (arith, a, b)
of_key-set_at key (x ∷ order) (suc i) s t f k n =
    ground (arith, of_key-set_at key order i s t f k n)

of_key-append :
    (key : FlowKey) (order : List SessionState) (s : SessionState)
    → eq_key key (key_of s) ≡ false
    → of_key key (order ++ (s ∷ [])) ≡ of_key key order
unfolding of_key
of_key-append key [] s n = ground arith
of_key-append key (x ∷ order) s n = ground (arith, of_key-append key order s n)

key_at :
    (order : List SessionState) (i : ℕ) (key : FlowKey) (s : SessionState)
    → get_elem? (keys order) i ≡ some key
    → get_elem? order i ≡ some s
    → key_of s ≡ key
key_at [] i key s h f = absurd (ground arith)
key_at (x ∷ order) zero key s h f =
    let same : x ≡ s = ground arith in
    let there : key_of x ≡ key = ground arith in sym (ap key_of same) ∙ there
key_at (x ∷ order) (suc i) key s h f = key_at order i key s h f

true-false : true ≡ false → ⊥
true-false h = ground arith

module _ (sha256 blake2b : List ℕ → List ℕ) (sha256_hex : Text → Text) (capture_id : Text)
    (config : AnalysisConfig) where
  module _ (key : FlowKey) where
    -- The key is refused, and its connections are what they were.
    abbrev Unmoved : TcpSessionEngine → TcpSessionEngine → Type 0
    Unmoved e later = (is_refused key later ≡ true) × (of_key key later.order ≡ of_key key e.order)

    deliver-Unmoved :
        (e e' : TcpSessionEngine) (i : ℕ) (packet : Packet) (s : SessionState)
        → get_elem? e'.order i ≡ some s
        → eq_key key (key_of s) ≡ false
        → Unmoved e e'
        → Unmoved e (deliver sha256 blake2b config e' i packet)
    unfolding deliver deliver_to key_of is_refused
    deliver-Unmoved e e' i packet s f n h =
        let after = (Session.observe sha256 blake2b config s e'.shared packet (ref_of packet)).0 in
        let kept = observe-Follows sha256 blake2b config s e'.shared packet (ref_of packet) in
        rw f (
          h.0,
          of_key-set_at key e'.order i s after f
                (ap (λ (flow : TcpFlow). normalize flow.client flow.server) kept.flow) n
              ∙ h.1,
        )

    opened-Unmoved :
        (e e' : TcpSessionEngine) (packet : Packet)
        → eq_key key (normalize packet.source packet.destination) ≡ false
        → Unmoved e e'
        → Unmoved e (
            opened sha256_hex capture_id config e'
              (normalize packet.source packet.destination)
              packet)
    unfolding opened is_refused
    opened-Unmoved e e' packet n h = (
      h.0,
      of_key-append key e'.order _ (
            ap (eq_key key) (created-key sha256 blake2b sha256_hex capture_id config e' packet) ∙ n)
          ∙ h.1,
    )

    Ready-Unmoved :
        (e : TcpSessionEngine) (other : FlowKey) (packet : Packet) {e' : TcpSessionEngine}
        → Ready e other packet e'
        → is_refused key e ≡ true
        → Unmoved e e'
    unfolding reuse warn is_refused
    Ready-Unmoved e other packet (fresh n) h = (h, refl)
    Ready-Unmoved e other packet (reused i f t) h = (h, refl)

    another :
        (e : TcpSessionEngine) (other : FlowKey)
        → is_refused key e ≡ true
        → is_refused other e ≡ false
        → eq_key key other ≡ false
    unfolding is_refused
    another e other h n = elim (Bool-cases (eq_key key other)) [
      | inl same ↦
          let k : key ≡ other = (eq_key_iff key other).0 same in
          absurd (true-false (sym h ∙ (ap (λ k'. any (eq_key k') e.refused_keys) k ∙ n)))
      | inr f ↦ f
    ]

    refuse-Unmoved :
        (e e' : TcpSessionEngine) (other : FlowKey) (code : WarningCode)
        → Unmoved e e'
        → Unmoved e (refuse e' other code)
    unfolding refuse warn is_refused
    refuse-Unmoved e e' other code h = (ground (arith, h.0), h.1)

    observe-Unmoved :
        (e : TcpSessionEngine) (packet : Packet)
        → IsFiled e
        → is_refused key e ≡ true
        → Unmoved e (observe sha256 blake2b sha256_hex capture_id config e packet)
    unfolding skip is_refused opened
    observe-Unmoved e packet filed h =
        let other = normalize packet.source packet.destination in
        observe_cases sha256 blake2b sha256_hex capture_id config (Unmoved e) e packet other refl
          (λ t. (h, refl))
          (λ f e' code r _. refuse-Unmoved e e' other code (Ready-Unmoved e other packet r h))
          (λ f e' r _.
            deliver-Unmoved e (opened sha256_hex capture_id config e' other packet)
              (length e'.order) packet _ (get_elem?-append_end e'.order _)
              (ap (eq_key key) (created-key sha256 blake2b sha256_hex capture_id config e' packet)
                ∙ another e other h f)
              (opened-Unmoved e e' packet (another e other h f) (Ready-Unmoved e other packet r h)))
          (λ f i t.
            let here =
              find_key-All (λ entry. get_elem? (keys e.order) entry.1 ≡ some entry.0) other i
                e.active filed t in
            let (s, found) = found_of e.order i other here in
            deliver-Unmoved e e i packet s found
              (ap (eq_key key) (key_at e.order i other s here found) ∙ another e other h f)
              (h, refl))

    observe_all-Unmoved :
        (e : TcpSessionEngine) (packets : List Packet)
        → IsFiled e
        → is_refused key e ≡ true
        → Unmoved e (observe_all sha256 blake2b sha256_hex capture_id config e packets)
    unfolding observe_all
    observe_all-Unmoved e [] filed h = (h, refl)
    observe_all-Unmoved e (packet ∷ packets) filed h =
        let step = observe-Unmoved e packet filed h in
        let rest =
          observe_all-Unmoved (observe sha256 blake2b sha256_hex capture_id config e packet) packets
            (observe-IsFiled sha256 blake2b sha256_hex capture_id config e packet filed) step.0 in
        (rest.0, rest.1 ∙ step.1)

  -- Once a connection was refused, the key stays refused, no connection of it is made any more, and
  -- those that it had are left as they are.
  pub observe_all-refused :
      (packets later : List Packet) (key : FlowKey)
      → let e = observe_all sha256 blake2b sha256_hex capture_id config (new config) packets in
        is_refused key e ≡ true
        → let e' = observe_all sha256 blake2b sha256_hex capture_id config e later in
          (is_refused key e' ≡ true) × (of_key key e'.order ≡ of_key key e.order)
  observe_all-refused packets later key h =
      observe_all-Unmoved key _ later
        (observe_all-IsFiled sha256 blake2b sha256_hex capture_id config packets) h
