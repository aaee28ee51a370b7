-- ===== src/Network/Sessions/Engine/Filed.antt =====
-- Where connections are filed: the active entry of a key leads to a connection of that key, and a
-- packet goes to a connection of its own key.
use securemailscope.Base.{
  ℕ, ◌≡◌, refl, sym, ◌∙◌, ap, List, [], ◌∷◌, ◌++◌, some, All, map, length-map, subst, length,
  get_elem?, arith, inl, inr, Option-cases,
}
use securemailscope.Network.Flows.{Text, FlowKey, normalize}
use securemailscope.Network.Flows.Identity.{normalize_comm}
use securemailscope.Network.Sessions.{
  Packet, AnalysisConfig, SessionState, new_session, key_of, TcpFlow,
}
use securemailscope.Network.Sessions.Roles.{assign_roles, roles}
use securemailscope.Network.Sessions.Observe as Session
use securemailscope.Network.Sessions.Observe.Kept.{observe-Follows}
use securemailscope.Network.Sessions.Engine.{
  TcpSessionEngine, del_key, skip, reuse, refuse, warn, created, opened, deliver, deliver_to,
  observe, observe_all, ref_of, new,
}
use securemailscope.Network.Sessions.Engine.Tables.{
  map-set_at, map-append_end, get_elem?_bound, get_elem?-append_left, get_elem?-append_end,
  set_key-All, del_key-All,
}
use securemailscope.Network.Sessions.Engine.Cases.{Ready, fresh, reused, observe_cases}

abbrev pub keys : List SessionState → List FlowKey
keys = map key_of

-- The active entry of a key leads to a connection of that key.
abbrev pub IsFiled : TcpSessionEngine → Type 0
IsFiled e = All (λ entry. get_elem? (keys e.order) entry.1 ≡ some entry.0) e.active

pub All-mono {ℓ κ μ} :
    {A : Type ℓ} (P : A → Type κ) (Q : A → Type μ) (xs : List A)
    → ((a : A) → P a → Q a)
    → All P xs
    → All Q xs
All-mono P Q [] f h = tt
All-mono P Q (x ∷ xs) f h = (f x h.0, All-mono P Q xs f h.1)

assign_roles-key :
    (packet : Packet)
    → normalize (assign_roles packet).client (assign_roles packet).server
      ≡ normalize packet.source packet.destination
unfolding assign_roles roles
assign_roles-key packet = ground (arith, normalize_comm packet.source packet.destination)

module _ (sha256 blake2b : List ℕ → List ℕ) (sha256_hex : Text → Text) (capture_id : Text)
    (config : AnalysisConfig) where
  -- A packet leaves every connection's key.
  pub keys-deliver :
      (e : TcpSessionEngine) (i : ℕ) (packet : Packet)
      → (keys (deliver sha256 blake2b config e i packet).order ≡ keys e.order)
        × ((deliver sha256 blake2b config e i packet).active ≡ e.active)
  unfolding deliver deliver_to key_of
  keys-deliver e i packet = elim (Option-cases (get_elem? e.order i)) [
    | inl h ↦ rw h (refl, refl)
    | inr (s, h) ↦
        let after = (Session.observe sha256 blake2b config s e.shared packet (ref_of packet)).0 in
        let kept = observe-Follows sha256 blake2b config s e.shared packet (ref_of packet) in
        rw h (
          map-set_at key_of i after s e.order h
              (ap (λ (flow : TcpFlow). normalize flow.client flow.server) kept.flow),
          refl,
        )
  ]

  pub created-key :
      (e : TcpSessionEngine) (packet : Packet)
      → let key = normalize packet.source packet.destination in
        key_of (created sha256_hex capture_id config e key packet) ≡ key
  unfolding created new_session key_of
  created-key e packet = assign_roles-key packet

  pub keys-opened :
      (e : TcpSessionEngine) (key : FlowKey) (packet : Packet)
      → normalize packet.source packet.destination ≡ key
      → keys (opened sha256_hex capture_id config e key packet).order ≡ keys e.order ++ (key ∷ [])
  unfolding opened
  keys-opened e key packet k =
      subst
        (λ k'.
          keys (opened sha256_hex capture_id config e k' packet).order ≡ keys e.order ++ (k' ∷ []))
        k
        (map-append_end key_of e.order (
            created sha256_hex capture_id config e (normalize packet.source packet.destination)
              packet)
          ∙ ap (λ k'. keys e.order ++ (k' ∷ [])) (created-key e packet))

  reuse-IsFiled :
      (e : TcpSessionEngine) (key : FlowKey) (i : ℕ) → IsFiled e → IsFiled (reuse e key i)
  unfolding reuse warn
  reuse-IsFiled e key i h =
      All-mono _ _ (del_key key e.active) (λ entry p. p.0) (del_key-All _ key e.active h)

  pub Ready-IsFiled :
      (e : TcpSessionEngine) (key : FlowKey) (packet : Packet) {e' : TcpSessionEngine}
      → Ready e key packet e'
      → IsFiled e
      → IsFiled e'
  Ready-IsFiled e key packet (fresh n) h = h
  Ready-IsFiled e key packet (reused i f t) h = reuse-IsFiled e key i h

  pub opened-IsFiled :
      (e : TcpSessionEngine) (key : FlowKey) (packet : Packet)
      → normalize packet.source packet.destination ≡ key
      → IsFiled e
      → IsFiled (opened sha256_hex capture_id config e key packet)
  unfolding opened
  opened-IsFiled e key packet k h = rw (keys-opened e key packet k) (
      set_key-All _ key (length e.order) e.active
        (ap (get_elem? (keys e.order ++ (key ∷ []))) (sym (length-map key_of e.order))
          ∙ get_elem?-append_end (keys e.order) key)
        (All-mono _ _ e.active
          (λ entry found.
            get_elem?-append_left (keys e.order) (key ∷ []) entry.1
              (get_elem?_bound (keys e.order) entry.1 entry.0 found)
            ∙ found)
          h))

  pub deliver-IsFiled :
      (e : TcpSessionEngine) (i : ℕ) (packet : Packet)
      → IsFiled e
      → IsFiled (deliver sha256 blake2b config e i packet)
  deliver-IsFiled e i packet h = rw ((keys-deliver e i packet).0, (keys-deliver e i packet).1) h

  pub observe-IsFiled :
      (e : TcpSessionEngine) (packet : Packet)
      → IsFiled e
      → IsFiled (observe sha256 blake2b sha256_hex capture_id config e packet)
  unfolding skip refuse warn
  observe-IsFiled e packet h =
      let key = normalize packet.source packet.destination in
      observe_cases sha256 blake2b sha256_hex capture_id config IsFiled e packet key refl (λ t. h)
        (λ f e' code r n. Ready-IsFiled e key packet r h)
        (λ f e' r n.
          deliver-IsFiled _ _ packet
            (opened-IsFiled e' key packet refl (Ready-IsFiled e key packet r h)))
        (λ f i t. deliver-IsFiled e i packet h)

  observe_all-IsFiled_from :
      (e : TcpSessionEngine) (packets : List Packet)
      → IsFiled e
      → IsFiled (observe_all sha256 blake2b sha256_hex capture_id config e packets)
  unfolding observe_all
  observe_all-IsFiled_from e [] h = h
  observe_all-IsFiled_from e (packet ∷ packets) h =
      observe_all-IsFiled_from (observe sha256 blake2b sha256_hex capture_id config e packet)
        packets (observe-IsFiled e packet h)

  pub observe_all-IsFiled :
      (packets : List Packet)
      → IsFiled (observe_all sha256 blake2b sha256_hex capture_id config (new config) packets)
  unfolding new
  observe_all-IsFiled packets = observe_all-IsFiled_from (new config) packets tt
