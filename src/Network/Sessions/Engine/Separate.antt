-- ===== src/Network/Sessions/Engine/Separate.antt =====
-- Connections do not mix: a packet touches one connection, of its own key, and a completed one never.
use securemailscope.Base.{
  ℕ, ◌≡◌, refl, sym, ◌∙◌, ap, subst, ◌<◌, ◌≢◌, List, [], ◌∷◌, some, All, All-append, length-map,
  length-append, length, get_elem?, arith, inl, inr, Option-cases,
}
use securemailscope.Network.Flows.{Text, FlowKey, normalize}
use securemailscope.Network.Sessions.{Packet, AnalysisConfig, key_of}
use securemailscope.Network.Sessions.Engine.{
  TcpSessionEngine, find_key, del_key, skip, reuse, refuse, warn, created, opened, deliver,
  deliver_to, observe, observe_all, new,
}
use securemailscope.Network.Sessions.Engine.Tables.{
  get_elem?-set_at_other, get_elem?_bound, get_elem?-append_left, find_key-All, set_key-All,
  del_key-All,
}
use securemailscope.Network.Sessions.Engine.Cases.{Ready, fresh, reused, observe_cases}
use securemailscope.Network.Sessions.Engine.Filed.{
  keys, IsFiled, All-mono, observe-IsFiled, keys-deliver,
}

some-injective {ℓ} : {A : Type ℓ} {a b : A} → some a ≡ some b → a ≡ b
some-injective h = ground arith

-- A place of `order` that no active entry leads to.
pub record IsSettled (e : TcpSessionEngine) (i : ℕ) : Type 0 where
  pub inactive : All (λ entry. entry.1 ≢ i) e.active
  pub bound : i < length e.order

module _ (sha256 blake2b : List ℕ → List ℕ) (sha256_hex : Text → Text) (capture_id : Text)
    (config : AnalysisConfig) where
  deliver-other :
      (e : TcpSessionEngine) (i j : ℕ) (packet : Packet)
      → i ≢ j
      → get_elem? (deliver sha256 blake2b config e i packet).order j ≡ get_elem? e.order j
  unfolding deliver deliver_to
  deliver-other e i j packet n = elim (Option-cases (get_elem? e.order i)) [
    | inl h ↦ rw h refl
    | inr (s, h) ↦ rw h (get_elem?-set_at_other i j _ e.order n)
  ]

  Ready-order :
      (e : TcpSessionEngine) (key : FlowKey) (packet : Packet) {e' : TcpSessionEngine}
      → Ready e key packet e'
      → e'.order ≡ e.order
  unfolding reuse warn
  Ready-order e key packet (fresh n) = refl
  Ready-order e key packet (reused i f t) = refl

  opened-other :
      (e e' : TcpSessionEngine) (key : FlowKey) (packet : Packet) (j : ℕ)
      → e'.order ≡ e.order
      → j < length e.order
      → get_elem?
          (deliver sha256 blake2b config
            (opened sha256_hex capture_id config e' key packet)
            (length e'.order)
            packet).order
          j
        ≡ get_elem? e.order j
  unfolding opened
  opened-other e e' key packet j o h =
      deliver-other (opened sha256_hex capture_id config e' key packet) (length e'.order) j packet
        (λ (same : length e'.order ≡ j). omega (arith, ap length o, same, h))
      ∙ (get_elem?-append_left e'.order _ j (omega (arith, ap length o, h))
          ∙ ap (λ order. get_elem? order j) o)

  -- A packet changes no connection of another key than its own.
  pub observe-other_key :
      (e : TcpSessionEngine) (packet : Packet) (j : ℕ)
      → IsFiled e
      → j < length e.order
      → get_elem? (keys e.order) j ≢ some (normalize packet.source packet.destination)
      → get_elem? (observe sha256 blake2b sha256_hex capture_id config e packet).order j
        ≡ get_elem? e.order j
  unfolding skip refuse warn
  observe-other_key e packet j filed bound n =
      let key = normalize packet.source packet.destination in
      observe_cases sha256 blake2b sha256_hex capture_id config
        (λ later. get_elem? later.order j ≡ get_elem? e.order j) e packet key refl (λ t. refl)
        (λ f e' code r _. ap (λ order. get_elem? order j) (Ready-order e key packet r))
        (λ f e' r _. opened-other e e' key packet j (Ready-order e key packet r) bound)
        (λ f i t. deliver-other e i j packet λ same. n (
          subst (λ k. get_elem? (keys e.order) k ≡ some key) same
            (find_key-All _ key i e.active filed t)))

  deliver-order_length :
      (e : TcpSessionEngine) (i : ℕ) (packet : Packet)
      → length (deliver sha256 blake2b config e i packet).order ≡ length e.order
  deliver-order_length e i packet =
      sym (length-map key_of _)
      ∙ (ap length (keys-deliver sha256 blake2b sha256_hex capture_id config e i packet).0
          ∙ length-map key_of e.order)

  Ready-IsSettled :
      (e : TcpSessionEngine) (key : FlowKey) (packet : Packet) (i : ℕ) {e' : TcpSessionEngine}
      → Ready e key packet e'
      → IsSettled e i
      → IsSettled e' i
  unfolding reuse warn
  Ready-IsSettled e key packet i (fresh n) h = h
  Ready-IsSettled e key packet i (reused j f t) h = record {
    inactive =
        All-mono _ _ (del_key key e.active) (λ entry p. p.0)
          (del_key-All _ key e.active h.inactive);
    bound = h.bound;
  }

  opened-IsSettled :
      (e : TcpSessionEngine) (key : FlowKey) (packet : Packet) (i : ℕ)
      → IsSettled e i
      → IsSettled (opened sha256_hex capture_id config e key packet) i
  unfolding opened
  opened-IsSettled e key packet i h = record {
    inactive =
        set_key-All _ key (length e.order) e.active (λ same. omega (arith, same, h.bound))
          h.inactive;
    bound = omega (
      arith,
      h.bound,
      length-append e.order (created sha256_hex capture_id config e key packet ∷ []),
    );
  }

  deliver-IsSettled :
      (e : TcpSessionEngine) (j : ℕ) (packet : Packet) (i : ℕ)
      → IsSettled e i
      → IsSettled (deliver sha256 blake2b config e j packet) i
  deliver-IsSettled e j packet i h = record {
    inactive =
        rw (keys-deliver sha256 blake2b sha256_hex capture_id config e j packet).1 h.inactive;
    bound = omega (arith, h.bound, deliver-order_length e j packet);
  }

  abbrev Stays : TcpSessionEngine → ℕ → TcpSessionEngine → Type 0
  Stays e i later = IsSettled later i × (get_elem? later.order i ≡ get_elem? e.order i)

  observe-Stays :
      (e : TcpSessionEngine) (packet : Packet) (i : ℕ)
      → IsSettled e i
      → Stays e i (observe sha256 blake2b sha256_hex capture_id config e packet)
  unfolding skip refuse warn
  observe-Stays e packet i h =
      let key = normalize packet.source packet.destination in
      observe_cases sha256 blake2b sha256_hex capture_id config (Stays e i) e packet key refl
        (λ t. (record { inactive = h.inactive; bound = h.bound }, refl))
        (λ f e' code r _.
          let s = Ready-IsSettled e key packet i r h in
          (
            record { inactive = s.inactive; bound = s.bound },
            ap (λ order. get_elem? order i) (Ready-order e key packet r),
          ))
        (λ f e' r _. (
          deliver-IsSettled _ _ packet i
              (opened-IsSettled e' key packet i (Ready-IsSettled e key packet i r h)),
          opened-other e e' key packet i (Ready-order e key packet r) h.bound,
        ))
        (λ f j t. (
          deliver-IsSettled e j packet i h,
          deliver-other e j i packet
              (find_key-All (λ entry. entry.1 ≢ i) key j e.active h.inactive t),
        ))

  observe_all-Stays :
      (e : TcpSessionEngine) (packets : List Packet) (i : ℕ)
      → IsSettled e i
      → Stays e i (observe_all sha256 blake2b sha256_hex capture_id config e packets)
  unfolding observe_all
  observe_all-Stays e [] i h = (h, refl)
  observe_all-Stays e (packet ∷ packets) i h =
      let (settled, same) = observe-Stays e packet i h in
      let (settled', same') =
        observe_all-Stays (observe sha256 blake2b sha256_hex capture_id config e packet) packets i
          settled in
      (settled', same' ∙ same)

  -- What the engine counts as completed is settled.
  pub record IsRetired (e : TcpSessionEngine) : Type 0 where
    pub filed : IsFiled e
    pub settled : All (IsSettled e) e.completed

  -- Setting a connection aside settles it: no other entry leads to a connection of its key.
  reuse-IsSettled :
      (e : TcpSessionEngine) (key : FlowKey) (i : ℕ)
      → IsFiled e
      → find_key key e.active ≡ some i
      → IsSettled (reuse e key i) i
  unfolding reuse warn
  reuse-IsSettled e key i filed f =
      let here = find_key-All _ key i e.active filed f in
      record {
        inactive =
            All-mono _ _ (del_key key e.active)
              (λ entry p same.
                p.1 (some-injective (sym p.0 ∙ (ap (get_elem? (keys e.order)) same ∙ here))))
              (del_key-All _ key e.active filed);
        bound =
            subst (λ n. i < n) (length-map key_of e.order)
              (get_elem?_bound (keys e.order) i key here);
      }

  deliver-completed :
      (e : TcpSessionEngine) (i : ℕ) (packet : Packet)
      → (deliver sha256 blake2b config e i packet).completed ≡ e.completed
  unfolding deliver deliver_to
  deliver-completed e i packet = elim (Option-cases (get_elem? e.order i)) [
    | inl h ↦ rw h refl
    | inr (s, h) ↦ rw h refl
  ]

  Ready-completed :
      (e : TcpSessionEngine) (key : FlowKey) (packet : Packet) {e' : TcpSessionEngine}
      → Ready e key packet e'
      → IsRetired e
      → All (IsSettled e') e'.completed
  unfolding reuse warn
  Ready-completed e key packet (fresh n) h = h.settled
  Ready-completed e key packet (reused i f t) h =
      All-append (IsSettled (reuse e key i)) e.completed (i ∷ [])
        (All-mono _ _ e.completed (λ j. Ready-IsSettled e key packet j (reused i f t)) h.settled)
        (reuse-IsSettled e key i h.filed f, tt)

  observe-IsRetired :
      (e : TcpSessionEngine) (packet : Packet)
      → IsRetired e
      → IsRetired (observe sha256 blake2b sha256_hex capture_id config e packet)
  unfolding skip refuse warn opened
  observe-IsRetired e packet h =
      let key = normalize packet.source packet.destination in
      record {
        filed = observe-IsFiled sha256 blake2b sha256_hex capture_id config e packet h.filed;
        settled =
            observe_cases sha256 blake2b sha256_hex capture_id config
              (λ later. All (IsSettled later) later.completed) e packet key refl
              (λ t.
                All-mono _ _ e.completed (λ i s. record { inactive = s.inactive; bound = s.bound })
                  h.settled)
              (λ f e' code r _.
                All-mono _ _ e'.completed (λ i s. record { inactive = s.inactive; bound = s.bound })
                  (Ready-completed e key packet r h))
              (λ f e' r _.
                subst
                  (All (
                    IsSettled (
                      deliver sha256 blake2b config
                        (opened sha256_hex capture_id config e' key packet) (length e'.order)
                        packet)))
                  (sym (
                    deliver-completed (opened sha256_hex capture_id config e' key packet)
                      (length e'.order) packet))
                  (All-mono _ _ e'.completed
                    (λ i s. deliver-IsSettled _ _ packet i (opened-IsSettled e' key packet i s))
                    (Ready-completed e key packet r h)))
              (λ f i t.
                subst (All (IsSettled (deliver sha256 blake2b config e i packet)))
                  (sym (deliver-completed e i packet))
                  (All-mono _ _ e.completed (λ j. deliver-IsSettled e i packet j) h.settled));
      }

  pub observe_all-IsRetired :
      (e : TcpSessionEngine) (packets : List Packet)
      → IsRetired e
      → IsRetired (observe_all sha256 blake2b sha256_hex capture_id config e packets)
  unfolding observe_all
  observe_all-IsRetired e [] h = h
  observe_all-IsRetired e (packet ∷ packets) h =
      observe_all-IsRetired (observe sha256 blake2b sha256_hex capture_id config e packet) packets
        (observe-IsRetired e packet h)

  new-IsRetired : IsRetired (new config)
  unfolding new
  new-IsRetired = record { filed = tt; settled = tt }

  -- Once a new connection on its addresses has set a connection aside, no later packet changes it.
  pub observe_all-completed :
      (packets later : List Packet)
      → let e = observe_all sha256 blake2b sha256_hex capture_id config (new config) packets in
        All
          (λ i.
            get_elem? (observe_all sha256 blake2b sha256_hex capture_id config e later).order i
            ≡ get_elem? e.order i)
          e.completed
  observe_all-completed packets later =
      let e = observe_all sha256 blake2b sha256_hex capture_id config (new config) packets in
      All-mono _ _ e.completed (λ i s. (observe_all-Stays e later i s).1)
        (observe_all-IsRetired (new config) packets new-IsRetired).settled
