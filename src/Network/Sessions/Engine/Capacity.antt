-- ===== src/Network/Sessions/Engine/Capacity.antt =====
-- The session limits: how many connections are open, and how many are recorded.
use securemailscope.Base.{
  ℕ, zero, suc, ◌+◌, ◌≡◌, refl, sym, subst, ◌≤◌, ◌<◌, true, List, [], ◌∷◌, ◌++◌, none, some, All,
  length-map, length-append, length, get_elem?, arith, inl, inr, Option-cases,
}
use securemailscope.Network.Flows.{Text, FlowKey, normalize}
use securemailscope.Network.Sessions.{Packet, AnalysisConfig, SessionState, key_of}
use securemailscope.Network.Sessions.Observe as Session
use securemailscope.Network.Sessions.Observe.Kept.{observe-Follows}
use securemailscope.Network.Sessions.Engine.{
  TcpSessionEngine, set_key, del_key, set_at, skip, reuse, refusal, refuse, warn, created, opened,
  deliver, deliver_to, observe, observe_all, ref_of, count_open, open_session_count, is_open, new,
}
use securemailscope.Network.Sessions.Engine.Tables.{
  length-set_at, get_elem?_bound, get_elem?-append_left,
}
use securemailscope.Network.Sessions.Engine.Cases.{Ready, fresh, reused, observe_cases}
use securemailscope.Network.Sessions.Engine.Filed.{keys, IsFiled, Ready-IsFiled, observe-IsFiled}

pub record IsWithin (config : AnalysisConfig) (e : TcpSessionEngine) : Type 0 where
  pub filed : IsFiled e
  pub recorded : length e.order ≤ config.max_total_sessions
  pub opened_at_once : open_session_count e ≤ config.max_concurrent_sessions

is_open-set_at :
    (order : List SessionState) (i j : ℕ) (s s' : SessionState)
    → get_elem? order i ≡ some s
    → (s.closed ≡ true → s'.closed ≡ true)
    → (is_open (get_elem? (set_at i s' order) j) ≡ true → is_open (get_elem? order j) ≡ true)
unfolding is_open set_at
is_open-set_at [] i j s s' h c = λ t. t
is_open-set_at (x ∷ order) zero zero s s' h c = ground (arith, c)
is_open-set_at (x ∷ order) zero (suc j) s s' h c = λ t. t
is_open-set_at (x ∷ order) (suc i) zero s s' h c = λ t. t
is_open-set_at (x ∷ order) (suc i) (suc j) s s' h c = is_open-set_at order i j s s' h c

count_open_mono :
    (order later : List SessionState) (active : List (FlowKey × ℕ))
    → ((j : ℕ) → is_open (get_elem? later j) ≡ true → is_open (get_elem? order j) ≡ true)
    → count_open later active ≤ count_open order active
unfolding count_open
count_open_mono order later [] h = omega arith
count_open_mono order later ((key, i) ∷ active) h =
    ground (arith, h i, count_open_mono order later active h)

count_open-append :
    (order : List SessionState) (s : SessionState) (active : List (FlowKey × ℕ))
    → All (λ entry. get_elem? (keys order) entry.1 ≡ some entry.0) active
    → count_open (order ++ (s ∷ [])) active ≡ count_open order active
unfolding count_open
count_open-append order s [] h = refl
count_open-append order s ((key, i) ∷ active) h =
    rw
      (
        get_elem?-append_left order (s ∷ []) i
            (subst (λ n. i < n) (length-map key_of order) (get_elem?_bound (keys order) i key h.0)),
        count_open-append order s active h.1,
      )
      refl

-- One entry more is at most one open connection more.
count_open-set_key :
    (order : List SessionState) (key : FlowKey) (i : ℕ) (active : List (FlowKey × ℕ))
    → count_open order (set_key key i active) ≤ 1 + count_open order active
unfolding count_open set_key
count_open-set_key order key i [] = ground arith
count_open-set_key order key i ((k, j) ∷ active) =
    ground (arith, count_open-set_key order key i active)

count_open-del_key :
    (order : List SessionState) (key : FlowKey) (active : List (FlowKey × ℕ))
    → count_open order (del_key key active) ≤ count_open order active
unfolding count_open del_key
count_open-del_key order key [] = omega arith
count_open-del_key order key ((k, j) ∷ active) = ground (arith, count_open-del_key order key active)

refusal-none :
    (config : AnalysisConfig) (e : TcpSessionEngine)
    → refusal config e ≡ none
    → (open_session_count e < config.max_concurrent_sessions)
      × (length e.order < config.max_total_sessions)
unfolding refusal
refusal-none config e h = ground arith

module _ (sha256 blake2b : List ℕ → List ℕ) (sha256_hex : Text → Text) (capture_id : Text)
    (config : AnalysisConfig) where
  abbrev Sized : TcpSessionEngine → Type 0
  Sized e =
      (length e.order ≤ config.max_total_sessions)
      × (open_session_count e ≤ config.max_concurrent_sessions)

  deliver-Sized :
      (e : TcpSessionEngine) (i : ℕ) (packet : Packet)
      → Sized e
      → Sized (deliver sha256 blake2b config e i packet)
  unfolding deliver deliver_to open_session_count
  deliver-Sized e i packet h = elim (Option-cases (get_elem? e.order i)) [
    | inl n ↦ rw n h
    | inr (s, f) ↦
        let after = (Session.observe sha256 blake2b config s e.shared packet (ref_of packet)).0 in
        let kept = observe-Follows sha256 blake2b config s e.shared packet (ref_of packet) in
        let fewer =
          count_open_mono e.order (set_at i after e.order) e.active
            (λ j. is_open-set_at e.order i j s after f kept.stays_closed) in
        rw f (
          subst (λ n. n ≤ config.max_total_sessions) (sym (length-set_at i after e.order)) h.0,
          omega (arith, h, fewer),
        )
  ]

  opened-Sized :
      (e : TcpSessionEngine) (key : FlowKey) (packet : Packet)
      → IsFiled e
      → refusal config e ≡ none
      → Sized (opened sha256_hex capture_id config e key packet)
  unfolding opened open_session_count
  opened-Sized e key packet filed h =
      let room = refusal-none config e h in
      let s = created sha256_hex capture_id config e key packet in
      (
        omega (arith, room, length-append e.order (s ∷ [])),
        omega (
          arith,
          room,
          count_open-set_key (e.order ++ (s ∷ [])) key (length e.order) e.active,
          count_open-append e.order s e.active filed,
        ),
      )

  Ready-Sized :
      (e : TcpSessionEngine) (key : FlowKey) (packet : Packet) {e' : TcpSessionEngine}
      → Ready e key packet e'
      → Sized e
      → Sized e'
  unfolding reuse warn open_session_count
  Ready-Sized e key packet (fresh n) h = h
  Ready-Sized e key packet (reused i f t) h =
      (h.0, omega (arith, h, count_open-del_key e.order key e.active))

  -- A packet leaves the sessions within both limits, and every active entry at its key.
  pub observe-IsWithin :
      (e : TcpSessionEngine) (packet : Packet)
      → IsWithin config e
      → IsWithin config (observe sha256 blake2b sha256_hex capture_id config e packet)
  unfolding skip refuse warn open_session_count
  observe-IsWithin e packet h =
      let key = normalize packet.source packet.destination in
      let sized =
        observe_cases sha256 blake2b sha256_hex capture_id config Sized e packet key refl
          (λ t. (h.recorded, h.opened_at_once))
          (λ f e' code r n. Ready-Sized e key packet r (h.recorded, h.opened_at_once))
          (λ f e' r n. deliver-Sized _ _ packet (
            opened-Sized e' key packet
              (Ready-IsFiled sha256 blake2b sha256_hex capture_id config e key packet r h.filed) n))
          (λ f i t. deliver-Sized e i packet (h.recorded, h.opened_at_once)) in
      record {
        filed = observe-IsFiled sha256 blake2b sha256_hex capture_id config e packet h.filed;
        recorded = sized.0;
        opened_at_once = sized.1;
      }

  observe_all-IsWithin_from :
      (e : TcpSessionEngine) (packets : List Packet)
      → IsWithin config e
      → IsWithin config (observe_all sha256 blake2b sha256_hex capture_id config e packets)
  unfolding observe_all
  observe_all-IsWithin_from e [] h = h
  observe_all-IsWithin_from e (packet ∷ packets) h =
      observe_all-IsWithin_from (observe sha256 blake2b sha256_hex capture_id config e packet)
        packets (observe-IsWithin e packet h)

  new-IsWithin : IsWithin config (new config)
  unfolding new open_session_count count_open
  new-IsWithin = record { filed = tt; recorded = omega arith; opened_at_once = omega arith }

  -- Whatever packets a capture holds, at most max_concurrent_sessions connections are open at once,
  -- at most max_total_sessions are recorded, and each active entry leads to a connection of its key.
  pub observe_all-IsWithin :
      (packets : List Packet)
      → IsWithin config
          (observe_all sha256 blake2b sha256_hex capture_id config (new config) packets)
  observe_all-IsWithin packets = observe_all-IsWithin_from (new config) packets new-IsWithin
