-- ===== src/Network/Sessions/Engine/Numbered.antt =====
-- The connections of one key are numbered in order, so that the key and the number tell them apart.
use securemailscope.Base.{
  ℕ, zero, suc, ◌+◌, ◌≡◌, refl, ◌∙◌, ap, ap₂, ◌<◌, List, [], ◌∷◌, ◌++◌, Option, some, map,
  get_elem?, arith, inl, inr, Option-cases, if◌then◌else◌,
}
use securemailscope.Network.Flows.{Text, FlowKey, normalize, eq_key}
use securemailscope.Network.Flows.Identity.{eq_key_iff}
use securemailscope.Network.Sessions.{
  Packet, AnalysisConfig, SessionState, key_of, new_session, TcpFlow,
}
use securemailscope.Network.Sessions.Observe as Session
use securemailscope.Network.Sessions.Observe.Kept.{observe-Follows}
use securemailscope.Network.Sessions.Engine.{
  TcpSessionEngine, find_key, skip, reuse, refuse, warn, created, opened, or_zero, deliver,
  deliver_to, observe, observe_all, ref_of, new,
}
use securemailscope.Network.Sessions.Engine.Tables.{
  find_key-set_key, find_key-set_key_other, map-set_at, map-append_end,
}
use securemailscope.Network.Sessions.Engine.Cases.{Ready, fresh, reused, observe_cases}
use securemailscope.Network.Sessions.Engine.Filed.{created-key}

-- A connection's key and its number.
abbrev pub number_of : SessionState → FlowKey × ℕ
number_of s = (key_of s, s.flow_instance)

count_key : FlowKey → List (FlowKey × ℕ) → ℕ
count_key key [] = 0
count_key key ((k, n) ∷ names) = (if eq_key key k then 1 else 0) + count_key key names

-- Each number is one more than the connections of the key before it.
AreNumbered : FlowKey → ℕ → List (FlowKey × ℕ) → Type 0
AreNumbered key seen [] = Unit
AreNumbered key seen ((k, n) ∷ names) =
    ((k ≡ key → n ≡ suc seen)) × AreNumbered key ((if eq_key key k then 1 else 0) + seen) names

AreNumbered-append :
    (key : FlowKey) (seen : ℕ) (names : List (FlowKey × ℕ)) (k : FlowKey) (n : ℕ)
    → AreNumbered key seen names
    → (k ≡ key → n ≡ suc (count_key key names + seen))
    → AreNumbered key seen (names ++ ((k, n) ∷ []))
unfolding AreNumbered count_key
AreNumbered-append key seen [] k n h e = ((λ same. e same ∙ omega arith), tt)
AreNumbered-append key seen ((k', n') ∷ names) k n h e = (
  h.0,
  AreNumbered-append key ((if eq_key key k' then 1 else 0) + seen) names k n h.1
      (λ same. e same ∙ omega arith),
)

count_key-append :
    (key : FlowKey) (names : List (FlowKey × ℕ)) (k : FlowKey) (n : ℕ)
    → count_key key (names ++ ((k, n) ∷ [])) ≡ (if eq_key key k then 1 else 0) + count_key key names
unfolding count_key
count_key-append key [] k n = refl
count_key-append key ((k', n') ∷ names) k n = omega (arith, count_key-append key names k n)

-- A name is above what was seen, so it is found at one place at most.
AreNumbered-above :
    (key : FlowKey) (seen : ℕ) (names : List (FlowKey × ℕ)) (i n : ℕ)
    → AreNumbered key seen names
    → get_elem? names i ≡ some (key, n)
    → seen < n
unfolding AreNumbered
AreNumbered-above key seen [] i n h f = absurd (ground arith)
AreNumbered-above key seen ((k, m) ∷ names) zero n h f = ground (arith, h)
AreNumbered-above key seen ((k, m) ∷ names) (suc i) n h f =
    omega (arith, AreNumbered-above key ((if eq_key key k then 1 else 0) + seen) names i n h.1 f)

clash :
    (key : FlowKey) (seen : ℕ) (k : FlowKey) (m : ℕ) (names : List (FlowKey × ℕ)) (j n : ℕ)
    → AreNumbered key seen ((k, m) ∷ names)
    → ◌≡◌ {A = Option (FlowKey × ℕ)} (some (k, m)) (some (key, n))
    → get_elem? names j ≡ some (key, n)
    → ⊥
unfolding AreNumbered
clash key seen k m names j n h f g = ground (
  arith,
  h.0,
  eq_key_iff key k,
  AreNumbered-above key ((if eq_key key k then 1 else 0) + seen) names j n h.1 g,
)

AreNumbered-unique :
    (key : FlowKey) (seen : ℕ) (names : List (FlowKey × ℕ)) (i j n : ℕ)
    → AreNumbered key seen names
    → get_elem? names i ≡ some (key, n)
    → get_elem? names j ≡ some (key, n)
    → i ≡ j
unfolding AreNumbered
AreNumbered-unique key seen [] i j n h f g = absurd (ground arith)
AreNumbered-unique key seen ((k, m) ∷ names) zero zero n h f g = refl
AreNumbered-unique key seen ((k, m) ∷ names) zero (suc j) n h f g =
    absurd (clash key seen k m names j n h f g)
AreNumbered-unique key seen ((k, m) ∷ names) (suc i) zero n h f g =
    absurd (clash key seen k m names i n h g f)
AreNumbered-unique key seen ((k, m) ∷ names) (suc i) (suc j) n h f g =
    ap suc (AreNumbered-unique key ((if eq_key key k then 1 else 0) + seen) names i j n h.1 f g)

-- The numbers in `instances` are the connections of each key so far, and each connection has the
-- number that its place among those of its key gives it.
record IsNumbered (e : TcpSessionEngine) : Type 0 where
  pub counted :
      (key : FlowKey) → or_zero (find_key key e.instances) ≡ count_key key (map number_of e.order)
  pub numbered : (key : FlowKey) → AreNumbered key 0 (map number_of e.order)

module _ (sha256 blake2b : List ℕ → List ℕ) (sha256_hex : Text → Text) (capture_id : Text)
    (config : AnalysisConfig) where
  deliver-numbers :
      (e : TcpSessionEngine) (i : ℕ) (packet : Packet)
      → (map number_of (deliver sha256 blake2b config e i packet).order ≡ map number_of e.order)
        × ((deliver sha256 blake2b config e i packet).instances ≡ e.instances)
  unfolding deliver deliver_to key_of
  deliver-numbers e i packet = elim (Option-cases (get_elem? e.order i)) [
    | inl h ↦ rw h (refl, refl)
    | inr (s, h) ↦
        let after = (Session.observe sha256 blake2b config s e.shared packet (ref_of packet)).0 in
        let kept = observe-Follows sha256 blake2b config s e.shared packet (ref_of packet) in
        rw h (
          map-set_at number_of i after s e.order h (
              ap₂ (λ (flow : TcpFlow) (n : ℕ). (normalize flow.client flow.server, n)) kept.flow
                kept.flow_instance),
          refl,
        )
  ]

  deliver-IsNumbered :
      (e : TcpSessionEngine) (i : ℕ) (packet : Packet)
      → IsNumbered e
      → IsNumbered (deliver sha256 blake2b config e i packet)
  deliver-IsNumbered e i packet h =
      let (names, table) = deliver-numbers e i packet in
      record {
        counted = λ key. rw (names, table) (h.counted key);
        numbered = λ key. rw names (h.numbered key);
      }

  Ready-IsNumbered :
      (e : TcpSessionEngine) (key : FlowKey) (packet : Packet) {e' : TcpSessionEngine}
      → Ready e key packet e'
      → IsNumbered e
      → IsNumbered e'
  unfolding reuse warn
  Ready-IsNumbered e key packet (fresh n) h = h
  Ready-IsNumbered e key packet (reused i f t) h = record {
    counted = h.counted;
    numbered = h.numbered;
  }

  opened-IsNumbered :
      (e : TcpSessionEngine) (packet : Packet)
      → IsNumbered e
      → let key = normalize packet.source packet.destination in
        IsNumbered (opened sha256_hex capture_id config e key packet)
  unfolding opened created new_session find_key
  opened-IsNumbered e packet h =
      let key = normalize packet.source packet.destination in
      let n = or_zero (find_key key e.instances) + 1 in
      let name : map number_of (e.order ++ (created sha256_hex capture_id config e key packet ∷ []))
          ≡ map number_of e.order ++ ((key, n) ∷ []) =
        map-append_end number_of e.order (created sha256_hex capture_id config e key packet)
        ∙ ap (λ (k : FlowKey). map number_of e.order ++ ((k, n) ∷ []))
            (created-key sha256 blake2b sha256_hex capture_id config e packet) in
      record {
        counted = λ other.
            rw (name, count_key-append other (map number_of e.order) key n)
              (ground (
                arith,
                eq_key_iff other key,
                h.counted other,
                find_key-set_key key n e.instances,
                find_key-set_key_other key other n e.instances,
              ));
        numbered = λ other. rw name (
            AreNumbered-append other 0 (map number_of e.order) key n (h.numbered other) (λ same.
              omega (arith, h.counted key, ap (λ k. count_key k (map number_of e.order)) same)));
      }

  observe-IsNumbered :
      (e : TcpSessionEngine) (packet : Packet)
      → IsNumbered e
      → IsNumbered (observe sha256 blake2b sha256_hex capture_id config e packet)
  unfolding skip refuse warn
  observe-IsNumbered e packet h =
      let key = normalize packet.source packet.destination in
      observe_cases sha256 blake2b sha256_hex capture_id config IsNumbered e packet key refl
        (λ t. record { counted = h.counted; numbered = h.numbered })
        (λ f e' code r _.
          let ready = Ready-IsNumbered e key packet r h in
          record { counted = ready.counted; numbered = ready.numbered })
        (λ f e' r _.
          deliver-IsNumbered _ _ packet
            (opened-IsNumbered e' packet (Ready-IsNumbered e key packet r h)))
        (λ f i t. deliver-IsNumbered e i packet h)

  observe_all-IsNumbered :
      (e : TcpSessionEngine) (packets : List Packet)
      → IsNumbered e
      → IsNumbered (observe_all sha256 blake2b sha256_hex capture_id config e packets)
  unfolding observe_all
  observe_all-IsNumbered e [] h = h
  observe_all-IsNumbered e (packet ∷ packets) h =
      observe_all-IsNumbered (observe sha256 blake2b sha256_hex capture_id config e packet) packets
        (observe-IsNumbered e packet h)

  new-IsNumbered : IsNumbered (new config)
  unfolding new count_key AreNumbered or_zero find_key
  new-IsNumbered = record { counted = λ key. refl; numbered = λ key. tt }

  -- Two recorded connections with the same flow key and the same number are one connection.
  pub observe_all-unique_number :
      (packets : List Packet) (i j : ℕ) (key : FlowKey) (n : ℕ)
      → let e = observe_all sha256 blake2b sha256_hex capture_id config (new config) packets in
        get_elem? (map number_of e.order) i ≡ some (key, n)
        → get_elem? (map number_of e.order) j ≡ some (key, n)
        → i ≡ j
  observe_all-unique_number packets i j key n f g =
      AreNumbered-unique key 0 _ i j n
        ((observe_all-IsNumbered (new config) packets new-IsNumbered).numbered key) f g
