-- ===== src/Network/Sessions/Engine/Counted.antt =====
-- Every packet is accounted for: it is counted by one connection, or refused.
use securemailscope.Base.{
  ℕ, zero, suc, ◌+◌, ◌≡◌, refl, ◌∙◌, ap, List, [], ◌∷◌, ◌++◌, some, length, get_elem?, arith,
}
use securemailscope.Network.Flows.{Text, FlowKey, normalize}
use securemailscope.Network.Sessions.{Packet, AnalysisConfig, SessionState, new_session}
use securemailscope.Network.Sessions.Observe as Session
use securemailscope.Network.Sessions.Observe.Kept.{observe-Follows}
use securemailscope.Network.Sessions.Engine.{
  TcpSessionEngine, set_at, skip, reuse, refuse, warn, created, opened, deliver, deliver_to,
  observe, observe_all, ref_of, new,
}
use securemailscope.Network.Sessions.Engine.Tables.{get_elem?-append_end, find_key-All}
use securemailscope.Network.Sessions.Engine.Cases.{Ready, fresh, reused, observe_cases}
use securemailscope.Network.Sessions.Engine.Filed.{keys, IsFiled, observe-IsFiled}

sum_counts : List SessionState → ℕ
sum_counts [] = 0
sum_counts (s ∷ order) = s.packet_count + sum_counts order

-- The packets that the connections hold, and those that were refused.
pub accounted : TcpSessionEngine → ℕ
accounted e = e.refused_packet_count + sum_counts e.order

sum_counts-set_at :
    (order : List SessionState) (i : ℕ) (s s' : SessionState)
    → get_elem? order i ≡ some s
    → s'.packet_count ≡ 1 + s.packet_count
    → sum_counts (set_at i s' order) ≡ 1 + sum_counts order
unfolding sum_counts set_at
sum_counts-set_at [] i s s' h c = absurd (ground arith)
sum_counts-set_at (x ∷ order) zero s s' h c = ground (arith, c)
sum_counts-set_at (x ∷ order) (suc i) s s' h c = omega (arith, sum_counts-set_at order i s s' h c)

sum_counts-append :
    (order : List SessionState) (s : SessionState)
    → s.packet_count ≡ 0
    → sum_counts (order ++ (s ∷ [])) ≡ sum_counts order
unfolding sum_counts
sum_counts-append [] s h = omega arith
sum_counts-append (x ∷ order) s h = omega (arith, sum_counts-append order s h)

pub found_of :
    (order : List SessionState) (i : ℕ) (key : FlowKey)
    → get_elem? (keys order) i ≡ some key
    → (s : SessionState) × (get_elem? order i ≡ some s)
found_of [] i key h = absurd (ground arith)
found_of (x ∷ order) zero key h = (x, refl)
found_of (x ∷ order) (suc i) key h = found_of order i key h

module _ (sha256 blake2b : List ℕ → List ℕ) (sha256_hex : Text → Text) (capture_id : Text)
    (config : AnalysisConfig) where
  deliver-accounted :
      (e : TcpSessionEngine) (i : ℕ) (packet : Packet) (s : SessionState)
      → get_elem? e.order i ≡ some s
      → accounted (deliver sha256 blake2b config e i packet) ≡ 1 + accounted e
  unfolding deliver deliver_to accounted
  deliver-accounted e i packet s f =
      let after = (Session.observe sha256 blake2b config s e.shared packet (ref_of packet)).0 in
      let kept = observe-Follows sha256 blake2b config s e.shared packet (ref_of packet) in
      rw f (omega (arith, sum_counts-set_at e.order i s after f kept.packet_count))

  opened-accounted :
      (e : TcpSessionEngine) (key : FlowKey) (packet : Packet)
      → accounted (opened sha256_hex capture_id config e key packet) ≡ accounted e
  unfolding opened accounted created new_session
  opened-accounted e key packet =
      omega
        (arith, sum_counts-append e.order (created sha256_hex capture_id config e key packet) refl)

  Ready-accounted :
      (e : TcpSessionEngine) (key : FlowKey) (packet : Packet) {e' : TcpSessionEngine}
      → Ready e key packet e'
      → accounted e' ≡ accounted e
  unfolding accounted reuse warn
  Ready-accounted e key packet (fresh n) = refl
  Ready-accounted e key packet (reused i f t) = refl

  pub observe-accounted :
      (e : TcpSessionEngine) (packet : Packet)
      → IsFiled e
      → accounted (observe sha256 blake2b sha256_hex capture_id config e packet) ≡ 1 + accounted e
  unfolding skip refuse warn opened accounted
  observe-accounted e packet h =
      let key = normalize packet.source packet.destination in
      observe_cases sha256 blake2b sha256_hex capture_id config
        (λ later. accounted later ≡ 1 + accounted e) e packet key refl (λ t. omega arith)
        (λ f e' code r n. omega (arith, Ready-accounted e key packet r))
        (λ f e' r n.
          deliver-accounted (opened sha256_hex capture_id config e' key packet) (length e'.order)
            packet _ (get_elem?-append_end e'.order _)
          ∙ ap (λ n. 1 + n) (opened-accounted e' key packet ∙ Ready-accounted e key packet r))
        (λ f i t.
          let (s, found) = found_of e.order i key (find_key-All _ key i e.active h t) in
          deliver-accounted e i packet s found)

  observe_all-accounted_from :
      (e : TcpSessionEngine) (packets : List Packet)
      → IsFiled e
      → accounted (observe_all sha256 blake2b sha256_hex capture_id config e packets)
        ≡ length packets + accounted e
  unfolding observe_all
  observe_all-accounted_from e [] h = omega arith
  observe_all-accounted_from e (packet ∷ packets) h = omega (
    arith,
    observe_all-accounted_from (observe sha256 blake2b sha256_hex capture_id config e packet)
        packets (observe-IsFiled sha256 blake2b sha256_hex capture_id config e packet h),
    observe-accounted e packet h,
  )

  -- The packets that the connections count and the refused packets are together the packets that
  -- were observed.
  pub observe_all-accounted :
      (packets : List Packet)
      → accounted (observe_all sha256 blake2b sha256_hex capture_id config (new config) packets)
        ≡ length packets
  unfolding new accounted sum_counts
  observe_all-accounted packets = observe_all-accounted_from (new config) packets tt ∙ omega arith
