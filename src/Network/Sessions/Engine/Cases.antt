-- ===== src/Network/Sessions/Engine/Cases.antt =====
-- The four ways that a packet can take through `observe`.
use securemailscope.Base.{
  ℕ, ◌≡◌, refl, true, false, List, Option, none, some, any, length, get_elem?, Option-cases, inl,
  inr, if_intro,
}
use securemailscope.Evidence.{WarningCode}
use securemailscope.Network.Flows.{Text, FlowKey, normalize, eq_key}
use securemailscope.Network.Sessions.{Packet, AnalysisConfig}
use securemailscope.Network.Sessions.Engine.{
  TcpSessionEngine, find_key, starts_new, skip, reuse, refusal, refuse, opened, deliver,
  open_unless, open_new, serve, observe,
}

-- The engine when a connection is about to be made for a key: as it was, if the key has no active
-- connection, or with the active one set aside, if the packet starts a new one.
pub data Ready (e : TcpSessionEngine) (key : FlowKey) (packet : Packet)
    : TcpSessionEngine → Type 0 where
  fresh : find_key key e.active ≡ none → Ready e key packet e
  reused :
      (i : ℕ)
      → find_key key e.active ≡ some i
      → starts_new (get_elem? e.order i) packet ≡ true
      → Ready e key packet (reuse e key i)

module _ (sha256 blake2b : List ℕ → List ℕ) (sha256_hex : Text → Text) (capture_id : Text)
    (config : AnalysisConfig) where
  module _ {ℓ} (P : TcpSessionEngine → Type ℓ) (e : TcpSessionEngine) (packet : Packet)
      (key : FlowKey)
      (refused : (e' : TcpSessionEngine) (code : WarningCode)
        → Ready e key packet e'
        → refusal config e' ≡ some code
        → P (refuse e' key code))
      (new : (e' : TcpSessionEngine)
        → Ready e key packet e'
        → refusal config e' ≡ none
        → P (
            deliver sha256 blake2b config
              (opened sha256_hex capture_id config e' key packet)
              (length e'.order)
              packet))
      (known : (i : ℕ)
        → find_key key e.active ≡ some i
        → P (deliver sha256 blake2b config e i packet)) where
    open_new_cases :
        (e' : TcpSessionEngine)
        → Ready e key packet e'
        → P (open_new sha256 blake2b sha256_hex capture_id config e' key packet)
    unfolding open_new open_unless
    open_new_cases e' r = elim (Option-cases (refusal config e')) [
      | inl h ↦ rw h (new e' r h)
      | inr (code, h) ↦ rw h (refused e' code r h)
    ]

    pub serve_cases :
        (o : Option ℕ)
        → find_key key e.active ≡ o
        → P (serve sha256 blake2b sha256_hex capture_id config e key packet o)
    unfolding serve
    serve_cases none h = open_new_cases e (fresh h)
    serve_cases (some i) h =
        if_intro P (starts_new (get_elem? e.order i) packet)
          (λ t. open_new_cases (reuse e key i) (reused i h t)) (λ f. known i h)

  pub observe_cases {ℓ} :
      (P : TcpSessionEngine → Type ℓ) (e : TcpSessionEngine) (packet : Packet) (key : FlowKey)
      → normalize packet.source packet.destination ≡ key
      → (any (eq_key key) e.refused_keys ≡ true → P (skip e))
      → (any (eq_key key) e.refused_keys ≡ false
          → (e' : TcpSessionEngine) (code : WarningCode) → Ready e key packet e'
          → refusal config e' ≡ some code
          → P (refuse e' key code))
      → (any (eq_key key) e.refused_keys ≡ false
          → (e' : TcpSessionEngine) → Ready e key packet e'
          → refusal config e' ≡ none
          → P (
              deliver sha256 blake2b config
                (opened sha256_hex capture_id config e' key packet)
                (length e'.order)
                packet))
      → (any (eq_key key) e.refused_keys ≡ false
          → (i : ℕ) → find_key key e.active ≡ some i
          → P (deliver sha256 blake2b config e i packet))
      → P (observe sha256 blake2b sha256_hex capture_id config e packet)
  unfolding observe
  observe_cases P e packet key k skipped refused new known = rw k (
      if_intro P (any (eq_key key) e.refused_keys) skipped (λ f.
        serve_cases P e packet key (refused f) (new f) (known f) (find_key key e.active) refl))
