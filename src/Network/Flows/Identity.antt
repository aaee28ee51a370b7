-- ===== src/Network/Flows/Identity.antt =====
-- A flow key forgets the direction and nothing else.
use securemailscope.Base.{◌≡◌, refl, ◌⊎◌, ◌↔◌, true, false, [], ◌∷◌, arith}
use securemailscope.Network.Flows.{
  Text, Endpoint, eq_text, lt_text, eq_endpoint, le_endpoint, FlowKey, normalize, eq_key,
}

pub eq_text_iff : (s t : Text) → (eq_text s t ≡ true) ↔ (s ≡ t)
unfolding eq_text
eq_text_iff (x ∷ s) (y ∷ t) = ground (arith, eq_text_iff s t)
eq_text_iff _ _ = ground arith

lt_text_total : (s t : Text) → (lt_text s t ≡ true) ⊎ (s ≡ t) ⊎ (lt_text t s ≡ true)
unfolding lt_text
lt_text_total (x ∷ s) (y ∷ t) = ground (arith, lt_text_total s t)
lt_text_total _ _ = ground arith

lt_text_asym : (s t : Text) → lt_text s t ≡ true → lt_text t s ≡ false
unfolding lt_text
lt_text_asym (x ∷ s) (y ∷ t) h = ground (arith, lt_text_asym s t)
lt_text_asym _ _ h = ground arith

lt_text_irrefl : (s : Text) → lt_text s s ≡ false
unfolding lt_text
lt_text_irrefl [] = refl
lt_text_irrefl (x ∷ s) = ground (arith, lt_text_irrefl s)

-- The key of a pair of endpoints does not depend on which of them sent.
pub normalize_comm : (a b : Endpoint) → normalize a b ≡ normalize b a
unfolding normalize le_endpoint
normalize_comm a b = ground (
  arith,
  lt_text_total a.ip b.ip,
  lt_text_asym a.ip b.ip,
  lt_text_asym b.ip a.ip,
  lt_text_irrefl a.ip,
  eq_text_iff a.ip b.ip,
  eq_text_iff b.ip a.ip,
)

-- Two pairs with one key are the same pair, up to direction.
pub normalize-injective :
    (a b c d : Endpoint) → normalize a b ≡ normalize c d → ((a ≡ c) × (b ≡ d)) ⊎ ((a ≡ d) × (b ≡ c))
unfolding normalize
normalize-injective a b c d h = ground arith

eq_endpoint_iff : (a b : Endpoint) → (eq_endpoint a b ≡ true) ↔ (a ≡ b)
unfolding eq_endpoint
eq_endpoint_iff a b = ground (arith, eq_text_iff a.ip b.ip)

pub eq_key_iff : (a b : FlowKey) → (eq_key a b ≡ true) ↔ (a ≡ b)
unfolding eq_key
eq_key_iff a b = ground (arith, eq_endpoint_iff a.left b.left, eq_endpoint_iff a.right b.right)
