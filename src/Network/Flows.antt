-- ===== src/Network/Flows.antt =====
-- network/flows.py: the identity of a 5-tuple. The digests of hashlib are a parameter.
pub mod Identity
use securemailscope.Base.{
  ℕ, Bool, true, false, ◌&&◌, ◌||◌, List, [], ◌∷◌, ltb, leb, ◌==◌, if◌then◌else◌,
}

-- A text as its code points, which is how Python orders it.
abbrev pub Text : Type 0
Text = List ℕ

-- models/tcp.py, Endpoint
pub record Endpoint : Type 0 where
  pub ip : Text
  pub port : ℕ

-- s == t
unfoldable pub eq_text : Text → Text → Bool
eq_text [] [] = true
eq_text (x ∷ s) (y ∷ t) = x == y && eq_text s t
eq_text _ _ = false

-- s < t
unfoldable pub lt_text : Text → Text → Bool
lt_text [] [] = false
lt_text [] (y ∷ t) = true
lt_text (x ∷ s) [] = false
lt_text (x ∷ s) (y ∷ t) = ltb x y || (x == y && lt_text s t)

unfoldable pub eq_endpoint : Endpoint → Endpoint → Bool
eq_endpoint a b = eq_text a.ip b.ip && a.port == b.port

-- (a.ip, a.port) <= (b.ip, b.port)
unfoldable pub le_endpoint : Endpoint → Endpoint → Bool
le_endpoint a b = lt_text a.ip b.ip || (eq_text a.ip b.ip && leb a.port b.port)

-- The transport is "TCP" in every call.
pub record FlowKey : Type 0 where
  pub left : Endpoint
  pub right : Endpoint

unfoldable pub normalize : Endpoint → Endpoint → FlowKey
normalize a b =
    if le_endpoint a b then record { left = a; right = b } else record { left = b; right = a }

unfoldable pub eq_key : FlowKey → FlowKey → Bool
unfolding eq_endpoint
eq_key a b = eq_endpoint a.left b.left && eq_endpoint a.right b.right
