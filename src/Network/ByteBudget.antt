-- ===== src/Network/ByteBudget.antt =====
-- network/budget.py: the allowance that bounds reconstructed payload.
pub mod Grants
use securemailscope.Base.{
  ℕ, ◌+◌, ◌-◌, Bool, true, false, List, [], ◌∷◌, min, ltb, leb, if◌then◌else◌,
}

pub record ByteBudget : Type 0 where
  pub limit : ℕ
  pub used : ℕ
  pub exceeded : Bool

-- ByteBudget(limit); a negative limit is refused by the constructor and is no number here.
abbrev pub new : ℕ → ByteBudget
new limit = record { limit = limit; used = 0; exceeded = false }

-- max(0, limit - used)
unfoldable pub remaining : ByteBudget → ℕ
remaining b = b.limit - b.used

unfoldable pub take : ByteBudget → ℕ → ℕ × ByteBudget
unfolding remaining
take b amount =
    let granted = min amount (remaining b) in
    if leb amount 0 then (0, b) else (
      granted,
      record b {
        used = b.used + granted;
        exceeded = if ltb granted amount then true else b.exceeded;
      },
    )

-- A run of requests: what was granted in all, and the budget after it.
unfoldable pub take_all : ByteBudget → List ℕ → ℕ × ByteBudget
take_all b [] = (0, b)
take_all b (amount ∷ rest) =
    let (granted, b') = take b amount in
    let (later, b'') = take_all b' rest in (granted + later, b'')
