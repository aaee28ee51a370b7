-- ===== src/Network/ByteBudget/Grants.antt =====
-- What a run of requests is granted.
use securemailscope.Base.{ℕ, ◌+◌, ◌-◌, ◌≤◌, ◌≡◌, ◌||◌, List, [], ◌∷◌, min, ltb, arith}
use securemailscope.Network.ByteBudget.{ByteBudget, take, take_all}

abbrev pub sum : List ℕ → ℕ
sum [] = 0
sum (x ∷ xs) = x + sum xs

pub take_lem :
    (b : ByteBudget) (n : ℕ)
    → b.used ≤ b.limit
    → ((take b n).0 ≡ min n (b.limit - b.used))
      × ((take b n).1.used ≡ b.used + min n (b.limit - b.used))
      × ((take b n).1.limit ≡ b.limit)
      × ((take b n).1.exceeded ≡ (b.exceeded || ltb (b.limit - b.used) n))
unfolding take
take_lem b n h = ground arith

-- A run of requests is granted its sum up to what remains, whatever its order and sizes, and
-- the flag rises exactly if the sum was more than that.
pub take_all_lem :
    (b : ByteBudget) (ns : List ℕ)
    → b.used ≤ b.limit
    → ((take_all b ns).0 ≡ min (sum ns) (b.limit - b.used))
      × ((take_all b ns).1.used ≡ b.used + min (sum ns) (b.limit - b.used))
      × ((take_all b ns).1.limit ≡ b.limit)
      × ((take_all b ns).1.exceeded ≡ (b.exceeded || ltb (b.limit - b.used) (sum ns)))
unfolding take_all
take_all_lem b [] h = ground arith
take_all_lem b (n ∷ ns) h =
    let one = take_lem b n h in
    let b' = (take b n).1 in
    let rest = take_all_lem b' ns (omega (arith, one.1, one.2)) in
    (
      omega (arith, one, rest),
      omega (arith, one, rest),
      omega (arith, one, rest),
      ground (arith, one, rest),
    )
