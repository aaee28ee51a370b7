-- ===== src/Network/Reassembly/Walk/Raised.antt =====
-- The loop raises only where the packet and a stored interval differ from a negative position on.
use securemailscope.Base.{
  refl, ◌≢◌, slice, subst, not_ltb→le, ℕ, ◌≡◌, true, List, [], ◌∷◌, length, ltb→lt, if_intro, arith,
  ◌⊎◌, inl, inr, Bool-cases,
}
use securemailscope.Base.Int.{ℤ, gap, pos, ◌+ℤ◌, ◌≤ℤ◌, ◌<ℤ◌, ltb_ℤ, max_ℤ, min_ℤ}
use securemailscope.Evidence.{PacketReference}
use securemailscope.Network.Reassembly.Intervals.{Interval, end_of}
use securemailscope.Network.Reassembly.Walk.{
  eq_bytes, Walked, covered_range, cursor_after, walk, walk_end, walk_round,
}

max_left : (a b : ℤ) → a ≤ℤ max_ℤ a b
max_left a b =
    if_intro (λ m. a ≤ℤ m) (ltb_ℤ a b) (λ t. omega (arith, ltb→lt _ _ t)) (λ _. omega arith)

max_right : (a b : ℤ) → b ≤ℤ max_ℤ a b
max_right a b =
    if_intro (λ m. b ≤ℤ m) (ltb_ℤ a b) (λ _. omega arith) (λ f. omega (arith, not_ltb→le _ _ f))

eq_bytes_same : (xs : List ℕ) → eq_bytes xs xs ≡ true
eq_bytes_same [] = refl
eq_bytes_same (x ∷ xs) = ground (arith, eq_bytes_same xs)

abbrev pub IsAmong : Interval → List Interval → Type 0
IsAmong iv [] = ⊥
IsAmong iv (x ∷ xs) = (iv ≡ x) ⊎ IsAmong iv xs

-- The payload and one of the intervals hold different bytes for a range that begins at a negative
-- position.
pub record Clash (start : ℤ) (bytes : List ℕ) (ivs : List Interval) : Type 0 where
  pub interval : Interval
  pub from : ℤ
  pub to : ℤ
  pub among : IsAmong interval ivs
  pub in_payload : start ≤ℤ from
  pub in_interval : interval.start ≤ℤ from
  pub negative : from <ℤ pos 0
  pub differ :
      slice bytes (gap from start) (gap to start)
      ≢ slice interval.bytes (gap from interval.start) (gap to interval.start)

Clash-later :
    (start : ℤ) (bytes : List ℕ) (iv : Interval) (ivs : List Interval)
    → Clash start bytes ivs
    → Clash start bytes (iv ∷ ivs)
Clash-later start bytes iv ivs c = record {
  interval = c.interval;
  from = c.from;
  to = c.to;
  among = inr c.among;
  in_payload = c.in_payload;
  in_interval = c.in_interval;
  negative = c.negative;
  differ = c.differ;
}

module _ (sha256 : List ℕ → List ℕ) (ref : PacketReference) (start : ℤ) (bytes : List ℕ) where
  after-cursor :
      (cursor : ℤ) (iv : Interval) → cursor ≤ℤ cursor_after sha256 ref start bytes cursor iv
  after-cursor cursor iv =
      let a = max_ℤ cursor iv.start in
      let b = min_ℤ (start +ℤ pos (length bytes)) (end_of iv) in
      let le = max_left cursor iv.start in
      if_intro (λ c. cursor ≤ℤ c) (ltb_ℤ a b) (λ t. omega (arith, ltb→lt _ _ t, le)) (λ _. le)

  covered-raised :
      (iv : Interval) (a b : ℤ) (rest : Walked)
      → (covered_range sha256 ref start bytes iv a b rest).raised ≡ true
      → ((a <ℤ pos 0)
          × (slice bytes (gap a start) (gap b start)
              ≢ slice iv.bytes (gap a iv.start) (gap b iv.start)))
        ⊎ (rest.raised ≡ true)
  unfolding covered_range
  covered-raised iv a b rest h =
      let incoming = slice bytes (gap a start) (gap b start) in
      let stored = slice iv.bytes (gap a iv.start) (gap b iv.start) in
      elim (Bool-cases (eq_bytes incoming stored)) [
        | inl e ↦ inr (ground (arith, e, h))
        | inr d ↦ elim (Bool-cases (ltb_ℤ a (pos 0))) [
          | inl t ↦ inl (
            ltb→lt _ _ t,
            λ same.
                absurd
                  (cc (d, subst (λ x. eq_bytes incoming x ≡ true) same (eq_bytes_same incoming))),
          )
          | inr f ↦ inr (ground (arith, d, f, h))
        ]
      ]

  pub walk-raised :
      (cursor : ℤ) (ivs : List Interval)
      → start ≤ℤ cursor
      → (walk sha256 ref start bytes cursor ivs).raised ≡ true
      → Clash start bytes ivs
  unfolding walk walk_end walk_round
  walk-raised cursor [] lo = λ h. absurd (cc h)
  walk-raised cursor (iv ∷ ivs) lo =
      let c = cursor_after sha256 ref start bytes cursor iv in
      let rest = walk sha256 ref start bytes c ivs in
      let le = after-cursor cursor iv in
      let a = max_ℤ cursor iv.start in
      let b = min_ℤ (start +ℤ pos (length bytes)) (end_of iv) in
      let later : rest.raised ≡ true → Clash start bytes (iv ∷ ivs) =
        λ h. Clash-later start bytes iv ivs (walk-raised c ivs (omega (arith, lo, le)) h) in
      if_intro (λ (t : Walked). t.raised ≡ true → Clash start bytes (iv ∷ ivs)) (ltb_ℤ a b)
        (λ _ h. elim (covered-raised iv a b rest h) [
          | inl (n, d) ↦ record {
            interval = iv;
            from = a;
            to = b;
            among = inl refl;
            in_payload = omega (arith, lo, max_left cursor iv.start);
            in_interval = max_right cursor iv.start;
            negative = n;
            differ = d;
          }
          | inr r ↦ later r
        ])
        (λ _. later)
