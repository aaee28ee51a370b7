-- ===== src/Network/Reassembly/Directional/Overlay.antt =====
-- Storing ranges that are apart from the store adds their bytes and changes none.
use securemailscope.Base.{
  ℕ, ◌<◌, ◌≡◌, refl, ap₂, sym, ◌∙◌, List, [], ◌∷◌, Option, none, some, length, ◌⊎◌, any, not_ltb→le,
  ltb→lt, if_intro, arith, Bool-cases, inl, inr,
}
use securemailscope.Base.Int.{ℤ, pos, ◌≤ℤ◌, ltb_ℤ, +ℤ_parts}
use securemailscope.Evidence.{PacketReference}
use securemailscope.Network.Reassembly.Intervals.{Interval, end_of, insert_interval}
use securemailscope.Network.Reassembly.Intervals.Bytes.{
  byte_at, byte_at-nil, IsOrdered, byte_at_covered, byte_at_left, byte_at_right, byte_at_below,
}
use securemailscope.Network.Reassembly.Intervals.Insertion.{
  IsFree, insert_interval-IsOrdered, byte_at-insert_interval,
}
use securemailscope.Network.Reassembly.Limits.Grants.{place}
use securemailscope.Network.Reassembly.Directional.{eq_ℤ}
use securemailscope.Network.Reassembly.Directional.Insert.{note_duplicates, insert_all}

-- The first answer that there is.
abbrev pub first_of : Option ℕ → Option ℕ → Option ℕ
first_of none o = o
first_of (some b) o = some b

first_of-none : (o : Option ℕ) → first_of o none ≡ o
first_of-none none = refl
first_of-none (some b) = refl

pub note_duplicates-IsOrdered :
    (ref : PacketReference) (touched : List ℤ) (low : ℤ) (ivs : List Interval)
    → IsOrdered low ivs
    → IsOrdered low (note_duplicates ref touched ivs)
unfolding note_duplicates
note_duplicates-IsOrdered ref touched low [] o = tt
note_duplicates-IsOrdered ref touched low (iv ∷ ivs) o =
    let rest = note_duplicates-IsOrdered ref touched (end_of iv) ivs o.2 in
    if_intro (λ x. IsOrdered low (x ∷ note_duplicates ref touched ivs))
      (any (eq_ℤ iv.start) touched) (λ _. (o.0, o.1, rest)) (λ _. (o.0, o.1, rest))

pub byte_at-note_duplicates :
    (ref : PacketReference) (touched : List ℤ) (p : ℤ) (ivs : List Interval)
    → byte_at (note_duplicates ref touched ivs) p ≡ byte_at ivs p
unfolding note_duplicates byte_at
byte_at-note_duplicates ref touched p [] = refl
byte_at-note_duplicates ref touched p (iv ∷ ivs) =
    let rest = byte_at-note_duplicates ref touched p ivs in
    if_intro (λ x. byte_at (x ∷ note_duplicates ref touched ivs) p ≡ byte_at (iv ∷ ivs) p)
      (any (eq_ℤ iv.start) touched) (λ _. rw rest refl) (λ _. rw rest refl)

-- At no position do both stores hold a byte.
abbrev pub AreApart : List Interval → List Interval → Type 0
AreApart news ivs = (p : ℤ) → (byte_at ivs p ≡ none) ⊎ (byte_at news p ≡ none)

Apart-IsFree :
    (new : Interval) (news ivs : List Interval) → AreApart (new ∷ news) ivs → IsFree new ivs
Apart-IsFree new news ivs apart p lo hi = elim (apart p) [
  | inl e ↦ e
  | inr n ↦ absurd ((byte_at_covered new news p lo hi).1 n)
]

Apart-rest :
    (low : ℤ) (new : Interval) (news ivs : List Interval)
    → IsOrdered low ivs
    → IsOrdered (end_of new) news
    → 0 < length new.bytes
    → AreApart (new ∷ news) ivs
    → AreApart news (insert_interval new ivs)
Apart-rest low new news ivs o o' n apart p =
    let at = byte_at-insert_interval low new ivs p o n (Apart-IsFree new news ivs apart) in
    elim (Bool-cases (ltb_ℤ p (end_of new))) [
      | inl t ↦ inr (byte_at_below (end_of new) p news o' (ltb→lt _ _ t))
      | inr f ↦
          let past = not_ltb→le _ _ f in
          elim (apart p) [
            | inl e ↦ inl (at ∙ byte_at_right new ivs p past ∙ e)
            | inr e ↦ inr (sym (byte_at_right new news p past) ∙ e)
          ]
    ]

pub insert_all-IsOrdered :
    (low low' : ℤ) (news ivs : List Interval)
    → low ≤ℤ low'
    → IsOrdered low ivs
    → IsOrdered low' news
    → AreApart news ivs
    → IsOrdered low (insert_all news ivs)
unfolding insert_all
insert_all-IsOrdered low low' [] ivs h o o' apart = o
insert_all-IsOrdered low low' (new ∷ news) ivs h o o' apart =
    let size = +ℤ_parts new.start (pos (length new.bytes)) in
    insert_all-IsOrdered low (end_of new) news (insert_interval new ivs)
      (omega (arith, h, o'.0, size))
      (insert_interval-IsOrdered low new ivs o (omega (arith, h, o'.0)) o'.1
        (Apart-IsFree new news ivs apart))
      o'.2 (Apart-rest low new news ivs o o'.2 o'.1 apart)

pub byte_at-insert_all :
    (low low' : ℤ) (news ivs : List Interval) (p : ℤ)
    → low ≤ℤ low'
    → IsOrdered low ivs
    → IsOrdered low' news
    → AreApart news ivs
    → byte_at (insert_all news ivs) p ≡ first_of (byte_at ivs p) (byte_at news p)
unfolding insert_all
byte_at-insert_all low low' [] ivs p h o o' apart =
    rw (byte_at-nil p) (sym (first_of-none (byte_at ivs p)))
byte_at-insert_all low low' (new ∷ news) ivs p h o o' apart =
    let size = +ℤ_parts new.start (pos (length new.bytes)) in
    let free = Apart-IsFree new news ivs apart in
    let at = byte_at-insert_interval low new ivs p o o'.1 free in
    let rest =
      byte_at-insert_all low (end_of new) news (insert_interval new ivs) p
        (omega (arith, h, o'.0, size))
        (insert_interval-IsOrdered low new ivs o (omega (arith, h, o'.0)) o'.1 free) o'.2
        (Apart-rest low new news ivs o o'.2 o'.1 apart) in
    elim (place new.start (end_of new) p) [
      | inl k ↦ rw (rest, at, byte_at_left new ivs p k, byte_at_left new news p k) refl
      | inr (inl k) ↦ rw (rest, at, byte_at_right new ivs p k, byte_at_right new news p k) refl
      | inr (inr (lo, hi)) ↦
          let here = byte_at_covered new ivs p lo hi in
          let here' = byte_at_covered new news p lo hi in
          rest
          ∙ ap₂ first_of (at ∙ here.0) (byte_at_below (end_of new) p news o'.2 hi)
          ∙ first_of-none _
          ∙ sym (ap₂ first_of (free p lo hi) here'.0)
    ]
