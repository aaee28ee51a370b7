-- ===== src/Network/Reassembly/Intervals/Bytes.antt =====
-- What the store holds at each position, and the order that the store keeps.
use securemailscope.Base.{
  ℕ, zero, suc, ◌<◌, ◌≡◌, ◌≢◌, refl, ◌∙◌, Bool, true, false, ◌&&◌, List, [], ◌∷◌, Option, none,
  some, length, get_elem?, take, lt→ltb, le→leb, le→not_ltb, if◌then◌else◌, if_intro, arith,
}
use securemailscope.Base.Int.{ℤ, pos, ◌+ℤ◌, ◌≤ℤ◌, ◌<ℤ◌, gap, ltb_ℤ, leb_ℤ, +ℤ_parts}
use securemailscope.Network.Reassembly.Intervals.{Interval, end_of}

abbrev pub covers : ℤ → ℕ → ℤ → Bool
covers start n p = leb_ℤ start p && ltb_ℤ p (start +ℤ pos n)

-- The byte stored for a position.
unfoldable pub byte_at : List Interval → ℤ → Option ℕ
byte_at [] p = none
byte_at (iv ∷ ivs) p =
    if covers iv.start (length iv.bytes) p
    then get_elem? iv.bytes (gap p iv.start)
    else byte_at ivs p

-- Intervals that are not empty, apart from one another, and in order from a bound on.
abbrev pub IsOrdered : ℤ → List Interval → Type 0
IsOrdered low [] = Unit
IsOrdered low (iv ∷ ivs) = (low ≤ℤ iv.start) × (0 < length iv.bytes) × IsOrdered (end_of iv) ivs

pub IsOrdered-weaken :
    (low low' : ℤ) (ivs : List Interval) → low' ≤ℤ low → IsOrdered low ivs → IsOrdered low' ivs
IsOrdered-weaken low low' [] h o = tt
IsOrdered-weaken low low' (iv ∷ ivs) h o = (omega (arith, h, o.0), o.1, o.2)

pub get_elem?-some : (xs : List ℕ) (i : ℕ) → i < length xs → (b : ℕ) × (get_elem? xs i ≡ some b)
get_elem?-some [] i h = absurd (omega arith)
get_elem?-some (x ∷ xs) zero h = (x, refl)
get_elem?-some (x ∷ xs) (suc i) h = get_elem?-some xs i (omega arith)

pub byte_at-nil : (p : ℤ) → byte_at [] p ≡ none
unfolding byte_at
byte_at-nil p = refl

-- A covered position holds a byte.
pub byte_at_covered :
    (iv : Interval) (ivs : List Interval) (p : ℤ)
    → iv.start ≤ℤ p
    → p <ℤ end_of iv
    → (byte_at (iv ∷ ivs) p ≡ get_elem? iv.bytes (gap p iv.start)) × (byte_at (iv ∷ ivs) p ≢ none)
unfolding byte_at
byte_at_covered iv ivs p h k =
    let (b, e) =
      get_elem?-some iv.bytes (gap p iv.start)
        (omega (arith, h, k, +ℤ_parts iv.start (pos (length iv.bytes)))) in
    rw (le→leb _ _ h, lt→ltb _ _ k) (refl, λ n. cc (n, e))

pub byte_at_left :
    (iv : Interval) (ivs : List Interval) (p : ℤ)
    → p <ℤ iv.start
    → byte_at (iv ∷ ivs) p ≡ byte_at ivs p
unfolding byte_at
byte_at_left iv ivs p h = let e : leb_ℤ iv.start p ≡ false = ground arith in rw e

pub byte_at_right :
    (iv : Interval) (ivs : List Interval) (p : ℤ)
    → end_of iv ≤ℤ p
    → byte_at (iv ∷ ivs) p ≡ byte_at ivs p
unfolding byte_at
byte_at_right iv ivs p h = rw (le→not_ltb _ _ h) (
    if_intro (λ o. o ≡ byte_at ivs p) (leb_ℤ iv.start p && false)
      (λ e. absurd (cc (and_false (leb_ℤ iv.start p), e))) (λ _. refl))
  where
    and_false : (b : Bool) → (b && false) ≡ false
    and_false true = refl
    and_false false = refl

-- In front of an ordered store nothing is held.
pub byte_at_below :
    (low p : ℤ) (ivs : List Interval) → IsOrdered low ivs → p <ℤ low → byte_at ivs p ≡ none
byte_at_below low p [] o h = byte_at-nil p
byte_at_below low p (iv ∷ ivs) o h =
    byte_at_left iv ivs p (omega (arith, o.0, h))
    ∙ byte_at_below (end_of iv) p ivs o.2
        (omega (arith, o.0, h, +ℤ_parts iv.start (pos (length iv.bytes))))

pub byte_at-cons :
    (w : Interval) (p : ℤ) (us vs : List Interval)
    → byte_at us p ≡ byte_at vs p
    → byte_at (w ∷ us) p ≡ byte_at (w ∷ vs) p
unfolding byte_at
byte_at-cons w p us vs e = rw e refl

pub get_elem?-take : (n i : ℕ) (xs : List ℕ) → i < n → get_elem? (take n xs) i ≡ get_elem? xs i
get_elem?-take zero i xs h = absurd (omega arith)
get_elem?-take (suc n) i [] h = refl
get_elem?-take (suc n) zero (x ∷ xs) h = refl
get_elem?-take (suc n) (suc i) (x ∷ xs) h = get_elem?-take n i xs (omega arith)
