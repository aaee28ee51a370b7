-- ===== src/Network/Reassembly/Directional/Runs.antt =====
-- The payload runs hold the bytes of the store, and different runs are apart.
use securemailscope.Base.{
  ℕ, ◌<◌, ◌≡◌, refl, ap, sym, ◌∙◌, Bool, true, false, List, [], ◌∷◌, ◌++◌, some, length, leb,
  le→not_ltb, lt→ltb, not_ltb→le, ltb→lt, leb→le, le→leb, not_leb→lt, arith, Bool-cases, inl, inr,
  subst, length-append,
}
use securemailscope.Base.Int.{ℤ, pos, ◌+ℤ◌, ◌-ℤ◌, ◌≤ℤ◌, ◌<ℤ◌, gap, ltb_ℤ, leb_ℤ, +ℤ_parts, -ℤ_parts}
use securemailscope.Network.Reassembly.Intervals.{Interval, end_of}
use securemailscope.Network.Reassembly.Intervals.Bytes.{byte_at, IsOrdered, IsOrdered-weaken}
use securemailscope.Network.Reassembly.Directional.{DirectionalReassembler, eq_ℤ}
use securemailscope.Network.Reassembly.Directional.Results.{
  Run, runs_from, runs_of, rebase, base_ext, based_runs, payload_runs,
}
use securemailscope.Network.Reassembly.Directional.Joins.{
  run_byte, AreApart, eq_ℤ→parts, not_eq_ℤ→lt, held_by-join, held_by,
}

run_byte-runs_from :
    (start : ℤ) (bytes : List ℕ) (ivs : List Interval) (p : ℤ)
    → IsOrdered (start +ℤ pos (length bytes)) ivs
    → run_byte (runs_from (start, bytes) ivs) p ≡ held_by start bytes ivs p
unfolding runs_from run_byte byte_at
run_byte-runs_from start bytes [] p o = refl
run_byte-runs_from start bytes (iv ∷ ivs) p o =
    let joined = run_byte-runs_from start (bytes ++ iv.bytes) ivs p in
    let apart = run_byte-runs_from iv.start iv.bytes ivs p o.2 in
    by_test (eq_ℤ (start +ℤ pos (length bytes)) iv.start) refl joined apart
  where
    by_test :
        (b : Bool)
        → eq_ℤ (start +ℤ pos (length bytes)) iv.start ≡ b
        → (IsOrdered (start +ℤ pos (length (bytes ++ iv.bytes))) ivs
            → run_byte (runs_from (start, bytes ++ iv.bytes) ivs) p
              ≡ held_by start (bytes ++ iv.bytes) ivs p)
        → run_byte (runs_from (iv.start, iv.bytes) ivs) p ≡ byte_at (iv ∷ ivs) p
        → run_byte
            (elim b [
              | true ↦ runs_from (start, bytes ++ iv.bytes) ivs
              | false ↦ (start, bytes) ∷ runs_from (iv.start, iv.bytes) ivs
            ])
            p
          ≡ held_by start bytes (iv ∷ ivs) p
    by_test true e joined' apart' =
        let (h, k) = eq_ℤ→parts (start +ℤ pos (length bytes)) iv.start e in
        joined' (
          IsOrdered-weaken (end_of iv) (start +ℤ pos (length (bytes ++ iv.bytes))) ivs
            (omega (
              arith,
              length-append bytes iv.bytes,
              +ℤ_parts start (pos (length bytes)),
              +ℤ_parts iv.start (pos (length iv.bytes)),
              +ℤ_parts start (pos (length (bytes ++ iv.bytes))),
              h,
              k,
            ))
            o.2)
        ∙ held_by-join start bytes iv ivs p h k
    by_test false e joined' apart' = rw apart' refl

runs_from-AreApart :
    (low start : ℤ) (bytes : List ℕ) (ivs : List Interval)
    → low <ℤ start
    → 0 < length bytes
    → IsOrdered (start +ℤ pos (length bytes)) ivs
    → AreApart low (runs_from (start, bytes) ivs)
unfolding runs_from
runs_from-AreApart low start bytes [] h n o = (h, n, tt)
runs_from-AreApart low start bytes (iv ∷ ivs) h n o =
    let size = length-append bytes iv.bytes in
    let joined = runs_from-AreApart low start (bytes ++ iv.bytes) ivs h (omega (arith, size, n)) in
    let apart : (start +ℤ pos (length bytes)) <ℤ iv.start
        → AreApart (start +ℤ pos (length bytes)) (runs_from (iv.start, iv.bytes) ivs) =
      λ k. runs_from-AreApart (start +ℤ pos (length bytes)) iv.start iv.bytes ivs k o.1 o.2 in
    by_test (eq_ℤ (start +ℤ pos (length bytes)) iv.start) refl joined apart
  where
    by_test :
        (b : Bool)
        → eq_ℤ (start +ℤ pos (length bytes)) iv.start ≡ b
        → (IsOrdered (start +ℤ pos (length (bytes ++ iv.bytes))) ivs
            → AreApart low (runs_from (start, bytes ++ iv.bytes) ivs))
        → ((start +ℤ pos (length bytes)) <ℤ iv.start
            → AreApart (start +ℤ pos (length bytes)) (runs_from (iv.start, iv.bytes) ivs))
        → AreApart low (elim b [
          | true ↦ runs_from (start, bytes ++ iv.bytes) ivs
          | false ↦ (start, bytes) ∷ runs_from (iv.start, iv.bytes) ivs
        ])
    by_test true e joined' apart' =
        let (h', k) = eq_ℤ→parts (start +ℤ pos (length bytes)) iv.start e in
        joined' (
          IsOrdered-weaken (end_of iv) (start +ℤ pos (length (bytes ++ iv.bytes))) ivs
            (omega (
              arith,
              length-append bytes iv.bytes,
              +ℤ_parts start (pos (length bytes)),
              +ℤ_parts iv.start (pos (length iv.bytes)),
              +ℤ_parts start (pos (length (bytes ++ iv.bytes))),
              h',
              k,
            ))
            o.2)
    by_test false e joined' apart' =
        (h, n, apart' (not_eq_ℤ→lt (start +ℤ pos (length bytes)) iv.start e o.0))

run_byte-rebase :
    (base p : ℤ) (runs : List Run) → run_byte (rebase base runs) (p -ℤ base) ≡ run_byte runs p
unfolding rebase run_byte
run_byte-rebase base p [] = refl
run_byte-rebase base p ((start, bytes) ∷ runs) =
    let a = -ℤ_parts start base in
    let b = -ℤ_parts p base in
    let c = +ℤ_parts (start -ℤ base) (pos (length bytes)) in
    let d = +ℤ_parts start (pos (length bytes)) in
    let rest = run_byte-rebase base p runs in
    elim (Bool-cases (leb_ℤ start p)) [
      | inr f ↦
          let f' : leb_ℤ (start -ℤ base) (p -ℤ base) ≡ false =
            lt→not_leb _ _ (omega (arith, a, b, not_leb→lt _ _ f)) in
          rw (f, f', rest) refl
      | inl t ↦
          let t' : leb_ℤ (start -ℤ base) (p -ℤ base) ≡ true =
            le→leb _ _ (omega (arith, a, b, leb→le _ _ t)) in
          let same : gap (p -ℤ base) (start -ℤ base) ≡ gap p start = omega (arith, a, b) in
          elim (Bool-cases (ltb_ℤ p (start +ℤ pos (length bytes)))) [
            | inl u ↦
                let u' : ltb_ℤ (p -ℤ base) ((start -ℤ base) +ℤ pos (length bytes)) ≡ true =
                  lt→ltb _ _ (omega (arith, a, b, c, d, ltb→lt _ _ u)) in
                rw (t, t', u, u', same) refl
            | inr g ↦
                let g' : ltb_ℤ (p -ℤ base) ((start -ℤ base) +ℤ pos (length bytes)) ≡ false =
                  le→not_ltb _ _ (omega (arith, a, b, c, d, not_ltb→le _ _ g)) in
                rw (t, t', g, g', rest) refl
          ]
    ]
  where
    lt→not_leb : (m n : ℕ) → n < m → leb m n ≡ false
    lt→not_leb m n h = ground arith

payload_runs-rebase :
    (s : DirectionalReassembler) (base : ℤ)
    → base_ext s ≡ some base
    → payload_runs s ≡ rebase base (runs_of s.intervals)
unfolding payload_runs based_runs
payload_runs-rebase s base e = ap (λ b. based_runs b s.intervals) e

run_byte-runs_of :
    (low p : ℤ) (ivs : List Interval) → IsOrdered low ivs → run_byte (runs_of ivs) p ≡ byte_at ivs p
unfolding runs_of run_byte byte_at
run_byte-runs_of low p [] o = refl
run_byte-runs_of low p (iv ∷ ivs) o = run_byte-runs_from iv.start iv.bytes ivs p o.2

runs_of-AreApart :
    (low : ℤ) (ivs : List Interval) → IsOrdered low ivs → AreApart (low -ℤ pos 1) (runs_of ivs)
unfolding runs_of
runs_of-AreApart low [] o = tt
runs_of-AreApart low (iv ∷ ivs) o =
    runs_from-AreApart (low -ℤ pos 1) iv.start iv.bytes ivs
      (omega (arith, -ℤ_parts low (pos 1), o.0)) o.1 o.2

AreApart-weaken :
    (low low' : ℤ) (runs : List Run) → low' ≤ℤ low → AreApart low runs → AreApart low' runs
AreApart-weaken low low' [] h a = tt
AreApart-weaken low low' ((start, bytes) ∷ runs) h a = (omega (arith, h, a.0), a.1, a.2)

AreApart-rebase :
    (base low : ℤ) (runs : List Run) → AreApart low runs → AreApart (low -ℤ base) (rebase base runs)
unfolding rebase
AreApart-rebase base low [] h = tt
AreApart-rebase base low ((start, bytes) ∷ runs) h =
    let a = -ℤ_parts start base in
    let b = -ℤ_parts low base in
    let c = +ℤ_parts (start -ℤ base) (pos (length bytes)) in
    let d = +ℤ_parts start (pos (length bytes)) in
    let f = -ℤ_parts (start +ℤ pos (length bytes)) base in
    (
      omega (arith, a, b, h.0),
      h.1,
      AreApart-weaken ((start +ℤ pos (length bytes)) -ℤ base)
          ((start -ℤ base) +ℤ pos (length bytes)) (rebase base runs) (omega (arith, a, c, d, f))
          (AreApart-rebase base (start +ℤ pos (length bytes)) runs h.2),
    )

-- The payload runs hold, at the offset of a position from the base, the byte that the store holds
-- at the position, or none if it holds none there.
pub run_byte-payload_runs :
    (s : DirectionalReassembler) (base low p : ℤ)
    → IsOrdered low s.intervals
    → base_ext s ≡ some base
    → run_byte (payload_runs s) (p -ℤ base) ≡ byte_at s.intervals p
run_byte-payload_runs s base low p o e =
    ap (λ runs. run_byte runs (p -ℤ base)) (payload_runs-rebase s base e)
    ∙ run_byte-rebase base p (runs_of s.intervals)
    ∙ run_byte-runs_of low p s.intervals o

-- No payload run is empty, and between two that follow one another there is a hole.
pub payload_runs-AreApart :
    (s : DirectionalReassembler) (base low : ℤ)
    → IsOrdered low s.intervals
    → base_ext s ≡ some base
    → AreApart ((low -ℤ pos 1) -ℤ base) (payload_runs s)
payload_runs-AreApart s base low o e =
    subst (AreApart ((low -ℤ pos 1) -ℤ base)) (sym (payload_runs-rebase s base e)) (
      AreApart-rebase base (low -ℤ pos 1) (runs_of s.intervals)
        (runs_of-AreApart low s.intervals o))
