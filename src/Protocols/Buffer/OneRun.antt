-- ===== src/Protocols/Buffer/OneRun.antt =====
-- A read returns bytes of one run, from the offset on, and no more than it holds.
use securemailscope.Base.{
  ℕ, ◌+◌, ◌-◌, ◌≤◌, ◌<◌, ◌≡◌, refl, ap, sym, ◌∙◌, zero, suc, drop-all, ◌⊎◌, inl, inr, ◌&&◌, List,
  [], ◌∷◌, Option, none, some, length, length-take, length-drop, take, drop, leb, ltb, min, arith,
  Bool-cases,
}
use securemailscope.Protocols.Buffer.{DirectionalBuffer, read, run_for, slice_run}

-- The run is one of the buffer's.
abbrev pub InRuns : ℕ → List ℕ → List (ℕ × List ℕ) → Type 0
InRuns start bytes [] = ⊥
InRuns start bytes (run ∷ runs) = ((start ≡ run.0) × (bytes ≡ run.1)) ⊎ InRuns start bytes runs

-- The bytes are those of one run at the offset, as many as asked for or as the run has left.
pub record FromRun (b : DirectionalBuffer) (o n : ℕ) (bytes : List ℕ) : Type 0 where
  pub start : ℕ
  pub run : List ℕ
  pub is_run : InRuns start run b.runs
  pub covers : (start ≤ o) × (o < start + length run)
  pub slice : bytes ≡ take n (drop (o - start) run)
  pub count : length bytes ≡ min n (start + length run - o)

abbrev HitsOf : List (ℕ × List ℕ) → ℕ → Option (ℕ × List ℕ) → Type 0
HitsOf runs o none = Unit
HitsOf runs o (some (start, run)) = InRuns start run runs × (start ≤ o) × (o < start + length run)

HitsOf-cons :
    (run : ℕ × List ℕ) (runs : List (ℕ × List ℕ)) (o : ℕ) (x : Option (ℕ × List ℕ))
    → HitsOf runs o x
    → HitsOf (run ∷ runs) o x
HitsOf-cons run runs o none h = tt
HitsOf-cons run runs o (some (start, bytes)) h = (inr h.0, h.1, h.2)

run_for-HitsOf : (runs : List (ℕ × List ℕ)) (o : ℕ) → HitsOf runs o (run_for runs o)
unfolding run_for
run_for-HitsOf [] o = tt
run_for-HitsOf ((start, bytes) ∷ runs) o =
    elim (Bool-cases (leb start o && ltb o (start + length bytes))) [
      | inl hit ↦ rw hit (inl (refl, refl), ground arith, ground arith)
      | inr miss ↦
          rw miss (HitsOf-cons (start, bytes) runs o (run_for runs o) (run_for-HitsOf runs o))
    ]

-- A read never crosses a hole: it is empty, or it is a slice of a single run at the offset.
pub read-FromRun :
    (b : DirectionalBuffer) (o n : ℕ) → (read b o n ≡ []) ⊎ FromRun b o n (read b o n)
unfolding read
read-FromRun b o n = sliced (run_for b.runs o) (run_for-HitsOf b.runs o)
  where
    sliced :
        (x : Option (ℕ × List ℕ))
        → HitsOf b.runs o x
        → (slice_run x o n ≡ []) ⊎ FromRun b o n (slice_run x o n)
    sliced none h = inl refl
    sliced (some (start, run)) h = inr (record {
      start = start;
      run = run;
      is_run = h.0;
      covers = (h.1, h.2);
      slice = refl;
      count = omega (arith, h, length-take n (drop (o - start) run), length-drop (o - start) run);
    })

-- The view of a stream with no hole and no disagreement, which starts at offset 0.
unfoldable pub whole : List ℕ → DirectionalBuffer
whole bytes = record { runs = (0, bytes) ∷ []; segments = []; conflicts = [] }

pub read-whole : (bytes : List ℕ) (o n : ℕ) → read (whole bytes) o n ≡ take n (drop o bytes)
unfolding read whole run_for slice_run
read-whole bytes o n = elim (Bool-cases (leb 0 o && ltb o (0 + length bytes))) [
  | inl hit ↦ rw hit (ap (λ k. take n (drop k bytes)) (omega arith))
  | inr miss ↦ rw miss (sym (ap (take n) (drop-all o bytes (ground arith)) ∙ take-nil n))
]
  where
    take-nil : (k : ℕ) → take k (let e : List ℕ = [] in e) ≡ []
    take-nil zero = refl
    take-nil (suc k) = refl
