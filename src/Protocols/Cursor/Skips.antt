-- ===== src/Protocols/Cursor/Skips.antt =====
-- `skip_bytes` stays inside one run and says how it ended.
use securemailscope.Base.{
  ℕ, ◌+◌, ◌-◌, ◌≤◌, ◌≡◌, refl, Bool, true, false, ◌&&◌, ◌||◌, ◌==◌, List, [], ◌∷◌, ◌⊎◌, inl, inr,
  none, length, drop, min, if_intro, arith,
}
use securemailscope.Protocols.Buffer.{DirectionalBuffer}
use securemailscope.Protocols.Buffer.OneRun.{InRuns}
use securemailscope.Protocols.Cursor.Cursors.{StreamCursor, SkipOutcome, skip_in, skip_bytes}
use securemailscope.Protocols.Cursor.Reading.{InRuns-drop}

module _ (b : DirectionalBuffer) (max_line_bytes : ℕ) where
  -- A skip of a count of bytes: no more than asked for, all of them inside one run, COMPLETE
  -- exactly if all were skipped, and else stopped at a hole or at the end, never at both.
  pub record IsSkip (count : ℕ) (o : SkipOutcome) : Type 0 where
    pub bounded : o.skipped ≤ count
    pub end : o.end_offset ≡ o.start_offset + o.skipped
    pub complete : o.complete ≡ (o.skipped == count)
    pub stopped : (o.complete || (o.stopped_at_gap || o.stopped_at_end)) ≡ true
    pub one_reason : (o.stopped_at_gap && o.stopped_at_end) ≡ false
    pub one_run :
        (o.skipped ≡ 0)
        ⊎ ((start : ℕ) × (run : List ℕ) × InRuns start run b.runs
            × (o.end_offset ≤ start + length run))

  or_true : (x : Bool) → (x || true) ≡ true
  or_true x = ground arith

  room :
      (skipped offset count bound : ℕ)
      → skipped ≡ min count (bound - offset)
      → (skipped ≡ 0) ⊎ (offset + skipped ≤ bound)
  room skipped offset count bound e = ground (arith, e)

  skip_in-IsSkip :
      (c : StreamCursor) (count : ℕ) (runs : List (ℕ × List ℕ))
      → ((start : ℕ) (run : List ℕ) → InRuns start run runs → InRuns start run b.runs)
      → IsSkip count (skip_in b max_line_bytes c count runs).0
  unfolding skip_in
  skip_in-IsSkip c count [] sub = record {
    bounded = omega arith;
    end = omega arith;
    complete = ground arith;
    stopped = or_true (count == 0);
    one_reason = refl;
    one_run = inl refl;
  }
  skip_in-IsSkip c count ((start, run) ∷ runs) sub = record {
    bounded = omega arith;
    end = refl;
    complete = refl;
    stopped = ground arith;
    one_reason = ground arith;
    one_run =
        elim (room (min count (start + length run - c.offset)) c.offset count (start + length run)
          refl) [ inl z ↦ inl z | inr k ↦ inr (start, run, sub start run (inl (refl, refl)), k) ];
  }

  -- Whatever the cursor, `skip_bytes` skips no more than asked for, inside one run, and reports
  -- truly how it ended.
  pub skip_bytes-IsSkip :
      (c : StreamCursor) (count : ℕ) → IsSkip count (skip_bytes b max_line_bytes c count).0
  unfolding skip_bytes
  skip_bytes-IsSkip c count =
      if_intro
        (λ runs. IsSkip count (skip_in b max_line_bytes (record c { pending = none }) count runs).0)
        c.stopped
        (λ _. skip_in-IsSkip (record c { pending = none }) count [] (λ start run h. absurd h))
        (λ _.
          skip_in-IsSkip (record c { pending = none }) count (drop c.run_index b.runs)
            (λ start run h. InRuns-drop start run c.run_index b.runs h))
