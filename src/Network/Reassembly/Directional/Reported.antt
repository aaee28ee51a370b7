-- ===== src/Network/Reassembly/Directional/Reported.antt =====
-- The runs of `finalize` are the runs of `payload_runs`, and the bytes they count are the stored ones.
use securemailscope.Base.{
  ℕ, ◌≡◌, refl, sym, ◌∙◌, ap, ap₂, Bool, true, false, List, [], ◌∷◌, ◌++◌, Option, none, some, map,
  length, length-append, arith, if◌then◌else◌, Bool-cases, inl, inr,
}
use mathlib.Core.List.{append-nil, append_assoc}
use securemailscope.Base.Int.{ℤ, pos, ◌+ℤ◌, ◌-ℤ◌, +ℤ_parts, eq_of_parts}
use securemailscope.Network.Reassembly.Intervals.{Interval, end_of}
use securemailscope.Network.Reassembly.Directional.{DirectionalReassembler, eq_ℤ}
use securemailscope.Network.Reassembly.Directional.Results.{
  base_ext, runs_from, runs_of, rebase, payload_runs, based_runs,
}
use securemailscope.Network.Reassembly.Directional.Joins.{eq_ℤ→parts}
use securemailscope.Network.Reassembly.Directional.Finalize.{
  ByteRun, byte_run, Group, groups_from, groups_of, group_bytes, joined_bytes, sum_bytes, finalize,
  finalize_with, full_stream, empty_stream,
}

joined_bytes-append :
    (members : List Interval) (iv : Interval)
    → joined_bytes (members ++ (iv ∷ [])) ≡ joined_bytes members ++ iv.bytes
unfolding joined_bytes
joined_bytes-append [] iv = append-nil iv.bytes
joined_bytes-append (m ∷ members) iv =
    ap (λ bytes. m.bytes ++ bytes) (joined_bytes-append members iv)
    ∙ sym (append_assoc m.bytes (joined_bytes members) iv.bytes)

length-joined_bytes : (ivs : List Interval) → length (joined_bytes ivs) ≡ sum_bytes ivs
unfolding joined_bytes sum_bytes
length-joined_bytes [] = refl
length-joined_bytes (iv ∷ ivs) =
    omega (arith, length-append iv.bytes (joined_bytes ivs), length-joined_bytes ivs)

group_bytes-append :
    (head : Interval) (members : List Interval) (iv : Interval)
    → group_bytes (head, members ++ (iv ∷ [])) ≡ group_bytes (head, members) ++ iv.bytes
unfolding group_bytes
group_bytes-append head members iv =
    ap (λ bytes. head.bytes ++ bytes) (joined_bytes-append members iv)
    ∙ sym (append_assoc head.bytes (joined_bytes members) iv.bytes)

group_bytes-single : (iv : Interval) → group_bytes (iv, []) ≡ iv.bytes
unfolding group_bytes joined_bytes
group_bytes-single iv = append-nil iv.bytes

end-joined :
    (start : ℤ) (bytes more : List ℕ) (iv : Interval)
    → more ≡ bytes ++ iv.bytes
    → eq_ℤ (start +ℤ pos (length bytes)) iv.start ≡ true
    → start +ℤ pos (length more) ≡ end_of iv
end-joined start bytes more iv e h = eq_of_parts _ _ (
    omega (
      arith,
      eq_ℤ→parts _ _ h,
      ap length e,
      length-append bytes iv.bytes,
      +ℤ_parts start (pos (length bytes)),
      +ℤ_parts start (pos (length more)),
      +ℤ_parts iv.start (pos (length iv.bytes)),
    ))

runs_from-cons :
    (start : ℤ) (bytes : List ℕ) (iv : Interval) (ivs : List Interval) (b : Bool)
    → eq_ℤ (start +ℤ pos (length bytes)) iv.start ≡ b
    → runs_from (start, bytes) (iv ∷ ivs) ≡ (
        if b
        then runs_from (start, bytes ++ iv.bytes) ivs
        else (start, bytes) ∷ runs_from (iv.start, iv.bytes) ivs)
unfolding runs_from
runs_from-cons start bytes iv ivs true h = rw (h, runs_from) refl
runs_from-cons start bytes iv ivs false h = rw (h, runs_from) refl

groups_from-cons :
    (head : Interval) (members : List Interval) (last iv : Interval) (ivs : List Interval)
    (b : Bool)
    → eq_ℤ (end_of last) iv.start ≡ b
    → groups_from head members last (iv ∷ ivs) ≡ (
        if b
        then groups_from head (members ++ (iv ∷ [])) iv ivs
        else (head, members) ∷ groups_from iv [] iv ivs)
unfolding groups_from
groups_from-cons head members last iv ivs true h = rw h refl
groups_from-cons head members last iv ivs false h = rw h refl

module _ (sha256 : List ℕ → List ℕ) where
  -- A run as `payload_runs` hands it over: its offset, length and digest.
  abbrev pub described : ℤ × List ℕ → ℤ × ℕ × List ℕ
  described (offset, bytes) = (offset, length bytes, sha256 bytes)

  -- A run as the result reports it.
  abbrev pub reported : ByteRun → ℤ × ℕ × List ℕ
  reported run = (run.stream_offset, run.length, run.sha256)

  reported-byte_run :
      (base : ℤ) (g : Group)
      → reported (byte_run sha256 base g) ≡ described (g.0.start -ℤ base, group_bytes g)
  unfolding byte_run group_bytes
  reported-byte_run base (head, members) =
      ap (λ n. (head.start -ℤ base, n, sha256 (head.bytes ++ joined_bytes members)))
        (omega
          (arith, length-append head.bytes (joined_bytes members), length-joined_bytes members))

  groups-runs :
      (base : ℤ) (head : Interval) (members : List Interval) (last : Interval) (ivs : List Interval)
      → head.start +ℤ pos (length (group_bytes (head, members))) ≡ end_of last
      → map reported (map (byte_run sha256 base) (groups_from head members last ivs))
        ≡ map described (rebase base (runs_from (head.start, group_bytes (head, members)) ivs))
  unfolding groups_from runs_from rebase
  groups-runs base head members last [] h =
      ap (λ x. x ∷ []) (reported-byte_run base (head, members))
  groups-runs base head members last (iv ∷ ivs) h =
      let bytes = group_bytes (head, members) in
      let finish = ap (λ end. eq_ℤ end iv.start) h in
      elim (Bool-cases (eq_ℤ (end_of last) iv.start)) [
        | inl t ↦
            let e = group_bytes-append head members iv in
            ap (λ gs. map reported (map (byte_run sha256 base) gs))
              (groups_from-cons head members last iv ivs true t)
            ∙ (groups-runs base head (members ++ (iv ∷ [])) iv ivs
                  (end-joined head.start bytes _ iv e (finish ∙ t))
                ∙ (ap (λ bytes'. map described (rebase base (runs_from (head.start, bytes') ivs))) e
                    ∙ ap (λ rs. map described (rebase base rs))
                        (sym (runs_from-cons head.start bytes iv ivs true (finish ∙ t)))))
        | inr f ↦
            ap (λ gs. map reported (map (byte_run sha256 base) gs))
              (groups_from-cons head members last iv ivs false f)
            ∙ (ap₂ ◌∷◌ (reported-byte_run base (head, members)) (
                  groups-runs base iv [] iv ivs
                    (ap (λ bytes'. iv.start +ℤ pos (length bytes')) (group_bytes-single iv))
                  ∙ ap (λ bytes'. map described (rebase base (runs_from (iv.start, bytes') ivs)))
                      (group_bytes-single iv))
                ∙ ap (λ rs. map described (rebase base rs))
                    (sym (runs_from-cons head.start bytes iv ivs false (finish ∙ f))))
      ]

  finalize_with-runs :
      (max_gaps : ℕ) (s : DirectionalReassembler) (base : Option ℤ) (ivs : List Interval)
      → map reported (finalize_with sha256 max_gaps s base ivs).0.runs
        ≡ map described (based_runs base ivs)
  unfolding finalize_with full_stream empty_stream based_runs groups_of runs_of rebase
  finalize_with-runs max_gaps s none ivs = refl
  finalize_with-runs max_gaps s (some base) [] = refl
  finalize_with-runs max_gaps s (some base) (iv ∷ ivs) =
      groups-runs base iv [] iv ivs
        (ap (λ bytes. iv.start +ℤ pos (length bytes)) (group_bytes-single iv))
      ∙ ap (λ bytes. map described (rebase base (runs_from (iv.start, bytes) ivs)))
          (group_bytes-single iv)

  -- The runs that the result of a direction reports are the runs that its payload is handed over in:
  -- the same offsets, lengths and digests, in order.
  pub finalize-payload_runs :
      (max_gaps : ℕ) (s : DirectionalReassembler)
      → map reported (finalize sha256 max_gaps s).0.runs ≡ map described (payload_runs s)
  unfolding finalize payload_runs
  finalize-payload_runs max_gaps s = finalize_with-runs max_gaps s (base_ext s) s.intervals
