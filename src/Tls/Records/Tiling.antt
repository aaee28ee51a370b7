-- ===== src/Tls/Records/Tiling.antt =====
-- The framed records tile the stream from the entry point on.
use securemailscope.Base.{
  ℕ, zero, suc, ◌+◌, ◌≤◌, ◌≡◌, refl, ap, sym, subst, subst₂, if_intro, not-true, not-false, ◌⊎◌,
  inl, inr, true, false, not, List, [], ◌∷◌, ◌++◌, Option, none, some, length, length-append,
  length-take, take, max, ltb, leb, leb→le, not_leb→lt, ◌<◌, Bool, arith, Bool-cases,
}
use securemailscope.Protocols.Buffer.{DirectionalBuffer, read, is_ambiguous}
use securemailscope.Protocols.Framing.{RecordHeader, record_header_size, classify_record_header}
use securemailscope.Tls.Records.{
  RecordFragment, Framed, has_later_run, lost_or, no_header, fragment_at, push_fragment,
  after_record, at_record, at_header, frame, settled, initial, parse_records,
}

-- A record is whole exactly if as many bytes as it declares are there.
abbrev pub IsWhole : Bool → ℕ → ℕ → Type 0
IsWhole true there declared = there ≡ declared
IsWhole false there declared = there < declared

IsWhole-take :
    (declared : ℕ) (bytes : List ℕ)
    → IsWhole (leb declared (length bytes)) (length (take declared bytes)) declared
IsWhole-take declared bytes =
    let n = length-take declared bytes in
    elim (Bool-cases (leb declared (length bytes))) [
      | inl t ↦ rw t (omega (arith, n, leb→le _ _ t))
      | inr f ↦ rw f (omega (arith, n, not_leb→lt _ _ f))
    ]

module _ (b : DirectionalBuffer) where
  -- The fragment is the record whose header stands at the offset.
  pub record FramedAt (o : ℕ) (f : RecordFragment) : Type 0 where
    pub offset : f.observation.stream_offset ≡ o
    pub header : classify_record_header (read b o record_header_size) ≡ some f.observation.header
    pub body_at : f.body_offset ≡ o + record_header_size
    pub body :
        f.body
        ≡ take f.observation.header.declared
            (read b (o + record_header_size) f.observation.header.declared)
    pub wholeness : IsWhole f.observation.complete (length f.body) f.observation.header.declared
    pub ends : f.observation.end_offset ≡ o + record_header_size + length f.body
    pub ambiguity :
        f.observation.ambiguous ≡ is_ambiguous b o (max f.observation.end_offset (o + 1))

  -- Whole, unambiguous records, end to end from one offset to another.
  abbrev pub Clean : ℕ → List RecordFragment → ℕ → Type 0
  Clean o [] e = o ≡ e
  Clean o (f ∷ fs) e =
      FramedAt o f
      × (f.observation.complete ≡ true)
      × (f.observation.ambiguous ≡ false)
      × Clean f.observation.end_offset fs e

  -- A last record that is cut short or ambiguous, behind clean ones.
  pub record Spoilt (o : ℕ) (fs : List RecordFragment) (e : ℕ) : Type 0 where
    pub before : List RecordFragment
    pub last : RecordFragment
    pub splits : fs ≡ before ++ last ∷ []
    pub clean : Clean o before e
    pub framed : FramedAt e last
    pub spoilt : (last.observation.ambiguous ≡ true) ⊎ (last.observation.complete ≡ false)

  abbrev pub Tiled : ℕ → List RecordFragment → ℕ → Type 0
  Tiled o fs e = Clean o fs e ⊎ Spoilt o fs e

  Clean-concat :
      (o : ℕ) (fs : List RecordFragment) (e : ℕ) (f : RecordFragment)
      → Clean o fs e
      → FramedAt e f
      → f.observation.complete ≡ true
      → f.observation.ambiguous ≡ false
      → Clean o (fs ++ f ∷ []) f.observation.end_offset
  Clean-concat o [] e f c a w u = (subst (λ k. FramedAt k f) (sym c) a, w, u, refl)
  Clean-concat o (g ∷ fs) e f c a w u =
      (c.0, c.1, c.2, Clean-concat g.observation.end_offset fs e f c.3 a w u)

  module _ (max_record index_base start : ℕ) where
    pub fragment_at-FramedAt :
        (s : Framed) (h : RecordHeader)
        → classify_record_header (read b s.offset record_header_size) ≡ some h
        → FramedAt s.offset (
            fragment_at b max_record index_base s h
              (read b (s.offset + record_header_size) h.declared))
    unfolding fragment_at
    fragment_at-FramedAt s h e =
        let body = read b (s.offset + record_header_size) h.declared in
        record {
          offset = refl;
          header = e;
          body_at = refl;
          body = refl;
          wholeness = IsWhole-take h.declared body;
          ends = omega (arith, length-take h.declared body);
          ambiguity = refl;
        }

    lost_or-fragments :
        (s t : Framed)
        → t.fragments ≡ s.fragments
        → t.offset ≡ s.offset
        → ((lost_or b s.offset s t).fragments ≡ s.fragments)
          × ((lost_or b s.offset s t).offset ≡ s.offset)
    unfolding lost_or
    lost_or-fragments s t e o = elim (Bool-cases (has_later_run b s.offset)) [
      | inl later ↦ rw later (refl, refl)
      | inr ends ↦ rw ends (e, o)
    ]

    no_header-fragments :
        (fs : List RecordFragment) (s : Framed)
        → ((no_header fs s).fragments ≡ s.fragments) × ((no_header fs s).offset ≡ s.offset)
    unfolding no_header
    no_header-fragments [] s = (refl, refl)
    no_header-fragments (f ∷ fs) s = (refl, refl)

    -- What is known of the state whenever the loop tests its condition, and when it stops.
    pub record Going (left cap : ℕ) (s : Framed) : Type 0 where
      pub clean : Clean start s.fragments s.offset
      pub count : length s.fragments + left ≡ cap

    pub record Stopped (cap : ℕ) (s : Framed) : Type 0 where
      pub tiled : Tiled start s.fragments s.offset
      pub count : length s.fragments ≤ cap

    abbrev Loop : ℕ → ℕ → (Framed → Framed) → Type 0
    Loop left cap loop = (s : Framed) → Going left cap s → Stopped cap (loop s)

    module _ (left cap : ℕ) (loop : Framed → Framed) (ih : Loop left cap loop) where
      after_record-Stopped :
          (s : Framed) (f : RecordFragment)
          → Going (suc left) cap s
          → FramedAt s.offset f
          → Stopped cap (after_record b max_record index_base loop s f)
      unfolding after_record push_fragment lost_or
      after_record-Stopped s f g a =
          let few = length-append s.fragments (f ∷ []) in
          let spoil : (f.observation.ambiguous ≡ true) ⊎ (f.observation.complete ≡ false)
              → Spoilt start (s.fragments ++ f ∷ []) s.offset =
            λ bad. record {
              before = s.fragments;
              last = f;
              splits = refl;
              clean = g.clean;
              framed = a;
              spoilt = bad;
            } in
          let stopped : (t : Framed)
              → t.fragments ≡ s.fragments ++ f ∷ []
              → t.offset ≡ s.offset
              → (f.observation.ambiguous ≡ true) ⊎ (f.observation.complete ≡ false)
              → Stopped cap t =
            λ t e o bad. record {
              tiled = inr (subst₂ (Spoilt start) (sym e) (sym o) (spoil bad));
              count = omega (arith, few, g.count, ap length e);
            } in
          if_intro (Stopped cap) f.observation.ambiguous (λ bad. stopped _ refl refl (inl bad))
            λ fine.
              if_intro (Stopped cap) (not f.observation.complete)
                (λ cut.
                  let bad = inr (not-true f.observation.complete cut) in
                  if_intro (Stopped cap) (has_later_run b s.offset) (λ _. stopped _ refl refl bad)
                    (λ _. stopped _ refl refl bad))
                (λ whole. ih _ (record {
                  clean =
                      Clean-concat start s.fragments s.offset f g.clean a
                        (not-false f.observation.complete whole) fine;
                  count = omega (arith, few, g.count);
                }))

      same :
          (s t : Framed)
          → Going (suc left) cap s
          → t.fragments ≡ s.fragments
          → t.offset ≡ s.offset
          → Stopped cap t
      same s t g e o = record {
        tiled = inl (rw (e, o) g.clean);
        count = omega (arith, g.count, ap length e);
      }

      -- With no header framed, nothing is added.
      stopped_early :
          (s : Framed) (window : List ℕ)
          → Going (suc left) cap s
          → Stopped cap (at_header b max_record index_base loop s window none)
      unfolding at_header
      stopped_early s window g =
          same s _ g (ground (arith, lost_or-fragments s, no_header-fragments s.fragments s))
            (ground (arith, lost_or-fragments s, no_header-fragments s.fragments s))

      at_header-Stopped :
          (s : Framed) (x : Option RecordHeader)
          → classify_record_header (read b s.offset record_header_size) ≡ x
          → Going (suc left) cap s
          → Stopped cap
              (at_header b max_record index_base loop s (read b s.offset record_header_size) x)
      unfolding at_header at_record
      at_header-Stopped s (some h) e g = elim (Bool-cases (ltb max_record h.declared)) [
        | inl big ↦ rw big (record { tiled = inl g.clean; count = omega (arith, g.count) })
        | inr fits ↦ rw fits (after_record-Stopped s _ g (fragment_at-FramedAt s h e))
      ]
      at_header-Stopped s none e g = stopped_early s (read b s.offset record_header_size) g

    frame-Stopped : (left cap : ℕ) → Loop left cap (frame b max_record index_base left)
    unfolding frame
    frame-Stopped zero cap s g = record { tiled = inl g.clean; count = omega (arith, g.count) }
    frame-Stopped (suc left) cap s g =
        at_header-Stopped left cap (frame b max_record index_base left) (frame-Stopped left cap) s
          (classify_record_header (read b s.offset record_header_size)) refl g

  -- The framed records are at most as many as the limit allows. They lie end to end from the entry
  -- point; each is the record whose header and body stand in one run at its offset, and is marked
  -- whole exactly if all the bytes that it declares are there; and all but the last are whole and
  -- free of ambiguous bytes.
  pub parse_records-Tiled :
      (start max_records max_record index_base : ℕ)
      → (let r = parse_records b start max_records max_record index_base in
          Tiled start r.fragments r.offset × (length r.fragments ≤ max_records))
  unfolding parse_records settled
  parse_records-Tiled start max_records max_record index_base =
      let s =
        frame-Stopped max_record index_base start max_records max_records (initial start index_base)
          (record { clean = refl; count = omega arith }) in
      (s.tiled, s.count)
