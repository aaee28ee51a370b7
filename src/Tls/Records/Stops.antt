-- ===== src/Tls/Records/Stops.antt =====
-- What the reported state says of the bytes at the place where framing stopped.
use securemailscope.Base.{
  ℕ, zero, suc, ◌+◌, ◌≤◌, ◌≡◌, refl, ap, sym, ◌∙◌, true, false, not, List, [], ◌∷◌, ◌++◌, Option,
  none, some, length, length-append, length-take, max, ltb, ◌==◌, if_intro, not_ltb→le, ltb→lt,
  not-true, arith, any, ◌<◌, ◌⊎◌, ◌||◌, inl, inr, subst, Bool-cases,
}
use securemailscope.Protocols.Buffer.{DirectionalBuffer, read, is_ambiguous}
use securemailscope.Evidence.{tls_record_truncated}
use securemailscope.Tls.Records.Tiling.{FramedAt, IsWhole, fragment_at-FramedAt}
use securemailscope.Protocols.Framing.{RecordHeader, record_header_size, classify_record_header}
use securemailscope.Tls.Records.{
  RecordParseState, complete, truncated_stream, alignment_lost_at_gap, malformed_record,
  ambiguous_bytes, limit_reached, not_tls, RecordFragment, Framed, has_later_run, lost_or,
  push_fragment, stop, no_header, after_record, at_record, at_header, frame, settled, settled_state,
  initial, parse_records,
}

length_zero : (bytes : List ℕ) → (length bytes == 0) ≡ true → bytes ≡ []
length_zero [] h = refl
length_zero (x ∷ xs) h = absurd (ground arith)

length_positive : (bytes : List ℕ) → (length bytes == 0) ≡ false → 0 < length bytes
length_positive [] h = absurd (ground arith)
length_positive (x ∷ xs) h = omega arith

-- A run of bytes starts behind the offset.
abbrev pub SomeLater : ℕ → List (ℕ × List ℕ) → Type 0
SomeLater o [] = ⊥
SomeLater o (run ∷ runs) = (o < run.0) ⊎ SomeLater o runs

-- No run does.
abbrev pub NoneLater : ℕ → List (ℕ × List ℕ) → Type 0
NoneLater o [] = Unit
NoneLater o (run ∷ runs) = (run.0 ≤ o) × NoneLater o runs

later_lem :
    (o : ℕ) (runs : List (ℕ × List ℕ)) → any (λ run. ltb o run.0) runs ≡ true → SomeLater o runs
later_lem o [] h = absurd (cc h)
later_lem o (run ∷ runs) h = elim (Bool-cases (ltb o run.0)) [
  | inl t ↦ inl (ltb→lt _ _ t)
  | inr f ↦ inr (later_lem o runs (subst (λ b. (b || any (λ run. ltb o run.0) runs) ≡ true) f h))
]

none_later_lem :
    (o : ℕ) (runs : List (ℕ × List ℕ)) → any (λ run. ltb o run.0) runs ≡ false → NoneLater o runs
none_later_lem o [] h = tt
none_later_lem o (run ∷ runs) h = elim (Bool-cases (ltb o run.0)) [
  | inl t ↦ absurd (cc (subst (λ b. (b || any (λ run. ltb o run.0) runs) ≡ false) t h))
  | inr f ↦ (
    not_ltb→le _ _ f,
    none_later_lem o runs (subst (λ b. (b || any (λ run. ltb o run.0) runs) ≡ false) f h),
  )
]

module _ (b : DirectionalBuffer) where
  -- A header that declares more bytes than are there.
  pub record CutBody (o : ℕ) : Type 0 where
    pub header : RecordHeader
    pub here : classify_record_header (read b o record_header_size) ≡ some header
    pub short : length (read b (o + record_header_size) header.declared) < header.declared

  -- Some bytes of a record are there, but not all.
  abbrev pub IsCut : ℕ → Type 0
  IsCut o =
      ((0 < length (read b o record_header_size))
        × (length (read b o record_header_size) < record_header_size))
      ⊎ CutBody o

  -- A header that declares more bytes than the limit allows.
  pub record TooLong (max_record o : ℕ) : Type 0 where
    pub header : RecordHeader
    pub here : classify_record_header (read b o record_header_size) ≡ some header
    pub long : max_record < header.declared

  -- The last framed record stands at the offset and has ambiguous bytes.
  pub record AmbiguousLast (fs : List RecordFragment) (o : ℕ) : Type 0 where
    pub before : List RecordFragment
    pub last : RecordFragment
    pub splits : fs ≡ before ++ last ∷ []
    pub framed : FramedAt b o last
    pub ambiguity : is_ambiguous b o (max last.observation.end_offset (o + 1)) ≡ true

  module _ (max_records max_record : ℕ) where
    -- COMPLETE and NOT_TLS: nothing is left to read, here or later. ALIGNMENT_LOST_AT_GAP: a record
    -- lacks bytes, and data goes on behind. TRUNCATED_RECORD: a record lacks bytes, and no data
    -- goes on. MALFORMED_RECORD: five bytes that are no record header. AMBIGUOUS_BYTES: the last
    -- record has ambiguous bytes. LIMIT_REACHED: as many records as are allowed, or too long a one.
    abbrev pub Reason : RecordParseState → List RecordFragment → ℕ → Type 0
    Reason complete fs o = (read b o record_header_size ≡ []) × NoneLater o b.runs
    Reason not_tls fs o = (read b o record_header_size ≡ []) × NoneLater o b.runs × (fs ≡ [])
    Reason alignment_lost_at_gap fs o =
        SomeLater o b.runs × ((read b o record_header_size ≡ []) ⊎ IsCut o)
    Reason truncated_stream fs o = NoneLater o b.runs × IsCut o
    Reason malformed_record fs o =
        (record_header_size ≤ length (read b o record_header_size))
        × (classify_record_header (read b o record_header_size) ≡ none)
    Reason ambiguous_bytes fs o = AmbiguousLast fs o
    Reason limit_reached fs o = (length fs ≡ max_records) ⊎ TooLong max_record o

    abbrev Explained : Framed → Type 0
    Explained s = Reason s.parse_state s.fragments s.offset

    no_header-Explained :
        (fs : List RecordFragment) (s : Framed)
        → s.fragments ≡ fs
        → read b s.offset record_header_size ≡ []
        → NoneLater s.offset b.runs
        → Explained (no_header fs s)
    unfolding no_header
    no_header-Explained [] s e h k = (h, k, e)
    no_header-Explained (f ∷ fs) s e h k = (h, k)

    -- A record that lacks bytes.
    cut-Explained :
        (s t : Framed)
        → s.offset ≡ t.offset
        → IsCut t.offset
        → Explained (lost_or b t.offset s (stop truncated_stream tls_record_truncated s))
    unfolding lost_or has_later_run
    cut-Explained s t e c =
        let c' = subst IsCut (sym e) c in
        if_intro Explained (has_later_run b t.offset)
          (λ later.
            (subst (λ o. SomeLater o b.runs) (sym e) (later_lem t.offset b.runs later), inr c'))
          (λ ends.
            (subst (λ o. NoneLater o b.runs) (sym e) (none_later_lem t.offset b.runs ends), c'))

    framed-CutBody :
        (o : ℕ) (f : RecordFragment) → FramedAt b o f → f.observation.complete ≡ false → CutBody o
    framed-CutBody o f a e =
        let d = f.observation.header.declared in
        let short = subst (λ c. IsWhole c (length f.body) d) e a.wholeness in
        record {
          header = f.observation.header;
          here = a.header;
          short =
              omega
                (arith, short, ap length a.body, length-take d (read b (o + record_header_size) d));
        }

    module _ (index_base left : ℕ) (loop : Framed → Framed)
        (ih : (s : Framed) → length s.fragments + left ≡ max_records → Explained (loop s))
        (s : Framed) (room : length s.fragments + suc left ≡ max_records) where
      after_record-Explained :
          (f : RecordFragment)
          → FramedAt b s.offset f
          → Explained (after_record b max_record index_base loop s f)
      unfolding after_record push_fragment
      after_record-Explained f a =
          if_intro Explained f.observation.ambiguous
            (λ t. record {
              before = s.fragments;
              last = f;
              splits = refl;
              framed = a;
              ambiguity = sym a.ambiguity ∙ t;
            })
            (λ _.
              if_intro Explained (not f.observation.complete)
                (λ cut.
                  cut-Explained (push_fragment b max_record index_base s f) s refl
                    (inr (framed-CutBody s.offset f a (not-true f.observation.complete cut))))
                (λ _. ih _ (omega (arith, room, length-append s.fragments (f ∷ [])))))

      at_header-Explained :
          (x : Option RecordHeader)
          → classify_record_header (read b s.offset record_header_size) ≡ x
          → Explained
              (at_header b max_record index_base loop s (read b s.offset record_header_size) x)
      unfolding at_header at_record lost_or has_later_run
      at_header-Explained (some h) e =
          if_intro Explained (ltb max_record h.declared)
            (λ t. inr (record { header = h; here = e; long = ltb→lt _ _ t }))
            (λ _. after_record-Explained _ (fragment_at-FramedAt b max_record index_base 0 s h e))
      at_header-Explained none e =
          let window = read b s.offset record_header_size in
          if_intro Explained (length window == 0)
            (λ empty.
              let nothing = length_zero window empty in
              if_intro Explained (has_later_run b s.offset)
                (λ later. (later_lem s.offset b.runs later, inl nothing))
                (λ ends.
                  no_header-Explained s.fragments s refl nothing
                    (none_later_lem s.offset b.runs ends)))
            (λ some_bytes.
              if_intro Explained (ltb (length window) record_header_size)
                (λ t.
                  cut-Explained s s refl (inl (length_positive window some_bytes, ltb→lt _ _ t)))
                (λ full. (not_ltb→le (length window) record_header_size full, e)))

    frame-Explained :
        (index_base left : ℕ) (s : Framed)
        → length s.fragments + left ≡ max_records
        → Explained (frame b max_record index_base left s)
    unfolding frame
    frame-Explained index_base zero s room = inl (omega (arith, room))
    frame-Explained index_base (suc left) s room =
        at_header-Explained index_base left (frame b max_record index_base left)
          (frame-Explained index_base left) s room
          (classify_record_header (read b s.offset record_header_size)) refl

    settled-Explained :
        (state : RecordParseState) (fs : List RecordFragment) (o : ℕ)
        → Reason state fs o
        → Reason (settled_state fs state) fs o
    unfolding settled_state
    settled-Explained not_tls (f ∷ fs) o r = absurd (cc (r.2))
    settled-Explained not_tls [] o r = r
    settled-Explained _ (f ∷ fs) o r = r
    settled-Explained _ [] o r = r

  -- The state that a direction's records are reported with is true of the bytes where framing
  -- stopped: COMPLETE and NOT_TLS with nothing left to read, lost alignment with data behind a hole,
  -- truncation only where a record lacks bytes, ambiguity only with an ambiguous last record, and a
  -- limit only when the number of records or the length of the next one reaches it.
  pub parse_records-Reason :
      (start max_records max_record index_base : ℕ)
      → (let r = parse_records b start max_records max_record index_base in
          Reason max_records max_record r.parse_state r.fragments r.offset)
  unfolding parse_records settled
  parse_records-Reason start max_records max_record index_base =
      let s = frame b max_record index_base max_records (initial start index_base) in
      settled-Explained max_records max_record s.parse_state s.fragments s.offset (
        frame-Explained max_records max_record index_base max_records (initial start index_base)
          (omega arith))
