-- ===== src/Protocols/Framing/Probe.antt =====
-- `probe_tls_records`: the walk along a chain of records.
use securemailscope.Base.{
  ℕ, zero, suc, ◌+◌, ◌≤◌, ◌≡◌, refl, Bool, true, false, List, [], ◌∷◌, Option, none, some, length,
  leb, max, min, if◌then◌else◌, if_intro, arith,
}
use securemailscope.Evidence.{observed, inferred}
use securemailscope.Protocols.Buffer.{DirectionalBuffer, read, refs}
use securemailscope.Protocols.Framing.{
  RecordHeader, RecordObservation, TlsFramingEvidence, handshake_record, record_chain,
  single_record_header, truncated_record, record_header_size, classify_record_header, grade,
  message_of,
}

-- evidence in _STRONG
is_strong : TlsFramingEvidence → Bool
is_strong single_record_header = false
is_strong handshake_record = false
is_strong truncated_record = false
is_strong _ = true

-- The observation of one record; its index and ambiguity are left at their defaults.
unfoldable pub observe_record :
    DirectionalBuffer → ℕ → ℕ → RecordHeader → List ℕ → RecordObservation
unfolding is_strong
observe_record b index offset h body =
    let whole = leb h.declared (length body) in
    let end = offset + record_header_size + min (length body) h.declared in
    let evidence = grade (message_of h.name body h.declared) index whole in
    record {
      stream_offset = offset;
      end_offset = end;
      header = h;
      bytes_available = length body;
      complete = whole;
      message = message_of h.name body h.declared;
      evidence = evidence;
      status = if is_strong evidence then observed else inferred;
      packets = refs b offset (max end (offset + 1));
      record_index = none;
      ambiguous = false;
    }

unfoldable pub probe_at : (ℕ → List RecordObservation) → RecordObservation → List RecordObservation
probe_at rest o = let later = rest o.end_offset in o ∷ (if o.complete then later else [])

-- if header is None: break
unfoldable pub probe_header :
    DirectionalBuffer
    → (ℕ → List RecordObservation)
    → ℕ
    → ℕ
    → Option RecordHeader
    → List RecordObservation
unfolding probe_at
probe_header b rest index offset none = []
probe_header b rest index offset (some h) =
    probe_at rest
      (observe_record b index offset h (read b (offset + record_header_size) h.declared))

-- The loop; the first number is what is left of `range(max_records)`, the second is `index`.
unfoldable pub probe_from : DirectionalBuffer → ℕ → ℕ → ℕ → List RecordObservation
unfolding probe_header
probe_from b zero index offset = []
probe_from b (suc left) index offset =
    probe_header b (probe_from b left (index + 1)) index offset
      (classify_record_header (read b offset record_header_size))

is_single : TlsFramingEvidence → Bool
is_single single_record_header = true
is_single _ = false

-- A lone header stays weak; two chained records upgrade the first.
unfoldable pub upgrade : List RecordObservation → List RecordObservation
unfolding is_single
upgrade [] = []
upgrade (o ∷ []) = o ∷ []
upgrade (o ∷ next ∷ os) =
    (if is_single o.evidence then record o { evidence = record_chain; status = observed } else o)
    ∷ next
    ∷ os

unfoldable pub probe_tls_records : DirectionalBuffer → ℕ → ℕ → List RecordObservation
probe_tls_records b start max_records = upgrade (probe_from b max_records 0 start)

module _ (b : DirectionalBuffer) where
  -- The observation is of the record whose header and body stand at the offset.
  pub record ObservedAt (offset : ℕ) (o : RecordObservation) : Type 0 where
    pub starts : o.stream_offset ≡ offset
    pub header : classify_record_header (read b offset record_header_size) ≡ some o.header
    pub available :
        o.bytes_available ≡ length (read b (offset + record_header_size) o.header.declared)
    pub whole : o.complete ≡ leb o.header.declared o.bytes_available
    pub ends : o.end_offset ≡ offset + record_header_size + min o.bytes_available o.header.declared

  -- Observations end to end from the offset on; only the last may be incomplete.
  abbrev pub Chain : ℕ → List RecordObservation → Type 0
  Chain offset [] = Unit
  Chain offset (o ∷ []) = ObservedAt offset o
  Chain offset (o ∷ next ∷ os) =
      ObservedAt offset o × (o.complete ≡ true) × Chain o.end_offset (next ∷ os)

  observe_record-ObservedAt :
      (index offset : ℕ) (h : RecordHeader)
      → classify_record_header (read b offset record_header_size) ≡ some h
      → ObservedAt offset
          (observe_record b index offset h (read b (offset + record_header_size) h.declared))
  unfolding observe_record
  observe_record-ObservedAt index offset h e = record {
    starts = refl;
    header = e;
    available = refl;
    whole = refl;
    ends = refl;
  }

  Chain-cons :
      (offset : ℕ) (o : RecordObservation) (os : List RecordObservation)
      → ObservedAt offset o
      → o.complete ≡ true
      → Chain o.end_offset os
      → Chain offset (o ∷ os)
  Chain-cons offset o [] at c k = at
  Chain-cons offset o (next ∷ os) at c k = (at, c, k)

  probe_at-Chain :
      (left offset : ℕ) (rest : ℕ → List RecordObservation) (o : RecordObservation)
      → ((k : ℕ) → Chain k (rest k) × (length (rest k) ≤ left))
      → ObservedAt offset o
      → Chain offset (probe_at rest o) × (length (probe_at rest o) ≤ suc left)
  unfolding probe_at
  probe_at-Chain left offset rest o ih at =
      if_intro (λ os. Chain offset (o ∷ os) × (length (o ∷ os) ≤ suc left)) o.complete
        (λ t. (
          Chain-cons offset o (rest o.end_offset) at t (ih o.end_offset).0,
          omega (arith, (ih o.end_offset).1),
        ))
        (λ _. (at, omega arith))

  probe_header-Chain :
      (left index offset : ℕ) (rest : ℕ → List RecordObservation)
      → ((k : ℕ) → Chain k (rest k) × (length (rest k) ≤ left))
      → (x : Option RecordHeader) → classify_record_header (read b offset record_header_size) ≡ x
      → Chain offset (probe_header b rest index offset x)
        × (length (probe_header b rest index offset x) ≤ suc left)
  unfolding probe_header
  probe_header-Chain left index offset rest ih none e = (tt, omega arith)
  probe_header-Chain left index offset rest ih (some h) e =
      probe_at-Chain left offset rest _ ih (observe_record-ObservedAt index offset h e)

  probe_from-Chain :
      (left index offset : ℕ)
      → Chain offset (probe_from b left index offset)
        × (length (probe_from b left index offset) ≤ left)
  unfolding probe_from
  probe_from-Chain zero index offset = (tt, omega arith)
  probe_from-Chain (suc left) index offset =
      probe_header-Chain left index offset (probe_from b left (index + 1))
        (λ o. probe_from-Chain left (index + 1) o)
        (classify_record_header (read b offset record_header_size)) refl

  upgrade-Chain :
      (offset : ℕ) (os : List RecordObservation)
      → Chain offset os
      → Chain offset (upgrade os) × (length (upgrade os) ≡ length os)
  unfolding upgrade
  upgrade-Chain offset [] c = (tt, refl)
  upgrade-Chain offset (o ∷ []) c = (c, refl)
  upgrade-Chain offset (o ∷ next ∷ os) c =
      if_intro
        (λ (x : RecordObservation).
          Chain offset (x ∷ next ∷ os) × (length (x ∷ next ∷ os) ≡ length (o ∷ next ∷ os)))
        _
        (λ _. (
          (
            record {
              starts = c.0.starts;
              header = c.0.header;
              available = c.0.available;
              whole = c.0.whole;
              ends = c.0.ends;
            },
            c.1,
            c.2,
          ),
          refl,
        ))
        (λ _. (c, refl))

  -- The probe reports at most as many records as it may, each the record whose header and body stand
  -- at its offset, end to end from the start, and only the last may be cut short.
  pub probe_tls_records-Chain :
      (start max_records : ℕ)
      → Chain start (probe_tls_records b start max_records)
        × (length (probe_tls_records b start max_records) ≤ max_records)
  unfolding probe_tls_records
  probe_tls_records-Chain start max_records =
      let (c, n) = probe_from-Chain max_records 0 start in
      let (c', n') = upgrade-Chain start (probe_from b max_records 0 start) c in
      (c', omega (arith, n, n'))
