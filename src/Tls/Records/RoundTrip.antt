-- ===== src/Tls/Records/RoundTrip.antt =====
-- A stream of encoded records is framed back into its records.
use mathlib.Core.List.{append-nil, append_assoc, map-append}
use securemailscope.Base.{
  ℕ, zero, suc, ◌+◌, ◌≤◌, ◌<◌, ◌≡◌, refl, ap, sym, ◌∙◌, subst, subst₂, true, false, ◌||◌, List, [],
  ◌∷◌, ◌++◌, map, some, length, take, drop, take-append_left, drop-append_left, drop-drop, take-all,
  lookup, ltb, le→leb, le→not_ltb, arith, All,
}
use securemailscope.Evidence.{WarningCode}
use securemailscope.Protocols.Buffer.{read, is_ambiguous}
use securemailscope.Protocols.Buffer.OneRun.{whole, read-whole}
use securemailscope.Protocols.Framing.{
  TlsContentType, RecordHeader, record_header_size, max_record_bytes, content_types,
  classify_record_header,
}
use securemailscope.Protocols.Framing.Headers.{classify_record_header_iff}
use securemailscope.Tls.Wire.Reads.{encode16}
use securemailscope.Tls.Records.{
  RecordParseState, complete, not_tls, RecordFragment, Framed, lost_or, no_header, fragment_at,
  push_fragment, after_record, at_record, at_header, frame, settled, settled_state, initial,
  parse_records,
}

-- A record as it is sent, in plaintext or encrypted.
pub record Record : Type 0 where
  pub content_type : ℕ
  pub name : TlsContentType
  pub minor : ℕ
  pub body : List ℕ

pub record IsRecord (max_record : ℕ) (r : Record) : Type 0 where
  pub known : lookup r.content_type content_types ≡ some r.name
  pub minor_range : r.minor ≤ 4
  pub not_empty : 0 < length r.body
  pub fits : (length r.body ≤ max_record_bytes) × (length r.body ≤ max_record)

abbrev pub encode_record : Record → List ℕ
encode_record r = (r.content_type ∷ 3 ∷ r.minor ∷ encode16 (length r.body)) ++ r.body

abbrev pub encode_records : List Record → List ℕ
encode_records [] = []
encode_records (r ∷ rs) = encode_record r ++ encode_records rs

header_of : Record → RecordHeader
header_of r = record {
  content_type = r.content_type;
  name = r.name;
  minor = r.minor;
  declared = length r.body;
}

abbrev pub bodies : List RecordFragment → List (List ℕ)
bodies = map (λ f. f.body)

-- The state that framing ends with where nothing is left.
end_state : List RecordFragment → RecordParseState
end_state [] = not_tls
end_state (f ∷ fs) = complete

record Ended (bs : List (List ℕ)) (ws : List WarningCode) (t : Framed) : Type 0 where
  framed : bodies t.fragments ≡ bs
  state : t.parse_state ≡ end_state t.fragments
  quiet : t.warnings ≡ ws

module _ (bytes : List ℕ) (max_record index_base : ℕ) where
  -- Framing the record at the offset: it is pushed, and framing goes on behind it.
  module _ (r : Record) (rest : List ℕ) (s : Framed)
      (here : drop s.offset bytes ≡ encode_record r ++ rest) (valid : IsRecord max_record r) where
    header_lem :
        classify_record_header (read (whole bytes) s.offset record_header_size) ≡ some (header_of r)
    unfolding header_of
    header_lem = rw (read-whole bytes s.offset record_header_size) (
        rw here (
          (classify_record_header_iff (take record_header_size (encode_record r ++ rest))
              (header_of r)).1
            (record {
              full = omega arith;
              type = refl;
              known = valid.known;
              major = refl;
              minor = refl;
              minor_range = valid.minor_range;
              declared = omega arith;
              declared_range = (valid.not_empty, valid.fits.0);
            })))

    body_lem : read (whole bytes) (s.offset + record_header_size) (length r.body) ≡ r.body
    body_lem =
        read-whole bytes (s.offset + record_header_size) (length r.body)
        ∙ ap (take (length r.body))
            (sym (drop-drop record_header_size s.offset bytes) ∙ ap (drop record_header_size) here)
        ∙ take-append_left r.body rest

    fragment : RecordFragment
    fragment = fragment_at (whole bytes) max_record index_base s (header_of r) r.body

    next : Framed
    next = record (push_fragment (whole bytes) max_record index_base s fragment) {
      offset = fragment.observation.end_offset;
      stopped_at = fragment.observation.end_offset;
    }

    fragment_lem :
        (fragment.observation.ambiguous ≡ false)
        × (fragment.observation.complete ≡ true)
        × (fragment.body ≡ r.body)
        × (fragment.observation.end_offset ≡ s.offset + length (encode_record r))
    unfolding fragment fragment_at header_of is_ambiguous whole
    fragment_lem =
        (refl, le→leb _ _ (omega arith), take-all (length r.body) r.body (omega arith), omega arith)

    after_record_lem :
        (loop : Framed → Framed)
        → after_record (whole bytes) max_record index_base loop s fragment ≡ loop next
    unfolding after_record next
    after_record_lem loop = simp (fragment_lem.0, fragment_lem.1)

    frame_lem :
        (left : ℕ)
        → frame (whole bytes) max_record index_base (suc left) s
          ≡ frame (whole bytes) max_record index_base left next
    unfolding frame at_header at_record header_of next is_ambiguous fragment
    frame_lem left =
        let loop = frame (whole bytes) max_record index_base left in
        ap
          (at_header (whole bytes) max_record index_base loop s
            (read (whole bytes) s.offset record_header_size))
          header_lem
        ∙ rw (le→not_ltb max_record (length r.body) valid.fits.1)
            (rw body_lem (after_record_lem loop))

    next-offset : next.offset ≡ s.offset + length (encode_record r)
    unfolding next
    next-offset = fragment_lem.3

    next-rest : drop next.offset bytes ≡ rest
    next-rest =
        ap (λ o. drop o bytes) next-offset
        ∙ sym (drop-drop (length (encode_record r)) s.offset bytes)
        ∙ ap (drop (length (encode_record r))) here
        ∙ drop-append_left (encode_record r) rest

    next-bodies : bodies next.fragments ≡ bodies s.fragments ++ r.body ∷ []
    unfolding next push_fragment
    next-bodies = rw map-append (ap (λ b. bodies s.fragments ++ b ∷ []) fragment_lem.2)

    next-warnings : next.warnings ≡ s.warnings
    unfolding next push_fragment
    next-warnings = refl

  no_header-Ended :
      (fs : List RecordFragment) (s : Framed)
      → s.fragments ≡ fs
      → Ended (bodies s.fragments) s.warnings (no_header fs s)
  unfolding no_header end_state
  no_header-Ended [] s e = record { framed = refl; state = rw e; quiet = refl }
  no_header-Ended (f ∷ fs) s e = record { framed = refl; state = rw e; quiet = refl }

  frame-Ended :
      (rs : List Record) (left : ℕ) (s : Framed)
      → drop s.offset bytes ≡ encode_records rs
      → All (IsRecord max_record) rs
      → length rs < left
      → Ended
          (bodies s.fragments ++ map (λ r. r.body) rs)
          s.warnings
          (frame (whole bytes) max_record index_base left s)
  frame-Ended rs zero s here valid h = absurd (omega arith)
  frame-Ended [] (suc left) s here valid h =
      let empty : read (whole bytes) s.offset record_header_size ≡ [] =
        read-whole bytes s.offset record_header_size ∙ ap (take record_header_size) here in
      let none_later : (ltb s.offset 0 || false) ≡ false = ground arith in
      unfold frame at_header lost_or whole classify_record_header in
      rw empty (rw none_later (rw append-nil (no_header-Ended s.fragments s refl)))
  frame-Ended (r ∷ rs) (suc left) s here valid h =
      let rest = encode_records rs in
      let t = next r rest s here valid.0 in
      let later = frame-Ended rs left t (next-rest r rest s here valid.0) valid.1 (omega arith) in
      subst₂ (λ bs ws. Ended bs ws (frame (whole bytes) max_record index_base (suc left) s))
        (ap (λ bs. bs ++ map (λ q. q.body) rs) (next-bodies r rest s here valid.0)
          ∙ append_assoc (bodies s.fragments) (r.body ∷ []) (map (λ q. q.body) rs))
        (next-warnings r rest s here valid.0)
        (subst (Ended _ _) (sym (frame_lem r rest s here valid.0 left)) later)

settled-Ended :
    (fs : List RecordFragment) (b : List ℕ) (bs : List (List ℕ)) (state : RecordParseState)
    → bodies fs ≡ b ∷ bs
    → state ≡ end_state fs
    → settled_state fs state ≡ complete
unfolding settled_state end_state
settled-Ended [] b bs state e h = absurd (cc e)
settled-Ended (f ∷ fs) b bs state e h = rw h

-- A stream of one or more well-formed records, within the limit on their number, is framed into
-- just these records: their bodies come back in order, framing ends as COMPLETE, and nothing is
-- reported to the sink.
pub parse_records-encode_records :
    (r : Record) (rs : List Record) (max_records max_record index_base : ℕ)
    → All (IsRecord max_record) (r ∷ rs)
    → length (r ∷ rs) < max_records
    → (let t =
          parse_records (whole (encode_records (r ∷ rs))) 0 max_records max_record index_base in
        (bodies t.fragments ≡ map (λ q. q.body) (r ∷ rs))
        × (t.parse_state ≡ complete)
        × (t.warnings ≡ []))
unfolding parse_records settled
parse_records-encode_records r rs max_records max_record index_base valid h =
    let bytes = encode_records (r ∷ rs) in
    let e =
      frame-Ended bytes max_record index_base (r ∷ rs) max_records (initial 0 index_base) refl valid
        h in
    (e.framed, settled-Ended _ r.body (map (λ q. q.body) rs) _ e.framed e.state, e.quiet)
