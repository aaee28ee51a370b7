-- ===== src/Tls/Records.antt =====
-- tls/records.py: the loop that frames records, and why it stops.
pub mod Tiling
pub mod Stops
pub mod RoundTrip
use securemailscope.Base.{
  ℕ, zero, suc, ◌+◌, ◌-◌, ◌<◌, Bool, true, false, not, ◌&&◌, ◌||◌, List, [], ◌∷◌, ◌++◌, Option,
  none, some, length, take, any, min, max, ltb, leb, ◌==◌, if◌then◌else◌,
}
use securemailscope.Evidence.{
  observed, inferred, WarningCode, tls_record_truncated, tls_record_malformed,
  tls_record_alignment_lost, tls_record_ambiguous, limit_tls_records, limit_tls_record_bytes,
}
use securemailscope.Protocols.Buffer.{DirectionalBuffer, read, refs, is_ambiguous}
use securemailscope.Protocols.Framing.{
  TlsFramingEvidence, single_record_header, truncated_record, RecordHeader, record_header_size,
  classify_record_header, message_of, grade, RecordObservation,
}

pub data RecordParseState : Type 0 where
  complete truncated_stream alignment_lost_at_gap malformed_record : RecordParseState
  ambiguous_bytes limit_reached not_tls : RecordParseState

-- `_STRONG`: everything but a lone header and a truncated record.
unfoldable pub strong : TlsFramingEvidence → Bool
strong single_record_header = false
strong truncated_record = false
strong _ = true

pub record RecordFragment : Type 0 where
  pub index : ℕ
  pub observation : RecordObservation
  pub body : List ℕ
  pub body_offset : ℕ

-- `result` together with the variables of the loop and the codes handed to the sink. The
-- direction only labels these.
pub record Framed : Type 0 where
  pub fragments : List RecordFragment
  pub parse_state : RecordParseState
  pub stopped_at : ℕ
  pub total_body_bytes : ℕ
  pub offset : ℕ
  pub index : ℕ
  pub warnings : List WarningCode

abbrev pub warn : WarningCode → Framed → Framed
warn code s = record s { warnings = s.warnings ++ code ∷ [] }

-- A stop that is reported.
abbrev pub stop : RecordParseState → WarningCode → Framed → Framed
stop state code s = record s { parse_state = state; warnings = s.warnings ++ code ∷ [] }

unfoldable pub has_later_run : DirectionalBuffer → ℕ → Bool
has_later_run b offset = any (λ run. ltb offset run.0) b.runs

-- Missing bytes at the offset: lost alignment if data goes on behind them, else the given end.
lost_or : DirectionalBuffer → ℕ → Framed → Framed → Framed
unfolding has_later_run
lost_or b offset s otherwise =
    if has_later_run b offset
    then stop alignment_lost_at_gap tls_record_alignment_lost s
    else otherwise

-- No byte of a header is there.
no_header : List RecordFragment → Framed → Framed
no_header [] s = record s { parse_state = not_tls }
no_header (f ∷ fs) s = record s { parse_state = complete }

module _ (b : DirectionalBuffer) (max_record index_base : ℕ) where
  -- The observation and the fragment of one record.
  unfoldable pub fragment_at : Framed → RecordHeader → List ℕ → RecordFragment
  unfolding strong
  fragment_at s h body =
      let whole = leb h.declared (length body) in
      let end = s.offset + record_header_size + min (length body) h.declared in
      let message = message_of h.name body h.declared in
      let evidence = grade message (s.index - index_base) whole in
      let observation : RecordObservation = record {
        stream_offset = s.offset;
        end_offset = end;
        header = h;
        bytes_available = length body;
        complete = whole;
        message = message;
        evidence = evidence;
        status = if strong evidence then observed else inferred;
        packets = refs b s.offset (max end (s.offset + 1));
        record_index = some s.index;
        ambiguous = is_ambiguous b s.offset (max end (s.offset + 1));
      } in
      record {
        index = s.index;
        observation = observation;
        body = take h.declared body;
        body_offset = s.offset + record_header_size;
      }

  unfoldable pub push_fragment : Framed → RecordFragment → Framed
  push_fragment s f = record s {
    fragments = s.fragments ++ f ∷ [];
    total_body_bytes = s.total_body_bytes + f.observation.bytes_available;
    index = s.index + 1;
  }

  -- Behind a framed record: stop at ambiguous or missing bytes, else go on at its end.
  after_record : (Framed → Framed) → Framed → RecordFragment → Framed
  unfolding push_fragment lost_or
  after_record loop s f =
      let s' = push_fragment s f in
      let end = f.observation.end_offset in
      let onwards = loop (record s' { offset = end; stopped_at = end }) in
      if f.observation.ambiguous
      then stop ambiguous_bytes tls_record_ambiguous s'
      else if not f.observation.complete
      then lost_or b s.offset s' (stop truncated_stream tls_record_truncated s')
      else onwards

  at_record : (Framed → Framed) → Framed → RecordHeader → Framed
  unfolding after_record fragment_at
  at_record loop s h =
      if ltb max_record h.declared
      then stop limit_reached limit_tls_record_bytes s
      else after_record loop s (fragment_at s h (read b (s.offset + record_header_size) h.declared))

  at_header : (Framed → Framed) → Framed → List ℕ → Option RecordHeader → Framed
  unfolding at_record lost_or no_header
  at_header loop s window none =
      if length window == 0
      then lost_or b s.offset s (no_header s.fragments s)
      else if ltb (length window) record_header_size
      then lost_or b s.offset s (stop truncated_stream tls_record_truncated s)
      else stop malformed_record tls_record_malformed s
  at_header loop s window (some h) = at_record loop s h

  -- `left` is max_tls_records_per_direction less the fragments framed so far.
  unfoldable pub frame : ℕ → Framed → Framed
  unfolding at_header
  frame zero s = stop limit_reached limit_tls_records s
  frame (suc left) s =
      let window = read b s.offset record_header_size in
      at_header (frame left) s window (classify_record_header window)

-- `if result.fragments and result.parse_state is NOT_TLS`
settled_state : List RecordFragment → RecordParseState → RecordParseState
settled_state (f ∷ fs) not_tls = complete
settled_state _ state = state

-- The two statements behind the loop.
unfoldable pub settled : Framed → Framed
unfolding settled_state
settled s = record s {
  parse_state = settled_state s.fragments s.parse_state;
  stopped_at = max s.stopped_at s.offset;
}

abbrev pub initial : ℕ → ℕ → Framed
initial start index_base = record {
  fragments = [];
  parse_state = not_tls;
  stopped_at = start;
  total_body_bytes = 0;
  offset = start;
  index = index_base;
  warnings = [];
}

unfoldable pub parse_records : DirectionalBuffer → ℕ → ℕ → ℕ → ℕ → Framed
unfolding frame settled
parse_records b start max_records max_record index_base =
    settled (frame b max_record index_base max_records (initial start index_base))
