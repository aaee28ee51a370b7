-- ===== src/Protocols/Smtp/RedactedUpgrade.antt =====
-- The answer to STARTTLS and the capabilities of a server: codes and keywords only.
use securemailscope.Base.{
  ℕ, refl, true, false, ◌||◌, List, [], ◌∷◌, Option, none, some, All, All-append, length, drop, leb,
  arith, if_intro, inl, inr,
}
use securemailscope.Evidence.{server_to_client, EvidenceStatus}
use securemailscope.Network.Flows.{Text, eq_text}
use securemailscope.Protocols.Cursor.{StreamLine}
use securemailscope.Protocols.Redaction.{is_in, split_token}
use securemailscope.Protocols.Redaction.Keywords.{smtp_verbs, greetings, starttls, auth}
use securemailscope.Protocols.Redaction.Safe.{
  is_keyword_char, Each, IsKeyword, IsReplyCode, safe_capability-IsKeyword,
}
use securemailscope.Protocols.Parser.{
  ProtocolEventType, ProtocolEvent, Outcome, accepted, rejected, temporary, Details, plain,
  ProtocolParser, add_event, note_continuations,
}
use securemailscope.Protocols.Parser.Reported as Reported
use securemailscope.Protocols.Parser.Reported.{add_event-IsRedacted, note_continuations-IsRedacted}
use securemailscope.Protocols.Smtp.{
  SmtpParser, code_220, code_454, starts_with, with_code, keyword_of, add_keyword,
  capabilities_from, advertising, event,
}
use securemailscope.Protocols.Smtp.Server.{
  resolve_upgrade, finish_auth, advertise, record_capabilities,
}
use securemailscope.Protocols.Smtp.Redacted.{
  IsRedacted, AreSafe, unsafe-IsRedacted, event-IsRedacted,
}

-- A parser with an answer to its upgrade command.
with_response :
    (p : ProtocolParser) (response : Option ProtocolEvent)
    → Reported.IsSafeOption smtp_verbs IsReplyCode greetings response
    → IsRedacted p
    → IsRedacted (record p { response_event = response })
with_response p response r h = record {
  events = h.events;
  auth = h.auth;
  pending = h.pending;
  response_code = h.response_code;
  advertised = h.advertised;
  requested = h.requested;
  response = r;
}

starttls-IsKeyword : IsKeyword starttls
unfolding is_keyword_char
starttls-IsKeyword = (omega arith, refl)

add_keyword-keywords :
    (o : Option Text) (found : List Text)
    → All IsKeyword found
    → Each IsKeyword o
    → All IsKeyword (add_keyword o found)
unfolding add_keyword
add_keyword-keywords none found h k = h
add_keyword-keywords (some keyword) found h k = All-append IsKeyword found (keyword ∷ []) h (k, tt)

pub capabilities_from-keywords :
    (found : List Text) (lines : List StreamLine)
    → All IsKeyword found
    → All IsKeyword (capabilities_from found lines)
unfolding capabilities_from keyword_of
capabilities_from-keywords found [] h = h
capabilities_from-keywords found (line ∷ lines) h =
    let found' = add_keyword (keyword_of line) found in
    let h' =
      add_keyword-keywords (keyword_of line) found h
        (safe_capability-IsKeyword (split_token (drop 4 line.content)).0) in
    if_intro (All IsKeyword) (leb 64 (length found')) (λ _. h')
      (λ _. capabilities_from-keywords found' lines h')

module _ (max_events : ℕ) where
  abbrev Kept : SmtpParser → Type 0
  Kept s = IsRedacted s.parser

  answered-IsRedacted :
      (p : ProtocolParser) (kind : ProtocolEventType) (span : StreamLine) (d : Details)
      → AreSafe kind server_to_client d
      → IsRedacted p
      → IsRedacted (record (add_event max_events p kind server_to_client span d).1 {
        response_event = (add_event max_events p kind server_to_client span d).0;
      })
  answered-IsRedacted p kind span d safe h =
      let (r, h') =
        add_event-IsRedacted smtp_verbs IsReplyCode greetings max_events p kind server_to_client
          span d safe h in
      with_response _ _ r h'

  with_outcome :
      (p : ProtocolParser) (code : Text) (outcome : Option Outcome)
      → IsReplyCode code
      → IsRedacted p
      → IsRedacted (record p { response_code = some code; upgrade_outcome = outcome })
  with_outcome p code outcome c h = record {
    events = h.events;
    auth = h.auth;
    pending = h.pending;
    response_code = c;
    advertised = h.advertised;
    requested = h.requested;
    response = h.response;
  }

  pub resolve_upgrade-IsRedacted :
      (s : SmtpParser) (span : StreamLine) (code : Text)
      → IsReplyCode code
      → IsRedacted s.parser
      → IsRedacted (resolve_upgrade max_events s span code).parser
  unfolding resolve_upgrade is_in eq_text
  resolve_upgrade-IsRedacted s span code c h =
      let details = record (with_code code) { command_verb = some starttls } in
      let safe : (kind : ProtocolEventType) → AreSafe kind server_to_client details = λ kind.
        record { verb = refl; code = c; keywords = tt; no_tag = refl; position = inl refl } in
      let unsure = record details { status = EvidenceStatus.unknown } in
      let answer = λ (outcome : Option Outcome) (kind : ProtocolEventType).
        answered-IsRedacted
          (record s.parser { response_code = some code; upgrade_outcome = outcome }) kind span
          details (safe kind) (with_outcome s.parser code outcome c h) in
      if_intro Kept (eq_text code code_220)
        (λ _. answer (some accepted) ProtocolEventType.upgrade_accepted)
        (λ _.
          if_intro Kept (eq_text code code_454 || starts_with 52 code)
            (λ _. answer (some temporary) ProtocolEventType.upgrade_temporary_failure)
            (λ _.
              if_intro Kept (starts_with 53 code)
                (λ _. answer (some rejected) ProtocolEventType.upgrade_rejected)
                (λ _. unsafe-IsRedacted _ (
                  answered-IsRedacted
                    (record s.parser {
                      response_code = some code;
                      upgrade_outcome = s.parser.upgrade_outcome;
                    })
                    ProtocolEventType.server_reply span unsure
                    (record {
                      verb = refl;
                      code = c;
                      keywords = tt;
                      no_tag = refl;
                      position = inl refl;
                    })
                    (with_outcome s.parser code s.parser.upgrade_outcome c h)))))

  pub finish_auth-IsRedacted :
      (s : SmtpParser) (span : StreamLine) (code : Text)
      → IsReplyCode code
      → IsRedacted s.parser
      → IsRedacted (finish_auth max_events s span code).parser
  unfolding finish_auth is_in eq_text
  finish_auth-IsRedacted s span code c h =
      event-IsRedacted max_events
        (record s {
          awaiting_auth_continuation = false;
          auth_continuations = 0;
          parser = note_continuations s.parser s.auth_continuations;
        })
        ProtocolEventType.server_reply server_to_client span
        (record (with_code code) { command_verb = some auth })
        (record { verb = refl; code = c; keywords = tt; no_tag = refl; position = inl refl })
        (note_continuations-IsRedacted smtp_verbs IsReplyCode greetings s.parser
          s.auth_continuations h)

  with_advertised :
      (p : ProtocolParser) (advertised : Option ProtocolEvent)
      → Reported.IsSafeOption smtp_verbs IsReplyCode greetings advertised
      → IsRedacted p
      → IsRedacted (record p { advertised_event = advertised })
  with_advertised p advertised a h = record {
    events = h.events;
    auth = h.auth;
    pending = h.pending;
    response_code = h.response_code;
    advertised = a;
    requested = h.requested;
    response = h.response;
  }

  advertise-IsRedacted :
      (s : SmtpParser) (o : Option StreamLine) → Kept s → Kept (advertise max_events s o)
  unfolding advertise
  advertise-IsRedacted s none h = h
  advertise-IsRedacted s (some line) h =
      let (a, h') =
        add_event-IsRedacted smtp_verbs IsReplyCode greetings max_events s.parser
          ProtocolEventType.upgrade_advertised server_to_client line
          (record plain { capabilities = starttls ∷ [] })
          (record {
            verb = tt;
            code = tt;
            keywords = (starttls-IsKeyword, tt);
            no_tag = refl;
            position = inr tt;
          })
          h in
      with_advertised _ _ a h'

  pub record_capabilities-IsRedacted :
      (s : SmtpParser) (span : StreamLine) (lines : List StreamLine) (capabilities : List Text)
      → All IsKeyword capabilities
      → Kept s
      → Kept (record_capabilities max_events s span lines capabilities)
  unfolding record_capabilities
  record_capabilities-IsRedacted s span lines capabilities k h =
      let details = record plain { capabilities = capabilities } in
      let s' =
        event max_events s ProtocolEventType.capability_advertisement server_to_client span
          details in
      let h' : Kept s' =
        event-IsRedacted max_events s ProtocolEventType.capability_advertisement server_to_client
          span details
          (record { verb = tt; code = tt; keywords = k; no_tag = refl; position = inr tt }) h in
      if_intro Kept (is_in starttls capabilities)
        (λ _.
          advertise-IsRedacted (record s' { parser = record s'.parser { upgrade_seen = true } })
            (advertising starttls (drop 1 lines)) (ground (arith, h')))
        (λ _. h')
