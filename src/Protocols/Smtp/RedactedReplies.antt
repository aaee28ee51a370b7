-- ===== src/Protocols/Smtp/RedactedReplies.antt =====
-- Whatever a server replies, the SMTP parser reports codes and keywords only.
use securemailscope.Base.{
  inl, inr, ◌⊎◌, ℕ, ◌+◌, ◌≡◌, refl, subst, true, ◌&&◌, ◌||◌, not, List, [], ◌∷◌, ◌++◌, Option, none,
  some, All, length, drop, take, ltb, ◌==◌, if◌then◌else◌, arith, if_intro,
}
use securemailscope.Evidence.{server_to_client, WarningCode}
use securemailscope.Network.Flows.{Text, eq_text}
use securemailscope.Protocols.Cursor.{StreamLine}
use securemailscope.Protocols.Redaction.{is_in, safe_reply_code}
use securemailscope.Protocols.Redaction.Keywords.{smtp_verbs, greetings, data_verb, ehlo, helo}
use securemailscope.Protocols.Redaction.Safe.{
  Each, IsKeyword, IsReplyCode, safe_reply_code-IsReplyCode,
}
use securemailscope.Protocols.Parser.{
  ProtocolEventType, plain, PendingCommand, ProtocolParser, usable, warn,
}
use securemailscope.Protocols.Parser.Reported as Reported
use securemailscope.Protocols.Parser.Reported.{warned}
use securemailscope.Protocols.Smtp.{
  SmtpParser, code_220, code_554, code_354, code_334, with_code, extract_capabilities, span_of,
  event,
}
use securemailscope.Protocols.Smtp.Server.{
  unmatched_reply, ordinary_reply, final_reply, reply_to, complete_reply, foreign_reply, separated,
  coded, server_line,
}
use securemailscope.Protocols.Smtp.Redacted.{
  IsRedacted, with_code-AreSafe, event-IsRedacted, unusable-IsRedacted,
}
use securemailscope.Protocols.Smtp.RedactedUpgrade.{
  capabilities_from-keywords, resolve_upgrade-IsRedacted, finish_auth-IsRedacted,
  record_capabilities-IsRedacted,
}

module _ (max_events : ℕ) where
  abbrev Kept : SmtpParser → Type 0
  Kept s = IsRedacted s.parser

  coded_event :
      (s : SmtpParser) (kind : ProtocolEventType) (span : StreamLine) (code : Text)
      → IsReplyCode code
      → Kept s
      → Kept (event max_events s kind server_to_client span (with_code code))
  coded_event s kind span code c h =
      event-IsRedacted max_events s kind server_to_client span (with_code code)
        (with_code-AreSafe kind code c) h

  unmatched_reply-IsRedacted :
      (s : SmtpParser) (span : StreamLine) (code : Text)
      → IsReplyCode code
      → Kept s
      → Kept (unmatched_reply max_events s span code)
  unfolding unmatched_reply
  unmatched_reply-IsRedacted s span code c h =
      let p = s.parser in
      let first_reply = not p.greeting_observed && p.recognised_commands == 0 in
      if_intro Kept (first_reply && (eq_text code code_220 || eq_text code code_554))
        (λ _.
          coded_event (record s { parser = record p { greeting_observed = true } })
            ProtocolEventType.server_greeting span code c (ground (arith, h)))
        (λ _.
          if_intro Kept first_reply
            (λ _. coded_event s ProtocolEventType.server_reply span code c h)
            (λ _.
              coded_event (record s { parser = warn p WarningCode.protocol_unsolicited_reply })
                ProtocolEventType.server_reply span code c
                (warned smtp_verbs IsReplyCode greetings p WarningCode.protocol_unsolicited_reply
                  h)))

  ordinary_reply-IsRedacted :
      (s : SmtpParser) (span : StreamLine) (lines : List StreamLine) (code : Text)
      (command : PendingCommand)
      → IsReplyCode code
      → is_in command.verb smtp_verbs ≡ true
      → Kept s
      → Kept (ordinary_reply max_events s span lines code command)
  unfolding ordinary_reply extract_capabilities is_in
  ordinary_reply-IsRedacted s span lines code command c v h =
      let greets = eq_text command.verb ehlo || eq_text command.verb helo in
      let capabilities = if greets then extract_capabilities lines else [] in
      let k : All IsKeyword capabilities =
        if_intro (All IsKeyword) greets (λ _. capabilities_from-keywords [] (drop 1 lines) tt)
          (λ _. tt) in
      let place : (capabilities ≡ []) ⊎ (is_in command.verb greetings ≡ true) =
        if_intro (λ (cs : List Text). (cs ≡ []) ⊎ (is_in command.verb greetings ≡ true)) greets
          (λ t. inr (ground (arith, t))) (λ _. inl refl) in
      let details = record (with_code code) {
        command_verb = some command.verb;
        capabilities = capabilities;
      } in
      let h' =
        event-IsRedacted max_events s ProtocolEventType.server_reply server_to_client span details
          (record { verb = v; code = c; keywords = k; no_tag = refl; position = place }) h in
      if_intro Kept (ltb 0 (length capabilities))
        (λ _.
          record_capabilities-IsRedacted max_events
            (event max_events s ProtocolEventType.server_reply server_to_client span details) span
            lines capabilities k h')
        (λ _. h')

  final_reply-IsRedacted :
      (s : SmtpParser) (span : StreamLine) (lines : List StreamLine) (code : Text)
      (command : PendingCommand)
      → IsReplyCode code
      → is_in command.verb smtp_verbs ≡ true
      → Kept s
      → Kept (final_reply max_events s span lines code command)
  unfolding final_reply
  final_reply-IsRedacted s span lines code command c v h =
      if_intro Kept command.is_upgrade (λ _. resolve_upgrade-IsRedacted max_events s span code c h)
        (λ _.
          if_intro Kept command.is_auth (λ _. finish_auth-IsRedacted max_events s span code c h)
            (λ _. ordinary_reply-IsRedacted s span lines code command c v h))

  with_answered :
      (p : ProtocolParser) (command : PendingCommand) (later : List PendingCommand) (n : ℕ)
      → p.pending ≡ command ∷ later
      → IsRedacted p
      → (is_in command.verb smtp_verbs ≡ true)
        × IsRedacted (record p { pending = later; matched_exchanges = n })
  with_answered p command later n e h =
      let waiting =
        subst (All (Reported.IsSafeCommand smtp_verbs IsReplyCode greetings)) e h.pending in
      (
        waiting.0.0,
        record {
          events = h.events;
          auth = h.auth;
          pending = waiting.1;
          response_code = h.response_code;
          advertised = h.advertised;
          requested = h.requested;
          response = h.response;
        },
      )

  reply_to-IsRedacted :
      (s : SmtpParser) (span : StreamLine) (lines : List StreamLine) (code : Text)
      (pending : List PendingCommand)
      → s.parser.pending ≡ pending
      → IsReplyCode code
      → Kept s
      → Kept (reply_to max_events s span lines code pending)
  unfolding reply_to
  reply_to-IsRedacted s span lines code [] e c h = unmatched_reply-IsRedacted s span code c h
  reply_to-IsRedacted s span lines code (command ∷ later) e c h =
      let (v, h') = with_answered s.parser command later (s.parser.matched_exchanges + 1) e h in
      if_intro Kept (eq_text command.verb data_verb && eq_text code code_354)
        (λ _.
          coded_event (record s { in_data_body = true; data_bytes = 0 })
            ProtocolEventType.server_reply span code c h)
        (λ _.
          if_intro Kept (command.is_auth && eq_text code code_334)
            (λ _.
              coded_event (record s { awaiting_auth_continuation = true })
                ProtocolEventType.server_reply span code c h)
            (λ _.
              final_reply-IsRedacted
                (record s {
                  parser = record s.parser {
                    pending = later;
                    matched_exchanges = s.parser.matched_exchanges + 1;
                  };
                })
                span lines code command c v h'))

  complete_reply-IsRedacted :
      (s : SmtpParser) (lines : List StreamLine) (span : Option StreamLine) (code : Text)
      → IsReplyCode code
      → Kept s
      → Kept (complete_reply max_events s lines span code)
  unfolding complete_reply
  complete_reply-IsRedacted s lines none code c h = h
  complete_reply-IsRedacted s lines (some span) code c h =
      reply_to-IsRedacted (record s { reply_lines = [] }) span lines code s.parser.pending refl c h

  foreign_reply-IsRedacted :
      (s : SmtpParser) (line : StreamLine) (code : Option Text)
      → Each IsReplyCode code
      → Kept s
      → Kept (foreign_reply max_events s line code)
  unfolding foreign_reply
  foreign_reply-IsRedacted s line code c h =
      event-IsRedacted max_events
        (record s { parser = record s.parser { foreign_lines = s.parser.foreign_lines + 1 } })
        ProtocolEventType.parse_desynchronised server_to_client line
        (record plain { reply_code = code })
        (record { verb = tt; code = c; keywords = tt; no_tag = refl; position = inl refl })
        (ground (arith, h))

  separated-IsRedacted :
      (s : SmtpParser) (line : StreamLine) (code : Text) (separator : List ℕ)
      → IsReplyCode code
      → Kept s
      → Kept (separated max_events s line code separator)
  unfolding separated
  separated-IsRedacted s line code separator c h =
      let lines = s.reply_lines ++ (line ∷ []) in
      let s' = record s { reply_lines = lines } in
      if_intro Kept (eq_text separator (45 ∷ [])) (λ _. h)
        (λ _.
          if_intro Kept (eq_text separator (32 ∷ []) || eq_text separator [])
            (λ _. complete_reply-IsRedacted s' lines (span_of lines) code c h)
            (λ _. foreign_reply-IsRedacted s' line (some code) c h))

  coded-IsRedacted :
      (s : SmtpParser) (line : StreamLine) (code : Option Text)
      → Each IsReplyCode code
      → Kept s
      → Kept (coded max_events s line code)
  unfolding coded
  coded-IsRedacted s line none c h = foreign_reply-IsRedacted s line none tt h
  coded-IsRedacted s line (some code) c h =
      separated-IsRedacted s line code (take 1 (drop 3 line.content)) c h

  pub server_line-IsRedacted :
      (s : SmtpParser) (line : StreamLine)
      → IsRedacted s.parser
      → IsRedacted (server_line max_events s line).parser
  unfolding server_line
  server_line-IsRedacted s line h =
      if_intro Kept (not (usable line))
        (λ _. unusable-IsRedacted max_events s server_to_client line h)
        (λ _.
          coded-IsRedacted s line (safe_reply_code (take 3 line.content))
            (safe_reply_code-IsReplyCode (take 3 line.content)) h)
