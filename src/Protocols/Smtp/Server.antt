-- ===== src/Protocols/Smtp/Server.antt =====
-- protocols/smtp.py: the replies of the server.
use securemailscope.Base.{
  ℕ, ◌+◌, true, false, ◌&&◌, ◌||◌, not, List, [], ◌∷◌, ◌++◌, Option, none, some, length, take, drop,
  ltb, ◌==◌, if◌then◌else◌,
}
use securemailscope.Evidence.{server_to_client, EvidenceStatus, WarningCode}
use securemailscope.Network.Flows.{Text, eq_text}
use securemailscope.Protocols.Cursor.{StreamLine}
use securemailscope.Protocols.Redaction.{is_in, safe_reply_code}
use securemailscope.Protocols.Redaction.Keywords.{starttls, auth, data_verb, ehlo, helo}
use securemailscope.Protocols.Parser.{
  ProtocolEventType, Outcome, accepted, rejected, temporary, Details, plain, PendingCommand, usable,
  warn, add_event, mark_negotiation_unsafe, note_continuations,
}
use securemailscope.Protocols.Smtp.{
  SmtpParser, code_220, code_554, code_454, code_354, code_334, starts_with, with_code,
  extract_capabilities, advertising, span_of, event, unusable,
}

module _ (max_events : ℕ) where
  -- _resolve_upgrade
  unfoldable pub resolve_upgrade : SmtpParser → StreamLine → Text → SmtpParser
  unfolding starts_with
  resolve_upgrade s span code =
      let details = record (with_code code) { command_verb = some starttls } in
      let p = record s.parser { response_code = some code } in
      let answered = λ (outcome : Option Outcome) (kind : ProtocolEventType) (d : Details).
        let (response, p') =
          add_event max_events (record p { upgrade_outcome = outcome }) kind server_to_client span
            d in
        record p' { response_event = response } in
      if eq_text code code_220
      then record s {
        parser = answered (some accepted) ProtocolEventType.upgrade_accepted details;
        halt = true;
      }
      else if eq_text code code_454 || starts_with 52 code
      then record s {
        parser = answered (some temporary) ProtocolEventType.upgrade_temporary_failure details;
      }
      else if starts_with 53 code
      then record s { parser = answered (some rejected) ProtocolEventType.upgrade_rejected details }
      else record s {
        parser = mark_negotiation_unsafe (
            answered p.upgrade_outcome ProtocolEventType.server_reply
              (record details { status = EvidenceStatus.unknown }));
      }

  -- _finish_auth
  unfoldable pub finish_auth : SmtpParser → StreamLine → Text → SmtpParser
  unfolding event
  finish_auth s span code =
      event max_events
        (record s {
          awaiting_auth_continuation = false;
          auth_continuations = 0;
          parser = note_continuations s.parser s.auth_continuations;
        })
        ProtocolEventType.server_reply server_to_client span
        (record (with_code code) { command_verb = some auth })

  -- The line that advertises STARTTLS, if the reply has one.
  unfoldable pub advertise : SmtpParser → Option StreamLine → SmtpParser
  advertise s none = s
  advertise s (some line) =
      let (advertised, p) =
        add_event max_events s.parser ProtocolEventType.upgrade_advertised server_to_client line
          (record plain { capabilities = starttls ∷ [] }) in
      record s { parser = record p { advertised_event = advertised } }

  -- _record_capabilities
  unfoldable pub record_capabilities :
      SmtpParser → StreamLine → List StreamLine → List Text → SmtpParser
  unfolding event advertise
  record_capabilities s span lines capabilities =
      let s' =
        event max_events s ProtocolEventType.capability_advertisement server_to_client span
          (record plain { capabilities = capabilities }) in
      if is_in starttls capabilities
      then advertise (record s' { parser = record s'.parser { upgrade_seen = true } })
          (advertising starttls (drop 1 lines))
      else s'

  -- A reply with no command outstanding.
  unfoldable pub unmatched_reply : SmtpParser → StreamLine → Text → SmtpParser
  unfolding event
  unmatched_reply s span code =
      let p = s.parser in
      let first_reply = not p.greeting_observed && p.recognised_commands == 0 in
      let is_greeting = eq_text code code_220 || eq_text code code_554 in
      if first_reply && is_greeting
      then event max_events (record s { parser = record p { greeting_observed = true } })
          ProtocolEventType.server_greeting server_to_client span (with_code code)
      else if first_reply
      then event max_events s ProtocolEventType.server_reply server_to_client span (with_code code)
      else event max_events (record s { parser = warn p WarningCode.protocol_unsolicited_reply })
          ProtocolEventType.server_reply server_to_client span (with_code code)

  -- The reply that ends a command which neither upgrades nor authenticates.
  unfoldable pub ordinary_reply :
      SmtpParser → StreamLine → List StreamLine → Text → PendingCommand → SmtpParser
  unfolding event record_capabilities
  ordinary_reply s span lines code command =
      let greets = eq_text command.verb ehlo || eq_text command.verb helo in
      let capabilities = if greets then extract_capabilities lines else [] in
      let s' =
        event max_events s ProtocolEventType.server_reply server_to_client span
          (record (with_code code) {
            command_verb = some command.verb;
            capabilities = capabilities;
          }) in
      if ltb 0 (length capabilities) then record_capabilities s' span lines capabilities else s'

  unfoldable pub final_reply :
      SmtpParser → StreamLine → List StreamLine → Text → PendingCommand → SmtpParser
  unfolding resolve_upgrade finish_auth ordinary_reply
  final_reply s span lines code command =
      if command.is_upgrade
      then resolve_upgrade s span code
      else if command.is_auth
      then finish_auth s span code
      else ordinary_reply s span lines code command

  -- A reply to the oldest command that is outstanding; an intermediate one leaves it outstanding.
  unfoldable pub reply_to :
      SmtpParser → StreamLine → List StreamLine → Text → List PendingCommand → SmtpParser
  unfolding unmatched_reply event final_reply
  reply_to s span lines code [] = unmatched_reply s span code
  reply_to s span lines code (command ∷ later) =
      let answered = record s {
        parser = record s.parser {
          pending = later;
          matched_exchanges = s.parser.matched_exchanges + 1;
        };
      } in
      if eq_text command.verb data_verb && eq_text code code_354
      then event max_events (record s { in_data_body = true; data_bytes = 0 })
          ProtocolEventType.server_reply server_to_client span (with_code code)
      else if command.is_auth && eq_text code code_334
      then event max_events (record s { awaiting_auth_continuation = true })
          ProtocolEventType.server_reply server_to_client span (with_code code)
      else final_reply answered span lines code command

  -- _complete_reply; the lines are never none where it is called.
  unfoldable pub complete_reply :
      SmtpParser → List StreamLine → Option StreamLine → Text → SmtpParser
  unfolding reply_to
  complete_reply s lines none code = s
  complete_reply s lines (some span) code =
      reply_to (record s { reply_lines = [] }) span lines code s.parser.pending

  -- A line that does not fit the grammar, with the code that it may have begun with.
  unfoldable pub foreign_reply : SmtpParser → StreamLine → Option Text → SmtpParser
  unfolding event
  foreign_reply s line code =
      let s' =
        event max_events
          (record s { parser = record s.parser { foreign_lines = s.parser.foreign_lines + 1 } })
          ProtocolEventType.parse_desynchronised server_to_client line
          (record plain { reply_code = code }) in
      record s' { reply_lines = [] }

  -- What follows the code: a hyphen continues the reply, a space or nothing ends it.
  unfoldable pub separated : SmtpParser → StreamLine → Text → List ℕ → SmtpParser
  unfolding complete_reply foreign_reply
  separated s line code separator =
      let lines = s.reply_lines ++ (line ∷ []) in
      let s' = record s { reply_lines = lines } in
      if eq_text separator (45 ∷ [])
      then s'
      else if eq_text separator (32 ∷ []) || eq_text separator []
      then complete_reply s' lines (span_of lines) code
      else foreign_reply s' line (some code)

  unfoldable pub coded : SmtpParser → StreamLine → Option Text → SmtpParser
  unfolding separated foreign_reply
  coded s line none = foreign_reply s line none
  coded s line (some code) = separated s line code (take 1 (drop 3 line.content))

  -- _server_line
  unfoldable pub server_line : SmtpParser → StreamLine → SmtpParser
  unfolding unusable coded
  server_line s line =
      if not (usable line)
      then record (unusable max_events s server_to_client line) { reply_lines = [] }
      else coded s line (safe_reply_code (take 3 line.content))
