-- ===== src/Protocols/Smtp/Redacted.antt =====
-- Whatever bytes a mail dialogue holds, the SMTP parser reports keywords only.
use securemailscope.Base.{
  ℕ, ◌+◌, ◌-◌, ◌≡◌, refl, true, false, ◌&&◌, ◌||◌, not, List, [], ◌∷◌, ◌++◌, Option, none, some,
  All-append, any, ltb, if◌then◌else◌, arith, if_intro, inl,
}
use securemailscope.Evidence.{Direction, client_to_server, server_to_client, EvidenceStatus}
use securemailscope.Network.Flows.{Text, eq_text}
use securemailscope.Protocols.Cursor.{StreamLine}
use securemailscope.Protocols.Redaction.{is_in, safe_verb, split_token}
use securemailscope.Protocols.Redaction.Keywords.{smtp_verbs, greetings, auth, quit}
use securemailscope.Protocols.Redaction.Safe.{
  Each, IsMechanism, IsReplyCode, safe_verb-Each, safe_mechanism-IsMechanism,
}
use securemailscope.Protocols.Parser.{
  ProtocolEventType, Details, plain, PendingCommand, ProtocolParser, usable, warn, is_some,
  mark_negotiation_unsafe,
}
use securemailscope.Protocols.Parser.Reported as Reported
use securemailscope.Protocols.Parser.Reported.{
  add_event-IsRedacted, record_event-IsRedacted, plain-AreSafe, record_auth-IsRedacted,
}
use securemailscope.Protocols.Smtp.{SmtpParser, with_code, is_dot, command_of, event, unusable}
use securemailscope.Protocols.Smtp.Client.{
  data_body_line, note_command, note_verb, auth_continuation, client_line,
}

abbrev pub IsRedacted : ProtocolParser → Type 0
IsRedacted = Reported.IsRedacted smtp_verbs IsReplyCode greetings

abbrev pub AreSafe : ProtocolEventType → Direction → Details → Type 0
AreSafe = Reported.AreSafe smtp_verbs IsReplyCode greetings

pub with_code-AreSafe :
    (kind : ProtocolEventType) (code : Text)
    → IsReplyCode code
    → AreSafe kind server_to_client (with_code code)
with_code-AreSafe kind code h = record {
  verb = tt;
  code = h;
  keywords = tt;
  no_tag = refl;
  position = inl refl;
}

pub unsafe-IsRedacted : (p : ProtocolParser) → IsRedacted p → IsRedacted (mark_negotiation_unsafe p)
unfolding mark_negotiation_unsafe
unsafe-IsRedacted p h = ground (arith, h)

module _ (max_events : ℕ) where
  pub event-IsRedacted :
      (s : SmtpParser) (kind : ProtocolEventType) (d : Direction) (line : StreamLine)
      (details : Details)
      → AreSafe kind d details
      → IsRedacted s.parser
      → IsRedacted (event max_events s kind d line details).parser
  unfolding event
  event-IsRedacted s kind d line details safe h =
      record_event-IsRedacted smtp_verbs IsReplyCode greetings max_events s.parser kind d line
        details safe h

  pub unusable-IsRedacted :
      (s : SmtpParser) (d : Direction) (line : StreamLine)
      → IsRedacted s.parser
      → IsRedacted (unusable max_events s d line).parser
  unfolding unusable
  unusable-IsRedacted s d line h =
      let p = s.parser in
      let unsafe =
        any (λ (c : PendingCommand). c.is_upgrade) p.pending || is_some p.requested_event in
      event-IsRedacted (record s { parser = if unsafe then mark_negotiation_unsafe p else p })
        ProtocolEventType.incomplete_record d line
        (record plain { status = EvidenceStatus.unknown })
        (record {
          verb = tt;
          code = tt;
          keywords = tt;
          no_tag = refl;
          position =
              Reported.silent-Position smtp_verbs IsReplyCode greetings
                ProtocolEventType.incomplete_record d none;
        })
        (if_intro IsRedacted unsafe (λ _. unsafe-IsRedacted p h) (λ _. h))

module _ (max_events max_message_body_bytes : ℕ) where
  data_body_line-IsRedacted :
      (s : SmtpParser) (line : StreamLine)
      → IsRedacted s.parser
      → IsRedacted (data_body_line max_events max_message_body_bytes s line).parser
  unfolding data_body_line warn
  data_body_line-IsRedacted s line h =
      let bytes = s.data_bytes + (line.end_offset - line.start_offset) in
      if_intro (λ (t : SmtpParser). IsRedacted t.parser) (line.complete && is_dot line.content)
        (λ _.
          event-IsRedacted max_events (record s { in_data_body = false })
            ProtocolEventType.message_body_skipped client_to_server line
            (record plain { byte_count = some bytes; end_offset = some line.end_offset })
            (record { verb = tt; code = tt; keywords = tt; no_tag = refl; position = (refl, refl) })
            h)
        (λ _.
          if_intro (λ (t : SmtpParser). IsRedacted t.parser) (ltb max_message_body_bytes bytes)
            (λ _. ground (arith, h)) (λ _. h))

  note_command-IsRedacted :
      (s : SmtpParser) (line : StreamLine) (command : PendingCommand)
      → is_in command.verb smtp_verbs ≡ true
      → IsMechanism command.mechanism
      → IsRedacted s.parser
      → IsRedacted (note_command max_events max_message_body_bytes s line command).parser
  unfolding note_command
  note_command-IsRedacted s line command v m h =
      let details = record plain { command_verb = some command.verb } in
      let safe : (kind : ProtocolEventType) → AreSafe kind client_to_server details = λ kind.
        record { verb = v; code = tt; keywords = tt; no_tag = refl; position = (refl, refl) } in
      let seen = record s.parser { upgrade_seen = true } in
      let added =
        add_event-IsRedacted smtp_verbs IsReplyCode greetings max_events seen
          ProtocolEventType.upgrade_requested client_to_server line details (safe _)
          (ground (arith, h)) in
      let s' =
        event max_events s ProtocolEventType.authentication_command client_to_server line details in
      if_intro (λ (t : SmtpParser). IsRedacted t.parser) command.is_upgrade
        (λ _. record {
          events = added.1.events;
          auth = added.1.auth;
          pending = added.1.pending;
          response_code = added.1.response_code;
          advertised = added.1.advertised;
          requested = added.0;
          response = added.1.response;
        })
        (λ _.
          if_intro (λ (t : SmtpParser). IsRedacted t.parser) command.is_auth
            (λ _.
              record_auth-IsRedacted smtp_verbs IsReplyCode greetings s'.parser client_to_server
                line command.verb command.mechanism v m
                (event-IsRedacted max_events s ProtocolEventType.authentication_command
                  client_to_server line details (safe _) h))
            (λ _.
              if_intro (λ (t : SmtpParser). IsRedacted t.parser) (eq_text command.verb quit)
                (λ _.
                  event-IsRedacted max_events s ProtocolEventType.session_termination
                    client_to_server line details (safe _) h)
                (λ _.
                  event-IsRedacted max_events s ProtocolEventType.client_command client_to_server
                    line details (safe _) h)))

  command_of-safe :
      (line : StreamLine) (verb : Text) (remainder : List ℕ)
      → IsMechanism (command_of line verb remainder).mechanism
  unfolding command_of
  command_of-safe line verb remainder =
      if_intro IsMechanism (eq_text verb auth)
        (λ _. safe_mechanism-IsMechanism (split_token remainder).0) (λ _. tt)

  with_pending-IsRedacted :
      (s : SmtpParser) (n : ℕ) (command : PendingCommand)
      → is_in command.verb smtp_verbs ≡ true
      → IsMechanism command.mechanism
      → IsRedacted s.parser
      → IsRedacted (record s.parser {
        recognised_commands = n;
        pending = s.parser.pending ++ (command ∷ []);
      })
  with_pending-IsRedacted s n command v m h = record {
    events = h.events;
    auth = h.auth;
    pending =
        All-append (Reported.IsSafeCommand smtp_verbs IsReplyCode greetings) s.parser.pending
          (command ∷ []) h.pending ((v, m), tt);
    response_code = h.response_code;
    advertised = h.advertised;
    requested = h.requested;
    response = h.response;
  }

  note_verb-IsRedacted :
      (s : SmtpParser) (line : StreamLine) (remainder : List ℕ) (verb : Option Text)
      → Each (λ text. is_in text smtp_verbs ≡ true) verb
      → IsRedacted s.parser
      → IsRedacted (note_verb max_events max_message_body_bytes s line remainder verb).parser
  unfolding note_verb
  note_verb-IsRedacted s line remainder none v h =
      event-IsRedacted max_events
        (record s { parser = record s.parser { foreign_lines = s.parser.foreign_lines + 1 } })
        ProtocolEventType.parse_desynchronised client_to_server line plain
        (plain-AreSafe smtp_verbs IsReplyCode greetings ProtocolEventType.parse_desynchronised
          client_to_server)
        (ground (arith, h))
  note_verb-IsRedacted s line remainder (some verb) v h =
      let command = command_of line verb remainder in
      let m = command_of-safe line verb remainder in
      note_command-IsRedacted _ line command v m (with_pending-IsRedacted s _ command v m h)

  pub client_line-IsRedacted :
      (s : SmtpParser) (line : StreamLine)
      → IsRedacted s.parser
      → IsRedacted (client_line max_events max_message_body_bytes s line).parser
  unfolding client_line auth_continuation
  client_line-IsRedacted s line h =
      let (token, remainder) = split_token line.content in
      if_intro (λ (t : SmtpParser). IsRedacted t.parser) s.in_data_body
        (λ _. data_body_line-IsRedacted s line h)
        (λ _.
          if_intro (λ (t : SmtpParser). IsRedacted t.parser) s.awaiting_auth_continuation
            (λ _.
              event-IsRedacted max_events
                (record s {
                  auth_continuations = s.auth_continuations + 1;
                  awaiting_auth_continuation = false;
                })
                ProtocolEventType.authentication_continuation client_to_server line
                (record plain { byte_count = some (line.end_offset - line.start_offset) })
                (record {
                  verb = tt;
                  code = tt;
                  keywords = tt;
                  no_tag = refl;
                  position = (refl, refl);
                })
                h)
            (λ _.
              if_intro (λ (t : SmtpParser). IsRedacted t.parser) (not (usable line))
                (λ _. unusable-IsRedacted max_events s client_to_server line h)
                (λ _.
                  note_verb-IsRedacted s line remainder (safe_verb token smtp_verbs)
                    (safe_verb-Each token smtp_verbs) h)))
