-- ===== src/Protocols/Smtp/Client.antt =====
-- protocols/smtp.py: the lines of the client.
use securemailscope.Base.{
  ℕ, ◌+◌, ◌-◌, true, false, ◌&&◌, not, List, [], ◌∷◌, ◌++◌, Option, none, some, ltb, if◌then◌else◌,
}
use securemailscope.Evidence.{client_to_server, WarningCode}
use securemailscope.Network.Flows.{Text, eq_text}
use securemailscope.Protocols.Cursor.{StreamLine}
use securemailscope.Protocols.Redaction.{safe_verb, split_token}
use securemailscope.Protocols.Redaction.Keywords.{smtp_verbs, quit}
use securemailscope.Protocols.Parser.{
  ProtocolEventType, indeterminate, plain, PendingCommand, usable, warn, add_event, record_auth,
}
use securemailscope.Protocols.Smtp.{SmtpParser, is_dot, command_of, event, unusable}

module _ (max_events max_message_body_bytes : ℕ) where
  -- _data_body_line
  unfoldable pub data_body_line : SmtpParser → StreamLine → SmtpParser
  unfolding event is_dot
  data_body_line s line =
      let bytes = s.data_bytes + (line.end_offset - line.start_offset) in
      if line.complete && is_dot line.content
      then record (event max_events (record s { in_data_body = false })
          ProtocolEventType.message_body_skipped client_to_server line
          (record plain { byte_count = some bytes; end_offset = some line.end_offset })) {
            data_bytes = 0;
          }
      else if ltb max_message_body_bytes bytes
      then record s {
        data_bytes = bytes;
        parser = record (warn s.parser WarningCode.limit_message_body_bytes) {
          state = indeterminate;
        };
      }
      else record s { data_bytes = bytes }

  -- The event of a recognised command.
  unfoldable pub note_command : SmtpParser → StreamLine → PendingCommand → SmtpParser
  unfolding event
  note_command s line command =
      let details = record plain { command_verb = some command.verb } in
      let p = s.parser in
      let (requested, p') =
        add_event max_events (record p { upgrade_seen = true }) ProtocolEventType.upgrade_requested
          client_to_server line details in
      let s' =
        event max_events s ProtocolEventType.authentication_command client_to_server line details in
      if command.is_upgrade
      then record s { parser = record p' { requested_event = requested } }
      else if command.is_auth
      then record s' {
        parser = record_auth s'.parser client_to_server line command.verb command.mechanism;
      }
      else if eq_text command.verb quit
      then event max_events s ProtocolEventType.session_termination client_to_server line details
      else event max_events s ProtocolEventType.client_command client_to_server line details

  unfoldable pub note_verb : SmtpParser → StreamLine → List ℕ → Option Text → SmtpParser
  unfolding event note_command command_of
  note_verb s line remainder none =
      event max_events
        (record s { parser = record s.parser { foreign_lines = s.parser.foreign_lines + 1 } })
        ProtocolEventType.parse_desynchronised client_to_server line plain
  note_verb s line remainder (some verb) =
      let command = command_of line verb remainder in
      note_command
        (record s {
          parser = record s.parser {
            recognised_commands = s.parser.recognised_commands + 1;
            pending = s.parser.pending ++ (command ∷ []);
          };
        })
        line command

  -- A line of a SASL exchange is counted and discarded.
  unfoldable pub auth_continuation : SmtpParser → StreamLine → SmtpParser
  unfolding event
  auth_continuation s line =
      event max_events
        (record s {
          auth_continuations = s.auth_continuations + 1;
          awaiting_auth_continuation = false;
        })
        ProtocolEventType.authentication_continuation client_to_server line
        (record plain { byte_count = some (line.end_offset - line.start_offset) })

  -- _client_line
  unfoldable pub client_line : SmtpParser → StreamLine → SmtpParser
  unfolding data_body_line auth_continuation unusable note_verb
  client_line s line =
      let (token, remainder) = split_token line.content in
      if s.in_data_body
      then data_body_line s line
      else if s.awaiting_auth_continuation
      then auth_continuation s line
      else if not (usable line)
      then unusable max_events s client_to_server line
      else note_verb s line remainder (safe_verb token smtp_verbs)
