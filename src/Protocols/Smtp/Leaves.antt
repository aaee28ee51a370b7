-- ===== src/Protocols/Smtp/Leaves.antt =====
-- The steps of the SMTP parser that leave the outcome of STARTTLS as it is.
use securemailscope.Base.{
  ℕ, ◌≡◌, ◌∙◌, true, ◌||◌, not, List, [], Option, none, some, length, drop, ltb, arith, if_intro,
  if◌then◌else◌,
}
use securemailscope.Evidence.{Direction, client_to_server, server_to_client}
use securemailscope.Network.Flows.{Text, eq_text}
use securemailscope.Protocols.Cursor.{StreamLine}
use securemailscope.Protocols.Redaction.{safe_verb, split_token, is_in}
use securemailscope.Protocols.Redaction.Keywords.{smtp_verbs, starttls, ehlo, helo}
use securemailscope.Protocols.Parser.{
  ProtocolEventType, Outcome, Details, plain, PendingCommand, ProtocolParser, usable, warn,
  suppress, add_event, record_event, note_gap, drop_pending, mark_negotiation_unsafe, record_auth,
  note_continuations,
}
use securemailscope.Protocols.Smtp.{
  SmtpParser, with_code, command_of, extract_capabilities, advertising, event, unusable,
}
use securemailscope.Protocols.Smtp.Client.{
  data_body_line, note_command, note_verb, auth_continuation, client_line,
}
use securemailscope.Protocols.Smtp.Server.{
  finish_auth, advertise, record_capabilities, unmatched_reply, ordinary_reply, foreign_reply,
}

-- What `resolve_upgrade` alone changes.
pub record Leaves (s t : SmtpParser) : Type 0 where
  pub outcome : t.parser.upgrade_outcome ≡ s.parser.upgrade_outcome
  pub halt : t.halt ≡ s.halt

abbrev pub outcome_of : ProtocolParser → Option Outcome
outcome_of p = p.upgrade_outcome

module _ (max_events : ℕ) where
  pub add_event-outcome :
      (p : ProtocolParser) (kind : ProtocolEventType) (d : Direction) (line : StreamLine)
      (details : Details)
      → outcome_of (add_event max_events p kind d line details).1 ≡ outcome_of p
  unfolding add_event suppress warn
  add_event-outcome p kind d line details = ground arith

  pub record_event-outcome :
      (p : ProtocolParser) (kind : ProtocolEventType) (d : Direction) (line : StreamLine)
      (details : Details)
      → outcome_of (record_event max_events p kind d line details) ≡ outcome_of p
  unfolding record_event
  record_event-outcome p kind d line details = add_event-outcome p kind d line details

  pub unusable-Leaves :
      (s : SmtpParser) (d : Direction) (line : StreamLine) → Leaves s (unusable max_events s d line)
  unfolding unusable event record_event add_event suppress warn mark_negotiation_unsafe
  unusable-Leaves s d line = ground arith

  pub data_body_line-Leaves :
      (max_message_body_bytes : ℕ) (s : SmtpParser) (line : StreamLine)
      → Leaves s (data_body_line max_events max_message_body_bytes s line)
  unfolding data_body_line event record_event add_event suppress warn
  data_body_line-Leaves max_message_body_bytes s line = ground arith

  pub note_command-Leaves :
      (m : ℕ) (s : SmtpParser) (line : StreamLine) (command : PendingCommand)
      → Leaves s (note_command max_events m s line command)
  unfolding note_command event record_event add_event suppress warn record_auth
  note_command-Leaves m s line command = ground arith

  pub note_verb-Leaves :
      (m : ℕ) (s : SmtpParser) (line : StreamLine) (remainder : List ℕ) (verb : Option Text)
      → Leaves s (note_verb max_events m s line remainder verb)
  unfolding note_verb event record_event add_event suppress warn
  note_verb-Leaves m s line remainder none = ground arith
  note_verb-Leaves m s line remainder (some verb) =
      let l = note_command-Leaves m _ line (command_of line verb remainder) in
      record { outcome = l.outcome; halt = l.halt }

  pub client_line-Leaves :
      (m : ℕ) (s : SmtpParser) (line : StreamLine) → Leaves s (client_line max_events m s line)
  unfolding client_line auth_continuation event record_event add_event suppress warn
  client_line-Leaves m s line =
      let (token, remainder) = split_token line.content in
      if_intro (Leaves s) s.in_data_body (λ _. data_body_line-Leaves m s line)
        (λ _.
          if_intro (Leaves s) s.awaiting_auth_continuation (λ _. ground arith)
            (λ _.
              if_intro (Leaves s) (not (usable line)) (λ _. unusable-Leaves s client_to_server line)
                (λ _. note_verb-Leaves m s line remainder (safe_verb token smtp_verbs))))

  pub advertise-Leaves :
      (s : SmtpParser) (o : Option StreamLine) → Leaves s (advertise max_events s o)
  unfolding advertise add_event suppress warn
  advertise-Leaves s none = ground arith
  advertise-Leaves s (some line) = ground arith

  pub record_capabilities-Leaves :
      (s : SmtpParser) (span : StreamLine) (lines : List StreamLine) (capabilities : List Text)
      → Leaves s (record_capabilities max_events s span lines capabilities)
  unfolding record_capabilities event record_event add_event suppress warn
  record_capabilities-Leaves s span lines capabilities =
      let details = record plain { capabilities = capabilities } in
      let s' =
        event max_events s ProtocolEventType.capability_advertisement server_to_client span
          details in
      let kept : Leaves s s' = ground arith in
      if_intro (Leaves s) (is_in starttls capabilities)
        (λ _.
          let l =
            advertise-Leaves (record s' { parser = record s'.parser { upgrade_seen = true } })
              (advertising starttls (drop 1 lines)) in
          record { outcome = l.outcome ∙ kept.outcome; halt = l.halt ∙ kept.halt })
        (λ _. kept)

  pub ordinary_reply-Leaves :
      (s : SmtpParser) (span : StreamLine) (lines : List StreamLine) (code : Text)
      (command : PendingCommand)
      → Leaves s (ordinary_reply max_events s span lines code command)
  unfolding ordinary_reply event record_event add_event suppress warn
  ordinary_reply-Leaves s span lines code command =
      let greets = eq_text command.verb ehlo || eq_text command.verb helo in
      let capabilities = if greets then extract_capabilities lines else [] in
      let details = record (with_code code) {
        command_verb = some command.verb;
        capabilities = capabilities;
      } in
      let s' = event max_events s ProtocolEventType.server_reply server_to_client span details in
      let kept : Leaves s s' = ground arith in
      if_intro (Leaves s) (ltb 0 (length capabilities))
        (λ _.
          let l = record_capabilities-Leaves s' span lines capabilities in
          record { outcome = l.outcome ∙ kept.outcome; halt = l.halt ∙ kept.halt })
        (λ _. kept)

  pub unmatched_reply-Leaves :
      (s : SmtpParser) (span : StreamLine) (code : Text)
      → Leaves s (unmatched_reply max_events s span code)
  unfolding unmatched_reply event record_event add_event suppress warn
  unmatched_reply-Leaves s span code = ground arith

  pub finish_auth-Leaves :
      (s : SmtpParser) (span : StreamLine) (code : Text)
      → Leaves s (finish_auth max_events s span code)
  unfolding finish_auth event record_event add_event suppress warn note_continuations
  finish_auth-Leaves s span code = ground arith

  pub foreign_reply-Leaves :
      (s : SmtpParser) (line : StreamLine) (code : Option Text)
      → Leaves s (foreign_reply max_events s line code)
  unfolding foreign_reply event record_event add_event suppress warn
  foreign_reply-Leaves s line code = ground arith

  pub note_gap-outcome :
      (p : ProtocolParser) (d : Direction) (line : StreamLine)
      → (outcome_of (note_gap max_events p d line) ≡ outcome_of p)
        × ((note_gap max_events p d line).pending ≡ [])
  unfolding note_gap drop_pending record_event add_event suppress warn
  note_gap-outcome p d line = ground arith
