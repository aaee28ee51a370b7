-- ===== src/Protocols/Smtp/Run.antt =====
-- protocols/smtp.py: `run`, which takes the lines of both sides in the order of capture.
use securemailscope.Base.{
  ℕ, zero, suc, Bool, true, false, ◌&&◌, ◌||◌, not, Option, none, some, length, ltb, ◌==◌,
  if◌then◌else◌,
}
use securemailscope.Evidence.{Direction, client_to_server, server_to_client}
use securemailscope.Protocols.Cursor.{StreamLine}
use securemailscope.Protocols.Parser.{
  ParseState, not_applicable, incomplete, indeterminate, complete, handed_off_to_tls, note_gap,
  halt_plaintext,
}
use securemailscope.Protocols.Smtp.{SmtpParser}
use securemailscope.Protocols.Buffer.{DirectionalBuffer}
use securemailscope.Protocols.Cursor.Cursors.{cursor}
use securemailscope.Protocols.Dialogue.{DialogueDriver, DirectedLine, next}
use securemailscope.Protocols.Smtp as Smtp
use securemailscope.Protocols.Smtp.Client.{client_line}
use securemailscope.Protocols.Smtp.Server.{server_line}

module _ (max_events max_message_body_bytes : ℕ) where
  unfoldable pub line_step : SmtpParser → Direction → StreamLine → SmtpParser
  line_step s client_to_server line = client_line max_events max_message_body_bytes s line
  line_step s server_to_client line = server_line max_events s line

  -- A line of the dialogue, behind what a hole in front of it does.
  unfoldable pub step : SmtpParser → DirectedLine → SmtpParser
  unfolding line_step
  step s item =
      let gapped = record s { parser = note_gap max_events s.parser item.direction item.line } in
      line_step (if item.line.preceded_by_gap then gapped else s) item.direction item.line

unfoldable pub is_indeterminate : ParseState → Bool
is_indeterminate indeterminate = true
is_indeterminate _ = false

-- The loop ends when the parser has handed off or given up.
unfoldable pub stops : SmtpParser → Bool
unfolding is_indeterminate
stops s = s.halt || is_indeterminate s.parser.state

-- _resting_state
unfoldable pub resting_state : SmtpParser → ParseState
resting_state s =
    let p = s.parser in
    let waiting = ltb 0 (length p.pending) || (s.in_data_body || ltb 0 (length s.reply_lines)) in
    if not p.greeting_observed && p.recognised_commands == 0
    then not_applicable
    else if p.gap_seen || waiting
    then incomplete
    else complete

-- The state that `run` ends with, behind its loop.
unfoldable pub final : SmtpParser → SmtpParser
unfolding resting_state is_indeterminate
final s =
    let rest = record s { parser = record s.parser { state = resting_state s } } in
    if s.halt
    then record s { parser = record (halt_plaintext s.parser) { state = handed_off_to_tls } }
    else if is_indeterminate s.parser.state
    then s
    else rest

module _ (client server : DirectionalBuffer)
    (max_line_bytes max_events max_message_body_bytes : ℕ) where
  -- The loop of `run`; `none` is out of fuel.
  unfoldable pub run_from : ℕ → SmtpParser → DialogueDriver → Option SmtpParser
  unfolding step stops
  run_from zero s d = none
  run_from (suc fuel) s d =
      let (item, d') = next client server max_line_bytes d in
      if stops s then some s else elim item [
        | none ↦ some s
        | some line ↦ run_from fuel (step max_events max_message_body_bytes s line) d'
      ]

  unfoldable pub finished : Option SmtpParser → Option SmtpParser
  unfolding final
  finished none = none
  finished (some s) = some (final s)

  unfoldable pub driver : DialogueDriver
  driver = record { client = cursor client max_line_bytes; server = cursor server max_line_bytes }

  -- run
  unfoldable pub run : ℕ → Option SmtpParser
  unfolding run_from driver finished
  run fuel = finished (run_from fuel Smtp.new driver)
