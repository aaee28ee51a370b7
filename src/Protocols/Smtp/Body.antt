-- ===== src/Protocols/Smtp/Body.antt =====
-- A message body is never read as commands.
use securemailscope.Base.{ℕ, ◌≡◌, refl, ◌∙◌, Bool, true, false, ◌&&◌, List, [], ◌∷◌, All, arith}
use securemailscope.Protocols.Cursor.{StreamLine}
use securemailscope.Protocols.Parser.{warn}
use securemailscope.Protocols.Smtp.{SmtpParser, is_dot}
use securemailscope.Protocols.Smtp.Client.{data_body_line, client_line}

-- Nothing was noted of the lines: the parser is where it was, but for the count of bytes.
pub record IsSilent (s t : SmtpParser) : Type 0 where
  pub events : t.parser.events ≡ s.parser.events
  pub auth : t.parser.auth ≡ s.parser.auth
  pub pending : t.parser.pending ≡ s.parser.pending
  pub recognised : t.parser.recognised_commands ≡ s.parser.recognised_commands
  pub foreign : t.parser.foreign_lines ≡ s.parser.foreign_lines
  pub seen : t.parser.upgrade_seen ≡ s.parser.upgrade_seen
  pub requested : t.parser.requested_event ≡ s.parser.requested_event
  pub outcome : t.parser.upgrade_outcome ≡ s.parser.upgrade_outcome
  pub body : t.in_data_body ≡ true

-- The line that ends a body.
abbrev pub ends_body : StreamLine → Bool
ends_body line = line.complete && is_dot line.content

module _ (max_events max_message_body_bytes : ℕ) where
  unfoldable pub client_lines : SmtpParser → List StreamLine → SmtpParser
  client_lines s [] = s
  client_lines s (line ∷ lines) =
      client_lines (client_line max_events max_message_body_bytes s line) lines

  client_line-IsSilent :
      (s : SmtpParser) (line : StreamLine)
      → s.in_data_body ≡ true
      → ends_body line ≡ false
      → IsSilent s (client_line max_events max_message_body_bytes s line)
  unfolding client_line data_body_line warn
  client_line-IsSilent s line b e = ground arith

  -- In a message body, lines of the client that are not the terminator leave no trace, whatever they
  -- hold: no event, no command, no upgrade, no authentication.
  pub client_lines-IsSilent :
      (s : SmtpParser) (lines : List StreamLine)
      → s.in_data_body ≡ true
      → All (λ line. ends_body line ≡ false) lines
      → IsSilent s (client_lines s lines)
  unfolding client_lines
  client_lines-IsSilent s [] b e = record {
    events = refl;
    auth = refl;
    pending = refl;
    recognised = refl;
    foreign = refl;
    seen = refl;
    requested = refl;
    outcome = refl;
    body = b;
  }
  client_lines-IsSilent s (line ∷ lines) b e =
      let t = client_line max_events max_message_body_bytes s line in
      let one = client_line-IsSilent s line b e.0 in
      let rest = client_lines-IsSilent t lines one.body e.1 in
      record {
        events = rest.events ∙ one.events;
        auth = rest.auth ∙ one.auth;
        pending = rest.pending ∙ one.pending;
        recognised = rest.recognised ∙ one.recognised;
        foreign = rest.foreign ∙ one.foreign;
        seen = rest.seen ∙ one.seen;
        requested = rest.requested ∙ one.requested;
        outcome = rest.outcome ∙ one.outcome;
        body = rest.body;
      }
