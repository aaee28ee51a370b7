-- ===== src/Protocols/Smtp.antt =====
-- protocols/smtp.py: SMTPParser, its state and what both sides of the dialogue use.
pub mod Client
pub mod Server
pub mod Run
pub mod Redacted
pub mod RedactedUpgrade
pub mod RedactedReplies
pub mod Dialogue
pub mod Finishes
pub mod Body
pub mod Leaves
pub mod Accepts
use securemailscope.Base.{
  ℕ, ◌+◌, ◌-◌, Bool, false, ◌&&◌, ◌||◌, List, [], ◌∷◌, ◌++◌, Option, none, some, length, any, drop,
  leb, ◌==◌, if◌then◌else◌,
}
use securemailscope.Evidence.{Direction, EvidenceStatus}
use securemailscope.Network.Flows.{Text, eq_text}
use securemailscope.Protocols.Cursor.{StreamLine, merge_span}
use securemailscope.Protocols.Redaction.{safe_mechanism, safe_capability, split_token}
use securemailscope.Protocols.Redaction.Keywords.{starttls, auth}
use securemailscope.Protocols.Parser.{
  ProtocolEventType, Details, plain, PendingCommand, ProtocolParser, is_some, record_event,
  mark_negotiation_unsafe,
}
use securemailscope.Protocols.Parser as Parser

pub record SmtpParser : Type 0 where
  pub parser : ProtocolParser
  pub reply_lines : List StreamLine
  pub in_data_body : Bool
  pub data_bytes : ℕ
  pub awaiting_auth_continuation : Bool
  pub auth_continuations : ℕ
  pub halt : Bool

unfoldable pub new : SmtpParser
new = record {
  parser = Parser.new;
  reply_lines = [];
  in_data_body = false;
  data_bytes = 0;
  awaiting_auth_continuation = false;
  auth_continuations = 0;
  halt = false;
}

-- "220", "554", "454", "354", "334"
abbrev pub code_220 : Text
code_220 = 50 ∷ 50 ∷ 48 ∷ []

abbrev pub code_554 : Text
code_554 = 53 ∷ 53 ∷ 52 ∷ []

abbrev pub code_454 : Text
code_454 = 52 ∷ 53 ∷ 52 ∷ []

abbrev pub code_354 : Text
code_354 = 51 ∷ 53 ∷ 52 ∷ []

abbrev pub code_334 : Text
code_334 = 51 ∷ 51 ∷ 52 ∷ []

-- code.startswith(c)
unfoldable pub starts_with : ℕ → Text → Bool
starts_with c [] = false
starts_with c (x ∷ xs) = x == c

abbrev pub with_code : Text → Details
with_code code = record plain { reply_code = some code }

-- line.content == b"."
unfoldable pub is_dot : List ℕ → Bool
is_dot (c ∷ []) = c == 46
is_dot _ = false

-- The pending command that a verb makes.
unfoldable pub command_of : StreamLine → Text → List ℕ → PendingCommand
command_of line verb remainder =
    let is_auth = eq_text verb auth in
    record {
      verb = verb;
      line = line;
      is_upgrade = eq_text verb starttls;
      is_auth = is_auth;
      mechanism = if is_auth then safe_mechanism (split_token remainder).0 else none;
    }

-- The keywords of an EHLO reply, 64 at most, and whether there was one.
unfoldable pub keyword_of : StreamLine → Option Text
keyword_of line = safe_capability (split_token (drop 4 line.content)).0

unfoldable pub add_keyword : Option Text → List Text → List Text
add_keyword none found = found
add_keyword (some keyword) found = found ++ (keyword ∷ [])

unfoldable pub capabilities_from : List Text → List StreamLine → List Text
unfolding keyword_of add_keyword
capabilities_from found [] = found
capabilities_from found (line ∷ lines) =
    let found' = add_keyword (keyword_of line) found in
    let rest = capabilities_from found' lines in if leb 64 (length found') then found' else rest

-- _extract_capabilities; the first line of a reply holds the server's name.
unfoldable pub extract_capabilities : List StreamLine → List Text
unfolding capabilities_from
extract_capabilities lines = capabilities_from [] (drop 1 lines)

is_keyword : Text → Option Text → Bool
is_keyword keyword none = false
is_keyword keyword (some k) = eq_text k keyword

-- The first line that advertises a keyword.
unfoldable pub advertising : Text → List StreamLine → Option StreamLine
unfolding is_keyword keyword_of
advertising keyword [] = none
advertising keyword (line ∷ lines) =
    if is_keyword keyword (keyword_of line) then some line else advertising keyword lines

unfoldable pub span_of : List StreamLine → Option StreamLine
span_of [] = none
span_of (line ∷ lines) = some (merge_span line lines)

module _ (max_events : ℕ) where
  -- The event and the state for a parser with an event added.
  unfoldable pub event :
      SmtpParser → ProtocolEventType → Direction → StreamLine → Details → SmtpParser
  event s event_type direction line details = record s {
    parser = record_event max_events s.parser event_type direction line details;
  }

  -- _unusable
  unfoldable pub unusable : SmtpParser → Direction → StreamLine → SmtpParser
  unfolding event
  unusable s direction line =
      let p = s.parser in
      let unsafe = any (λ c. c.is_upgrade) p.pending || is_some p.requested_event in
      event (record s { parser = if unsafe then mark_negotiation_unsafe p else p })
        ProtocolEventType.incomplete_record direction line
        (record plain { status = EvidenceStatus.unknown })
