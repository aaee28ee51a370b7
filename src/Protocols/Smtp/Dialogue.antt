-- ===== src/Protocols/Smtp/Dialogue.antt =====
-- What holds of the parser through a whole dialogue.
use securemailscope.Base.{Option, none, some}
use securemailscope.Protocols.Parser as Parser
use securemailscope.Protocols.Smtp as Smtp
use securemailscope.Protocols.Smtp.{SmtpParser}

-- What holds of a result that is there.
abbrev pub OfResult {ℓ} : (SmtpParser → Type ℓ) → Option SmtpParser → Type ℓ
OfResult P none = Unit
OfResult P (some s) = P s
