-- ===== src/Tests/Mail.antt =====
-- A short SMTP dialogue.
use securemailscope.Base.{ℕ, ◌≡◌, refl, ◌⊎◌, true, false, List, [], ◌∷◌, none, some, arith}
use securemailscope.Evidence.{server_to_client}
use securemailscope.Protocols.Buffer.{DirectionalBuffer}
use securemailscope.Protocols.Cursor.{StreamLine}
use securemailscope.Protocols.Cursor.Progress.{total_bytes}
use securemailscope.Protocols.Dialogue.{DirectedLine}
use securemailscope.Protocols.Parser as Parser
use securemailscope.Protocols.Parser.{accepted, usable, add_event}
use securemailscope.Protocols.Redaction.{safe_reply_code}
use securemailscope.Network.Flows.{eq_text}
use securemailscope.Protocols.Smtp.Server.{server_line}
use securemailscope.Protocols.Redaction.Keywords.{starttls}
use securemailscope.Protocols.Smtp as Smtp
use securemailscope.Protocols.Smtp.{SmtpParser, span_of}
use securemailscope.Protocols.Smtp.Run.{run, step}
use securemailscope.Protocols.Smtp.Body.{client_lines, IsSilent, client_lines-IsSilent}
use securemailscope.Protocols.Smtp.Finishes.{IsResult, run-IsResult}
use securemailscope.Protocols.Smtp.Accepts.{Accepts, step-Accepts}

-- "STARTTLS", and "220 go" for it
abbrev client : DirectionalBuffer
client = record {
  runs = (0, 83 ∷ 84 ∷ 65 ∷ 82 ∷ 84 ∷ 84 ∷ 76 ∷ 83 ∷ 13 ∷ 10 ∷ []) ∷ [];
  segments = [];
  conflicts = [];
}

abbrev server : DirectionalBuffer
server = record {
  runs = (0, 50 ∷ 50 ∷ 48 ∷ 32 ∷ 103 ∷ 111 ∷ 13 ∷ 10 ∷ []) ∷ [];
  segments = [];
  conflicts = [];
}

run-IsResult_example : IsResult (run client server 80 8 100 40)
unfolding total_bytes
run-IsResult_example = run-IsResult client server 80 8 100 40 (omega arith)

abbrev line : List ℕ → StreamLine
line content = record {
  start_offset = 0;
  end_offset = 8;
  content = content;
  terminator = 13 ∷ 10 ∷ [];
  complete = true;
  truncated = false;
  ambiguous = false;
  preceded_by_gap = false;
  gap_length = 0;
  packets = [];
}

abbrev asked : SmtpParser
asked = record Smtp.new {
  parser = record Parser.new {
    pending =
        (record {
          verb = starttls;
          line = line starttls;
          is_upgrade = true;
          is_auth = false;
          mechanism = none;
        })
        ∷ [];
  };
}

abbrev go : DirectedLine
go = record { line = line (50 ∷ 50 ∷ 48 ∷ 32 ∷ 103 ∷ 111 ∷ []); direction = server_to_client }

goes : (step 8 100 asked go).parser.upgrade_outcome ≡ some accepted
unfolding Smtp.new Parser.new step server_line usable safe_reply_code eq_text span_of add_event
goes = refl

step-Accepts_example :
    (asked.parser.upgrade_outcome ≡ some accepted) ⊎ Accepts 8 asked go (step 8 100 asked go)
step-Accepts_example = step-Accepts 8 100 asked go goes

abbrev in_body : SmtpParser
in_body = record Smtp.new { in_data_body = true }

client_lines-IsSilent_example : IsSilent in_body (client_lines 8 100 in_body (line starttls ∷ []))
unfolding Smtp.is_dot
client_lines-IsSilent_example =
    client_lines-IsSilent 8 100 in_body (line starttls ∷ []) refl (refl, tt)
