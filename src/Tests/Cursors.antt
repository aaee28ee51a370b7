-- ===== src/Tests/Cursors.antt =====
-- A cursor over two runs with a hole between them.
use securemailscope.Base.{false, [], ◌∷◌, none}
use securemailscope.Protocols.Buffer.{DirectionalBuffer}
use securemailscope.Protocols.Cursor.Cursors.{StreamCursor, advance, peek}
use securemailscope.Protocols.Cursor.Reading.{Delivers, IsCursor, advance-Delivers}
use securemailscope.Protocols.Dialogue.{DialogueDriver, InOrder, next, next-InOrder}

-- "AB\r\nC", a hole, "D\n"
abbrev two_runs : DirectionalBuffer
two_runs = record {
  runs = (0, 65 ∷ 66 ∷ 13 ∷ 10 ∷ 67 ∷ []) ∷ (9, 68 ∷ 10 ∷ []) ∷ [];
  segments = [];
  conflicts = [];
}

abbrev at_front : StreamCursor
at_front = record { offset = 0; run_index = 0; stopped = false; pending = none; warnings = [] }

at_front-IsCursor : IsCursor two_runs 100 at_front
at_front-IsCursor = record { kept = tt }

advance-Delivers_example : Delivers two_runs 100 (advance two_runs 100 at_front)
advance-Delivers_example = advance-Delivers two_runs 100 at_front at_front-IsCursor

-- The server side of the dialogue: "E\n".
abbrev one_run : DirectionalBuffer
one_run = record { runs = (0, 69 ∷ 10 ∷ []) ∷ []; segments = []; conflicts = [] }

abbrev both_at_front : DialogueDriver
both_at_front = record { client = at_front; server = at_front }

next-InOrder_example :
    InOrder two_runs one_run 100
      (peek two_runs 100 at_front).0
      (peek one_run 100 at_front).0
      (next two_runs one_run 100 both_at_front).0
next-InOrder_example = next-InOrder two_runs one_run 100 both_at_front
