-- ===== src/Tests/Numbers.antt =====
-- Sequence numbers across the wrap, budgets, flow keys and record headers.
use securemailscope.Base.{◌≡◌, ◌↔◌, true, [], ◌∷◌, some, arith}
use securemailscope.Base.Int.{pos, ◌+ℤ◌}
use securemailscope.Network.SequenceSpace.{SequenceSpace, new, project, to_sequence}
use securemailscope.Network.SequenceSpace.Projection.{new-IsAnchored, project-to_sequence}
use securemailscope.Network.ByteBudget as Budget
use securemailscope.Network.ByteBudget.Grants.{take_all_lem}
use securemailscope.Network.Flows.{Endpoint}
use securemailscope.Protocols.Framing.{handshake, RecordHeader, classify_record_header}
use securemailscope.Protocols.Framing.Headers.{IsHeader, classify_record_header_iff}

-- A space whose base is near the wrap.
abbrev near_wrap : SequenceSpace
near_wrap = new 4294967290

project-to_sequence_example : project near_wrap (to_sequence near_wrap (pos 10)) ≡ pos 10
unfolding new ◌+ℤ◌
project-to_sequence_example =
    project-to_sequence near_wrap (pos 10) (new-IsAnchored 4294967290) (omega arith) (omega arith)

take_all_lem_example :
    ((Budget.take_all (Budget.new 10) (4 ∷ 9 ∷ [])).0 ≡ 10)
    × ((Budget.take_all (Budget.new 10) (4 ∷ 9 ∷ [])).1.used ≡ 10)
    × ((Budget.take_all (Budget.new 10) (4 ∷ 9 ∷ [])).1.limit ≡ 10)
    × ((Budget.take_all (Budget.new 10) (4 ∷ 9 ∷ [])).1.exceeded ≡ true)
take_all_lem_example = take_all_lem (Budget.new 10) (4 ∷ 9 ∷ []) (omega arith)

abbrev client : Endpoint
client = record { ip = 49 ∷ []; port = 40000 }

abbrev server : Endpoint
server = record { ip = 50 ∷ []; port = 25 }

abbrev header : RecordHeader
header = record { content_type = 22; name = handshake; minor = 3; declared = 260 }

classify_record_header_iff_example :
    (classify_record_header (22 ∷ 3 ∷ 3 ∷ 1 ∷ 4 ∷ []) ≡ some header)
    ↔ IsHeader (22 ∷ 3 ∷ 3 ∷ 1 ∷ 4 ∷ []) header
classify_record_header_iff_example = classify_record_header_iff (22 ∷ 3 ∷ 3 ∷ 1 ∷ 4 ∷ []) header
