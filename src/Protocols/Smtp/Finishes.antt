-- ===== src/Protocols/Smtp/Finishes.antt =====
-- `run` finishes: each round of its loop reads a line.
use securemailscope.Base.{
  ℕ, zero, suc, ◌+◌, ◌≤◌, ◌<◌, ◌≡◌, refl, ap, Option, none, some, arith, if_intro,
}
use securemailscope.Protocols.Buffer.{DirectionalBuffer}
use securemailscope.Protocols.Cursor.Progress.{total_bytes, cursor-rank}
use securemailscope.Protocols.Dialogue.{DialogueDriver, DirectedLine, next}
use securemailscope.Protocols.Dialogue.Progress.{driver_rank, Moves, next-Moves}
use securemailscope.Protocols.Smtp as Smtp
use securemailscope.Protocols.Smtp.{SmtpParser}
use securemailscope.Protocols.Smtp.Run.{step, stops, final, finished, run_from, run, driver}

-- There is a result.
abbrev pub IsResult : Option SmtpParser → Type 0
IsResult o = (s : SmtpParser) × (o ≡ some s)

module _ (client server : DirectionalBuffer)
    (max_line_bytes max_events max_message_body_bytes : ℕ) where
  run_from-IsResult :
      (fuel : ℕ) (s : SmtpParser) (d : DialogueDriver)
      → driver_rank client server max_line_bytes d < fuel
      → IsResult (run_from client server max_line_bytes max_events max_message_body_bytes fuel s d)
  unfolding run_from
  run_from-IsResult zero s d h = absurd (omega arith)
  run_from-IsResult (suc fuel) s d h =
      let (item, d') = next client server max_line_bytes d in
      if_intro IsResult (stops s) (λ _. (s, refl))
        (λ _.
          on_item item d' (next-Moves client server max_line_bytes d)
            (λ t e. run_from-IsResult fuel t d' (omega arith)))
    where
      on_item :
          (item : Option DirectedLine) (d' : DialogueDriver)
          → Moves client server max_line_bytes
              (driver_rank client server max_line_bytes d)
              (item, d')
          → ((t : SmtpParser)
              → driver_rank client server max_line_bytes d'
                < driver_rank client server max_line_bytes d
              → IsResult (
                  run_from client server max_line_bytes max_events max_message_body_bytes fuel t
                    d'))
          → IsResult (elim item [
            | none ↦ some s
            | some line ↦
                run_from client server max_line_bytes max_events max_message_body_bytes fuel
                  (step max_events max_message_body_bytes s line)
                  d'
          ])
      on_item none d' m again = (s, refl)
      on_item (some line) d' m again = again (step max_events max_message_body_bytes s line) m

  driver-driver_rank :
      driver_rank client server max_line_bytes
        (driver client server max_line_bytes max_events max_message_body_bytes)
      ≤ total_bytes client.runs + total_bytes server.runs
  unfolding driver driver_rank
  driver-driver_rank =
      omega (arith, cursor-rank client max_line_bytes, cursor-rank server max_line_bytes)

  -- With more rounds than the two directions hold bytes, parsing comes to an end.
  pub run-IsResult :
      (fuel : ℕ)
      → total_bytes client.runs + total_bytes server.runs < fuel
      → IsResult (run client server max_line_bytes max_events max_message_body_bytes fuel)
  unfolding run finished
  run-IsResult fuel h =
      let (s, e) =
        run_from-IsResult fuel Smtp.new
          (driver client server max_line_bytes max_events max_message_body_bytes)
          (omega (arith, h, driver-driver_rank)) in
      (final s, ap (finished client server max_line_bytes max_events max_message_body_bytes) e)
