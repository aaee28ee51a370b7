-- ===== src/Protocols/Dialogue/Progress.antt =====
-- The dialogue driver runs out: each line that it delivers takes bytes from one of the directions.
use securemailscope.Base.{ℕ, ◌+◌, ◌≤◌, ◌<◌, Option, none, some, arith}
use securemailscope.Evidence.{Direction, client_to_server, server_to_client}
use securemailscope.Protocols.Buffer.{DirectionalBuffer}
use securemailscope.Protocols.Cursor.{StreamLine}
use securemailscope.Protocols.Cursor.Cursors.{StreamCursor, peek, advance}
use securemailscope.Protocols.Cursor.Progress.{rank, Spends, peek-rank, advance-Spends}
use securemailscope.Protocols.Dialogue.{
  DialogueDriver, DirectedLine, choose, directed, take_from, next,
}

module _ (client server : DirectionalBuffer) (max_line_bytes : ℕ) where
  unfoldable pub driver_rank : DialogueDriver → ℕ
  driver_rank d = rank client max_line_bytes d.client + rank server max_line_bytes d.server

  abbrev pub Moves : ℕ → Option DirectedLine × DialogueDriver → Type 0
  Moves n (none, d) = Unit
  Moves n (some line, d) = driver_rank d < n

  from_client :
      (d : DialogueDriver) (n : ℕ) (r : Option StreamLine × StreamCursor)
      → rank client max_line_bytes d.client + rank server max_line_bytes d.server ≤ n
      → Spends client max_line_bytes (rank client max_line_bytes d.client) r
      → Moves n (directed client_to_server r.0, record d { client = r.1 })
  unfolding driver_rank directed
  from_client d n (none, c) h s = tt
  from_client d n (some line, c) h s = omega (arith, h, s)

  from_server :
      (d : DialogueDriver) (n : ℕ) (r : Option StreamLine × StreamCursor)
      → rank client max_line_bytes d.client + rank server max_line_bytes d.server ≤ n
      → Spends server max_line_bytes (rank server max_line_bytes d.server) r
      → Moves n (directed server_to_client r.0, record d { server = r.1 })
  unfolding driver_rank directed
  from_server d n (none, c) h s = tt
  from_server d n (some line, c) h s = omega (arith, h, s)

  take_from-Moves :
      (o : Option Direction) (d : DialogueDriver) (n : ℕ)
      → rank client max_line_bytes d.client + rank server max_line_bytes d.server ≤ n
      → Moves n (take_from client server max_line_bytes o d)
  unfolding take_from
  take_from-Moves none d n h = tt
  take_from-Moves (some client_to_server) d n h =
      from_client d n (advance client max_line_bytes d.client) h
        (advance-Spends client max_line_bytes d.client)
  take_from-Moves (some server_to_client) d n h =
      from_server d n (advance server max_line_bytes d.server) h
        (advance-Spends server max_line_bytes d.server)

  pub next-Moves :
      (d : DialogueDriver) → Moves (driver_rank d) (next client server max_line_bytes d)
  unfolding next driver_rank
  next-Moves d =
      let (c, client') = peek client max_line_bytes d.client in
      let (s, server') = peek server max_line_bytes d.server in
      take_from-Moves (choose c s) (record { client = client'; server = server' }) _
        (omega (
          arith,
          peek-rank client max_line_bytes d.client,
          peek-rank server max_line_bytes d.server,
        ))
