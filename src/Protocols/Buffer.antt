-- ===== src/Protocols/Buffer.antt =====
-- protocols/reader.py: PacketIndex and DirectionalBuffer, the view over one direction's runs.
pub mod OneRun
use securemailscope.Base.{
  ℕ, suc, ◌+◌, ◌-◌, ◌≤◌, Bool, not, ◌&&◌, ◌||◌, List, [], ◌∷◌, Option, none, some, length, take,
  drop, any, ltb, leb, ◌==◌, if◌then◌else◌,
}
use securemailscope.Evidence.{PacketReference, add_ref}

-- What the index uses of models/tcp.py, ReassembledSegment.
pub record Segment : Type 0 where
  pub stream_offset : ℕ
  pub length_of : ℕ
  pub source : PacketReference

-- sorted(..., key=lambda s: (s.stream_offset, s.length)); Python's sort is stable.
le_segment : Segment → Segment → Bool
le_segment s t =
    ltb s.stream_offset t.stream_offset
    || (s.stream_offset == t.stream_offset && leb s.length_of t.length_of)

insert_segment : Segment → List Segment → List Segment
insert_segment s [] = s ∷ []
insert_segment s (t ∷ ts) = if le_segment s t then s ∷ t ∷ ts else t ∷ insert_segment s ts

unfoldable pub index_segments : List Segment → List Segment
unfolding insert_segment le_segment
index_segments [] = []
index_segments (s ∷ ss) = insert_segment s (index_segments ss)

-- bisect_right(starts, x) on starts that ascend.
unfoldable pub bisect_right : List Segment → ℕ → ℕ
bisect_right [] x = 0
bisect_right (s ∷ ss) x =
    let rest = suc (bisect_right ss x) in if leb s.stream_offset x then rest else 0

-- The `while` of `PacketIndex.refs` from one index on.
unfoldable pub refs_from : ℕ → ℕ → List Segment → List PacketReference → List PacketReference
refs_from start end [] seen = seen
refs_from start end (s ∷ ss) seen =
    let seen' = if ltb start (s.stream_offset + s.length_of) then add_ref s.source seen else seen in
    let rest = refs_from start end ss seen' in if leb end s.stream_offset then seen else rest

-- PacketIndex.refs on the ordered segments; `- 1` with 0 below is the `index < 0` test.
unfoldable pub packet_refs : List Segment → ℕ → ℕ → List PacketReference
unfolding bisect_right refs_from
packet_refs segments start end =
    let end' = if leb end start then start + 1 else end in
    refs_from start end' (drop (bisect_right segments start - 1) segments) []

pub record DirectionalBuffer : Type 0 where
  pub runs : List (ℕ × List ℕ)
  pub segments : List Segment
  pub conflicts : List (ℕ × ℕ)

unfoldable pub end_offset : List (ℕ × List ℕ) → ℕ
end_offset [] = 0
end_offset ((start, bytes) ∷ []) = start + length bytes
end_offset (run ∷ next ∷ runs) = end_offset (next ∷ runs)

-- The first run that holds the offset (`run_index_for` and the indexing behind it).
unfoldable pub run_for : List (ℕ × List ℕ) → ℕ → Option (ℕ × List ℕ)
run_for [] offset = none
run_for ((start, bytes) ∷ runs) offset =
    if leb start offset && ltb offset (start + length bytes)
    then some (start, bytes)
    else run_for runs offset

slice_run : Option (ℕ × List ℕ) → ℕ → ℕ → List ℕ
slice_run none offset n = []
slice_run (some (start, bytes)) offset n = take n (drop (offset - start) bytes)

unfoldable pub read : DirectionalBuffer → ℕ → ℕ → List ℕ
unfolding run_for slice_run
read b offset n = slice_run (run_for b.runs offset) offset n

unfoldable pub is_ambiguous : DirectionalBuffer → ℕ → ℕ → Bool
is_ambiguous b start end = any (λ c. not (leb c.1 start || leb end c.0)) b.conflicts

unfoldable pub refs : DirectionalBuffer → ℕ → ℕ → List PacketReference
unfolding packet_refs
refs b start end = packet_refs b.segments start end
