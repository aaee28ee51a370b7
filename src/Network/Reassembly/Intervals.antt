-- ===== src/Network/Reassembly/Intervals.antt =====
-- The interval store: runs of bytes, each of one packet, ordered by their first position.
pub mod Bytes
pub mod Insertion
pub mod Overlaps
use securemailscope.Base.{
  ℕ, suc, ◌+◌, ◌-◌, ◌&&◌, List, [], ◌∷◌, ◌++◌, Option, none, some, length, get_elem?, take, drop,
  ltb, if◌then◌else◌,
}
use securemailscope.Base.Int.{ℤ, pos, ◌+ℤ◌, ltb_ℤ}
use securemailscope.Evidence.{PacketReference}

-- _Interval; `start` is an extended sequence number.
pub record Interval : Type 0 where
  pub start : ℤ
  pub bytes : List ℕ
  pub packet : PacketReference
  pub duplicates : List PacketReference

abbrev pub end_of : Interval → ℤ
end_of iv = iv.start +ℤ pos (length iv.bytes)

-- bisect_left(self._starts, x) on starts that ascend.
unfoldable pub bisect_left : List Interval → ℤ → ℕ
bisect_left [] x = 0
bisect_left (iv ∷ ivs) x =
    let rest = suc (bisect_left ivs x) in if ltb_ℤ iv.start x then rest else 0

-- The step back to the interval in front, if it reaches past `start`.
unfoldable pub step_back : ℕ → Option Interval → ℤ → ℕ
step_back index none start = index
step_back index (some iv) start = if ltb_ℤ start (end_of iv) then index - 1 else index

unfoldable pub first_index : List Interval → ℤ → ℕ
unfolding bisect_left step_back
first_index ivs start =
    let index = bisect_left ivs start in
    if ltb 0 index then step_back index (get_elem? ivs (index - 1)) start else index

-- The `while` of `_overlapping`, from one interval on.
unfoldable pub scan : List Interval → ℤ → ℤ → List Interval
scan [] start end = []
scan (iv ∷ ivs) start end =
    let rest = scan ivs start end in
    if ltb_ℤ iv.start end then (if ltb_ℤ start (end_of iv) then iv ∷ rest else rest) else []

unfoldable pub overlapping : List Interval → ℤ → ℤ → List Interval
unfolding first_index scan
overlapping ivs start end = scan (drop (first_index ivs start) ivs) start end

-- _insert_interval: `insert` at the index that bisect_left gives.
unfoldable pub insert_interval : Interval → List Interval → List Interval
unfolding bisect_left
insert_interval iv ivs =
    let index = bisect_left ivs iv.start in take index ivs ++ (iv ∷ drop index ivs)
