-- ===== src/Tests/Stores.antt =====
-- A store of one interval, and a later packet that claims some of its positions.
use securemailscope.Base.{
  ℕ, ◌≡◌, ◌≢◌, refl, false, List, [], ◌∷◌, none, some, map, length, ◌⊎◌, arith, inl, inr,
}
use securemailscope.Base.Int.{pos, ◌+ℤ◌, ◌-ℤ◌, ◌≤ℤ◌, ◌<ℤ◌}
use securemailscope.Evidence.{PacketReference}
use securemailscope.Network.ByteBudget as Budget
use securemailscope.Network.Reassembly.Intervals.{Interval}
use securemailscope.Network.Reassembly.Intervals.Bytes.{byte_at, IsOrdered}
use securemailscope.Network.Reassembly.Directional.{DirectionalReassembler, ParsedPacket}
use securemailscope.Network.Reassembly.Directional.Insert.{insert}
use securemailscope.Network.Reassembly.Directional.Held.{
  insert-first_observed_wins, insert-new_byte,
}
use securemailscope.Network.Reassembly.Directional.Results.{
  base_ext, lowest_of, payload_runs, build_gaps, gaps_from, last_gap, add_gap, claimed, last_end,
  latest_end,
}
use securemailscope.Network.Reassembly.Directional.Finalize.{finalize}
use securemailscope.Network.Reassembly.Directional.Reported.{
  reported, described, finalize-payload_runs,
}
use securemailscope.Network.Reassembly.Directional.Joins.{run_byte, AreApart}
use securemailscope.Network.Reassembly.Directional.Runs.{
  run_byte-payload_runs, payload_runs-AreApart,
}
use securemailscope.Network.Reassembly.Directional.Packets.{
  IsStore, observe_all, observe_all-IsStore,
}
use securemailscope.Network.Reassembly.Directional.Gaps.{InGaps, build_gaps_sound}
use securemailscope.Network.Reassembly.Directional.Covered.{build_gaps_complete}

abbrev first : PacketReference
first = record { packet_number = 1; timestamp_ns = 0 }

abbrev second : PacketReference
second = record { packet_number = 2; timestamp_ns = 5 }

abbrev stored : Interval
stored = record { start = pos 1; bytes = 10 ∷ 20 ∷ 30 ∷ []; packet = first; duplicates = [] }

abbrev behind : Interval
behind = record { start = pos 6; bytes = 60 ∷ []; packet = first; duplicates = [] }

abbrev holding : List Interval → DirectionalReassembler
holding intervals = record {
  space = none;
  syn_ext = some (pos 0);
  intervals = intervals;
  signatures = [];
  conflicts = [];
  segments = [];
  limit_dropped = [];
  not_captured = (pos 7, pos 9) ∷ [];
  packet_count = 1;
  payload_packet_count = 1;
  retransmission_count = 0;
  duplicate_count = 0;
  out_of_order_count = 0;
  dropped_by_limit_count = 0;
  fin_observed = false;
  raised = false;
  rst_observed = false;
  snapshot_truncated_count = 0;
  max_end_ext = some (pos 4);
  peer_ack_ext = none;
  first_packet = some first;
  last_packet = some first;
  limits = record {
    session_budget = Budget.new 100;
    global_budget = Budget.new 100;
    truncated_by_limit = false;
    warnings = [];
  };
}

abbrev two_intervals : DirectionalReassembler
two_intervals = holding (stored ∷ behind ∷ [])

abbrev packet : ParsedPacket
packet = record {
  seq = 3;
  syn = false;
  fin = false;
  rst = false;
  payload = 99 ∷ 40 ∷ 50 ∷ [];
  payload_truncated = false;
  declared_payload_length = 3;
  frame_digest = 7 ∷ [];
}

abbrev same : List ℕ → List ℕ
same bytes = bytes

in_order : IsOrdered (pos 0) (stored ∷ behind ∷ [])
unfolding ◌+ℤ◌
in_order = (omega arith, omega arith, (omega arith, omega arith, tt))

held_3 : byte_at (stored ∷ behind ∷ []) (pos 3) ≡ some 30
unfolding byte_at ◌+ℤ◌
held_3 = refl

insert-first_observed_wins_example :
    byte_at (insert same same 8 two_intervals (pos 3) packet second).intervals (pos 3) ≡ some 30
insert-first_observed_wins_example =
    insert-first_observed_wins same same 8 two_intervals (pos 3) packet second (pos 0) (pos 3) 30
      in_order held_3

free_4 : byte_at (stored ∷ behind ∷ []) (pos 4) ≡ none
unfolding byte_at ◌+ℤ◌
free_4 = refl

insert-new_byte_example :
    (byte_at (insert same same 8 two_intervals (pos 3) packet second).intervals (pos 4) ≡ none)
    ⊎ ((pos 3 ≤ℤ pos 4)
        × (pos 4 <ℤ (pos 3 +ℤ pos 3))
        × (byte_at (insert same same 8 two_intervals (pos 3) packet second).intervals (pos 4)
            ≡ some 40))
insert-new_byte_example =
    insert-new_byte same same 8 two_intervals (pos 3) packet second (pos 0) (pos 4) in_order free_4

based : base_ext two_intervals ≡ some (pos 1)
unfolding base_ext lowest_of ◌+ℤ◌
based = refl

run_byte-payload_runs_example :
    run_byte (payload_runs two_intervals) (pos 3 -ℤ pos 1) ≡ byte_at (stored ∷ behind ∷ []) (pos 3)
run_byte-payload_runs_example =
    run_byte-payload_runs two_intervals (pos 1) (pos 0) (pos 3) in_order based

payload_runs-AreApart_example : AreApart ((pos 0 -ℤ pos 1) -ℤ pos 1) (payload_runs two_intervals)
payload_runs-AreApart_example = payload_runs-AreApart two_intervals (pos 1) (pos 0) in_order based

is_held : byte_at (stored ∷ behind ∷ []) (pos 3) ≢ none
is_held e = absurd (cc (e, held_3))

build_gaps_sound_example : ¬ InGaps (pos 1) (pos 3) (build_gaps two_intervals 8 (pos 1))
build_gaps_sound_example = build_gaps_sound two_intervals 8 (pos 1) (pos 0) (pos 3) in_order is_held

few_gaps : length (build_gaps two_intervals 8 (pos 1)) ≡ 2
unfolding build_gaps gaps_from last_gap add_gap claimed last_end latest_end ◌+ℤ◌
few_gaps = refl

build_gaps_complete_example :
    (byte_at (stored ∷ behind ∷ []) (pos 8) ≢ none)
    ⊎ InGaps (pos 1) (pos 8) (build_gaps two_intervals 8 (pos 1))
build_gaps_complete_example =
    build_gaps_complete two_intervals 8 (pos 1) (pos 0) (pos 8) stored (behind ∷ []) refl in_order
      (omega (arith, few_gaps)) (omega arith) (inr (inl (inl (omega arith))))

two_intervals-IsStore : IsStore (stored ∷ behind ∷ [])
two_intervals-IsStore = record { low = pos 0; ordered = in_order }

observe_all-IsStore_example :
    IsStore
      (observe_all same same 8 two_intervals ((packet, second) ∷ (packet, first) ∷ [])).intervals
observe_all-IsStore_example =
    observe_all-IsStore same same 8 two_intervals ((packet, second) ∷ (packet, first) ∷ [])
      two_intervals-IsStore

finalize-payload_runs_example :
    map (reported same) (finalize same 8 two_intervals).0.runs
    ≡ map (described same) (payload_runs two_intervals)
finalize-payload_runs_example = finalize-payload_runs same 8 two_intervals
