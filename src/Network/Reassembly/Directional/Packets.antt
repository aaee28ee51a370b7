-- ===== src/Network/Reassembly/Directional/Packets.antt =====
-- Any sequence of packets: the store stays in order, and no byte is ever replaced.
use securemailscope.Base.{
  ℕ, ◌≡◌, refl, List, [], ◌∷◌, some, if_intro, ltb→lt, not_ltb→le, arith, subst, sym, ◌∙◌,
}
use securemailscope.Base.Int.{ℤ, ◌≤ℤ◌, ltb_ℤ, min_ℤ}
use securemailscope.Evidence.{PacketReference}
use securemailscope.Network.Reassembly.Intervals.{Interval}
use securemailscope.Network.Reassembly.Intervals.Bytes.{byte_at, IsOrdered, IsOrdered-weaken}
use securemailscope.Network.Reassembly.Directional.{DirectionalReassembler, ParsedPacket}
use securemailscope.Network.Reassembly.Directional.Insert.{insert}
use securemailscope.Network.Reassembly.Directional.Observe.{
  note_packet, note_truncated, data_start, observe_payload, if_payload, observe,
}
use securemailscope.Network.Reassembly.Directional.Held.{
  insert-IsOrdered, insert-first_observed_wins,
}

-- The store is in order from some position on.
pub record IsStore (ivs : List Interval) : Type 0 where
  pub low : ℤ
  pub ordered : IsOrdered low ivs

note_truncated-intervals :
    (s : DirectionalReassembler) (start : ℤ) (packet : ParsedPacket)
    → (note_truncated s start packet).intervals ≡ s.intervals
unfolding note_truncated
note_truncated-intervals s start packet =
    if_intro (λ (t : DirectionalReassembler). t.intervals ≡ s.intervals) packet.payload_truncated
      (λ _. refl) (λ _. refl)

note_packet-intervals :
    (s : DirectionalReassembler) (packet : ParsedPacket) (ref : PacketReference)
    → (note_packet s packet ref).1.intervals ≡ s.intervals
unfolding note_packet
note_packet-intervals s packet ref = refl

module _ (sha256 blake2b : List ℕ → List ℕ) (max_segments : ℕ) where
  insert-IsStore :
      (s : DirectionalReassembler) (start : ℤ) (packet : ParsedPacket) (ref : PacketReference)
      → IsStore s.intervals
      → IsStore (insert sha256 blake2b max_segments s start packet ref).intervals
  insert-IsStore s start packet ref i =
      let low' = min_ℤ i.low start in
      let facts : (low' ≤ℤ i.low) × (low' ≤ℤ start) =
        if_intro (λ m. (m ≤ℤ i.low) × (m ≤ℤ start)) (ltb_ℤ start i.low)
          (λ t. (omega (arith, ltb→lt _ _ t), omega arith))
          (λ f. (omega arith, omega (arith, not_ltb→le _ _ f))) in
      record {
        low = low';
        ordered =
            insert-IsOrdered sha256 blake2b max_segments s start packet ref low'
              (IsOrdered-weaken i.low low' s.intervals facts.0 i.ordered) facts.1;
      }

  -- What one observation does to the store: nothing, or one insertion.
  observe-intervals :
      (P : List Interval → Type 0) (s : DirectionalReassembler) (packet : ParsedPacket)
      (ref : PacketReference)
      → P s.intervals
      → ((t : DirectionalReassembler) (start : ℤ)
          → t.intervals ≡ s.intervals
          → P (insert sha256 blake2b max_segments t start packet ref).intervals)
      → P (observe sha256 blake2b max_segments s packet ref).intervals
  unfolding observe if_payload observe_payload
  observe-intervals P s packet ref same change = by_payload packet.payload
    where
      by_payload :
          (bytes : List ℕ)
          → P
              (if_payload sha256 blake2b max_segments bytes
                (data_start (note_packet s packet ref).0 packet)
                (note_packet s packet ref).1
                packet
                ref).intervals
      by_payload [] = subst P (sym (note_packet-intervals s packet ref)) same
      by_payload (x ∷ xs) =
          change _ _ (note_truncated-intervals _ _ packet ∙ note_packet-intervals s packet ref)

  pub observe-IsStore :
      (s : DirectionalReassembler) (packet : ParsedPacket) (ref : PacketReference)
      → IsStore s.intervals
      → IsStore (observe sha256 blake2b max_segments s packet ref).intervals
  observe-IsStore s packet ref i =
      observe-intervals IsStore s packet ref i
        (λ t start e. insert-IsStore t start packet ref (subst IsStore (sym e) i))

  pub observe-first_observed_wins :
      (s : DirectionalReassembler) (packet : ParsedPacket) (ref : PacketReference) (p : ℤ) (b : ℕ)
      → IsStore s.intervals
      → byte_at s.intervals p ≡ some b
      → byte_at (observe sha256 blake2b max_segments s packet ref).intervals p ≡ some b
  observe-first_observed_wins s packet ref p b i h =
      observe-intervals (λ ivs. byte_at ivs p ≡ some b) s packet ref h
        (λ t start e.
          insert-first_observed_wins sha256 blake2b max_segments t start packet ref i.low p b
            (subst (IsOrdered i.low) (sym e) i.ordered)
            (subst (λ ivs. byte_at ivs p ≡ some b) (sym e) h))

  -- The packets of a direction, observed in the order in which they were captured.
  unfoldable pub observe_all :
      DirectionalReassembler → List (ParsedPacket × PacketReference) → DirectionalReassembler
  observe_all s [] = s
  observe_all s ((packet, ref) ∷ rest) =
      observe_all (observe sha256 blake2b max_segments s packet ref) rest

  -- Through any sequence of packets the store stays a sequence of non-empty intervals that are in
  -- order and do not meet, if it is one at the start.
  pub observe_all-IsStore :
      (s : DirectionalReassembler) (packets : List (ParsedPacket × PacketReference))
      → IsStore s.intervals
      → IsStore (observe_all s packets).intervals
  unfolding observe_all
  observe_all-IsStore s [] i = i
  observe_all-IsStore s ((packet, ref) ∷ rest) i =
      observe_all-IsStore (observe sha256 blake2b max_segments s packet ref) rest
        (observe-IsStore s packet ref i)

  -- Through any sequence of packets, whatever they claim, a byte that is held once stays what it is.
  pub observe_all-first_observed_wins :
      (s : DirectionalReassembler) (packets : List (ParsedPacket × PacketReference)) (p : ℤ) (b : ℕ)
      → IsStore s.intervals
      → byte_at s.intervals p ≡ some b
      → byte_at (observe_all s packets).intervals p ≡ some b
  unfolding observe_all
  observe_all-first_observed_wins s [] p b i h = h
  observe_all-first_observed_wins s ((packet, ref) ∷ rest) p b i h =
      observe_all-first_observed_wins (observe sha256 blake2b max_segments s packet ref) rest p b
        (observe-IsStore s packet ref i) (observe-first_observed_wins s packet ref p b i h)
