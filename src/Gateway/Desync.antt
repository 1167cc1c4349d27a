-- ===== src/Gateway/Desync.antt =====
-- `schedule_packet` on an empty queue: `unsched_seq` against `arr_seq`.
use ciot_vlc.Base.{
  ℕ, zero, suc, ◌+◌, ◌%◌, ◌<◌, ◌≡◌, refl, some, List, [], ◌∷◌, ◌==◌, if◌then◌else◌, arith, lt→ltb,
}
use ciot_vlc.Doubles.{Doubles}
use ciot_vlc.Packet.{Packet}
use ciot_vlc.Queue.Fifo
use ciot_vlc.Gateway.State.{Gateway, initial, decrement, store, max_seq_number, rf}
use ciot_vlc.Gateway.Schedule.{schedule-one}
use ciot_vlc.Gateway.Produce.{
  generate_packet, generate_random_node, to_rf, schedule_popped, schedule_packet,
}
use ciot_vlc.Gateway.Step.{
  Event, generate_packet_round, schedule_packet_round, Interfaces, step, run,
}

add_zero : (k : ℕ) → 0 + k ≡ k
add_zero k = omega arith

n_zero : (n : ℕ) → n + 0 ≡ n
n_zero n = omega arith

add_suc : (n k : ℕ) → suc n + k ≡ n + (k + 1)
add_suc n k = omega arith

module _ (F : Doubles) (i : Interfaces) where
  open F use {D}

  -- The gateway after `k` rounds of the scheduler on an empty queue.
  abbrev pub idle : ℕ → D → Gateway D
  idle k zero_error = record (initial zero_error) { unsched_seq = k }

  idle_round :
      (k now : ℕ) (zero_error : D)
      → k + 1 < max_seq_number
      → step F i (schedule_packet_round now) (idle k zero_error) ≡ some (idle (k + 1) zero_error)
  unfolding step schedule_packet schedule_popped Fifo.pop initial
  idle_round k now zero_error h =
      rw (schedule-one F 2 0 0 0 zero_error (omega arith)) (ground arith)

  -- `n` idle rounds, then a packet is generated and scheduled.
  abbrev pub late : ℕ → ℕ → List ℕ → List Event
  late zero now bytes = generate_packet_round bytes ∷ schedule_packet_round now ∷ []
  late (suc n) now bytes = schedule_packet_round now ∷ late n now bytes

  scheduled :
      (k now : ℕ) (bytes : List ℕ) (zero_error : D)
      → k < max_seq_number
      → (g : Gateway D) × (run F i (late 0 now bytes) (idle k zero_error) ≡ some g)
        × (g.rf_queue.items ≡ generate_random_node 1 bytes ∷ [])
        × ((j : ℕ) → g.pkt_state j ≡ (if k == j then rf else 0))
  unfolding run step schedule_packet schedule_popped Fifo.pop initial generate_packet to_rf
      Fifo.push store decrement
  scheduled k now bytes zero_error h =
      let p : Packet = generate_random_node 1 bytes in
      let g0 : Gateway D = idle k zero_error in
      let g : Gateway D = record g0 {
        arr_seq = 1;
        unsched_seq = (k + 1) % max_seq_number;
        rf_queue = record g0.rf_queue { items = p ∷ [] };
        pkt_state = λ j. if k == j then rf else 0;
        r = 1;
      } in
      (
        g,
        rw (schedule-one F 2 1 0 0 zero_error (omega arith), lt→ltb k max_seq_number h) refl,
        refl,
        λ j. refl,
      )

  late_from :
      (n k now : ℕ) (bytes : List ℕ) (zero_error : D)
      → n + k < max_seq_number
      → (g : Gateway D) × (run F i (late n now bytes) (idle k zero_error) ≡ some g)
        × (g.rf_queue.items ≡ generate_random_node 1 bytes ∷ [])
        × ((j : ℕ) → g.pkt_state j ≡ (if n + k == j then rf else 0))
  unfolding run
  late_from zero k now bytes zero_error h =
      rw (add_zero k) (scheduled k now bytes zero_error (omega arith))
  late_from (suc n) k now bytes zero_error h =
      rw (idle_round k now zero_error (omega arith), add_suc n k)
        (late_from n (k + 1) now bytes zero_error (omega arith))

  -- `n` rounds of the scheduler before a packet is generated, `n` below the size of `pkt_state`,
  -- and one after: the packet, with number 0, waits for RF, but that it goes over RF is stored
  -- under number `n`, and nothing under any other.
  pub run-late :
      (n now : ℕ) (bytes : List ℕ) (zero_error : D)
      → n < max_seq_number
      → (g : Gateway D) × (run F i (late n now bytes) (initial zero_error) ≡ some g)
        × (g.rf_queue.items ≡ generate_random_node 1 bytes ∷ [])
        × ((j : ℕ) → g.pkt_state j ≡ (if n == j then rf else 0))
  unfolding initial
  run-late n now bytes zero_error h =
      rw (n_zero n) at (late_from n 0 now bytes zero_error (omega arith))
