-- ===== src/Link/System.antt =====
-- The gateway and the node together: what the gateway sends over RF, received and processed by the
-- node.
use ciot_vlc.Base.{
  ℕ, zero, suc, ◌+◌, ◌-◌, ◌*◌, ◌^◌, ◌≤◌, ◌<◌, ◌≡◌, refl, sym, ap, ◌∙◌, Option, some, List, [], ◌∷◌,
  ◌++◌, ◌>>=◌, length, arith, bind_through, append-nil, length-append,
}
use ciot_vlc.Doubles.{Doubles}
use ciot_vlc.Packet.{Packet, IsPacket}
use ciot_vlc.Queue.Fifo
use ciot_vlc.Gateway.State.{Gateway, initial}
use ciot_vlc.Gateway.Send.{transmit_packet_rf, rf_mac}
use ciot_vlc.Gateway.Step.{Event, Interfaces, run}
use ciot_vlc.Gateway.Flow.{numbers, upto, AreFull, IsFull, length-numbers, length-upto}
use ciot_vlc.Link.Numbers.{AreBelow-upto, first_missing}
use ciot_vlc.Gateway.Flow.Run.{AreLossless, generated}
use ciot_vlc.Gateway.Flow.Drain.{cycles, run-AllSent, no_items}
use ciot_vlc.Node.Track.{Tracks, AreBelow}
use ciot_vlc.Node.Status.{max_seq_number, max_ack_bit_pattern}
use ciot_vlc.Node.Receive.{initial_receiver, max_process_queue}
use ciot_vlc.Node.Rounds.{
  Node, initial_node, process_popped, process_next, NodeEvent, rf_round, process_round, step_node,
  run_node,
}
use ciot_vlc.Link.Rf.{transmit_packet_rf-frame}
use ciot_vlc.Link.Node.{
  IsNode, Arrives, stop, by_rf, taken, run_from, process_next-IsNode, initial-IsNode,
}

-- As many rounds of `process_data`.
abbrev pub process_rounds : ℕ → List NodeEvent
process_rounds zero = []
process_rounds (suc k) = process_round ∷ process_rounds k

-- The node's rounds that receive the frames of these packets, each with `stale` behind it.
abbrev pub frame_rounds : Interfaces → List ℕ → List Packet → Option (List NodeEvent)
frame_rounds i stale [] = some []
frame_rounds i stale (p ∷ ps) = do
  frame ← transmit_packet_rf i.rf_if_mac i.ether_type p
  events ← frame_rounds i stale ps
  some (rf_round (frame ++ stale) ∷ events)

run_node-append :
    (max_ack : ℕ) (xs ys : List NodeEvent) (n : Node)
    → run_node max_ack (xs ++ ys) n ≡ run_node max_ack xs n >>= run_node max_ack ys
unfolding run_node
run_node-append max_ack [] ys n = refl
run_node-append max_ack (x ∷ xs) ys n =
    bind_through (step_node max_ack x n) (λ m. run_node max_ack (xs ++ ys) m)
      (λ m. run_node max_ack xs m) (run_node max_ack ys) (λ m. run_node-append max_ack xs ys m)

-- A round of `process_data` takes one packet from the queue, if there is one.
pub process_next_left :
    (max_ack : ℕ) (n n' : Node)
    → process_next max_ack n ≡ some n'
    → length n'.receiver.process_queue.items ≡ length n.receiver.process_queue.items - 1
unfolding process_next process_popped Fifo.pop
process_next_left max_ack n n' e = go n.receiver.process_queue.items refl
  where
    go :
        (l : List Packet)
        → n.receiver.process_queue.items ≡ l
        → length n'.receiver.process_queue.items ≡ length n.receiver.process_queue.items - 1
    go [] a = let same : n' ≡ n = ground (arith, a) in rw (same, a) refl
    go (p ∷ rest) a = ground (arith, a)

-- The packets as the node reads them over RF.
abbrev pub all_on_rf : List Packet → List Packet
all_on_rf [] = []
all_on_rf (p ∷ ps) = record p { vlc_id = 0 } ∷ all_on_rf ps

numbers-all_on_rf : (ps : List Packet) → numbers (all_on_rf ps) ≡ numbers ps
numbers-all_on_rf [] = refl
numbers-all_on_rf (p ∷ ps) = ap (λ l. p.seq_number ∷ l) (numbers-all_on_rf ps)

pub IsFull-IsPacket : (p : Packet) → IsFull p → p.seq_number < 2 ^ 32 → IsPacket p
IsFull-IsPacket p v h = record {
  node = omega (arith, v.node);
  vlc = omega (arith, v.vlc);
  len = omega (arith, v.len);
  seq = h;
  bytes = v.bytes ∙ sym v.len;
}

frame_rounds-Arrives :
    (i : Interfaces) (stale : List ℕ) (ps : List Packet)
    → i.rf_if_mac ≡ rf_mac
    → AreFull ps
    → AreBelow (2 ^ 32) (numbers ps)
    → (events : List NodeEvent) × (frame_rounds i stale ps ≡ some events)
      × Arrives i.ether_type events (all_on_rf ps)
frame_rounds-Arrives i stale [] m v b = ([], refl, stop)
frame_rounds-Arrives i stale (p ∷ ps) m v b =
    let frame =
      transmit_packet_rf-frame rf_mac i.ether_type p (v.0.bytes ∙ sym v.0.len)
        (omega (arith, v.0.len)) in
    let (events, e, c) = frame_rounds-Arrives i stale ps m v.1 b.1 in
    (_, rw (m, frame, e) refl, by_rf stale (IsFull-IsPacket p v.0 (omega (arith, b.0))) frame c)

module _ {max bound : ℕ} (max_ack : ℕ) (fits : bound ≤ max) (small : bound ≤ 2 ^ 31)
    (wide : bound ≤ max_ack + 1) where
  process_all_waiting :
      (k : ℕ) (n : Node)
      → IsNode max bound n
      → AreBelow bound (numbers (taken n))
      → length n.receiver.process_queue.items ≤ k
      → (n' : Node) × (run_node max_ack (process_rounds k) n ≡ some n')
        × IsNode max bound n'
        × (taken n' ≡ taken n)
        × (n'.receiver.process_queue.items ≡ [])
  unfolding run_node step_node
  process_all_waiting zero n v below h =
      (n, refl, v, refl, no_items n.receiver.process_queue.items (omega (arith, h)))
  process_all_waiting (suc k) n v below h =
      let (n1, e1, v1, t1) = process_next-IsNode max_ack fits small wide n v below in
      let (n2, e2, v2, t2, none_waits) =
        process_all_waiting k n1 v1 (rw t1 below)
          (omega (arith, process_next_left max_ack n n1 e1, h)) in
      (n2, rw e1 e2, v2, t2 ∙ t1, none_waits)

  -- From the start, after any arrivals of at most as many packets as the process queue holds, their
  -- numbers below `bound - 1`, with any rounds of `process_data` between, where `bound` is at least
  -- 2, an `int`, at most the size of the array and at most one more than the window: at least as many
  -- further rounds of `process_data` as packets came leave none waiting, and the status tracks
  -- exactly the packets that came.
  pub run_node-processed :
      {ether_type : ℕ} {events : List NodeEvent} {ps : List Packet} (k : ℕ)
      → 1 < bound
      → Arrives ether_type events ps
      → AreBelow bound (numbers ps)
      → length ps ≤ max_process_queue
      → length ps ≤ k
      → (n : Node) × (run_node max_ack (events ++ process_rounds k) (initial_node max) ≡ some n)
        × (n.processed ≡ ps)
        × (n.receiver.process_queue.items ≡ [])
        × Tracks max bound n.status (numbers ps)
  unfolding initial_node initial_receiver
  run_node-processed {events} {ps} k two c below room enough =
      let start : IsNode max bound (initial_node max) =
        initial-IsNode max_ack fits small wide two in
      let (n1, e1, v1, t1) =
        run_from max_ack fits small wide (initial_node max) c start below room in
      let came : taken n1 ≡ ps = t1 in
      let few : length n1.receiver.process_queue.items ≤ k = omega (
        arith,
        enough,
        ap (λ (l : List Packet). length l) came,
        length-append {0} n1.processed n1.receiver.process_queue.items,
      ) in
      let (n2, e2, v2, t2, none_waits) = process_all_waiting k n1 v1 (rw came below) few in
      let all : n2.processed ≡ ps = sym (append-nil n2.processed) ∙ rw none_waits at (t2 ∙ came) in
      (
        n2,
        rw (run_node-append max_ack events (process_rounds k) (initial_node max), e1) e2,
        all,
        none_waits,
        rw all at v2.tracks,
      )

-- The gateway with the address that the node expects, from the start, after any sequence of rounds
-- of the producing and transmitting threads (none receives a report) in which the driver takes every
-- RF frame, `rand` gives a whole payload, and fewer than 100000 packets are generated: after three
-- times as many cycles of its transmitting threads it has sent a frame for each packet. A node that
-- receives these frames, each with anything behind it in the buffer, and then makes as many rounds of
-- `process_data`, faults nowhere, has no packet waiting, and its ACK number is the number of packets
-- that the gateway generated.
pub gateway_to_node :
    (F : Doubles) (i : Interfaces) (zero_error : F.D) (events : List Event) (stale : List ℕ)
    → i.rf_if_mac ≡ rf_mac
    → AreLossless events
    → generated events < max_ack_bit_pattern
    → (g : Gateway F.D) × (run F i (events ++ cycles (3 * generated events)) (initial zero_error)
        ≡ some g)
      × (arrivals : List NodeEvent) × (frame_rounds i stale g.rf_sent ≡ some arrivals)
      × (n : Node) × (run_node max_ack_bit_pattern
            (arrivals ++ process_rounds (generated events))
            (initial_node max_seq_number)
          ≡ some n)
      × (n.receiver.process_queue.items ≡ [])
      × (n.status.rcv_seq ≡ generated events)
gateway_to_node F i zero_error events stale m q h =
    let k : ℕ = generated events in
    let (g, e, a) = run-AllSent F i zero_error events q (omega (arith, h)) in
    let few : AreBelow (2 ^ 32) (numbers g.rf_sent) =
      rw a.numbered (AreBelow-upto (2 ^ 32) k (omega (arith, h))) in
    let (arrivals, made, c) = frame_rounds-Arrives i stale g.rf_sent m a.full few in
    let nums : numbers (all_on_rf g.rf_sent) ≡ upto k = numbers-all_on_rf g.rf_sent ∙ a.numbered in
    let size : length (all_on_rf g.rf_sent) ≡ k =
      sym (length-numbers (all_on_rf g.rf_sent))
      ∙ ap (λ (l : List ℕ). length l) nums
      ∙ length-upto k in
    let (n, ran, all, none_waits, t) =
      run_node-processed {max = 500000} {bound = k + 2} max_ack_bit_pattern (omega (arith, h))
        (omega (arith, h)) (omega (arith, h)) k (omega arith) c
        (rw nums (AreBelow-upto (k + 2) k (omega arith))) (omega (arith, size, h))
        (omega (arith, size)) in
    (g, e, arrivals, made, n, ran, none_waits, first_missing t nums)
