-- ===== src/Link/Node.antt =====
-- The node under any interleaving of arrivals and processing, from the frames of the gateway and
-- the transmitter to the node's status.
use ciot_vlc.Base.{
  ℕ, ◌+◌, ◌^◌, ◌≤◌, ◌<◌, ◌≡◌, refl, sym, ◌∙◌, some, List, [], ◌∷◌, ◌++◌, leb, ltb, ◌&&◌, Bool-cases,
  inl, inr, length, arith, append_assoc, append-nil, length-append, lt→leb,
}
use ciot_vlc.Packet.{Packet, IsPacket}
use ciot_vlc.Queue.Fifo
use ciot_vlc.Gateway.Flow.{numbers}
use ciot_vlc.Gateway.Send.{transmit_packet_rf, rf_mac}
use ciot_vlc.VlcTx.Wire.{transmit_to_vlc}
use ciot_vlc.Node.Receive.{
  Receiver, initial_receiver, max_process_queue, receive_vlc, receive_rf, enqueue_vlc,
}
use ciot_vlc.Node.Track.{mem, Tracks, AreBelow, initialize-Tracks, process_data-Tracks, Tracks-ext}
use ciot_vlc.Node.Rounds.{
  Node, initial_node, process_popped, process_next, NodeEvent, rf_round, vlc_round, process_round,
  step_node, run_node,
}
use ciot_vlc.Link.Receive.{receive_rf-transmit_packet_rf, receive_vlc-transmit_to_vlc, with_vlc}

-- The rounds receive, one after the other, the RF frames of the gateway and the VLC frames of the
-- transmitter for these packets, each with whatever the buffer held behind it, and process between.
-- The packets are as the node is to read them: with VLC id 0 over RF.
pub data Arrives (ether_type : ℕ) : List NodeEvent → List Packet → Type 0 where
  stop : Arrives ether_type [] []
  processes :
      {events : List NodeEvent} {ps : List Packet}
      → Arrives ether_type events ps
      → Arrives ether_type (process_round ∷ events) ps
  by_rf :
      {events : List NodeEvent} {ps : List Packet} {p : Packet} {frame : List ℕ} (stale : List ℕ)
      → IsPacket p
      → transmit_packet_rf rf_mac ether_type p ≡ some frame
      → Arrives ether_type events ps
      → Arrives ether_type (rf_round (frame ++ stale) ∷ events) (record p { vlc_id = 0 } ∷ ps)
  by_vlc :
      {events : List NodeEvent} {ps : List Packet} {p : Packet} {bytes : List ℕ} (stale : List ℕ)
      (vlc_bytes : ℕ)
      → IsPacket p
      → p.node_id ≡ 1
      → 0 < p.payload_len
      → p.payload_len ≤ 100
      → 0 < vlc_bytes
      → transmit_to_vlc p ≡ some bytes
      → Arrives ether_type events ps
      → Arrives ether_type (vlc_round vlc_bytes (bytes ++ stale) ∷ events) (p ∷ ps)

-- The status tracks the packets processed, and the queue has its limit.
pub record IsNode (max bound : ℕ) (n : Node) : Type 0 where
  pub tracks : Tracks max bound n.status (numbers n.processed)
  pub limit : n.receiver.process_queue.limit ≡ max_process_queue

-- The packets taken from the queue and those in it.
abbrev pub taken : Node → List Packet
taken n = n.processed ++ n.receiver.process_queue.items

mem-numbers-append :
    (j : ℕ) (l : List Packet) (p : Packet)
    → mem j (p.seq_number ∷ numbers l) ≡ mem j (numbers (l ++ p ∷ []))
mem-numbers-append j [] p = refl
mem-numbers-append j (q ∷ l) p = ground (arith, mem-numbers-append j l p)

AreBelow-right :
    (b : ℕ) (l m : List Packet) → AreBelow b (numbers (l ++ m)) → AreBelow b (numbers m)
AreBelow-right b [] m v = v
AreBelow-right b (p ∷ l) m v = AreBelow-right b l m v.1

AreBelow-left : (b : ℕ) (l m : List Packet) → AreBelow b (numbers (l ++ m)) → AreBelow b (numbers l)
AreBelow-left b [] m v = tt
AreBelow-left b (p ∷ l) m v = (v.0, AreBelow-left b l m v.1)

module _ {max bound : ℕ} (max_ack : ℕ) (fits : bound ≤ max) (small : bound ≤ 2 ^ 31)
    (wide : bound ≤ max_ack + 1) where
  pub process_next-IsNode :
      (n : Node)
      → IsNode max bound n
      → AreBelow bound (numbers (taken n))
      → (n' : Node) × (process_next max_ack n ≡ some n')
        × IsNode max bound n'
        × (taken n' ≡ taken n)
  unfolding process_next process_popped Fifo.pop
  process_next-IsNode n v below = go n.receiver.process_queue.items refl
    where
      go :
          (l : List Packet)
          → n.receiver.process_queue.items ≡ l
          → (n' : Node) × (process_next max_ack n ≡ some n')
            × IsNode max bound n'
            × (taken n' ≡ taken n)
      go [] e = (n, rw e refl, v, refl)
      go (p ∷ rest) e =
          let b = AreBelow-right bound n.processed (p ∷ rest) (rw e at below) in
          let (s, run, t) =
            process_data-Tracks v.tracks max_ack p.seq_number (omega (arith, b.0)) b.0 fits wide in
          let n' : Node = record {
            receiver = record n.receiver {
              process_queue = record n.receiver.process_queue { items = rest };
            };
            status = s;
            processed = n.processed ++ p ∷ [];
          } in
          (
            n',
            rw (e, run) refl,
            record {
              tracks =
                  Tracks-ext t (numbers (n.processed ++ p ∷ []))
                    (λ j. mem-numbers-append j n.processed p);
              limit = v.limit;
            },
            simp (e, append_assoc),
          )

  with_vlc_queue :
      (p : Packet) (r : Receiver)
      → p.node_id ≡ 1
      → (with_vlc p r).process_queue ≡ (Fifo.push r.process_queue p).1
  unfolding enqueue_vlc
  with_vlc_queue p r own =
      let same : record p { node_id = 1 } ≡ p = λ k. record p { node_id = sym own k } in
      elim (Bool-cases (ltb 0 p.vlc_id && leb p.vlc_id 1)) [
        | inl heard ↦ rw (heard, same) refl
        | inr not_heard ↦ rw (not_heard, same) refl
      ]

  -- A packet that came is at the end of the queue, and the rest of the node is as before.
  record Came (n : Node) (p : Packet) (r : Receiver) : Type 0 where
    items : r.process_queue.items ≡ n.receiver.process_queue.items ++ p ∷ []
    limit : r.process_queue.limit ≡ n.receiver.process_queue.limit

  receive_rf-Came :
      (ether_type : ℕ) (p : Packet) (stale : List ℕ) (n : Node) {frame : List ℕ}
      → IsPacket p
      → transmit_packet_rf rf_mac ether_type p ≡ some frame
      → length n.receiver.process_queue.items < n.receiver.process_queue.limit
      → (r : Receiver) × (receive_rf (frame ++ stale) n.receiver ≡ some r)
        × Came n (record p { vlc_id = 0 }) r
  unfolding Fifo.push
  receive_rf-Came ether_type p stale n {frame} v e room = (
    _,
    receive_rf-transmit_packet_rf ether_type p stale n.receiver {frame = frame} v e,
    let full = lt→leb n.receiver.process_queue.limit (length n.receiver.process_queue.items) room in
        record { items = rw full refl; limit = rw full refl },
  )

  receive_vlc-Came :
      (p : Packet) (stale : List ℕ) (vlc_bytes : ℕ) (n : Node) {bytes : List ℕ}
      → IsPacket p
      → p.node_id ≡ 1
      → 0 < p.payload_len
      → p.payload_len ≤ 100
      → 0 < vlc_bytes
      → transmit_to_vlc p ≡ some bytes
      → length n.receiver.process_queue.items < n.receiver.process_queue.limit
      → (r : Receiver) × (receive_vlc vlc_bytes (bytes ++ stale) n.receiver ≡ some r) × Came n p r
  unfolding Fifo.push
  receive_vlc-Came p stale vlc_bytes n {bytes} v own pos few got e room =
      let (b, sent, came) =
        receive_vlc-transmit_to_vlc p stale vlc_bytes n.receiver v own pos few got in
      let same : b ≡ bytes = cc in
      (
        with_vlc p n.receiver,
        rw same at came,
        let full =
              lt→leb n.receiver.process_queue.limit (length n.receiver.process_queue.items) room in
            let queue = with_vlc_queue p n.receiver own in
            record { items = rw (queue, full) refl; limit = rw (queue, full) refl },
      )

  arrived :
      (n : Node) (q : Packet) (r : Receiver)
      → IsNode max bound n
      → Came n q r
      → IsNode max bound (record n { receiver = r })
        × (taken (record n { receiver = r }) ≡ taken n ++ q ∷ [])
  arrived n q r v came = (
    record { tracks = v.tracks; limit = came.limit ∙ v.limit },
    rw came.items (sym (append_assoc n.processed n.receiver.process_queue.items (q ∷ []))),
  )

  has_room :
      (n : Node) (q : Packet) (ps : List Packet)
      → IsNode max bound n
      → length (taken n ++ q ∷ ps) ≤ max_process_queue
      → length n.receiver.process_queue.items < n.receiver.process_queue.limit
  has_room n q ps v room = omega (
    arith,
    v.limit,
    length-append {0} (taken n) (q ∷ ps),
    length-append {0} n.processed n.receiver.process_queue.items,
  )

  pub run_from :
      {ether_type : ℕ} {events : List NodeEvent} {ps : List Packet} (n : Node)
      → Arrives ether_type events ps
      → IsNode max bound n
      → AreBelow bound (numbers (taken n ++ ps))
      → length (taken n ++ ps) ≤ max_process_queue
      → (n' : Node) × (run_node max_ack events n ≡ some n')
        × IsNode max bound n'
        × (taken n' ≡ taken n ++ ps)
  unfolding run_node step_node
  run_from n stop v below room = (n, refl, v, sym (append-nil (taken n)))
  run_from {ps} n (processes c) v below room =
      let (n1, e1, v1, t1) = process_next-IsNode n v (AreBelow-left bound (taken n) ps below) in
      let (n2, e2, v2, t2) = run_from n1 c v1 (rw t1 below) (rw t1 room) in
      (n2, rw e1 e2, v2, rw t1 at t2)
  run_from {ether_type} n (by_rf {ps} {p} {frame} stale a e c) v below room =
      let q : Packet = record p { vlc_id = 0 } in
      let (r, e1, came) =
        receive_rf-Came ether_type p stale n {frame = frame} a e (has_room n q ps v room) in
      let (v1, t1) = arrived n q r v came in
      let t : taken (record n { receiver = r }) ++ ps ≡ taken n ++ q ∷ ps =
        rw t1 (append_assoc (taken n) (q ∷ []) ps) in
      let (n2, e2, v2, t2) = run_from (record n { receiver = r }) c v1 (rw t below) (rw t room) in
      (n2, rw e1 e2, v2, t2 ∙ t)
  run_from n (by_vlc {ps} {p} {bytes} stale vlc_bytes a own pos few got e c) v below room =
      let (r, e1, came) =
        receive_vlc-Came p stale vlc_bytes n {bytes = bytes} a own pos few got e
          (has_room n p ps v room) in
      let (v1, t1) = arrived n p r v came in
      let t : taken (record n { receiver = r }) ++ ps ≡ taken n ++ p ∷ ps =
        rw t1 (append_assoc (taken n) (p ∷ []) ps) in
      let (n2, e2, v2, t2) = run_from (record n { receiver = r }) c v1 (rw t below) (rw t room) in
      (n2, rw e1 e2, v2, t2 ∙ t)

  pub initial-IsNode : 1 < bound → IsNode max bound (initial_node max)
  unfolding initial_node initial_receiver
  initial-IsNode two = record { tracks = initialize-Tracks max bound two; limit = refl }

  -- From the start, under any interleaving of arrivals of at
  -- most as many packets as the process queue holds, their numbers below `bound - 1`, and rounds of
  -- `process_data`, where `bound` is at least 2, an `int`, at most the size of the array and at most
  -- one more than the window: no round faults, the packets processed, then those waiting, are exactly
  -- those that came, in order, and the status tracks exactly the packets processed.
  pub run_node-Tracks :
      {ether_type : ℕ} {events : List NodeEvent} {ps : List Packet}
      → 1 < bound
      → Arrives ether_type events ps
      → AreBelow bound (numbers ps)
      → length ps ≤ max_process_queue
      → (n : Node) × (run_node max_ack events (initial_node max) ≡ some n)
        × Tracks max bound n.status (numbers n.processed)
        × (n.processed ++ n.receiver.process_queue.items ≡ ps)
  unfolding initial_node initial_receiver
  run_node-Tracks two c below room =
      let (n, e, v, t) = run_from (initial_node max) c (initial-IsNode two) below room in
      (n, e, v.tracks, t)
