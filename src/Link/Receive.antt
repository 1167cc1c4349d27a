-- ===== src/Link/Receive.antt =====
-- The node's receiving threads on what the gateway and the transmitter send.
use ciot_vlc.Base.{
  ℕ, ◌+◌, ◌%◌, ◌^◌, ◌≤◌, ◌<◌, ◌≡◌, refl, ◌∙◌, true, false, ◌&&◌, some, List, [], ◌∷◌, ◌++◌, ltb,
  leb, if◌then◌else◌, arith, lt→ltb, le→leb,
}
use ciot_vlc.Packet.{Packet, IsPacket}
use ciot_vlc.Queue.Fifo
use ciot_vlc.Gateway.Send.{transmit_packet_rf, rf_mac}
use ciot_vlc.VlcTx.Wire.{transmit_to_vlc}
use ciot_vlc.Node.Wire.{word_at}
use ciot_vlc.Node.Receive.{
  Receiver, add32, newly_dropped, count_error, enqueue_vlc, use_vlc, receive_vlc, receive_rf,
}
use ciot_vlc.Link.Rf.{packet_from_rf-transmit_packet_rf}
use ciot_vlc.Link.Vlc.{node_reads, transmit_to_vlc-frame, vlc_head, word_value}

-- For a packet whose fields fit their types: a round of `receive_rf` on the frame that the gateway
-- sent, whatever the buffer held before, adds the packet with VLC id 0 to the process queue, if
-- that is not full, counts it, and changes nothing else.
pub receive_rf-transmit_packet_rf :
    (ether_type : ℕ) (p : Packet) (stale : List ℕ) (n : Receiver) {frame : List ℕ}
    → IsPacket p
    → transmit_packet_rf rf_mac ether_type p ≡ some frame
    → receive_rf (frame ++ stale) n
      ≡ some (record n {
        process_queue = (Fifo.push n.process_queue (record p { vlc_id = 0 })).1;
        from_rf = add32 n.from_rf 1;
      })
unfolding receive_rf
receive_rf-transmit_packet_rf ether_type p stale n {frame} v e =
    let (ours, read) = packet_from_rf-transmit_packet_rf ether_type p stale {frame = frame} v e in
    rw (ours, read) refl

-- The node's state after a packet for it over VLC.
abbrev pub with_vlc : Packet → Receiver → Receiver
with_vlc p n = enqueue_vlc p.payload_len p (
    if ltb 0 p.vlc_id && leb p.vlc_id 1
    then record n { total_packet = add32 n.total_packet 1; frame_rx = 1 }
    else record n { total_packet = add32 n.total_packet 1 })

word_at-frame :
    (p : Packet) (stale : List ℕ)
    → IsPacket p
    → word_at ((vlc_head p ++ p.payload) ++ stale) 0 1 ≡ some p.payload_len
unfolding word_at
word_at-frame p stale v = rw (word_value p.payload_len v.len) refl

pub use_vlc_self :
    (p : Packet) (n : Receiver) → p.node_id ≡ 1 → use_vlc p.payload_len p n ≡ some (with_vlc p n)
unfolding use_vlc count_error
use_vlc_self p n e = rw e refl

-- What `receive_vlc` makes of a packet of 1 to 100 payload bytes in its buffer.
pub receive_vlc-frame :
    (p : Packet) (stale : List ℕ) (vlc_bytes : ℕ) (n : Receiver)
    → IsPacket p
    → 0 < p.payload_len
    → p.payload_len ≤ 100
    → 0 < vlc_bytes
    → receive_vlc vlc_bytes ((vlc_head p ++ p.payload) ++ stale) n ≡ use_vlc p.payload_len p n
unfolding receive_vlc
receive_vlc-frame p stale vlc_bytes n v some_bytes few got =
    rw
      (
        lt→ltb 0 vlc_bytes got,
        word_at-frame p stale v,
        lt→ltb 0 p.payload_len some_bytes,
        le→leb p.payload_len 100 few,
        node_reads p stale v,
      )
      refl

-- For a packet with the node's id whose fields fit their types, of 1 to 100 payload bytes: the
-- transmitter writes bytes to the VLC device, and a round of `receive_vlc` on those, whatever
-- follows them in the buffer, adds that packet to the process queue, if that is not full, notes
-- that transmitter 1 was heard if the packet is its, and counts it.
pub receive_vlc-transmit_to_vlc :
    (p : Packet) (stale : List ℕ) (vlc_bytes : ℕ) (n : Receiver)
    → IsPacket p
    → p.node_id ≡ 1
    → 0 < p.payload_len
    → p.payload_len ≤ 100
    → 0 < vlc_bytes
    → (bytes : List ℕ) × (transmit_to_vlc p ≡ some bytes)
      × (receive_vlc vlc_bytes (bytes ++ stale) n ≡ some (with_vlc p n))
receive_vlc-transmit_to_vlc p stale vlc_bytes n v own some_bytes few got = (
  vlc_head p ++ p.payload,
  transmit_to_vlc-frame p v (omega arith),
  receive_vlc-frame p stale vlc_bytes n v some_bytes few got ∙ use_vlc_self p n own,
)

-- A run of packets for the node.
unfoldable pub enqueue_all : List Packet → Receiver → Receiver
enqueue_all [] n = n
enqueue_all (p ∷ ps) n = enqueue_all ps (enqueue_vlc p.payload_len p n)

-- The numbers go up one by one from the last one, and from `MAX_SEQ_NUMBER - 1` to 0.
abbrev pub AreConsecutive : ℕ → List Packet → Type 0
AreConsecutive last [] = Unit {0}
AreConsecutive last (p ∷ ps) = (p.seq_number ≡ (last + 1) % 500000) × AreConsecutive p.seq_number ps

enqueue_all-from :
    (ps : List Packet) (n : Receiver)
    → n.is_first_received ≡ false
    → n.curr_seq_number < 500000
    → n.dropped_bytes < 2 ^ 32
    → AreConsecutive n.curr_seq_number ps
    → (enqueue_all ps n).dropped_bytes ≡ n.dropped_bytes
unfolding enqueue_all enqueue_vlc newly_dropped
enqueue_all-from [] n f b d c = refl
enqueue_all-from (p ∷ ps) n f b d c =
    let n' : Receiver = enqueue_vlc p.payload_len p n in
    let same : n'.dropped_bytes ≡ n.dropped_bytes = ground (arith, f, b, d, c.0) in
    enqueue_all-from ps n' refl (omega (arith, c.0)) (omega (arith, same)) c.1 ∙ same

-- From the start of `receive_vlc`, or wherever a first packet is to come, a first packet below
-- `MAX_SEQ_NUMBER` and any packets whose numbers follow it one by one, round from the last to 0,
-- leave the count of dropped bytes as it was.
pub enqueue_all-consecutive :
    (p : Packet) (ps : List Packet) (n : Receiver)
    → n.is_first_received ≡ true
    → p.seq_number < 500000
    → n.dropped_bytes < 2 ^ 32
    → AreConsecutive p.seq_number ps
    → (enqueue_all (p ∷ ps) n).dropped_bytes ≡ n.dropped_bytes
unfolding enqueue_all enqueue_vlc newly_dropped
enqueue_all-consecutive p ps n first small d c =
    let n' : Receiver = enqueue_vlc p.payload_len p n in
    let same : n'.dropped_bytes ≡ n.dropped_bytes = ground (arith, first, d) in
    enqueue_all-from ps n' refl small (omega (arith, same)) c ∙ same
