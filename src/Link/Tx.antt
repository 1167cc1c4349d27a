-- ===== src/Link/Tx.antt =====
-- The transmitter between the gateway's frames and the VLC device, and its reports to the gateway.
use ciot_vlc.Base.{
  ℕ, ◌+◌, ◌^◌, ◌≤◌, ◌<◌, ◌≡◌, refl, sym, ◌∙◌, some, List, [], ◌∷◌, ◌++◌, length, arith,
  append_assoc, append-nil, lt→ltb, lt→leb, le32_value, length-append,
}
use ciot_vlc.Packet.{Packet, IsPacket}
use ciot_vlc.Queue.Fifo
use ciot_vlc.Gateway.State.{Gateway, decrement}
use ciot_vlc.Gateway.Send.{transmit_packet_vlc, my_mac}
use ciot_vlc.Gateway.Address.{is_vlc_tx_address}
use ciot_vlc.Gateway.Receive.{receive_vlc_report}
use ciot_vlc.VlcTx.Wire.{my_eth_mac}
use ciot_vlc.VlcTx.Rounds.{
  Tx, initial_tx, transmit_popped, transmit_vlc_tx, receive_eth, send_queue_report, TxEvent,
  transmit_round, receive_round, run_tx, queue_limit,
}
use ciot_vlc.Link.Vlc.{
  on_vlc, generate_gateway_packet_from_bytes-transmit_packet_vlc, transmit_to_vlc-frame,
}

-- The rounds receive the frames that the gateway sends for these packets, one after the other, each
-- with whatever the buffer held behind it, and transmit in between.
pub data Receives (ether_type : ℕ) : List TxEvent → List Packet → Type 0 where
  stop : Receives ether_type [] []
  transmits :
      {events : List TxEvent} {ps : List Packet}
      → Receives ether_type events ps
      → Receives ether_type (transmit_round ∷ events) ps
  receives :
      {events : List TxEvent} {ps : List Packet} {p : Packet} {frame : List ℕ} (stale : List ℕ)
      → IsPacket p
      → p.vlc_id + 1 < 2 ^ 16
      → p.payload_len ≤ 1000
      → transmit_packet_vlc my_mac ether_type p ≡ some frame
      → Receives ether_type events ps
      → Receives ether_type (receive_round (frame ++ stale) ∷ events) (p ∷ ps)

abbrev pub all_on_vlc : List Packet → List Packet
all_on_vlc [] = []
all_on_vlc (p ∷ ps) = on_vlc p ∷ all_on_vlc ps

abbrev AreSendable : List Packet → Type 0
AreSendable [] = Unit {0}
AreSendable (p ∷ ps) = IsPacket p × (p.payload_len ≤ 1000) × AreSendable ps

AreSendable-append :
    (l : List Packet) (p : Packet)
    → AreSendable l
    → IsPacket p
    → p.payload_len ≤ 1000
    → AreSendable (l ++ p ∷ [])
AreSendable-append [] p v a b = (a, b, tt)
AreSendable-append (q ∷ l) p v a b = (v.0, v.1, AreSendable-append l p v.2 a b)

-- The counter is the length of the queue, and every packet in the queue can be transmitted.
pub record IsTx (t : Tx) : Type 0 where
  pub counter : t.queue_size ≡ length t.vlc_queue.items
  pub limit : t.vlc_queue.limit ≡ queue_limit
  pub sendable : AreSendable t.vlc_queue.items

-- What was transmitted and what waits.
abbrev pub passed : Tx → List Packet
passed t = t.vlc_sent ++ t.vlc_queue.items

transmit_vlc_tx-IsTx :
    (t : Tx)
    → IsTx t
    → (t' : Tx) × (transmit_vlc_tx t ≡ some t')
      × IsTx t'
      × (passed t' ≡ passed t)
      × (t'.queue_size ≤ t.queue_size)
unfolding transmit_vlc_tx transmit_popped Fifo.pop decrement
transmit_vlc_tx-IsTx t v = go t.vlc_queue.items refl v.sendable
  where
    go :
        (l : List Packet)
        → t.vlc_queue.items ≡ l
        → AreSendable l
        → (t' : Tx) × (transmit_vlc_tx t ≡ some t')
          × IsTx t'
          × (passed t' ≡ passed t)
          × (t'.queue_size ≤ t.queue_size)
    go [] e s = (t, rw e refl, v, refl, omega arith)
    go (p ∷ rest) e s =
        let t' : Tx = record {
          vlc_queue = record t.vlc_queue { items = rest };
          queue_size = length rest;
          vlc_sent = t.vlc_sent ++ p ∷ [];
        } in
        (
          t',
          ground (arith, e, v.counter, transmit_to_vlc-frame p s.0 (omega arith)),
          record { counter = refl; limit = v.limit; sendable = s.2 },
          simp (e, append_assoc),
          ground (arith, e, v.counter),
        )

receive_eth-IsTx :
    (ether_type : ℕ) (p : Packet) (stale : List ℕ) {frame : List ℕ} (t : Tx)
    → IsPacket p
    → p.vlc_id + 1 < 2 ^ 16
    → p.payload_len ≤ 1000
    → transmit_packet_vlc my_mac ether_type p ≡ some frame
    → IsTx t
    → t.queue_size + 1 < queue_limit
    → (t' : Tx) × (receive_eth (frame ++ stale) t ≡ some t')
      × IsTx t'
      × (passed t' ≡ passed t ++ on_vlc p ∷ [])
      × (t'.queue_size ≤ t.queue_size + 1)
unfolding receive_eth Fifo.push
receive_eth-IsTx ether_type p stale {frame} t a b c e v room =
    let (ours, read) =
      generate_gateway_packet_from_bytes-transmit_packet_vlc ether_type p stale {frame = frame} a b
        e in
    let t' : Tx = record t {
      vlc_queue = record t.vlc_queue { items = t.vlc_queue.items ++ on_vlc p ∷ [] };
      queue_size = t.queue_size + 1;
    } in
    (
      t',
      rw
          (
            ours,
            read,
            lt→ltb (t.queue_size + 1) 1000000 room,
            v.limit,
            lt→leb 1000000 (length t.vlc_queue.items) (omega (arith, v.counter)),
          )
          refl,
      record {
        counter = omega (arith, v.counter, length-append {0} t.vlc_queue.items (on_vlc p ∷ []));
        limit = v.limit;
        sendable =
            AreSendable-append t.vlc_queue.items (on_vlc p) v.sendable
              (record { node = a.node; vlc = b; len = a.len; seq = a.seq; bytes = a.bytes }) c;
      },
      simp append_assoc,
      omega arith,
    )

append_step :
    {x : List Packet} (y : List Packet) (q : Packet) (l : List Packet)
    → x ≡ y ++ q ∷ []
    → x ++ l ≡ y ++ q ∷ l
append_step {x} y q l e = rw (e, append_assoc y (q ∷ []) l) refl

run_from :
    {ether_type : ℕ} {events : List TxEvent} {ps : List Packet} (t : Tx)
    → Receives ether_type events ps
    → IsTx t
    → t.queue_size + length ps < queue_limit
    → (t' : Tx) × (run_tx events t ≡ some t') × IsTx t' × (passed t' ≡ passed t ++ all_on_vlc ps)
unfolding run_tx
run_from t stop v room = (t, refl, v, sym (append-nil (passed t)))
run_from t (transmits c) v room =
    let (t1, e1, v1, p1, s1) = transmit_vlc_tx-IsTx t v in
    let (t2, e2, v2, p2) = run_from t1 c v1 (omega arith) in (t2, rw e1 e2, v2, rw p1 at p2)
run_from {ether_type} t (receives {p} {frame} stale a b small e c) v room =
    let (t1, e1, v1, p1, s1) =
      receive_eth-IsTx ether_type p stale {frame = frame} t a b small e v (omega arith) in
    let (t2, e2, v2, p2) = run_from t1 c v1 (omega arith) in
    (t2, rw e1 e2, v2, p2 ∙ append_step (passed t) (on_vlc p) (all_on_vlc _) p1)

-- From the start, over any rounds that receive the gateway's frames for fewer packets than the
-- queue's limit and transmit in between: no round faults, the counter is the length of the queue,
-- and the packets given to the VLC device, then those waiting, are exactly those of the gateway in
-- order, each with its VLC id one higher.
pub run_tx-in_order :
    {ether_type : ℕ} {events : List TxEvent} {ps : List Packet}
    → Receives ether_type events ps
    → length ps < queue_limit
    → (t : Tx) × (run_tx events initial_tx ≡ some t)
      × (t.queue_size ≡ length t.vlc_queue.items)
      × (t.vlc_sent ++ t.vlc_queue.items ≡ all_on_vlc ps)
unfolding initial_tx
run_tx-in_order c room =
    let start : IsTx initial_tx = record { counter = refl; limit = refl; sendable = tt } in
    let (t, e, v, p) = run_from initial_tx c start (omega arith) in (t, e, v.counter, p)

-- Of a transmitter whose counter is an `int`, the gateway takes the report over Ethernet, and its
-- queue length for that transmitter becomes the counter, with nothing else changed, whatever the
-- receive buffer held before.
pub receive_vlc_report-send_queue_report :
    {D : Type 0} (ether_type : ℕ) (t : Tx) (stale : List ℕ) (g : Gateway D)
    → t.queue_size < 2 ^ 31
    → receive_vlc_report (send_queue_report my_eth_mac ether_type t ++ stale) g
      ≡ some (record g { vk = t.queue_size })
unfolding receive_vlc_report send_queue_report is_vlc_tx_address
receive_vlc_report-send_queue_report ether_type t stale g small =
    rw (le32_value t.queue_size (omega arith)) refl
