-- ===== src/VlcTx/Rounds.antt =====
-- The threads of the transmitter, a round of one of them at a time: `transmit_vlc`,
-- `send_queue_report` and the loop of `main` in `VLC TX1 (Eth)_vlc_tx/main.c`. `none` is an access
-- outside a buffer or a counter below 0; `malloc` is taken to give memory.
use ciot_vlc.Base.{
  ℕ, ◌+◌, Option, none, some, List, [], ◌∷◌, ◌++◌, ◌>>=◌, ltb, if◌then◌else◌, drop, le32,
}
use ciot_vlc.Packet.{Packet, Mac, ether_header, header_len}
use ciot_vlc.Queue.Fifo
use ciot_vlc.Queue.Fifo.{Fifo}
use ciot_vlc.Gateway.State.{decrement}
use ciot_vlc.VlcTx.Wire.{
  gateway_dest_mac, is_for_this_tx, generate_gateway_packet_from_bytes, transmit_to_vlc,
}

-- `QUEUE_LIMIT` and `SELF_ID` of `vlctx.h`.
abbrev pub queue_limit : ℕ
queue_limit = 1000000

abbrev pub self_id : ℕ
self_id = 1

-- The shared variables. `vlc_sent` records the packets given to the VLC device.
pub record Tx : Type 0 where
  pub vlc_queue : Fifo
  pub queue_size : ℕ
  pub vlc_sent : List Packet

-- `main` before its loop.
unfoldable pub initial_tx : Tx
initial_tx = record {
  vlc_queue = record { items = []; limit = queue_limit };
  queue_size = 0;
  vlc_sent = [];
}

-- What follows `Dequeue`.
unfoldable pub transmit_popped : Tx → Option Packet → Fifo → Option Tx
transmit_popped t none rest = some (record t { vlc_queue = rest })
transmit_popped t (some vlc_packet) rest = do
  vlc_buff ← transmit_to_vlc vlc_packet
  queue_size ← decrement t.queue_size
  some (record {
    vlc_queue = rest;
    queue_size = queue_size;
    vlc_sent = t.vlc_sent ++ vlc_packet ∷ [];
  })

-- `Dequeue` of an empty queue gives none, as does the test before it.
unfoldable pub transmit_vlc_tx : Tx → Option Tx
unfolding transmit_popped
transmit_vlc_tx t =
    let (from_queue, rest) = Fifo.pop t.vlc_queue in transmit_popped t from_queue rest

-- The loop of `main`, on the buffer that `recvfrom` leaves. The packet is copied field by field.
unfoldable pub receive_eth : List ℕ → Tx → Option Tx
receive_eth buf t =
    if is_for_this_tx buf
    then (do
      buffer_content ← generate_gateway_packet_from_bytes (drop header_len buf)
      if ltb (t.queue_size + 1) queue_limit
          then some (record t {
            vlc_queue = (Fifo.push t.vlc_queue buffer_content).1;
            queue_size = t.queue_size + 1;
          })
          else some t)
    else some t

-- The frame of a report; `hwaddr` is the address in `eth_if_mac`.
unfoldable pub send_queue_report : Mac → ℕ → Tx → List ℕ
send_queue_report hwaddr ether_type t =
    ether_header gateway_dest_mac hwaddr ether_type ++ (self_id ∷ []) ++ le32 t.queue_size

pub data TxEvent : Type 0 where
  transmit_round : TxEvent
  receive_round : (buf : List ℕ) → TxEvent

unfoldable pub run_tx : List TxEvent → Tx → Option Tx
run_tx [] t = some t
run_tx (transmit_round ∷ events) t = do t' ← transmit_vlc_tx t; run_tx events t'
run_tx (receive_round buf ∷ events) t = do t' ← receive_eth buf t; run_tx events t'
