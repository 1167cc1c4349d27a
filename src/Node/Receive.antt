-- ===== src/Node/Receive.antt =====
-- One round of the node's receiving threads, `receive_vlc` and `receive_rf` of
-- `node (rf)_node1/main.c`, and of `vlc_quality_measurement`. `none` is a read past the end of a
-- buffer; `malloc` is taken to give memory. A counter is its 32-bit pattern.
use ciot_vlc.Base.{
  ℕ, ◌+◌, ◌-◌, ◌*◌, ◌%◌, ◌^◌, Bool, true, false, ◌&&◌, ◌||◌, Option, some, List, [], ◌>>=◌, ◌==◌,
  ltb, leb, if◌then◌else◌, read32,
}
use ciot_vlc.Doubles.{pos, Doubles}
use ciot_vlc.Packet.{Packet}
use ciot_vlc.Queue.Fifo
use ciot_vlc.Queue.Fifo.{Fifo}
use ciot_vlc.Node.Status.{max_seq_number}
use ciot_vlc.Node.SendReport.{self_id, n_vlc}
use ciot_vlc.Node.Wire.{word_at, generate_from_bytes, is_from_gateway, packet_from_rf}

-- `DUMMY_PACKET_NODE_ID`, `RS_ERROR_ID`, `MTU_VALUE` and `MAX_PROCESS_QUEUE` of `node.h`.
abbrev pub dummy_packet_node_id : ℕ
dummy_packet_node_id = 99

abbrev pub rs_error_id : ℕ
rs_error_id = 98

abbrev pub mtu_value : ℕ
mtu_value = 100

abbrev pub max_process_queue : ℕ
max_process_queue = 1000000

abbrev pub add32 : ℕ → ℕ → ℕ
add32 a b = (a + b) % 2 ^ 32

-- The variables that the receiving threads share, and those of `receive_vlc`. `frame_rx` is the one
-- entry of `Frame_Rx`.
pub record Receiver : Type 0 where
  pub process_queue : Fifo
  pub from_vlc : ℕ
  pub from_rf : ℕ
  pub frame_rx : ℕ
  pub rs_error_bytes : ℕ
  pub uncorrected_bytes : ℕ
  pub curr_seq_number : ℕ
  pub dropped_bytes : ℕ
  pub total_packet : ℕ
  pub is_first_received : Bool
  pub total_bytes : ℕ

-- The start of `receive_vlc`.
unfoldable pub initial_receiver : Receiver
initial_receiver = record {
  process_queue = record { items = []; limit = max_process_queue };
  from_vlc = 0;
  from_rf = 0;
  frame_rx = 0;
  rs_error_bytes = 0;
  uncorrected_bytes = 0;
  curr_seq_number = 0;
  dropped_bytes = 0;
  total_packet = 0;
  is_first_received = true;
  total_bytes = 0;
}

-- The bytes that are counted as dropped when this number comes.
unfoldable pub newly_dropped : ℕ → ℕ → Receiver → ℕ
newly_dropped packet_length seq_number n =
    if n.is_first_received
    then 0
    else if n.curr_seq_number == max_seq_number - 1
    then (if seq_number == 0 then 0 else (seq_number * packet_length) % 2 ^ 32)
    else if seq_number == add32 n.curr_seq_number 1
    then 0
    else packet_length

-- `curr_num_error`, the first four bytes of the payload, for a packet that the driver marked.
unfoldable pub count_error : Packet → Receiver → Option Receiver
count_error p n =
    if p.node_id == rs_error_id
    then (do
      curr_num_error ← read32 p.payload 0
      some (
          if ltb curr_num_error (2 ^ 31)
          then record n { rs_error_bytes = add32 n.rs_error_bytes curr_num_error }
          else record n {
            uncorrected_bytes = add32 n.uncorrected_bytes (2 ^ 32 - curr_num_error);
          }))
    else some n

-- The packet goes to the queue under the node's own id.
unfoldable pub enqueue_vlc : ℕ → Packet → Receiver → Receiver
unfolding newly_dropped
enqueue_vlc packet_length p n = record n {
  process_queue = (Fifo.push n.process_queue (record p { node_id = self_id })).1;
  from_vlc = add32 n.from_vlc 1;
  is_first_received = false;
  dropped_bytes = add32 n.dropped_bytes (newly_dropped packet_length p.seq_number n);
  curr_seq_number = p.seq_number;
  total_bytes = add32 n.total_bytes packet_length;
}

-- What follows `generate_from_bytes`.
unfoldable pub use_vlc : ℕ → Packet → Receiver → Option Receiver
unfolding count_error enqueue_vlc
use_vlc packet_length p n =
    let counted : Receiver = record n { total_packet = add32 n.total_packet 1 } in
    let framed : Receiver =
      if ltb 0 p.vlc_id && leb p.vlc_id n_vlc then record counted { frame_rx = 1 } else counted in
    if (p.node_id == self_id) || (p.node_id == rs_error_id)
    then (do checked ← count_error p framed; some (enqueue_vlc packet_length p checked))
    else if p.node_id == dummy_packet_node_id
    then some framed
    else some counted

-- `vlc_bytes` is what `recvfrom` returned, and `buff` the buffer after it.
unfoldable pub receive_vlc : ℕ → List ℕ → Receiver → Option Receiver
unfolding use_vlc
receive_vlc vlc_bytes buff n =
    if ltb 0 vlc_bytes
    then (do
      packet_length ← word_at buff 0 1
      if ltb 0 packet_length && leb packet_length mtu_value
          then (do
            arrived_packet ← generate_from_bytes buff
            use_vlc packet_length arrived_packet n)
          else some n)
    else some n

-- What `recvfrom` returned is not looked at.
unfoldable pub receive_rf : List ℕ → Receiver → Option Receiver
receive_rf buf n =
    if is_from_gateway buf
    then (do
      arrived_packet ← packet_from_rf buf
      some (record n {
        process_queue = (Fifo.push n.process_queue arrived_packet).1;
        from_rf = add32 n.from_rf 1;
      }))
    else some n

module _ (F : Doubles) where
  open F use {D, of_int, add, sub, mul}

  -- One period: the new `VLC_LQ[0][0]`, and `Frame_Rx` reset. `alpha` is `ALPHA`.
  unfoldable pub vlc_quality_measurement : D → D → Receiver → D × Receiver
  vlc_quality_measurement alpha vlc_lq n = (
    add (mul (sub (of_int (pos 1)) alpha) vlc_lq) (mul alpha (of_int (pos n.frame_rx))),
    record n { frame_rx = 0 },
  )
