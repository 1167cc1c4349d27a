-- ===== src/Node/Rounds.antt =====
-- The node's receiving threads and `process_data` of `node (rf)_node1/main.c` together, a round of
-- one of them at a time.
use ciot_vlc.Base.{ℕ, Option, none, some, List, [], ◌∷◌, ◌++◌, ◌>>=◌}
use ciot_vlc.Packet.{Packet}
use ciot_vlc.Queue.Fifo
use ciot_vlc.Queue.Fifo.{Fifo}
use ciot_vlc.Node.Status.{NodeStatus, initialize_node_status, process_data}
use ciot_vlc.Node.Receive.{Receiver, initial_receiver, receive_vlc, receive_rf}

-- `processed` records the packets that `process_data` took; the code has no such list.
pub record Node : Type 0 where
  pub receiver : Receiver
  pub status : NodeStatus
  pub processed : List Packet

unfoldable pub initial_node : ℕ → Node
initial_node max_sequence = record {
  receiver = initial_receiver;
  status = initialize_node_status max_sequence;
  processed = [];
}

-- What follows `pop`.
unfoldable pub process_popped : ℕ → Node → Option Packet → Fifo → Option Node
process_popped max_ack n none rest = some n
process_popped max_ack n (some p) rest = do
  status ← process_data max_ack n.status p.seq_number
  some (record {
    receiver = record n.receiver { process_queue = rest };
    status = status;
    processed = n.processed ++ p ∷ [];
  })

-- A round of `process_data`: nothing to do on an empty queue.
unfoldable pub process_next : ℕ → Node → Option Node
unfolding process_popped
process_next max_ack n =
    let (temp, rest) = Fifo.pop n.receiver.process_queue in process_popped max_ack n temp rest

-- Which thread makes its round, with what `recvfrom` gave it.
pub data NodeEvent : Type 0 where
  rf_round : (buf : List ℕ) → NodeEvent
  vlc_round : (vlc_bytes : ℕ) → (buff : List ℕ) → NodeEvent
  process_round : NodeEvent

unfoldable pub step_node : ℕ → NodeEvent → Node → Option Node
step_node max_ack (rf_round buf) n = do
  receiver ← receive_rf buf n.receiver
  some (record n { receiver = receiver })
step_node max_ack (vlc_round vlc_bytes buff) n = do
  receiver ← receive_vlc vlc_bytes buff n.receiver
  some (record n { receiver = receiver })
step_node max_ack process_round n = process_next max_ack n

unfoldable pub run_node : ℕ → List NodeEvent → Node → Option Node
run_node max_ack [] n = some n
run_node max_ack (event ∷ events) n = do n' ← step_node max_ack event n; run_node max_ack events n'
