-- ===== src/Link/World.antt =====
-- The gateway and the node with the air between them: RF frames and report frames that were sent
-- may arrive late, in another order, more than once or never.
pub mod Status
pub mod Invariant
pub mod Steps
pub mod Safety
pub mod Once
pub mod Serving
pub mod Reported
pub mod Delivery
use ciot_vlc.Base.{
  ℕ, suc, ◌+◌, ◌≤◌, ◌<◌, ◌≡◌, Option, some, List, [], ◌∷◌, ◌++◌, ◌>>=◌, length, get_elem?,
}
use ciot_vlc.Doubles.{Doubles}
use ciot_vlc.Gateway.State.{Gateway, initial}
use ciot_vlc.Gateway.Send.{transmit_packet_rf}
use ciot_vlc.Gateway.Receive.{receive_report}
use ciot_vlc.Gateway.Step.{Event, Interfaces, step}
use ciot_vlc.Gateway.Flow.Run.{IsLossless, generated}
use ciot_vlc.Node.Wire.{my_mac}
use ciot_vlc.Node.Status.{max_seq_number, max_ack_bit_pattern}
use ciot_vlc.Node.SendReport.{send_report}
use ciot_vlc.Node.Rounds.{Node, initial_node, rf_round, process_round, step_node}

-- `reports` records the report frames sent; the RF frames sent are those of `gateway.rf_sent`.
pub record World (D : Type 0) : Type 0 where
  pub gateway : Gateway D
  pub node : Node
  pub reports : List (List ℕ)

-- Who makes a step. A delivery is the `index`-th frame sent, however often it came before, with
-- `stale` behind it in the receiver's buffer.
pub data WorldEvent : Type 0 where
  gateway_round : (event : Event) → WorldEvent
  rf_delivery : (index : ℕ) → (stale : List ℕ) → WorldEvent
  node_round : WorldEvent
  node_report : (quality : ℕ) → WorldEvent
  report_delivery : (index : ℕ) → (numbytes : ℕ) → (stale : List ℕ) → WorldEvent

abbrev pub initial_world : {D : Type 0} → D → World D
initial_world zero_error = record {
  gateway = initial zero_error;
  node = initial_node max_seq_number;
  reports = [];
}

-- When an event may come: a lossless round of the gateway, with fewer packets than the window
-- generated in all; the delivery of a frame that was sent; a report of a node that has packet 0 and
-- whose window fits into the frame.
abbrev pub Allowed : {D : Type 0} → WorldEvent → World D → Type 0
Allowed (gateway_round event) w =
    IsLossless event × (w.gateway.arr_seq + generated (event ∷ []) < max_ack_bit_pattern)
Allowed (rf_delivery index stale) w = index < length w.gateway.rf_sent
Allowed node_round w = Unit {0}
Allowed (node_report quality) w =
    (0 < w.node.status.rcv_seq) × (w.node.status.last_rcv_seq + 1 ≤ w.node.status.rcv_seq + 7984)
Allowed (report_delivery index numbytes stale) w = (index < length w.reports) × (0 < numbytes)

module _ (F : Doubles) (i : Interfaces) where
  open F use {D}

  unfoldable pub step_world : WorldEvent → World D → Option (World D)
  step_world (gateway_round event) w = do
    gateway ← step F i event w.gateway
    some (record w { gateway = gateway })
  step_world (rf_delivery index stale) w = do
    p ← get_elem? w.gateway.rf_sent index
    frame ← transmit_packet_rf i.rf_if_mac i.ether_type p
    node ← step_node max_ack_bit_pattern (rf_round (frame ++ stale)) w.node
    some (record w { node = node })
  step_world node_round w = do
    node ← step_node max_ack_bit_pattern process_round w.node
    some (record w { node = node })
  step_world (node_report quality) w = do
    frame ← send_report my_mac i.ether_type quality w.node.status
    some (record w { reports = w.reports ++ frame ∷ [] })
  step_world (report_delivery index numbytes stale) w = do
    frame ← get_elem? w.reports index
    gateway ← receive_report F numbytes (frame ++ stale) w.gateway
    some (record w { gateway = gateway })

  -- Allowed steps lead from one world to another.
  pub data Runs (w : World D) : World D → Type 0 where
    stay : Runs w w
    then :
        {w1 w2 : World D} (event : WorldEvent)
        → Runs w w1
        → Allowed event w1
        → step_world event w1 ≡ some w2
        → Runs w w2
