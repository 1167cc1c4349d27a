-- ===== src/Examples/Worlds.antt =====
-- Short runs of the gateway and the node with the air between them.
use ciot_vlc.Base.{
  ℕ, ◌+◌, ◌≤◌, ◌<◌, ◌≡◌, refl, true, some, [], ◌∷◌, length, arith, replicate, put_payload,
}
use ciot_vlc.Queue.Fifo
use ciot_vlc.Gateway.State.{initial, decrement, store}
use ciot_vlc.Gateway.Send.{transmit_packet_rf}
use ciot_vlc.Gateway.Transmit.{transmit_rf, add_token, tbf_transmit}
use ciot_vlc.Gateway.Produce.{generate_packet, schedule_packet, to_rf}
use ciot_vlc.Gateway.Schedule.{schedule}
use ciot_vlc.Gateway.Step.{
  transmit_rf_round, add_token_round, tbf_transmit_round, generate_packet_round,
  schedule_packet_round, step,
}
use ciot_vlc.Gateway.Flow.{numbers, upto}
use ciot_vlc.Link.World.{
  World, initial_world, gateway_round, rf_delivery, node_report, report_delivery, step_world, Runs,
  stay, then,
}
use ciot_vlc.Link.World.Invariant.{AreSent, IsWorld, initial-IsWorld}
use ciot_vlc.Link.World.Status.{Includes}
use ciot_vlc.Link.World.Safety.{Runs-IsWorld, ack_bound, Runs-acknowledged, Runs-progress}
use ciot_vlc.Link.World.Serving.{Runs-trans}
use ciot_vlc.Link.World.Once.{Runs-sent_once}
use ciot_vlc.Link.World.Reported.{Runs-reported}
use ciot_vlc.Link.World.Delivery.{Runs-delivered}
use ciot_vlc.Examples.Data.{whole, interfaces}

abbrev start : World ℕ
start = initial_world 0

-- The gateway generates packet 0.
abbrev generated_one : World ℕ
unfolding generate_packet
generated_one = record start { gateway = generate_packet (replicate 74 3) (initial 0) }

runs_one : Runs whole interfaces start generated_one
unfolding step_world step initial generated_one
runs_one =
    then (gateway_round (generate_packet_round (replicate 74 3))) stay (refl, omega arith) refl

-- All acknowledged, in a world that `w` leads to.
abbrev AllAcknowledged : World ℕ → Type 0
AllAcknowledged w =
    (w' : World ℕ) × Runs whole interfaces w w'
    × (w'.gateway.arr_seq ≡ 1)
    × (w'.gateway.unacked_seq ≡ 1)
    × (w'.node.receiver.process_queue.items ≡ [])
    × Includes 1 (numbers w'.node.processed)

delivered : AllAcknowledged generated_one
unfolding generate_packet initial
delivered = Runs-delivered whole interfaces refl 0 runs_one (omega arith)

all_steps : Runs whole interfaces start delivered.0
all_steps = Runs-trans whole interfaces refl runs_one delivered.1

-- After a run in which the air brings the frame, the node has packet 0, and the gateway has its report.
Runs-acknowledged_example :
    let w : World ℕ = delivered.0 in
    Includes w.gateway.unacked_seq (numbers w.node.processed)
    × (w.gateway.unacked_seq ≤ w.node.status.rcv_seq)
    × (w.node.status.rcv_seq ≤ w.gateway.arr_seq)
    × AreSent w.gateway.rf_sent w.node.processed
Runs-acknowledged_example = Runs-acknowledged whole interfaces refl 0 all_steps

delivered_IsWorld : IsWorld interfaces.ether_type delivered.0
delivered_IsWorld =
    Runs-IsWorld whole interfaces refl all_steps (initial-IsWorld interfaces.ether_type 0)

delivered_first : 0 < delivered.0.node.status.rcv_seq
delivered_first = omega (arith, delivered_IsWorld.acked, delivered.2, delivered.3)

delivered_fits : delivered.0.node.status.last_rcv_seq + 1 ≤ delivered.0.node.status.rcv_seq + 7984
delivered_fits = omega (
  arith,
  delivered_IsWorld.node.tracks.room,
  ack_bound delivered.0 delivered_IsWorld,
  delivered.2,
  delivered.3,
)

Runs-reported_example :
    let w : World ℕ = delivered.0 in
    (w1 : World ℕ) × (step_world whole interfaces (node_report 3) w ≡ some w1)
    × (w2 : World ℕ) × (step_world whole interfaces
          (report_delivery (length w.reports) 60 (9 ∷ []))
          w1
        ≡ some w2)
    × (w2.gateway.unacked_seq ≡ w.node.status.rcv_seq)
    × (w2.gateway.unacked_seq ≡ w.gateway.arr_seq
        → Includes w.gateway.arr_seq (numbers w.node.processed))
    × (Includes w.gateway.arr_seq (numbers w.node.processed)
        → w2.gateway.unacked_seq ≡ w.gateway.arr_seq)
Runs-reported_example =
    Runs-reported whole interfaces refl 0 3 60 (9 ∷ []) all_steps delivered_first delivered_fits
      (omega arith)

-- The gateway has sent packet 0.
sent_one : (w : World ℕ) × Runs whole interfaces start w × (0 < length w.gateway.rf_sent)
unfolding step_world step initial generate_packet schedule_packet add_token transmit_rf tbf_transmit
    schedule Fifo.pop Fifo.push to_rf decrement store transmit_packet_rf put_payload
sent_one = (
  _,
  then (gateway_round (tbf_transmit_round true))
      (then (gateway_round transmit_rf_round)
        (then (gateway_round add_token_round)
          (then (gateway_round (schedule_packet_round 0))
            (then (gateway_round (generate_packet_round (replicate 74 3))) stay (refl, omega arith)
              refl)
            (tt, omega arith) refl)
          (tt, omega arith) refl)
        (tt, omega arith) refl)
      (tt, omega arith) refl,
  omega arith,
)

Runs-progress_example :
    (w' : World ℕ) × (step_world whole interfaces (rf_delivery 0 (9 ∷ [])) sent_one.0 ≡ some w')
Runs-progress_example =
    Runs-progress whole interfaces refl 0 (rf_delivery 0 (9 ∷ [])) sent_one.1 sent_one.2

Runs-sent_once_example :
    numbers sent_one.0.gateway.rf_sent ≡ upto (length sent_one.0.gateway.rf_sent)
Runs-sent_once_example = Runs-sent_once whole interfaces refl 0 sent_one.1
