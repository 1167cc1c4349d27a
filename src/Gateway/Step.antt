-- ===== src/Gateway/Step.antt =====
-- The threads that `main` of `gateway (eth)_gateway/main.c` starts, a round of one of them at a
-- time. `check_unacked` is not among them: its `pthread_create` is commented out.
use ciot_vlc.Base.{ℕ, Bool, Option, some, List, [], ◌∷◌, ◌>>=◌}
use ciot_vlc.Doubles.{Doubles}
use ciot_vlc.Packet.{Mac}
use ciot_vlc.Gateway.State.{Gateway}
use ciot_vlc.Gateway.Schedule.{schedule}
use ciot_vlc.Gateway.Transmit.{transmit_rf, add_token, tbf_transmit, transmit_vlc}
use ciot_vlc.Gateway.Produce.{generate_packet, schedule_packet}
use ciot_vlc.Gateway.Receive.{receive_report, receive_vlc_report}

-- Which thread makes its round, with what the round takes from outside.
pub data Event : Type 0 where
  transmit_rf_round : Event
  add_token_round : Event
  tbf_transmit_round : (sent : Bool) → Event
  transmit_vlc_round : Event
  generate_packet_round : (bytes : List ℕ) → Event
  schedule_packet_round : (now : ℕ) → Event
  receive_report_round : (numbytes : ℕ) → (buf : List ℕ) → Event
  receive_vlc_report_round : (buf : List ℕ) → Event

-- The addresses of the two interfaces, and the value of `htons(ETH_P_ALL)`.
pub record Interfaces : Type 0 where
  pub rf_if_mac : Mac
  pub eth_if_mac : Mac
  pub ether_type : ℕ

module _ (F : Doubles) (i : Interfaces) where
  open F use {D}

  unfoldable pub step : Event → Gateway D → Option (Gateway D)
  step transmit_rf_round g = transmit_rf g
  step add_token_round g = some (add_token g)
  step (tbf_transmit_round sent) g = tbf_transmit i.rf_if_mac i.ether_type sent g
  step transmit_vlc_round g = transmit_vlc i.eth_if_mac i.ether_type g
  step (generate_packet_round bytes) g = some (generate_packet bytes g)
  step (schedule_packet_round now) g = do
    sched_result ← schedule F 2 g.gn g.r (g.vk ∷ []) (g.e ∷ [])
    schedule_packet now sched_result g
  step (receive_report_round numbytes buf) g = receive_report F numbytes buf g
  step (receive_vlc_report_round buf) g = receive_vlc_report buf g

  unfoldable pub run : List Event → Gateway D → Option (Gateway D)
  run [] g = some g
  run (event ∷ events) g = do g' ← step event g; run events g'
