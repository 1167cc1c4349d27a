-- ===== src/Examples/Links.antt =====
-- One packet over each link, and a report back.
use ciot_vlc.Base.{
  ℕ, zero, suc, ◌≡◌, refl, none, some, List, [], ◌∷◌, ◌++◌, length, arith, put_payload,
}
use ciot_vlc.Packet.{Packet}
use ciot_vlc.Gateway.Send.{rf_mac, my_mac, transmit_packet_rf, transmit_packet_vlc}
use ciot_vlc.Gateway.State.{initial}
use ciot_vlc.Gateway.Receive.{receive_report, receive_vlc_report}
use ciot_vlc.VlcTx.Wire.{my_eth_mac}
use ciot_vlc.VlcTx.Rounds.{
  Tx, initial_tx, TxEvent, transmit_round, receive_round, run_tx, send_queue_report,
}
use ciot_vlc.Node.Wire
use ciot_vlc.Node.Wire.{generate_from_bytes, is_from_gateway, packet_from_rf}
use ciot_vlc.Node.SendReport.{send_report}
use ciot_vlc.Link.Report.{send_report-overflow}
use ciot_vlc.Link.Acks.{reported, receive_report-send_report, receive_report-missing_first}
use ciot_vlc.Link.Tx.{
  Receives, stop, transmits, receives, all_on_vlc, run_tx-in_order,
  receive_vlc_report-send_queue_report,
}
use ciot_vlc.Examples.Data.{
  whole, sample, sample-IsPacket, rf_frame, eth_frame, gapped, headless, gapped-IsStatus,
  headless-IsStatus,
}

sends_rf : transmit_packet_rf rf_mac 0x300 sample ≡ some rf_frame
unfolding transmit_packet_rf put_payload
sends_rf = refl

sends_eth : transmit_packet_vlc my_mac 0x300 sample ≡ some eth_frame
unfolding transmit_packet_vlc put_payload
sends_eth = refl

abbrev zeros : ℕ → List ℕ
zeros zero = []
zeros (suc n) = 0 ∷ zeros n

send_report-overflow_example :
    send_report Wire.my_mac 0x300 200
      (record { rcv_seq = 0; rcv_state = zeros 8000; last_rcv_seq = 7984 })
    ≡ none
send_report-overflow_example =
    send_report-overflow Wire.my_mac 0x300 200
      (record { rcv_seq = 0; rcv_state = zeros 8000; last_rcv_seq = 7984 }) (omega arith)
      (omega arith)

receive_report-send_report_example :
    (frame : List ℕ) × (send_report Wire.my_mac 0x300 255 gapped ≡ some frame)
    × (receive_report whole 20 (frame ++ 9 ∷ []) (initial 0)
        ≡ some (reported whole 255 gapped (initial 0)))
receive_report-send_report_example =
    receive_report-send_report whole 0x300 255 20 gapped (9 ∷ []) (initial 0) (omega arith)
      gapped-IsStatus (omega arith) (omega arith) (omega arith)

receive_report-missing_first_example :
    (frame : List ℕ) × (send_report Wire.my_mac 0x300 255 headless ≡ some frame)
    × (receive_report whole 20 (frame ++ 9 ∷ []) (initial 0) ≡ none)
receive_report-missing_first_example =
    receive_report-missing_first whole 0x300 255 20 headless (9 ∷ []) (initial 0) (omega arith)
      headless-IsStatus (omega arith) refl (omega arith)

abbrev tx_events : List TxEvent
tx_events =
    receive_round (eth_frame ++ 9 ∷ []) ∷ receive_round (eth_frame ++ []) ∷ transmit_round ∷ []

two_frames : Receives 0x300 tx_events (sample ∷ sample ∷ [])
two_frames =
    receives (9 ∷ []) sample-IsPacket (omega arith) (omega arith) sends_eth
      (receives [] sample-IsPacket (omega arith) (omega arith) sends_eth (transmits stop))

run_tx-in_order_example :
    (t : Tx) × (run_tx tx_events initial_tx ≡ some t)
    × (t.queue_size ≡ length t.vlc_queue.items)
    × (t.vlc_sent ++ t.vlc_queue.items ≡ all_on_vlc (sample ∷ sample ∷ []))
run_tx-in_order_example = run_tx-in_order two_frames (omega arith)

abbrev busy_tx : Tx
busy_tx = record {
  vlc_queue = record { items = []; limit = 1000000 };
  queue_size = 70000;
  vlc_sent = [];
}

receive_vlc_report-send_queue_report_example :
    receive_vlc_report {D = ℕ} (send_queue_report my_eth_mac 0x300 busy_tx ++ 9 ∷ []) (initial 0)
    ≡ some (record (initial 0) { vk = 70000 })
receive_vlc_report-send_queue_report_example =
    receive_vlc_report-send_queue_report 0x300 busy_tx (9 ∷ []) (initial 0) (omega arith)

abbrev last_number : Packet
last_number = record sample { seq_number = 499999 }

abbrev first_number : Packet
first_number = record sample { seq_number = 0 }
