-- ===== src/Examples/Systems.antt =====
-- Short runs of the node, and of the gateway and the node together.
use ciot_vlc.Base.{ℕ, ◌≡◌, refl, some, List, [], ◌∷◌, ◌++◌, arith, put_payload}
use ciot_vlc.Gateway.Send.{rf_mac, transmit_packet_rf}
use ciot_vlc.VlcTx.Wire.{transmit_to_vlc}
use ciot_vlc.Node.Rounds.{NodeEvent, rf_round, vlc_round, process_round}
use ciot_vlc.Link.Node.{Arrives, stop, processes, by_rf, by_vlc}
use ciot_vlc.Examples.Data.{sample, sample-IsPacket, rf_frame}

-- Sample packet 5 comes over RF, is processed, and comes again over the light.
abbrev light_bytes : List ℕ
light_bytes = 2 ∷ 0 ∷ 1 ∷ 0 ∷ 0 ∷ 0 ∷ 5 ∷ 0 ∷ 0 ∷ 0 ∷ 7 ∷ 8 ∷ []

sends_rf : transmit_packet_rf rf_mac 0x300 sample ≡ some rf_frame
unfolding transmit_packet_rf put_payload
sends_rf = refl

sends_light : transmit_to_vlc sample ≡ some light_bytes
unfolding transmit_to_vlc put_payload
sends_light = refl

abbrev node_events : List NodeEvent
node_events =
    rf_round (rf_frame ++ 9 ∷ []) ∷ process_round ∷ vlc_round 12 (light_bytes ++ 9 ∷ []) ∷ []

twice : Arrives 0x300 node_events (sample ∷ sample ∷ [])
twice = by_rf (9 ∷ []) sample-IsPacket sends_rf (
    processes (
      by_vlc (9 ∷ []) 12 sample-IsPacket refl (omega arith) (omega arith) (omega arith) sends_light
        stop))
