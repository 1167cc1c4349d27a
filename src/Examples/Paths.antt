-- ===== src/Examples/Paths.antt =====
-- A packet all the way over the light.
use ciot_vlc.Base.{ℕ, ◌≡◌, refl, true, false, some, List, [], ◌∷◌, ◌++◌, drop, replicate, arith}
use ciot_vlc.Packet.{header_len}
use ciot_vlc.Pru.{Memory, readw, writew, memcpy_fromio}
use ciot_vlc.Gateway.Send.{my_mac, transmit_packet_vlc}
use ciot_vlc.VlcTx.Wire.{generate_gateway_packet_from_bytes, transmit_to_vlc}
use ciot_vlc.VlcTx.Pool.{Driver, vlc_tx, phy_timer_handler}
use ciot_vlc.Node.Driver.{pru_phy_decoding}
use ciot_vlc.Node.Receive.{initial_receiver, receive_vlc}
use ciot_vlc.Link.Vlc.{on_vlc}
use ciot_vlc.Link.Receive.{with_vlc}
use ciot_vlc.Link.Driver.{delivered}
use ciot_vlc.Link.Overrun.{phy_timer_handler-overrun}
use ciot_vlc.Link.Path.{IsIdle, Carries, receive_vlc-over_light}
use ciot_vlc.Examples.Data.{sample, sample-IsPacket}
use ciot_vlc.Examples.Drivers.{checksum, compare_checksum, cleared}

abbrev idle : Driver
idle = record {
  ppool = 2;
  tx_queue = [];
  stopped = false;
  is_write_next = true;
  write_idx = 4;
  pru0 = writew (writew cleared 0 4) 2 4;
  vlc_q_pkt = [];
}

idle-IsIdle : IsIdle idle
idle-IsIdle = record { free = omega arith; queue = refl; writes = refl }

-- The bytes stay where they are; the node's write index is 200, and its read index 4.
abbrev copied : Memory → Memory
copied pru = writew (writew pru 0 200) 2 4

copied-Carries : Carries 4 4 28 copied
unfolding memcpy_fromio
copied-Carries = record { block = λ pru. refl; at_read = λ pru. refl; more = λ pru. refl }

receive_vlc-over_light_example :
    (frame : List ℕ) × (transmit_packet_vlc my_mac 0x300 sample ≡ some frame)
    × (generate_gateway_packet_from_bytes (drop header_len (frame ++ 9 ∷ []))
        ≡ some (on_vlc sample))
    × (bytes : List ℕ) × (transmit_to_vlc (on_vlc sample) ≡ some bytes)
    × (d1 : Driver) × (vlc_tx bytes (replicate 1998 0) idle ≡ some d1)
    × (d2 : Driver) × (phy_timer_handler checksum d1 ≡ some d2)
    × (pru_phy_decoding compare_checksum (copied d2.pru0)
        ≡ some (delivered bytes 4 12 (copied d2.pru0)))
    × (receive_vlc 12 (bytes ++ 9 ∷ []) initial_receiver
        ≡ some (with_vlc (on_vlc sample) initial_receiver))
receive_vlc-over_light_example =
    receive_vlc-over_light checksum compare_checksum 0x300 sample (9 ∷ []) (9 ∷ [])
      (replicate 1998 0) idle copied 4 12 initial_receiver sample-IsPacket refl (omega arith)
      (omega arith) (omega arith) idle-IsIdle refl (omega arith) (omega arith) refl refl
      copied-Carries (omega arith)

abbrev queued_bytes : List ℕ
queued_bytes = 2 ∷ 0 ∷ 1 ∷ 0 ∷ 1 ∷ 0 ∷ 5 ∷ 0 ∷ 0 ∷ 0 ∷ 7 ∷ 8 ∷ []

-- The write index is 80, and the read index 100.
abbrev behind : Driver
behind = record idle {
  tx_queue = (queued_bytes ++ replicate 1998 0) ∷ [];
  pru0 = writew (writew cleared 0 80) 2 100;
}

phy_timer_handler-overrun_example :
    (d' : Driver) × (phy_timer_handler checksum behind ≡ some d')
    × (memcpy_fromio d'.pru0 80 28 ≡ queued_bytes ++ checksum queued_bytes)
    × (readw d'.pru0 0 ≡ 108)
    × (readw d'.pru0 2 ≡ 100)
    × (d'.is_write_next ≡ true)
phy_timer_handler-overrun_example =
    phy_timer_handler-overrun checksum compare_checksum 2 0 (drop 2 queued_bytes) (replicate 1998 0)
      [] behind 80 100 refl refl refl (omega arith) (omega arith) refl refl refl (omega arith)
      (omega arith) (omega arith) (omega arith)
