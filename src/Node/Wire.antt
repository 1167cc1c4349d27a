-- ===== src/Node/Wire.antt =====
-- What the node reads from the VLC device and from the gateway's RF frames: `node_packet.c`, and
-- `is_from_gateway` and the reading part of `receive_rf` of `main.c`.
use ciot_vlc.Base.{
  ℕ, ◌+◌, ◌*◌, Bool, ◌&&◌, Option, some, List, ◌>>=◌, read8, read16, read32, read_payload, drop,
}
use ciot_vlc.Packet.{Packet, generate_gateway_packet, Mac, mac, dhost_is, shost_is, header_len}

-- `MY_MAC0`.. and `GATEWAY_MAC0`.. of the node's `main.c`.
abbrev pub my_mac : Mac
my_mac = mac 0xec 0x08 0x6b 0x13 0x1e 0x5c

abbrev pub gateway_mac : Mac
gateway_mac = mac 0x18 0xa6 0xf7 0x1a 0xa9 0x04

-- `(buff[i + 1] << 8) + buff[i]`.
unfoldable pub word_at : List ℕ → ℕ → ℕ → Option ℕ
word_at buff lo hi = do h ← read8 buff hi; l ← read8 buff lo; some (h * 256 + l)

-- A packet from the VLC device, its length first.
unfoldable pub generate_from_bytes : List ℕ → Option Packet
unfolding generate_gateway_packet word_at
generate_from_bytes buff = do
  payload_len ← word_at buff 0 1
  node_id ← word_at buff 2 3
  vlc_id ← word_at buff 4 5
  seq_number ← read32 buff 6
  payload ← read_payload payload_len 10 buff
  some (generate_gateway_packet node_id vlc_id payload_len seq_number payload)

unfoldable pub is_from_gateway : List ℕ → Bool
is_from_gateway eh = shost_is eh gateway_mac && dhost_is eh my_mac

-- The packet of an RF frame, as `receive_rf` reads it behind the Ethernet header.
unfoldable pub packet_from_rf : List ℕ → Option Packet
unfolding generate_gateway_packet
packet_from_rf buf = do
  let report_content = drop header_len buf
  node_id ← read16 report_content 0
  vlc_id ← read16 report_content 2
  payload_len ← read16 report_content 4
  seq_number ← read32 report_content 6
  payload ← read_payload payload_len 10 report_content
  some (generate_gateway_packet node_id vlc_id payload_len seq_number payload)
