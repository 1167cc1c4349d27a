-- ===== src/VlcTx/Wire.antt =====
-- What the transmitter reads from the gateway's frames and writes to the VLC device:
-- `gateway_packet.c`, and `is_for_this_tx` and `transmit_to_vlc` of `main.c`.
use ciot_vlc.Base.{
  ℕ, Bool, ◌&&◌, Option, some, List, [], ◌>>=◌, le16, le32, read16, read32, put, read_payload,
  put_payload,
}
use ciot_vlc.Packet.{Packet, generate_gateway_packet, Mac, mac, dhost_is, shost_is, buf_size}

-- `GATEWAY_DEST_MAC0`.. and `MY_ETH_MAC0`.. of `vlctx.h`.
abbrev pub gateway_dest_mac : Mac
gateway_dest_mac = mac 0xa0 0xf6 0xfd 0x64 0xaf 0xfc

abbrev pub my_eth_mac : Mac
my_eth_mac = mac 0xb0 0xd5 0xcc 0xfc 0xfe 0x85

unfoldable pub is_for_this_tx : List ℕ → Bool
is_for_this_tx eh = shost_is eh gateway_dest_mac && dhost_is eh my_eth_mac

-- `none` is a read past the end of the receive buffer.
unfoldable pub generate_gateway_packet_from_bytes : List ℕ → Option Packet
unfolding generate_gateway_packet
generate_gateway_packet_from_bytes buff = do
  node_id ← read16 buff 0
  vlc_id ← read16 buff 2
  payload_len ← read16 buff 4
  seq_number ← read32 buff 6
  payload ← read_payload payload_len 10 buff
  some (generate_gateway_packet node_id vlc_id payload_len seq_number payload)

-- The bytes that `write` is given for the VLC device; `none` is a write past `vlc_buff`.
unfoldable pub transmit_to_vlc : Packet → Option (List ℕ)
transmit_to_vlc packet = do
  vlc_buff ← put buf_size (le16 packet.payload_len) []
  vlc_buff ← put buf_size (le16 packet.node_id) vlc_buff
  vlc_buff ← put buf_size (le16 packet.vlc_id) vlc_buff
  vlc_buff ← put buf_size (le32 packet.seq_number) vlc_buff
  put_payload buf_size packet.payload_len 0 packet.payload vlc_buff
