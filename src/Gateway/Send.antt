-- ===== src/Gateway/Send.antt =====
-- `transmit_packet_rf` and `transmit_packet_vlc` of `gateway (eth)_gateway/main.c`: the frames
-- that the gateway hands to `sendto`. `none` is a write past the end of `sendbuf`.
use ciot_vlc.Base.{ℕ, ◌+◌, Option, List, [], ◌>>=◌, le16, le32, put, put_payload}
use ciot_vlc.Packet.{Packet, Mac, mac, ether_header, buf_size}

-- `RF_MAC0`..`RF_MAC5`, `MY_MAC0`.., `VLC_MAC0`.., `NODE_MAC0`.. of `gateway.h`.
abbrev pub rf_mac : Mac
rf_mac = mac 0x18 0xa6 0xf7 0x1a 0xa9 0x04

abbrev pub my_mac : Mac
my_mac = mac 0xa0 0xf6 0xfd 0x64 0xaf 0xfc

abbrev pub vlc_mac : Mac
vlc_mac = mac 0xb0 0xd5 0xcc 0xfc 0xfe 0x85

abbrev pub node_mac : Mac
node_mac = mac 0xec 0x08 0x6b 0x13 0x1e 0x5c

-- `hwaddr` is what `ioctl(SIOCGIFHWADDR)` left in `rf_if_mac`. The VLC id of the frame is 0.
unfoldable pub transmit_packet_rf : Mac → ℕ → Packet → Option (List ℕ)
transmit_packet_rf hwaddr ether_type p = do
  sendbuf ← put buf_size (ether_header node_mac hwaddr ether_type) []
  sendbuf ← put buf_size (le16 p.node_id) sendbuf
  sendbuf ← put buf_size (le16 0) sendbuf
  sendbuf ← put buf_size (le16 p.payload_len) sendbuf
  sendbuf ← put buf_size (le32 p.seq_number) sendbuf
  put_payload buf_size p.payload_len 0 p.payload sendbuf

-- The VLC id on the wire counts from 1; two bytes of the `int` are copied.
unfoldable pub transmit_packet_vlc : Mac → ℕ → Packet → Option (List ℕ)
transmit_packet_vlc hwaddr ether_type content = do
  sendbuf ← put buf_size (ether_header vlc_mac hwaddr ether_type) []
  let vlc_id = content.vlc_id + 1
  sendbuf ← put buf_size (le16 content.node_id) sendbuf
  sendbuf ← put buf_size (le16 vlc_id) sendbuf
  sendbuf ← put buf_size (le16 content.payload_len) sendbuf
  sendbuf ← put buf_size (le32 content.seq_number) sendbuf
  put_payload buf_size content.payload_len 0 content.payload sendbuf
