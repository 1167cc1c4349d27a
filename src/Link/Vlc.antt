-- ===== src/Link/Vlc.antt =====
-- The VLC path: `transmit_packet_vlc` of the gateway, the transmitter that forwards the packet,
-- and `generate_from_bytes` of the node.
use ciot_vlc.Base.{
  ℕ, ◌+◌, ◌*◌, ◌%◌, ◌/◌, ◌≤◌, ◌<◌, ◌^◌, ◌≡◌, refl, true, some, none, List, ◌++◌, arith,
  length-append, put_payload-append, put_payload-none, read_payload-take, take_all, take_all_append,
  le16_value, le32_value, le16, le32, inl, inr, leb, Bool-cases, leb→le, leb→lt, drop,
}
use ciot_vlc.Packet.{Packet, IsPacket, Mac, ether_header, header_len}
use ciot_vlc.Gateway.Send.{transmit_packet_vlc, my_mac, vlc_mac}
use ciot_vlc.VlcTx.Wire.{is_for_this_tx, generate_gateway_packet_from_bytes, transmit_to_vlc}
use ciot_vlc.Node.Wire.{generate_from_bytes}

-- The packet that the transmitter is to read: its VLC id counts from 1.
abbrev pub on_vlc : Packet → Packet
on_vlc p = record p { vlc_id = p.vlc_id + 1 }

abbrev eth_fields : Packet → List ℕ
eth_fields p = le16 p.node_id ++ (le16 (p.vlc_id + 1) ++ (le16 p.payload_len ++ le32 p.seq_number))

abbrev pub eth_head : Mac → ℕ → Packet → List ℕ
eth_head hwaddr ether_type p = ether_header vlc_mac hwaddr ether_type ++ eth_fields p

abbrev pub vlc_head : Packet → List ℕ
vlc_head p = le16 p.payload_len ++ (le16 p.node_id ++ (le16 p.vlc_id ++ le32 p.seq_number))

pub transmit_packet_vlc-frame :
    (hwaddr : Mac) (ether_type : ℕ) (p : Packet)
    → IsPacket p
    → p.payload_len ≤ 1000
    → transmit_packet_vlc hwaddr ether_type p ≡ some (eth_head hwaddr ether_type p ++ p.payload)
unfolding transmit_packet_vlc
transmit_packet_vlc-frame hwaddr ether_type p v h =
    rw
      (
        put_payload-append 1024 p.payload_len 0 p.payload (eth_head hwaddr ether_type p)
            (omega (arith, v.bytes)) (omega arith),
        take_all p.payload_len p.payload v.bytes,
      )
      refl

transmit_packet_vlc-none :
    (hwaddr : Mac) (ether_type : ℕ) (p : Packet)
    → IsPacket p
    → 1000 < p.payload_len
    → transmit_packet_vlc hwaddr ether_type p ≡ none
unfolding transmit_packet_vlc
transmit_packet_vlc-none hwaddr ether_type p v h =
    put_payload-none 1024 p.payload_len 0 p.payload (eth_head hwaddr ether_type p)
      (omega (arith, v.bytes)) (omega arith) (omega arith)

tx_reads :
    (ether_type : ℕ) (p : Packet) (stale : List ℕ)
    → IsPacket p
    → p.vlc_id + 1 < 2 ^ 16
    → (is_for_this_tx ((eth_head my_mac ether_type p ++ p.payload) ++ stale) ≡ true)
      × (generate_gateway_packet_from_bytes
            (drop header_len ((eth_head my_mac ether_type p ++ p.payload) ++ stale))
          ≡ some (on_vlc p))
unfolding is_for_this_tx generate_gateway_packet_from_bytes
tx_reads ether_type p stale v h = (
  refl,
  rw
      (
        le16_value p.node_id v.node,
        le16_value (p.vlc_id + 1) h,
        le16_value p.payload_len v.len,
        le32_value p.seq_number v.seq,
        read_payload-take p.payload_len 10 (eth_fields p ++ (p.payload ++ stale))
            (omega (arith, v.bytes, length-append {0} p.payload stale)),
        take_all_append p.payload_len p.payload stale v.bytes,
      )
      refl,
)

-- For a packet whose fields fit their types and whose VLC id has a successor of 16 bits: the
-- transmitter takes the frame that the gateway sent for its own and reads back the packet that was
-- sent, its VLC id one higher, whatever the receive buffer held before.
pub generate_gateway_packet_from_bytes-transmit_packet_vlc :
    (ether_type : ℕ) (p : Packet) (stale : List ℕ) {frame : List ℕ}
    → IsPacket p
    → p.vlc_id + 1 < 2 ^ 16
    → transmit_packet_vlc my_mac ether_type p ≡ some frame
    → (is_for_this_tx (frame ++ stale) ≡ true)
      × (generate_gateway_packet_from_bytes (drop header_len (frame ++ stale)) ≡ some (on_vlc p))
generate_gateway_packet_from_bytes-transmit_packet_vlc ether_type p stale {frame} v h e =
    elim (Bool-cases (leb p.payload_len 1000)) [
      | inl fits ↦
          let same : frame ≡ eth_head my_mac ether_type p ++ p.payload =
            cc (transmit_packet_vlc-frame my_mac ether_type p v (leb→le p.payload_len 1000 fits)) in
          rw same (tx_reads ether_type p stale v h)
      | inr big ↦
          cc (transmit_packet_vlc-none my_mac ether_type p v (leb→lt p.payload_len 1000 big))
    ]

pub transmit_to_vlc-frame :
    (p : Packet)
    → IsPacket p
    → p.payload_len ≤ 1014
    → transmit_to_vlc p ≡ some (vlc_head p ++ p.payload)
unfolding transmit_to_vlc
transmit_to_vlc-frame p v h =
    rw
      (
        put_payload-append 1024 p.payload_len 0 p.payload (vlc_head p) (omega (arith, v.bytes))
            (omega arith),
        take_all p.payload_len p.payload v.bytes,
      )
      refl

pub word_value : (n : ℕ) → n < 2 ^ 16 → ((n / 256) % 256) * 256 + n % 256 ≡ n
word_value n h = omega arith

pub node_reads :
    (p : Packet) (stale : List ℕ)
    → IsPacket p
    → generate_from_bytes ((vlc_head p ++ p.payload) ++ stale) ≡ some p
unfolding generate_from_bytes
node_reads p stale v =
    rw
      (
        word_value p.node_id v.node,
        word_value p.vlc_id v.vlc,
        word_value p.payload_len v.len,
        le32_value p.seq_number v.seq,
        read_payload-take p.payload_len 10 (vlc_head p ++ (p.payload ++ stale))
            (omega (arith, v.bytes, length-append {0} p.payload stale)),
        take_all_append p.payload_len p.payload stale v.bytes,
      )
      refl

-- For a packet whose fields fit their types, of at most 1014 payload bytes, the transmitter writes
-- bytes to the VLC device that the node reads back as that packet, whatever follows them.
pub generate_from_bytes-transmit_to_vlc :
    (p : Packet) (stale : List ℕ)
    → IsPacket p
    → p.payload_len ≤ 1014
    → (bytes : List ℕ) × (transmit_to_vlc p ≡ some bytes)
      × (generate_from_bytes (bytes ++ stale) ≡ some p)
generate_from_bytes-transmit_to_vlc p stale v h =
    (vlc_head p ++ p.payload, transmit_to_vlc-frame p v h, node_reads p stale v)
