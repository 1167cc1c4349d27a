-- ===== src/Link/Rf.antt =====
-- The RF link: `transmit_packet_rf` of the gateway against `receive_rf` of the node.
use ciot_vlc.Base.{
  ℕ, ◌≤◌, ◌<◌, ◌≡◌, refl, true, some, none, List, ◌++◌, arith, length, length-append,
  put_payload-append, put_payload-none, read_payload-take, take_all, take_all_append, le16_value,
  le32_value, le16, le32, inl, inr, leb, Bool-cases, leb→le, leb→lt,
}
use ciot_vlc.Packet.{Packet, IsPacket, Mac, ether_header}
use ciot_vlc.Gateway.Send.{transmit_packet_rf, rf_mac, node_mac}
use ciot_vlc.Node.Wire.{is_from_gateway, packet_from_rf}

abbrev pub rf_fields : Packet → List ℕ
rf_fields p = le16 p.node_id ++ (le16 0 ++ (le16 p.payload_len ++ le32 p.seq_number))

-- The header and the fields of a packet's RF frame; the payload follows.
abbrev pub rf_head : Mac → ℕ → Packet → List ℕ
rf_head hwaddr ether_type p = ether_header node_mac hwaddr ether_type ++ rf_fields p

pub transmit_packet_rf-frame :
    (hwaddr : Mac) (ether_type : ℕ) (p : Packet)
    → length p.payload ≡ p.payload_len
    → p.payload_len ≤ 1000
    → transmit_packet_rf hwaddr ether_type p ≡ some (rf_head hwaddr ether_type p ++ p.payload)
unfolding transmit_packet_rf
transmit_packet_rf-frame hwaddr ether_type p v h =
    rw
      (
        put_payload-append 1024 p.payload_len 0 p.payload (rf_head hwaddr ether_type p)
            (omega (arith, v)) (omega arith),
        take_all p.payload_len p.payload v,
      )
      refl

-- A packet whose fields fit their types, with a payload of more than 1000 bytes, is written past
-- the end of `sendbuf`.
pub transmit_packet_rf-none :
    (hwaddr : Mac) (ether_type : ℕ) (p : Packet)
    → IsPacket p
    → 1000 < p.payload_len
    → transmit_packet_rf hwaddr ether_type p ≡ none
unfolding transmit_packet_rf
transmit_packet_rf-none hwaddr ether_type p v h =
    put_payload-none 1024 p.payload_len 0 p.payload (rf_head hwaddr ether_type p)
      (omega (arith, v.bytes)) (omega arith) (omega arith)

read_back :
    (ether_type : ℕ) (p : Packet) (stale : List ℕ)
    → IsPacket p
    → (is_from_gateway ((rf_head rf_mac ether_type p ++ p.payload) ++ stale) ≡ true)
      × (packet_from_rf ((rf_head rf_mac ether_type p ++ p.payload) ++ stale)
          ≡ some (record p { vlc_id = 0 }))
unfolding is_from_gateway packet_from_rf
read_back ether_type p stale v = (
  refl,
  rw
      (
        le16_value p.node_id v.node,
        le16_value p.payload_len v.len,
        le32_value p.seq_number v.seq,
        read_payload-take p.payload_len 10 (rf_fields p ++ (p.payload ++ stale))
            (omega (arith, v.bytes, length-append {0} p.payload stale)),
        take_all_append p.payload_len p.payload stale v.bytes,
      )
      refl,
)

-- For a packet whose fields fit their types: the node takes the frame that the gateway sent for
-- its own, and reads back the packet that was sent with VLC id 0, whatever the receive buffer held
-- before.
pub packet_from_rf-transmit_packet_rf :
    (ether_type : ℕ) (p : Packet) (stale : List ℕ) {frame : List ℕ}
    → IsPacket p
    → transmit_packet_rf rf_mac ether_type p ≡ some frame
    → (is_from_gateway (frame ++ stale) ≡ true)
      × (packet_from_rf (frame ++ stale) ≡ some (record p { vlc_id = 0 }))
packet_from_rf-transmit_packet_rf ether_type p stale {frame} v e =
    elim (Bool-cases (leb p.payload_len 1000)) [
      | inl fits ↦
          let same : frame ≡ rf_head rf_mac ether_type p ++ p.payload = cc (
            transmit_packet_rf-frame rf_mac ether_type p v.bytes
              (leb→le p.payload_len 1000 fits)) in
          rw same (read_back ether_type p stale v)
      | inr big ↦ cc (transmit_packet_rf-none rf_mac ether_type p v (leb→lt p.payload_len 1000 big))
    ]
