-- ===== src/Packet.antt =====
-- The packet that gateway, transmitter and node exchange, and the Ethernet header before it:
-- `gateway_packet.h`, `node_packet.h`, and the header fields that `main.c` of each part fills.
use ciot_vlc.Base.{
  ℕ, ◌<◌, ◌^◌, ◌≡◌, Bool, false, ◌&&◌, none, some, List, [], ◌∷◌, ◌++◌, ◌==◌, get_elem?, length,
  le16,
}

-- `struct gateway_packet` and `struct node_packet`, which have the same fields. `payload` is
-- what `data` points to.
pub record Packet : Type 0 where
  pub node_id : ℕ
  pub vlc_id : ℕ
  pub payload_len : ℕ
  pub seq_number : ℕ
  pub payload : List ℕ

-- `generate_gateway_packet` and `generate_node_packet`.
unfoldable pub generate_gateway_packet : ℕ → ℕ → ℕ → ℕ → List ℕ → Packet
generate_gateway_packet node_id vlc_id payload_len seq_number payload = record {
  node_id = node_id;
  vlc_id = vlc_id;
  payload_len = payload_len;
  seq_number = seq_number;
  payload = payload;
}

-- The fields fit their C types, and `data` points to `payload_len` bytes.
pub record IsPacket (p : Packet) : Type 0 where
  pub node : p.node_id < 2 ^ 16
  pub vlc : p.vlc_id < 2 ^ 16
  pub len : p.payload_len < 2 ^ 16
  pub seq : p.seq_number < 2 ^ 32
  pub bytes : length p.payload ≡ p.payload_len

-- A hardware address, byte by byte.
pub record Mac : Type 0 where
  pub m0 : ℕ
  pub m1 : ℕ
  pub m2 : ℕ
  pub m3 : ℕ
  pub m4 : ℕ
  pub m5 : ℕ

abbrev pub mac : ℕ → ℕ → ℕ → ℕ → ℕ → ℕ → Mac
mac a b c d e f = record { m0 = a; m1 = b; m2 = c; m3 = d; m4 = e; m5 = f }

abbrev pub mac_bytes : Mac → List ℕ
mac_bytes m = m.m0 ∷ m.m1 ∷ m.m2 ∷ m.m3 ∷ m.m4 ∷ m.m5 ∷ []

-- `struct ether_header` in memory: destination, source, type. The type is a parameter, since
-- `ETH_P_ALL` is defined by the system.
abbrev pub ether_header : Mac → Mac → ℕ → List ℕ
ether_header dhost shost ether_type = mac_bytes dhost ++ mac_bytes shost ++ le16 ether_type

abbrev pub header_len : ℕ
header_len = 14

-- `BUF_SIZ`, the size of every send and receive buffer.
abbrev pub buf_size : ℕ
buf_size = 1024

abbrev pub byte_is : List ℕ → ℕ → ℕ → Bool
byte_is buf i v = elim (get_elem? buf i) [ none ↦ false | some b ↦ b == v ]

abbrev pub dhost_is : List ℕ → Mac → Bool
dhost_is buf m =
    byte_is buf 0 m.m0
    && byte_is buf 1 m.m1
    && byte_is buf 2 m.m2
    && byte_is buf 3 m.m3
    && byte_is buf 4 m.m4
    && byte_is buf 5 m.m5

abbrev pub shost_is : List ℕ → Mac → Bool
shost_is buf m =
    byte_is buf 6 m.m0
    && byte_is buf 7 m.m1
    && byte_is buf 8 m.m2
    && byte_is buf 9 m.m3
    && byte_is buf 10 m.m4
    && byte_is buf 11 m.m5
