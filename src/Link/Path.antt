-- ===== src/Link/Path.antt =====
-- A packet all the way from the gateway over the light to the node's program: `transmit_packet_vlc`,
-- the transmitter, both drivers and `receive_vlc`.
use ciot_vlc.Base.{
  ℕ, zero, suc, ◌+◌, ◌*◌, ◌/◌, ◌%◌, ◌^◌, ◌≤◌, ◌<◌, ◌≡◌, refl, ◌∙◌, true, false, ◌||◌, some, List,
  [], ◌∷◌, ◌++◌, ◌==◌, leb, if◌then◌else◌, length, take, drop, arith, length-take, take-drop, le16,
  le32, le→leb, Bool-cases, inl, inr,
}
use ciot_vlc.Packet.{Packet, IsPacket, header_len}
use ciot_vlc.Pru.{Memory, readw, writew, memcpy_fromio}
use ciot_vlc.Gateway.Send.{transmit_packet_vlc, my_mac}
use ciot_vlc.VlcTx.Wire.{generate_gateway_packet_from_bytes, transmit_to_vlc}
use ciot_vlc.VlcTx.Driver.{write_packet_to_pru_memory}
use ciot_vlc.VlcTx.Pool.{
  Driver, vlc_get_tx_buffer, vlc_release_buffer, vlc_tx, write_next, publish, phy_timer_handler,
}
use ciot_vlc.Node.Driver.{pru_phy_decoding}
use ciot_vlc.Node.Receive.{Receiver, receive_vlc}
use ciot_vlc.Link.Vlc.{
  on_vlc, vlc_head, eth_head, transmit_packet_vlc-frame,
  generate_gateway_packet_from_bytes-transmit_packet_vlc, transmit_to_vlc-frame,
}
use ciot_vlc.Link.Receive.{with_vlc, receive_vlc-frame, use_vlc_self}
use ciot_vlc.Link.Driver.{delivered, write_packet_to_pru_memory-frame, pru_phy_decoding-clean}

-- A new write index leaves what comes after it.
pub memcpy_fromio-writew :
    (pru : Memory) (v i n : ℕ) → 2 ≤ i → memcpy_fromio (writew pru 0 v) i n ≡ memcpy_fromio pru i n
unfolding memcpy_fromio
memcpy_fromio-writew pru v i zero h = refl
memcpy_fromio-writew pru v i (suc n) h =
    let here : writew pru 0 v i ≡ pru i = ground arith in
    rw (here, memcpy_fromio-writew pru v (suc i) n (omega arith)) refl

-- A driver that waits to write, with a free packet and none queued.
pub record IsIdle (d : Driver) : Type 0 where
  pub free : 0 < d.ppool
  pub queue : d.tx_queue ≡ []
  pub writes : d.is_write_next ≡ true

-- What the two PRUs and the light do with a block of `n` bytes: it comes from the index `w` of one
-- memory to the read index of the other, which has then more to read.
pub record Carries (w read_idx n : ℕ) (light : Memory → Memory) : Type 0 where
  pub block : (pru : Memory) → memcpy_fromio (light pru) read_idx n ≡ memcpy_fromio pru w n
  pub at_read : (pru : Memory) → readw (light pru) 2 ≡ read_idx
  pub more : (pru : Memory) → (read_idx == readw (light pru) 0) ≡ false

has_packet : (n : ℕ) → 0 < n → (k : ℕ) × (n ≡ suc k)
has_packet zero h = absurd (omega arith)
has_packet (suc k) h = (k, refl)

module _ (encode_rs8 : List ℕ → List ℕ) (decode_rs8 : List ℕ → List ℕ → List ℕ × ℕ) where
  pub publish-bytes :
      (d : Driver) (i n : ℕ)
      → 2 ≤ i
      → memcpy_fromio (publish encode_rs8 d).pru0 i n ≡ memcpy_fromio d.pru0 i n
  unfolding publish
  publish-bytes d i n h = elim (Bool-cases (readw d.pru0 2 == d.write_idx)) [
    | inl read ↦ rw read refl
    | inr unread ↦ rw unread (memcpy_fromio-writew d.pru0 d.write_idx i n h)
  ]

  -- The bytes given to the driver are in the PRU's memory, with their parity, after the next tick.
  tick_writes :
      (lo hi : ℕ) (more rest : List ℕ) (d : Driver)
      → IsIdle d
      → length more + 2 ≡ lo + 256 * hi + 10
      → length more + 2 < 200
      → length rest + (length more + 2) ≡ 2010
      → length (encode_rs8 (lo ∷ hi ∷ more)) ≡ 16
      → 2 ≤ readw d.pru0 0
      → readw d.pru0 0 + (length more + 18) < 2 ^ 16
      → (d1 : Driver) × (vlc_tx (lo ∷ hi ∷ more) rest d ≡ some d1)
        × (d2 : Driver) × (phy_timer_handler encode_rs8 d1 ≡ some d2)
        × (memcpy_fromio d2.pru0 (readw d.pru0 0) (length more + 18)
            ≡ (lo ∷ hi ∷ more) ++ encode_rs8 (lo ∷ hi ∷ more))
  unfolding vlc_tx vlc_get_tx_buffer phy_timer_handler write_next vlc_release_buffer
  tick_writes lo hi more rest d v len small size parity low room =
      let (k, e) = has_packet d.ppool v.free in
      let body : List ℕ = lo ∷ hi ∷ more in
      let w : ℕ = readw d.pru0 0 in
      let d1 : Driver = record d {
        ppool = k;
        stopped = (k == 0) || d.stopped;
        tx_queue = (body ++ rest) ∷ [];
      } in
      let gap : length (take 16 rest) ≡ 16 = omega (arith, length-take {0} 16 rest, size, small) in
      let (pru1, wrote, bytes) =
        write_packet_to_pru_memory-frame encode_rs8 decode_rs8 lo hi more (take 16 rest)
          (drop 16 rest) w d.pru0 len small gap parity room in
      let whole : write_packet_to_pru_memory encode_rs8 (body ++ rest) w d.pru0
          ≡ some (pru1, w + (length more + 18)) =
        rw (take-drop 16 rest) at wrote in
      let idx : ℕ = w + (length more + 18) in
      let h : Driver =
        vlc_release_buffer (record d1 { tx_queue = []; pru0 = pru1; write_idx = idx }) in
      let h1 : Driver = record h {
        write_idx = if leb 6004 idx then 4 else idx;
        is_write_next = false;
      } in
      (
        d1,
        rw (e, le→leb (length body) 2010 (omega (arith, small)), v.queue) refl,
        publish encode_rs8 h1,
        rw (v.writes, whole) refl,
        publish-bytes h1 w (length more + 18) low ∙ bytes,
      )

  -- A packet for the node, of 1 to 100 payload bytes, whose fields and the successor of whose VLC id
  -- fit their types; a driver of the transmitter that waits to write, with a free packet and none
  -- queued, and room at its write index; a parity of 16 bytes with which the packet decodes to itself
  -- without errors; and PRUs that carry the block to the node's read index. Then the gateway sends a
  -- frame; the transmitter reads a packet from it and writes bytes to the VLC device; its driver
  -- queues them, and the next tick gives them to the PRU; a round of the node's driver delivers
  -- exactly those bytes; and a round of `receive_vlc` queues and counts the gateway's packet with the
  -- VLC id one higher. Nothing faults, whatever the buffers and arrays held before.
  pub receive_vlc-over_light :
      (ether_type : ℕ) (p : Packet) (stale_tx stale_node rest : List ℕ) (d : Driver)
      (light : Memory → Memory) (read_idx vlc_bytes : ℕ) (n : Receiver)
      → IsPacket p
      → p.node_id ≡ 1
      → 0 < p.payload_len
      → p.payload_len ≤ 100
      → p.vlc_id + 1 < 2 ^ 16
      → IsIdle d
      → length rest + p.payload_len ≡ 2000
      → 2 ≤ readw d.pru0 0
      → readw d.pru0 0 + (p.payload_len + 26) < 2 ^ 16
      → length (encode_rs8 (vlc_head (on_vlc p) ++ p.payload)) ≡ 16
      → decode_rs8
          (vlc_head (on_vlc p) ++ p.payload)
          (encode_rs8 (vlc_head (on_vlc p) ++ p.payload))
        ≡ (vlc_head (on_vlc p) ++ p.payload, 0)
      → Carries (readw d.pru0 0) read_idx (p.payload_len + 26) light
      → 0 < vlc_bytes
      → (frame : List ℕ) × (transmit_packet_vlc my_mac ether_type p ≡ some frame)
        × (generate_gateway_packet_from_bytes (drop header_len (frame ++ stale_tx))
            ≡ some (on_vlc p))
        × (bytes : List ℕ) × (transmit_to_vlc (on_vlc p) ≡ some bytes)
        × (d1 : Driver) × (vlc_tx bytes rest d ≡ some d1)
        × (d2 : Driver) × (phy_timer_handler encode_rs8 d1 ≡ some d2)
        × (pru_phy_decoding decode_rs8 (light d2.pru0)
            ≡ some (delivered bytes read_idx (p.payload_len + 10) (light d2.pru0)))
        × (receive_vlc vlc_bytes (bytes ++ stale_node) n ≡ some (with_vlc (on_vlc p) n))
  receive_vlc-over_light ether_type p stale_tx stale_node rest d light read_idx vlc_bytes n v own
        pos few next_id idle size low room parity clean carries got =
      let q : Packet = on_vlc p in
      let vq : IsPacket q = record {
        node = v.node;
        vlc = next_id;
        len = v.len;
        seq = v.seq;
        bytes = v.bytes;
      } in
      let lo : ℕ = p.payload_len % 256 in
      let hi : ℕ = p.payload_len / 256 % 256 in
      let more : List ℕ =
        le16 p.node_id ++ (le16 (p.vlc_id + 1) ++ (le32 p.seq_number ++ p.payload)) in
      let len : length more ≡ p.payload_len + 8 = omega (arith, v.bytes) in
      let value : lo + 256 * hi ≡ p.payload_len = omega (arith, few) in
      let sent = transmit_packet_vlc-frame my_mac ether_type p v (omega (arith, few)) in
      let (d1, e1, d2, e2, written) =
        tick_writes lo hi more rest d idle (omega (arith, len, value)) (omega (arith, len, few))
          (omega (arith, len, size)) parity low (omega (arith, len, room)) in
      let k : length more + 18 ≡ p.payload_len + 26 = omega (arith, len) in
      let k2 : length more + 2 ≡ p.payload_len + 10 = omega (arith, len) in
      let came : memcpy_fromio (light d2.pru0) read_idx (length more + 18)
          ≡ (lo ∷ hi ∷ more) ++ encode_rs8 (lo ∷ hi ∷ more) =
        rw (k, carries.block d2.pru0) (rw k at written) in
      let up =
        pru_phy_decoding-clean encode_rs8 decode_rs8 lo hi more read_idx (light d2.pru0)
          (omega (arith, len, value)) (omega (arith, value, pos)) (omega (arith, value, few)) parity
          clean (carries.at_read d2.pru0) (carries.more d2.pru0) came in
      (
        eth_head my_mac ether_type p ++ p.payload,
        sent,
        (generate_gateway_packet_from_bytes-transmit_packet_vlc ether_type p stale_tx v next_id
            sent).1,
        vlc_head q ++ p.payload,
        transmit_to_vlc-frame q vq (omega (arith, few)),
        d1,
        e1,
        d2,
        e2,
        rw k2 at up,
        receive_vlc-frame q stale_node vlc_bytes n vq pos few got ∙ use_vlc_self q n own,
      )
