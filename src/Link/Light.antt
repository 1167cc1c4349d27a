-- ===== src/Link/Light.antt =====
-- The dummy packet from the transmitter's driver over the light to the node's program.
use ciot_vlc.Base.{
  ℕ, ◌+◌, ◌-◌, ◌^◌, ◌≤◌, ◌<◌, ◌≡◌, refl, ◌∙◌, false, some, List, [], ◌++◌, ◌==◌, length, replicate,
  take, drop, arith, length-drop, length-take, take-drop, drop-drop, le16, le32,
}
use ciot_vlc.Packet.{Packet, IsPacket}
use ciot_vlc.Pru.{Memory, readw, memcpy_fromio, put_at}
use ciot_vlc.VlcTx.Driver.{write_packet_to_pru_memory}
use ciot_vlc.VlcTx.Quality.{init_vlc_quality_packet}
use ciot_vlc.Node.Driver.{pru_phy_decoding}
use ciot_vlc.Node.Receive.{Receiver, add32, use_vlc, receive_vlc}
use ciot_vlc.Link.Vlc.{vlc_head}
use ciot_vlc.Link.Receive.{receive_vlc-frame}
use ciot_vlc.Link.Blocks.{put_at-middle}
use ciot_vlc.Link.Driver.{delivered, pru_phy_decoding-write_packet_to_pru_memory}

abbrev pub dummy : Packet
dummy = record {
  node_id = 99;
  vlc_id = 1;
  payload_len = 74;
  seq_number = 100;
  payload = replicate 74 0xca;
}

abbrev pub dummy_bytes : List ℕ
dummy_bytes = vlc_head dummy ++ dummy.payload

dummy-IsPacket : IsPacket dummy
dummy-IsPacket = record {
  node = omega arith;
  vlc = omega arith;
  len = omega arith;
  seq = omega arith;
  bytes = refl;
}

-- Bytes written where the last ones end.
pub put_at-next :
    (before bytes after : List ℕ) (n : ℕ)
    → length before ≡ n
    → length bytes ≤ length after
    → put_at (before ++ after) n bytes ≡ some (before ++ (bytes ++ drop (length bytes) after))
put_at-next before bytes after n e h =
    let k : ℕ = length bytes in
    let size : length (take k after) ≡ k = omega (arith, length-take {0} k after, h) in
    rw (take-drop k after) at (put_at-middle before (take k after) bytes (drop k after) n e size)

pub init_vlc_quality_packet_lem :
    (old : List ℕ)
    → length old ≡ 2010
    → init_vlc_quality_packet old ≡ some (dummy_bytes ++ drop 84 old)
unfolding init_vlc_quality_packet
init_vlc_quality_packet_lem old h =
    let size : (k : ℕ) → length (drop k old) ≡ 2010 - k =
      λ k. omega (arith, length-drop {0} k old, h) in
    let e0 = put_at-next [] (le16 74) old 0 refl (omega (arith, h)) in
    let e1 = put_at-next (le16 74) (le16 99) (drop 2 old) 2 refl (omega (arith, size 2)) in
    let e2 =
      put_at-next (le16 74 ++ le16 99) (le16 1) (drop 4 old) 4 refl (omega (arith, size 4)) in
    let e3 =
      put_at-next (le16 74 ++ (le16 99 ++ le16 1)) (le32 100) (drop 6 old) 6 refl
        (omega (arith, size 6)) in
    let e4 =
      put_at-next (vlc_head dummy) dummy.payload (drop 10 old) 10 refl (omega (arith, size 10)) in
    rw
      (
        e0,
        e1,
        drop-drop 2 2 old,
        e2,
        drop-drop 2 4 old,
        e3,
        drop-drop 4 6 old,
        e4,
        drop-drop 74 10 old,
      )
      refl

-- The node's state after a dummy packet: transmitter 1 was heard.
abbrev pub heard : Receiver → Receiver
heard n = record n { total_packet = add32 n.total_packet 1; frame_rx = 1 }

use_vlc-dummy : (n : Receiver) → use_vlc 74 dummy n ≡ some (heard n)
unfolding use_vlc
use_vlc-dummy n = refl

module _ (encode_rs8 : List ℕ → List ℕ) (decode_rs8 : List ℕ → List ℕ → List ℕ × ℕ) where
  -- The array that `kmalloc` gave has 2010 bytes, `encode_rs8` gives 16 parity bytes for the dummy
  -- packet, and with them it decodes to itself without errors: `init_vlc_quality_packet` makes the
  -- dummy packet, and where the node's memory has, at a read index that is not the write index, the
  -- bytes that the transmitter's driver wrote for it, a round of the node's driver delivers the
  -- packet, and a round of `receive_vlc` on it, whatever its buffer held behind it, notes that
  -- transmitter 1 was heard, counts the packet, and does nothing else.
  pub receive_vlc-dummy :
      (old : List ℕ) (write_idx : ℕ) (pru_tx pru_tx1 pru_rx : Memory) (read_idx idx : ℕ)
      (stale : List ℕ) (vlc_bytes : ℕ) (n : Receiver)
      → length old ≡ 2010
      → length (encode_rs8 dummy_bytes) ≡ 16
      → decode_rs8 dummy_bytes (encode_rs8 dummy_bytes) ≡ (dummy_bytes, 0)
      → write_idx + 100 < 2 ^ 16
      → write_packet_to_pru_memory encode_rs8 (dummy_bytes ++ drop 84 old) write_idx pru_tx
        ≡ some (pru_tx1, idx)
      → readw pru_rx 2 ≡ read_idx
      → (read_idx == readw pru_rx 0) ≡ false
      → memcpy_fromio pru_rx read_idx 100 ≡ memcpy_fromio pru_tx1 write_idx 100
      → 0 < vlc_bytes
      → (init_vlc_quality_packet old ≡ some (dummy_bytes ++ drop 84 old))
        × (pru_phy_decoding decode_rs8 pru_rx ≡ some (delivered dummy_bytes read_idx 84 pru_rx))
        × (receive_vlc vlc_bytes (dummy_bytes ++ stale) n ≡ some (heard n))
  receive_vlc-dummy old write_idx pru_tx pru_tx1 pru_rx read_idx idx stale vlc_bytes n size parity
        clean room wrote at_read other light got =
      let spare : List ℕ = take 16 (drop 84 old) in
      let rest : List ℕ = drop 16 (drop 84 old) in
      let gap : length spare ≡ 16 =
        omega (arith, length-take {0} 16 (drop 84 old), length-drop {0} 84 old, size) in
      (
        init_vlc_quality_packet_lem old size,
        pru_phy_decoding-write_packet_to_pru_memory encode_rs8 decode_rs8 74 0 (drop 2 dummy_bytes)
            spare rest write_idx pru_tx pru_tx1 pru_rx read_idx idx refl (omega arith) (omega arith)
            gap parity clean room (rw (take-drop 16 (drop 84 old)) wrote) at_read other light,
        receive_vlc-frame dummy stale vlc_bytes n dummy-IsPacket (omega arith) (omega arith) got
            ∙ use_vlc-dummy n,
      )
