-- ===== src/Link/Corrected.antt =====
-- A packet in which symbols were corrected, from the node's driver to the node's program.
use ciot_vlc.Base.{
  ℕ, zero, suc, ◌+◌, ◌-◌, ◌/◌, ◌%◌, ◌^◌, ◌≤◌, ◌<◌, ◌≡◌, refl, ◌∙◌, false, ◌&&◌, some, List, [], ◌∷◌,
  ◌++◌, ◌==◌, ltb, leb, if◌then◌else◌, length, replicate, drop, arith, length-append, length-drop,
  take_all_append, lt→ltb, Bool-cases, inl, inr, le16, le32, le32_value,
}
use ciot_vlc.Packet.{Packet, IsPacket}
use ciot_vlc.Pru.{Memory, readw, memcpy_fromio}
use ciot_vlc.Node.Driver.{note_errors, pru_phy_decoding}
use ciot_vlc.Node.Receive.{Receiver, add32, use_vlc, enqueue_vlc, receive_vlc}
use ciot_vlc.Link.Vlc.{vlc_head}
use ciot_vlc.Link.Receive.{receive_vlc-frame}
use ciot_vlc.Link.Blocks.{put_at-middle, passed_up, pru_phy_decoding-one}
use ciot_vlc.Link.Driver.{delivered}
use ciot_vlc.Link.Light.{put_at-next}

-- The packet as the node's program gets it after `k` symbols were corrected: the driver has put its
-- mark in place of the node id and `k` in place of the first four payload bytes.
abbrev pub marked : ℕ → Packet → Packet
marked k p = record p { node_id = 98; payload = le32 k ++ drop 4 p.payload }

-- The node's state after such a packet, before it is queued.
abbrev pub errors_counted : ℕ → Packet → Receiver → Receiver
errors_counted k p n =
    let counted : Receiver = record n {
      total_packet = add32 n.total_packet 1;
      rs_error_bytes = add32 n.rs_error_bytes k;
    } in
    if ltb 0 p.vlc_id && leb p.vlc_id 1 then record counted { frame_rx = 1 } else counted

use_vlc-marked :
    (k : ℕ) (p : Packet) (n : Receiver)
    → k < 2 ^ 31
    → use_vlc p.payload_len (marked k p) n
      ≡ some (enqueue_vlc p.payload_len (marked k p) (errors_counted k p n))
unfolding use_vlc
use_vlc-marked k p n h =
    let count = le32_value k (omega (arith, h)) in
    let positive = lt→ltb k (2 ^ 31) h in
    elim (Bool-cases (ltb 0 p.vlc_id && leb p.vlc_id 1)) [
      | inl ours ↦ rw (count, positive, ours) refl
      | inr other ↦ rw (count, positive, other) refl
    ]

marked-IsPacket : (k : ℕ) (p : Packet) → IsPacket p → 4 ≤ p.payload_len → IsPacket (marked k p)
marked-IsPacket k p v h = record {
  node = omega arith;
  vlc = v.vlc;
  len = v.len;
  seq = v.seq;
  bytes = omega (
    arith,
    length-append {0} (le32 k) (drop 4 p.payload),
    length-drop {0} 4 p.payload,
    v.bytes,
    h,
  );
}

drop_left : (k : ℕ) (l m : List ℕ) → k ≤ length l → drop k (l ++ m) ≡ drop k l ++ m
drop_left zero l m h = refl
drop_left (suc k) [] m h = absurd (omega arith)
drop_left (suc k) (x ∷ l) m h = drop_left k l m (omega arith)

-- The driver's mark on a packet for a node.
note_errors-marked :
    (k : ℕ) (p : Packet) (rest : List ℕ)
    → 0 < k
    → p.node_id ≡ 1
    → 4 ≤ length p.payload
    → note_errors k ((vlc_head p ++ p.payload) ++ rest)
      ≡ some ((vlc_head (marked k p) ++ (marked k p).payload) ++ rest)
unfolding note_errors
note_errors-marked k p rest pos own h =
    let some_errors : (k == 0) ≡ false = ground arith in
    let fields : List ℕ = le16 p.vlc_id ++ le32 p.seq_number in
    let e1 =
      put_at-middle (le16 p.payload_len) (le16 1) (le16 98) (fields ++ (p.payload ++ rest)) 2 refl
        refl in
    let e2 =
      put_at-next (vlc_head (marked k p)) (le32 k) (p.payload ++ rest) 10 refl
        (omega (arith, length-append {0} p.payload rest, h)) in
    rw (some_errors, own, e1, e2, drop_left 4 p.payload rest h) refl

passed_up-marked :
    (k : ℕ) (p : Packet) (rest : List ℕ) (read_idx n : ℕ) (pru0 : Memory)
    → 0 < k
    → p.node_id ≡ 1
    → 4 ≤ length p.payload
    → length p.payload + 10 ≡ n
    → passed_up k ((vlc_head p ++ p.payload) ++ rest) read_idx n pru0
      ≡ some (delivered (vlc_head (marked k p) ++ (marked k p).payload) read_idx n pru0)
passed_up-marked k p rest read_idx n pru0 pos own h len =
    let size : length (vlc_head (marked k p) ++ (marked k p).payload) ≡ n = omega (
      arith,
      length-append {0} (vlc_head (marked k p)) (marked k p).payload,
      length-append {0} (le32 k) (drop 4 p.payload),
      length-drop {0} 4 p.payload,
      h,
      len,
    ) in
    rw
      (
        note_errors-marked k p rest pos own h,
        take_all_append n (vlc_head (marked k p) ++ (marked k p).payload) rest size,
      )
      refl

vlc_head_size : (p : Packet) → length (vlc_head p ++ p.payload) ≡ length p.payload + 10
vlc_head_size p = omega (arith, length-append {0} (vlc_head p) p.payload)

module _ (decode_rs8 : List ℕ → List ℕ → List ℕ × ℕ) where
  -- Where the node's memory has, at a read index that is not the write index, a block with the length
  -- and the parity of a packet for the node, of 4 to 100 payload bytes, whose fields fit their types,
  -- and `decode_rs8` corrects the block to that packet with 1 to 2 ^ 31 - 1 errors: a round of the
  -- node's driver delivers the packet with its mark for the node id and the number of errors for the
  -- first four payload bytes, and a round of `receive_vlc` on that, whatever its buffer held behind
  -- it, counts the errors and queues the packet with these four bytes lost.
  pub receive_vlc-corrected :
      (p : Packet) (more par : List ℕ) (read_idx k : ℕ) (pru_rx : Memory) (stale : List ℕ)
      (vlc_bytes : ℕ) (n : Receiver)
      → IsPacket p
      → p.node_id ≡ 1
      → 4 ≤ p.payload_len
      → p.payload_len ≤ 100
      → length more ≡ p.payload_len + 8
      → length par ≡ 16
      → readw pru_rx 2 ≡ read_idx
      → (read_idx == readw pru_rx 0) ≡ false
      → memcpy_fromio pru_rx read_idx (length more + 18) ≡ (le16 p.payload_len ++ more) ++ par
      → decode_rs8 (le16 p.payload_len ++ more) par ≡ (vlc_head p ++ p.payload, k)
      → 0 < k
      → k < 2 ^ 31
      → 0 < vlc_bytes
      → (pru_phy_decoding decode_rs8 pru_rx
          ≡ some (
              delivered
                (vlc_head (marked k p) ++ (marked k p).payload)
                read_idx
                (length more + 2)
                pru_rx))
        × (receive_vlc vlc_bytes ((vlc_head (marked k p) ++ (marked k p).payload) ++ stale) n
            ≡ some (enqueue_vlc p.payload_len (marked k p) (errors_counted k p n)))
  receive_vlc-corrected p more par read_idx k pru_rx stale vlc_bytes n v own some_bytes few size
        parity at_read other bytes corrects pos small got =
      (
        pru_phy_decoding-one decode_rs8 (p.payload_len % 256) (p.payload_len / 256 % 256) more par
              (vlc_head p ++ p.payload) read_idx k pru_rx (omega (arith, size, few))
              (omega (arith, size, vlc_head_size p, v.bytes)) (omega (arith, some_bytes, few))
              (omega (arith, few)) parity at_read other bytes corrects (omega (arith, small))
            ∙ passed_up-marked k p (par ++ replicate (2000 - (length more + 2 + 16)) 0) read_idx
                (length more + 2) pru_rx pos own (omega (arith, v.bytes, some_bytes))
                (omega (arith, v.bytes, size)),
        receive_vlc-frame (marked k p) stale vlc_bytes n (marked-IsPacket k p v some_bytes)
              (omega (arith, some_bytes)) few got
            ∙ use_vlc-marked k p n small,
      )
