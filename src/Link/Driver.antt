-- ===== src/Link/Driver.antt =====
-- The two drivers: `write_packet_to_pru_memory` of the transmitter, and `pru_phy_decoding` of the
-- node on the bytes that come over the light.
use ciot_vlc.Base.{
  ℕ, ◌+◌, ◌*◌, ◌%◌, ◌^◌, ◌≤◌, ◌<◌, ◌≡◌, refl, sym, ap, ◌∙◌, false, some, List, ◌∷◌, ◌++◌, ◌==◌, leb,
  if◌then◌else◌, length, arith, length-append, append_assoc, take_all_append,
}
use ciot_vlc.Pru.{Memory, readw, writew, memcpy_toio, memcpy_fromio, memcpy_fromio-memcpy_toio}
use ciot_vlc.VlcTx.Driver.{encode_blocks, write_packet_to_pru_memory}
use ciot_vlc.Node.Driver.{Decoded, note_errors, pru_phy_decoding}
use ciot_vlc.Link.Blocks.{
  one_block, short, put_at-middle, plus_zero, passed_up, pru_phy_decoding-one,
}

length_word :
    (k lo hi : ℕ) → k + 2 ≡ lo + 256 * hi + 10 → k + 2 < 200 → (lo + 256 * hi + 10) % 2 ^ 16 ≡ k + 2
length_word k lo hi e h = omega arith

total_word : (k : ℕ) → k + 2 < 200 → (k + 2 + 16) % 2 ^ 16 ≡ k + 18
total_word k h = omega arith

room_word : (n : ℕ) → n < 2 ^ 16 → n % 2 ^ 16 ≡ n
room_word n h = omega arith

same_memory : {p q : Memory × ℕ} → some p ≡ some q → p.0 ≡ q.0
same_memory {p} {q} e = let same : p ≡ q = cc in ap (λ (r : Memory × ℕ). r.0) same

-- The packet goes up, and the read index moves past it and its parity, or back to the start.
abbrev pub delivered : List ℕ → ℕ → ℕ → Memory → Decoded
delivered body read_idx n pru0 =
    let next = (read_idx + n + 16) % 2 ^ 16 in
    record { received = some body; pru0 = writew pru0 2 (if leb 6004 next then 4 else next) }

take_body :
    (body par zeros : List ℕ) (read_idx n : ℕ) (pru0 : Memory)
    → length body ≡ n
    → passed_up 0 (body ++ (par ++ zeros)) read_idx n pru0 ≡ some (delivered body read_idx n pru0)
unfolding note_errors
take_body body par zeros read_idx n pru0 len = rw (take_all_append n body (par ++ zeros) len) refl

module _ (encode_rs8 : List ℕ → List ℕ) (decode_rs8 : List ℕ → List ℕ → List ℕ × ℕ) where
  encode_blocks-one :
      (body spare rest : List ℕ) (n : ℕ)
      → length body ≡ n
      → n < 200
      → length spare ≡ length (encode_rs8 body)
      → encode_blocks encode_rs8 1 0 n (body ++ (spare ++ rest))
        ≡ some (body ++ (encode_rs8 body ++ rest))
  unfolding encode_blocks
  encode_blocks-one body spare rest n len small gap =
      rw
        (
          short n small,
          take_all_append n body (spare ++ rest) len,
          plus_zero n,
          put_at-middle body spare (encode_rs8 body) rest n len gap,
        )
        refl

  pub write_packet-one_block :
      (lo hi : ℕ) (more spare rest : List ℕ) (write_idx : ℕ) (pru0 : Memory)
      → length more + 2 ≡ lo + 256 * hi + 10
      → length more + 2 < 200
      → length spare ≡ 16
      → length (encode_rs8 (lo ∷ hi ∷ more)) ≡ 16
      → write_idx + (length more + 18) < 2 ^ 16
      → write_packet_to_pru_memory encode_rs8 ((lo ∷ hi ∷ more) ++ (spare ++ rest)) write_idx pru0
        ≡ some (
          memcpy_toio pru0 write_idx ((lo ∷ hi ∷ more) ++ encode_rs8 (lo ∷ hi ∷ more)),
          write_idx + (length more + 18),
        )
  unfolding write_packet_to_pru_memory
  write_packet-one_block lo hi more spare rest write_idx pru0 len small gap parity room =
      let body : List ℕ = lo ∷ hi ∷ more in
      let par : List ℕ = encode_rs8 body in
      let n : ℕ = length more + 2 in
      rw
        (
          length_word (length more) lo hi len small,
          one_block n (omega arith) small,
          encode_blocks-one body spare rest n (omega arith) small (omega (arith, gap, parity)),
          sym (append_assoc body par rest),
          total_word (length more) small,
          take_all_append (length more + 18) (body ++ par) rest
              (omega (arith, length-append {0} body par, parity)),
          room_word (write_idx + (length more + 18)) room,
        )
        refl

  -- A packet that starts with its payload length and is as long as that states, of fewer bytes than a
  -- block, in an array with room for its parity, and a parity of 16 bytes: the transmitter's driver
  -- puts packet and parity in the PRU's memory at the write index, and the index moves past them.
  pub write_packet_to_pru_memory-frame :
      (lo hi : ℕ) (more spare rest : List ℕ) (write_idx : ℕ) (pru0 : Memory)
      → length more + 2 ≡ lo + 256 * hi + 10
      → length more + 2 < 200
      → length spare ≡ 16
      → length (encode_rs8 (lo ∷ hi ∷ more)) ≡ 16
      → write_idx + (length more + 18) < 2 ^ 16
      → (pru1 : Memory) × (write_packet_to_pru_memory encode_rs8
            ((lo ∷ hi ∷ more) ++ (spare ++ rest))
            write_idx
            pru0
          ≡ some (pru1, write_idx + (length more + 18)))
        × (memcpy_fromio pru1 write_idx (length more + 18)
            ≡ (lo ∷ hi ∷ more) ++ encode_rs8 (lo ∷ hi ∷ more))
  write_packet_to_pru_memory-frame lo hi more spare rest write_idx pru0 len small gap parity room =
      let body : List ℕ = lo ∷ hi ∷ more in
      let frame : List ℕ = body ++ encode_rs8 body in
      let size : length frame ≡ length more + 18 =
        omega (arith, length-append {0} body (encode_rs8 body), parity) in
      (
        memcpy_toio pru0 write_idx frame,
        write_packet-one_block lo hi more spare rest write_idx pru0 len small gap parity room,
        rw size at (memcpy_fromio-memcpy_toio pru0 write_idx frame),
      )

  -- A block and its parity at the read index, which decode to the block.
  pub pru_phy_decoding-clean :
      (lo hi : ℕ) (more : List ℕ) (read_idx : ℕ) (pru_rx : Memory)
      → length more + 2 ≡ lo + 256 * hi + 10
      → 0 < lo + 256 * hi
      → lo + 256 * hi ≤ 150
      → length (encode_rs8 (lo ∷ hi ∷ more)) ≡ 16
      → decode_rs8 (lo ∷ hi ∷ more) (encode_rs8 (lo ∷ hi ∷ more)) ≡ (lo ∷ hi ∷ more, 0)
      → readw pru_rx 2 ≡ read_idx
      → (read_idx == readw pru_rx 0) ≡ false
      → memcpy_fromio pru_rx read_idx (length more + 18)
        ≡ (lo ∷ hi ∷ more) ++ encode_rs8 (lo ∷ hi ∷ more)
      → pru_phy_decoding decode_rs8 pru_rx
        ≡ some (delivered (lo ∷ hi ∷ more) read_idx (length more + 2) pru_rx)
  pru_phy_decoding-clean lo hi more read_idx pru_rx len pos fits parity clean at_read other bytes =
      let up : pru_phy_decoding decode_rs8 pru_rx ≡ _ =
        pru_phy_decoding-one decode_rs8 lo hi more (encode_rs8 (lo ∷ hi ∷ more)) (lo ∷ hi ∷ more)
          read_idx 0 pru_rx len (omega arith) pos fits parity at_read other bytes clean
          (omega arith) in
      up
      ∙ take_body (lo ∷ hi ∷ more) (encode_rs8 (lo ∷ hi ∷ more)) _ read_idx (length more + 2) pru_rx
          (omega arith)

  -- Where the node's memory has, at a read index that is not the write index, the bytes that the
  -- transmitter's driver wrote for a packet of 1 to 150 payload bytes that is as long as it states,
  -- and a codeword decodes to itself without errors: a round of the node's driver delivers exactly
  -- that packet, and the read index moves past packet and parity, or back to 4 at the buffer's end.
  pub pru_phy_decoding-write_packet_to_pru_memory :
      (lo hi : ℕ) (more spare rest : List ℕ) (write_idx : ℕ) (pru_tx pru_tx1 pru_rx : Memory)
      (read_idx idx : ℕ)
      → length more + 2 ≡ lo + 256 * hi + 10
      → 0 < lo + 256 * hi
      → lo + 256 * hi ≤ 150
      → length spare ≡ 16
      → length (encode_rs8 (lo ∷ hi ∷ more)) ≡ 16
      → decode_rs8 (lo ∷ hi ∷ more) (encode_rs8 (lo ∷ hi ∷ more)) ≡ (lo ∷ hi ∷ more, 0)
      → write_idx + (length more + 18) < 2 ^ 16
      → write_packet_to_pru_memory encode_rs8 ((lo ∷ hi ∷ more) ++ (spare ++ rest)) write_idx pru_tx
        ≡ some (pru_tx1, idx)
      → readw pru_rx 2 ≡ read_idx
      → (read_idx == readw pru_rx 0) ≡ false
      → memcpy_fromio pru_rx read_idx (length more + 18)
        ≡ memcpy_fromio pru_tx1 write_idx (length more + 18)
      → pru_phy_decoding decode_rs8 pru_rx
        ≡ some (delivered (lo ∷ hi ∷ more) read_idx (length more + 2) pru_rx)
  pru_phy_decoding-write_packet_to_pru_memory lo hi more spare rest write_idx pru_tx pru_tx1 pru_rx
        read_idx idx len pos fits gap parity clean room wrote at_read other light =
      let (pru1, same, frame) =
        write_packet_to_pru_memory-frame lo hi more spare rest write_idx pru_tx len
          (omega (arith, len)) gap parity room in
      let here : pru_tx1 ≡ pru1 = same_memory (sym wrote ∙ same) in
      let bytes : memcpy_fromio pru_rx read_idx (length more + 18)
          ≡ (lo ∷ hi ∷ more) ++ encode_rs8 (lo ∷ hi ∷ more) =
        rw here at light ∙ frame in
      pru_phy_decoding-clean lo hi more read_idx pru_rx len pos fits parity clean at_read other
        bytes
