-- ===== src/Link/Blocks.antt =====
-- One block of a driver's packet: bytes put in an array, and a round of `pru_phy_decoding` of the
-- node on a block and its parity.
use ciot_vlc.Base.{
  ℕ, suc, ◌+◌, ◌-◌, ◌*◌, ◌%◌, ◌^◌, ◌≤◌, ◌<◌, ◌≡◌, refl, sym, ap, false, Option, some, List, [], ◌∷◌,
  ◌>>=◌, ◌++◌, ◌==◌, leb, if◌then◌else◌, length, replicate, take, arith, length-append,
  append_assoc, take_all_append, drop_all_append, lt→ltb, le→leb,
}
use ciot_vlc.Pru.{Memory, readw, writew, memcpy_fromio, memcpy_fromio-readw, put_at}
use ciot_vlc.VlcTx.Driver.{num_of_blocks}
use ciot_vlc.Node.Driver.{Decoded, note_errors, decode_blocks, decode_packet, pru_phy_decoding}

-- A length below that of a block makes one block, the last one.
pub one_block : (n : ℕ) → 0 < n → n < 200 → num_of_blocks n ≡ 1
one_block n a b = ground arith

pub short : (n : ℕ) → n < 200 → n % 200 ≡ n
short n h = omega arith

two_first : (k : ℕ) → k + 18 ≡ suc (suc (k + 16))
two_first k = omega arith

sixteen : (k : ℕ) → k + 18 ≡ k + 2 + 16
sixteen k = omega arith

pub put_at-middle :
    (l m par rest : List ℕ) (n : ℕ)
    → length l ≡ n
    → length m ≡ length par
    → put_at (l ++ (m ++ rest)) n par ≡ some (l ++ (par ++ rest))
put_at-middle l m par rest n a b =
    let size : length (l ++ (m ++ rest)) ≡ length l + (length m + length rest) =
      omega (arith, length-append {0} l (m ++ rest), length-append {0} m rest) in
    rw
      (
        le→leb (n + length par) (length (l ++ (m ++ rest))) (omega (arith, size)),
        take_all_append n l (m ++ rest) a,
        sym (append_assoc l m rest),
        drop_all_append (n + length par) (l ++ m) rest (omega (arith, length-append {0} l m)),
      )
      (ap some (append_assoc l par rest))

number_of_errors : (k : ℕ) → k < 2 ^ 32 → (0 + k) % 2 ^ 32 ≡ k
number_of_errors k h = omega arith

pub plus_zero : (n : ℕ) → n + 0 ≡ n
plus_zero n = omega arith

-- What follows the decoding: the errors are noted, the packet goes up, and the read index moves past
-- it and its parity, or back to the start.
abbrev pub passed_up : ℕ → List ℕ → ℕ → ℕ → Memory → Option Decoded
passed_up total_num_err rx_data read_idx n pru0 = do
  noted ← note_errors total_num_err rx_data
  let next = (read_idx + n + 16) % 2 ^ 16
  some (record {
    received = some (take n noted);
    pru0 = writew pru0 2 (if leb 6004 next then 4 else next);
  })

module _ (decode_rs8 : List ℕ → List ℕ → List ℕ × ℕ) where
  decode_blocks-one :
      (block par body rest : List ℕ) (n k : ℕ)
      → length block ≡ n
      → length block ≡ length body
      → n < 200
      → length par ≡ 16
      → decode_rs8 block par ≡ (body, k)
      → k < 2 ^ 32
      → decode_blocks decode_rs8 1 0 n (block ++ (par ++ rest)) 0 ≡ some (body ++ (par ++ rest), k)
  unfolding decode_blocks
  decode_blocks-one block par body rest n k len same small parity corrects few =
      rw
        (
          short n small,
          take_all_append n block (par ++ rest) len,
          plus_zero n,
          drop_all_append n block (par ++ rest) len,
          take_all_append 16 par rest parity,
          corrects,
          put_at-middle [] block body (par ++ rest) 0 refl same,
          number_of_errors k few,
        )
        refl

  decode_packet-one :
      (block par body : List ℕ) (read_idx n k : ℕ) (pru0 : Memory)
      → length block ≡ n
      → length block ≡ length body
      → 0 < n
      → n < 200
      → length par ≡ 16
      → memcpy_fromio pru0 read_idx (n + 16) ≡ block ++ par
      → decode_rs8 block par ≡ (body, k)
      → k < 2 ^ 32
      → decode_packet decode_rs8 read_idx n pru0
        ≡ passed_up k (body ++ (par ++ replicate (2000 - (n + 16)) 0)) read_idx n pru0
  unfolding decode_packet
  decode_packet-one block par body read_idx n k pru0 len same pos small parity bytes corrects few =
      let zeros : List ℕ = replicate (2000 - (n + 16)) 0 in
      rw
        (
          bytes,
          one_block n pos small,
          append_assoc block par zeros,
          decode_blocks-one block par body zeros n k len same small parity corrects few,
        )
        refl

  -- A block of 1 to 150 payload bytes at a read index that is not the write index, its length right.
  pub pru_phy_decoding-one :
      (lo hi : ℕ) (more par body : List ℕ) (read_idx k : ℕ) (pru0 : Memory)
      → length more + 2 ≡ lo + 256 * hi + 10
      → length more + 2 ≡ length body
      → 0 < lo + 256 * hi
      → lo + 256 * hi ≤ 150
      → length par ≡ 16
      → readw pru0 2 ≡ read_idx
      → (read_idx == readw pru0 0) ≡ false
      → memcpy_fromio pru0 read_idx (length more + 18) ≡ (lo ∷ hi ∷ more) ++ par
      → decode_rs8 (lo ∷ hi ∷ more) par ≡ (body, k)
      → k < 2 ^ 32
      → pru_phy_decoding decode_rs8 pru0
        ≡ passed_up k
            (body ++ (par ++ replicate (2000 - (length more + 2 + 16)) 0))
            read_idx
            (length more + 2)
            pru0
  unfolding pru_phy_decoding
  pru_phy_decoding-one lo hi more par body read_idx k pru0 len same pos fits parity at_read other
        bytes corrects few =
      let word : readw pru0 read_idx ≡ lo + 256 * hi =
        memcpy_fromio-readw pru0 read_idx (length more + 16)
          (rw (two_first (length more)) at bytes) in
      rw
        (
          at_read,
          other,
          word,
          lt→ltb 0 (lo + 256 * hi) pos,
          le→leb (lo + 256 * hi) 150 fits,
          sym len,
        )
        (decode_packet-one (lo ∷ hi ∷ more) par body read_idx (length more + 2) k pru0 (omega arith)
          (omega (arith, same)) (omega arith) (omega (arith, len)) parity
          (rw (sixteen (length more)) at bytes) corrects few)
