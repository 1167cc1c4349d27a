-- ===== src/Link/Overrun.antt =====
-- A tick of the transmitter's driver while the PRU has not read all: `phy_timer_handler` of
-- `VLC TX1 (Eth)_ourvlc/ourvlc-1.c` compares the read index with the new write index only.
use ciot_vlc.Base.{
  ℕ, suc, ◌+◌, ◌*◌, ◌^◌, ◌≤◌, ◌<◌, ◌≡◌, refl, ◌∙◌, true, false, ◌&&◌, not, some, List, ◌∷◌, ◌++◌,
  ◌==◌, leb, length, take, drop, arith, length-append, length-take, take-drop,
}
use ciot_vlc.Pru.{
  Memory, readw, writew, memcpy_toio, memcpy_fromio, memcpy_toio-before, memcpy_fromio-memcpy_toio,
}
use ciot_vlc.VlcTx.Driver.{write_packet_to_pru_memory}
use ciot_vlc.VlcTx.Pool.{Driver, vlc_release_buffer, write_next, publish, phy_timer_handler}
use ciot_vlc.Link.Driver.{write_packet-one_block}
use ciot_vlc.Link.Path.{memcpy_fromio-writew}

readw-memcpy_toio :
    (pru : Memory) (i w : ℕ) (bytes : List ℕ)
    → i + 1 < w
    → readw (memcpy_toio pru w bytes) i ≡ readw pru i
readw-memcpy_toio pru i w bytes h =
    rw
      (
        memcpy_toio-before pru w i bytes (omega arith),
        memcpy_toio-before pru w (suc i) bytes (omega arith),
      )
      refl

readw-writew : (pru : Memory) (v : ℕ) → v < 2 ^ 16 → readw (writew pru 0 v) 0 ≡ v
readw-writew pru v h = omega arith

module _ (encode_rs8 : List ℕ → List ℕ) (decode_rs8 : List ℕ → List ℕ → List ℕ × ℕ) where
  -- A tick with a packet of less than 200 bytes queued, which states its length, while the PRU's read
  -- index lies within the place of the block to come, between its write index and the block's end, and
  -- that end is before the buffer's, with a parity of 16 bytes: the tick does not fault, and writes
  -- packet and parity over the bytes at the read index and on, tells the PRU of the new write
  -- index, leaves the read index, and makes ready to write again.
  pub phy_timer_handler-overrun :
      (lo hi : ℕ) (more rest : List ℕ) (queue : List (List ℕ)) (d : Driver) (w r : ℕ)
      → d.is_write_next ≡ true
      → d.tx_queue ≡ ((lo ∷ hi ∷ more) ++ rest) ∷ queue
      → length more + 2 ≡ lo + 256 * hi + 10
      → length more + 2 < 200
      → 16 ≤ length rest
      → length (encode_rs8 (lo ∷ hi ∷ more)) ≡ 16
      → readw d.pru0 0 ≡ w
      → readw d.pru0 2 ≡ r
      → 4 ≤ w
      → w < r
      → r < w + (length more + 18)
      → w + (length more + 18) < 6004
      → (d' : Driver) × (phy_timer_handler encode_rs8 d ≡ some d')
        × (memcpy_fromio d'.pru0 w (length more + 18)
            ≡ (lo ∷ hi ∷ more) ++ encode_rs8 (lo ∷ hi ∷ more))
        × (readw d'.pru0 0 ≡ w + (length more + 18))
        × (readw d'.pru0 2 ≡ r)
        × (d'.is_write_next ≡ true)
  unfolding phy_timer_handler write_next publish vlc_release_buffer
  phy_timer_handler-overrun lo hi more rest queue d w r next waits len small space parity at_w at_r
        low after within room =
      let body : List ℕ = lo ∷ hi ∷ more in
      let par : List ℕ = encode_rs8 body in
      let idx : ℕ = w + (length more + 18) in
      let pru1 : Memory = memcpy_toio d.pru0 w (body ++ par) in
      let gap : length (take 16 rest) ≡ 16 = omega (arith, length-take {0} 16 rest, space) in
      let size : length (body ++ par) ≡ length more + 18 =
        omega (arith, length-append {0} body par, parity) in
      let wrote : write_packet_to_pru_memory encode_rs8 (body ++ rest) w d.pru0 ≡ some (pru1, idx) =
        rw (take-drop 16 rest) at (
          write_packet-one_block encode_rs8 decode_rs8 lo hi more (take 16 rest) (drop 16 rest) w
            d.pru0 len small gap parity (omega (arith, room))) in
      let fits : leb 6004 idx ≡ false = ground (arith, room) in
      let at_r1 : readw pru1 2 ≡ r =
        readw-memcpy_toio d.pru0 2 w (body ++ par) (omega arith) ∙ at_r in
      let apart : (r == idx) ≡ false = ground (arith, within) in
      let bytes : memcpy_fromio pru1 w (length more + 18) ≡ body ++ par =
        rw size at (memcpy_fromio-memcpy_toio d.pru0 w (body ++ par)) in
      (
        record d {
          ppool = d.ppool + 1;
          tx_queue = queue;
          stopped = d.stopped && not (d.ppool == 0);
          is_write_next = true;
          write_idx = idx;
          pru0 = writew pru1 0 idx;
        },
        rw (next, waits, at_w, wrote, fits, at_r1, apart) refl,
        memcpy_fromio-writew pru1 idx w (length more + 18) (omega arith) ∙ bytes,
        readw-writew pru1 idx (omega (arith, room)),
        at_r1,
        refl,
      )
