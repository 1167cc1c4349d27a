-- ===== src/Examples/Drivers.antt =====
-- A packet through both drivers.
use ciot_vlc.Base.{
  ℕ, ◌+◌, ◌%◌, ◌≡◌, refl, true, false, some, List, [], ◌∷◌, ◌++◌, ◌==◌, if◌then◌else◌, replicate,
}
use ciot_vlc.Pru.{Memory, readw, writew, memcpy_toio, memcpy_fromio}
use ciot_vlc.VlcTx.Driver.{encode_blocks, write_packet_to_pru_memory}
use ciot_vlc.VlcTx.Pool.{Driver, vlc_release_buffer, write_next, publish, phy_timer_handler}

abbrev pub total : List ℕ → ℕ
total [] = 0
total (b ∷ l) = b + total l

-- A checksum and 15 zeros in place of a Reed-Solomon parity.
abbrev pub checksum : List ℕ → List ℕ
checksum l = total l % 256 ∷ replicate 15 0

-- It corrects nothing and tells whether the checksum is wrong.
abbrev pub compare_checksum : List ℕ → List ℕ → List ℕ × ℕ
compare_checksum l [] = (l, 1)
compare_checksum l (c ∷ par) = (l, if total l % 256 == c then 0 else 1)

abbrev tail : List ℕ
tail = 1 ∷ 0 ∷ 1 ∷ 0 ∷ 5 ∷ 0 ∷ 0 ∷ 0 ∷ 7 ∷ 8 ∷ []

abbrev pub cleared : Memory
cleared j = 0

abbrev sent : Memory
sent = memcpy_toio cleared 4 ((2 ∷ 0 ∷ tail) ++ checksum (2 ∷ 0 ∷ tail))

-- Write index 32 and read index 4.
abbrev arrived : Memory
arrived =
    memcpy_toio (writew (writew cleared 0 32) 2 4) 4 ((2 ∷ 0 ∷ tail) ++ checksum (2 ∷ 0 ∷ tail))

writes :
    write_packet_to_pru_memory checksum ((2 ∷ 0 ∷ tail) ++ (replicate 16 0 ++ 9 ∷ [])) 4 cleared
    ≡ some (sent, 32)
unfolding write_packet_to_pru_memory encode_blocks
writes = refl

same_bytes : memcpy_fromio arrived 4 28 ≡ memcpy_fromio sent 4 28
unfolding memcpy_fromio memcpy_toio
same_bytes = refl

reads_at : readw arrived 2 ≡ 4
unfolding memcpy_toio
reads_at = refl

not_empty : (4 == readw arrived 0) ≡ false
unfolding memcpy_toio
not_empty = refl

-- One packet waits, and one is free.
abbrev one_waits : Driver
one_waits = record {
  ppool = 1;
  tx_queue = ((2 ∷ 0 ∷ tail) ++ (replicate 16 0 ++ 9 ∷ [])) ∷ [];
  stopped = false;
  is_write_next = true;
  write_idx = 4;
  pru0 = writew (writew cleared 0 4) 2 4;
  vlc_q_pkt = [];
}

abbrev none_waits : Driver
none_waits = record {
  ppool = 2;
  tx_queue = [];
  stopped = false;
  is_write_next = true;
  write_idx = 32;
  pru0 = writew (memcpy_toio one_waits.pru0 4 ((2 ∷ 0 ∷ tail) ++ checksum (2 ∷ 0 ∷ tail))) 0 32;
  vlc_q_pkt = [];
}

ticks : phy_timer_handler checksum one_waits ≡ some none_waits
unfolding phy_timer_handler write_packet_to_pru_memory encode_blocks memcpy_toio write_next publish
    vlc_release_buffer
ticks = refl
