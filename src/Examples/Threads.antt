-- ===== src/Examples/Threads.antt =====
-- A few turns of the driver's receiving thread.
use ciot_vlc.Base.{ℕ, ◌≡◌, refl, true, false, some, List, [], ◌∷◌, ◌++◌, arith}
use ciot_vlc.Pru.{writew, memcpy_toio, memcpy_fromio}
use ciot_vlc.Node.Thread.{Turn, Thread, decoding_thread}
use ciot_vlc.Link.Thread.{Brings, stop, quiet, block, decoding_thread-delivers}
use ciot_vlc.Examples.Drivers.{checksum, compare_checksum, cleared}

-- The PRU brings nothing, and the thread is asked to stop.
abbrev nothing_new : Turn
nothing_new = record { pru = λ m. writew (writew m 0 4) 2 4; stop = true }

abbrev tail : List ℕ
tail = 1 ∷ 0 ∷ 1 ∷ 0 ∷ 5 ∷ 0 ∷ 0 ∷ 0 ∷ 7 ∷ 8 ∷ []

abbrev one_packet : Turn
one_packet = record {
  pru = λ m. memcpy_toio (writew (writew m 0 32) 2 4) 4 ((2 ∷ 0 ∷ tail) ++ checksum (2 ∷ 0 ∷ tail));
  stop = false;
}

abbrev turns : List Turn
turns = nothing_new ∷ one_packet ∷ []

comes : Brings checksum compare_checksum turns cleared ((2 ∷ 0 ∷ tail) ∷ [])
unfolding memcpy_toio memcpy_fromio
comes =
    quiet nothing_new refl
      (block one_packet 2 0 tail refl refl (omega arith) (omega arith) refl refl refl refl stop)

decoding_thread-delivers_example :
    (r : Thread) × (decoding_thread compare_checksum turns cleared ≡ some r)
    × (r.received ≡ (2 ∷ 0 ∷ tail) ∷ [])
    × (r.ended ≡ false)
decoding_thread-delivers_example = decoding_thread-delivers checksum compare_checksum comes
