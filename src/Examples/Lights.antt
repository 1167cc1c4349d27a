-- ===== src/Examples/Lights.antt =====
-- The dummy packet, and a packet in which a byte was corrected, from the light to the node's program.
use ciot_vlc.Base.{
  ℕ, ◌+◌, ◌-◌, ◌%◌, ◌≡◌, refl, false, some, List, [], ◌∷◌, ◌++◌, ◌==◌, take, drop, replicate, arith,
}
use ciot_vlc.Packet.{Packet, IsPacket}
use ciot_vlc.Pru.{Memory, readw, writew, memcpy_toio, memcpy_fromio}
use ciot_vlc.VlcTx.Driver.{encode_blocks, write_packet_to_pru_memory}
use ciot_vlc.Node.Driver.{pru_phy_decoding}
use ciot_vlc.Node.Receive.{initial_receiver, enqueue_vlc, receive_vlc}
use ciot_vlc.Link.Vlc.{vlc_head}
use ciot_vlc.Link.Driver.{delivered}
use ciot_vlc.Link.Light.{dummy_bytes}
use ciot_vlc.Link.Corrected.{marked, errors_counted, receive_vlc-corrected}
use ciot_vlc.Examples.Drivers.{total, checksum, cleared}

abbrev zeros : List ℕ
zeros = replicate 2010 0

-- The bytes and their parity at address 4.
abbrev sent : List ℕ → List ℕ → Memory
sent bytes par = memcpy_toio cleared 4 (bytes ++ par)

-- The same with write index 200 and read index 4.
abbrev arrived : List ℕ → List ℕ → Memory
arrived bytes par = memcpy_toio (writew (writew cleared 0 200) 2 4) 4 (bytes ++ par)

abbrev dummy_sent : Memory
dummy_sent = sent dummy_bytes (checksum dummy_bytes)

abbrev dummy_arrived : Memory
dummy_arrived = arrived dummy_bytes (checksum dummy_bytes)

writes :
    write_packet_to_pru_memory checksum (dummy_bytes ++ drop 84 zeros) 4 cleared
    ≡ some (dummy_sent, 104)
unfolding write_packet_to_pru_memory encode_blocks
writes = refl

same_bytes : memcpy_fromio dummy_arrived 4 100 ≡ memcpy_fromio dummy_sent 4 100
unfolding memcpy_fromio memcpy_toio
same_bytes = refl

reads_at : readw dummy_arrived 2 ≡ 4
unfolding memcpy_toio
reads_at = refl

not_empty : (4 == readw dummy_arrived 0) ≡ false
unfolding memcpy_toio
not_empty = refl

-- It corrects the byte at 10 by the checksum and reports one error.
abbrev correct_byte : List ℕ → List ℕ → List ℕ × ℕ
correct_byte l [] = (l, 0)
correct_byte l (c ∷ par) =
    (take 10 l ++ ((c + 65536 - total (take 10 l) - total (drop 11 l)) % 256 ∷ drop 11 l), 1)

abbrev four_bytes : Packet
four_bytes = record {
  node_id = 1;
  vlc_id = 1;
  payload_len = 4;
  seq_number = 5;
  payload = 7 ∷ 8 ∷ 9 ∷ 10 ∷ [];
}

four_bytes-IsPacket : IsPacket four_bytes
four_bytes-IsPacket = record {
  node = omega arith;
  vlc = omega arith;
  len = omega arith;
  seq = omega arith;
  bytes = refl;
}

-- What comes after the length: the first payload byte is wrong.
abbrev noisy : List ℕ
noisy = 1 ∷ 0 ∷ 1 ∷ 0 ∷ 5 ∷ 0 ∷ 0 ∷ 0 ∷ 99 ∷ 8 ∷ 9 ∷ 10 ∷ []

abbrev parity : List ℕ
parity = checksum (vlc_head four_bytes ++ four_bytes.payload)

abbrev noisy_arrived : Memory
noisy_arrived = arrived (4 ∷ 0 ∷ noisy) parity

noisy_at : readw noisy_arrived 2 ≡ 4
unfolding memcpy_toio
noisy_at = refl

noisy_not_empty : (4 == readw noisy_arrived 0) ≡ false
unfolding memcpy_toio
noisy_not_empty = refl

noisy_bytes : memcpy_fromio noisy_arrived 4 30 ≡ (4 ∷ 0 ∷ noisy) ++ parity
unfolding memcpy_fromio memcpy_toio
noisy_bytes = refl

receive_vlc-corrected_example :
    (pru_phy_decoding correct_byte noisy_arrived
      ≡ some (
          delivered
            (vlc_head (marked 1 four_bytes) ++ (marked 1 four_bytes).payload)
            4
            14
            noisy_arrived))
    × (receive_vlc 14
          ((vlc_head (marked 1 four_bytes) ++ (marked 1 four_bytes).payload) ++ 9 ∷ [])
          initial_receiver
        ≡ some (enqueue_vlc 4 (marked 1 four_bytes) (errors_counted 1 four_bytes initial_receiver)))
receive_vlc-corrected_example =
    receive_vlc-corrected correct_byte four_bytes noisy parity 4 1 noisy_arrived (9 ∷ []) 14
      initial_receiver four_bytes-IsPacket refl (omega arith) (omega arith) refl refl noisy_at
      noisy_not_empty noisy_bytes refl (omega arith) (omega arith) (omega arith)
