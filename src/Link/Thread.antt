-- ===== src/Link/Thread.antt =====
-- The driver's receiving thread over many turns.
use ciot_vlc.Base.{
  ℕ, ◌+◌, ◌*◌, ◌≤◌, ◌<◌, ◌≡◌, refl, ap, true, false, some, List, [], ◌∷◌, ◌++◌, ◌==◌, length,
}
use ciot_vlc.Pru.{Memory, readw, memcpy_fromio}
use ciot_vlc.Node.Thread.{Turn, Thread, decoding_turn, and_then, decoding_thread}
use ciot_vlc.Link.Driver.{delivered, pru_phy_decoding-clean}

-- Each turn finds nothing to read.
abbrev pub AreQuiet : List Turn → Type 0
AreQuiet [] = Unit {0}
AreQuiet (t ∷ turns) =
    ((m : Memory) → (readw (t.pru m) 2 == readw (t.pru m) 0) ≡ true) × AreQuiet turns

module _ (encode_rs8 : List ℕ → List ℕ) (decode_rs8 : List ℕ → List ℕ → List ℕ × ℕ) where
  -- At each turn the PRU brings nothing, or, at the read index, a block of 1 to 150 payload bytes that
  -- states its length, with a parity of 16 bytes with which it decodes to itself without errors, and
  -- the thread is not asked to stop. The packets are those of the blocks, in order.
  pub data Brings : List Turn → Memory → List (List ℕ) → Type 0 where
    stop : {m : Memory} → Brings [] m []
    quiet :
        {turns : List Turn} {m : Memory} {packets : List (List ℕ)} (t : Turn)
        → (readw (t.pru m) 2 == readw (t.pru m) 0) ≡ true
        → Brings turns (t.pru m) packets
        → Brings (t ∷ turns) m packets
    block :
        {turns : List Turn} {m : Memory} {packets : List (List ℕ)} (t : Turn) (lo hi : ℕ)
        (more : List ℕ)
        → t.stop ≡ false
        → length more + 2 ≡ lo + 256 * hi + 10
        → 0 < lo + 256 * hi
        → lo + 256 * hi ≤ 150
        → length (encode_rs8 (lo ∷ hi ∷ more)) ≡ 16
        → decode_rs8 (lo ∷ hi ∷ more) (encode_rs8 (lo ∷ hi ∷ more)) ≡ (lo ∷ hi ∷ more, 0)
        → (readw (t.pru m) 2 == readw (t.pru m) 0) ≡ false
        → memcpy_fromio (t.pru m) (readw (t.pru m) 2) (length more + 18)
          ≡ (lo ∷ hi ∷ more) ++ encode_rs8 (lo ∷ hi ∷ more)
        → Brings turns
            (delivered (lo ∷ hi ∷ more) (readw (t.pru m) 2) (length more + 2) (t.pru m)).pru0
            packets
        → Brings (t ∷ turns) m ((lo ∷ hi ∷ more) ∷ packets)

  -- Where at each turn the PRU brings nothing new, or brings, at the read index, a block of 1 to 150
  -- payload bytes (beside the header) that states its length, with a parity of 16 bytes with which it
  -- decodes to itself without errors, and the thread is not asked to stop at that turn: over any
  -- number of turns the thread does not fault, gives the network stack exactly the packets of the
  -- blocks, in order, and has not ended.
  pub decoding_thread-delivers :
      {turns : List Turn} {m : Memory} {packets : List (List ℕ)}
      → Brings turns m packets
      → (r : Thread) × (decoding_thread decode_rs8 turns m ≡ some r)
        × (r.received ≡ packets)
        × (r.ended ≡ false)
  unfolding decoding_thread decoding_turn and_then
  decoding_thread-delivers stop = (_, refl, refl, refl)
  decoding_thread-delivers (quiet t none_new rest) =
      let (r, e, p, going) = decoding_thread-delivers rest in (r, rw (none_new, e) refl, p, going)
  decoding_thread-delivers {m} (block t lo hi more go_on len pos fits parity clean new bytes rest) =
      let (r, e, p, going) = decoding_thread-delivers rest in
      let up =
        pru_phy_decoding-clean encode_rs8 decode_rs8 lo hi more (readw (t.pru m) 2) (t.pru m) len
          pos fits parity clean refl new bytes in
      (
        record { ended = r.ended; received = (lo ∷ hi ∷ more) ∷ r.received; pru0 = r.pru0 },
        rw (new, up, go_on, e) refl,
        ap (λ l. (lo ∷ hi ∷ more) ∷ l) p,
        going,
      )

module _ (decode_rs8 : List ℕ → List ℕ → List ℕ × ℕ) where
  -- While nothing comes, the thread does not end, whether it is asked to stop or not, receives nothing
  -- and does not fault, for any number of turns.
  pub decoding_thread-quiet :
      (turns : List Turn) (m : Memory)
      → AreQuiet turns
      → (r : Thread) × (decoding_thread decode_rs8 turns m ≡ some r)
        × (r.ended ≡ false)
        × (r.received ≡ [])
  unfolding decoding_thread decoding_turn and_then
  decoding_thread-quiet [] m v = (_, refl, refl, refl)
  decoding_thread-quiet (t ∷ turns) m v =
      let (r, e, going, nothing) = decoding_thread-quiet turns (t.pru m) v.1 in
      (r, rw (v.0 m, e) refl, going, nothing)
