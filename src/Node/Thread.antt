-- ===== src/Node/Thread.antt =====
-- The loop of `pru_phy_decoding` of `node (rf)_ourvlc/ourvlc-1.c`, the receiving thread of the driver,
-- a turn at a time.
use ciot_vlc.Base.{
  ℕ, Bool, false, Option, none, some, List, [], ◌∷◌, ◌++◌, ◌>>=◌, ◌==◌, if◌then◌else◌,
}
use ciot_vlc.Pru.{Memory, readw}
use ciot_vlc.Node.Driver.{pru_phy_decoding}

-- What the PRU does to the memory before a turn, and whether the thread is asked to stop by its end.
pub record Turn : Type 0 where
  pub pru : Memory → Memory
  pub stop : Bool

-- Whether the loop was left, what `mac_rx` was given, in order, and the memory.
pub record Thread : Type 0 where
  pub ended : Bool
  pub received : List (List ℕ)
  pub pru0 : Memory

abbrev pub to_list : Option (List ℕ) → List (List ℕ)
to_list none = []
to_list (some packet) = packet ∷ []

module _ (decode_rs8 : List ℕ → List ℕ → List ℕ × ℕ) where
  -- With nothing to read, `continue` skips the test of `kthread_should_stop`.
  unfoldable pub decoding_turn : Turn → Memory → Option Thread
  decoding_turn t pru0 =
      let m = t.pru pru0 in
      if readw m 2 == readw m 0
      then some (record { ended = false; received = []; pru0 = m })
      else (do
        d ← pru_phy_decoding decode_rs8 m
        some (record { ended = t.stop; received = to_list d.received; pru0 = d.pru0 }))

  -- What follows a turn, with the turns after it.
  unfoldable pub and_then : Thread → Option Thread → Option Thread
  and_then r rest = if r.ended then some r else (do
    s ← rest
    some (record { ended = s.ended; received = r.received ++ s.received; pru0 = s.pru0 }))

  unfoldable pub decoding_thread : List Turn → Memory → Option Thread
  unfolding decoding_turn and_then
  decoding_thread [] pru0 = some (record { ended = false; received = []; pru0 = pru0 })
  decoding_thread (t ∷ turns) pru0 = do
    r ← decoding_turn t pru0
    and_then r (decoding_thread turns r.pru0)
