-- ===== src/VlcTx/Pool.antt =====
-- The packet pool and transmit queue of the transmitter's driver, `ourvlc-1.c` in
-- `VLC TX1 (Eth)_ourvlc/`: `vlc_tx` and `phy_timer_handler`. The lists are linked through
-- `vlc_packet`; of the free packets only their number matters. The locks are left out, and
-- `flag_exit` is 0. `none` is a NULL dereference or a write past the end of an array.
use ciot_vlc.Base.{
  ℕ, zero, suc, ◌+◌, ◌≤◌, ◌≡◌, inl, inr, refl, ap, Bool, true, false, ◌&&◌, ◌||◌, not, Option, none,
  some, List, [], ◌∷◌, ◌++◌, ◌>>=◌, ◌==◌, leb, if◌then◌else◌, length, arith, length-append,
  bind_some, Bool-cases, le→leb,
}
use ciot_vlc.Pru.{Memory, readw, writew}
use ciot_vlc.VlcTx.Driver.{write_packet_to_pru_memory}

-- `tx_queue` has the `data` arrays; `stopped` is the state of the kernel's queue.
pub record Driver : Type 0 where
  pub ppool : ℕ
  pub tx_queue : List (List ℕ)
  pub stopped : Bool
  pub is_write_next : Bool
  pub write_idx : ℕ
  pub pru0 : Memory
  pub vlc_q_pkt : List ℕ

-- `vlc_get_tx_buffer`: the last free packet stops the queue.
unfoldable pub vlc_get_tx_buffer : Driver → Option Driver
vlc_get_tx_buffer d = elim d.ppool [
  | zero ↦ none
  | suc n ↦ some (record d { ppool = n; stopped = (n == 0) || d.stopped })
]

-- `vlc_release_buffer`: the first free packet wakes the queue.
unfoldable pub vlc_release_buffer : Driver → Driver
vlc_release_buffer d = record d { ppool = d.ppool + 1; stopped = d.stopped && not (d.ppool == 0) }

-- `skb` is copied over the start of the packet's array, of which `rest` is left.
unfoldable pub vlc_tx : List ℕ → List ℕ → Driver → Option Driver
unfolding vlc_get_tx_buffer
vlc_tx skb rest d = do
  d' ← vlc_get_tx_buffer d
  if leb (length skb) 2010
      then some (record d' { tx_queue = d'.tx_queue ++ (skb ++ rest) ∷ [] })
      else none

module _ (encode_rs8 : List ℕ → List ℕ) where
  -- The next packet, or the dummy packet if none waits, goes to the PRU.
  unfoldable pub write_next : Driver → List (List ℕ) → Option Driver
  unfolding vlc_release_buffer
  write_next d [] = do
    out ← write_packet_to_pru_memory encode_rs8 d.vlc_q_pkt (readw d.pru0 0) d.pru0
    some (record d { pru0 = out.0; write_idx = out.1 })
  write_next d (tx_pkt ∷ tx_queue) = do
    out ← write_packet_to_pru_memory encode_rs8 tx_pkt (readw d.pru0 0) d.pru0
    some (vlc_release_buffer (record d { tx_queue = tx_queue; pru0 = out.0; write_idx = out.1 }))

  -- The PRU is told of what was written once it has read up to the old index.
  unfoldable pub publish : Driver → Driver
  publish d =
      if readw d.pru0 2 == d.write_idx
      then d
      else record d { pru0 = writew d.pru0 0 d.write_idx; is_write_next = true }

  unfoldable pub phy_timer_handler : Driver → Option Driver
  unfolding write_next publish
  phy_timer_handler d =
      if d.is_write_next
      then (do
        d' ← write_next d d.tx_queue
        some (
            publish (record d' {
              write_idx = if leb 6004 d'.write_idx then 4 else d'.write_idx;
              is_write_next = false;
            })))
      else some (publish d)

-- Every packet of the pool is free or in the queue, and the kernel's queue is stopped exactly while
-- none is free.
pub record IsDriver (pool_size : ℕ) (d : Driver) : Type 0 where
  pub packets : d.ppool + length d.tx_queue ≡ pool_size
  pub flow : d.stopped ≡ (d.ppool == 0)

or_false : (b : Bool) → (b || false) ≡ b
or_false true = refl
or_false false = refl

-- With the invariant, a call of `vlc_tx` while the queue is not stopped, for at most 2010 bytes,
-- finds a free packet, puts the bytes at the end of the transmit queue, and keeps the invariant.
pub vlc_tx-IsDriver :
    {pool_size : ℕ} (skb rest : List ℕ) (d : Driver)
    → IsDriver pool_size d
    → d.stopped ≡ false
    → length skb ≤ 2010
    → (d' : Driver) × (vlc_tx skb rest d ≡ some d')
      × IsDriver pool_size d'
      × (d'.tx_queue ≡ d.tx_queue ++ (skb ++ rest) ∷ [])
unfolding vlc_tx vlc_get_tx_buffer
vlc_tx-IsDriver {pool_size} skb rest d v runs fits = go d.ppool refl
  where
    go :
        (n : ℕ)
        → d.ppool ≡ n
        → (d' : Driver) × (vlc_tx skb rest d ≡ some d')
          × IsDriver pool_size d'
          × (d'.tx_queue ≡ d.tx_queue ++ (skb ++ rest) ∷ [])
    go zero e = absurd (ground (arith, v.flow, runs, e))
    go (suc n) e =
        let d' : Driver = record d {
          ppool = n;
          stopped = (n == 0) || false;
          tx_queue = d.tx_queue ++ (skb ++ rest) ∷ [];
        } in
        (
          d',
          rw (e, runs, le→leb (length skb) 2010 fits) refl,
          record {
            packets =
                omega (arith, v.packets, e, length-append {0} d.tx_queue ((skb ++ rest) ∷ []));
            flow = or_false (n == 0);
          },
          refl,
        )

module _ (encode_rs8 : List ℕ → List ℕ) where
  released : (a k n m : ℕ) → a + k ≡ n → k ≡ suc m → a + 1 + m ≡ n
  released a k n m e f = omega arith

  publish-IsDriver :
      {pool_size : ℕ} (d : Driver)
      → IsDriver pool_size d
      → IsDriver pool_size (publish encode_rs8 d)
  unfolding publish
  publish-IsDriver d v = elim (Bool-cases (readw d.pru0 2 == d.write_idx)) [
    | inl read ↦ rw read v
    | inr unread ↦ rw unread (record { packets = v.packets; flow = v.flow })
  ]

  write_next-IsDriver :
      {pool_size : ℕ} (d d' : Driver) (l : List (List ℕ))
      → d.tx_queue ≡ l
      → IsDriver pool_size d
      → write_next encode_rs8 d l ≡ some d'
      → IsDriver pool_size d'
  unfolding write_next vlc_release_buffer
  write_next-IsDriver d d' [] e v r =
      let (out, a, b) =
        bind_some (write_packet_to_pru_memory encode_rs8 d.vlc_q_pkt (readw d.pru0 0) d.pru0) _ r in
      let same : d' ≡ record d { pru0 = out.0; write_idx = out.1 } = cc b in
      rw same (record { packets = v.packets; flow = v.flow })
  write_next-IsDriver d d' (p ∷ l) e v r =
      let (out, a, b) =
        bind_some (write_packet_to_pru_memory encode_rs8 p (readw d.pru0 0) d.pru0) _ r in
      let h : Driver = record d { tx_queue = l; pru0 = out.0; write_idx = out.1 } in
      let same : d' ≡ vlc_release_buffer h = cc b in
      rw same (record {
        packets =
            released d.ppool (length d.tx_queue) _ (length l) v.packets
              (ap (λ (m : List (List ℕ)). length m) e);
        flow = ground (arith, v.flow);
      })

  -- A tick of the timer that does not fault keeps the invariant.
  pub phy_timer_handler-IsDriver :
      {pool_size : ℕ} (d d' : Driver)
      → IsDriver pool_size d
      → phy_timer_handler encode_rs8 d ≡ some d'
      → IsDriver pool_size d'
  unfolding phy_timer_handler
  phy_timer_handler-IsDriver {pool_size} d d' v r = elim (Bool-cases d.is_write_next) [
    | inl writes ↦
        let d1 : Driver = record d { is_write_next = true } in
        let v1 : IsDriver pool_size d1 = record { packets = v.packets; flow = v.flow } in
        let (h, a, b) = bind_some (write_next encode_rs8 d1 d.tx_queue) _ (rw writes at r) in
        let w : IsDriver pool_size h = write_next-IsDriver d1 h d.tx_queue refl v1 a in
        let k : Driver = record h {
          write_idx = if leb 6004 h.write_idx then 4 else h.write_idx;
          is_write_next = false;
        } in
        let same : d' ≡ publish encode_rs8 k = cc b in
        rw same (publish-IsDriver k (record { packets = w.packets; flow = w.flow }))
    | inr waits ↦
        let same : d' ≡ publish encode_rs8 d = cc (rw waits at r) in rw same (publish-IsDriver d v)
  ]
