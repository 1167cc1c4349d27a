-- ===== src/Gateway/Flow/Drain.antt =====
-- Enough rounds of the transmitting threads, one after the other, send all that waits.
use ciot_vlc.Base.{
  ℕ, zero, suc, ◌+◌, ◌-◌, ◌*◌, ◌%◌, ◌≤◌, ◌<◌, ◌≡◌, refl, true, some, List, [], ◌∷◌, ◌++◌, ◌>>=◌,
  ◌==◌, leb, if◌then◌else◌, length, arith, length-append, append-nil, bind_some, Bool-cases, inl,
  inr, bind_through,
}
use ciot_vlc.Doubles.{Doubles}
use ciot_vlc.Packet.{Packet, Mac}
use ciot_vlc.Queue.Fifo
use ciot_vlc.Gateway.State.{Gateway, initial, decrement, store, rf_queue_size}
use ciot_vlc.Gateway.Schedule.{schedule-one}
use ciot_vlc.Gateway.Transmit.{transmit_rf, add_token, tbf_transmit, send_tbf}
use ciot_vlc.Gateway.Send.{transmit_packet_rf}
use ciot_vlc.Gateway.Produce.{schedule_packet, to_rf}
use ciot_vlc.Gateway.Step.{
  Event, transmit_rf_round, add_token_round, tbf_transmit_round, schedule_packet_round, Interfaces,
  step, run,
}
use ciot_vlc.Gateway.Flow.{
  Flow, in_flight, numbers, upto, AreFull, total, add_token-Flow, transmit_rf-Flow,
}
use ciot_vlc.Gateway.Flow.Out.{tbf_transmit-Flow}
use ciot_vlc.Gateway.Flow.In.{schedule_packet-Flow, to_rf_mode, lengths}
use ciot_vlc.Gateway.Flow.Run.{AreLossless, generated, run-Flow}

-- A round of each transmitting thread and of the scheduler.
abbrev pub cycle : List Event
cycle = add_token_round ∷ tbf_transmit_round true ∷ transmit_rf_round ∷ schedule_packet_round 0 ∷ []

abbrev pub cycles : ℕ → List Event
cycles zero = []
cycles (suc k) = cycle ++ cycles k

module _ {D : Type 0} where
  -- How many moves the waiting packets still need.
  abbrev pub weight : Gateway D → ℕ
  weight g = length g.tbf_queue.items + 2 * length g.rf_queue.items + 3 * length g.node_queue.items

  -- What is left after a round, in numbers of packets.
  record Left (g : Gateway D) (a b c : ℕ) : Type 0 where
    tbf : length g.tbf_queue.items ≡ a
    rf : length g.rf_queue.items ≡ b
    node : length g.node_queue.items ≡ c

  add_token-Left :
      (g : Gateway D)
      → Left
          (add_token g)
          (length g.tbf_queue.items)
          (length g.rf_queue.items)
          (length g.node_queue.items)
        × (0 < (add_token g).n_token)
  unfolding add_token
  add_token-Left g = elim (Bool-cases (leb (g.n_token + 1) 6)) [
    | inl more ↦ rw more (record { tbf = refl; rf = refl; node = refl }, omega arith)
    | inr full ↦ rw full (record { tbf = refl; rf = refl; node = refl }, ground arith)
  ]

  module _ {n : ℕ} {g : Gateway D} (f : Flow n g) where
    send_tbf-Left :
        (p : Packet) (h g' : Gateway D)
        → send_tbf true p h ≡ some g'
        → Left g' (length h.tbf_queue.items) (length h.rf_queue.items) (length h.node_queue.items)
    unfolding send_tbf decrement
    send_tbf-Left p h g' e = record { tbf = ground arith; rf = ground arith; node = ground arith }

    tbf_transmit-Left :
        (hwaddr : Mac) (ether_type : ℕ) (g' : Gateway D)
        → 0 < g.n_token
        → tbf_transmit hwaddr ether_type true g ≡ some g'
        → Left g' 0 (length g.rf_queue.items) (length g.node_queue.items)
    unfolding tbf_transmit Fifo.pop
    tbf_transmit-Left hwaddr ether_type g' token e = go g.tbf_queue.items refl
      where
        go :
            (l : List Packet)
            → g.tbf_queue.items ≡ l
            → Left g' 0 (length g.rf_queue.items) (length g.node_queue.items)
        go [] empty =
            let same : g' ≡ g = ground arith in
            rw same (record { tbf = rw empty refl; rf = refl; node = refl })
        go (p ∷ q ∷ rest) full = absurd (ground (arith, f.tbf, f.tbf_small))
        go (p ∷ []) full =
            let h : Gateway D = record g { tbf_queue = record g.tbf_queue { items = [] } } in
            let ran : (transmit_packet_rf hwaddr ether_type p >>= λ k. send_tbf true p h)
                ≡ some g' =
              ground (arith, full, token) in
            let (frame, a, b) =
              bind_some (transmit_packet_rf hwaddr ether_type p) (λ k. send_tbf true p h) ran in
            send_tbf-Left p h g' b

    transmit_rf_left :
        (g' : Gateway D)
        → length g.tbf_queue.items ≡ 0
        → transmit_rf g ≡ some g'
        → (length g'.tbf_queue.items + length g'.rf_queue.items ≡ length g.rf_queue.items)
          × (length g'.rf_queue.items ≡ length g.rf_queue.items - 1)
          × (length g'.node_queue.items ≡ length g.node_queue.items)
    unfolding transmit_rf decrement Fifo.pop Fifo.push
    transmit_rf_left g' none_waits e = go g.rf_queue.items refl
      where
        go :
            (l : List Packet)
            → g.rf_queue.items ≡ l
            → (length g'.tbf_queue.items + length g'.rf_queue.items ≡ length g.rf_queue.items)
              × (length g'.rf_queue.items ≡ length g.rf_queue.items - 1)
              × (length g'.node_queue.items ≡ length g.node_queue.items)
        go [] a =
            let same : g' ≡ g = ground (arith, a) in
            rw (same, a) (omega (arith, none_waits), refl, refl)
        go (p ∷ rest) a =
            let h : Gateway D = record g {
              rf_queue = record g.rf_queue { items = rest };
              tbf_queue = record g.tbf_queue { items = p ∷ [] };
              tbf_queue_length = g.tbf_queue_length + 1;
              r = length rest;
            } in
            let none_there : g.tbf_queue.items ≡ [] = ground (arith, none_waits) in
            let moved : transmit_rf g ≡ some h =
              ground (arith, a, none_there, f.r, f.tbf_limited, f.tbf) in
            let same : g' ≡ h = cc in rw (same, a) (omega arith, omega arith, refl)

    schedule_left :
        (now : ℕ) (g' : Gateway D)
        → schedule_packet now to_rf_mode g ≡ some g'
        → (length g'.tbf_queue.items ≡ length g.tbf_queue.items)
          × (length g'.rf_queue.items + length g'.node_queue.items
              ≡ length g.rf_queue.items + length g.node_queue.items)
          × (length g'.node_queue.items ≡ length g.node_queue.items - 1)
    unfolding schedule_packet to_rf decrement store Fifo.pop Fifo.push
    schedule_left now g' e = go g.node_queue.items refl
      where
        go :
            (l : List Packet)
            → g.node_queue.items ≡ l
            → (length g'.tbf_queue.items ≡ length g.tbf_queue.items)
              × (length g'.rf_queue.items + length g'.node_queue.items
                  ≡ length g.rf_queue.items + length g.node_queue.items)
              × (length g'.node_queue.items ≡ length g.node_queue.items - 1)
        go [] a =
            let h : Gateway D = record g { unsched_seq = (g.unsched_seq + 1) % 500000 } in
            let moved : schedule_packet now to_rf_mode g ≡ some h = ground (arith, a) in
            let same : g' ≡ h = cc in rw (same, a) (refl, refl, refl)
        go (p ∷ rest) a =
            let room = lengths f in
            let h : Gateway D = record g {
              node_queue = record g.node_queue { items = rest };
              unsched_seq = (g.unsched_seq + 1) % 500000;
              gn = length rest;
              rf_queue = record g.rf_queue { items = g.rf_queue.items ++ p ∷ [] };
              pkt_state = λ j. if g.unsched_seq == j then 3 else g.pkt_state j;
              r = g.r + 1;
            } in
            let moved : schedule_packet now to_rf_mode g ≡ some h =
              ground (arith, a, f.gn, f.rf_limit, f.few, room, f.unsched) in
            let same : g' ≡ h = cc in
            rw (same, a)
              (refl, omega (arith, length-append {0} g.rf_queue.items (p ∷ [])), omega arith)

pub no_items : (l : List Packet) → length l ≡ 0 → l ≡ []
no_items [] e = refl
no_items (p ∷ l) e = absurd (omega arith)

module _ (F : Doubles) (i : Interfaces) where
  open F use {D}

  pub run-append :
      (xs ys : List Event) (g : Gateway D) → run F i (xs ++ ys) g ≡ (run F i xs g >>= run F i ys)
  unfolding run
  run-append [] ys g = refl
  run-append (x ∷ xs) ys g =
      bind_through (step F i x g) (λ h. run F i (xs ++ ys) h) (λ h. run F i xs h) (run F i ys)
        (λ h. run-append xs ys h)

  -- A cycle lowers the weight.
  cycle_moves :
      {n : ℕ} (g : Gateway D)
      → Flow n g
      → (g' : Gateway D) × (run F i cycle g ≡ some g') × Flow n g' × (weight g' ≤ weight g - 1)
  unfolding run step
  cycle_moves g f =
      let g1 : Gateway D = add_token g in
      let f1 = add_token-Flow f in
      let (l1, token) = add_token-Left g in
      let (g2, e2, f2) = tbf_transmit-Flow f1 i.rf_if_mac i.ether_type in
      let l2 = tbf_transmit-Left f1 i.rf_if_mac i.ether_type g2 token e2 in
      let (g3, e3, f3) = transmit_rf-Flow f2 in
      let (a3, b3, c3) = transmit_rf_left f2 g3 l2.tbf e3 in
      let (g4, e4, f4) = schedule_packet-Flow f3 0 in
      let (a4, b4, c4) = schedule_left f3 0 g4 e4 in
      (
        g4,
        rw (e2, e3, schedule-one F 2 g3.gn g3.r g3.vk g3.e (omega arith), e4) refl,
        f4,
        omega (arith, l1.tbf, l1.rf, l1.node, l2.tbf, l2.rf, l2.node, a3, b3, c3, a4, b4, c4),
      )

  -- Nothing waits after as many cycles as the weight.
  pub drains :
      {n : ℕ} (k : ℕ) (g : Gateway D)
      → Flow n g
      → weight g ≤ k
      → (g' : Gateway D) × (run F i (cycles k) g ≡ some g') × Flow n g' × (weight g' ≡ 0)
  unfolding run
  drains zero g f w = (g, refl, f, omega (arith, w))
  drains (suc k) g f w =
      let (g1, e1, f1, w1) = cycle_moves g f in
      let (g2, e2, f2, w2) = drains k g1 f1 (omega (arith, w, w1)) in
      (g2, rw (run-append cycle (cycles k) g, e1) e2, f2, w2)

  -- What a run that has sent everything leaves: nothing waits, and the packets sent over RF are
  -- numbered from 0 to `n - 1` in order, each for node 1 and of `PAYLOAD_SIZE` bytes.
  pub record AllSent (n : ℕ) (g : Gateway D) : Type 0 where
    pub numbered : numbers g.rf_sent ≡ upto n
    pub full : AreFull g.rf_sent
    pub flow : Flow n g
    pub nothing : (g.node_queue.items ≡ []) × (g.rf_queue.items ≡ []) × (g.tbf_queue.items ≡ [])

  pub sent_all : {n : ℕ} {g : Gateway D} → Flow n g → weight g ≡ 0 → AllSent n g
  sent_all {g} f w =
      let a : g.tbf_queue.items ≡ [] = no_items g.tbf_queue.items (omega (arith, w)) in
      let b : g.rf_queue.items ≡ [] = no_items g.rf_queue.items (omega (arith, w)) in
      let c : g.node_queue.items ≡ [] = no_items g.node_queue.items (omega (arith, w)) in
      let only : in_flight g ≡ g.rf_sent = rw (a, b, c) (append-nil g.rf_sent) in
      record {
        numbered = rw only at f.ordered;
        full = rw only at f.full;
        flow = f;
        nothing = (c, b, a);
      }

  pub weight-le : {n : ℕ} {g : Gateway D} → Flow n g → weight g ≤ 3 * n
  weight-le {g} f = omega (
    arith,
    total f,
    length-append {0} g.rf_sent (g.tbf_queue.items ++ (g.rf_queue.items ++ g.node_queue.items)),
    length-append {0} g.tbf_queue.items (g.rf_queue.items ++ g.node_queue.items),
    length-append {0} g.rf_queue.items g.node_queue.items,
  )

  -- From the start, after any sequence of rounds of the producing and transmitting threads (none
  -- receives a report) in which the driver takes every RF frame, `rand` gives a whole payload, and at
  -- most as many packets are generated as the RF queue holds: three times as many cycles of the
  -- transmitting threads as packets were generated, whatever waits, send every packet: no round
  -- faults, nothing waits, and the packets sent are those generated, in order.
  pub run-AllSent :
      (zero_error : D) (events : List Event)
      → AreLossless events
      → generated events ≤ rf_queue_size
      → (g : Gateway D) × (run F i (events ++ cycles (3 * generated events)) (initial zero_error)
          ≡ some g)
        × AllSent (generated events) g
  run-AllSent zero_error events q h =
      let n : ℕ = generated events in
      let (g1, e1, f1) = run-Flow F i zero_error events q h in
      let (g2, e2, f2, w2) = drains (3 * n) g1 f1 (weight-le f1) in
      (g2, rw (run-append events (cycles (3 * n)) (initial zero_error), e1) e2, sent_all f2 w2)
