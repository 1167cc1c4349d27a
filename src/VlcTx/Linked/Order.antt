-- ===== src/VlcTx/Linked/Order.antt =====
-- Runs of calls of `vlc_tx` and ticks of the timer on the linked packets.
use ciot_vlc.Base.{
  ℕ, ◌≤◌, ◌<◌, ◌≡◌, refl, sym, ap, ◌∙◌, true, false, Option, none, some, List, [], ◌∷◌, ◌++◌,
  length, arith, append_assoc, append-nil,
}
use ciot_vlc.Pru.{Memory}
use ciot_vlc.VlcTx.Pool.{Driver, IsDriver, vlc_tx-IsDriver}
use ciot_vlc.VlcTx.Pool
use ciot_vlc.VlcTx.Linked.{VlcPacket, PacketHeap, Linked, vlc_tx, vlc_setup_pool, next_packet}
use ciot_vlc.VlcTx.Linked.Chain.{Items, Chain}
use ciot_vlc.VlcTx.Linked.Represents.{arrays, Represents}
use ciot_vlc.VlcTx.Linked.Enqueue.{vlc_tx_refines}
use ciot_vlc.VlcTx.Linked.Dequeue.{next_none, release-Represents}
use ciot_vlc.VlcTx.Linked.Start.{allocated, AreNew, vlc_setup_pool-Represents}

abbrev pub to_list : Option (List ℕ) → List (List ℕ)
to_list none = []
to_list (some x) = x ∷ []

-- From the packets `start`, calls of `vlc_tx`, each with at most 2010 bytes and while the kernel's
-- queue is not stopped, and ticks of the timer that write: what the ticks gave to be written, and the
-- frames of the calls.
pub data PoolRuns (fuel : ℕ) (start : Linked)
    : Linked → List (List ℕ) → List (List ℕ) → Type 0 where
  stay : PoolRuns fuel start start [] []
  call :
      {s s' : Linked} {given frames : List (List ℕ)} (skb : List ℕ)
      → PoolRuns fuel start s given frames
      → s.stopped ≡ false
      → length skb ≤ 2010
      → vlc_tx fuel skb s ≡ some s'
      → PoolRuns fuel start s' given (frames ++ skb ∷ [])
  tick :
      {s s' : Linked} {given frames : List (List ℕ)} {x : Option (List ℕ)}
      → PoolRuns fuel start s given frames
      → next_packet s ≡ some (x, s')
      → PoolRuns fuel start s' (given ++ to_list x) frames

-- Each array begins with its frame.
pub data Begin : List (List ℕ) → List (List ℕ) → Type 0 where
  done : Begin [] []
  begins :
      {l frames : List (List ℕ)} {skb : List ℕ} (rest : List ℕ)
      → Begin l frames
      → Begin ((skb ++ rest) ∷ l) (skb ∷ frames)

Begin-more :
    {l frames : List (List ℕ)} (skb rest : List ℕ)
    → Begin l frames
    → Begin (l ++ (skb ++ rest) ∷ []) (frames ++ skb ∷ [])
Begin-more skb rest done = begins rest done
Begin-more skb rest (begins r b) = begins r (Begin-more skb rest b)

-- What holds after any run.
record Holds (n : ℕ) (s : Linked) (given frames : List (List ℕ)) : Type 0 where
  driver : Driver
  linked : Represents s driver
  valid : IsDriver n driver
  order : Begin (given ++ driver.tx_queue) frames

call-Holds :
    {n fuel : ℕ} {s : Linked} {given frames : List (List ℕ)} (skb : List ℕ)
    → n ≤ fuel
    → Holds n s given frames
    → s.stopped ≡ false
    → length skb ≤ 2010
    → (s' : Linked) × (vlc_tx fuel skb s ≡ some s') × Holds n s' given (frames ++ skb ∷ [])
call-Holds {n} {fuel} {s} {given} {frames} skb enough v runs fits =
    let d : Driver = v.driver in
    let awake : d.stopped ≡ false = sym v.linked.stopped ∙ runs in
    let free : 0 < d.ppool = ground (arith, v.valid.flow, awake) in
    let c = vlc_tx_refines fuel skb v.linked free (omega (arith, v.valid.packets, enough)) fits in
    let (d', e, w, q) = vlc_tx-IsDriver skb c.rest d v.valid awake fits in
    let both : some c.driver ≡ some d' = sym c.abstract_tx ∙ e in
    let same : c.driver ≡ d' = ground arith in
    (
      c.linked,
      c.returned,
      record {
        driver = d';
        linked = rw same at c.represents;
        valid = w;
        order =
            rw (q, sym (append_assoc given d.tx_queue ((skb ++ c.rest) ∷ [])))
              (Begin-more skb c.rest v.order);
      },
    )

release_valid :
    {n : ℕ} (d : Driver) (l : List (List ℕ)) (x : List ℕ) (pru : Memory) (idx : ℕ)
    → IsDriver n d
    → d.tx_queue ≡ x ∷ l
    → IsDriver n (Pool.vlc_release_buffer (record d { tx_queue = l; pru0 = pru; write_idx = idx }))
unfolding Pool.vlc_release_buffer
release_valid d l x pru idx v e = record {
  packets = omega (arith, v.packets, ap (λ (m : List (List ℕ)). length m) e);
  flow = ground (arith, v.flow);
}

tick-Holds :
    {n : ℕ} {s : Linked} {given frames : List (List ℕ)}
    → Holds n s given frames
    → (x : Option (List ℕ)) × (s' : Linked) × (next_packet s ≡ some (x, s'))
      × Holds n s' (given ++ to_list x) frames
unfolding Pool.vlc_release_buffer
tick-Holds {n} {s} {given} {frames} v = go v.linked.queue refl
  where
    go :
        (queue : Items)
        → v.linked.queue ≡ queue
        → (x : Option (List ℕ)) × (s' : Linked) × (next_packet s ≡ some (x, s'))
          × Holds n s' (given ++ to_list x) frames
    go [] e = (
      none,
      s,
      next_none s (rw e at v.linked.waiting),
      record {
        driver = v.driver;
        linked = v.linked;
        valid = v.valid;
        order = rw (append-nil given) v.order;
      },
    )
    go ((a, x) ∷ r) e =
        let d : Driver = v.driver in
        let waits : d.tx_queue ≡ x ∷ arrays r = v.linked.content ∙ rw e refl in
        let (s', ran, w) = release-Represents d.pru0 d.write_idx v.linked e waits in
        (
          some x,
          s',
          ran,
          record {
            driver = _;
            linked = w;
            valid = release_valid d (arrays r) x d.pru0 d.write_idx v.valid waits;
            order = rw (append_assoc given (x ∷ []) (arrays r)) (rw waits at v.order);
          },
        )

PoolRuns-Holds :
    {n fuel : ℕ} {start s : Linked} {given frames : List (List ℕ)}
    → n ≤ fuel
    → Holds n start [] []
    → PoolRuns fuel start s given frames
    → Holds n s given frames
PoolRuns-Holds enough v stay = v
PoolRuns-Holds enough v (call {s' = s2} skb runs awake fits e) =
    let (s1, e1, w) = call-Holds skb enough (PoolRuns-Holds enough v runs) awake fits in
    let both : some s1 ≡ some s2 = sym e1 ∙ e in let same : s1 ≡ s2 = ground arith in rw same at w
PoolRuns-Holds {n} {frames} enough v (tick {s' = s2} {given} {x} runs e) =
    let (y, s1, e1, w) = tick-Holds (PoolRuns-Holds enough v runs) in
    let both : some (y, s1) ≡ some (x, s2) = sym e1 ∙ e in
    let same_given : y ≡ x = ground (arith, both) in
    let same : s1 ≡ s2 = ground (arith, both) in rw (sym same, sym same_given) w

-- The packets after `vlc_setup_pool`.
abbrev pub set_up : List (Option (ℕ × VlcPacket)) → PacketHeap → Linked
set_up answers heap =
    vlc_setup_pool answers (record { ppool = none; tx_queue = none; stopped = false; heap = heap })

-- The driver that the packets stand for at first; only its lists matter.
abbrev fresh : ℕ → Driver
fresh n = record {
  ppool = n;
  tx_queue = [];
  stopped = false;
  is_write_next = true;
  write_idx = 4;
  pru0 = λ j. 0;
  vlc_q_pkt = [];
}

start-Holds :
    (answers : List (Option (ℕ × VlcPacket))) (heap : PacketHeap)
    → AreNew answers []
    → 0 < allocated answers
    → Holds (allocated answers) (set_up answers heap) [] []
start-Holds answers heap new some_free = record {
  driver = fresh (allocated answers);
  linked = vlc_setup_pool-Represents answers heap (fresh (allocated answers)) new refl refl refl;
  valid = record { packets = omega arith; flow = ground arith };
  order = done;
}

-- In the same way, while the queue is not stopped the next call with at most 2010 bytes does not
-- fault.
pub PoolRuns-call :
    {fuel : ℕ} {s : Linked} {given frames : List (List ℕ)} (answers : List (Option (ℕ × VlcPacket)))
    (heap : PacketHeap) (skb : List ℕ)
    → AreNew answers []
    → 0 < allocated answers
    → allocated answers ≤ fuel
    → PoolRuns fuel (set_up answers heap) s given frames
    → s.stopped ≡ false
    → length skb ≤ 2010
    → (s' : Linked) × (vlc_tx fuel skb s ≡ some s')
PoolRuns-call answers heap skb new some_free enough runs awake fits =
    let v = PoolRuns-Holds enough (start-Holds answers heap new some_free) runs in
    let (s2, e2, w2) = call-Holds skb enough v awake fits in (s2, e2)
