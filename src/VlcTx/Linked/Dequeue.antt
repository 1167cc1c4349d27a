-- ===== src/VlcTx/Linked/Dequeue.antt =====
-- What a tick of the timer does with the linked packets, against the lists of VlcTx/Pool.
use ciot_vlc.Base.{
  ℕ, ◌≡◌, refl, sym, ap₂, ◌∙◌, Bool, true, false, ◌&&◌, not, Option, none, some, List, [], ◌∷◌,
  ◌==◌, if◌then◌else◌, arith, Bool-cases, inl, inr, bind_some,
}
use ciot_vlc.Pru.{Memory, readw}
use ciot_vlc.VlcTx.Driver.{write_packet_to_pru_memory}
use ciot_vlc.VlcTx.Pool.{Driver, write_next}
use ciot_vlc.VlcTx.Pool
use ciot_vlc.VlcTx.Linked.{
  VlcPacket, write, Linked, is_null, vlc_release_buffer, vlc_dequeue_pkt, next_packet,
}
use ciot_vlc.VlcTx.Linked.Chain.{Items, has, packet, Chain, cons, frame-write}
use ciot_vlc.VlcTx.Linked.Represents.{
  arrays, AreWhole, Represents, uncons, null_queue, null_pool, not_both,
}

-- The first of a queue.
abbrev pub first : List (List ℕ) → Option (List ℕ)
first [] = none
first (x ∷ l) = some x

wake : (b z : Bool) → (if b && z then false else b) ≡ (b && not z)
wake true true = refl
wake true false = refl
wake false z = refl

-- One packet moves from the queue to the free ones.
apart_moved :
    (a : ℕ) (x : List ℕ) (r pool queue : Items)
    → ((b : ℕ) → has b pool ≡ true → has b queue ≡ false)
    → queue ≡ (a, x) ∷ r
    → has a r ≡ false
    → (b : ℕ) → has b ((a, x) ∷ pool) ≡ true
    → has b r ≡ false
apart_moved a x r pool queue apart e out b h = elim (Bool-cases (a == b)) [
  | inl same ↦ let here : a ≡ b = ground arith in rw here at out
  | inr other ↦
      let free : has b pool ≡ true = ground (arith, h, other) in
      let gone : has b ((a, x) ∷ r) ≡ false = rw e at (apart b free) in ground (arith, gone, other)
]

-- The packet that was taken from the queue is the first free one.
pub release-Represents :
    {s : Linked} {d : Driver} {a : ℕ} {x : List ℕ} {r : Items} {l : List (List ℕ)} (pru : Memory)
    (idx : ℕ) (v : Represents s d)
    → v.queue ≡ (a, x) ∷ r
    → d.tx_queue ≡ x ∷ l
    → (s' : Linked) × (next_packet s ≡ some (some x, s'))
      × Represents s'
          (Pool.vlc_release_buffer (record d { tx_queue = l; pru0 = pru; write_idx = idx }))
unfolding next_packet vlc_dequeue_pkt vlc_release_buffer Pool.vlc_release_buffer
release-Represents {s} {d} {a} {x} {r} {l} pru idx v e el =
    let c : Chain s.heap s.tx_queue ((a, x) ∷ r) = rw e at v.waiting in
    let (n, k, at_queue, at, out, rest_chain) = uncons c in
    let w : AreWhole ((a, x) ∷ r) = rw e at v.whole.1 in
    let same : arrays v.queue ≡ x ∷ l = sym v.content ∙ el in
    let tail : l ≡ arrays r = cc (rw e at same) in
    let not_free : has a v.pool ≡ false = not_both a v.pool v.queue v.apart (rw e (ground arith)) in
    let c' : VlcPacket = packet s.ppool k x in
    let s' : Linked = record s {
      ppool = some a;
      tx_queue = n;
      stopped = if s.stopped && is_null s.ppool then false else s.stopped;
      heap = write s.heap a c';
    } in
    (
      s',
      rw (at_queue, at) (rw at refl),
      record {
        pool = (a, x) ∷ v.pool;
        queue = r;
        free = cons {k = k} (ground arith) not_free (frame-write a c' v.free not_free);
        waiting = frame-write a c' rest_chain out;
        apart = apart_moved a x r v.pool v.queue v.apart e out;
        whole = ((w.0, v.whole.0), w.1);
        count = omega (arith, v.count);
        content = tail;
        stopped =
            wake s.stopped (is_null s.ppool)
            ∙ ap₂ (λ b z. b && not z) v.stopped (null_pool v.free ∙ rw v.count refl);
      },
    )

pub next_none : (s : Linked) → Chain s.heap s.tx_queue [] → next_packet s ≡ some (none, s)
unfolding next_packet vlc_dequeue_pkt
next_none s c = let e = null_queue c in rw e refl

-- What is written to the PRU does not touch the packets.
wrote-Represents :
    {s : Linked} {d : Driver} (pru : Memory) (idx : ℕ)
    → Represents s d
    → Represents s (record d { pru0 = pru; write_idx = idx })
wrote-Represents pru idx v = record {
  pool = v.pool;
  queue = v.queue;
  free = v.free;
  waiting = v.waiting;
  apart = v.apart;
  whole = v.whole;
  count = v.count;
  content = v.content;
  stopped = v.stopped;
}

-- Where the linked packets stand for the lists of the pool's model, and `write_next` of that model
-- does not fault on them: on the heap the first packet that waits is taken, given to be written, and
-- released, or nothing happens where none waits, without a fault, and what this leaves stands for
-- what `write_next` leaves.
pub next_packet_refines :
    (encode_rs8 : List ℕ → List ℕ) {s : Linked} {d d' : Driver}
    → Represents s d
    → write_next encode_rs8 d d.tx_queue ≡ some d'
    → (s' : Linked) × (next_packet s ≡ some (first d.tx_queue, s')) × Represents s' d'
unfolding write_next
next_packet_refines encode_rs8 {s} {d} {d'} v r = go v.queue refl
  where
    go :
        (queue : Items)
        → v.queue ≡ queue
        → (s' : Linked) × (next_packet s ≡ some (first d.tx_queue, s')) × Represents s' d'
    go [] e =
        let none_waits : d.tx_queue ≡ [] = v.content ∙ rw e refl in
        let (out, a, b) =
          bind_some (write_packet_to_pru_memory encode_rs8 d.vlc_q_pkt (readw d.pru0 0) d.pru0) _
            (rw none_waits at r) in
        let same : d' ≡ record d { pru0 = out.0; write_idx = out.1 } = cc b in
        (
          s,
          rw none_waits (next_none s (rw e at v.waiting)),
          rw same (wrote-Represents out.0 out.1 v),
        )
    go ((a, x) ∷ rest) e =
        let waits : d.tx_queue ≡ x ∷ arrays rest = v.content ∙ rw e refl in
        let (out, b, c) =
          bind_some (write_packet_to_pru_memory encode_rs8 x (readw d.pru0 0) d.pru0) _
            (rw waits at r) in
        let (s', ran, v') = release-Represents out.0 out.1 v e waits in
        let same : d'
            ≡ Pool.vlc_release_buffer
                (record d { tx_queue = arrays rest; pru0 = out.0; write_idx = out.1 }) =
          cc c in
        (s', rw waits ran, rw same v')
