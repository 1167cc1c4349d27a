-- ===== src/Gateway/Flow.antt =====
-- The packets on their way over RF through the queues of `gateway (eth)_gateway/main.c`.
pub mod Out
pub mod In
pub mod Run
pub mod Drain
pub mod Kept
use ciot_vlc.Base.{
  ℕ, zero, suc, ◌+◌, ◌-◌, ◌%◌, ◌^◌, ◌≤◌, ◌<◌, ◌≡◌, refl, sym, ap, ◌∙◌, Bool, true, false, ◌&&◌, not,
  Option, none, some, List, [], ◌∷◌, ◌++◌, ◌>>=◌, ◌==◌, ltb, leb, if◌then◌else◌, length, arith,
  append_assoc, append-nil, length-append, take, lt→ltb, le→ltb, le→leb, lt→leb, leb→le, leb→lt,
  ltb→lt, Bool-cases, inl, inr,
}
use ciot_vlc.Doubles.{Doubles}
use ciot_vlc.Packet.{Packet, Mac}
use ciot_vlc.Queue.Fifo
use ciot_vlc.Queue.Fifo.{Fifo}
use ciot_vlc.Gateway.State.{
  Gateway, initial, decrement, store, node_queue_size, rf_queue_size, max_seq_number, burst,
  tbf_limit, payload_size,
}
use ciot_vlc.Gateway.Transmit.{transmit_rf, add_token, tbf_transmit, transmit_vlc}
use ciot_vlc.Gateway.Produce.{generate_packet, generate_random_node, schedule_packet}

-- Sent, waiting for a token, waiting for RF, and waiting to be scheduled, the oldest first.
abbrev pub in_flight : {D : Type 0} → Gateway D → List Packet
in_flight g = g.rf_sent ++ (g.tbf_queue.items ++ (g.rf_queue.items ++ g.node_queue.items))

abbrev pub numbers : List Packet → List ℕ
numbers [] = []
numbers (p ∷ l) = p.seq_number ∷ numbers l

-- 0, 1, …, n - 1.
abbrev pub upto : ℕ → List ℕ
upto zero = []
upto (suc n) = upto n ++ n ∷ []

-- The packet is as `generate_random_node` makes it.
pub record IsFull (p : Packet) : Type 0 where
  pub node : p.node_id ≡ 1
  pub vlc : p.vlc_id ≡ 1
  pub len : p.payload_len ≡ payload_size
  pub bytes : length p.payload ≡ payload_size

abbrev pub AreFull : List Packet → Type 0
AreFull [] = Unit {0}
AreFull (p ∷ l) = IsFull p × AreFull l

-- After `n` packets were generated.
pub record Flow {D : Type 0} (n : ℕ) (g : Gateway D) : Type 0 where
  pub ordered : numbers (in_flight g) ≡ upto n
  pub full : AreFull (in_flight g)
  pub gn : g.gn ≡ length g.node_queue.items
  pub r : g.r ≡ length g.rf_queue.items
  pub tbf : g.tbf_queue_length ≡ length g.tbf_queue.items
  pub tbf_small : g.tbf_queue_length ≤ tbf_limit
  pub node_limit : g.node_queue.limit ≡ node_queue_size
  pub rf_limit : g.rf_queue.limit ≡ rf_queue_size
  pub tbf_limited : g.tbf_queue.limit ≡ tbf_limit
  pub vlc : g.vlc_queue.items ≡ []
  pub arr : g.arr_seq ≡ n
  pub unsched : g.unsched_seq < max_seq_number
  pub tokens : g.n_token ≤ burst
  pub few : n ≤ rf_queue_size

pub numbers-append :
    (l : List Packet) (p : Packet) → numbers (l ++ p ∷ []) ≡ numbers l ++ p.seq_number ∷ []
numbers-append [] p = refl
numbers-append (q ∷ l) p = ap (λ m. q.seq_number ∷ m) (numbers-append l p)

pub length-numbers : (l : List Packet) → length (numbers l) ≡ length l
length-numbers [] = refl
length-numbers (p ∷ l) = ap suc (length-numbers l)

pub length-upto : (n : ℕ) → length (upto n) ≡ n
length-upto zero = refl
length-upto (suc n) = omega (arith, length-append {0} (upto n) (n ∷ []), length-upto n)

pub AreFull-append : (l : List Packet) (p : Packet) → AreFull l → IsFull p → AreFull (l ++ p ∷ [])
AreFull-append [] p v a = (a, tt)
AreFull-append (q ∷ l) p v a = (v.0, AreFull-append l p v.1 a)

pub initial-Flow : {D : Type 0} (zero_error : D) → Flow 0 (initial zero_error)
unfolding initial
initial-Flow zero_error = record {
  ordered = refl;
  full = tt;
  gn = refl;
  r = refl;
  tbf = refl;
  tbf_small = omega arith;
  node_limit = refl;
  rf_limit = refl;
  tbf_limited = refl;
  vlc = refl;
  arr = refl;
  unsched = omega arith;
  tokens = omega arith;
  few = omega arith;
}

module _ {D : Type 0} {n : ℕ} {g : Gateway D} (f : Flow n g) where
  -- All that is in flight was generated.
  pub total : length (in_flight g) ≡ n
  total =
      sym (length-numbers (in_flight g)) ∙ ap (λ (l : List ℕ). length l) f.ordered ∙ length-upto n

  pub add_token-Flow : Flow n (add_token g)
  unfolding add_token
  add_token-Flow = elim (Bool-cases (leb (g.n_token + 1) 6)) [
    | inl more ↦ rw more (record {
      ordered = f.ordered;
      full = f.full;
      gn = f.gn;
      r = f.r;
      tbf = f.tbf;
      tbf_small = f.tbf_small;
      node_limit = f.node_limit;
      rf_limit = f.rf_limit;
      tbf_limited = f.tbf_limited;
      vlc = f.vlc;
      arr = f.arr;
      unsched = f.unsched;
      tokens = leb→le (g.n_token + 1) 6 more;
      few = f.few;
    })
    | inr full ↦ rw full f
  ]

  pub transmit_rf-Flow : (g' : Gateway D) × (transmit_rf g ≡ some g') × Flow n g'
  unfolding transmit_rf decrement Fifo.pop Fifo.push
  transmit_rf-Flow = go g.rf_queue.items refl
    where
      go :
          (l : List Packet)
          → g.rf_queue.items ≡ l
          → (g' : Gateway D) × (transmit_rf g ≡ some g') × Flow n g'
      go [] e = (g, ground arith, f)
      go (p ∷ rest) e = elim (Bool-cases (ltb g.tbf_queue_length 1)) [
        | inr busy ↦ (g, ground arith, f)
        | inl idle ↦
            let none_waits : g.tbf_queue.items ≡ [] = ground (arith, f.tbf) in
            let g' : Gateway D = record g {
              rf_queue = record g.rf_queue { items = rest };
              tbf_queue = record g.tbf_queue { items = p ∷ [] };
              tbf_queue_length = g.tbf_queue_length + 1;
              r = length rest;
            } in
            let same : in_flight g' ≡ in_flight g = simp (none_waits, e) in
            (
              g',
              ground (arith, e, none_waits, f.r, f.tbf_limited),
              record {
                ordered = rw same f.ordered;
                full = rw same f.full;
                gn = f.gn;
                r = refl;
                tbf = omega (arith, ltb→lt g.tbf_queue_length 1 idle);
                tbf_small = omega (arith, ltb→lt g.tbf_queue_length 1 idle);
                node_limit = f.node_limit;
                rf_limit = f.rf_limit;
                tbf_limited = f.tbf_limited;
                vlc = f.vlc;
                arr = f.arr;
                unsched = f.unsched;
                tokens = f.tokens;
                few = f.few;
              },
            )
      ]
