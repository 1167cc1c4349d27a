-- ===== src/Gateway/Flow/Out.antt =====
-- The packets in flight across `tbf_transmit` and `transmit_vlc`.
use ciot_vlc.Base.{
  ℕ, ◌-◌, ◌≡◌, refl, sym, ◌∙◌, true, some, List, [], ◌∷◌, ◌++◌, ltb, arith, append_assoc,
  Bool-cases, inl, inr,
}
use ciot_vlc.Packet.{Packet, Mac}
use ciot_vlc.Queue.Fifo
use ciot_vlc.Gateway.State.{Gateway, decrement}
use ciot_vlc.Gateway.Transmit.{tbf_transmit, transmit_vlc}
use ciot_vlc.Gateway.Flow.{Flow, in_flight, AreFull}
use ciot_vlc.Link.Rf.{transmit_packet_rf-frame}

AreFull-right : (l m : List Packet) → AreFull (l ++ m) → AreFull m
AreFull-right [] m v = v
AreFull-right (p ∷ l) m v = AreFull-right l m v.1

module _ {D : Type 0} {n : ℕ} {g : Gateway D} (f : Flow n g) where
  pub transmit_vlc-Flow :
      (hwaddr : Mac) (ether_type : ℕ) → transmit_vlc hwaddr ether_type g ≡ some g
  unfolding transmit_vlc
  transmit_vlc-Flow hwaddr ether_type = ground (arith, f.vlc)

  waiting_full :
      (p : Packet) (l : List Packet)
      → g.tbf_queue.items ≡ p ∷ l
      → AreFull (p ∷ (l ++ (g.rf_queue.items ++ g.node_queue.items)))
  waiting_full p l e =
      let all =
        AreFull-right g.rf_sent (g.tbf_queue.items ++ (g.rf_queue.items ++ g.node_queue.items))
          f.full in
      simp e at all

  pub tbf_transmit-Flow :
      (hwaddr : Mac) (ether_type : ℕ)
      → (g' : Gateway D) × (tbf_transmit hwaddr ether_type true g ≡ some g') × Flow n g'
  unfolding tbf_transmit decrement Fifo.pop
  tbf_transmit-Flow hwaddr ether_type = go g.tbf_queue.items refl
    where
      go :
          (l : List Packet)
          → g.tbf_queue.items ≡ l
          → (g' : Gateway D) × (tbf_transmit hwaddr ether_type true g ≡ some g') × Flow n g'
      go [] e = (g, ground arith, f)
      go (p ∷ q ∷ rest) e = absurd (ground (arith, f.tbf, f.tbf_small))
      go (p ∷ []) e = elim (Bool-cases (ltb 0 g.n_token)) [
        | inr broke ↦ (g, ground arith, f)
        | inl rich ↦
            let w = waiting_full p [] e in
            let g' : Gateway D = record g {
              tbf_queue = record g.tbf_queue { items = [] };
              n_token = g.n_token - 1;
              tbf_queue_length = 0;
              rf_sent = g.rf_sent ++ p ∷ [];
            } in
            let same : in_flight g' ≡ in_flight g = simp (e, append_assoc) in
            (
              g',
              ground (
                arith,
                e,
                transmit_packet_rf-frame hwaddr ether_type p (w.0.bytes ∙ sym w.0.len)
                    (omega (arith, w.0.len)),
                f.tbf,
              ),
              record {
                ordered = rw same f.ordered;
                full = rw same f.full;
                gn = f.gn;
                r = f.r;
                tbf = refl;
                tbf_small = omega arith;
                node_limit = f.node_limit;
                rf_limit = f.rf_limit;
                tbf_limited = f.tbf_limited;
                vlc = f.vlc;
                arr = f.arr;
                unsched = f.unsched;
                tokens = omega (arith, f.tokens);
                few = f.few;
              },
            )
      ]
