-- ===== src/Link/World/Once.antt =====
-- The gateway sends each packet once, whatever the node reports.
use ciot_vlc.Base.{
  ℕ, zero, suc, ◌≤◌, ◌≡◌, refl, sym, ap, ◌∙◌, List, [], ◌∷◌, ◌++◌, length, take, take_all,
  take_all_append, ltb, Bool-cases, inl, inr, arith, length-append,
}
use ciot_vlc.Doubles.{Doubles}
use ciot_vlc.Packet.{Packet}
use ciot_vlc.Gateway.Send.{rf_mac}
use ciot_vlc.Gateway.Step.{Interfaces}
use ciot_vlc.Gateway.Flow.{numbers, upto, length-numbers, length-upto, total}
use ciot_vlc.Link.World.{World, initial_world, Runs}
use ciot_vlc.Link.World.Invariant.{initial-IsWorld}
use ciot_vlc.Link.World.Safety.{Runs-IsWorld}

numbers-both : (l m : List Packet) → numbers (l ++ m) ≡ numbers l ++ numbers m
numbers-both [] m = refl
numbers-both (p ∷ l) m = ap (λ k. p.seq_number ∷ k) (numbers-both l m)

take_left : (k : ℕ) (l m : List ℕ) → k ≤ length l → take k (l ++ m) ≡ take k l
take_left zero [] m h = refl
take_left zero (x ∷ l) m h = refl
take_left (suc k) [] m h = absurd (omega arith)
take_left (suc k) (x ∷ l) m h = ap (λ r. x ∷ r) (take_left k l m (omega arith))

take-upto : (k n : ℕ) → k ≤ n → take k (upto n) ≡ upto k
take-upto k zero h = let same : k ≡ 0 = omega arith in rw same refl
take-upto k (suc n) h = elim (Bool-cases (ltb n k)) [
  | inl all ↦
      let same : k ≡ suc n = ground arith in
      rw same (take_all (suc n) (upto (suc n)) (length-upto (suc n)))
  | inr part ↦
      let le : k ≤ n = ground arith in
      take_left k (upto n) (n ∷ []) (omega (arith, length-upto n)) ∙ take-upto k n le
]

module _ (F : Doubles) (i : Interfaces) (own : i.rf_if_mac ≡ rf_mac) where
  open F use {D}

  -- From the start, with the address that the node expects, after any allowed steps (as for
  -- `Runs-acknowledged`): the packets that the gateway has sent over RF are numbered from 0 on in
  -- order, so that none was sent twice, whatever the reports say that the node misses.
  pub Runs-sent_once :
      (zero_error : D) {w : World D}
      → Runs F i (initial_world zero_error) w
      → numbers w.gateway.rf_sent ≡ upto (length w.gateway.rf_sent)
  Runs-sent_once zero_error {w} runs =
      let v = Runs-IsWorld F i own runs (initial-IsWorld i.ether_type zero_error) in
      let g = w.gateway in
      let waiting = g.tbf_queue.items ++ (g.rf_queue.items ++ g.node_queue.items) in
      let k : ℕ = length g.rf_sent in
      let few : k ≤ g.arr_seq = omega (arith, total v.flow, length-append {0} g.rf_sent waiting) in
      let all : numbers g.rf_sent ++ numbers waiting ≡ upto g.arr_seq =
        sym (numbers-both g.rf_sent waiting) ∙ v.flow.ordered in
      sym (take_all_append k (numbers g.rf_sent) (numbers waiting) (length-numbers g.rf_sent))
      ∙ ap (λ l. take k l) all
      ∙ take-upto k g.arr_seq few
