-- ===== src/Gateway/Tokens.antt =====
-- The token bucket before RF: `add_token` and `tbf_transmit`.
use ciot_vlc.Base.{
  ℕ, suc, ◌+◌, ◌≤◌, ◌≡◌, ◌⊎◌, refl, Bool, true, false, some, List, [], ◌∷◌, ◌>>=◌, ltb, length,
  arith, length-append, inl, inr, Bool-cases, bind_some,
}
use ciot_vlc.Doubles.{Doubles}
use ciot_vlc.Packet.{Packet, Mac}
use ciot_vlc.Queue.Fifo
use ciot_vlc.Gateway.State.{Gateway, decrement, burst}
use ciot_vlc.Gateway.Send.{transmit_packet_rf}
use ciot_vlc.Gateway.Transmit.{transmit_rf, to_tbf, add_token, send_tbf, tbf_transmit}
use ciot_vlc.Gateway.Step.{
  Event, transmit_rf_round, add_token_round, tbf_transmit_round, transmit_vlc_round,
  generate_packet_round, schedule_packet_round, receive_report_round, receive_vlc_report_round,
  Interfaces, step, run,
}
use ciot_vlc.Gateway.Frame.{Keeps, step-Keeps}

abbrev pub token_rounds : List Event → ℕ
token_rounds [] = 0
token_rounds (add_token_round ∷ events) = suc (token_rounds events)
token_rounds (_ ∷ events) = token_rounds events

module _ {D : Type 0} where
  -- From `g` to `g'`, each packet that was sent took a token, at most `k` tokens were added, and the
  -- bucket did not overflow.
  pub record IsLimited (k : ℕ) (g g' : Gateway D) : Type 0 where
    pub sent : length g'.rf_sent + g'.n_token ≤ length g.rf_sent + g.n_token + k
    pub bucket : (g'.n_token ≤ g.n_token) ⊎ (g'.n_token ≤ burst)

  IsLimited-trans :
      {j k : ℕ} {g h g' : Gateway D} → IsLimited j g h → IsLimited k h g' → IsLimited (j + k) g g'
  IsLimited-trans a b = record {
    sent = omega (arith, a.sent, b.sent);
    bucket = ground (arith, a.bucket, b.bucket);
  }

  IsLimited-refl : (g : Gateway D) → IsLimited 0 g g
  IsLimited-refl g = record { sent = omega arith; bucket = inl (omega arith) }

  Keeps-IsLimited : {g g' : Gateway D} → Keeps g g' → IsLimited 0 g g'
  Keeps-IsLimited k = record {
    sent = rw (k.sent, k.tokens) (omega arith);
    bucket = inl (omega (arith, k.tokens));
  }

  add_token-IsLimited : (g : Gateway D) → IsLimited 1 g (add_token g)
  unfolding add_token
  add_token-IsLimited g = record { sent = ground arith; bucket = ground arith }

  transmit_rf-IsLimited : (g g' : Gateway D) → transmit_rf g ≡ some g' → IsLimited 0 g g'
  unfolding transmit_rf to_tbf
  transmit_rf-IsLimited g g' e = go g.rf_queue.items refl
    where
      go : (l : List Packet) → g.rf_queue.items ≡ l → IsLimited 0 g g'
      go [] empty = let same : g' ≡ g = ground arith in rw same (IsLimited-refl g)
      go (p ∷ rest) full = elim (Bool-cases (ltb g.tbf_queue_length 1)) [
        | inl idle ↦ record { sent = ground arith; bucket = ground arith }
        | inr busy ↦ let same : g' ≡ g = ground arith in rw same (IsLimited-refl g)
      ]

  send_tbf-IsLimited :
      (sent : Bool) (p : Packet) (g g' : Gateway D) → send_tbf sent p g ≡ some g' → IsLimited 0 g g'
  unfolding send_tbf decrement
  send_tbf-IsLimited false p g g' e = let same : g' ≡ g = cc in rw same (IsLimited-refl g)
  send_tbf-IsLimited true p g g' e = record {
    sent = ground (arith, length-append {0} g.rf_sent (p ∷ []));
    bucket = ground arith;
  }

  tbf_transmit-IsLimited :
      (hwaddr : Mac) (ether_type : ℕ) (sent : Bool) (g g' : Gateway D)
      → tbf_transmit hwaddr ether_type sent g ≡ some g'
      → IsLimited 0 g g'
  unfolding tbf_transmit Fifo.pop
  tbf_transmit-IsLimited hwaddr ether_type sent g g' e = go g.tbf_queue.items refl
    where
      go : (l : List Packet) → g.tbf_queue.items ≡ l → IsLimited 0 g g'
      go [] empty = let same : g' ≡ g = ground arith in rw same (IsLimited-refl g)
      go (p ∷ rest) full = elim (Bool-cases (ltb 0 g.n_token)) [
        | inl token ↦
            let h : Gateway D = record g { tbf_queue = record g.tbf_queue { items = rest } } in
            let same : IsLimited 0 g h = record {
              sent = omega arith;
              bucket = inl (omega arith);
            } in
            let run : (transmit_packet_rf hwaddr ether_type p >>= λ k. send_tbf sent p h)
                ≡ some g' =
              ground (arith, full) in
            let (frame, a, b) =
              bind_some (transmit_packet_rf hwaddr ether_type p) (λ k. send_tbf sent p h) run in
            IsLimited-trans same (send_tbf-IsLimited sent p h g' b)
        | inr dry ↦ let same : g' ≡ g = ground arith in rw same (IsLimited-refl g)
      ]

token_rounds-cons :
    (x : Event) (events : List Event)
    → token_rounds (x ∷ events) ≡ token_rounds (x ∷ []) + token_rounds events
token_rounds-cons transmit_rf_round events = omega arith
token_rounds-cons add_token_round events = omega arith
token_rounds-cons (tbf_transmit_round sent) events = omega arith
token_rounds-cons transmit_vlc_round events = omega arith
token_rounds-cons (generate_packet_round bytes) events = omega arith
token_rounds-cons (schedule_packet_round now) events = omega arith
token_rounds-cons (receive_report_round numbytes buf) events = omega arith
token_rounds-cons (receive_vlc_report_round buf) events = omega arith

module _ (F : Doubles) (i : Interfaces) where
  open F use {D}

  step-IsLimited :
      (x : Event) (g g' : Gateway D)
      → step F i x g ≡ some g'
      → IsLimited (token_rounds (x ∷ [])) g g'
  unfolding step
  step-IsLimited transmit_rf_round g g' e = transmit_rf-IsLimited g g' e
  step-IsLimited add_token_round g g' e =
      let same : g' ≡ add_token g = cc in rw same (add_token-IsLimited g)
  step-IsLimited (tbf_transmit_round sent) g g' e =
      tbf_transmit-IsLimited i.rf_if_mac i.ether_type sent g g' e
  step-IsLimited transmit_vlc_round g g' e =
      Keeps-IsLimited (step-Keeps F i transmit_vlc_round g g' tt e)
  step-IsLimited (generate_packet_round bytes) g g' e =
      Keeps-IsLimited (step-Keeps F i (generate_packet_round bytes) g g' tt e)
  step-IsLimited (schedule_packet_round now) g g' e =
      Keeps-IsLimited (step-Keeps F i (schedule_packet_round now) g g' tt e)
  step-IsLimited (receive_report_round numbytes buf) g g' e =
      Keeps-IsLimited (step-Keeps F i (receive_report_round numbytes buf) g g' tt e)
  step-IsLimited (receive_vlc_report_round buf) g g' e =
      Keeps-IsLimited (step-Keeps F i (receive_vlc_report_round buf) g g' tt e)

  -- Over any rounds that do not fault, each packet sent over RF took a token that was there or was
  -- added since, and there are at most as many tokens as before, or at most `BURST`.
  pub run-IsLimited :
      (events : List Event) (g g' : Gateway D)
      → run F i events g ≡ some g'
      → IsLimited (token_rounds events) g g'
  unfolding run
  run-IsLimited [] g g' e = let same : g' ≡ g = cc in rw same (IsLimited-refl g)
  run-IsLimited (x ∷ events) g g' e =
      let (h, a, b) = bind_some (step F i x g) (λ k. run F i events k) e in
      rw (token_rounds-cons x events)
        (IsLimited-trans (step-IsLimited x g h a) (run-IsLimited events h g' b))
