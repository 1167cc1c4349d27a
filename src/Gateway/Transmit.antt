-- ===== src/Gateway/Transmit.antt =====
-- One round of each transmitting thread of `gateway (eth)_gateway/main.c`: `transmit_rf`,
-- `add_token`, `tbf_transmit` and `transmit_vlc`. A round is taken as one step. `none` is a fault:
-- an access outside an array or buffer, or a counter below 0.
use ciot_vlc.Base.{
  ℕ, ◌+◌, Bool, true, false, ◌&&◌, not, Option, none, some, [], ◌∷◌, ◌++◌, ◌>>=◌, ◌==◌, ltb, leb,
  if◌then◌else◌, length,
}
use ciot_vlc.Packet.{Packet, Mac}
use ciot_vlc.Queue.Fifo
use ciot_vlc.Queue.Fifo.{Fifo}
use ciot_vlc.Gateway.Send.{transmit_packet_rf, transmit_packet_vlc}
use ciot_vlc.Gateway.State.{Gateway, token_rate, burst, tbf_limit, decrement}

-- `is_empty`, by the queue's contents.
unfoldable pub is_empty : Fifo → Bool
is_empty f = length f.items == 0

module _ {D : Type 0} where
  -- The packet goes to the token bucket's queue, whether or not that takes it.
  unfoldable pub to_tbf : Packet → Fifo → Gateway D → Option (Gateway D)
  to_tbf temp rest g = do
    r ← decrement g.r
    some (record g {
      rf_queue = rest;
      tbf_queue = (Fifo.push g.tbf_queue temp).1;
      tbf_queue_length = g.tbf_queue_length + 1;
      r = r;
    })

  unfoldable pub transmit_rf : Gateway D → Option (Gateway D)
  unfolding is_empty to_tbf
  transmit_rf g =
      if not (is_empty g.rf_queue) && ltb g.tbf_queue_length tbf_limit
      then (let (temp, rest) = Fifo.pop g.rf_queue in
          elim temp [ none ↦ some (record g { rf_queue = rest }) | some p ↦ to_tbf p rest g ])
      else some g

  -- `burst - n_token >= token_rate`.
  unfoldable pub add_token : Gateway D → Gateway D
  add_token g =
      if leb (g.n_token + token_rate) burst
      then record g { n_token = g.n_token + token_rate }
      else g

  -- The packet has left the queue when it is handed to the driver; `sent` tells whether `sendto`
  -- took it. If not, the packet is gone and no counter changes.
  unfoldable pub send_tbf : Bool → Packet → Gateway D → Option (Gateway D)
  send_tbf false temp g = some g
  send_tbf true temp g = do
    n_token ← decrement g.n_token
    tbf_queue_length ← decrement g.tbf_queue_length
    some (record g {
      n_token = n_token;
      tbf_queue_length = tbf_queue_length;
      rf_sent = g.rf_sent ++ temp ∷ [];
    })

  unfoldable pub tbf_transmit : Mac → ℕ → Bool → Gateway D → Option (Gateway D)
  unfolding is_empty send_tbf
  tbf_transmit hwaddr ether_type sent g =
      if not (is_empty g.tbf_queue) && ltb 0 g.n_token
      then (let (temp, rest) = Fifo.pop g.tbf_queue in
          let g' : Gateway D = record g { tbf_queue = rest } in
          elim temp [
            | none ↦ some g'
            | some p ↦ do frame ← transmit_packet_rf hwaddr ether_type p; send_tbf sent p g'
          ])
      else some g

  -- The loop repeats until the packet is sent, so a round that ends has sent it. `d_vlc` has the
  -- one entry 0.
  unfoldable pub transmit_vlc : Mac → ℕ → Gateway D → Option (Gateway D)
  unfolding is_empty
  transmit_vlc hwaddr ether_type g =
      if not (is_empty g.vlc_queue)
      then (let (temp, rest) = Fifo.pop g.vlc_queue in
          let g' : Gateway D = record g { vlc_queue = rest } in
          elim temp [
            | none ↦ some g'
            | some p ↦ do
              frame ← transmit_packet_vlc hwaddr ether_type p
              d_vlc ← (if p.vlc_id == 0 then decrement g.d_vlc else none)
              some (record g' { d_vlc = d_vlc; vlc_sent = g.vlc_sent ++ p ∷ [] })
          ])
      else some g
