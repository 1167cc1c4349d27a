-- ===== src/Gateway/Receive.antt =====
-- One round of `receive_report` and `receive_vlc_report` of `gateway (eth)_gateway/main.c`.
-- `none` is an access outside an array or buffer.
use ciot_vlc.Base.{
  ℕ, zero, suc, ◌^◌, ◌&&◌, Option, none, some, List, [], ◌∷◌, ◌>>=◌, ◌==◌, ltb, leb, if◌then◌else◌,
  length, drop, read8, read32,
}
use ciot_vlc.Doubles.{pos, Doubles}
use ciot_vlc.Packet.{header_len}
use ciot_vlc.Report.{VlcInformation, StatusReport, generate_status_report_from_string}
use ciot_vlc.Gateway.Address.{is_from_node, is_vlc_tx_address, n_node, n_vlc}
use ciot_vlc.Gateway.State.{Gateway, max_seq_number, vlc_unacked, vlc_acked, store}
use ciot_vlc.Gateway.Produce.{find_unacked, swap_remove}

module _ {D : Type 0} where
  -- The packet `curr` leaves the array of unacknowledged ones, if it is there.
  unfoldable pub forget : ℕ → Gateway D → Option (Gateway D)
  forget curr g = elim (find_unacked curr g.unacked_vlc_packet) [
    | none ↦ some g
    | some l ↦ do
      unacked ← swap_remove g.unacked_vlc_packet l
      some (record g { unacked_vlc_packet = unacked })
  ]

  -- The body of the loop over the pattern. `next` is `unacked_seq + i`; at 0 the index
  -- `curr_unacked_packet` is -1. The code compares the entry with the character '1'.
  unfoldable pub ack_one : ℕ → ℕ → Gateway D → Option (Gateway D)
  unfolding forget
  ack_one zero bit g = none
  ack_one (suc curr) bit g =
      if ltb curr max_seq_number
      then (if (g.pkt_state curr == vlc_unacked) && (bit == b'1')
          then (do
            pkt_state ← store g.pkt_state curr vlc_acked
            forget curr (record g { pkt_state = pkt_state }))
          else some g)
      else some g

  -- The loop over the pattern, from `next` on.
  unfoldable pub ack_all : ℕ → List ℕ → Gateway D → Option (Gateway D)
  unfolding ack_one
  ack_all next [] g = some g
  ack_all next (bit ∷ pattern) g = do g' ← ack_one next bit g; ack_all (suc next) pattern g'

  -- With a negative ACK number the first index of the loop is negative.
  unfoldable pub ack_report : StatusReport → Gateway D → Option (Gateway D)
  unfolding ack_all
  ack_report report g =
      let g' : Gateway D = record g { unacked_seq = report.ack_number } in
      let acked = ack_all report.ack_number report.ack_bit_pattern g' in
      if ltb report.ack_number (2 ^ 31)
      then acked
      else if length report.ack_bit_pattern == 0
      then some g'
      else none

module _ (F : Doubles) where
  open F use {D, of_int, sub, div}

  -- `e[vlc_tx_idx][…] = 1 - quality / 255`: `e` has the one entry 0, transmitter 1.
  unfoldable pub set_errors : List VlcInformation → Gateway D → Option (Gateway D)
  set_errors [] g = some g
  set_errors (v ∷ vs) g = do
    g' ←
        (if v.vlc_tx_id == 1
          then some (record g {
            e = sub (of_int (pos 1)) (div (of_int (pos v.vlc_link_quality)) (of_int (pos 255)));
          })
          else none)
    set_errors vs g'

  -- A report from the node that was read, after `print_report_content`.
  unfoldable pub use_report : StatusReport → Gateway D → Option (Gateway D)
  unfolding ack_report set_errors
  use_report report g =
      if ltb 0 report.node_id && leb report.node_id n_node
      then (do g' ← ack_report report g; set_errors report.vlc_data g')
      else some g

  -- `numbytes` is what `recvfrom` returned, and `buf` the buffer after it.
  unfoldable pub receive_report : ℕ → List ℕ → Gateway D → Option (Gateway D)
  unfolding use_report
  receive_report numbytes buf g =
      if ltb 0 numbytes && is_from_node buf
      then (do
        report ← generate_status_report_from_string (drop header_len buf)
        use_report report g)
      else some g

-- `numbytes` is not looked at.
unfoldable pub receive_vlc_report : {D : Type 0} → List ℕ → Gateway D → Option (Gateway D)
receive_vlc_report buf g =
    if is_vlc_tx_address buf
    then (do
      vlc_id ← read8 (drop header_len buf) 0
      if leb vlc_id n_vlc && ltb 0 vlc_id
          then (do temp_queue ← read32 (drop header_len buf) 1; some (record g { vk = temp_queue }))
          else some g)
    else some g
