-- ===== src/Link/Acks.antt =====
-- What the gateway makes of the node's reports: `receive_report` on the frames of `send_report`.
use ciot_vlc.Base.{
  ℕ, ◌+◌, ◌%◌, ◌^◌, ◌≤◌, ◌<◌, ◌≡◌, refl, true, none, some, List, ◌++◌, length, drop, arith, lt→ltb,
}
use ciot_vlc.Doubles.{pos, Doubles}
use ciot_vlc.Packet.{header_len}
use ciot_vlc.Report.{StatusReport, generate_status_report_from_string}
use ciot_vlc.Report.Bits.{IsBits}
use ciot_vlc.Report.RoundTrip.{IsReport}
use ciot_vlc.Node.Wire.{my_mac}
use ciot_vlc.Node.Status.{NodeStatus}
use ciot_vlc.Node.Window.{IsStatus}
use ciot_vlc.Node.SendReport.{send_report}
use ciot_vlc.Gateway.State.{Gateway}
use ciot_vlc.Gateway.Address.{is_from_node}
use ciot_vlc.Gateway.Receive.{set_errors, use_report, receive_report}
use ciot_vlc.Gateway.Acks.{ack_report-positive, ack_report-zero}
use ciot_vlc.Link.Report.{report_of, report_of-IsReport, generate-send_report}

module _ (F : Doubles) where
  open F use {D, of_int, sub, div}

  -- The gateway after a report: the start of the window and the error of the link are new.
  abbrev pub reported : ℕ → NodeStatus → Gateway D → Gateway D
  reported quality s g = record g {
    unacked_seq = s.rcv_seq;
    e = sub (of_int (pos 1)) (div (of_int (pos (quality % 256))) (of_int (pos 255)));
  }

  receive_report-lem :
      (numbytes : ℕ) (buf : List ℕ) (report : StatusReport) (g : Gateway D)
      → 0 < numbytes
      → is_from_node buf ≡ true
      → generate_status_report_from_string (drop header_len buf) ≡ some report
      → receive_report F numbytes buf g ≡ use_report F report g
  unfolding receive_report
  receive_report-lem numbytes buf report g h ours e = rw (lt→ltb 0 numbytes h, ours, e) refl

  use_report-positive :
      (quality : ℕ) (s : NodeStatus) (g : Gateway D)
      → IsBits (report_of quality s).ack_bit_pattern
      → 0 < s.rcv_seq
      → s.rcv_seq < 2 ^ 31
      → use_report F (report_of quality s) g ≡ some (reported quality s g)
  unfolding use_report set_errors
  use_report-positive quality s g v h small =
      rw (ack_report-positive (report_of quality s) g v h small) refl

  use_report-zero :
      (quality : ℕ) (s : NodeStatus) (g : Gateway D)
      → s.rcv_seq ≡ 0
      → 0 < length (report_of quality s).ack_bit_pattern
      → use_report F (report_of quality s) g ≡ none
  unfolding use_report
  use_report-zero quality s g e h = rw (ack_report-zero (report_of quality s) g e h) refl

  -- In any status between packets with at most 2 ^ 31 numbers, a window of at most 7984, and an ACK
  -- number from 1 on: the node sends a report, and a round of `receive_report` on that frame,
  -- whatever its buffer held before, does no more than take over the ACK number and set the error
  -- of the link to 1 - quality / 255. No packet that the report acknowledges is marked.
  pub receive_report-send_report :
      {max : ℕ} (ether_type quality numbytes : ℕ) (s : NodeStatus) (stale : List ℕ) (g : Gateway D)
      → max ≤ 2 ^ 31
      → IsStatus max s
      → s.last_rcv_seq + 1 ≤ s.rcv_seq + 7984
      → 0 < s.rcv_seq
      → 0 < numbytes
      → (frame : List ℕ) × (send_report my_mac ether_type quality s ≡ some frame)
        × (receive_report F numbytes (frame ++ stale) g ≡ some (reported quality s g))
  receive_report-send_report ether_type quality numbytes s stale g small v h first n =
      let (frame, sent, ours, read) = generate-send_report ether_type quality s stale small v h in
      (
        frame,
        sent,
        rw (receive_report-lem numbytes (frame ++ stale) (report_of quality s) g n ours read) (
            use_report-positive quality s g (report_of-IsReport quality s small v).bits first
              (omega (arith, v.window, v.room))),
      )

  -- In the same way for a node that still misses packet 0: the gateway reads `pkt_state[-1]`.
  pub receive_report-missing_first :
      {max : ℕ} (ether_type quality numbytes : ℕ) (s : NodeStatus) (stale : List ℕ) (g : Gateway D)
      → max ≤ 2 ^ 31
      → IsStatus max s
      → s.last_rcv_seq + 1 ≤ 7984
      → s.rcv_seq ≡ 0
      → 0 < numbytes
      → (frame : List ℕ) × (send_report my_mac ether_type quality s ≡ some frame)
        × (receive_report F numbytes (frame ++ stale) g ≡ none)
  receive_report-missing_first ether_type quality numbytes s stale g small v h first n =
      let (frame, sent, ours, read) =
        generate-send_report ether_type quality s stale small v (omega arith) in
      let r : IsReport (report_of quality s) = report_of-IsReport quality s small v in
      (
        frame,
        sent,
        rw (receive_report-lem numbytes (frame ++ stale) (report_of quality s) g n ours read)
            (use_report-zero quality s g first (omega (arith, r.pattern))),
      )
