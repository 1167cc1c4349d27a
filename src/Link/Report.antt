-- ===== src/Link/Report.antt =====
-- The report link: `send_report` of the node against `receive_report` of the gateway.
use ciot_vlc.Base.{
  ℕ, suc, ◌-◌, ◌%◌, ◌^◌, ◌+◌, ◌≤◌, ◌<◌, ◌≡◌, refl, Bool, true, List, [], ◌∷◌, ◌++◌, arith, length,
  some, none, take, drop, leb, if◌then◌else◌, length-append, length-take, length-drop, append_assoc,
  le→leb, leb→le, leb→lt, Bool-cases, inl, inr, get_elem?,
}
use ciot_vlc.Packet.{Mac, ether_header, header_len}
use ciot_vlc.Report.{StatusReport, low_byte, pattern_bytes, generate_status_report_from_string}
use ciot_vlc.Report.Bits.{IsBits}
use ciot_vlc.Report.Pattern.{IsBits-take, IsBits-drop}
use ciot_vlc.Report.Pattern.{
  pattern_of, length-pattern_of, pattern_bytes-Rounds, put_pattern-pattern_of, put_pattern-none,
}
use ciot_vlc.Report.RoundTrip.{
  IsReport, report_bytes, report_head, generate-report_bytes, vlc_bytes,
}
use ciot_vlc.Gateway.Address.{is_from_node}
use ciot_vlc.Node.Wire.{my_mac, gateway_mac}
use ciot_vlc.Node.Status.{NodeStatus}
use ciot_vlc.Node.SendReport.{send_report, pattern_length}
use ciot_vlc.Node.Window.{IsStatus}

-- The numbers from the ACK number to the last one.
abbrev pub window_length : NodeStatus → ℕ
window_length s = s.last_rcv_seq + 1 - s.rcv_seq

-- The report that a status stands for, with the quality of the one transmitter.
abbrev pub report_of : ℕ → NodeStatus → StatusReport
report_of quality s = record {
  node_id = 1;
  ack_number = s.rcv_seq;
  pattern_length = window_length s;
  ack_bit_pattern = take (window_length s) (drop s.rcv_seq s.rcv_state);
  n_vlc = 1;
  vlc_data = record { vlc_tx_id = 1; vlc_link_quality = quality % 256 } ∷ [];
}

pattern_length-some :
    (s : NodeStatus) → s.rcv_seq ≤ s.last_rcv_seq + 1 → pattern_length s ≡ some (window_length s)
unfolding pattern_length
pattern_length-some s h = rw (le→leb s.rcv_seq (s.last_rcv_seq + 1) h)

-- The header, and the bytes before the pattern.
abbrev start : Mac → ℕ → NodeStatus → List ℕ
start hwaddr ether_type s =
    ether_header gateway_mac hwaddr ether_type ++ report_head (report_of 0 s)

send_report-bytes :
    (hwaddr : Mac) (ether_type quality : ℕ) (s : NodeStatus)
    → s.rcv_seq ≤ s.last_rcv_seq + 1
    → s.last_rcv_seq + 1 ≤ length s.rcv_state
    → pattern_bytes (window_length s) ≤ 998
    → send_report hwaddr ether_type quality s
      ≡ some (ether_header gateway_mac hwaddr ether_type ++ report_bytes (report_of quality s))
unfolding send_report vlc_bytes
send_report-bytes hwaddr ether_type quality s le fits h =
    let len : ℕ = window_length s in
    let n : ℕ = pattern_bytes len in
    let pat : List ℕ = pattern_of n (take len (drop s.rcv_seq s.rcv_state)) in
    let lp : length pat ≡ n = length-pattern_of n (take len (drop s.rcv_seq s.rcv_state)) in
    let b0 : List ℕ = start hwaddr ether_type s ++ pat in
    let b1 : List ℕ = b0 ++ 1 ∷ [] in
    let b2 : List ℕ = b1 ++ 1 ∷ [] in
    let l1 : length b1 ≡ length b0 + 1 = length-append {0} b0 (1 ∷ []) in
    let l2 : length b2 ≡ length b1 + 1 = length-append {0} b1 (1 ∷ []) in
    let twice : (quality % 256) % 256 ≡ quality % 256 = omega arith in
    rw
      (
        pattern_length-some s le,
        put_pattern-pattern_of 1024 n len s.rcv_seq s.rcv_state (start hwaddr ether_type s)
            (pattern_bytes-Rounds len) (omega arith) (omega arith),
        le→leb (length b0 + 1) 1024 (omega arith),
        le→leb (length b1 + 1) 1024 (omega arith),
        le→leb (length b2 + 1) 1024 (omega arith),
        append_assoc b1 (1 ∷ []) (low_byte quality ∷ []),
        append_assoc b0 (1 ∷ []) (1 ∷ low_byte quality ∷ []),
        twice,
        append_assoc (start hwaddr ether_type s) pat (1 ∷ 1 ∷ low_byte quality ∷ []),
      )
      refl

pattern_bytes_bound :
    (len : ℕ) → (len ≤ 7984 → pattern_bytes len ≤ 998) × (7984 < len → 998 < pattern_bytes len)
pattern_bytes_bound len = let r = pattern_bytes-Rounds len in (λ h. omega arith, λ h. omega arith)

-- A window of more than 7984 numbers, all of them in the array, is written past the end of
-- `sendbuf`.
pub send_report-overflow :
    (hwaddr : Mac) (ether_type quality : ℕ) (s : NodeStatus)
    → s.last_rcv_seq + 1 ≤ length s.rcv_state
    → s.rcv_seq + 7984 < s.last_rcv_seq + 1
    → send_report hwaddr ether_type quality s ≡ none
unfolding send_report
send_report-overflow hwaddr ether_type quality s fits h =
    let len : ℕ = window_length s in
    let n : ℕ = pattern_bytes len in
    let large : 998 < n = (pattern_bytes_bound len).1 (omega arith) in
    let pat : List ℕ = pattern_of n (take len (drop s.rcv_seq s.rcv_state)) in
    let lp : length pat ≡ n = length-pattern_of n (take len (drop s.rcv_seq s.rcv_state)) in
    let b0 : List ℕ = start hwaddr ether_type s ++ pat in
    let b1 : List ℕ = b0 ++ 1 ∷ [] in
    let l1 : length b1 ≡ length b0 + 1 = length-append {0} b0 (1 ∷ []) in
    let l2 : length (b1 ++ 1 ∷ []) ≡ length b1 + 1 = length-append {0} b1 (1 ∷ []) in
    rw (pattern_length-some s (omega arith)) (elim (Bool-cases (leb n 1001)) [
      | inl small ↦
          rw
            (put_pattern-pattern_of 1024 n len s.rcv_seq s.rcv_state (start hwaddr ether_type s)
              (pattern_bytes-Rounds len) (omega arith) (omega (arith, leb→le n 1001 small)))
            (ground (arith, l1, l2, lp))
      | inr big ↦
          rw
            (put_pattern-none 1024 n len s.rcv_seq s.rcv_state (start hwaddr ether_type s)
              (pattern_bytes-Rounds len) (omega arith) (omega arith)
              (omega (arith, leb→lt n 1001 big)))
            refl
    ])

IsBits-of_Marks :
    (l : List ℕ) (m : ℕ → Bool)
    → ((j : ℕ) → j < length l → get_elem? l j ≡ some (if m j then 1 else 0))
    → IsBits l
IsBits-of_Marks [] m h = tt
IsBits-of_Marks (b ∷ l) m h =
    (ground (arith, h 0), IsBits-of_Marks l (λ j. m (suc j)) (λ j k. h (suc j) (omega arith)))

IsBits-take-drop : (n i : ℕ) (l : List ℕ) → IsBits l → IsBits (take n (drop i l))
IsBits-take-drop n i l v = IsBits-take n (drop i l) (IsBits-drop i l v)

pub report_of-IsReport :
    {max : ℕ} (quality : ℕ) (s : NodeStatus)
    → max ≤ 2 ^ 31
    → IsStatus max s
    → IsReport (report_of quality s)
report_of-IsReport quality s small v = record {
  node = omega arith;
  ack = omega (arith, v.window, v.room);
  small = omega (arith, v.room);
  pattern = omega (
    arith,
    length-take {0} (window_length s) (drop s.rcv_seq s.rcv_state),
    length-drop {0} s.rcv_seq s.rcv_state,
    v.room,
    v.size,
  );
  bits =
      IsBits-take-drop (window_length s) s.rcv_seq s.rcv_state
        (IsBits-of_Marks s.rcv_state v.seen (λ j k. v.marks j (omega (arith, k, v.size))));
  number = omega arith;
  entries = refl;
  vlc = omega arith;
}

-- In any status between packets, with at most 2 ^ 31 numbers and a window of at most 7984: the
-- node's report is sent, the gateway takes the frame for one of the node's, and reads back exactly
-- the node's ACK number, the marks of its window and the quality, whatever its buffer held before.
pub generate-send_report :
    {max : ℕ} (ether_type quality : ℕ) (s : NodeStatus) (stale : List ℕ)
    → max ≤ 2 ^ 31
    → IsStatus max s
    → s.last_rcv_seq + 1 ≤ s.rcv_seq + 7984
    → (frame : List ℕ) × (send_report my_mac ether_type quality s ≡ some frame)
      × (is_from_node (frame ++ stale) ≡ true)
      × (generate_status_report_from_string (drop header_len (frame ++ stale))
          ≡ some (report_of quality s))
unfolding is_from_node
generate-send_report ether_type quality s stale small v h = (
  ether_header gateway_mac my_mac ether_type ++ report_bytes (report_of quality s),
  send_report-bytes my_mac ether_type quality s v.window (omega (arith, v.room, v.size))
      ((pattern_bytes_bound (window_length s)).0 (omega arith)),
  refl,
  generate-report_bytes (report_of quality s) stale (report_of-IsReport quality s small v),
)
