-- ===== src/Gateway/Acks.antt =====
-- What `receive_report` makes of the pattern: the code compares its entries, which are 0 and 1, with
-- the character '1'.
use ciot_vlc.Base.{
  ℕ, zero, suc, ◌+◌, ◌-◌, ◌^◌, ◌<◌, ◌≡◌, refl, sym, ◌∙◌, ◌&&◌, none, some, List, [], ◌∷◌, ◌++◌,
  ◌>>=◌, ◌==◌, ltb, leb, if◌then◌else◌, length, drop, arith, inl, inr, Bool-cases, bind_some,
  lt→ltb, read8, read32,
}
use ciot_vlc.Doubles.{Doubles}
use ciot_vlc.Packet.{header_len}
use ciot_vlc.Report.{
  VlcInformation, StatusReport, unpack_bits, conv_shift_until, read_pattern, read_vlc,
  wire_pattern_bytes, generate_status_report_from_string,
}
use ciot_vlc.Report.Bits.{IsBits}
use ciot_vlc.Gateway.State.{Gateway}
use ciot_vlc.Gateway.Address.{is_from_node}
use ciot_vlc.Gateway.Receive.{ack_one, ack_all, ack_report, set_errors, use_report, receive_report}

unpack_bits-IsBits : (n j byte : ℕ) (l : List ℕ) → IsBits l → IsBits (unpack_bits n j byte ++ l)
unfolding unpack_bits
unpack_bits-IsBits zero j byte l v = v
unpack_bits-IsBits (suc n) j byte l v = (omega arith, unpack_bits-IsBits n (j - 1) byte l v)

read_pattern-IsBits :
    (n remaining idx : ℕ) (bytes pattern : List ℕ)
    → read_pattern n remaining idx bytes ≡ some pattern
    → IsBits pattern
unfolding read_pattern
read_pattern-IsBits zero remaining idx bytes pattern e = let same : pattern ≡ [] = cc in rw same tt
read_pattern-IsBits (suc n) remaining idx bytes pattern e =
    let (byte, a, b) =
      bind_some (read8 bytes idx)
        (λ byte. read_pattern n (remaining - 8) (suc idx) bytes >>= λ rest.
          some (unpack_bits (8 - conv_shift_until remaining) 7 byte ++ rest))
        e in
    let (rest, c, d) =
      bind_some (read_pattern n (remaining - 8) (suc idx) bytes)
        (λ rest. some (unpack_bits (8 - conv_shift_until remaining) 7 byte ++ rest)) b in
    let same : pattern ≡ unpack_bits (8 - conv_shift_until remaining) 7 byte ++ rest = cc in
    rw same (
      unpack_bits-IsBits (8 - conv_shift_until remaining) 7 byte rest
        (read_pattern-IsBits n (remaining - 8) (suc idx) bytes rest c))

IsBits-some :
    {r report : StatusReport}
    → some r ≡ some report
    → IsBits r.ack_bit_pattern
    → IsBits report.ack_bit_pattern
IsBits-some {r} {report} e v = let same : r ≡ report = cc in rw (sym same) v

module _ {D : Type 0} where
  ack_one-bit : (next bit : ℕ) (g : Gateway D) → bit < 2 → ack_one (suc next) bit g ≡ some g
  unfolding ack_one
  ack_one-bit next bit g b = ground arith

  -- Entries that are bits acknowledge nothing.
  pub ack_all-bits :
      (next : ℕ) (pattern : List ℕ) (g : Gateway D)
      → IsBits pattern
      → ack_all (suc next) pattern g ≡ some g
  unfolding ack_all
  ack_all-bits next [] g v = refl
  ack_all-bits next (bit ∷ pattern) g v =
      rw (ack_one-bit next bit g v.0) (ack_all-bits (suc next) pattern g v.1)

  ack_all-same :
      (next : ℕ) (pattern : List ℕ) (g g' : Gateway D)
      → IsBits pattern
      → ack_all next pattern g ≡ some g'
      → g' ≡ g
  unfolding ack_all ack_one
  ack_all-same next [] g g' v e = cc
  ack_all-same zero (bit ∷ pattern) g g' v e = cc
  ack_all-same (suc next) (bit ∷ pattern) g g' v e = cc (ack_all-bits next (bit ∷ pattern) g v)

  ack_all-after_first :
      (next : ℕ) (pattern : List ℕ) (g : Gateway D)
      → IsBits pattern
      → 0 < next
      → ack_all next pattern g ≡ some g
  ack_all-after_first zero pattern g v h = absurd (omega arith)
  ack_all-after_first (suc next) pattern g v h = ack_all-bits next pattern g v

  ack_all-first :
      (next : ℕ) (pattern : List ℕ) (g : Gateway D)
      → next ≡ 0
      → 0 < length pattern
      → ack_all next pattern g ≡ none
  unfolding ack_all ack_one
  ack_all-first next [] g e h = absurd (omega arith)
  ack_all-first zero (bit ∷ pattern) g e h = refl
  ack_all-first (suc next) (bit ∷ pattern) g e h = absurd (omega arith)

  -- A report of bits from a window that starts after 0 moves the window and does no more.
  pub ack_report-positive :
      (report : StatusReport) (g : Gateway D)
      → IsBits report.ack_bit_pattern
      → 0 < report.ack_number
      → report.ack_number < 2 ^ 31
      → ack_report report g ≡ some (record g { unacked_seq = report.ack_number })
  unfolding ack_report
  ack_report-positive report g v h small = rw (lt→ltb report.ack_number (2 ^ 31) small) (
      ack_all-after_first report.ack_number report.ack_bit_pattern
        (record g { unacked_seq = report.ack_number }) v h)

  -- A window from 0 on that is not empty begins with the read of entry -1.
  pub ack_report-zero :
      (report : StatusReport) (g : Gateway D)
      → report.ack_number ≡ 0
      → 0 < length report.ack_bit_pattern
      → ack_report report g ≡ none
  unfolding ack_report
  ack_report-zero report g e h = rw (lt→ltb report.ack_number (2 ^ 31) (omega (arith, e))) (
      ack_all-first report.ack_number report.ack_bit_pattern
        (record g { unacked_seq = report.ack_number }) e h)

  -- The parts that tell which packets are acknowledged are as before.
  abbrev pub IsUnacked : Gateway D → Gateway D → Type 0
  IsUnacked g g' = (g'.pkt_state ≡ g.pkt_state) × (g'.unacked_vlc_packet ≡ g.unacked_vlc_packet)

  ack_report-IsUnacked :
      (report : StatusReport) (g g' : Gateway D)
      → IsBits report.ack_bit_pattern
      → ack_report report g ≡ some g'
      → IsUnacked g g'
  unfolding ack_report
  ack_report-IsUnacked report g g' v e =
      let start : Gateway D = record g { unacked_seq = report.ack_number } in
      elim (Bool-cases (ltb report.ack_number (2 ^ 31))) [
        | inl small ↦
            let same : g' ≡ start =
              ack_all-same report.ack_number report.ack_bit_pattern start g' v (rw small at e) in
            rw same (refl, refl)
        | inr negative ↦ ground arith
      ]

module _ (F : Doubles) where
  open F use {D}

  set_errors-IsUnacked :
      (vs : List VlcInformation) (g g' : Gateway D) → set_errors F vs g ≡ some g' → IsUnacked g g'
  unfolding set_errors
  set_errors-IsUnacked [] g g' e = ground arith
  set_errors-IsUnacked (v ∷ vs) g g' e = elim (Bool-cases (v.vlc_tx_id == 1)) [
    | inl one ↦ set_errors-IsUnacked vs _ g' (rw one at e)
    | inr other ↦ cc (rw other at e)
  ]

  use_report-IsUnacked :
      (report : StatusReport) (g g' : Gateway D)
      → IsBits report.ack_bit_pattern
      → use_report F report g ≡ some g'
      → IsUnacked g g'
  unfolding use_report
  use_report-IsUnacked report g g' v e =
      elim (Bool-cases (ltb 0 report.node_id && leb report.node_id 1)) [
        | inl ours ↦
            let (h, a, b) =
              bind_some (ack_report report g) (λ k. set_errors F report.vlc_data k)
                (rw ours at e) in
            let (s0, u0) = ack_report-IsUnacked report g h v a in
            let (s1, u1) = set_errors-IsUnacked report.vlc_data h g' b in (s1 ∙ s0, u1 ∙ u0)
        | inr other ↦ let same : g' ≡ g = cc (rw other at e) in rw same (refl, refl)
      ]

  generate-IsBits :
      (bytes : List ℕ) (report : StatusReport)
      → generate_status_report_from_string bytes ≡ some report
      → IsBits report.ack_bit_pattern
  unfolding generate_status_report_from_string
  generate-IsBits bytes report e =
      let (id, e0, k0) = bind_some (read8 bytes 0) _ e in
      let (ack, e1, k1) = bind_some (read32 bytes 1) _ k0 in
      let (w, e2, k2) = bind_some (read32 bytes 5) _ k1 in
      let n : ℕ = wire_pattern_bytes w in
      let (pattern, e3, k3) =
        bind_some (read_pattern n (if ltb w (2 ^ 31) then w else 0) 9 bytes) _ k2 in
      let (m, e4, k4) = bind_some (read8 bytes (9 + n)) _ k3 in
      let (vs, e5, k5) = bind_some (read_vlc m (suc (9 + n)) bytes) _ k4 in
      IsBits-some k5 (read_pattern-IsBits n (if ltb w (2 ^ 31) then w else 0) 9 bytes pattern e3)

  -- Whatever is received, a round of `receive_report` that does not fault leaves the state of every
  -- packet and the packets that wait for an acknowledgement as they were.
  pub receive_report-IsUnacked :
      (numbytes : ℕ) (buf : List ℕ) (g g' : Gateway D)
      → receive_report F numbytes buf g ≡ some g'
      → IsUnacked g g'
  unfolding receive_report
  receive_report-IsUnacked numbytes buf g g' e =
      elim (Bool-cases (ltb 0 numbytes && is_from_node buf)) [
        | inl ours ↦
            let (report, a, b) =
              bind_some (generate_status_report_from_string (drop header_len buf))
                (λ k. use_report F k g) (rw ours at e) in
            use_report-IsUnacked report g g' (generate-IsBits (drop header_len buf) report a) b
        | inr other ↦ let same : g' ≡ g = cc (rw other at e) in rw same (refl, refl)
      ]
