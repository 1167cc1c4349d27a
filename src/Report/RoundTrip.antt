-- ===== src/Report/RoundTrip.antt =====
-- `convert_report_packet_to_string` of the node against `generate_status_report_from_string` of the
-- gateway.
use ciot_vlc.Base.{
  ℕ, zero, suc, ◌*◌, ◌^◌, ◌+◌, ◌≤◌, ◌<◌, ◌≡◌, refl, sym, ◌∙◌, List, [], ◌∷◌, ◌++◌, arith, length,
  some, drop, length-append, append_assoc, append-nil, le→leb, lt→ltb, drop-drop, drop_cons,
  take_all, drop_all_append, le32, le32_value,
}
use ciot_vlc.Report.{
  VlcInformation, StatusReport, low_byte, pattern_bytes, put_vlc, first_vlc, read_vlc,
  wire_pattern_bytes, convert_report_packet_to_string, generate_status_report_from_string,
}
use ciot_vlc.Report.Bits.{IsBits}
use ciot_vlc.Report.Pattern.{
  pattern_of, length-pattern_of, pattern_bytes-Rounds, put_pattern-pattern_of,
  read_pattern-pattern_of,
}

abbrev AreVlc : List VlcInformation → Type 0
AreVlc [] = Unit {0}
AreVlc (v ∷ vs) = (v.vlc_tx_id < 256) × (v.vlc_link_quality < 256) × AreVlc vs

-- The fields fit the bytes of the report, its lists have the lengths that it states, and each entry
-- of the pattern is 0 or 1.
pub record IsReport (r : StatusReport) : Type 0 where
  pub node : r.node_id < 256
  pub ack : r.ack_number < 2 ^ 32
  pub small : r.pattern_length < 2 ^ 31
  pub pattern : length r.ack_bit_pattern ≡ r.pattern_length
  pub bits : IsBits r.ack_bit_pattern
  pub number : r.n_vlc < 256
  pub entries : length r.vlc_data ≡ r.n_vlc
  pub vlc : AreVlc r.vlc_data

unfoldable pub vlc_bytes : List VlcInformation → List ℕ
vlc_bytes [] = []
vlc_bytes (v ∷ vs) = low_byte v.vlc_tx_id ∷ low_byte v.vlc_link_quality ∷ vlc_bytes vs

pub put_vlc-vlc_bytes :
    (size : ℕ) (vs : List VlcInformation) (buff : List ℕ)
    → length buff + 2 * length vs ≤ size
    → put_vlc size vs buff ≡ some (buff ++ vlc_bytes vs)
unfolding put_vlc vlc_bytes
put_vlc-vlc_bytes size [] buff h = rw append-nil refl
put_vlc-vlc_bytes size (v ∷ vs) buff h =
    let b1 : List ℕ = buff ++ low_byte v.vlc_tx_id ∷ [] in
    let b2 : List ℕ = b1 ++ low_byte v.vlc_link_quality ∷ [] in
    let l1 : length b1 ≡ length buff + 1 = length-append {0} buff (low_byte v.vlc_tx_id ∷ []) in
    let l2 : length b2 ≡ length b1 + 1 = length-append {0} b1 (low_byte v.vlc_link_quality ∷ []) in
    rw
      (
        le→leb (length buff + 1) size (omega arith),
        le→leb (length b1 + 1) size (omega arith),
        put_vlc-vlc_bytes size vs b2 (omega arith),
        append_assoc b1 (low_byte v.vlc_link_quality ∷ []) (vlc_bytes vs),
        append_assoc buff (low_byte v.vlc_tx_id ∷ []) (low_byte v.vlc_link_quality ∷ vlc_bytes vs),
      )
      refl

read_vlc-vlc_bytes :
    (n idx : ℕ) (vs : List VlcInformation) (rest buff : List ℕ)
    → AreVlc vs
    → length vs ≡ n
    → drop idx buff ≡ vlc_bytes vs ++ rest
    → read_vlc n idx buff ≡ some vs
unfolding read_vlc vlc_bytes
read_vlc-vlc_bytes zero idx [] rest buff v len e = refl
read_vlc-vlc_bytes zero idx (x ∷ vs) rest buff v len e = absurd (omega (arith, len))
read_vlc-vlc_bytes (suc n) idx [] rest buff v len e = absurd (omega (arith, len))
read_vlc-vlc_bytes (suc n) idx (x ∷ vs) rest buff v len e =
    let (at, next) =
      drop_cons buff idx (low_byte x.vlc_tx_id) (low_byte x.vlc_link_quality ∷ vlc_bytes vs ++ rest)
        e in
    let (at2, next2) =
      drop_cons buff (suc idx) (low_byte x.vlc_link_quality) (vlc_bytes vs ++ rest) next in
    let id : low_byte x.vlc_tx_id ≡ x.vlc_tx_id = omega (arith, v.0) in
    let quality : low_byte x.vlc_link_quality ≡ x.vlc_link_quality = omega (arith, v.1) in
    rw
      (
        at,
        at2,
        read_vlc-vlc_bytes n (suc (suc idx)) vs rest buff v.2 (omega (arith, len)) next2,
        id,
        quality,
      )
      refl

-- The bytes of a report.
abbrev pub report_head : StatusReport → List ℕ
report_head r = (r.node_id ∷ []) ++ (le32 r.ack_number ++ le32 r.pattern_length)

abbrev pub report_tail : StatusReport → List ℕ
report_tail r = r.n_vlc ∷ vlc_bytes r.vlc_data

abbrev pub report_bytes : StatusReport → List ℕ
report_bytes r =
    report_head r
    ++ (pattern_of (pattern_bytes r.pattern_length) r.ack_bit_pattern ++ report_tail r)

wire_pattern_bytes-small : (w : ℕ) → w < 2 ^ 31 → wire_pattern_bytes w ≡ pattern_bytes w
unfolding wire_pattern_bytes
wire_pattern_bytes-small w h = rw (lt→ltb w (2 ^ 31) h)

-- Whatever follows them, the gateway reads these bytes as the report.
pub generate-report_bytes :
    (r : StatusReport) (stale : List ℕ)
    → IsReport r
    → generate_status_report_from_string (report_bytes r ++ stale) ≡ some r
unfolding generate_status_report_from_string
generate-report_bytes r stale v =
    let n : ℕ = pattern_bytes r.pattern_length in
    let pat : List ℕ = pattern_of n r.ack_bit_pattern in
    let buff : List ℕ = report_head r ++ (pat ++ (report_tail r ++ stale)) in
    let after : drop (9 + n) buff ≡ report_tail r ++ stale =
      sym (drop-drop n 9 buff)
      ∙ drop_all_append n pat (report_tail r ++ stale) (length-pattern_of n r.ack_bit_pattern) in
    let (at, next) = drop_cons buff (9 + n) r.n_vlc (vlc_bytes r.vlc_data ++ stale) after in
    rw
      (
        append_assoc pat (report_tail r) stale,
        le32_value r.ack_number v.ack,
        le32_value r.pattern_length (omega (arith, v.small)),
        wire_pattern_bytes-small r.pattern_length v.small,
        lt→ltb r.pattern_length (2 ^ 31) v.small,
        read_pattern-pattern_of n r.pattern_length 9 r.ack_bit_pattern (report_tail r ++ stale) buff
            v.bits v.pattern (pattern_bytes-Rounds r.pattern_length) refl,
        at,
        read_vlc-vlc_bytes r.n_vlc (suc (9 + n)) r.vlc_data stale buff v.vlc v.entries next,
      )
      refl

first_vlc-all : (n : ℕ) (vs : List VlcInformation) → length vs ≡ n → first_vlc n vs ≡ some vs
unfolding first_vlc
first_vlc-all zero [] e = refl
first_vlc-all zero (v ∷ vs) e = absurd (omega (arith, e))
first_vlc-all (suc n) [] e = absurd (omega (arith, e))
first_vlc-all (suc n) (v ∷ vs) e = rw (first_vlc-all n vs (omega (arith, e))) refl

convert-report_bytes :
    (r : StatusReport)
    → IsReport r
    → 10 + pattern_bytes r.pattern_length + 2 * r.n_vlc ≤ 1000
    → convert_report_packet_to_string r r.n_vlc ≡ some (report_bytes r)
unfolding convert_report_packet_to_string
convert-report_bytes r v h =
    let n : ℕ = pattern_bytes r.pattern_length in
    let pat : List ℕ = pattern_of n r.ack_bit_pattern in
    let written : List ℕ = report_head r ++ pat in
    let node : low_byte r.node_id ≡ r.node_id = omega (arith, v.node) in
    let number : low_byte r.n_vlc ≡ r.n_vlc = omega (arith, v.number) in
    let len : length pat ≡ n = length-pattern_of n r.ack_bit_pattern in
    let len2 : length (written ++ r.n_vlc ∷ []) ≡ length written + 1 =
      length-append {0} written (r.n_vlc ∷ []) in
    rw
      (
        node,
        number,
        put_pattern-pattern_of 1000 n r.pattern_length 0 r.ack_bit_pattern (report_head r)
            (pattern_bytes-Rounds r.pattern_length) (omega (arith, v.pattern)) (omega arith),
        take_all r.pattern_length r.ack_bit_pattern v.pattern,
        le→leb (length written + 1) 1000 (omega arith),
        first_vlc-all r.n_vlc r.vlc_data v.entries,
        put_vlc-vlc_bytes 1000 r.vlc_data (written ++ r.n_vlc ∷ []) (omega (arith, v.entries)),
        append_assoc written (r.n_vlc ∷ []) (vlc_bytes r.vlc_data),
        append_assoc (report_head r) pat (report_tail r),
      )
      refl

-- A report whose fields fit their bytes (the pattern's length an `int`), whose lists have the stated
-- lengths, whose pattern has the numbers 0 and 1 (not the characters), and whose bytes fit the 1000
-- bytes of the node's buffer, is written, and the gateway reads it back whatever follows it.
pub generate-convert :
    (r : StatusReport) (stale : List ℕ)
    → IsReport r
    → 10 + pattern_bytes r.pattern_length + 2 * r.n_vlc ≤ 1000
    → (bytes : List ℕ) × (convert_report_packet_to_string r r.n_vlc ≡ some bytes)
      × (generate_status_report_from_string (bytes ++ stale) ≡ some r)
generate-convert r stale v h =
    (report_bytes r, convert-report_bytes r v h, generate-report_bytes r stale v)
