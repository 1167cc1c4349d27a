-- ===== src/Report.antt =====
-- The status report that the node sends to the gateway: `status_report_packet.c` of both.
-- `none` is a read or write outside a buffer.
pub mod Bits
pub mod Pattern
pub mod RoundTrip
use Prim.Native.Nat.{bit_or}
use ciot_vlc.Base.{
  ℕ, zero, suc, ◌+◌, ◌-◌, ◌*◌, ◌/◌, ◌%◌, ◌^◌, Option, none, some, List, [], ◌∷◌, ◌++◌, ◌>>=◌, ◌==◌,
  ltb, leb, if◌then◌else◌, le32, read8, read32, put, replicate,
}

-- `struct vlc_information`.
pub record VlcInformation : Type 0 where
  pub vlc_tx_id : ℕ
  pub vlc_link_quality : ℕ

-- `struct status_report_packet`. An `int` is its 32-bit pattern.
pub record StatusReport : Type 0 where
  pub node_id : ℕ
  pub ack_number : ℕ
  pub pattern_length : ℕ
  pub ack_bit_pattern : List ℕ
  pub n_vlc : ℕ
  pub vlc_data : List VlcInformation

-- `(n & 0xff)` as a byte.
abbrev pub low_byte : ℕ → ℕ
low_byte n = n % 256

-- The bytes that hold a pattern of `len` bits; `unsigned_char_size` is 8.
unfoldable pub pattern_bytes : ℕ → ℕ
pattern_bytes len = len / 8 + (if len % 8 == 0 then 0 else 1)

-- `for (j = cur_idx; j < cur_last_idx; j++) { temp_byte |= (pattern[j] & 1) << n_shift; n_shift--; }`
unfoldable pub pack_bits : ℕ → ℕ → ℕ → List ℕ → ℕ → Option ℕ
pack_bits zero j n_shift pattern temp_byte = some temp_byte
pack_bits (suc n) j n_shift pattern temp_byte = do
  b ← read8 pattern j
  pack_bits n (suc j) (n_shift - 1) pattern (bit_or temp_byte (b % 2 * 2 ^ n_shift))

-- The loop over the bytes of the pattern, from `cur_idx`, into a buffer of `size` bytes.
unfoldable pub put_pattern : ℕ → ℕ → ℕ → ℕ → List ℕ → List ℕ → Option (List ℕ)
put_pattern size zero remaining cur_idx pattern buff = some buff
put_pattern size (suc n) remaining cur_idx pattern buff = do
  temp_byte ← pack_bits (if ltb 8 remaining then 8 else remaining) cur_idx 7 pattern 0
  buff' ← put size (temp_byte ∷ []) buff
  put_pattern size n (remaining - 8) (cur_idx + 8) pattern buff'

unfoldable pub put_vlc : ℕ → List VlcInformation → List ℕ → Option (List ℕ)
put_vlc size [] buff = some buff
put_vlc size (v ∷ vs) buff = do
  buff' ← put size (low_byte v.vlc_tx_id ∷ []) buff
  buff'' ← put size (low_byte v.vlc_link_quality ∷ []) buff'
  put_vlc size vs buff''

-- The first `n` entries of `vlc_data`; `none` where it has fewer.
unfoldable pub first_vlc : ℕ → List VlcInformation → Option (List VlcInformation)
first_vlc zero vs = some []
first_vlc (suc n) [] = none
first_vlc (suc n) (v ∷ vs) = do rest ← first_vlc n vs; some (v ∷ rest)

-- `convert_report_packet_to_string` of the node, for a length from 0 on, into `malloc(1000)`.
unfoldable pub convert_report_packet_to_string : StatusReport → ℕ → Option (List ℕ)
convert_report_packet_to_string packet vlc_tx_number = do
  buff ← put 1000 (low_byte packet.node_id ∷ []) []
  buff ← put 1000 (le32 packet.ack_number) buff
  buff ← put 1000 (le32 packet.pattern_length) buff
  buff ←
      put_pattern 1000 (pattern_bytes packet.pattern_length) packet.pattern_length 0
        packet.ack_bit_pattern buff
  buff ← put 1000 (low_byte vlc_tx_number ∷ []) buff
  vs ← first_vlc vlc_tx_number packet.vlc_data
  put_vlc 1000 vs buff

-- `for (j = 7; j >= shift_until; j--) pattern[convert_idx++] = byte_temp >> j & 1;`
unfoldable pub unpack_bits : ℕ → ℕ → ℕ → List ℕ
unpack_bits zero j byte_temp = []
unpack_bits (suc n) j byte_temp = (byte_temp / 2 ^ j) % 2 ∷ unpack_bits n (j - 1) byte_temp

unfoldable pub conv_shift_until : ℕ → ℕ
conv_shift_until remaining = if leb 8 remaining then 0 else 8 - remaining

unfoldable pub read_pattern : ℕ → ℕ → ℕ → List ℕ → Option (List ℕ)
read_pattern zero remaining idx report_bytes = some []
read_pattern (suc n) remaining idx report_bytes = do
  byte_temp ← read8 report_bytes idx
  rest ← read_pattern n (remaining - 8) (suc idx) report_bytes
  some (unpack_bits (8 - conv_shift_until remaining) 7 byte_temp ++ rest)

unfoldable pub read_vlc : ℕ → ℕ → List ℕ → Option (List VlcInformation)
read_vlc zero idx report_bytes = some []
read_vlc (suc n) idx report_bytes = do
  id ← read8 report_bytes idx
  quality ← read8 report_bytes (suc idx)
  rest ← read_vlc n (suc (suc idx)) report_bytes
  some (record { vlc_tx_id = id; vlc_link_quality = quality } ∷ rest)

-- The rounds of the gateway's byte loop for the `int` with this 32-bit pattern. Of a negative
-- length C division leaves one round from -1 to -7 and none below; that round reads no bit.
unfoldable pub wire_pattern_bytes : ℕ → ℕ
wire_pattern_bytes w =
    if ltb w (2 ^ 31) then pattern_bytes w else if ltb (2 ^ 32 - w) 8 then 1 else 0

-- `generate_status_report_from_string` of the gateway.
unfoldable pub generate_status_report_from_string : List ℕ → Option StatusReport
generate_status_report_from_string report_bytes = do
  node_id ← read8 report_bytes 0
  ack_number ← read32 report_bytes 1
  pattern_length ← read32 report_bytes 5
  let n = wire_pattern_bytes pattern_length
  pattern ←
      read_pattern n (if ltb pattern_length (2 ^ 31) then pattern_length else 0) 9 report_bytes
  let idx = 9 + n
  n_vlc ← read8 report_bytes idx
  vlc_data ← read_vlc n_vlc (suc idx) report_bytes
  some (record {
    node_id = node_id;
    ack_number = ack_number;
    pattern_length = pattern_length;
    ack_bit_pattern = pattern;
    n_vlc = n_vlc;
    vlc_data = vlc_data;
  })
