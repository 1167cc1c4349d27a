-- ===== src/VlcTx/Driver.antt =====
-- `write_packet_to_pru_memory` of `VLC TX1 (Eth)_ourvlc/ourvlc-1.c`: the packet with its parity
-- goes to the PRU's memory. The Reed-Solomon code is a parameter: `encode_rs8` gives the parity
-- bytes of a block, from a cleared `par`.
use ciot_vlc.Base.{
  ℕ, zero, suc, ◌+◌, ◌*◌, ◌%◌, ◌/◌, ◌^◌, Option, some, List, ◌>>=◌, ◌==◌, if◌then◌else◌, read16,
  take, drop,
}
use ciot_vlc.Pru.{Memory, memcpy_toio, put_at}

-- `block_size`, `ECC_LEN` and `OTHER_PACKET_CONTENT_BYTE + sizeof(uint16_t)`.
abbrev pub block_size : ℕ
block_size = 200

abbrev pub ecc_len : ℕ
ecc_len = 16

abbrev pub header_bytes : ℕ
header_bytes = 10

abbrev pub num_of_blocks : ℕ → ℕ
num_of_blocks packet_length =
    if packet_length % block_size == 0
    then packet_length / block_size
    else packet_length / block_size + 1

module _ (encode_rs8 : List ℕ → List ℕ) where
  -- The loop over the blocks, of which `n` are left; the last has `packet_length % block_size` bytes.
  unfoldable pub encode_blocks : ℕ → ℕ → ℕ → List ℕ → Option (List ℕ)
  encode_blocks zero index_block packet_length pkt_data = some pkt_data
  encode_blocks (suc n) index_block packet_length pkt_data = do
    let size = if n == 0 then packet_length % block_size else block_size
    let par = encode_rs8 (take size (drop (index_block * block_size) pkt_data))
    pkt_data' ← put_at pkt_data (packet_length + index_block * ecc_len) par
    encode_blocks n (suc index_block) packet_length pkt_data'

  -- The new memory and write index.
  unfoldable pub write_packet_to_pru_memory : List ℕ → ℕ → Memory → Option (Memory × ℕ)
  unfolding encode_blocks
  write_packet_to_pru_memory pkt_data write_idx pru0 = do
    len ← read16 pkt_data 0
    let packet_length = (len + header_bytes) % 2 ^ 16
    pkt_data' ← encode_blocks (num_of_blocks packet_length) 0 packet_length pkt_data
    let total = (packet_length + ecc_len) % 2 ^ 16
    some (memcpy_toio pru0 write_idx (take total pkt_data'), (write_idx + total) % 2 ^ 16)
