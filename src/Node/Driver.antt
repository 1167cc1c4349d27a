-- ===== src/Node/Driver.antt =====
-- One round of `pru_phy_decoding` of `node (rf)_ourvlc/ourvlc-1.c`. The Reed-Solomon code is a
-- parameter: `decode_rs8` takes a block and its parity and gives the corrected block and the value
-- returned, which the code keeps as an `unsigned int`, so that it never sees a negative one.
use ciot_vlc.Base.{
  ℕ, zero, suc, ◌+◌, ◌-◌, ◌*◌, ◌%◌, ◌^◌, ◌&&◌, Option, none, some, List, ◌++◌, ◌>>=◌, ◌==◌, ltb,
  leb, if◌then◌else◌, read16, take, drop, replicate, le16, le32,
}
use ciot_vlc.Pru.{Memory, readw, writew, memcpy_fromio, put_at}
use ciot_vlc.VlcTx.Driver.{block_size, ecc_len, header_bytes, num_of_blocks}

-- `MTU_VALUE`, `RX_DATA_LEN` and `BUFFER_LIMIT` of the driver.
abbrev pub driver_mtu : ℕ
driver_mtu = 150

abbrev pub rx_data_len : ℕ
rx_data_len = 2000

abbrev pub buffer_limit : ℕ
buffer_limit = 6004

-- What is given up to the network stack, and the memory.
pub record Decoded : Type 0 where
  pub received : Option (List ℕ)
  pub pru0 : Memory

-- The node id of a corrected packet tells the node's program, and its first payload bytes how many
-- symbols were corrected; a dummy packet keeps its id.
unfoldable pub note_errors : ℕ → List ℕ → Option (List ℕ)
note_errors total_num_err rx_data = if total_num_err == 0 then some rx_data else do
  curr_pkt_node_id ← read16 rx_data 2
  marked ← (if curr_pkt_node_id == 99 then some rx_data else put_at rx_data 2 (le16 98))
  put_at marked 10 (le32 total_num_err)

module _ (decode_rs8 : List ℕ → List ℕ → List ℕ × ℕ) where
  unfoldable pub decode_blocks : ℕ → ℕ → ℕ → List ℕ → ℕ → Option (List ℕ × ℕ)
  decode_blocks zero index_block datalen rx_data total_num_err = some (rx_data, total_num_err)
  decode_blocks (suc n) index_block datalen rx_data total_num_err = do
    let par = take ecc_len (drop (datalen + index_block * ecc_len) rx_data)
    let size = if n == 0 then datalen % block_size else block_size
    let out = decode_rs8 (take size (drop (index_block * block_size) rx_data)) par
    rx_data' ← put_at rx_data (index_block * block_size) out.0
    decode_blocks n (suc index_block) datalen rx_data' ((total_num_err + out.1) % 2 ^ 32)

  -- With a length that is accepted, `datalen` is the whole packet without its parity.
  unfoldable pub decode_packet : ℕ → ℕ → Memory → Option Decoded
  unfolding decode_blocks note_errors
  decode_packet read_idx datalen pru0 = do
    let rx_data =
        memcpy_fromio pru0 read_idx (datalen + ecc_len)
        ++ replicate (rx_data_len - (datalen + ecc_len)) 0
    out ← decode_blocks (num_of_blocks datalen) 0 datalen rx_data 0
    noted ← note_errors out.1 out.0
    let next = (read_idx + datalen + ecc_len) % 2 ^ 16
    some (record {
      received = some (take datalen noted);
      pru0 = writew pru0 2 (if leb buffer_limit next then 4 else next);
    })

  unfoldable pub pru_phy_decoding : Memory → Option Decoded
  unfolding decode_packet
  pru_phy_decoding pru0 =
      let read_idx = readw pru0 2 in
      let datalen = readw pru0 read_idx in
      if read_idx == readw pru0 0
      then some (record { received = none; pru0 = pru0 })
      else if ltb 0 datalen && leb datalen driver_mtu
      then decode_packet read_idx (datalen + header_bytes) pru0
      else some (record { received = none; pru0 = pru0 })
