-- ===== src/VlcTx/Quality.antt =====
-- `init_vlc_quality_packet` of `VLC TX1 (Eth)_ourvlc/ourvlc-1.c`: the dummy packet that the driver
-- sends while nothing waits.
use ciot_vlc.Base.{ℕ, Option, List, ◌>>=◌, replicate, le16, le32}
use ciot_vlc.Pru.{put_at}

-- `PAYLOAD_LEN`, `DUMMY_PACKET_NODE_ID`, `VLC_TX_ID` and the payload byte.
abbrev pub payload_len : ℕ
payload_len = 74

abbrev pub dummy_node_id : ℕ
dummy_node_id = 99

abbrev pub vlc_tx_id : ℕ
vlc_tx_id = 1

abbrev pub vlc_q_payload : ℕ
vlc_q_payload = 0xca

-- `old` is the array that `kmalloc` gave; the loop over the payload writes its bytes in a row.
unfoldable pub init_vlc_quality_packet : List ℕ → Option (List ℕ)
init_vlc_quality_packet old = do
  pkt ← put_at old 0 (le16 payload_len)
  pkt ← put_at pkt 2 (le16 dummy_node_id)
  pkt ← put_at pkt 4 (le16 vlc_tx_id)
  pkt ← put_at pkt 6 (le32 100)
  put_at pkt 10 (replicate payload_len vlc_q_payload)
