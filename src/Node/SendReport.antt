-- ===== src/Node/SendReport.antt =====
-- `send_report` of the node's `main.c`: the frame of one round of its loop. `none` is a write past
-- the end of `sendbuf`, a read outside `rcv_state`, or a negative pattern length.
use ciot_vlc.Base.{
  ℕ, suc, ◌+◌, ◌-◌, Option, none, some, List, [], ◌∷◌, ◌>>=◌, leb, if◌then◌else◌, put, le32,
}
use ciot_vlc.Packet.{Mac, ether_header, buf_size}
use ciot_vlc.Report.{low_byte, pattern_bytes, put_pattern}
use ciot_vlc.Node.Status.{NodeStatus}
use ciot_vlc.Node.Wire.{gateway_mac}

-- `SELF_ID` and `N_VLC` of `node.h`.
abbrev pub self_id : ℕ
self_id = 1

abbrev pub n_vlc : ℕ
n_vlc = 1

-- `status.last_rcv_seq - status.rcv_seq + 1`, from 0 on.
unfoldable pub pattern_length : NodeStatus → Option ℕ
pattern_length status =
    if leb status.rcv_seq (status.last_rcv_seq + 1)
    then some (status.last_rcv_seq + 1 - status.rcv_seq)
    else none

-- The loop over the transmitters: `qualities` are the values of `in_255_range`, which the code
-- takes from a `double`.
unfoldable pub put_quality : ℕ → List ℕ → List ℕ → Option (List ℕ)
put_quality i [] sendbuf = some sendbuf
put_quality i (in_255_range ∷ rest) sendbuf = do
  sendbuf ← put buf_size (low_byte (i + 1) ∷ []) sendbuf
  sendbuf ← put buf_size (low_byte in_255_range ∷ []) sendbuf
  put_quality (suc i) rest sendbuf

-- `hwaddr` is the address of `rf_if_mac`, and `quality` the value for the one transmitter.
unfoldable pub send_report : Mac → ℕ → ℕ → NodeStatus → Option (List ℕ)
unfolding put_quality
send_report hwaddr ether_type quality status = do
  sendbuf ← put buf_size (ether_header gateway_mac hwaddr ether_type) []
  sendbuf ← put buf_size (low_byte self_id ∷ []) sendbuf
  sendbuf ← put buf_size (le32 status.rcv_seq) sendbuf
  len ← pattern_length status
  sendbuf ← put buf_size (le32 len) sendbuf
  sendbuf ← put_pattern buf_size (pattern_bytes len) len status.rcv_seq status.rcv_state sendbuf
  sendbuf ← put buf_size (low_byte n_vlc ∷ []) sendbuf
  put_quality 0 (quality ∷ []) sendbuf
