-- ===== src/Examples/Nodes.antt =====
-- A node that receives a few packets.
use ciot_vlc.Base.{◌≡◌, refl, none, some, [], ◌∷◌, arith}
use ciot_vlc.Node.Status.{NodeStatus, initialize_node_status, process_data, process_all}
use ciot_vlc.Node.Track.{Tracks, process_all-Tracks}
use ciot_vlc.Node.Window.{Kept, process_data-Kept, process_data-last}
use ciot_vlc.Examples.Data.{gapped, gapped-IsStatus}

process_all-Tracks_example :
    (s : NodeStatus) × (process_all 100000 (initialize_node_status 500000) (2 ∷ 0 ∷ 4 ∷ 0 ∷ [])
      ≡ some s)
    × Tracks 500000 100001 s (2 ∷ 0 ∷ 4 ∷ 0 ∷ [])
process_all-Tracks_example =
    process_all-Tracks 500000 100001 100000 (2 ∷ 0 ∷ 4 ∷ 0 ∷ []) (omega arith) (omega arith)
      (omega arith) (omega arith) (omega arith)

process_data-Kept_example : Kept 6 2 gapped 4
process_data-Kept_example =
    process_data-Kept gapped-IsStatus 2 4 (omega arith) (omega arith) (omega arith)

abbrev all_but_last : NodeStatus
all_but_last = record { rcv_seq = 2; rcv_state = 1 ∷ 1 ∷ 0 ∷ []; last_rcv_seq = 1 }

process_data-last_example : process_data 100 all_but_last 2 ≡ none
process_data-last_example = process_data-last 3 100 2 all_but_last refl refl refl (omega arith)
