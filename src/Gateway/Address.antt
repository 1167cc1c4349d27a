-- ===== src/Gateway/Address.antt =====
-- The tests on the sender of a frame: `is_from_node` and `is_vlc_tx_address` of
-- `gateway (eth)_gateway/main.c`, with the addresses that `setup_node_address` and
-- `setup_vlc_address` fill in. `N_NODE` and `N_VLC` are 1, so the loops make one round.
use ciot_vlc.Base.{ℕ, zero, suc, Bool, true, false, ◌&&◌, List, [], ◌∷◌, if◌then◌else◌}
use ciot_vlc.Packet.{Mac, mac, dhost_is, shost_is}
use ciot_vlc.Gateway.Send.{rf_mac, my_mac}

abbrev pub n_node : ℕ
n_node = 1

abbrev pub n_vlc : ℕ
n_vlc = 1

-- Entry 1 is written past the `N_NODE` pointers that were allocated.
unfoldable pub setup_node_address : List Mac
setup_node_address = mac 0xec 0x08 0x6b 0x13 0x1e 0x5c ∷ mac 0xec 0x08 0x6b 0x13 0x1e 0x5c ∷ []

unfoldable pub setup_vlc_address : List Mac
setup_vlc_address = mac 0xb0 0xd5 0xcc 0xfc 0xfe 0x85 ∷ mac 0xb0 0xd5 0xcc 0xff 0x7b 0xef ∷ []

-- The loop over the first `n` addresses; it stops at the first that fits.
unfoldable pub is_from_node_loop : ℕ → List Mac → List ℕ → Bool
is_from_node_loop zero addresses eh = false
is_from_node_loop (suc n) [] eh = false
is_from_node_loop (suc n) (a ∷ rest) eh =
    let later = is_from_node_loop n rest eh in
    if shost_is eh a && dhost_is eh rf_mac then true else later

unfoldable pub is_from_node : List ℕ → Bool
unfolding is_from_node_loop setup_node_address
is_from_node eh = is_from_node_loop n_node setup_node_address eh

-- Every round tests the first address, `vlc_addresses[0]`.
unfoldable pub is_vlc_tx_address_loop : ℕ → Mac → List ℕ → Bool
is_vlc_tx_address_loop zero first eh = false
is_vlc_tx_address_loop (suc n) first eh =
    let later = is_vlc_tx_address_loop n first eh in
    if shost_is eh first && dhost_is eh my_mac then true else later

unfoldable pub is_vlc_tx_address : List ℕ → Bool
unfolding is_vlc_tx_address_loop
is_vlc_tx_address eh = is_vlc_tx_address_loop n_vlc (mac 0xb0 0xd5 0xcc 0xfc 0xfe 0x85) eh
