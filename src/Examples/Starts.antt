-- ===== src/Examples/Starts.antt =====
-- The transmitter's driver starts.
use ciot_vlc.Base.{ℕ, ◌≡◌, refl, true, some, List, ◌++◌, replicate, arith}
use ciot_vlc.Pru.{memcpy_fromio}
use ciot_vlc.VlcTx.Pool.{Driver, phy_timer_handler}
use ciot_vlc.VlcTx.Init.{Calls, Loaded, init_module}
use ciot_vlc.Link.Light.{dummy_bytes}
use ciot_vlc.Link.Start.{IsStarted, init_module-IsStarted}
use ciot_vlc.Examples.Drivers.{checksum, compare_checksum, cleared}

-- The registration fails, and all else succeeds.
abbrev calls : Calls
calls = record {
  alloc_netdev = true;
  register_netdev = 7;
  ioremap = true;
  init_rs = true;
  rtdm_timer_init = 0;
  rtdm_timer_start = 0;
}

abbrev old : List ℕ
old = replicate 2010 0

init_module-IsStarted_example :
    (l : Loaded) × (init_module calls 2 cleared old ≡ some l)
    × (l.ret ≡ 0)
    × (l.timer_runs ≡ true)
    × (d : Driver) × (l.driver ≡ some d)
    × IsStarted 2 d
    × (d' : Driver) × (phy_timer_handler checksum d ≡ some d')
    × (memcpy_fromio d'.pru0 4 100 ≡ dummy_bytes ++ checksum dummy_bytes)
init_module-IsStarted_example =
    init_module-IsStarted checksum compare_checksum calls 2 cleared old refl refl refl refl refl
      refl (omega arith) refl
