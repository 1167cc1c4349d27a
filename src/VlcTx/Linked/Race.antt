-- ===== src/VlcTx/Linked/Race.antt =====
-- `flag_lock` is 0 unless it is set when the module is loaded, so that a tick of the timer may come
-- between the two halves of `vlc_enqueue_pkt`.
use ciot_vlc.Base.{ℕ, false, none, some, List, ◌&&◌, if◌then◌else◌}
use ciot_vlc.VlcTx.Linked.{write, Linked, is_null}
use ciot_vlc.VlcTx.Linked.Chain.{packet, Chain}
use ciot_vlc.VlcTx.Linked.Represents.{Represents}

-- The linked packets after a tick took the only packet that waits.
abbrev taken : ℕ → ℕ → List ℕ → Linked → Linked
taken a j x s = record s {
  ppool = some a;
  tx_queue = none;
  stopped = if s.stopped && is_null s.ppool then false else s.stopped;
  heap = write s.heap a (packet s.ppool j x);
}
