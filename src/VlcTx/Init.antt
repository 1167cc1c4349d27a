-- ===== src/VlcTx/Init.antt =====
-- `init_module` of `VLC TX1 (Eth)_ourvlc/ourvlc-1.c`. What the calls of the kernel give is an
-- argument, and an `int` is its 32-bit pattern. The entry in the proc file system is optional there.
use ciot_vlc.Base.{
  ◌>>=◌, ℕ, ◌-◌, ◌^◌, Bool, true, false, Option, none, some, List, [], ◌==◌, if◌then◌else◌,
}
use ciot_vlc.Pru.{Memory, writew}
use ciot_vlc.VlcTx.Pool.{Driver}
use ciot_vlc.VlcTx.Quality.{init_vlc_quality_packet}

-- What `alloc_netdev`, `register_netdev`, `ioremap`, `init_rs`, `rtdm_timer_init` and
-- `rtdm_timer_start` give; `true` is not NULL.
pub record Calls : Type 0 where
  pub alloc_netdev : Bool
  pub register_netdev : ℕ
  pub ioremap : Bool
  pub init_rs : Bool
  pub rtdm_timer_init : ℕ
  pub rtdm_timer_start : ℕ

-- What `init_module` returns, whether it has called `cleanup_module`, the driver, if its memory was
-- set up, and whether the timer runs.
pub record Loaded : Type 0 where
  pub ret : ℕ
  pub cleaned : Bool
  pub driver : Option Driver
  pub timer_runs : Bool

-- `-ENOMEM`.
abbrev pub enomem : ℕ
enomem = 2 ^ 32 - 12

-- From the label `out` on.
unfoldable pub out : ℕ → Option Driver → Loaded
out ret d = record {
  ret = ret;
  cleaned = if ret == 0 then false else true;
  driver = d;
  timer_runs = false;
}

-- From `rtdm_timer_init` on: an error of the timer is returned at once.
unfoldable pub start_timer : Calls → Driver → Loaded
start_timer c d =
    let failed : ℕ → Loaded =
      λ ret. record { ret = ret; cleaned = false; driver = some d; timer_runs = false } in
    if c.rtdm_timer_init == 0
    then (if c.rtdm_timer_start == 0
        then record { ret = 0; cleaned = false; driver = some d; timer_runs = true }
        else failed c.rtdm_timer_start)
    else failed c.rtdm_timer_init

-- What `vlc_init`, `writel` of 0x00040004 and `init_vlc_quality_packet` leave: `free` packets in the
-- pool, both indices 4, and the dummy packet.
unfoldable pub set_up : ℕ → Memory → List ℕ → Driver
set_up free pru0 vlc_q_pkt = record {
  ppool = free;
  tx_queue = [];
  stopped = false;
  is_write_next = true;
  write_idx = 4;
  pru0 = writew (writew pru0 0 4) 2 4;
  vlc_q_pkt = vlc_q_pkt;
}

-- `old` is the array of `vlc_q_pkt`, `pru` the PRU's memory before; `none` is a write past that array.
unfoldable pub init_module : Calls → ℕ → Memory → List ℕ → Option Loaded
unfolding out start_timer set_up
init_module c free pru old =
    if c.alloc_netdev
    then (if c.ioremap
        then (do
          vlc_q_pkt ← init_vlc_quality_packet old
          some (
              if c.init_rs
              then start_timer c (set_up free pru vlc_q_pkt)
              else out enomem (some (set_up free pru vlc_q_pkt))))
        else some (out c.register_netdev none))
    else some (out 0 none)
