-- ===== src/Node/Init.antt =====
-- `vlc_init`, `init_module` and `cleanup_module` of `node (rf)_ourvlc/ourvlc-1.c`. What the calls of
-- the kernel give is an argument, and an `int` is its 32-bit pattern; a packet is its address, and 0
-- is NULL. `none` is a NULL dereference, a write past an array, or a `kfree` of what is not
-- allocated. The entry in the proc file system is left out.
use ciot_vlc.Base.{
  ℕ, Bool, true, false, Option, none, some, List, [], ◌∷◌, ◌>>=◌, ◌==◌, if◌then◌else◌, replicate,
  le16, le32,
}
use ciot_vlc.Pru.{put_at}
use ciot_vlc.VlcTx.Packets.{kmalloc, kfree, vlc_teardown_pool}
use ciot_vlc.VlcTx.Init.{enomem}

-- What `alloc_netdev`, `register_netdev`, `ioremap`, `init_rs` and `kthread_run` give: `true` is not
-- NULL, and the thread's answer is 0 or its error. Then the answers of `kmalloc` for `rx_pkt`,
-- `rs_error_pkt` and the rounds of `vlc_setup_pool`.
pub record Calls : Type 0 where
  pub alloc_netdev : Bool
  pub register_netdev : ℕ
  pub ioremap : Bool
  pub init_rs : Bool
  pub kthread_run : ℕ
  pub rx_pkt : ℕ
  pub rs_error_pkt : ℕ
  pub pool : List ℕ

-- The module's variables, as far as they tell what it holds: whether `vlc_devs`, `pru0`, `rs_decoder`
-- and `task_phy_decoding` are not NULL. `live` has the addresses that are allocated.
pub record Module : Type 0 where
  pub live : List ℕ
  pub ppool : List ℕ
  pub rx_pkt : ℕ
  pub rs_error_pkt : ℕ
  pub vlc_devs : Bool
  pub pru0 : Bool
  pub rs_decoder : Bool
  pub task_phy_decoding : Bool

-- What is allocated after `cleanup_module`, and whether the receiving thread still ran while the
-- packets, the PRU's memory and the decoder were given back.
pub record Cleaned : Type 0 where
  pub live : List ℕ
  pub thread_ran : Bool

-- What `init_module` returns, what it leaves, what `cleanup_module` left if it has called it, and the
-- array of `rs_error_pkt` if it was filled.
pub record Loaded : Type 0 where
  pub ret : ℕ
  pub module_state : Module
  pub cleaned : Option Cleaned
  pub error_packet : Option (List ℕ)

-- `pool_size` rounds, one for each answer; the loop ends at the first NULL.
unfoldable pub vlc_setup_pool : List ℕ → Module → Module
vlc_setup_pool [] m = m
vlc_setup_pool (pkt ∷ pkts) m =
    let rest =
      vlc_setup_pool pkts (record m { live = kmalloc pkt m.live; ppool = pkt ∷ m.ppool }) in
    if pkt == 0 then m else rest

-- The state before `init_module`.
abbrev pub unloaded : List ℕ → Module
unloaded live = record {
  live = live;
  ppool = [];
  rx_pkt = 0;
  rs_error_pkt = 0;
  vlc_devs = false;
  pru0 = false;
  rs_decoder = false;
  task_phy_decoding = false;
}

-- `alloc_netdev` calls `vlc_init` before it returns the device.
unfoldable pub vlc_init : Calls → List ℕ → Module
vlc_init c live = vlc_setup_pool c.pool (record (unloaded live) {
  live = kmalloc c.rs_error_pkt (kmalloc c.rx_pkt live);
  rx_pkt = c.rx_pkt;
  rs_error_pkt = c.rs_error_pkt;
  vlc_devs = true;
})

-- `old` is the array of `rs_error_pkt`; the packet has 74 bytes of payload, and 84 in all.
unfoldable pub init_rs_error_packet : ℕ → List ℕ → Option (List ℕ)
init_rs_error_packet rs_error_pkt old = if rs_error_pkt == 0 then none else do
  pkt ← put_at old 0 (le16 74)
  pkt ← put_at pkt 2 (le16 98)
  pkt ← put_at pkt 4 (le16 1)
  pkt ← put_at pkt 6 (le32 100)
  put_at pkt 10 (replicate 74 0xca)

-- The packets, the device, the memory and the decoder are given back, and then the thread is stopped.
unfoldable pub cleanup_module : Module → Option Cleaned
cleanup_module m =
    if m.vlc_devs
    then (do
      live ← vlc_teardown_pool m.ppool m.live
      live ← kfree m.rx_pkt live
      live ← kfree m.rs_error_pkt live
      some (record { live = live; thread_ran = m.task_phy_decoding }))
    else some (record { live = m.live; thread_ran = m.task_phy_decoding })

-- From the label `out` on.
unfoldable pub out : ℕ → Module → Option (List ℕ) → Option Loaded
out ret m error_packet =
    if ret == 0
    then some (record { ret = ret; module_state = m; cleaned = none; error_packet = error_packet })
    else (do
      cleaned ← cleanup_module m
      some (record {
        ret = ret;
        module_state = m;
        cleaned = some cleaned;
        error_packet = error_packet;
      }))

-- From `init_rs` on, with the answer of `register_netdev` in `ret`.
unfoldable pub start_thread : Calls → Module → List ℕ → Option Loaded
start_thread c m old =
    if c.init_rs
    then (do
      error_packet ← init_rs_error_packet m.rs_error_pkt old
      (if c.kthread_run == 0
          then out c.register_netdev (record m { rs_decoder = true; task_phy_decoding = true })
              (some error_packet)
          else out c.kthread_run (record m { rs_decoder = true }) (some error_packet)))
    else out enomem m none

-- `live` has what is allocated before, and `old` is the array of `rs_error_pkt`.
unfoldable pub init_module : Calls → List ℕ → List ℕ → Option Loaded
init_module c live old =
    if c.alloc_netdev
    then (if c.ioremap
        then start_thread c (record (vlc_init c live) { pru0 = true }) old
        else out c.register_netdev (vlc_init c live) none)
    else out 0 (unloaded live) none

-- Removing the module again: a module that `init_module` refused was cleaned up at once.
unfoldable pub unload : Loaded → Option Cleaned
unload l = elim l.cleaned [ none ↦ cleanup_module l.module_state | some cleaned ↦ some cleaned ]
