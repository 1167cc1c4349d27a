-- ===== src/Node/Cleanup.antt =====
-- What `cleanup_module` of the node's driver gives back.
pub mod Unload
use ciot_vlc.Base.{
  ℕ, ◌+◌, ◌≤◌, ◌<◌, ◌≡◌, refl, ◌∙◌, Bool, true, false, Option, none, some, List, [], ◌∷◌, ◌++◌,
  ◌&&◌, ◌==◌, if◌then◌else◌, length, replicate, take, drop, le16, le32, arith, Bool-cases, inl, inr,
  le→leb, length-append, length-take, length-drop,
}
use ciot_vlc.Pru.{put_at}
use ciot_vlc.VlcTx.Packets.{kmalloc, kfree}
use ciot_vlc.VlcTx.Cleanup.{is, count, kfree-some, vlc_teardown_pool-frees, is_self}
use ciot_vlc.VlcTx.Init.{enomem}
use ciot_vlc.Node.Init.{
  Calls, Module, Cleaned, Loaded, vlc_setup_pool, unloaded, vlc_init, init_rs_error_packet,
  cleanup_module, out, start_thread, init_module, unload,
}

-- How often the answer of one `kmalloc` allocates an address.
abbrev got : ℕ → ℕ → ℕ
got pkt a = if pkt == 0 then 0 else is pkt a

count-kmalloc : (pkt a : ℕ) (live : List ℕ) → count a (kmalloc pkt live) ≡ got pkt a + count a live
unfolding kmalloc
count-kmalloc pkt a live = ground arith

-- What is allocated: the two packets of `vlc_init`, those of the pool, and `base`.
pub record Holds (base : ℕ → ℕ) (m : Module) : Type 0 where
  live : (a : ℕ) → count a m.live ≡ got m.rx_pkt a + got m.rs_error_pkt a + count a m.ppool + base a
  no_null : count 0 m.ppool ≡ 0
  device : m.vlc_devs ≡ true

vlc_setup_pool-Holds :
    {base : ℕ → ℕ} (pkts : List ℕ) (m : Module) → Holds base m → Holds base (vlc_setup_pool pkts m)
unfolding vlc_setup_pool
vlc_setup_pool-Holds [] m v = v
vlc_setup_pool-Holds (pkt ∷ pkts) m v = elim (Bool-cases (pkt == 0)) [
  | inl null ↦ rw null v
  | inr there ↦ rw there (
      vlc_setup_pool-Holds pkts (record m { live = kmalloc pkt m.live; ppool = pkt ∷ m.ppool })
        (record {
          live = λ a. ground (arith, count-kmalloc pkt a m.live, v.live a);
          no_null = ground (arith, v.no_null);
          device = v.device;
        }))
]

pub vlc_init-Holds : (c : Calls) (live : List ℕ) → Holds (λ a. count a live) (vlc_init c live)
unfolding vlc_init
vlc_init-Holds c live = vlc_setup_pool-Holds c.pool _ (record {
  live = λ a. omega (
    arith,
    count-kmalloc c.rs_error_pkt a (kmalloc c.rx_pkt live),
    count-kmalloc c.rx_pkt a live,
  );
  no_null = refl;
  device = refl;
})

kfree_null : (pkt : ℕ) (live : List ℕ) → pkt ≡ 0 → kfree pkt live ≡ some live
unfolding kfree
kfree_null pkt [] z = ground (arith, z)
kfree_null pkt (p ∷ live) z = ground (arith, z)

-- One of the two packets is freed, if it is not NULL.
kfree-got :
    (pkt : ℕ) (live : List ℕ) (rest : ℕ → ℕ)
    → ((a : ℕ) → count a live ≡ got pkt a + rest a)
    → (live' : List ℕ) × (kfree pkt live ≡ some live') × ((a : ℕ) → count a live' ≡ rest a)
unfolding kfree
kfree-got pkt live rest h = elim (Bool-cases (pkt == 0)) [
  | inl null ↦ (live, kfree_null pkt live (ground arith), λ a. ground (arith, h a))
  | inr there ↦
      let pos : 0 < pkt = ground arith in
      let (live', e, c) = kfree-some pkt live pos (ground (arith, h pkt, is_self pkt)) in
      (live', e, λ a. ground (arith, h a, c a))
]

-- All is given back: what is left is what was allocated before.
pub record Returns (base : ℕ → ℕ) (m : Module) : Type 0 where
  pub cleaned : Cleaned
  pub done : cleanup_module m ≡ some cleaned
  pub left : (a : ℕ) → count a cleaned.live ≡ base a
  pub thread : cleaned.thread_ran ≡ m.task_phy_decoding

pub cleanup_module-Returns : {base : ℕ → ℕ} (m : Module) → Holds base m → Returns base m
unfolding cleanup_module
cleanup_module-Returns {base} m v =
    let (live1, e1, c1) =
      vlc_teardown_pool-frees m.ppool m.live (λ a. got m.rx_pkt a + (got m.rs_error_pkt a + base a))
        v.no_null (λ a. omega (arith, v.live a)) in
    let (live2, e2, c2) = kfree-got m.rx_pkt live1 (λ a. got m.rs_error_pkt a + base a) c1 in
    let (live3, e3, c3) = kfree-got m.rs_error_pkt live2 base c2 in
    record {
      cleaned = record { live = live3; thread_ran = m.task_phy_decoding };
      done = rw (v.device, e1, e2, e3) refl;
      left = c3;
      thread = refl;
    }
