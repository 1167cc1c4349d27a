-- ===== src/Node/Cleanup/Unload.antt =====
-- The node's driver from `init_module` to its removal.
use ciot_vlc.Base.{
  ℕ, ◌+◌, ◌≤◌, ◌<◌, ◌≡◌, refl, ◌∙◌, Bool, true, false, Option, none, some, List, [], ◌∷◌, ◌++◌,
  ◌&&◌, ◌==◌, length, replicate, take, drop, le16, le32, arith, Bool-cases, inl, inr, le→leb,
  length-append, length-take, length-drop,
}
use ciot_vlc.Pru.{put_at}
use ciot_vlc.VlcTx.Packets.{kmalloc}
use ciot_vlc.VlcTx.Cleanup.{count}
use ciot_vlc.VlcTx.Init.{enomem}
use ciot_vlc.Node.Init.{
  Calls, Module, Cleaned, Loaded, vlc_setup_pool, unloaded, vlc_init, init_rs_error_packet,
  cleanup_module, out, start_thread, init_module, unload,
}
use ciot_vlc.Node.Cleanup.{Holds, vlc_init-Holds, Returns, cleanup_module-Returns}

-- What removing the module gives.
pub record Unloads (base : ℕ → ℕ) (ran : Bool) (l : Loaded) : Type 0 where
  pub cleaned : Cleaned
  pub done : unload l ≡ some cleaned
  pub left : (a : ℕ) → count a cleaned.live ≡ base a
  pub thread : cleaned.thread_ran ≡ ran

out-Unloads :
    {base : ℕ → ℕ} (ret : ℕ) (m : Module) (error_packet : Option (List ℕ))
    → Returns base m
    → (l : Loaded) × (out ret m error_packet ≡ some l) × Unloads base m.task_phy_decoding l
unfolding out unload
out-Unloads ret m error_packet r = elim (Bool-cases (ret == 0)) [
  | inl fine ↦ (
    record { ret = ret; module_state = m; cleaned = none; error_packet = error_packet },
    rw fine refl,
    record { cleaned = r.cleaned; done = r.done; left = r.left; thread = r.thread },
  )
  | inr failed ↦ (
    record { ret = ret; module_state = m; cleaned = some r.cleaned; error_packet = error_packet },
    rw (failed, r.done) refl,
    record { cleaned = r.cleaned; done = refl; left = r.left; thread = r.thread },
  )
]

put_at-some :
    (l : List ℕ) (i : ℕ) (bytes : List ℕ)
    → i + length bytes ≤ length l
    → (l' : List ℕ) × (put_at l i bytes ≡ some l') × (length l' ≡ length l)
put_at-some l i bytes h = (
  take i l ++ bytes ++ drop (i + length bytes) l,
  rw (le→leb (i + length bytes) (length l) h) refl,
  omega (
    arith,
    length-append {0} (take i l ++ bytes) (drop (i + length bytes) l),
    length-append {0} (take i l) bytes,
    length-take {0} i l,
    length-drop {0} (i + length bytes) l,
  ),
)

init_rs_error_packet_fills :
    (pkt : ℕ) (old : List ℕ)
    → 0 < pkt
    → 84 ≤ length old
    → (filled : List ℕ) × (init_rs_error_packet pkt old ≡ some filled)
unfolding init_rs_error_packet
init_rs_error_packet_fills pkt old pos size =
    let not_null : (pkt == 0) ≡ false = ground arith in
    let (p1, e1, l1) = put_at-some old 0 (le16 74) (omega arith) in
    let (p2, e2, l2) = put_at-some p1 2 (le16 98) (omega (arith, l1)) in
    let (p3, e3, l3) = put_at-some p2 4 (le16 1) (omega (arith, l1, l2)) in
    let (p4, e4, l4) = put_at-some p3 6 (le32 100) (omega (arith, l1, l2, l3)) in
    let (p5, e5, l5) = put_at-some p4 10 (replicate 74 0xca) (omega (arith, l1, l2, l3, l4)) in
    (p5, rw (not_null, e1, e2, e3, e4) e5)

-- The receiving thread runs after these answers.
abbrev pub starts_thread : Calls → Bool
starts_thread c = c.alloc_netdev && c.ioremap && c.init_rs && (c.kthread_run == 0)

rs_error_pkt-vlc_setup_pool :
    (pkts : List ℕ) (m : Module) → (vlc_setup_pool pkts m).rs_error_pkt ≡ m.rs_error_pkt
unfolding vlc_setup_pool
rs_error_pkt-vlc_setup_pool [] m = refl
rs_error_pkt-vlc_setup_pool (pkt ∷ pkts) m =
    let later =
      rs_error_pkt-vlc_setup_pool pkts
        (record m { live = kmalloc pkt m.live; ppool = pkt ∷ m.ppool }) in
    ground (arith, later)

-- The same of the thread, which no allocation starts.
task-vlc_setup_pool :
    (pkts : List ℕ) (m : Module) → (vlc_setup_pool pkts m).task_phy_decoding ≡ m.task_phy_decoding
unfolding vlc_setup_pool
task-vlc_setup_pool [] m = refl
task-vlc_setup_pool (pkt ∷ pkts) m =
    let later =
      task-vlc_setup_pool pkts (record m { live = kmalloc pkt m.live; ppool = pkt ∷ m.ppool }) in
    ground (arith, later)

-- The allocations are those of the variables; the flags for the memory, the decoder and the thread
-- do not count.
Holds-flags :
    {base : ℕ → ℕ} (m : Module) (pru0 rs_decoder task : Bool)
    → Holds base m
    → Holds base (record m { pru0 = pru0; rs_decoder = rs_decoder; task_phy_decoding = task })
Holds-flags m pru0 rs_decoder task v = record {
  live = v.live;
  no_null = v.no_null;
  device = v.device;
}

start_thread-Unloads :
    {base : ℕ → ℕ} (c : Calls) (m : Module) (old : List ℕ)
    → Holds base m
    → 0 < m.rs_error_pkt
    → 84 ≤ length old
    → m.task_phy_decoding ≡ false
    → (l : Loaded) × (start_thread c m old ≡ some l)
      × Unloads base (c.init_rs && (c.kthread_run == 0)) l
unfolding start_thread
start_thread-Unloads c m old v there size idle = elim (Bool-cases c.init_rs) [
  | inr no_decoder ↦
      let (l, e, u) = out-Unloads enomem m none (cleanup_module-Returns m v) in
      (l, rw no_decoder e, rw (no_decoder, ← idle) u)
  | inl decoder ↦
      let (filled, wrote) = init_rs_error_packet_fills m.rs_error_pkt old there size in
      elim (Bool-cases (c.kthread_run == 0)) [
        | inl runs ↦
            let m1 : Module = record m { rs_decoder = true; task_phy_decoding = true } in
            let (l, e, u) =
              out-Unloads c.register_netdev m1 (some filled)
                (cleanup_module-Returns m1 (Holds-flags m m.pru0 true true v)) in
            (l, rw (decoder, wrote, runs) e, rw (decoder, runs) u)
        | inr failed ↦
            let m1 : Module = record m { rs_decoder = true } in
            let (l, e, u) =
              out-Unloads c.kthread_run m1 (some filled)
                (cleanup_module-Returns m1 (Holds-flags m m.pru0 true m.task_phy_decoding v)) in
            (l, rw (decoder, wrote, failed) e, rw (decoder, failed, ← idle) u)
      ]
]

vlc_init_lem :
    (c : Calls) (live : List ℕ)
    → ((vlc_init c live).rs_error_pkt ≡ c.rs_error_pkt)
      × ((vlc_init c live).task_phy_decoding ≡ false)
unfolding vlc_init
vlc_init_lem c live = (rs_error_pkt-vlc_setup_pool c.pool _, task-vlc_setup_pool c.pool _)

unloaded-Returns : (live : List ℕ) → Returns (λ a. count a live) (unloaded live)
unfolding cleanup_module
unloaded-Returns live = record {
  cleaned = record { live = live; thread_ran = false };
  done = refl;
  left = λ a. refl;
  thread = refl;
}

init_module-Unloads :
    (c : Calls) (live old : List ℕ)
    → 0 < c.rs_error_pkt
    → 84 ≤ length old
    → (l : Loaded) × (init_module c live old ≡ some l)
      × Unloads (λ a. count a live) (starts_thread c) l
unfolding init_module
init_module-Unloads c live old there size =
    let (error, idle) = vlc_init_lem c live in
    let v = vlc_init-Holds c live in
    elim (Bool-cases c.alloc_netdev) [
      | inr no_device ↦
          let (l, e, u) = out-Unloads 0 (unloaded live) none (unloaded-Returns live) in
          (l, rw no_device e, rw no_device u)
      | inl device ↦ elim (Bool-cases c.ioremap) [
        | inr unmapped ↦
            let (l, e, u) =
              out-Unloads c.register_netdev (vlc_init c live) none
                (cleanup_module-Returns (vlc_init c live) v) in
            let made : init_module c live old ≡ out c.register_netdev (vlc_init c live) none =
              simp (device, unmapped) in
            let flags : false ≡ starts_thread c = simp (device, unmapped) in
            (l, made ∙ e, rw flags at (rw idle at u))
        | inl mapped ↦
            let m : Module = record (vlc_init c live) { pru0 = true } in
            let (l, e, u) =
              start_thread-Unloads c m old
                (Holds-flags (vlc_init c live) true m.rs_decoder m.task_phy_decoding v)
                (rw error there) size idle in
            let made : init_module c live old ≡ start_thread c m old = simp (device, mapped) in
            let flags : (c.init_rs && (c.kthread_run == 0)) ≡ starts_thread c =
              simp (device, mapped) in
            (l, made ∙ e, rw flags at u)
      ]
    ]

-- Whatever the calls of the kernel answer, also where `kmalloc` or a step of the setup fails, as long
-- as `rs_error_pkt` is not NULL and its array has the 84 bytes of the packet: `init_module` does not
-- fault, and once the module is removed, by `cleanup_module` or by `init_module` itself, every
-- address is as often allocated as before, so each packet is freed exactly once. Where the receiving
-- thread was started, it still ran while all this was given back.
pub unload-init_module :
    (c : Calls) (live old : List ℕ)
    → 0 < c.rs_error_pkt
    → 84 ≤ length old
    → (l : Loaded) × (init_module c live old ≡ some l)
      × (cleaned : Cleaned) × (unload l ≡ some cleaned)
      × ((a : ℕ) → count a cleaned.live ≡ count a live)
      × (cleaned.thread_ran ≡ starts_thread c)
unload-init_module c live old there size =
    let (l, e, u) = init_module-Unloads c live old there size in
    (l, e, u.cleaned, u.done, u.left, u.thread)
