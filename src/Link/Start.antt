-- ===== src/Link/Start.antt =====
-- The transmitter's driver from `init_module` to the first tick of its timer.
use ciot_vlc.Base.{
  ℕ, ◌<◌, ◌≡◌, refl, ◌∙◌, true, false, ◌&&◌, ◌||◌, not, none, some, List, ◌++◌, ◌==◌, length, take,
  drop, arith, length-take, length-drop, take-drop, Bool-cases, and_true, inl, inr,
}
use ciot_vlc.Pru.{Memory, readw, memcpy_fromio}
use ciot_vlc.VlcTx.Driver.{write_packet_to_pru_memory}
use ciot_vlc.VlcTx.Pool.{Driver, write_next, publish, phy_timer_handler, IsDriver}
use ciot_vlc.VlcTx.Init.{Calls, Loaded, out, start_timer, set_up, enomem, init_module}
use ciot_vlc.Link.Driver.{write_packet_to_pru_memory-frame}
use ciot_vlc.Link.Light.{dummy_bytes, init_vlc_quality_packet_lem}
use ciot_vlc.Link.Path.{IsIdle, publish-bytes}

-- A driver whose module is loaded: the invariant, nothing queued, and indices at the start.
pub record IsStarted (free : ℕ) (d : Driver) : Type 0 where
  pub driver : IsDriver free d
  pub idle : IsIdle d
  pub write_index : readw d.pru0 0 ≡ 4
  pub read_index : readw d.pru0 2 ≡ 4

-- An error of the timer is returned.
start_timer-zero :
    (c : Calls) (d : Driver)
    → (((start_timer c d).ret == 0) && not (start_timer c d).timer_runs) ≡ false
unfolding start_timer
start_timer-zero c d = elim (Bool-cases (c.rtdm_timer_init == 0)) [
  | inr bad_init ↦ rw (bad_init, bad_init) refl
  | inl good_init ↦ elim (Bool-cases (c.rtdm_timer_start == 0)) [
    | inl good ↦ rw (good_init, good) refl
    | inr bad ↦ rw (good_init, bad, bad) refl
  ]
]

-- For every answer of the kernel's calls, `init_module` does not fault, with an array of 2010 bytes;
-- and it returns 0 with no timer running exactly where `alloc_netdev` fails, or `ioremap` fails and
-- the registration did not.
pub init_module-zero :
    (c : Calls) (free : ℕ) (pru : Memory) (old : List ℕ)
    → length old ≡ 2010
    → (l : Loaded) × (init_module c free pru old ≡ some l)
      × (((l.ret == 0) && not l.timer_runs)
          ≡ (not c.alloc_netdev || (not c.ioremap && (c.register_netdev == 0))))
unfolding init_module out start_timer
init_module-zero c free pru old size = elim (Bool-cases c.alloc_netdev) [
  | inr no_device ↦ (out 0 none, rw no_device refl, rw no_device refl)
  | inl device ↦ elim (Bool-cases c.ioremap) [
    | inr no_memory ↦ (
      out c.register_netdev none,
      rw (device, no_memory) refl,
      rw (device, no_memory) (and_true (c.register_netdev == 0)),
    )
    | inl memory ↦
        let packet = init_vlc_quality_packet_lem old size in
        let d : Driver = set_up free pru (dummy_bytes ++ drop 84 old) in
        elim (Bool-cases c.init_rs) [
          | inl decoder ↦ (
            start_timer c d,
            rw (device, memory, packet, decoder) refl,
            rw (device, memory) (start_timer-zero c d),
          )
          | inr no_decoder ↦ (
            out enomem (some d),
            rw (device, memory, packet, no_decoder) refl,
            rw (device, memory) refl,
          )
        ]
  ]
]

module _ (encode_rs8 : List ℕ → List ℕ) (decode_rs8 : List ℕ → List ℕ → List ℕ × ℕ) where
  first_tick :
      (free : ℕ) (pru : Memory) (old : List ℕ)
      → length old ≡ 2010
      → length (encode_rs8 dummy_bytes) ≡ 16
      → (d' : Driver) × (phy_timer_handler encode_rs8 (set_up free pru (dummy_bytes ++ drop 84 old))
          ≡ some d')
        × (memcpy_fromio d'.pru0 4 100 ≡ dummy_bytes ++ encode_rs8 dummy_bytes)
  unfolding phy_timer_handler write_next set_up
  first_tick free pru old size parity =
      let q : List ℕ = drop 84 old in
      let d : Driver = set_up free pru (dummy_bytes ++ q) in
      let gap : length (take 16 q) ≡ 16 =
        omega (arith, length-take {0} 16 q, length-drop {0} 84 old, size) in
      let (pru1, wrote, bytes) =
        write_packet_to_pru_memory-frame encode_rs8 decode_rs8 74 0 (drop 2 dummy_bytes) (take 16 q)
          (drop 16 q) 4 d.pru0 refl (omega arith) gap parity (omega arith) in
      let whole : write_packet_to_pru_memory encode_rs8 (dummy_bytes ++ q) 4 d.pru0
          ≡ some (pru1, 104) =
        rw (take-drop 16 q) at wrote in
      let d1 : Driver = record d { pru0 = pru1; write_idx = 104; is_write_next = false } in
      (
        publish encode_rs8 d1,
        rw whole refl,
        publish-bytes encode_rs8 decode_rs8 d1 4 100 (omega arith) ∙ bytes,
      )

  -- Where `alloc_netdev`, `ioremap` and `init_rs` succeed and both calls of the timer give 0, with an
  -- array of 2010 bytes, a free packet and a parity of 16 bytes for the dummy packet: `init_module`
  -- returns 0, whatever `register_netdev` gave, with the timer running; the driver has all its
  -- packets free, none queued, and both indices at 4; and the first tick puts the dummy packet with
  -- its parity in the PRU's memory there.
  pub init_module-IsStarted :
      (c : Calls) (free : ℕ) (pru : Memory) (old : List ℕ)
      → c.alloc_netdev ≡ true
      → c.ioremap ≡ true
      → c.init_rs ≡ true
      → c.rtdm_timer_init ≡ 0
      → c.rtdm_timer_start ≡ 0
      → length old ≡ 2010
      → 0 < free
      → length (encode_rs8 dummy_bytes) ≡ 16
      → (l : Loaded) × (init_module c free pru old ≡ some l)
        × (l.ret ≡ 0)
        × (l.timer_runs ≡ true)
        × (d : Driver) × (l.driver ≡ some d)
        × IsStarted free d
        × (d' : Driver) × (phy_timer_handler encode_rs8 d ≡ some d')
        × (memcpy_fromio d'.pru0 4 100 ≡ dummy_bytes ++ encode_rs8 dummy_bytes)
  unfolding init_module start_timer set_up
  init_module-IsStarted c free pru old device memory decoder timer starts size some_free parity =
      let d : Driver = set_up free pru (dummy_bytes ++ drop 84 old) in
      let (d', ticks, bytes) = first_tick free pru old size parity in
      (
        record { ret = 0; cleaned = false; driver = some d; timer_runs = true },
        rw (device, memory, init_vlc_quality_packet_lem old size, decoder, timer, starts) refl,
        refl,
        refl,
        d,
        refl,
        record {
          driver = record { packets = omega arith; flow = ground arith };
          idle = record { free = some_free; queue = refl; writes = refl };
          write_index = refl;
          read_index = refl;
        },
        d',
        ticks,
        bytes,
      )
