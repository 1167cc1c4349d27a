-- ===== src/VlcTx/Cleanup.antt =====
-- What `cleanup_module` of `VLC TX1 (Eth)_ourvlc/ourvlc-1.c` frees.
pub mod Runs
use ciot_vlc.Base.{
  ℕ, zero, suc, ◌+◌, ◌≤◌, ◌<◌, ◌≡◌, refl, sym, ap, ◌∙◌, Bool, true, false, Option, none, some, List,
  [], ◌∷◌, ◌++◌, ◌>>=◌, ◌==◌, if◌then◌else◌, length, arith, Bool-cases, inl, inr, bind_some,
}
use ciot_vlc.VlcTx.Packets.{
  Packets, kmalloc, kfree, vlc_setup_pool, vlc_init, enqueue, send_first, PacketEvent, vlc_tx_call,
  timer_tick, move, moves, vlc_teardown_pool, release_all, cleanup_module,
}

-- 1 for the address itself.
abbrev pub is : ℕ → ℕ → ℕ
is p a = if p == a then 1 else 0

-- How often an address is in a list.
abbrev pub count : ℕ → List ℕ → ℕ
count a [] = 0
count a (p ∷ l) = is p a + count a l

pub kfree-some :
    (pkt : ℕ) (live : List ℕ)
    → 0 < pkt
    → 0 < count pkt live
    → (rest : List ℕ) × (kfree pkt live ≡ some rest)
      × ((a : ℕ) → count a live ≡ is pkt a + count a rest)
unfolding kfree
kfree-some pkt [] pos h = absurd (omega (arith, h))
kfree-some pkt (p ∷ live) pos h =
    let not_null : (pkt == 0) ≡ false = ground arith in
    elim (Bool-cases (pkt == p)) [
      | inl same ↦ (live, rw (not_null, same) refl, λ a. ground arith)
      | inr other ↦
          let (rest, e, c) = kfree-some pkt live pos (ground arith) in
          (p ∷ rest, rw (not_null, other, e) refl, λ a. omega (arith, c a))
    ]

kfree-none : (pkt : ℕ) (live : List ℕ) → 0 < pkt → count pkt live ≡ 0 → kfree pkt live ≡ none
unfolding kfree
kfree-none pkt [] pos h = ground arith
kfree-none pkt (p ∷ live) pos h =
    let not_null : (pkt == 0) ≡ false = ground arith in
    let other : (pkt == p) ≡ false = ground arith in
    rw (not_null, other, kfree-none pkt live pos (ground arith)) refl

pub is_self : (p : ℕ) → is p p ≡ 1
is_self p = ground arith

pub count-append : (a : ℕ) (l m : List ℕ) → count a (l ++ m) ≡ count a l + count a m
count-append a [] m = omega arith
count-append a (p ∷ l) m = omega (arith, count-append a l m)

-- All of the list is freed, and the rest is left.
pub vlc_teardown_pool-frees :
    (l live : List ℕ) (rest : ℕ → ℕ)
    → count 0 l ≡ 0
    → ((a : ℕ) → count a live ≡ count a l + rest a)
    → (live' : List ℕ) × (vlc_teardown_pool l live ≡ some live')
      × ((a : ℕ) → count a live' ≡ rest a)
unfolding vlc_teardown_pool
vlc_teardown_pool-frees [] live rest null h = (live, refl, λ a. omega (arith, h a))
vlc_teardown_pool-frees (p ∷ l) live rest null h =
    let pos : 0 < p = ground (arith, null) in
    let (live1, e1, c1) = kfree-some p live pos (omega (arith, h p, is_self p)) in
    let (live2, e2, c2) =
      vlc_teardown_pool-frees l live1 rest (omega (arith, null)) (λ a. omega (arith, h a, c1 a)) in
    (live2, rw e1 e2, c2)

count-release_all : (a : ℕ) (l m : List ℕ) → count a (release_all l m) ≡ count a m + count a l
unfolding release_all
count-release_all a [] m = omega arith
count-release_all a (p ∷ l) m = omega (arith, count-release_all a l (p ∷ m))

-- What is allocated: the two packets of `vlc_init`, those of the pool, free or queued, and `base`;
-- no address twice, and no NULL.
pub record Owned (tx q : ℕ) (base : ℕ → ℕ) (m : Packets) : Type 0 where
  pub live :
      (a : ℕ) → count a m.live ≡ is tx a + is q a + (count a m.ppool + count a m.tx_queue) + base a
  pub once : (a : ℕ) → count a m.live ≤ 1
  pub no_null : count 0 m.live ≡ 0
  pub q_pkt : m.vlc_q_pkt ≡ q

-- How often a packet is in the pool, free or queued.
abbrev pub pooled : ℕ → Packets → ℕ
pooled a m = count a m.ppool + count a m.tx_queue

-- The packet that was sent last is one of the pool's.
abbrev pub WasSent : Packets → Type 0
WasSent m = 0 < pooled m.tx_pkt m

module _ {tx q : ℕ} {base : ℕ → ℕ} where
  torn_down :
      (m : Packets)
      → Owned tx q base m
      → (live : List ℕ) × (vlc_teardown_pool (release_all m.tx_queue m.ppool) m.live ≡ some live)
        × ((a : ℕ) → count a live ≡ is tx a + is q a + base a)
  torn_down m v =
      vlc_teardown_pool-frees (release_all m.tx_queue m.ppool) m.live
        (λ a. is tx a + is q a + base a)
        (omega (arith, count-release_all 0 m.tx_queue m.ppool, v.live 0, v.no_null))
        (λ a. omega (arith, count-release_all a m.tx_queue m.ppool, v.live a))

  pub cleanup_module-frees :
      (m : Packets)
      → Owned tx q base m
      → m.tx_pkt ≡ tx
      → (live : List ℕ) × (cleanup_module m ≡ some live) × ((a : ℕ) → count a live ≡ base a)
  unfolding cleanup_module
  cleanup_module-frees m v own =
      let (live1, e1, c1) = torn_down m v in
      let tx_pos : 0 < tx = ground (arith, v.no_null, v.live 0) in
      let q_pos : 0 < q = ground (arith, v.no_null, v.live 0) in
      let (live2, e2, c2) = kfree-some tx live1 tx_pos (omega (arith, c1 tx, is_self tx)) in
      let (live3, e3, c3) = kfree-some q live2 q_pos (omega (arith, c1 q, c2 q, is_self q)) in
      (live3, rw (e1, own, e2, v.q_pkt) e3, λ a. omega (arith, c1 a, c2 a, c3 a))

  pub cleanup_module-faults :
      (m : Packets) → Owned tx q base m → WasSent m → cleanup_module m ≡ none
  unfolding cleanup_module
  cleanup_module-faults m v sent =
      let (live1, e1, c1) = torn_down m v in
      let p : ℕ = m.tx_pkt in
      let pos : 0 < p = elim (Bool-cases (p == 0)) [
        | inl null ↦
            let zero_pkt : p ≡ 0 = ground (arith, null) in
            let at_0 : 0 < pooled 0 m = rw zero_pkt at sent in
            absurd (omega (arith, at_0, v.live 0, v.no_null))
        | inr other ↦ ground (arith, other)
      ] in
      rw (e1, kfree-none p live1 pos (omega (arith, c1 p, v.live p, v.once p, sent))) refl

-- What a move leaves as it was.
pub record Moved (m m' : Packets) : Type 0 where
  pub live : m'.live ≡ m.live
  pub q_pkt : m'.vlc_q_pkt ≡ m.vlc_q_pkt
  pub pool : (a : ℕ) → pooled a m' ≡ pooled a m
  pub sent : WasSent m → WasSent m'

enqueue-Moved : (l : List ℕ) (m m' : Packets) → m.ppool ≡ l → enqueue l m ≡ some m' → Moved m m'
unfolding enqueue
enqueue-Moved [] m m' e r = absurd (ground (arith, r))
enqueue-Moved (p ∷ l) m m' e r =
    let h : Packets = record m { ppool = l; tx_queue = m.tx_queue ++ p ∷ [] } in
    let same : m' ≡ h = cc in
    let kept : (a : ℕ) → pooled a h ≡ pooled a m =
      λ a. rw e (omega (arith, count-append a m.tx_queue (p ∷ []))) in
    rw same (record {
      live = refl;
      q_pkt = refl;
      pool = kept;
      sent = λ w. omega (arith, w, kept m.tx_pkt);
    })

send_first-Moved : (l : List ℕ) (m : Packets) → m.tx_queue ≡ l → Moved m (send_first l m)
unfolding send_first
send_first-Moved [] m e = record { live = refl; q_pkt = refl; pool = λ a. refl; sent = λ h. h }
send_first-Moved (p ∷ l) m e = record {
  live = refl;
  q_pkt = refl;
  pool = λ a. rw e (omega arith);
  sent = λ h. omega (arith, is_self p);
}

pub move-Moved : (event : PacketEvent) (m m' : Packets) → move event m ≡ some m' → Moved m m'
unfolding move
move-Moved vlc_tx_call m m' r = enqueue-Moved m.ppool m m' refl r
move-Moved timer_tick m m' r =
    let same : m' ≡ send_first m.tx_queue m = cc in rw same (send_first-Moved m.tx_queue m refl)

module _ {tx q : ℕ} {base : ℕ → ℕ} where
  pub moves-Owned :
      (events : List PacketEvent) (m m' : Packets)
      → Owned tx q base m
      → moves events m ≡ some m'
      → Owned tx q base m'
  unfolding moves
  moves-Owned [] m m' v r = let same : m' ≡ m = cc in rw same v
  moves-Owned (event ∷ events) m m' v r =
      let (m1, e1, r1) = bind_some (move event m) _ r in
      let k = move-Moved event m m1 e1 in
      moves-Owned events m1 m'
        (record {
          live = λ a. rw k.live (omega (arith, v.live a, k.pool a));
          once = λ a. rw k.live (v.once a);
          no_null = rw k.live v.no_null;
          q_pkt = k.q_pkt ∙ v.q_pkt;
        })
        r1

pub moves-WasSent :
    (events : List PacketEvent) (m m' : Packets) → WasSent m → moves events m ≡ some m' → WasSent m'
unfolding moves
moves-WasSent [] m m' w r = let same : m' ≡ m = cc in rw same w
moves-WasSent (event ∷ events) m m' w r =
    let (m1, e1, r1) = bind_some (move event m) _ r in
    moves-WasSent events m1 m' ((move-Moved event m m1 e1).sent w) r1
