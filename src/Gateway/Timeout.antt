-- ===== src/Gateway/Timeout.antt =====
-- A round of `check_unacked` of `gateway (eth)_gateway/main.c`.
use ciot_vlc.Base.{
  ℕ, zero, suc, ◌+◌, ◌-◌, ◌^◌, ◌≤◌, ◌<◌, ◌≡◌, refl, ◌∙◌, Bool, true, false, ◌&&◌, ◌||◌, some, List,
  [], ◌∷◌, ◌++◌, ◌==◌, leb, if◌then◌else◌, length, get_elem?, arith, Bool-cases, inl, inr,
  length-append, append_assoc, lt→ltb, lt→leb, leb→le,
}
use mathlib.Core.List.{Perm}
use mathlib.Core.List.Perm
use ciot_vlc.Packet.{Packet}
use ciot_vlc.Queue.Fifo
use ciot_vlc.Gateway.State.{Gateway, max_seq_number, vlc_unacked, rf, store}
use ciot_vlc.Gateway.Produce.{find_unacked, check_one, check_from, check_unacked}
use ciot_vlc.Gateway.Unacked.{found, absent, present, search, Removed, remove}

module _ {D : Type 0} (now : ℕ) where
  -- Packet `j` waits for an acknowledgement that is late, and is there to be sent again.
  abbrev pub is_due : ℕ → Gateway D → Bool
  is_due j g =
      ((g.pkt_state j == vlc_unacked) && leb (g.expire_time j) now) && found j g.unacked_vlc_packet

  -- One of `n` packets from `from` on.
  abbrev pub any_due : ℕ → ℕ → Gateway D → Bool
  any_due zero from g = false
  any_due (suc n) from g = is_due from g || any_due n (suc from) g

  -- What the loop keeps: the packets waiting for RF and those unacknowledged, together; `r` counts
  -- what it adds to the RF queue; and no packet becomes due.
  record Resent (g g' : Gateway D) : Type 0 where
    same :
        Perm (g'.rf_queue.items ++ g'.unacked_vlc_packet) (g.rf_queue.items ++ g.unacked_vlc_packet)
    counted : g'.r + length g.rf_queue.items ≡ g.r + length g'.rf_queue.items
    total :
        length g'.rf_queue.items + length g'.unacked_vlc_packet
        ≡ length g.rf_queue.items + length g.unacked_vlc_packet
    limit : g'.rf_queue.limit ≡ g.rf_queue.limit
    settled : (j : ℕ) → is_due j g ≡ false → is_due j g' ≡ false

  -- Together they fit in the RF queue.
  abbrev HasRoom : Gateway D → Type 0
  HasRoom g = length g.rf_queue.items + length g.unacked_vlc_packet ≤ g.rf_queue.limit

  unchanged : (g : Gateway D) → Resent g g
  unchanged g = record {
    same = Perm.refl (g.rf_queue.items ++ g.unacked_vlc_packet);
    counted = refl;
    total = refl;
    limit = refl;
    settled = λ j e. e;
  }

  Resent-trans : {g h k : Gateway D} → Resent g h → Resent h k → Resent g k
  Resent-trans a b = record {
    same = Perm.trans b.same a.same;
    counted = omega (arith, a.counted, b.counted);
    total = b.total ∙ a.total;
    limit = b.limit ∙ a.limit;
    settled = λ j e. b.settled j (a.settled j e);
  }

  -- The state after packet `x`, number `j`, went to the RF queue and left the array `a'`.
  abbrev after : ℕ → Packet → List Packet → Gateway D → Gateway D
  after j x a' g = record g {
    rf_queue = record g.rf_queue { items = g.rf_queue.items ++ x ∷ [] };
    pkt_state = λ i. if j == i then rf else g.pkt_state i;
    r = g.r + 1;
    unacked_vlc_packet = a';
  }

  after-Resent :
      (j l : ℕ) (x : Packet) (a' : List Packet) (g : Gateway D)
      → Removed g.unacked_vlc_packet l x a'
      → Resent g (after j x a' g)
  after-Resent j l x a' g v = record {
    same =
        rw (append_assoc g.rf_queue.items (x ∷ []) a') (Perm.append_left g.rf_queue.items v.same);
    counted = omega (arith, length-append {0} g.rf_queue.items (x ∷ []));
    total = omega (arith, length-append {0} g.rf_queue.items (x ∷ []), v.fewer);
    limit = refl;
    settled = λ i e. elim (Bool-cases (j == i)) [
      | inl sent ↦ rw sent refl
      | inr other ↦ elim (Bool-cases (found i g.unacked_vlc_packet)) [
        | inl there ↦ ground (arith, e, there, other)
        | inr not_there ↦ ground (arith, v.absent i not_there)
      ]
    ];
  }

  resend :
      (j l : ℕ) (x : Packet) (g : Gateway D)
      → j < max_seq_number
      → HasRoom g
      → ((g.pkt_state j == vlc_unacked) && leb (g.expire_time j) now) ≡ true
      → find_unacked j g.unacked_vlc_packet ≡ some l
      → l < length g.unacked_vlc_packet
      → get_elem? g.unacked_vlc_packet l ≡ some x
      → (g' : Gateway D) × (check_one now j g ≡ some g') × Resent g g' × (is_due j g' ≡ false)
  unfolding check_one Fifo.push store
  resend j l x g h room late e in_range at_l =
      let (a', v) = remove g.unacked_vlc_packet l x in_range at_l in
      let space =
        lt→leb g.rf_queue.limit (length g.rf_queue.items) (omega (arith, room, in_range)) in
      let self : (j == j) ≡ true = ground arith in
      let inside : leb max_seq_number j ≡ false = ground (arith, h) in
      (
        after j x a' g,
        rw (inside, late, e, at_l, lt→ltb j max_seq_number h, v.gives, space) refl,
        after-Resent j l x a' g v,
        rw self refl,
      )

  check_one-Resent :
      (j : ℕ) (g : Gateway D)
      → j < max_seq_number
      → HasRoom g
      → (g' : Gateway D) × (check_one now j g ≡ some g') × Resent g g' × (is_due j g' ≡ false)
  unfolding check_one
  check_one-Resent j g h room =
      let inside : leb max_seq_number j ≡ false = ground (arith, h) in
      elim (Bool-cases ((g.pkt_state j == vlc_unacked) && leb (g.expire_time j) now)) [
        | inr early ↦ (g, rw (inside, early) refl, unchanged g, rw early refl)
        | inl late ↦ elim (search j g.unacked_vlc_packet) [
          | absent e f ↦ (g, rw (inside, late, e) refl, unchanged g, rw (f, late) refl)
          | present l x e in_range at_l ↦ resend j l x g h room late e in_range at_l
        ]
      ]

  check_from-Resent :
      (n from : ℕ) (g : Gateway D)
      → from + n ≤ max_seq_number
      → HasRoom g
      → (g' : Gateway D) × (check_from n from now g ≡ some g')
        × Resent g g'
        × (any_due n from g' ≡ false)
  unfolding check_from
  check_from-Resent zero from g h room = (g, refl, unchanged g, refl)
  check_from-Resent (suc n) from g h room =
      let (g1, e1, s1, d1) = check_one-Resent from g (omega arith) room in
      let (g2, e2, s2, d2) =
        check_from-Resent n (suc from) g1 (omega arith) (omega (arith, s1.total, s1.limit)) in
      (g2, rw e1 e2, Resent-trans s1 s2, rw (s2.settled from d1, d2) refl)

  -- Where the numbers scheduled so far are below `MAX_SEQ_NUMBER`, `unacked_seq` is not negative (its
  -- pattern is below 2 ^ 31), and the packets that wait for RF and those unacknowledged fit in the RF queue together: a round of `check_unacked` does not fault,
  -- loses and duplicates none of these packets (each is in the RF queue or unacknowledged
  -- afterwards, as often as before), adds to `r` as many as it adds to the RF queue, and afterwards
  -- no packet of the window has an acknowledgement that is late and is still to be sent again.
  pub check_unacked-Perm :
      (g : Gateway D)
      → g.unsched_seq ≤ max_seq_number
      → g.unacked_seq < 2 ^ 31
      → length g.rf_queue.items + length g.unacked_vlc_packet ≤ g.rf_queue.limit
      → (g' : Gateway D) × (check_unacked now g ≡ some g')
        × Perm
            (g'.rf_queue.items ++ g'.unacked_vlc_packet)
            (g.rf_queue.items ++ g.unacked_vlc_packet)
        × (g'.r + length g.rf_queue.items ≡ g.r + length g'.rf_queue.items)
        × (any_due (g.unsched_seq - g.unacked_seq) g.unacked_seq g' ≡ false)
  unfolding check_unacked check_from
  check_unacked-Perm g few positive room =
      let begins : leb (2 ^ 31) g.unacked_seq ≡ false = ground (arith, positive) in
      elim (Bool-cases (leb g.unacked_seq g.unsched_seq)) [
        | inl ordered ↦
            let (g', e, s, d) =
              check_from-Resent (g.unsched_seq - g.unacked_seq) g.unacked_seq g
                (omega (arith, leb→le g.unacked_seq g.unsched_seq ordered)) room in
            (g', rw begins e, s.same, s.counted, d)
        | inr empty ↦
            let nothing : g.unsched_seq - g.unacked_seq ≡ 0 = ground (arith, empty) in
            (
              g,
              rw (begins, nothing) refl,
              Perm.refl (g.rf_queue.items ++ g.unacked_vlc_packet),
              refl,
              rw nothing refl,
            )
      ]
