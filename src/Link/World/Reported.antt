-- ===== src/Link/World/Reported.antt =====
-- What the gateway knows after a report of the node, whatever came or did not come before it.
use ciot_vlc.Base.{
  ℕ, zero, suc, ◌+◌, ◌≤◌, ◌<◌, ◌≡◌, refl, true, some, List, [], ◌∷◌, ◌++◌, arith, length,
  Bool-cases, inl, inr, ltb, ltb→lt, get_elem?,
}
use ciot_vlc.Doubles.{Doubles}
use ciot_vlc.Gateway.Send.{rf_mac}
use ciot_vlc.Gateway.Step.{Interfaces}
use ciot_vlc.Gateway.Flow.{numbers}
use ciot_vlc.Node.Track.{mem}
use ciot_vlc.Link.Acks.{reported, receive_report-send_report}
use ciot_vlc.Link.World.{World, initial_world, node_report, report_delivery, step_world, Runs}
use ciot_vlc.Link.World.Status.{Tracks-IsStatus, Includes, Includes-of_mem}
use ciot_vlc.Link.World.Invariant.{IsWorld, initial-IsWorld}
use ciot_vlc.Link.World.Safety.{Runs-IsWorld, ack_bound}

get_elem?-end : (l : List (List ℕ)) (x : List ℕ) → get_elem? (l ++ x ∷ []) (length l) ≡ some x
get_elem?-end [] x = refl
get_elem?-end (y ∷ l) x = get_elem?-end l x

pub mem-Includes : (n : ℕ) (l : List ℕ) → Includes n l → (j : ℕ) → j < n → mem j l ≡ true
mem-Includes zero l v j h = absurd (omega (arith, h))
mem-Includes (suc n) l v j h = elim (Bool-cases (ltb j n)) [
  | inl below ↦ mem-Includes n l v.0 j (ltb→lt j n below)
  | inr last ↦ let same : j ≡ n = ground (arith, h, last) in rw same v.1
]

module _ (F : Doubles) (i : Interfaces) (own : i.rf_if_mac ≡ rf_mac) where
  open F use {D}

  -- A node that processed all that was generated acknowledges all of it.
  pub acknowledges_all :
      (w : World D)
      → IsWorld i.ether_type w
      → ((j : ℕ) → j < w.gateway.arr_seq → mem j (numbers w.node.processed) ≡ true)
      → w.node.status.rcv_seq ≡ w.gateway.arr_seq
  acknowledges_all w v got = elim (Bool-cases (ltb w.node.status.rcv_seq w.gateway.arr_seq)) [
    | inl behind ↦
        let lt = ltb→lt w.node.status.rcv_seq w.gateway.arr_seq behind in
        let missed = got w.node.status.rcv_seq lt in absurd (ground (arith, v.node.tracks.first))
    | inr all ↦ let le = ack_bound w v in ground arith
  ]

  -- The world after a report that arrives.
  abbrev pub informed : ℕ → List ℕ → World D → World D
  informed quality frame w = record w {
    gateway = reported F quality w.node.status w.gateway;
    reports = w.reports ++ frame ∷ [];
  }

  -- A report, and its delivery.
  pub report_steps :
      (quality numbytes : ℕ) (stale : List ℕ) (w : World D)
      → IsWorld i.ether_type w
      → 0 < w.node.status.rcv_seq
      → w.node.status.last_rcv_seq + 1 ≤ w.node.status.rcv_seq + 7984
      → 0 < numbytes
      → (frame : List ℕ) × (step_world F i (node_report quality) w
          ≡ some (record w { reports = w.reports ++ frame ∷ [] }))
        × (step_world F i
              (report_delivery (length w.reports) numbytes stale)
              (record w { reports = w.reports ++ frame ∷ [] })
            ≡ some (informed quality frame w))
  unfolding step_world
  report_steps quality numbytes stale w v first fits some_bytes =
      let (frame, made, ran) =
        receive_report-send_report F i.ether_type quality numbytes w.node.status stale w.gateway
          (omega arith) (Tracks-IsStatus (omega (arith, v.few)) v.node.tracks) fits first
          some_bytes in
      (frame, rw made refl, rw (get_elem?-end w.reports frame, ran) refl)

  -- From any world that allowed steps (as for `Runs-acknowledged`) reach from the start, with the
  -- address that the node expects, whatever the air lost, delayed or repeated before: where the node
  -- has packet 0 and its window is at most 7984, a report and its delivery, with at least one byte
  -- read, do not fault, and after them the gateway's window begins at the node's ACK number; and it
  -- begins at the number of packets generated exactly where the node has processed all of those.
  pub Runs-reported :
      (zero_error : D) {w : World D} (quality numbytes : ℕ) (stale : List ℕ)
      → Runs F i (initial_world zero_error) w
      → 0 < w.node.status.rcv_seq
      → w.node.status.last_rcv_seq + 1 ≤ w.node.status.rcv_seq + 7984
      → 0 < numbytes
      → (w1 : World D) × (step_world F i (node_report quality) w ≡ some w1)
        × (w2 : World D) × (step_world F i (report_delivery (length w.reports) numbytes stale) w1
            ≡ some w2)
        × (w2.gateway.unacked_seq ≡ w.node.status.rcv_seq)
        × (w2.gateway.unacked_seq ≡ w.gateway.arr_seq
            → Includes w.gateway.arr_seq (numbers w.node.processed))
        × (Includes w.gateway.arr_seq (numbers w.node.processed)
            → w2.gateway.unacked_seq ≡ w.gateway.arr_seq)
  Runs-reported zero_error {w} quality numbytes stale runs first fits some_bytes =
      let v = Runs-IsWorld F i own runs (initial-IsWorld i.ether_type zero_error) in
      let (frame, made, read) = report_steps quality numbytes stale w v first fits some_bytes in
      (
        record w { reports = w.reports ++ frame ∷ [] },
        made,
        informed quality frame w,
        read,
        refl,
        λ all.
            Includes-of_mem w.gateway.arr_seq (numbers w.node.processed)
              (λ j h. v.node.tracks.below j (omega (arith, all, h))),
        λ all. acknowledges_all w v (mem-Includes w.gateway.arr_seq (numbers w.node.processed) all),
      )
