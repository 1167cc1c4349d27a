-- ===== src/Link/Netif.antt =====
-- From the node's driver to its program: `mac_rx`, and `receive_vlc` on what the raw socket gives.
use ciot_vlc.Base.{
  ℕ, ◌+◌, ◌*◌, ◌/◌, ◌%◌, ◌≤◌, ◌<◌, ◌≡◌, refl, ap, ◌∙◌, some, List, [], ◌++◌, leb, if◌then◌else◌,
  length, arith,
}
use ciot_vlc.Packet.{Packet, IsPacket}
use ciot_vlc.Device.{SkBuffs, AreBuffers, vlc_hdr, vlc_type_trans}
use ciot_vlc.Node.NetRx.{Stats, counted, mac_rx}
use ciot_vlc.Node.Receive.{Receiver, receive_vlc}
use ciot_vlc.Link.Vlc.{vlc_head}
use ciot_vlc.Link.Receive.{with_vlc, use_vlc_self, receive_vlc-frame}

-- The bytes of a packet as the light carries it.
abbrev pub light_bytes : Packet → List ℕ
light_bytes p = vlc_head p ++ p.payload

-- What the driver takes for the type of the frame: the VLC id, its bytes swapped, or the default.
abbrev pub protocol_of : Packet → ℕ
protocol_of p =
    let type : ℕ = p.vlc_id % 256 * 256 + p.vlc_id / 256 % 256 in if leb 1536 type then type else 1

module _ (S : SkBuffs) (b : AreBuffers S) where
  -- A packet for the node, of 1 to 100 payload bytes, whose fields fit their types, as its driver
  -- decoded it, with an empty buffer from `dev_alloc_skb`: `mac_rx` does not fault, it gives the
  -- network stack a buffer whose bytes from the MAC header on are exactly the packet's, with the VLC
  -- id, its bytes swapped, for the protocol if that is at least 1536, and else 1, and counts it as
  -- sent; and `receive_vlc` on these bytes, whatever its buffer held behind them, queues and counts
  -- the packet.
  pub receive_vlc-mac_rx :
      (p : Packet) (skb : S.Skb) (stale : List ℕ) (stats : Stats) (vlc_bytes : ℕ) (n : Receiver)
      → IsPacket p
      → p.node_id ≡ 1
      → 0 < p.payload_len
      → p.payload_len ≤ 100
      → S.data_bytes skb ≡ []
      → 0 < vlc_bytes
      → (skb' : S.Skb) × (mac_rx S (some skb) (light_bytes p) stats
          ≡ some (some (skb', protocol_of p), counted (p.payload_len + 10) stats))
        × (S.mac_bytes skb' ≡ light_bytes p)
        × (receive_vlc vlc_bytes (S.mac_bytes skb' ++ stale) n ≡ some (with_vlc p n))
  unfolding mac_rx vlc_type_trans vlc_hdr
  receive_vlc-mac_rx p skb stale stats vlc_bytes n v own pos few empty got =
      let s1 = S.put (light_bytes p) (S.skb_reserve 2 skb) in
      let s2 = S.skb_reset_mac_header s1 in
      let held : S.data_bytes s1 ≡ light_bytes p =
        b.appended (light_bytes p) (S.skb_reserve 2 skb) ∙ rw (b.reserved 2 skb empty) refl in
      let head : S.mac_bytes (S.skb_pull 6 s2) ≡ light_bytes p =
        b.pull_mac 6 s2 ∙ b.reset_mac s1 ∙ held in
      let read : vlc_hdr (S.mac_bytes (S.skb_pull 6 s2)) ≡ vlc_hdr (light_bytes p) =
        ap (λ l. vlc_hdr l) head in
      let size : length (light_bytes p) ≡ p.payload_len + 10 = omega (arith, v.bytes) in
      (
        S.skb_pull 6 s2,
        rw (read, size) refl,
        head,
        rw head (receive_vlc-frame p stale vlc_bytes n v pos few got ∙ use_vlc_self p n own),
      )
