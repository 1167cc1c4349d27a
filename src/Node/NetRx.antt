-- ===== src/Node/NetRx.antt =====
-- `mac_rx` of `node (rf)_ourvlc/ourvlc-1.c`: a packet from the light becomes a socket buffer for the
-- network stack.
use ciot_vlc.Base.{ℕ, ◌+◌, ◌%◌, ◌^◌, Option, none, some, List, ◌>>=◌, length}
use ciot_vlc.Device.{SkBuffs, vlc_type_trans}

-- The counters of `struct net_device_stats` that the driver touches, `unsigned long`s of 32 bits.
pub record Stats : Type 0 where
  pub rx_dropped : ℕ
  pub tx_packets : ℕ
  pub tx_bytes : ℕ

-- The counters after a packet went up: they are those of sent packets.
abbrev pub counted : ℕ → Stats → Stats
counted datalen stats = record stats {
  tx_packets = (stats.tx_packets + 1) % 2 ^ 32;
  tx_bytes = (stats.tx_bytes + datalen) % 2 ^ 32;
}

-- `answer` is what `dev_alloc_skb` gave, and `pkt_data` the packet's `datalen` bytes. The result has what
-- `netif_rx` is given, the buffer and its protocol, if it is called.
unfoldable pub mac_rx :
    (S : SkBuffs) → Option S.Skb → List ℕ → Stats → Option (Option (S.Skb × ℕ) × Stats)
mac_rx S none pkt_data stats =
    some (none, record stats { rx_dropped = (stats.rx_dropped + 1) % 2 ^ 32 })
mac_rx S (some skb) pkt_data stats = do
  (protocol, skb') ← vlc_type_trans S (S.put pkt_data (S.skb_reserve 2 skb))
  some (some (skb', protocol), counted (length pkt_data) stats)
