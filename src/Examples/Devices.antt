-- ===== src/Examples/Devices.antt =====
-- The network device of the drivers, with socket buffers that are lists of bytes.
use ciot_vlc.Base.{
  ℕ, zero, suc, ◌-◌, ◌≡◌, refl, true, false, none, some, List, [], ◌∷◌, ◌++◌, length, drop,
  replicate, arith, length-append, length-replicate,
}
use ciot_vlc.Device.{
  SkBuffs, AreBuffers, Address, NetDevice, hdr_bytes, put_addresses, vlc_header, vlc_type_trans,
}
use ciot_vlc.Device.Headers.{header_of, vlc_type_trans-vlc_header}
use ciot_vlc.VlcTx.Cleanup.{count}
use ciot_vlc.Node.NetRx.{Stats, counted, mac_rx}
use ciot_vlc.Node.Receive.{initial_receiver, receive_vlc}
use ciot_vlc.Node.Init.{Calls, Cleaned, Loaded, init_module, unload}
use ciot_vlc.Node.Cleanup.Unload.{unload-init_module}
use ciot_vlc.Link.Receive.{with_vlc}
use ciot_vlc.Link.Netif.{light_bytes, protocol_of, receive_vlc-mac_rx}
use ciot_vlc.Examples.Data.{sample, sample-IsPacket}

-- The room in front, what begins at the MAC header, and the data.
record Buffer : Type 0 where
  room : ℕ
  head : List ℕ
  body : List ℕ

abbrev lists : SkBuffs
lists = record {
  Skb = Buffer;
  data_bytes = λ s. s.body;
  mac_bytes = λ s. s.head;
  headroom = λ s. s.room;
  skb_reserve = λ n s. s;
  put = λ bytes s. record s { body = s.body ++ bytes };
  skb_reset_mac_header = λ s. record s { head = s.body };
  skb_pull = λ n s. record s { body = drop n s.body };
  skb_push = λ n s. record s { room = s.room - n; body = replicate n 0 ++ s.body };
  overwrite = λ bytes s. record s { body = bytes ++ drop (length bytes) s.body };
}

drop-replicate : (n : ℕ) (l : List ℕ) → drop n (replicate n 0 ++ l) ≡ l
drop-replicate zero l = refl
drop-replicate (suc n) l = drop-replicate n l

lists-AreBuffers : AreBuffers lists
lists-AreBuffers = record {
  reserved = λ n s e. e;
  appended = λ bytes s. refl;
  reset_mac = λ s. refl;
  reset_data = λ s. refl;
  pulled = λ n s h. refl;
  pull_mac = λ n s. refl;
  pushed = λ n s h. drop-replicate n s.body;
  push_length = λ n s h.
      omega (arith, length-append {0} (replicate n 0) s.body, length-replicate {A = ℕ} n 0);
  overwritten = λ bytes s h. refl;
}

abbrev device : NetDevice
device = record {
  dev_addr = 0 ∷ 2 ∷ 0 ∷ 0 ∷ [];
  addr_len = 2;
  hard_header_len = 6;
  mtu = 100;
  tx_queue_len = 100;
  up = false;
  base_addr = 0;
  irq = 0;
  queue_started = true;
}

abbrev skb : Buffer
skb = record { room = 6; head = []; body = 7 ∷ 8 ∷ 9 ∷ [] }

abbrev peer : Address
peer = record { high = 0; low = 5 }

abbrev own : Address
own = record { high = 0; low = 2 }

vlc_type_trans-vlc_header_example :
    (s : Buffer) × (vlc_header lists device 2048 (some (0 ∷ 5 ∷ [])) none skb ≡ some (6, s))
    × (skb' : Buffer) × (vlc_type_trans lists s ≡ some (2048, skb'))
    × (skb'.body ≡ 7 ∷ 8 ∷ 9 ∷ [])
    × (skb'.head ≡ hdr_bytes (header_of 2048 peer own) ++ 7 ∷ 8 ∷ 9 ∷ [])
vlc_type_trans-vlc_header_example =
    vlc_type_trans-vlc_header lists lists-AreBuffers device 2048 (some (0 ∷ 5 ∷ [])) none peer own
      skb refl (record { rest = []; same = refl }) (record { rest = 0 ∷ 0 ∷ []; same = refl })
      (omega arith) (omega arith)

-- With a hardware address of 6 bytes, the copies go over the type.
header_of_six :
    vlc_header lists
      (record device { addr_len = 6 })
      2048
      (some (1 ∷ 2 ∷ 3 ∷ 4 ∷ 5 ∷ 6 ∷ []))
      (some (1 ∷ 2 ∷ 3 ∷ 4 ∷ 5 ∷ 6 ∷ []))
      skb
    ≡ some (6, record { room = 0; head = []; body = 1 ∷ 3 ∷ 3 ∷ 4 ∷ 5 ∷ 6 ∷ 5 ∷ 6 ∷ 9 ∷ [] })
unfolding vlc_header put_addresses
header_of_six = refl

abbrev no_stats : Stats
no_stats = record { rx_dropped = 0; tx_packets = 0; tx_bytes = 0 }

abbrev empty_skb : Buffer
empty_skb = record { room = 0; head = []; body = [] }

receive_vlc-mac_rx_example :
    (skb' : Buffer) × (mac_rx lists (some empty_skb) (light_bytes sample) no_stats
      ≡ some (some (skb', protocol_of sample), counted 12 no_stats))
    × (skb'.head ≡ light_bytes sample)
    × (receive_vlc 12 (skb'.head ++ 9 ∷ []) initial_receiver
        ≡ some (with_vlc sample initial_receiver))
receive_vlc-mac_rx_example =
    receive_vlc-mac_rx lists lists-AreBuffers sample empty_skb (9 ∷ []) no_stats 12 initial_receiver
      sample-IsPacket refl (omega arith) (omega arith) refl (omega arith)

-- The second round of the pool gets no memory.
abbrev calls : Calls
calls = record {
  alloc_netdev = true;
  register_netdev = 0;
  ioremap = true;
  init_rs = true;
  kthread_run = 0;
  rx_pkt = 10;
  rs_error_pkt = 20;
  pool = 30 ∷ 0 ∷ 40 ∷ [];
}

unload-init_module_example :
    (l : Loaded) × (init_module calls (5 ∷ []) (replicate 2010 0) ≡ some l)
    × (cleaned : Cleaned) × (unload l ≡ some cleaned)
    × ((a : ℕ) → count a cleaned.live ≡ count a (5 ∷ []))
    × (cleaned.thread_ran ≡ true)
unload-init_module_example =
    unload-init_module calls (5 ∷ []) (replicate 2010 0) (omega arith) (omega arith)
