-- ===== src/Device.antt =====
-- The network device of the two drivers: what both `VLC TX1 (Eth)_ourvlc/ourvlc-1.c` and
-- `node (rf)_ourvlc/ourvlc-1.c` say of its configuration and of a frame's header. The socket buffers
-- of the kernel are an interface; an `int` is its 32-bit pattern, and a `__be16` stands for the
-- number that its two bytes spell, the high one first.
pub mod Headers
use ciot_vlc.Base.{
  ℕ, zero, suc, get_elem?, ◌+◌, ◌-◌, ◌*◌, ◌/◌, ◌%◌, ◌^◌, ◌≤◌, ◌≡◌, Bool, true, false, not, Option,
  none, some, List, [], ◌∷◌, ◌++◌, ◌>>=◌, ◌==◌, leb, if◌then◌else◌, length, take, drop,
}

-- Socket buffers: `data_bytes` is what `skb->data` up to the tail holds, `mac_bytes` what begins at the
-- MAC header, and `headroom` the number of bytes in front of the data. `put` is `memcpy(skb_put(skb, n), bytes, n)`, and `overwrite` a write at `skb->data`.
pub record SkBuffs : Type 1 where
  pub Skb : Type 0
  pub data_bytes : Skb → List ℕ
  pub mac_bytes : Skb → List ℕ
  pub headroom : Skb → ℕ
  pub skb_reserve : ℕ → Skb → Skb
  pub put : List ℕ → Skb → Skb
  pub skb_reset_mac_header : Skb → Skb
  pub skb_pull : ℕ → Skb → Skb
  pub skb_push : ℕ → Skb → Skb
  pub overwrite : List ℕ → Skb → Skb

-- What the kernel's documentation says of them, where `skb_pull` takes bytes that are there,
-- `skb_push` has room in front of the data, and a write stays within the data.
pub record AreBuffers (S : SkBuffs) : Type 0 where
  pub reserved : (n : ℕ) (s : S.Skb) → S.data_bytes s ≡ [] → S.data_bytes (S.skb_reserve n s) ≡ []
  pub appended :
      (bytes : List ℕ) (s : S.Skb) → S.data_bytes (S.put bytes s) ≡ S.data_bytes s ++ bytes
  pub reset_mac : (s : S.Skb) → S.mac_bytes (S.skb_reset_mac_header s) ≡ S.data_bytes s
  pub reset_data : (s : S.Skb) → S.data_bytes (S.skb_reset_mac_header s) ≡ S.data_bytes s
  pub pulled :
      (n : ℕ) (s : S.Skb)
      → n ≤ length (S.data_bytes s)
      → S.data_bytes (S.skb_pull n s) ≡ drop n (S.data_bytes s)
  pub pull_mac : (n : ℕ) (s : S.Skb) → S.mac_bytes (S.skb_pull n s) ≡ S.mac_bytes s
  pub pushed :
      (n : ℕ) (s : S.Skb)
      → n ≤ S.headroom s
      → drop n (S.data_bytes (S.skb_push n s)) ≡ S.data_bytes s
  pub push_length :
      (n : ℕ) (s : S.Skb)
      → n ≤ S.headroom s
      → length (S.data_bytes (S.skb_push n s)) ≡ n + length (S.data_bytes s)
  pub overwritten :
      (bytes : List ℕ) (s : S.Skb)
      → length bytes ≤ length (S.data_bytes s)
      → S.data_bytes (S.overwrite bytes s) ≡ bytes ++ drop (length bytes) (S.data_bytes s)

-- A hardware address of `MAC_ADDR_LEN` bytes.
pub record Address : Type 0 where
  pub high : ℕ
  pub low : ℕ

-- `struct vlchdr`.
pub record VlcHdr : Type 0 where
  pub h_dest : Address
  pub h_source : Address
  pub h_proto : ℕ

-- `VLC_HLEN`, and `VLC_P_DEFAULT`.
abbrev pub vlc_hlen : ℕ
vlc_hlen = 6

abbrev pub vlc_p_default : ℕ
vlc_p_default = 1

-- The fields of `struct net_device` that the drivers set or read; `dev_addr` is the bytes of the
-- address and what follows them, and `up` the flag `IFF_UP`.
pub record NetDevice : Type 0 where
  pub dev_addr : List ℕ
  pub addr_len : ℕ
  pub hard_header_len : ℕ
  pub mtu : ℕ
  pub tx_queue_len : ℕ
  pub up : Bool
  pub base_addr : ℕ
  pub irq : ℕ
  pub queue_started : Bool

-- The fields of `struct ifmap` that `vlc_config` reads.
pub record IfMap : Type 0 where
  pub base_addr : ℕ
  pub irq : ℕ

-- The module's `mtu` is 100.
unfoldable pub vlc_setup : NetDevice → NetDevice
vlc_setup dev = record dev { hard_header_len = vlc_hlen; mtu = 100; tx_queue_len = 100 }

-- The part of `vlc_init` before its allocations.
unfoldable pub init_device : NetDevice → NetDevice
unfolding vlc_setup
init_device dev = vlc_setup (record dev { addr_len = 2 })

unfoldable pub vlc_open : NetDevice → NetDevice
vlc_open dev = record dev { dev_addr = 0 ∷ 2 ∷ drop 2 dev.dev_addr; queue_started = true }

-- `-EBUSY` and `-EOPNOTSUPP`.
abbrev pub ebusy : ℕ
ebusy = 2 ^ 32 - 16

abbrev pub eopnotsupp : ℕ
eopnotsupp = 2 ^ 32 - 95

unfoldable pub vlc_config : IfMap → NetDevice → ℕ × NetDevice
vlc_config map dev =
    if dev.up
    then (ebusy, dev)
    else if not (map.base_addr == dev.base_addr)
    then (eopnotsupp, dev)
    else (0, if map.irq == dev.irq then dev else record dev { irq = map.irq })

-- A byte `^ 0x01`.
abbrev pub xor_one : ℕ → ℕ
xor_one b = if b % 2 == 0 then b + 1 else b - 1

-- The bytes of a header.
abbrev pub hdr_bytes : VlcHdr → List ℕ
hdr_bytes h =
    h.h_dest.high
    ∷ h.h_dest.low
    ∷ h.h_source.high
    ∷ h.h_source.low
    ∷ h.h_proto / 256 % 256
    ∷ h.h_proto % 256
    ∷ []

-- The header at the start of these bytes; `none` is a read past them.
unfoldable pub vlc_hdr : List ℕ → Option VlcHdr
vlc_hdr (a ∷ b ∷ c ∷ d ∷ e ∷ f ∷ rest) = some (record {
  h_dest = record { high = a; low = b };
  h_source = record { high = c; low = d };
  h_proto = e * 256 + f;
})
vlc_hdr _ = none

-- The address if it is not NULL, else that of the device.
abbrev pub given : Option (List ℕ) → List ℕ → List ℕ
given none own = own
given (some a) own = a

-- `memcpy` reads `n` bytes; `none` is a read past those that are there.
abbrev pub bytes_of : ℕ → List ℕ → Option (List ℕ)
bytes_of zero l = some []
bytes_of (suc n) [] = none
bytes_of (suc n) (x ∷ l) = bytes_of n l >>= λ bytes. some (x ∷ bytes)

-- `memcpy` writes the bytes over the data from `at` on; `none` is a write past its end.
abbrev pub write_at : ℕ → List ℕ → List ℕ → Option (List ℕ)
write_at zero [] l = some l
write_at zero (b ∷ bytes) [] = none
write_at zero (b ∷ bytes) (x ∷ l) = write_at zero bytes l >>= λ rest. some (b ∷ rest)
write_at (suc at) bytes [] = none
write_at (suc at) bytes (x ∷ l) = write_at at bytes l >>= λ rest. some (x ∷ rest)

-- `memcpy(vlc->h_source, source, n); memcpy(vlc->h_dest, dest, n);` and the change of `h_dest`, on the
-- data that begins with the header: a copy of more than 2 bytes goes on over the next fields.
unfoldable pub put_addresses : ℕ → List ℕ → List ℕ → List ℕ → Option (List ℕ)
put_addresses n source dest l = do
  h_source ← bytes_of n source
  l ← write_at 2 h_source l
  h_dest ← bytes_of n dest
  l ← write_at 0 h_dest l
  last ← get_elem? l 1
  write_at 1 (xor_one last ∷ []) l

module _ (S : SkBuffs) where
  open S use {
    Skb, data_bytes, mac_bytes, headroom, skb_reset_mac_header, skb_pull, skb_push, overwrite,
  }

  -- `type` is an `unsigned short`; the function returns `hard_header_len`. `none` is also where
  -- `skb_push` finds no room, which stops the kernel.
  unfoldable pub vlc_header :
      NetDevice → ℕ → Option (List ℕ) → Option (List ℕ) → Skb → Option (ℕ × Skb)
  unfolding put_addresses
  vlc_header dev type daddr saddr skb =
      if leb vlc_hlen (headroom skb)
      then (do
        let skb' = skb_push vlc_hlen skb
        l ← write_at 4 (type / 256 % 256 ∷ type % 256 ∷ []) (data_bytes skb')
        l ← put_addresses dev.addr_len (given saddr dev.dev_addr) (given daddr dev.dev_addr) l
        some (dev.hard_header_len, overwrite l skb'))
      else none

  unfoldable pub vlc_rebuild_header : NetDevice → Skb → Option Skb
  unfolding put_addresses
  vlc_rebuild_header dev skb = do
    l ← put_addresses dev.addr_len dev.dev_addr dev.dev_addr (data_bytes skb)
    some (overwrite l skb)

  -- The type of a frame, and the buffer with its header taken off.
  unfoldable pub vlc_type_trans : Skb → Option (ℕ × Skb)
  unfolding vlc_hdr
  vlc_type_trans skb = do
    let skb' = skb_pull vlc_hlen (skb_reset_mac_header skb)
    vlc ← vlc_hdr (mac_bytes skb')
    some (if leb 1536 vlc.h_proto then vlc.h_proto else vlc_p_default, skb')
