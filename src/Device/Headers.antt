-- ===== src/Device/Headers.antt =====
-- The header that a driver writes, and what it reads from one.
use ciot_vlc.Base.{
  ℕ, zero, suc, ◌+◌, ◌*◌, ◌/◌, ◌%◌, ◌^◌, ◌≤◌, ◌<◌, ◌≡◌, refl, ap, ◌∙◌, Option, some, List, [], ◌∷◌,
  ◌++◌, leb, if◌then◌else◌, arith, length, drop, le→leb, append-nil,
}
use ciot_vlc.Device.{
  SkBuffs, AreBuffers, Address, VlcHdr, NetDevice, xor_one, given, hdr_bytes, vlc_hdr,
  put_addresses, vlc_header, vlc_rebuild_header, vlc_type_trans,
}

-- The address with its last bit changed.
abbrev pub xor_last : Address → Address
xor_last a = record a { low = xor_one a.low }

-- The header of a frame to `dest` from `source`.
abbrev pub header_of : ℕ → Address → Address → VlcHdr
header_of type dest source = record { h_dest = xor_last dest; h_source = source; h_proto = type }

-- The address at the start of these bytes.
pub record Begins (a : Address) (bytes : List ℕ) : Type 0 where
  pub rest : List ℕ
  pub same : bytes ≡ a.high ∷ a.low ∷ rest

pub vlc_hdr-hdr_bytes :
    (h : VlcHdr) (rest : List ℕ) → h.h_proto < 2 ^ 16 → vlc_hdr (hdr_bytes h ++ rest) ≡ some h
unfolding vlc_hdr
vlc_hdr-hdr_bytes h rest small =
    let value : h.h_proto / 256 % 256 * 256 + h.h_proto % 256 ≡ h.h_proto = omega arith in
    rw value refl

drop_past : (n : ℕ) (l : List ℕ) → length l ≤ n → drop n l ≡ []
drop_past zero [] h = refl
drop_past zero (x ∷ l) h = absurd (omega (arith, h))
drop_past (suc n) [] h = refl
drop_past (suc n) (x ∷ l) h = drop_past n l (omega (arith, h))

-- The bytes in front of `rest`.
pub record Room (l rest : List ℕ) : Type 0 where
  pub a : ℕ
  pub b : ℕ
  pub c : ℕ
  pub d : ℕ
  pub e : ℕ
  pub f : ℕ
  pub same : l ≡ a ∷ b ∷ c ∷ d ∷ e ∷ f ∷ rest

Room-drop : (l rest : List ℕ) → length l ≡ 6 + length rest → drop 6 l ≡ rest → Room l rest
Room-drop [] rest h k = absurd (omega (arith, h))
Room-drop (a ∷ []) rest h k = absurd (omega (arith, h))
Room-drop (a ∷ b ∷ []) rest h k = absurd (omega (arith, h))
Room-drop (a ∷ b ∷ c ∷ []) rest h k = absurd (omega (arith, h))
Room-drop (a ∷ b ∷ c ∷ d ∷ []) rest h k = absurd (omega (arith, h))
Room-drop (a ∷ b ∷ c ∷ d ∷ e ∷ []) rest h k = absurd (omega (arith, h))
Room-drop (a ∷ b ∷ c ∷ d ∷ e ∷ f ∷ l) rest h k = record {
  a = a;
  b = b;
  c = c;
  d = d;
  e = e;
  f = f;
  same = rw k refl;
}

-- With addresses of 2 bytes, only they are written.
put_addresses_lem :
    (to from : Address) (source dest : List ℕ) (a b c d : ℕ) (rest : List ℕ)
    → Begins from source
    → Begins to dest
    → put_addresses 2 source dest (a ∷ b ∷ c ∷ d ∷ rest)
      ≡ some (to.high ∷ xor_one to.low ∷ from.high ∷ from.low ∷ rest)
unfolding put_addresses
put_addresses_lem to from source dest a b c d rest v w = rw (v.same, w.same) refl

module _ (S : SkBuffs) (b : AreBuffers S) where
  -- What `vlc_header` returns, and what is in the buffer after it.
  pub vlc_header_lem :
      (dev : NetDevice) (type : ℕ) (daddr saddr : Option (List ℕ)) (dest source : Address)
      (skb : S.Skb)
      → dev.addr_len ≡ 2
      → Begins dest (given daddr dev.dev_addr)
      → Begins source (given saddr dev.dev_addr)
      → 6 ≤ S.headroom skb
      → (s : S.Skb) × (vlc_header S dev type daddr saddr skb ≡ some (dev.hard_header_len, s))
        × (S.data_bytes s ≡ hdr_bytes (header_of type dest source) ++ S.data_bytes skb)
  unfolding vlc_header
  vlc_header_lem dev type daddr saddr dest source skb two to from space =
      let pushed = S.skb_push 6 skb in
      let size = b.push_length 6 skb space in
      let rest : List ℕ = S.data_bytes skb in
      let l : List ℕ = hdr_bytes (header_of type dest source) ++ rest in
      let r = Room-drop (S.data_bytes pushed) rest size (b.pushed 6 skb space) in
      let wrote = b.overwritten l pushed (omega (arith, size)) in
      let none_left : drop (length l) (S.data_bytes pushed) ≡ [] =
        drop_past (length l) (S.data_bytes pushed) (omega (arith, size)) in
      (
        S.overwrite l pushed,
        rw
            (
              le→leb 6 (S.headroom skb) space,
              r.same,
              two,
              put_addresses_lem dest source (given saddr dev.dev_addr) (given daddr dev.dev_addr)
                  r.a r.b r.c r.d (type / 256 % 256 ∷ type % 256 ∷ rest) from to,
            )
            refl,
        wrote ∙ rw none_left (append-nil l),
      )

  -- With addresses of 2 bytes (`addr_len` as the drivers set it), given or, where NULL, those of the
  -- device, a type of 16 bits, and a buffer with room for the header in front of its data:
  -- `vlc_header` does not fault and returns `hard_header_len`, and `vlc_type_trans` on the buffer that
  -- it leaves gives the type, or `VLC_P_DEFAULT` if that is below 1536, and a buffer with the same
  -- data as before the header, whose MAC header is the one written: destination with its last bit
  -- changed, source and type.
  pub vlc_type_trans-vlc_header :
      (dev : NetDevice) (type : ℕ) (daddr saddr : Option (List ℕ)) (dest source : Address)
      (skb : S.Skb)
      → dev.addr_len ≡ 2
      → Begins dest (given daddr dev.dev_addr)
      → Begins source (given saddr dev.dev_addr)
      → 6 ≤ S.headroom skb
      → type < 2 ^ 16
      → (s : S.Skb) × (vlc_header S dev type daddr saddr skb ≡ some (dev.hard_header_len, s))
        × (skb' : S.Skb) × (vlc_type_trans S s ≡ some (if leb 1536 type then type else 1, skb'))
        × (S.data_bytes skb' ≡ S.data_bytes skb)
        × (S.mac_bytes skb' ≡ hdr_bytes (header_of type dest source) ++ S.data_bytes skb)
  unfolding vlc_type_trans
  vlc_type_trans-vlc_header dev type daddr saddr dest source skb two to from space small =
      let h = header_of type dest source in
      let (s0, ran, made) = vlc_header_lem dev type daddr saddr dest source skb two to from space in
      let s1 = S.skb_reset_mac_header s0 in
      let kept : S.data_bytes s1 ≡ hdr_bytes h ++ S.data_bytes skb = b.reset_data s0 ∙ made in
      let head : S.mac_bytes (S.skb_pull 6 s1) ≡ hdr_bytes h ++ S.data_bytes skb =
        b.pull_mac 6 s1 ∙ b.reset_mac s0 ∙ made in
      let read : vlc_hdr (S.mac_bytes (S.skb_pull 6 s1)) ≡ some h =
        ap (λ l. vlc_hdr l) head ∙ vlc_hdr-hdr_bytes h (S.data_bytes skb) small in
      (
        s0,
        ran,
        S.skb_pull 6 s1,
        rw read refl,
        b.pulled 6 s1 (rw kept (omega arith)) ∙ rw kept refl,
        head,
      )

  -- After a `vlc_header` with 2-byte addresses, `vlc_rebuild_header` does not fault, and leaves a
  -- header to and from the device's own address.
  pub vlc_rebuild_header_lem :
      (dev : NetDevice) (type : ℕ) (own dest source : Address) (rest : List ℕ) (skb : S.Skb)
      → dev.addr_len ≡ 2
      → Begins own dev.dev_addr
      → S.data_bytes skb ≡ hdr_bytes (header_of type dest source) ++ rest
      → (skb' : S.Skb) × (vlc_rebuild_header S dev skb ≡ some skb')
        × (S.data_bytes skb' ≡ hdr_bytes (header_of type own own) ++ rest)
  unfolding vlc_rebuild_header
  vlc_rebuild_header_lem dev type own dest source rest skb two v e =
      let l : List ℕ = hdr_bytes (header_of type own own) ++ rest in
      let wrote = b.overwritten l skb (rw e (omega arith)) in
      let none_left : drop (length l) (S.data_bytes skb) ≡ [] =
        drop_past (length l) (S.data_bytes skb) (rw e (omega arith)) in
      (
        S.overwrite l skb,
        rw
            (
              e,
              two,
              put_addresses_lem own own dev.dev_addr dev.dev_addr dest.high (xor_one dest.low)
                  source.high source.low (type / 256 % 256 ∷ type % 256 ∷ rest) v v,
            )
            refl,
        wrote ∙ rw none_left (append-nil l),
      )
