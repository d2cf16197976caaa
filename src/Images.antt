-- ===== src/Images.antt =====
-- src/serving/remote_images.rs: which addresses and URLs the image fetcher may reach. An address
-- is its octets or its 16-bit segments.
pub mod Fetch
pub mod Inline
pub mod Blocks
use Prim.Native.Nat.{bit_and}
use muna_server.Base.{
  ℕ, ◌+◌, ◌*◌, ◌/◌, ◌%◌, Bool, true, false, not, ◌&&◌, ◌||◌, Option, none, some, List, [], ◌∷◌,
  ◌==◌, leb, if◌then◌else◌,
}

-- `octets` and `segments` give the fields.
pub record Ipv4Addr : Type 0 where
  pub a : ℕ
  pub b : ℕ
  pub c : ℕ
  pub d : ℕ

pub record Ipv6Addr : Type 0 where
  pub s0 : ℕ
  pub s1 : ℕ
  pub s2 : ℕ
  pub s3 : ℕ
  pub s4 : ℕ
  pub s5 : ℕ
  pub s6 : ℕ
  pub s7 : ℕ

pub data IpAddr : Type 0 where
  v4 : Ipv4Addr → IpAddr
  v6 : Ipv6Addr → IpAddr

unfoldable pub is_public_ipv4 : Ipv4Addr → Bool
is_public_ipv4 ip = not (
    (ip.a == 0)
    || (ip.a == 10)
    || (ip.a == 127)
    || leb 224 ip.a
    || ((ip.a == 100) && (bit_and ip.b 0xc0 == 64))
    || ((ip.a == 169) && (ip.b == 254))
    || ((ip.a == 172) && (bit_and ip.b 0xf0 == 16))
    || ((ip.a == 192) && (ip.b == 168))
    || ((ip.a == 192) && (ip.b == 0) && ((ip.c == 0) || (ip.c == 2)))
    || ((ip.a == 198) && (bit_and ip.b 0xfe == 18))
    || ((ip.a == 198) && (ip.b == 51) && (ip.c == 100))
    || ((ip.a == 203) && (ip.b == 0) && (ip.c == 113)))

-- The first six segments are zero.
unfoldable pub starts_with_zeros : Ipv6Addr → Bool
starts_with_zeros ip =
    (ip.s0 == 0) && (ip.s1 == 0) && (ip.s2 == 0) && (ip.s3 == 0) && (ip.s4 == 0) && (ip.s5 == 0)

-- `Ipv6Addr::to_ipv4_mapped`: the form ::ffff:a.b.c.d.
unfoldable pub to_ipv4_mapped : Ipv6Addr → Option Ipv4Addr
to_ipv4_mapped ip =
    if (ip.s0 == 0)
      && (ip.s1 == 0)
      && (ip.s2 == 0)
      && (ip.s3 == 0)
      && (ip.s4 == 0)
      && (ip.s5 == 0xffff)
    then some (record { a = ip.s6 / 256; b = ip.s6 % 256; c = ip.s7 / 256; d = ip.s7 % 256 })
    else none

-- `Ipv6Addr::is_multicast`: ff00::/8.
unfoldable pub is_multicast : Ipv6Addr → Bool
is_multicast ip = bit_and ip.s0 0xff00 == 0xff00

unfoldable pub is_public_ip : IpAddr → Bool
unfolding is_public_ipv4 starts_with_zeros to_ipv4_mapped is_multicast
is_public_ip (v4 ip) = is_public_ipv4 ip
is_public_ip (v6 ip) = elim (to_ipv4_mapped ip) [
  | some mapped ↦ is_public_ipv4 mapped
  | none ↦ not (
      starts_with_zeros ip
      || is_multicast ip
      || (bit_and ip.s0 0xfe00 == 0xfc00)
      || (bit_and ip.s0 0xffc0 == 0xfe80)
      || ((ip.s0 == 0x2001) && (ip.s1 == 0x0db8))
      || ((ip.s0 == 0x0064) && (ip.s1 == 0xff9b)))
]
