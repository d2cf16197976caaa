-- ===== src/Images/Blocks.antt =====
-- Proofs about `is_public_ip` (src/serving/remote_images.rs) and the reserved address blocks.
use Prim.Native.Nat.{bit_and}
use muna_server.Base.{
  ℕ, zero, suc, ◌+◌, ◌*◌, ◌/◌, ◌%◌, ◌^◌, ◌<◌, ◌≡◌, refl, Bool, true, false, not, ◌&&◌, ◌||◌, List,
  [], ◌∷◌, ◌==◌, leb, if◌then◌else◌, arith,
}
use muna_server.Images.{
  Ipv4Addr, IpAddr, v6, is_public_ipv4, is_public_ip, to_ipv4_mapped, starts_with_zeros,
  is_multicast,
}

-- The 32-bit number of four octets.
abbrev pub number : ℕ → ℕ → ℕ → ℕ → ℕ
number a b c d = ((a * 256 + b) * 256 + c) * 256 + d

-- The first `32 - host` bits of the address and of the block agree.
abbrev pub is_in_block : ℕ → ℕ → ℕ → Bool
is_in_block host base ip = (ip / 2 ^ host) == (base / 2 ^ host)

abbrev pub any_block : List (ℕ × ℕ) → ℕ → Bool
any_block [] ip = false
any_block ((base, host) ∷ blocks) ip = is_in_block host base ip || any_block blocks ip

-- The blocks by base and number of host bits: this network, private, loopback, multicast,
-- reserved, shared, link-local, private, private, protocol assignments, TEST-NET-1, benchmarking,
-- TEST-NET-2 and TEST-NET-3.
abbrev pub reserved_blocks : List (ℕ × ℕ)
reserved_blocks =
    (number 0 0 0 0, 24)
    ∷ (number 10 0 0 0, 24)
    ∷ (number 127 0 0 0, 24)
    ∷ (number 224 0 0 0, 28)
    ∷ (number 240 0 0 0, 28)
    ∷ (number 100 64 0 0, 22)
    ∷ (number 169 254 0 0, 16)
    ∷ (number 172 16 0 0, 20)
    ∷ (number 192 168 0 0, 16)
    ∷ (number 192 0 0 0, 8)
    ∷ (number 192 0 2 0, 8)
    ∷ (number 198 18 0 0, 17)
    ∷ (number 198 51 100 0, 8)
    ∷ (number 203 0 113 0, 8)
    ∷ []

abbrev pub AreOctets : Ipv4Addr → Type 0
AreOctets ip = (ip.a < 256) × (ip.b < 256) × (ip.c < 256) × (ip.d < 256)

-- A test that every number below a bound passes, by evaluation.
passes : (ℕ → Bool) → ℕ → Bool
passes test zero = true
passes test (suc top) = let below = passes test top in if test top then below else false

passes-at : (test : ℕ → Bool) (top n : ℕ) → n < top → passes test top ≡ true → test n ≡ true
unfolding passes
passes-at test zero n less each = absurd (omega arith)
passes-at test (suc top) n less each = ground (arith, passes-at test top n)

-- What each mask keeps of a byte.
abbrev masks_agree : ℕ → Bool
masks_agree b =
    (bit_and b 0xc0 == b / 64 * 64)
    && (bit_and b 0xf0 == b / 16 * 16)
    && (bit_and b 0xfe == b / 2 * 2)

masks_table : passes masks_agree 256 ≡ true
unfolding passes
masks_table = refl

masks :
    (b : ℕ)
    → b < 256
    → (bit_and b 0xc0 ≡ b / 64 * 64) × (bit_and b 0xf0 ≡ b / 16 * 16) × (bit_and b 0xfe ≡ b / 2 * 2)
masks b h = ground (arith, passes-at masks_agree 256 b h masks_table)

module _ (a b c d : ℕ) (hb : b < 256) (hc : c < 256) (hd : d < 256) where
  in_first : (x : ℕ) → is_in_block 24 (number x 0 0 0) (number a b c d) ≡ (a == x)
  in_first x = ground arith

  in_second :
      (x y : ℕ)
      → y < 256
      → is_in_block 16 (number x y 0 0) (number a b c d) ≡ ((a == x) && (b == y))
  in_second x y hy = ground arith

  in_third :
      (x y z : ℕ)
      → y < 256
      → z < 256
      → is_in_block 8 (number x y z 0) (number a b c d) ≡ ((a == x) && (b == y) && (c == z))
  in_third x y z hy hz = ground arith

  in_shared :
      is_in_block 22 (number 100 64 0 0) (number a b c d) ≡ ((a == 100) && (bit_and b 0xc0 == 64))
  in_shared = ground (arith, (masks b hb).0)

  in_private :
      is_in_block 20 (number 172 16 0 0) (number a b c d) ≡ ((a == 172) && (bit_and b 0xf0 == 16))
  in_private = ground (arith, (masks b hb).1)

  in_benchmarking :
      is_in_block 17 (number 198 18 0 0) (number a b c d) ≡ ((a == 198) && (bit_and b 0xfe == 18))
  in_benchmarking = ground (arith, (masks b hb).2)

  in_upper :
      a < 256
      → (is_in_block 28 (number 224 0 0 0) (number a b c d)
          || is_in_block 28 (number 240 0 0 0) (number a b c d))
        ≡ leb 224 a
  in_upper ha = ground arith

-- For every address of four octets, `is_public_ipv4`, with its tests of single octets and its bit
-- masks, answers what the address as a 32-bit number says: the address is public exactly if it
-- lies in none of the fourteen reserved blocks.
pub is_public_ipv4-blocks :
    (ip : Ipv4Addr)
    → AreOctets ip
    → is_public_ipv4 ip ≡ not (any_block reserved_blocks (number ip.a ip.b ip.c ip.d))
unfolding is_public_ipv4
is_public_ipv4-blocks ip h = ground (
  arith,
  in_first ip.a ip.b ip.c ip.d h.1 h.2 h.3 0,
  in_first ip.a ip.b ip.c ip.d h.1 h.2 h.3 10,
  in_first ip.a ip.b ip.c ip.d h.1 h.2 h.3 127,
  in_upper ip.a ip.b ip.c ip.d h.1 h.2 h.3 h.0,
  in_shared ip.a ip.b ip.c ip.d h.1 h.2 h.3,
  in_second ip.a ip.b ip.c ip.d h.1 h.2 h.3 169 254 (omega arith),
  in_private ip.a ip.b ip.c ip.d h.1 h.2 h.3,
  in_second ip.a ip.b ip.c ip.d h.1 h.2 h.3 192 168 (omega arith),
  in_third ip.a ip.b ip.c ip.d h.1 h.2 h.3 192 0 0 (omega arith) (omega arith),
  in_third ip.a ip.b ip.c ip.d h.1 h.2 h.3 192 0 2 (omega arith) (omega arith),
  in_benchmarking ip.a ip.b ip.c ip.d h.1 h.2 h.3,
  in_third ip.a ip.b ip.c ip.d h.1 h.2 h.3 198 51 100 (omega arith) (omega arith),
  in_third ip.a ip.b ip.c ip.d h.1 h.2 h.3 203 0 113 (omega arith) (omega arith),
)

-- The address ip inside an IPv6 address: ::ffff:a.b.c.d, ::a.b.c.d and 64:ff9b::a.b.c.d.
abbrev embed : ℕ → ℕ → ℕ → Ipv4Addr → IpAddr
embed s0 s1 s5 ip = v6 (record {
  s0 = s0;
  s1 = s1;
  s2 = 0;
  s3 = 0;
  s4 = 0;
  s5 = s5;
  s6 = ip.a * 256 + ip.b;
  s7 = ip.c * 256 + ip.d;
})

abbrev pub mapped : Ipv4Addr → IpAddr
mapped = embed 0 0 0xffff

abbrev pub compatible : Ipv4Addr → IpAddr
compatible = embed 0 0 0

abbrev pub translated : Ipv4Addr → IpAddr
translated = embed 0x64 0xff9b 0

octets_back :
    (ip : Ipv4Addr)
    → AreOctets ip
    → is_public_ipv4 (record {
      a = (ip.a * 256 + ip.b) / 256;
      b = (ip.a * 256 + ip.b) % 256;
      c = (ip.c * 256 + ip.d) / 256;
      d = (ip.c * 256 + ip.d) % 256;
    })
      ≡ is_public_ipv4 ip
unfolding is_public_ipv4
octets_back ip h =
    let ea : (ip.a * 256 + ip.b) / 256 ≡ ip.a = omega (arith, h.1) in
    let eb : (ip.a * 256 + ip.b) % 256 ≡ ip.b = omega (arith, h.1) in
    let ec : (ip.c * 256 + ip.d) / 256 ≡ ip.c = omega (arith, h.3) in rw (ea, eb, ec) refl

-- For every IPv4 address of four octets, the IPv4-mapped IPv6 form of it is public exactly if the
-- address itself is, and the IPv4-compatible form and the NAT64 form 64:ff9b:: are never public:
-- none of the three reaches a reserved IPv4 address.
pub is_public_ip-embed :
    (ip : Ipv4Addr)
    → AreOctets ip
    → (is_public_ip (mapped ip) ≡ is_public_ipv4 ip)
      × (is_public_ip (compatible ip) ≡ false)
      × (is_public_ip (translated ip) ≡ false)
unfolding is_public_ip to_ipv4_mapped starts_with_zeros is_multicast
is_public_ip-embed ip h = (octets_back ip h, refl, refl)
