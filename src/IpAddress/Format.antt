-- ===== src/IpAddress/Format.antt =====
-- The text that net.UDPAddr prints is read back by IPFormatToInt and IPFormatBytes.
use wfc_server.Prelude.{
  ℕ, ◌+◌, ◌*◌, ◌%◌, ◌≤◌, ◌<◌, ◌≡◌, ap, true, false, [], ◌∷◌, ◌++◌, returns, arith,
}
use wfc_server.Prelude.Text.{contains, split, itoa}
use wfc_server.Prelude.TextLaws.{
  atoi-itoa, contains-itoa, contains-append, split_whole, split-append,
}
use wfc_server.Prelude.Bits.{bit_or_bytes, zero-bit_or}
use wfc_server.IpAddress.{
  parse_int, or_octets, split_port, ip_format_to_int, octet_bytes, host_of, ip_format_bytes,
  make_lookup_addr, UdpAddr, IsUdpAddr, ip_string, addr_string,
}
use Prim.Native.Nat.{bit_or}

parse_int-itoa : (n : ℕ) → n < 0x10000 → parse_int (itoa n) ≡ returns n
unfolding parse_int
parse_int-itoa n h = ground (arith, atoi-itoa n)

contains-ip_string : (a b c d : ℕ) → contains (ip_string a b c d) b':' ≡ false
unfolding ip_string contains
contains-ip_string a b c d = ground (
  arith,
  contains-append (itoa a) (b'.' ∷ (itoa b ++ b'.' ∷ (itoa c ++ b'.' ∷ itoa d))) b':',
  contains-append (itoa b) (b'.' ∷ (itoa c ++ b'.' ∷ itoa d)) b':',
  contains-append (itoa c) (b'.' ∷ itoa d) b':',
  contains-itoa a b':' (omega arith),
  contains-itoa b b':' (omega arith),
  contains-itoa c b':' (omega arith),
  contains-itoa d b':' (omega arith),
)

split-ip_string :
    (a b c d : ℕ) → split (ip_string a b c d) b'.' ≡ itoa a ∷ itoa b ∷ itoa c ∷ itoa d ∷ []
unfolding ip_string
split-ip_string a b c d = rw (
  split-append (itoa a) (itoa b ++ b'.' ∷ (itoa c ++ b'.' ∷ itoa d)) b'.'
      (contains-itoa a b'.' (omega arith)),
  split-append (itoa b) (itoa c ++ b'.' ∷ itoa d) b'.' (contains-itoa b b'.' (omega arith)),
  split-append (itoa c) (itoa d) b'.' (contains-itoa c b'.' (omega arith)),
  split_whole (itoa d) b'.' (contains-itoa d b'.' (omega arith)),
)

-- The text has a colon, in front of the port alone.
split-addr_string :
    (u : UdpAddr) → split (addr_string u) b':' ≡ ip_string u.a u.b u.c u.d ∷ itoa u.port ∷ []
unfolding addr_string
split-addr_string u = rw (
  split-append (ip_string u.a u.b u.c u.d) (itoa u.port) b':' (contains-ip_string u.a u.b u.c u.d),
  split_whole (itoa u.port) b':' (contains-itoa u.port b':' (omega arith)),
)

contains-addr_string : (u : UdpAddr) → contains (addr_string u) b':' ≡ true
unfolding addr_string contains
contains-addr_string u =
    ground (arith, contains-append (ip_string u.a u.b u.c u.d) (b':' ∷ itoa u.port) b':')

split_port-addr_string :
    (u : UdpAddr)
    → u.port < 0x10000
    → split_port (addr_string u) ≡ returns (ip_string u.a u.b u.c u.d, u.port)
unfolding split_port
split_port-addr_string u h =
    rw (contains-addr_string u, split-addr_string u, parse_int-itoa u.port h)

host_of-addr_string : (u : UdpAddr) → host_of (addr_string u) ≡ ip_string u.a u.b u.c u.d
unfolding host_of
host_of-addr_string u = rw (contains-addr_string u, split-addr_string u)

-- The bytes from the most significant on.
abbrev pub big_endian : UdpAddr → ℕ
big_endian u = u.a * 0x1000000 + u.b * 0x10000 + u.c * 0x100 + u.d

-- The octets behind their shifts do not reach past 64 bits.
shifted : (v k : ℕ) → v < 256 → k ≤ 0x1000000 → v * k % 0x10000000000000000 ≡ v * k
shifted v k h l = grind arith

or_octets-addr :
    (u : UdpAddr)
    → IsUdpAddr u
    → or_octets 0 (24 ∷ 16 ∷ 8 ∷ 0 ∷ []) (itoa u.a ∷ itoa u.b ∷ itoa u.c ∷ itoa u.d ∷ [])
      ≡ returns (big_endian u)
unfolding or_octets
or_octets-addr u v =
    rw
      (
        parse_int-itoa u.a (omega arith),
        parse_int-itoa u.b (omega arith),
        parse_int-itoa u.c (omega arith),
        parse_int-itoa u.d (omega arith),
        shifted u.a 0x1000000 v.a (omega arith),
        shifted u.b 0x10000 v.b (omega arith),
        shifted u.c 0x100 v.c (omega arith),
        shifted u.d 1 v.d (omega arith),
        zero-bit_or (u.a * 0x1000000),
      )
      (ap returns (omega (arith, bit_or_bytes u.a u.b u.c u.d v.b v.c v.d, last_octet)))
  where
    last_octet :
        bit_or (bit_or (bit_or (u.a * 0x1000000) (u.b * 0x10000)) (u.c * 0x100)) (u.d * 1)
        ≡ bit_or (bit_or (bit_or (u.a * 0x1000000) (u.b * 0x10000)) (u.c * 0x100)) u.d
    last_octet = ap (bit_or _) (omega arith)

-- IPFormatToInt of what UDPAddr.String prints is the address as a big endian number, and the port.
pub ip_format_to_int-addr_string :
    (u : UdpAddr) → IsUdpAddr u → ip_format_to_int (addr_string u) ≡ returns (big_endian u, u.port)
unfolding ip_format_to_int
ip_format_to_int-addr_string u v =
    rw (split_port-addr_string u v.port, split-ip_string u.a u.b u.c u.d, or_octets-addr u v)
      (ap returns (ground arith))

-- IPFormatBytes of what UDPAddr.String prints is the four octets.
pub ip_format_bytes-addr_string :
    (u : UdpAddr)
    → IsUdpAddr u
    → ip_format_bytes (addr_string u) ≡ returns (u.a ∷ u.b ∷ u.c ∷ u.d ∷ [])
unfolding ip_format_bytes octet_bytes
ip_format_bytes-addr_string u v =
    rw
      (
        host_of-addr_string u,
        split-ip_string u.a u.b u.c u.d,
        parse_int-itoa u.a (omega arith),
        parse_int-itoa u.b (omega arith),
        parse_int-itoa u.c (omega arith),
        parse_int-itoa u.d (omega arith),
      )
      (ap returns (ground arith))

abbrev pub lookup_key : UdpAddr → ℕ
lookup_key u = u.port * 0x100000000 + big_endian u

pub make_lookup_addr-addr_string :
    (u : UdpAddr) → IsUdpAddr u → make_lookup_addr (addr_string u) ≡ returns (lookup_key u)
unfolding make_lookup_addr
make_lookup_addr-addr_string u v = rw (ip_format_to_int-addr_string u v)

-- Two UDP addresses that have one session key are the same address: no client is looked up under
-- the key of another.
pub make_lookup_addr-injective :
    (u v : UdpAddr)
    → IsUdpAddr u
    → IsUdpAddr v
    → make_lookup_addr (addr_string u) ≡ make_lookup_addr (addr_string v)
    → u ≡ v
make_lookup_addr-injective u v hu hv e =
    ground (arith, make_lookup_addr-addr_string u hu, make_lookup_addr-addr_string v hv)
