-- ===== src/IpAddress.antt =====
-- common/ip_address.go: addresses as text, and the reserved ranges. An int32 is its bit pattern,
-- a number below 2 ^ 32. A parse error panics, as in the source.
pub mod Format
pub mod Reserved
mod Examples
use wfc_server.Prelude.{
  ℕ, zero, suc, ◌+◌, ◌*◌, ◌/◌, ◌%◌, ◌-◌, ◌^◌, ◌<◌, Bool, true, false, ◌||◌, Option, none, some,
  List, [], ◌∷◌, ◌++◌, ltb, leb, ◌==◌, if◌then◌else◌, Outcome, returns, panics, ◌>>=◌,
}
use wfc_server.Prelude.Words.{Bytes}
use wfc_server.Prelude.Int.{ℤ, word64}
use wfc_server.Prelude.Text.{atoi, contains, split, itoa}
use Prim.Native.Nat.{bit_or}

-- A parsed number as the bit pattern of an int.
unfoldable pub parse_int : Bytes → Outcome ℕ
parse_int s = elim (atoi s) [ none ↦ panics | some v ↦ returns (word64 v) ]

-- `intIP |= val << (24 - i*8)`: a negative shift panics. `shifts` are the shifts still to come.
unfoldable pub or_octets : ℕ → List ℕ → List Bytes → Outcome ℕ
or_octets acc shifts [] = returns acc
or_octets acc [] (s ∷ rest) = parse_int s >>= λ val. panics
or_octets acc (k ∷ shifts) (s ∷ rest) =
    parse_int s >>= λ val. or_octets (bit_or acc (val * 2 ^ k % 0x10000000000000000)) shifts rest

-- The port behind the first colon, and the text in front of it.
unfoldable pub split_port : Bytes → Outcome (Bytes × ℕ)
split_port ip =
    if contains ip b':'
    then (elim (split ip b':') [
      | [] ↦ panics
      | host ∷ rest ↦ elim rest [
        | [] ↦ panics
        | port ∷ more ↦ parse_int port >>= λ p. returns (host, p)
      ]
    ])
    else returns (ip, 0)

-- IPFormatToInt: the address as an int32, and the port.
unfoldable pub ip_format_to_int : Bytes → Outcome (ℕ × ℕ)
ip_format_to_int ip = do
  (host, port) ← split_port ip
  int_ip ← or_octets 0 (24 ∷ 16 ∷ 8 ∷ 0 ∷ []) (split host b'.')
  returns (int_ip % 0x100000000, port % 0x10000)

-- strconv.FormatInt of an int32.
unfoldable pub format_int32 : ℕ → Bytes
format_int32 v = if ltb v 0x80000000 then itoa v else b'-' ∷ itoa (0x100000000 - v)

-- IPFormatToString: the address as a signed number, and the port.
unfoldable pub ip_format_to_string : Bytes → Outcome (Bytes × Bytes)
ip_format_to_string ip = do
  (int_ip, int_port) ← ip_format_to_int ip
  returns (format_int32 int_ip, itoa int_port)

-- The four bytes the other way round: the masks and shifts of IPFormatToStringLE.
unfoldable pub swap_bytes : ℕ → ℕ
swap_bytes v =
    bit_or
      (bit_or (bit_or (v / 0x1000000) (v / 0x10000 % 0x100 * 0x100)) (v / 0x100 % 0x100 * 0x10000))
      (v % 0x100 * 0x1000000)

unfoldable pub ip_format_to_string_le : Bytes → Outcome (Bytes × Bytes)
ip_format_to_string_le ip = do
  (int_ip, int_port) ← ip_format_to_int ip
  returns (format_int32 (swap_bytes int_ip), itoa int_port)

unfoldable pub octet_bytes : List Bytes → Outcome Bytes
octet_bytes [] = returns []
octet_bytes (s ∷ rest) = do
  val ← parse_int s
  bytes ← octet_bytes rest
  returns ((val % 0x100) ∷ bytes)

-- strings.Split(ip, ":")[0]; a split has a first part always.
unfoldable pub host_of : Bytes → Bytes
host_of ip =
    if contains ip b':' then (elim (split ip b':') [ [] ↦ [] | host ∷ rest ↦ host ]) else ip

-- IPFormatBytes: the octets of the address.
unfoldable pub ip_format_bytes : Bytes → Outcome Bytes
ip_format_bytes ip = octet_bytes (split (host_of ip) b'.')

-- makeLookupAddr of qr2/session.go: the key of a session.
unfoldable pub make_lookup_addr : Bytes → Outcome ℕ
make_lookup_addr addr = do (ip, port) ← ip_format_to_int addr; returns (port * 0x100000000 + ip)

-- net.UDPAddr, for IPv4, and its String method.
pub record UdpAddr : Type 0 where
  pub a : ℕ
  pub b : ℕ
  pub c : ℕ
  pub d : ℕ
  pub port : ℕ

unfoldable pub ip_string : ℕ → ℕ → ℕ → ℕ → Bytes
ip_string a b c d = itoa a ++ b'.' ∷ (itoa b ++ b'.' ∷ (itoa c ++ b'.' ∷ itoa d))

unfoldable pub addr_string : UdpAddr → Bytes
addr_string u = ip_string u.a u.b u.c u.d ++ b':' ∷ itoa u.port

pub record IsUdpAddr (u : UdpAddr) : Type 0 where
  pub a : u.a < 256
  pub b : u.b < 256
  pub c : u.c < 256
  pub d : u.d < 256
  pub port : u.port < 0x10000
