-- ===== src/IpAddress/Examples.antt =====
-- Runs of the address functions, and their theorems at concrete inputs.
use wfc_server.Prelude.{◌≡◌, ◌↔◌, refl, true, returns, arith}
use wfc_server.Prelude.Text.{itoa, itoa_loop, codes, split, contains, atoi, parse_digits}
use wfc_server.IpAddress.{
  UdpAddr, IsUdpAddr, addr_string, ip_string, ip_format_to_int, parse_int, or_octets, split_port,
  ip_format_to_string_le, swap_bytes, format_int32,
}
use wfc_server.IpAddress.Format.{ip_format_to_int-addr_string, make_lookup_addr-injective}
use wfc_server.IpAddress.Reserved.{
  is_reserved_ip, shift_right32, InSome, reserved_ip_list, is_reserved_ip_iff,
}

abbrev console : UdpAddr
console = record { a = 203; b = 0; c = 113; d = 9; port = 27900 }

console-IsUdpAddr : IsUdpAddr console
console-IsUdpAddr = omega arith

print_console : addr_string console ≡ codes "203.0.113.9:27900"
unfolding addr_string ip_string itoa itoa_loop
print_console = refl

read_console : ip_format_to_int (codes "203.0.113.9:27900") ≡ returns (0xcb007109, 27900)
unfolding ip_format_to_int split_port or_octets parse_int split contains atoi parse_digits
read_console = refl

little_endian : ip_format_to_string_le (codes "1.2.3.4:5") ≡ returns (codes "67305985", codes "5")
unfolding ip_format_to_string_le swap_bytes format_int32 itoa itoa_loop ip_format_to_int split_port
    or_octets parse_int split contains atoi parse_digits
little_endian = refl

ip_format_to_int-addr_string_example :
    ip_format_to_int (addr_string console) ≡ returns (0xcb007109, 27900)
ip_format_to_int-addr_string_example = ip_format_to_int-addr_string console console-IsUdpAddr

make_lookup_addr-injective_example : console ≡ console
make_lookup_addr-injective_example =
    make_lookup_addr-injective console console console-IsUdpAddr console-IsUdpAddr refl

is_reserved_ip_iff_example : (is_reserved_ip 0xcb007109 ≡ true) ↔ InSome 0xcb007109 reserved_ip_list
is_reserved_ip_iff_example = is_reserved_ip_iff 0xcb007109 (omega arith)

documentation_net : is_reserved_ip 0xcb007109 ≡ true
unfolding is_reserved_ip shift_right32
documentation_net = refl
