-- ===== src/Text/Test.antt =====
-- Runs of the reading and writing of addresses.
use dumbarp.Common.{◌≡◌, refl, none, some}
use dumbarp.Ebpf.{Quad, Mac}
use dumbarp.Text.{codes, is_digit, hex_value}
use dumbarp.Text.Addr.{show_octet, show_addr, read_octet, read_dot, read_addr, parse_addr}
use dumbarp.Text.Mac.{from_hex, octets, parse_mac, show_hex, show_mac}

abbrev addr : Quad
addr = record { q0 = 110; q1 = 0; q2 = 9; q3 = 255 }

addr_shown : show_addr addr ≡ codes "110.0.9.255"
unfolding show_addr show_octet
addr_shown = refl

-- a leading zero, a number that is too large, too few and too many numbers
leading_zero : parse_addr (codes "110.00.9.255") ≡ none
unfolding parse_addr read_addr read_octet read_dot is_digit
leading_zero = refl

too_large : parse_addr (codes "110.0.9.256") ≡ none
unfolding parse_addr read_addr read_octet read_dot is_digit
too_large = refl

too_few : parse_addr (codes "110.0.9") ≡ none
unfolding parse_addr read_addr read_octet read_dot is_digit
too_few = refl

too_many : parse_addr (codes "1.1.1.1.1") ≡ none
unfolding parse_addr read_addr read_octet read_dot is_digit
too_many = refl

abbrev mac : Mac
mac = record { m0 = 2; m1 = 0; m2 = 171; m3 = 205; m4 = 16; m5 = 255 }

mac_shown : show_mac mac ≡ codes "02:00:ab:cd:10:ff"
unfolding show_mac show_hex
mac_shown = refl

-- capitals, a single digit and a plus sign are read, a number that is too large is not
mac_read : parse_mac (codes "2:0:AB:+cd:10:FF") ≡ some mac
unfolding parse_mac octets from_hex hex_value is_digit
mac_read = refl

octet_too_large : parse_mac (codes "2:0:AB:CD:100:FF") ≡ none
unfolding parse_mac octets from_hex hex_value is_digit
octet_too_large = refl
