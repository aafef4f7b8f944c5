-- ===== src/Examples/Hosts.antt =====
-- The theorems on the socket text and on the code for Solaris, at concrete inputs.
use madai.Base.{ℕ, ◌<◌, pos, some, [], ◌∷◌, ◌≡◌, refl, arith, codes, length, is_some}
use madai.Sys.{Env}
use madai.Libdg.Text.{skip_space, starts_with_digit, digits}
use madai.Libdg.Checks.{is_ipaddr, is_inetaddr}
use madai.Libdg.Solaris.{Facility, facilitynames, inet_aton}
use madai.Libdg.Solaris.Address.{dotted, inet_aton-dotted}
use madai.Libdg.Solaris.Dots.{IsAddress, inet_aton-IsAddress, is_ipaddr-is_inetaddr}
use madai.Libdg.Solaris.Host.{IsSolaris}
use madai.Madai.{oconn, oconn_length}
use madai.Madai.Socket.{oconn-length_lem}
use madai.Examples.{steady}

abbrev code : Facility → ℕ
code f = 8

abbrev solaris : Env
solaris = record steady {
  facilitynames = facilitynames code;
  inet_aton = λ s. is_some (inet_aton s);
}

solaris-IsSolaris : IsSolaris solaris code
solaris-IsSolaris = record { own_table = refl; own_inet_aton = λ s. refl }

inet_aton-dotted_example : inet_aton (dotted 10 0 200 255) ≡ some (10 ∷ 0 ∷ 200 ∷ 255 ∷ [])
inet_aton-dotted_example =
    inet_aton-dotted 10 0 200 255 (omega arith) (omega arith) (omega arith) (omega arith)

-- The value of strtoul(3) is cut to 32 bits: 4294967297 stands for 1.
cut_address : inet_aton (codes "4294967297.0.0.1") ≡ some (1 ∷ 0 ∷ 0 ∷ 1 ∷ [])
unfolding inet_aton skip_space starts_with_digit digits
cut_address = refl

inet_aton-IsAddress_example : IsAddress (codes "4294967297.0.0.1") (1 ∷ 0 ∷ 0 ∷ 1 ∷ [])
inet_aton-IsAddress_example =
    inet_aton-IsAddress (codes "4294967297.0.0.1") (1 ∷ 0 ∷ 0 ∷ 1 ∷ []) cut_address

is_ipaddr-is_inetaddr_example :
    is_ipaddr solaris (codes "192.168.0.300") ≡ is_inetaddr solaris (codes "192.168.0.300")
is_ipaddr-is_inetaddr_example = is_ipaddr-is_inetaddr solaris (codes "192.168.0.300") refl

oconn-length_lem_example : length (oconn (pos 65535) (codes "255.255.255.255   ")) < oconn_length
oconn-length_lem_example =
    oconn-length_lem 65535 (codes "255.255.255.255   ") (omega arith) (omega arith)
