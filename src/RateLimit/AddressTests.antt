-- ===== src/RateLimit/AddressTests.antt =====
-- The client's address behind a proxy, over a small reading of addresses and networks.
use im_backend.Prelude.{
  ◌≡◌, refl, inr, Bool, true, false, ◌&&◌, ◌||◌, [], ◌∷◌, List, Option, none, some, leb, ◌==◌,
  if◌then◌else◌, codes, parts, join, trim_space,
}
use im_backend.Message.{Text}
use im_backend.RateLimit.ClientAddress.{
  Net, client_ip, host_of, walk, ip_in_networks, parse_networks, parse_trusted_proxy_networks,
}
use im_backend.RateLimit.ClientAddress.Forged.{forged_addresses_are_ignored}

abbrev is_numeric : Text → Bool
is_numeric [] = true
is_numeric (c ∷ rest) = ((leb 48 c && leb c 57) || c == 46) && is_numeric rest

-- An address is digits and dots.
abbrev read_address : Text → Option Text
read_address [] = none
read_address (c ∷ rest) = if is_numeric (c ∷ rest) then some (c ∷ rest) else none

abbrev before_port : Text → Text
before_port [] = []
before_port (c ∷ rest) = elim (c == 58) [ true ↦ [] | false ↦ c ∷ before_port rest ]

abbrev has_prefix : Text → Text → Bool
has_prefix [] text = true
has_prefix (p ∷ prefix) [] = false
has_prefix (p ∷ prefix) (c ∷ text) = (p == c) && has_prefix prefix text

abbrev dotted : Net
dotted = record {
  Ip = Text;
  IpNet = Text;
  split_host_port = λ remote. some (before_port remote);
  parse_ip = read_address;
  parse_cidr = read_address;
  contains = has_prefix;
  string = λ ip. ip;
}

abbrev inside : List Text
inside = codes "10." ∷ []

inside_read : parse_trusted_proxy_networks dotted (codes " 10. ") ≡ some inside
unfolding parse_trusted_proxy_networks parse_networks parts trim_space
inside_read = refl

malformed_suffix :
    client_ip dotted inside (codes "10.0.0.8:1234") (codes "203.0.113.77, invalid" ∷ [])
    ≡ codes "10.0.0.8"
unfolding client_ip host_of walk ip_in_networks parts join trim_space
malformed_suffix = refl

untrusted_peer :
    client_ip dotted inside (codes "198.51.100.42:1234") (codes "203.0.113.77" ∷ [])
    ≡ codes "198.51.100.42"
unfolding client_ip host_of walk ip_in_networks parts join trim_space
untrusted_peer = refl

missing_header : client_ip dotted inside (codes "10.0.0.8:1234") [] ≡ codes "10.0.0.8"
unfolding client_ip host_of walk ip_in_networks parts join trim_space
missing_header = refl

forged_addresses_are_ignored_example :
    client_ip dotted inside
      (codes "10.0.0.8:1234")
      (codes "203.0.113.77, 198.51.100.42" ∷ codes "10.0.0.9" ∷ [])
    ≡ codes "198.51.100.42"
unfolding host_of ip_in_networks parts join trim_space
forged_addresses_are_ignored_example =
    forged_addresses_are_ignored dotted inside (codes "10.0.0.8:1234")
      (codes " 198.51.100.42,10.0.0.9") (codes " 198.51.100.42")
      (codes "203.0.113.77, 198.51.100.42" ∷ codes "10.0.0.9" ∷ []) (codes "10.0.0.9" ∷ [])
      (codes "10.0.0.8") (codes "198.51.100.42") refl refl refl ((codes "10.0.0.9", refl, refl), tt)
      refl refl (inr (codes "203.0.113.77", refl))
