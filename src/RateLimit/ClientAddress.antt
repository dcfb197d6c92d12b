-- ===== src/RateLimit/ClientAddress.antt =====
-- rate_limit.go: clientIP, ipInNetworks and parseTrustedProxyNetworks. What they call of the package
-- net is a parameter; the value of TRUSTED_PROXY_CIDRS and the lines of X-Forwarded-For are texts.
pub mod Forged
use im_backend.Prelude.{
  Bool, true, false, List, [], ◌∷◌, Option, none, some, if◌then◌else◌, any, not, reverse, parts,
  join, trim_space,
}
use im_backend.Message.{Text}

pub record Net : Type 1 where
  pub Ip : Type 0
  pub IpNet : Type 0
  pub split_host_port : Text → Option Text
  pub parse_ip : Text → Option Ip
  pub parse_cidr : Text → Option IpNet
  pub contains : IpNet → Ip → Bool
  pub string : Ip → Text

module _ (net : Net) where
  open net use {Ip, IpNet, split_host_port, parse_ip, parse_cidr, contains, string}

  unfoldable pub ip_in_networks : Ip → List IpNet → Bool
  ip_in_networks ip networks = any (λ network. contains network ip) networks

  -- The address behind the port, or all of RemoteAddr.
  unfoldable pub host_of : Text → Text
  host_of remote = elim (split_host_port remote) [ none ↦ remote | some host ↦ host ]

  -- The loop over the forwarded addresses, the last one first; `none` where one cannot be read.
  unfoldable pub walk : List IpNet → List Text → Ip → Option Ip
  walk trusted [] client = some client
  walk trusted (entry ∷ before) client = elim (parse_ip (trim_space entry)) [
    | none ↦ none
    | some address ↦
        if ip_in_networks address trusted then walk trusted before address else some address
  ]

  unfoldable pub forwarded_client : List IpNet → Text → List Text → Ip → Text
  forwarded_client trusted host forwarded peer = elim (walk trusted (reverse forwarded) peer) [
    | none ↦ host
    | some client ↦ string client
  ]

  unfoldable pub client_ip : List IpNet → Text → List Text → Text
  unfolding forwarded_client
  client_ip trusted remote lines = elim (parse_ip (host_of remote)) [
    | none ↦ host_of remote
    | some peer ↦
        if not (ip_in_networks peer trusted)
        then host_of remote
        else forwarded_client trusted (host_of remote) (parts 44 (join 44 lines)) peer
  ]

  unfoldable pub parse_networks : List Text → Option (List IpNet)
  parse_networks [] = some []
  parse_networks (part ∷ rest) = elim (parse_cidr (trim_space part)) [
    | none ↦ none
    | some network ↦ elim (parse_networks rest) [
      | none ↦ none
      | some networks ↦ some (network ∷ networks)
    ]
  ]

  -- none is an error, with which the process does not start.
  unfoldable pub parse_trusted_proxy_networks : Text → Option (List IpNet)
  unfolding parse_networks
  parse_trusted_proxy_networks value = elim (trim_space value) [
    | [] ↦ some []
    | _ ∷ _ ↦ parse_networks (parts 44 value)
  ]
