-- ===== src/Identity/Network.antt =====
-- internal/identity/network.go: `NetworkHash`. Parsing and printing addresses is a parameter.
pub mod Shared
use mipttest_task.Base.{
  ℕ, zero, suc, Bool, true, false, ◌||◌, Option, none, some, List, [], ◌∷◌, ◌++◌, if◌then◌else◌,
  Str, codes, trim_space, take,
}
use mipttest_task.Config.Values.{split_commas, nonempty_or}
use mipttest_task.Identity.{Crypto}

-- What `net.ParseIP` returns, by what `To4` makes of it: four bytes, or sixteen.
pub data Ip : Type 0 where
  ip4 ip16 : List ℕ → Ip

-- `net.SplitHostPort`, `net.ParseIP`, `IPNet.Contains` and `IP.String`. `N` stands for `net.IPNet`.
pub record Addresses (N : Type 0) : Type 0 where
  pub split_host : Str → Option Str
  pub parse_ip : Str → Option Ip
  pub holds_ip : N → Ip → Bool
  pub ip_string : Ip → Str

abbrev pub zeros : ℕ → List ℕ
zeros zero = []
zeros (suc n) = 0 ∷ zeros n

-- `Mask(net.CIDRMask(24, 32))` and `Mask(net.CIDRMask(56, 128))`
abbrev pub mask_24 : List ℕ → List ℕ
mask_24 bytes = take 3 bytes ++ zeros 1

abbrev pub mask_56 : List ℕ → List ℕ
mask_56 bytes = take 7 bytes ++ zeros 9

abbrev pub first_of : List Str → Str
first_of [] = []
first_of (s ∷ rest) = s

module _ {N : Type 0} (nets : Addresses N) where
  -- The name of the network that an address belongs to.
  abbrev pub network_of : Option Ip → Str
  network_of none = codes "invalid"
  network_of (some (ip4 bytes)) = nets.ip_string (ip4 (mask_24 bytes)) ++ codes "/24"
  network_of (some (ip16 bytes)) = nets.ip_string (ip16 (mask_56 bytes)) ++ codes "/56"

  -- The loop over the trusted proxies.
  abbrev pub is_trusted : List N → Option Ip → Bool
  is_trusted [] ip = false
  is_trusted (n ∷ ns) none = is_trusted ns none
  is_trusted (n ∷ ns) (some ip) = nets.holds_ip n ip || is_trusted ns (some ip)

  abbrev pub host_or_all : Option Str → Str → Str
  host_or_all none remote = remote
  host_or_all (some host) remote = host

  -- The host of the client: the peer, or what a trusted proxy says.
  unfoldable pub client_host : List N → Str → Str → Str
  unfolding trim_space split_commas
  client_host proxies remote forwarded =
      let host = host_or_all (nets.split_host remote) remote in
      if is_trusted proxies (nets.parse_ip host)
      then nonempty_or (trim_space (first_of (split_commas forwarded))) host
      else host

  -- `NetworkHash`, of the peer's address and the header `X-Forwarded-For`.
  unfoldable pub network_hash : Crypto → List ℕ → List N → Str → Str → Str
  unfolding client_host
  network_hash c key proxies remote forwarded = c.encode (
      c.mac key
        (codes "rate\n" ++ network_of (nets.parse_ip (client_host proxies remote forwarded))))
