-- ===== src/Identity/Network/Shared.antt =====
-- Who shares a network hash, and so a rate limit.
use mipttest_task.Base.{
  ℕ, ◌≡◌, refl, sym, ap, ◌∙◌, false, some, List, [], ◌∷◌, ◌++◌, if◌then◌else◌, Str, codes,
  trim_space, ◌||◌, take, All,
}
use mipttest_task.Config.Values.{split_commas, nonempty_or}
use mipttest_task.Identity.{Crypto}
use mipttest_task.Identity.Network.{
  Ip, ip4, ip16, Addresses, zeros, first_of, network_of, is_trusted, host_or_all, client_host,
  network_hash,
}

-- Two addresses of one network: 24 bits of a short address, 56 of a long one.
abbrev pub ShareNetwork : Ip → Ip → Type 0
ShareNetwork (ip4 a) (ip4 b) = take 3 a ≡ take 3 b
ShareNetwork (ip16 a) (ip16 b) = take 7 a ≡ take 7 b
ShareNetwork _ _ = ⊥

module _ {N : Type 0} (nets : Addresses N) (c : Crypto) (key : List ℕ) (proxies : List N) where
  -- An address outside the networks of all trusted proxies.
  abbrev pub IsOutside : Ip → Type 0
  IsOutside ip = All (λ n. nets.holds_ip n ip ≡ false) proxies

  abbrev pub peer_of : Str → Str
  peer_of remote = host_or_all nets (nets.split_host remote) remote

  is_trusted-none :
      (ns : List N) (ip : Ip)
      → All (λ n. nets.holds_ip n ip ≡ false) ns
      → is_trusted nets ns (some ip) ≡ false
  is_trusted-none [] ip h = refl
  is_trusted-none (n ∷ ns) ip (own, others) =
      ap (λ b. b || is_trusted nets ns (some ip)) own ∙ is_trusted-none ns ip others

  client_host-outside :
      (remote forwarded : Str) (ip : Ip)
      → nets.parse_ip (peer_of remote) ≡ some ip
      → IsOutside ip
      → client_host nets proxies remote forwarded ≡ peer_of remote
  unfolding client_host
  client_host-outside remote forwarded ip e outside =
      ap
        (λ b.
          if b
          then nonempty_or (trim_space (first_of (split_commas forwarded))) (peer_of remote)
          else peer_of remote)
        (ap (is_trusted nets proxies) e ∙ is_trusted-none proxies ip outside)

  network_of-shared :
      (ip ip' : Ip) → ShareNetwork ip ip' → network_of nets (some ip) ≡ network_of nets (some ip')
  network_of-shared (ip4 a) (ip4 b) h =
      ap (λ bytes. nets.ip_string (ip4 (bytes ++ 0 ∷ [])) ++ codes "/24") h
  network_of-shared (ip16 a) (ip16 b) h =
      ap (λ bytes. nets.ip_string (ip16 (bytes ++ zeros 9)) ++ codes "/56") h
  network_of-shared (ip4 a) (ip16 b) h = absurd h
  network_of-shared (ip16 a) (ip4 b) h = absurd h

  -- Two requests whose peers are no trusted proxies and have addresses of one network, 24 bits of a
  -- short address and 56 of a long one, have the same network hash, whatever they say in
  -- `X-Forwarded-For`.
  pub network_hash-shared :
      (remote remote' forwarded forwarded' : Str) (ip ip' : Ip)
      → nets.parse_ip (peer_of remote) ≡ some ip
      → nets.parse_ip (peer_of remote') ≡ some ip'
      → IsOutside ip
      → IsOutside ip'
      → ShareNetwork ip ip'
      → network_hash nets c key proxies remote forwarded
        ≡ network_hash nets c key proxies remote' forwarded'
  unfolding network_hash
  network_hash-shared remote remote' forwarded forwarded' ip ip' e e' outside outside' shared =
      ap (λ o. c.encode (c.mac key (codes "rate\n" ++ network_of nets o)))
        (ap nets.parse_ip (client_host-outside remote forwarded ip e outside) ∙ e)
      ∙ ap (λ name. c.encode (c.mac key (codes "rate\n" ++ name))) (network_of-shared ip ip' shared)
      ∙ sym (
          ap (λ o. c.encode (c.mac key (codes "rate\n" ++ network_of nets o)))
            (ap nets.parse_ip (client_host-outside remote' forwarded' ip' e' outside') ∙ e'))
