-- ===== src/RateLimit/ClientAddress/Forged.antt =====
-- What a client writes into X-Forwarded-For before its request reaches a trusted proxy.
use im_backend.Prelude.{
  ◌≡◌, refl, sym, ap, ◌∙◌, ◌⊎◌, inl, inr, true, false, List, [], ◌∷◌, ◌++◌, some, All, All-append,
  reverse, parts, parts-append, join, trim_space, append_assoc, append-nil,
}
use im_backend.Message.{Text}
use im_backend.RateLimit.ClientAddress.{
  Net, ip_in_networks, host_of, walk, forwarded_client, client_ip,
}

module _ (net : Net) (trusted : List net.IpNet) where
  -- An entry is the address of a trusted proxy.
  abbrev pub IsProxy : Text → Type 0
  IsProxy entry =
      (ip : net.Ip) × (net.parse_ip (trim_space entry) ≡ some ip)
      × (ip_in_networks net ip trusted ≡ true)

  reverse-append : (xs ys : List Text) → reverse (xs ++ ys) ≡ reverse ys ++ reverse xs
  reverse-append [] ys = sym (append-nil (reverse ys))
  reverse-append (x ∷ xs) ys =
      ap (λ l. l ++ (x ∷ [])) (reverse-append xs ys)
      ∙ append_assoc (reverse ys) (reverse xs) (x ∷ [])

  All-reverse {κ} : (P : Text → Type κ) (xs : List Text) → All P xs → All P (reverse xs)
  All-reverse P [] h = tt
  All-reverse P (x ∷ xs) h = All-append P (reverse xs) (x ∷ []) (All-reverse P xs h.1) (h.0, tt)

  -- Behind the proxies the walk stops at the first address that is not one of them.
  walk-stops :
      (hops before : List Text) (entry : Text) (client peer : net.Ip)
      → All IsProxy hops
      → net.parse_ip (trim_space entry) ≡ some client
      → ip_in_networks net client trusted ≡ false
      → walk net trusted (hops ++ (entry ∷ before)) peer ≡ some client
  unfolding walk
  walk-stops [] before entry client peer h e f = rw e (rw f refl)
  walk-stops (hop ∷ hops) before entry client peer ((ip, p, t), h) e f =
      rw p (rw t (walk-stops hops before entry client ip h e f))

  -- The entries that the proxies wrote decide, whatever stands before them.
  walk-written :
      (before hops : List Text) (entry : Text) (client peer : net.Ip)
      → All IsProxy hops
      → net.parse_ip (trim_space entry) ≡ some client
      → ip_in_networks net client trusted ≡ false
      → walk net trusted (reverse (before ++ (entry ∷ hops))) peer ≡ some client
  walk-written before hops entry client peer h e f =
      ap (λ l. walk net trusted l peer)
        (reverse-append before (entry ∷ hops)
          ∙ append_assoc (reverse hops) (entry ∷ []) (reverse before))
      ∙ walk-stops (reverse hops) (reverse before) entry client peer (All-reverse IsProxy hops h) e
          f

  from_trusted_peer :
      (remote : Text) (lines : List Text) (peer client : net.Ip)
      → net.parse_ip (host_of net remote) ≡ some peer
      → ip_in_networks net peer trusted ≡ true
      → walk net trusted (reverse (parts 44 (join 44 lines))) peer ≡ some client
      → client_ip net trusted remote lines ≡ net.string client
  unfolding client_ip forwarded_client
  from_trusted_peer remote lines peer client p t e =
      rw (p, client_ip) (rw t (rw (e, forwarded_client) refl))

  -- A request reaches the server from a trusted proxy. Of the lines of X-Forwarded-For the proxies
  -- wrote the end: an address that is not a proxy's, and behind it those of other trusted proxies.
  -- Then that address is the client's, whatever the client has written before it.
  pub forged_addresses_are_ignored :
      (remote vouched entry : Text) (lines hops : List Text) (peer client : net.Ip)
      → net.parse_ip (host_of net remote) ≡ some peer
      → ip_in_networks net peer trusted ≡ true
      → parts 44 vouched ≡ entry ∷ hops
      → All IsProxy hops
      → net.parse_ip (trim_space entry) ≡ some client
      → ip_in_networks net client trusted ≡ false
      → (join 44 lines ≡ vouched) ⊎ ((forged : Text) × (join 44 lines ≡ forged ++ (44 ∷ vouched)))
      → client_ip net trusted remote lines ≡ net.string client
  forged_addresses_are_ignored remote vouched entry lines hops peer client p t cut h e f
        (inl same) =
      from_trusted_peer remote lines peer client p t (
        ap (λ l. walk net trusted (reverse l) peer) (ap (parts 44) same ∙ cut)
        ∙ walk-written [] hops entry client peer h e f)
  forged_addresses_are_ignored remote vouched entry lines hops peer client p t cut h e f
        (inr (forged, more)) =
      from_trusted_peer remote lines peer client p t (
        ap (λ l. walk net trusted (reverse l) peer)
          (ap (parts 44) more ∙ parts-append 44 forged vouched ∙ ap (parts 44 forged ++◌) cut)
        ∙ walk-written (parts 44 forged) hops entry client peer h e f)
