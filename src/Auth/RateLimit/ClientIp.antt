-- ===== src/Auth/RateLimit/ClientIp.antt =====
-- internal/auth/ratelimit.go, `clientIP`: the address that a request is counted under.
-- The functions of Go's `net` and `strings` packages that it calls are the record `Net`.
use machmqtt_dashboard.Prelude.{
  ◌≡◌, refl, List, [], ◌∷◌, ◌++◌, String, Bool, true, false, arith, if◌then◌else◌, Option, some,
  none, All, ◌∙◌, ap,
}
use mathlib.Core.List.{reverse, reverse-append, reverse-cons, append_assoc}

pub record Net : Type 1 where
  pub Ip : Type 0
  pub Network : Type 0
  pub parse_ip : String → Option Ip
  pub contains : Network → Ip → Bool
  -- The host of `SplitHostPort`, where that succeeds.
  pub split_host_port : String → Option String
  pub split_comma : String → List String
  pub trim_space : String → String

module _ (net : Net) where
  open net use {Ip, Network, parse_ip, contains, split_host_port, split_comma, trim_space}

  unfoldable pub any_contains : List Network → Ip → Bool
  any_contains [] ip = false
  any_contains (n ∷ ns) ip = if contains n ip then true else any_contains ns ip

  unfoldable pub ip_in_networks : String → List Network → Bool
  ip_in_networks value networks = elim (parse_ip value) [
    | none ↦ false
    | some ip ↦ any_contains networks ip
  ]

  unfoldable pub remote_ip : String → String
  remote_ip address = elim (split_host_port address) [ none ↦ address | some host ↦ host ]

  -- The loop from right to left; the list is the forwarded addresses reversed.
  unfoldable pub walk : List Network → String → List String → String
  walk trusted remote [] = remote
  walk trusted remote (entry ∷ rest) =
      let candidate = trim_space entry in
      elim (parse_ip candidate) [
        | none ↦ walk trusted remote rest
        | some ip ↦ if ip_in_networks candidate trusted then walk trusted remote rest else candidate
      ]

  -- `remote_addr` is `r.RemoteAddr` and `forwarded` the header `X-Forwarded-For`.
  unfoldable pub client_ip : String → String → List Network → String
  unfolding walk
  client_ip remote_addr forwarded trusted =
      let remote = remote_ip remote_addr in
      if ip_in_networks remote trusted
      then walk trusted remote (reverse (split_comma forwarded))
      else remote

  -- An entry that the walk passes over: no address, or a trusted proxy's.
  abbrev pub is_skipped : List Network → String → Bool
  is_skipped trusted entry = elim (parse_ip (trim_space entry)) [
    | none ↦ true
    | some ip ↦ ip_in_networks (trim_space entry) trusted
  ]

  walk-skipped :
      (trusted : List Network) (remote : String) (xs ys : List String)
      → All (λ e. is_skipped trusted e ≡ true) xs
      → walk trusted remote (xs ++ ys) ≡ walk trusted remote ys
  unfolding walk
  walk-skipped trusted remote [] ys h = refl
  walk-skipped trusted remote (x ∷ xs) ys h = ground (arith, walk-skipped trusted remote xs ys h.1)

  walk-hit :
      (trusted : List Network) (remote entry : String) (ys : List String)
      → is_skipped trusted entry ≡ false
      → walk trusted remote (entry ∷ ys) ≡ trim_space entry
  unfolding walk
  walk-hit trusted remote entry ys h = ground arith

  pub All-reverse : (P : String → Type 0) (xs : List String) → All P xs → All P (reverse xs)
  All-reverse P [] h = tt
  All-reverse P (x ∷ xs) h =
      rw (reverse-cons x xs) (All-append (reverse xs) (All-reverse P xs h.1) h.0)
    where
      All-append : (ys : List String) → All P ys → P x → All P (ys ++ x ∷ [])
      All-append [] a p = (p, tt)
      All-append (y ∷ ys) a p = (a.0, All-append ys a.1 p)

  -- A peer that is no trusted proxy is counted under its own address, whatever it forwards.
  pub client_ip-direct :
      (remote_addr forwarded : String) (trusted : List Network)
      → ip_in_networks (remote_ip remote_addr) trusted ≡ false
      → client_ip remote_addr forwarded trusted ≡ remote_ip remote_addr
  unfolding client_ip
  client_ip-direct remote_addr forwarded trusted h = rw h

  -- Behind a trusted proxy the address is the rightmost forwarded one that is valid and not a trusted
  -- proxy's: what stands left of it, which the client may have written, has no influence.
  pub client_ip-forwarded :
      (remote_addr forwarded entry : String) (trusted : List Network)
      (spoofed proxies : List String)
      → ip_in_networks (remote_ip remote_addr) trusted ≡ true
      → split_comma forwarded ≡ spoofed ++ (entry ∷ proxies)
      → is_skipped trusted entry ≡ false
      → All (λ e. is_skipped trusted e ≡ true) proxies
      → client_ip remote_addr forwarded trusted ≡ trim_space entry
  unfolding client_ip
  client_ip-forwarded remote_addr forwarded entry trusted spoofed proxies h split hit skipped =
      let remote = remote_ip remote_addr in
      let turned : reverse (spoofed ++ (entry ∷ proxies))
          ≡ reverse proxies ++ (entry ∷ reverse spoofed) =
        reverse-append spoofed (entry ∷ proxies)
        ∙ ap (λ l. l ++ reverse spoofed) (reverse-cons entry proxies)
        ∙ append_assoc (reverse proxies) (entry ∷ []) (reverse spoofed) in
      rw (h, split, turned)
        (walk-skipped trusted remote (reverse proxies) (entry ∷ reverse spoofed)
            (All-reverse (λ e. is_skipped trusted e ≡ true) proxies skipped)
          ∙ walk-hit trusted remote entry (reverse spoofed) hit)
