-- ===== src/Idns/Spf/Servers.antt =====
-- The mail servers of a domain, as idns/src/parse/spf.rs looks at them.
use npm.Common.{ℕ, ◌≡◌, inl, inr, refl, Option, none, some, List, [], ◌∷◌, take}
use npm.Text.{Text}
use npm.Idns.Address.{IpAddr}
use npm.Idns.Records.{Lookup, records, nothing, error, Mx}
use npm.Idns.Spf.Check.{
  Counting, return, max_mx, DnsResult, matched, no_match, failed, Resolver, host_match, mx_loop,
  mx_records, mx_match,
}
use npm.Idns.Spf.Gives.{In, Returns, Gives, inc-Gives}

module _ (q : Resolver) (ip : IpAddr) where
  -- One of the mail servers of a domain that are looked at has the address.
  abbrev pub MxHolds : Text → ℕ → Type 0
  MxHolds domain bits =
      (li : List Mx) × (q.mx domain ≡ records li)
      × (m : Mx) × In m (take max_mx li)
      × (host_match q m.server bits ip ≡ matched)

  abbrev pub MxOk : Text → ℕ → DnsResult → Type 0
  MxOk domain bits matched = MxHolds domain bits
  MxOk domain bits _ = Unit {0}

  abbrev ServerOk : List Mx → ℕ → DnsResult → Type 0
  ServerOk ms bits matched = (m : Mx) × In m ms × (host_match q m.server bits ip ≡ matched)
  ServerOk ms bits _ = Unit {0}

  server_step :
      (m : Mx) (ms : List Mx) (bits : ℕ) (rest : Counting DnsResult) (r : DnsResult)
      → host_match q m.server bits ip ≡ r
      → Gives (ServerOk ms bits) rest
      → Gives
          (ServerOk (m ∷ ms) bits)
          (elim r [ matched ↦ return matched | failed ↦ return failed | no_match ↦ rest ])
  server_step m ms bits rest matched e h n = (m, inl refl, e)
  server_step m ms bits rest failed e h n = tt
  server_step m ms bits rest no_match e h n = later (rest n) (h n)
    where
      later :
          (o : Option (DnsResult × ℕ))
          → Returns (ServerOk ms bits) o
          → Returns (ServerOk (m ∷ ms) bits) o
      later none k = tt
      later (some (matched, i)) (x, y, z) = (x, inr y, z)
      later (some (no_match, i)) k = tt
      later (some (failed, i)) k = tt

  mx_loop-Gives : (bits : ℕ) (ms : List Mx) → Gives (ServerOk ms bits) (mx_loop q bits ip ms)
  unfolding mx_loop
  mx_loop-Gives bits [] = λ n. tt
  mx_loop-Gives bits (m ∷ ms) = inc-Gives (ServerOk (m ∷ ms) bits) failed _ tt (
      server_step m ms bits (mx_loop q bits ip ms) (host_match q m.server bits ip) refl
        (mx_loop-Gives bits ms))

  pub mx_match-Gives :
      (domain : Text) (bits : ℕ) → Gives (MxOk domain bits) (mx_match q domain bits ip)
  unfolding mx_match
  mx_match-Gives domain bits = by_records (q.mx domain) refl
    where
      found :
          (li : List Mx)
          → q.mx domain ≡ records li
          → (o : Option (DnsResult × ℕ)) → Returns (ServerOk (take max_mx li) bits) o
          → Returns (MxOk domain bits) o
      found li e none h = tt
      found li e (some (matched, i)) h = (li, e, h.0, h.1, h.2)
      found li e (some (no_match, i)) h = tt
      found li e (some (failed, i)) h = tt

      by_records :
          (l : Lookup Mx) → q.mx domain ≡ l → Gives (MxOk domain bits) (mx_records q bits ip l)
      by_records (records li) e n = found li e _ (mx_loop-Gives bits (take max_mx li) n)
      by_records nothing e n = tt
      by_records error e n = tt
