-- ===== src/Idns/Spf/Soundness.antt =====
-- When the evaluation of idns/src/parse/spf.rs lets a sender pass.
use npm.Common.{◌≡◌, ◌⊎◌, true, Option, none, some, [], ◌∷◌}
use npm.Text.{Text}
use npm.Idns.Address.{IpAddr}
use npm.Idns.Records.{records}
use npm.Idns.Spf.{Status, Act, Host, HostKind, Spf}
use npm.Idns.Spf.Macro.{expand_macro}
use npm.Idns.Spf.Check.{
  matched, Resolver, Verdict, stop, go_on, redirect_to, or_domain, check, host_match, host_exists,
  width,
}
use npm.Idns.Spf.Gives.{In, Gives}
use npm.Idns.Spf.Servers.{MxHolds}

module _ (q : Resolver) (ip : IpAddr) where
  abbrev pub Holds : Text → HostKind → Type 0
  Holds domain (HostKind.a d bits) = host_match q (or_domain d domain) bits ip ≡ matched
  Holds domain (HostKind.mx d bits) = MxHolds q ip (or_domain d domain) bits
  Holds domain (HostKind.exists d) = host_exists q (expand_macro q.display d ip domain) ≡ true
  Holds domain _ = ⊥

  -- The one record of a domain authorises the address: by a range or by `all`, by a mechanism that
  -- holds, or by a domain that it includes or redirects to.
  pub data Passes : Text → Type 0 where
    by_check :
        (domain : Text) (s : Spf)
        → q.spf domain ≡ records (s ∷ [])
        → check s ip ≡ some Act.pass
        → Passes domain
    by_all :
        (domain : Text) (s : Spf)
        → q.spf domain ≡ records (s ∷ [])
        → s.all ≡ some Act.pass
        → Passes domain
    by_host :
        (domain : Text) (s : Spf)
        → q.spf domain ≡ records (s ∷ [])
        → (h : Host) → In h s.host
        → h.act ≡ Act.pass
        → Holds domain h.kind
        → Passes domain
    by_include :
        (domain : Text) (s : Spf)
        → q.spf domain ≡ records (s ∷ [])
        → (h : Host) → In h s.host
        → h.act ≡ Act.pass
        → (d : Text) → h.kind ≡ HostKind.include d
        → Passes d
        → Passes domain
    by_redirect :
        (domain : Text) (s : Spf)
        → q.spf domain ≡ records (s ∷ [])
        → (h : Host) → In h s.host
        → (d : Text) → h.kind ≡ HostKind.redirect d
        → Passes d
        → Passes domain

  abbrev PassOk : Text → Status → Type 0
  PassOk domain Status.pass = Passes domain
  PassOk domain _ = Unit {0}

  -- A redirect that was seen stands in the record.
  abbrev RedirectOk : Spf → Option Text → Type 0
  RedirectOk s none = Unit {0}
  RedirectOk s (some d) = (h : Host) × In h s.host × (h.kind ≡ HostKind.redirect d)

  abbrev VerdictOk : Text → Spf → Verdict → Type 0
  VerdictOk domain s (stop status) = PassOk domain status
  VerdictOk domain s go_on = Unit {0}
  VerdictOk domain s (redirect_to d) = RedirectOk s (some d)

  abbrev VerifyOk : Text → Status → Type 0
  VerifyOk domain Status.pass = Passes domain ⊎ MxHolds q ip domain (width q ip)
  VerifyOk domain _ = Unit {0}
