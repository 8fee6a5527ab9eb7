-- ===== src/CertByHost/Looks.antt =====
-- The first step of a call: it finds what is cached, and leaves the certificates as they are.
use npm.Common.{ℕ, Bool, true, false, Option, none, some, List, ◌≡◌, ◌≢◌}
use npm.ExpireCache.{MapOps, Expire, set_contains}
use npm.CertByHost.{Certs, hit, check_absent, check_cache, look_up}

module _ {M Host Config : Type 0} (ops : MapOps M Host (Unit {0})) where
  no_hit :
      (r : Bool × Expire M) (s : Certs M Host Config) (config : Config)
      → (check_absent ops r s).0 ≢ hit config
  unfolding check_absent
  no_hit (true, not_exist) s config h = cc
  no_hit (false, not_exist) s config h = cc

  hit_of :
      (o : Option Config) (now : ℕ) (host : Host) (s : Certs M Host Config) (config : Config)
      → (check_cache ops o now host s).0 ≡ hit config
      → o ≡ some config
  unfolding check_cache
  hit_of (some c) now host s config h = cc
  hit_of none now host s config h =
      absurd (no_hit (set_contains ops now host s.not_exist) s config h)

  pub hit_cached :
      (now : ℕ) (host : Host) (s : Certs M Host Config) (config : Config)
      → (look_up ops now host s).0 ≡ hit config
      → s.cache host ≡ some config
  unfolding look_up
  hit_cached now host s config h = hit_of (s.cache host) now host s config h

  module _ (P : (Host → Option Config) → List (ℕ × Host) → Type 0) where
    absent_keeps :
        (r : Bool × Expire M) (s : Certs M Host Config)
        → P s.cache s.expire
        → P (check_absent ops r s).1.cache (check_absent ops r s).1.expire
    unfolding check_absent
    absent_keeps (true, not_exist) s h = h
    absent_keeps (false, not_exist) s h = h

    check_keeps :
        (o : Option Config) (now : ℕ) (host : Host) (s : Certs M Host Config)
        → P s.cache s.expire
        → P (check_cache ops o now host s).1.cache (check_cache ops o now host s).1.expire
    unfolding check_cache
    check_keeps (some config) now host s h = h
    check_keeps none now host s h = absent_keeps (set_contains ops now host s.not_exist) s h

    pub look_up-keeps :
        (now : ℕ) (host : Host) (s : Certs M Host Config)
        → P s.cache s.expire
        → P (look_up ops now host s).1.cache (look_up ops now host s).1.expire
    unfolding look_up
    look_up-keeps now host s h = check_keeps (s.cache host) now host s h
