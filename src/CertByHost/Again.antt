-- ===== src/CertByHost/Again.antt =====
-- What a second call of get returns.
use npm.Common.{ℕ, true, Option, none, some, ◌≡◌}
use npm.ExpireCache.{MapOps, MapLaws, set_contains}
use npm.CertByHost.{Certs}

module _ {M Host Config : Type 0} (ops : MapOps M Host (Unit {0})) (laws : MapLaws ops) where
  -- What a call returns again.
  IsStored : Option Config → Host → Certs M Host Config → Type 0
  IsStored (some config) host s = s.cache host ≡ some config
  IsStored none host s =
      (s.cache host ≡ none) × ((now : ℕ) → (set_contains ops now host s.not_exist).0 ≡ true)
