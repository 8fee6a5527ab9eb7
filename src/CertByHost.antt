-- ===== src/CertByHost.antt =====
-- cert_by_host/src/lib.rs and get_by_kvrocks.rs: certificates by host, with a cache, the hosts that
-- do not exist, and the hourly task that forgets the certificates that are near their end. A call
-- has two steps, before and after the certificate is fetched, between which other calls run. The
-- store of the certificates and the parsers are parameters. A time is in milliseconds for a call,
-- which the set of the absent hosts reads, and in seconds for the task.
pub mod Looks
pub mod Fresh
pub mod Again
mod Tests
use npm.Common.{
  ℕ, ◌+◌, Bool, true, false, Option, none, some, List, [], ◌∷◌, ◌⊎◌, inl, inr, ltb, leb, ◌==◌,
  if◌then◌else◌,
}
use npm.ExpireCache.{MapOps, Expire, set_insert, set_contains}
use npm.ExpireCache as Cache

pub data Error : Type 0 where
  fred : Error
  sonic : Error
  invalid_private_key : Error
  io : Error
  cert_chain_empty : Error
  x509_parse : Error

pub data ℤ : Type 0 where
  pos : ℕ → ℤ
  negsuc : ℕ → ℤ

pub record SslConfig (Key Der : Type 0) : Type 0 where
  pub key : Key
  pub cert : List Der

-- The crates that get_by_kvrocks calls.
pub record Parsers (Host Bytes Key Der : Type 0) : Type 0 where
  pub get : Host → Option Bytes ⊎ Error
  pub from_slice : Bytes → Option (Bytes × Bytes) ⊎ Error
  pub private_key : Bytes → Option Key ⊎ Error
  pub certs : Bytes → List Der ⊎ Error
  pub not_after : Der → Option ℤ

unfoldable pub max_zero : ℤ → ℕ
max_zero (pos n) = n
max_zero (negsuc n) = 0

module _ {Host Bytes Key Der : Type 0} (parsers : Parsers Host Bytes Key Der) where
  unfoldable pub deadline_of : Option ℤ → SslConfig Key Der → Option (SslConfig Key Der × ℕ) ⊎ Error
  unfolding max_zero
  deadline_of none config = inr x509_parse
  deadline_of (some timestamp) config = inl (some (config, max_zero timestamp))

  unfoldable pub leaf_of : Key → List Der ⊎ Error → Option (SslConfig Key Der × ℕ) ⊎ Error
  unfolding deadline_of
  leaf_of key (inr e) = inr e
  leaf_of key (inl []) = inr cert_chain_empty
  leaf_of key (inl (leaf ∷ chain)) =
      deadline_of (parsers.not_after leaf) (record { key = key; cert = leaf ∷ chain })

  unfoldable pub key_of : Bytes → Option Key ⊎ Error → Option (SslConfig Key Der × ℕ) ⊎ Error
  unfolding leaf_of
  key_of cert_pem (inr e) = inr e
  key_of cert_pem (inl none) = inr invalid_private_key
  key_of cert_pem (inl (some key)) = leaf_of key (parsers.certs cert_pem)

  unfoldable pub pems_of : Option (Bytes × Bytes) ⊎ Error → Option (SslConfig Key Der × ℕ) ⊎ Error
  unfolding key_of
  pems_of (inr e) = inr e
  pems_of (inl none) = inl none
  pems_of (inl (some (key_pem, cert_pem))) = key_of cert_pem (parsers.private_key key_pem)

  unfoldable pub data_of : Option Bytes ⊎ Error → Option (SslConfig Key Der × ℕ) ⊎ Error
  unfolding pems_of
  data_of (inr e) = inr e
  data_of (inl none) = inl none
  data_of (inl (some bytes)) = pems_of (parsers.from_slice bytes)

  unfoldable pub get_by_kvrocks : Host → Option (SslConfig Key Der × ℕ) ⊎ Error
  unfolding data_of
  get_by_kvrocks host = data_of (parsers.get host)

-- The map EXPIRE, in the order of its keys.
module _ {Host : Type 0} where
  unfoldable pub btree_insert : ℕ → Host → List (ℕ × Host) → List (ℕ × Host)
  btree_insert k v [] = (k, v) ∷ []
  btree_insert k v ((j, u) ∷ entries) =
      let rest = btree_insert k v entries in
      if ltb k j
      then (k, v) ∷ (j, u) ∷ entries
      else if k == j
      then (k, v) ∷ entries
      else (j, u) ∷ rest

  -- What `split_off` returns, and what it leaves.
  unfoldable pub split_off : ℕ → List (ℕ × Host) → List (ℕ × Host)
  split_off at [] = []
  split_off at ((j, u) ∷ entries) =
      let rest = split_off at entries in if leb at j then (j, u) ∷ rest else rest

  unfoldable pub split_left : ℕ → List (ℕ × Host) → List (ℕ × Host)
  split_left at [] = []
  split_left at ((j, u) ∷ entries) =
      let rest = split_left at entries in if leb at j then rest else (j, u) ∷ rest

-- The statics CACHE, EXPIRE and NOT_EXIST.
pub record Certs (M Host Config : Type 0) : Type 0 where
  pub cache : Host → Option Config
  pub expire : List (ℕ × Host)
  pub not_exist : Expire M

-- What the first step of a call ends with: the result, or a certificate to fetch.
pub data Looked (Config : Type 0) : Type 0 where
  hit : Config → Looked Config
  known_absent : Looked Config
  to_fetch : Looked Config

-- Steps of calls and of the task, in any order.
pub data Event (Host Config : Type 0) : Type 0 where
  on_look : ℕ → Host → Event Host Config
  on_fetched : ℕ → Host → Option (Config × ℕ) ⊎ Error → Event Host Config
  on_purge : ℕ → Event Host Config

module _ {M Host Config : Type 0} (ops : MapOps M Host (Unit {0})) where
  unfoldable pub cache_insert : Host → Config → (Host → Option Config) → Host → Option Config
  cache_insert host config cache other = if ops.same host other then some config else cache other

  unfoldable pub cache_remove : Host → (Host → Option Config) → Host → Option Config
  cache_remove host cache other = if ops.same host other then none else cache other

  unfoldable pub new : Certs M Host Config
  new = record { cache = λ host. none; expire = []; not_exist = Cache.new ops 30 }

  unfoldable pub check_absent :
      Bool × Expire M → Certs M Host Config → Looked Config × Certs M Host Config
  check_absent (true, not_exist) s = (known_absent, record s { not_exist = not_exist })
  check_absent (false, not_exist) s = (to_fetch, record s { not_exist = not_exist })

  unfoldable pub check_cache :
      Option Config → ℕ → Host → Certs M Host Config → Looked Config × Certs M Host Config
  unfolding check_absent
  check_cache (some config) now host s = (hit config, s)
  check_cache none now host s = check_absent (set_contains ops now host s.not_exist) s

  -- A call of `get`, up to the fetch.
  unfoldable pub look_up : ℕ → Host → Certs M Host Config → Looked Config × Certs M Host Config
  unfolding check_cache
  look_up now host s = check_cache (s.cache host) now host s

  -- And from there.
  unfoldable pub fetched :
      ℕ
      → Host
      → Option (Config × ℕ) ⊎ Error
      → Certs M Host Config
      → (Option Config ⊎ Error) × Certs M Host Config
  unfolding cache_insert
  fetched now host (inr e) s = (inr e, s)
  fetched now host (inl none) s =
      (inl none, record s { not_exist = set_insert ops now host s.not_exist })
  fetched now host (inl (some (config, deadline))) s = (
    inl (some config),
    record s {
      cache = cache_insert host config s.cache;
      expire = btree_insert deadline host s.expire;
    },
  )

  unfoldable pub after_look :
      ℕ
      → Host
      → Option (Config × ℕ) ⊎ Error
      → Looked Config × Certs M Host Config
      → (Option Config ⊎ Error) × Certs M Host Config
  unfolding fetched
  after_look now host reply (hit config, s) = (inl (some config), s)
  after_look now host reply (known_absent, s) = (inl none, s)
  after_look now host reply (to_fetch, s) = fetched now host reply s

  -- A call during which nothing else runs, with what is fetched if it comes to that.
  unfoldable pub get :
      ℕ
      → Host
      → Option (Config × ℕ) ⊎ Error
      → Certs M Host Config
      → (Option Config ⊎ Error) × Certs M Host Config
  unfolding look_up after_look
  get now host reply s = after_look now host reply (look_up now host s)

  unfoldable pub remove_all : List (ℕ × Host) → (Host → Option Config) → Host → Option Config
  unfolding cache_remove
  remove_all [] cache = cache
  remove_all ((deadline, host) ∷ entries) cache = remove_all entries (cache_remove host cache)

  -- A turn of the hourly task, at a time in seconds.
  unfoldable pub purge : ℕ → ℕ → Certs M Host Config → Certs M Host Config
  unfolding remove_all
  purge ssl_expire_pre now s =
      let deadline = now + ssl_expire_pre in
      record s {
        cache = remove_all (split_left deadline s.expire) s.cache;
        expire = split_off deadline s.expire;
      }

  unfoldable pub step : ℕ → Event Host Config → Certs M Host Config → Certs M Host Config
  unfolding look_up fetched purge
  step ssl_expire_pre (on_look now host) s = (look_up now host s).1
  step ssl_expire_pre (on_fetched now host reply) s = (fetched now host reply s).1
  step ssl_expire_pre (on_purge now) s = purge ssl_expire_pre now s

  unfoldable pub run : ℕ → List (Event Host Config) → Certs M Host Config → Certs M Host Config
  unfolding step
  run ssl_expire_pre [] s = s
  run ssl_expire_pre (e ∷ events) s = run ssl_expire_pre events (step ssl_expire_pre e s)
