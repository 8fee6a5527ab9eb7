-- ===== src/CertByHost/Fresh.antt =====
-- Which certificates the hourly task leaves in the cache.
use npm.Common.{
  ℕ, ◌+◌, ◌<◌, ◌≤◌, Option, none, some, List, [], ◌∷◌, inl, inr, ltb, leb, ◌==◌, ==_iff,
  if◌then◌else◌, ◌≡◌, refl, sym, ap, ◌∙◌, arith, Bool-cases, gt→leb, ltb→lt, ltb→ge,
}
use npm.ExpireCache.{MapOps, MapLaws}
use npm.CertByHost.Looks.{look_up-keeps, hit_cached}
use npm.CertByHost.{
  btree_insert, split_off, split_left, Certs, hit, cache_insert, cache_remove, new, look_up,
  fetched, remove_all, purge, Event, on_look, on_fetched, on_purge, step, run,
}

module _ {Host : Type 0} where
  unfoldable pub btree_get : ℕ → List (ℕ × Host) → Option Host
  btree_get k [] = none
  btree_get k ((j, u) ∷ entries) = let rest = btree_get k entries in if j == k then some u else rest

  btree_get-insert :
      (k : ℕ) (v : Host) (entries : List (ℕ × Host)) (i : ℕ)
      → btree_get i (btree_insert k v entries) ≡ (if k == i then some v else btree_get i entries)
  unfolding btree_get btree_insert
  btree_get-insert k v [] i = refl
  btree_get-insert k v ((j, u) ∷ entries) i = elim (Bool-cases (ltb k j)) [
    | inl below ↦ rw below refl
    | inr above ↦ elim (Bool-cases (k == j)) [
      | inl is ↦ elim (Bool-cases (k == i)) [
        | inl here ↦ rw (above, is, here) refl
        | inr other ↦ rw (above, is, sym ((==_iff k j).0 is), other) refl
      ]
      | inr differ ↦ elim (Bool-cases (j == i)) [
        | inl here ↦ rw (above, differ, sym ((==_iff j i).0 here), differ, (==_iff j j).1 refl) refl
        | inr other ↦ rw (above, differ, other) (btree_get-insert k v entries i)
      ]
    ]
  ]

  kept_by_split :
      (at : ℕ) (entries : List (ℕ × Host)) (k : ℕ)
      → at ≤ k
      → btree_get k (split_off at entries) ≡ btree_get k entries
  unfolding btree_get split_off
  kept_by_split at [] k h = refl
  kept_by_split at ((j, u) ∷ entries) k h = elim (Bool-cases (leb at j)) [
    | inl above ↦ rw (above, kept_by_split at entries k h) refl
    | inr below ↦ elim (Bool-cases (j == k)) [
      | inl is ↦ absurd (ground arith)
      | inr other ↦ rw (below, other) (kept_by_split at entries k h)
    ]
  ]

module _ {M Host Config : Type 0} (ops : MapOps M Host (Unit {0})) (laws : MapLaws ops) where
  still_removed :
      (entries : List (ℕ × Host)) (cache : Host → Option Config) (host : Host)
      → cache host ≡ none
      → remove_all ops entries cache host ≡ none
  unfolding remove_all cache_remove
  still_removed [] cache host h = h
  still_removed ((deadline, u) ∷ entries) cache host h =
      still_removed entries (cache_remove ops u cache) host
        (elim (Bool-cases (ops.same u host)) [ inl is ↦ rw is refl | inr other ↦ rw other h ])

  was_cached :
      (entries : List (ℕ × Host)) (cache : Host → Option Config) (host : Host) (config : Config)
      → remove_all ops entries cache host ≡ some config
      → cache host ≡ some config
  unfolding remove_all cache_remove
  was_cached [] cache host config h = h
  was_cached ((deadline, u) ∷ entries) cache host config h =
      let before : cache_remove ops u cache host ≡ some config =
        was_cached entries (cache_remove ops u cache) host config h in
      elim (Bool-cases (ops.same u host)) [
        | inl is ↦ absurd (cc (rw (cache_remove, is) at before))
        | inr other ↦ rw (cache_remove, other) at before
      ]

  -- A host that stands in the map under a deadline before `at` is removed.
  removed :
      (at : ℕ) (entries : List (ℕ × Host)) (cache : Host → Option Config) (deadline : ℕ)
      (host : Host)
      → deadline < at
      → btree_get deadline entries ≡ some host
      → remove_all ops (split_left at entries) cache host ≡ none
  unfolding split_left btree_get remove_all
  removed at [] cache deadline host h found = absurd (cc)
  removed at ((j, u) ∷ entries) cache deadline host h found = elim (Bool-cases (j == deadline)) [
    | inl is ↦
        let above : j < at = omega (arith, (==_iff j deadline).0 is, h) in
        let owner : u ≡ host = cc (rw (btree_get, is) at found) in
        rw (gt→leb at j above, remove_all)
          (still_removed (split_left at entries) (cache_remove ops u cache) host
            (rw (owner, cache_remove, laws.same-refl host) refl))
    | inr other ↦ elim (Bool-cases (leb at j)) [
      | inl above ↦
          rw above (removed at entries cache deadline host h (rw (btree_get, other) at found))
      | inr below ↦
          rw (below, remove_all)
            (removed at entries (cache_remove ops u cache) deadline host h
              (rw (btree_get, other) at found))
    ]
  ]

  module _ (not_after : Config → ℕ) (owner : ℕ → Host) where
    -- Each certificate comes with its own deadline, and no two hosts have one with the same.
    unfoldable pub IsApart : List (Event Host Config) → Type 0
    IsApart [] = Unit
    IsApart (on_look now host ∷ events) = IsApart events
    IsApart (on_purge now ∷ events) = IsApart events
    IsApart (on_fetched now host (inr e) ∷ events) = IsApart events
    IsApart (on_fetched now host (inl none) ∷ events) = IsApart events
    IsApart (on_fetched now host (inl (some (config, deadline))) ∷ events) =
        (not_after config ≡ deadline) × (owner deadline ≡ host) × IsApart events

    IsTracked : (Host → Option Config) → List (ℕ × Host) → Type 0
    IsTracked cache expire =
        (host : Host) (config : Config)
        → cache host ≡ some config
        → (btree_get (not_after config) expire ≡ some host) × (owner (not_after config) ≡ host)

    insert-IsTracked :
        (host : Host) (config : Config) (cache : Host → Option Config) (expire : List (ℕ × Host))
        → owner (not_after config) ≡ host
        → IsTracked cache expire
        → IsTracked
            (cache_insert ops host config cache)
            (btree_insert (not_after config) host expire)
    unfolding IsTracked cache_insert
    insert-IsTracked host config cache expire own h other c found =
        elim (Bool-cases (ops.same host other)) [
          | inl is ↦
              let config_is : config ≡ c = cc (rw is at found) in
              let host_is : host ≡ other = laws.same-eq host other is in
              rw (sym config_is, sym host_is)
                (
                  btree_get-insert (not_after config) host expire (not_after config)
                      ∙ rw ((==_iff (not_after config) (not_after config)).1 refl) refl,
                  own,
                )
          | inr differ ↦
              let (there, owns) = h other c (rw differ at found) in
              elim (Bool-cases (not_after config == not_after c)) [
                | inl equal ↦
                    let host_is : host ≡ other =
                      sym own
                      ∙ ap owner ((==_iff (not_after config) (not_after c)).0 equal)
                      ∙ owns in
                    absurd (cc (rw (sym host_is, laws.same-refl host) at differ))
                | inr apart ↦ (
                  btree_get-insert (not_after config) host expire (not_after c) ∙ rw apart there,
                  owns,
                )
              ]
        ]

    -- What is cached after the task is not near its end.
    not_before :
        (at : ℕ) (cache : Host → Option Config) (expire : List (ℕ × Host))
        → IsTracked cache expire
        → (host : Host) (config : Config)
        → remove_all ops (split_left at expire) cache host ≡ some config
        → at ≤ not_after config
    unfolding IsTracked
    not_before at cache expire h host config found = elim (Bool-cases (ltb (not_after config) at)) [
      | inl near ↦
          let there : btree_get (not_after config) expire ≡ some host =
            (h host config (was_cached (split_left at expire) cache host config found)).0 in
          let gone : remove_all ops (split_left at expire) cache host ≡ none =
            removed at expire cache (not_after config) host (ltb→lt (not_after config) at near)
              there in
          absurd (cc)
      | inr far ↦ ltb→ge (not_after config) at far
    ]

    purge-IsTracked :
        (at : ℕ) (cache : Host → Option Config) (expire : List (ℕ × Host))
        → IsTracked cache expire
        → IsTracked (remove_all ops (split_left at expire) cache) (split_off at expire)
    unfolding IsTracked
    purge-IsTracked at cache expire h host config found =
        let before : cache host ≡ some config =
          was_cached (split_left at expire) cache host config found in
        let (there, owns) = h host config before in
        (
          kept_by_split at expire (not_after config)
                (not_before at cache expire h host config found)
              ∙ there,
          owns,
        )

    Tracks : Certs M Host Config → Type 0
    Tracks s = IsTracked s.cache s.expire

    run-Tracks :
        (ssl_expire_pre : ℕ) (events : List (Event Host Config)) (s : Certs M Host Config)
        → IsApart events
        → Tracks s
        → Tracks (run ops ssl_expire_pre events s)
    unfolding run step IsApart Tracks fetched purge
    run-Tracks pre [] s apart h = h
    run-Tracks pre (on_look now host ∷ events) s apart h =
        run-Tracks pre events (look_up ops now host s).1 apart
          (look_up-keeps ops IsTracked now host s h)
    run-Tracks pre (on_purge now ∷ events) s apart h =
        run-Tracks pre events (purge ops pre now s) apart
          (purge-IsTracked (now + pre) s.cache s.expire h)
    run-Tracks pre (on_fetched now host (inr e) ∷ events) s apart h =
        run-Tracks pre events s apart h
    run-Tracks pre (on_fetched now host (inl none) ∷ events) s apart h =
        run-Tracks pre events (fetched ops now host (inl none) s).1 apart h
    run-Tracks pre (on_fetched now host (inl (some (config, deadline))) ∷ events) s apart h =
        run-Tracks pre events (fetched ops now host (inl (some (config, deadline))) s).1 apart.2
          (rw (sym apart.0) (insert-IsTracked host config s.cache s.expire (rw apart.0 apart.1) h))

    new-Tracks : Tracks (new ops)
    unfolding Tracks IsTracked new
    new-Tracks host config h = absurd (cc)

    -- After a turn of the task, at whatever time and after whatever steps of calls and turns of the
    -- task, a call that finds a certificate in the cache has one that is valid for the period
    -- SSL_EXPIRE_PRE at least, if each certificate came with its own deadline and no two hosts had
    -- one with the same deadline.
    pub purge-look_up :
        (ssl_expire_pre : ℕ) (events : List (Event Host Config)) (now later : ℕ) (host : Host)
        (config : Config)
        → IsApart events
        → (look_up ops later host
            (purge ops ssl_expire_pre now (run ops ssl_expire_pre events (new ops)))).0
          ≡ hit config
        → now + ssl_expire_pre ≤ not_after config
    unfolding purge Tracks
    purge-look_up pre events now later host config apart h =
        let s : Certs M Host Config = run ops pre events (new ops) in
        not_before (now + pre) s.cache s.expire (run-Tracks pre events (new ops) apart new-Tracks)
          host config (hit_cached ops later host (purge ops pre now s) config h)
