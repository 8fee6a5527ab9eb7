-- ===== src/CertByHost/Tests.antt =====
-- Certificates of hosts that are numbers, each with its deadline for a certificate.
use npm.Common.{
  ℕ, ◌≤◌, ◌==◌, ==_iff, Option, none, some, List, [], ◌∷◌, inl, inr, ◌≡◌, refl, if◌then◌else◌,
}
use npm.ExpireCache.{MapOps, MapLaws}
use npm.CertByHost.{
  ℤ, pos, negsuc, Error, x509_parse, fred, SslConfig, Parsers, get_by_kvrocks, Certs, hit, new,
  look_up, get, purge, Event, on_look, on_fetched, on_purge, run,
}
use npm.CertByHost.Fresh.{IsApart, purge-look_up}

abbrev maps : MapOps (ℕ → Option (Unit {0})) ℕ (Unit {0})
maps = record {
  default = λ k. none;
  clear = λ m k. none;
  insert = λ k v m j. if k == j then some v else m j;
  get = λ m k. m k;
  same = λ j k. j == k;
}

maps_MapLaws : MapLaws maps
maps_MapLaws = record {
  get-default = λ k. refl;
  get-clear = λ m k. refl;
  get-insert = λ k v m j. refl;
  same-refl = λ k. (==_iff k k).1 refl;
  same-eq = λ k j h. (==_iff k j).0 h;
}

-- The certificate of host 7 is at its end and goes, that of host 8 stays.
abbrev events : List (Event ℕ ℕ)
events =
    on_look 1 7
    ∷ on_fetched 1 7 (inl (some (50, 50)))
    ∷ on_fetched 2 8 (inl (some (90, 90)))
    ∷ on_fetched 3 9 (inl none)
    ∷ on_fetched 4 5 (inr fred)
    ∷ []

abbrev owner : ℕ → ℕ
owner deadline = if deadline == 50 then 7 else 8

after_purge : (look_up maps 9 8 (purge maps 10 50 (run maps 10 events (new maps)))).0 ≡ hit 90
unfolding look_up purge run npm.CertByHost.step npm.CertByHost.remove_all npm.CertByHost.split_left
    new npm.CertByHost.btree_insert npm.ExpireCache.set_contains npm.ExpireCache.new
after_purge = refl

apart : IsApart maps maps_MapLaws (λ c. c) owner events
unfolding IsApart
apart = (refl, refl, (refl, refl, tt))

purge-look_up_example : 60 ≤ 90
purge-look_up_example =
    purge-look_up maps maps_MapLaws (λ c. c) owner 10 events 50 9 8 90 apart after_purge

abbrev cached : Certs (ℕ → Option (Unit {0})) ℕ ℕ
cached = run maps 10 events (new maps)

-- Certificates with a deadline before 1970.
abbrev parsers : Parsers ℕ ℕ ℕ ℕ
parsers = record {
  get = λ host. inl (some host);
  from_slice = λ b. inl (some (b, b));
  private_key = λ b. inl (some b);
  certs = λ b. inl (b ∷ []);
  not_after = λ d. if d == 0 then none else some (negsuc d);
}

early_deadline : get_by_kvrocks parsers 3 ≡ inl (some (record { key = 3; cert = 3 ∷ [] }, 0))
unfolding get_by_kvrocks
early_deadline = refl
