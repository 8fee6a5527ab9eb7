-- ===== src/IReq/Tests.antt =====
-- A server that is down for the first two requests.
use npm.Common.{ℕ, suc, some, [], ◌∷◌, inl, ltb, if◌then◌else◌}
use npm.IReq.{Response, Crate}

abbrev reply : ℕ → Response ℕ
reply w = record { status = if ltb w 2 then 503 else 200; bytes = inl (7 ∷ []) }

abbrev crate : Crate ℕ (Unit {0}) ℕ
crate = record { send = λ r w. (inl (reply w), suc w); try_clone = λ r. some r }
