-- ===== src/IReq/Recovers.antt =====
-- A request that fails for a while.
use npm.Common.{ℕ, zero, suc, false, inr, ◌≡◌}
use npm.Text.{Text}
use npm.IReq.{Error, Crate, is_404, send_single}

module _ {W Req E : Type 0} (crate : Crate W Req E) (r : Req) where
  -- That many sends, one after the other, fail with an error that is not a 404, and leave the world
  -- as the last.
  pub data FailsFor : ℕ → W → W → Type 0 where
    at_once : (w last : W) → w ≡ last → FailsFor zero w last
    then_fails :
        (n : ℕ) (w next last : W) (e : Error E)
        → send_single crate r w ≡ (inr e, next)
        → is_404 e ≡ false
        → FailsFor n next last
        → FailsFor (suc n) w last
