-- ===== src/IReq.antt =====
-- ireq/src/lib.rs, error.rs and retry.rs: a request that is sent again when it failed. The crate
-- reqwest is a record; the pause between two sends is left out.
pub mod Recovers
mod Tests
use npm.Common.{
  ℕ, zero, suc, Bool, true, false, ◌||◌, Option, none, some, List, [], ◌∷◌, ◌⊎◌, inl, inr, ◌==◌,
  if◌then◌else◌,
}
use npm.Text.{Text}

pub record Response (E : Type 0) : Type 0 where
  pub status : ℕ
  pub bytes : Text ⊎ E

pub data Error (E : Type 0) : Type 0 where
  bad_status : Response E → Error E
  reqwest : E → Error E

pub record Crate (W Req E : Type 0) : Type 0 where
  pub send : Req → W → (Response E ⊎ E) × W
  pub try_clone : Req → Option Req

abbrev pub success_status : List ℕ
success_status = 200 ∷ 204 ∷ 308 ∷ 307 ∷ 206 ∷ []

unfoldable pub contains : List ℕ → ℕ → Bool
contains [] status = false
contains (s ∷ li) status = (s == status) || contains li status

unfoldable pub is_success : ℕ → Bool
unfolding contains
is_success status = contains success_status status

unfoldable pub is_404 : {E : Type 0} → Error E → Bool
is_404 (bad_status res) = res.status == 404
is_404 (reqwest e) = false

unfoldable pub bytes_of : {E : Type 0} → Text ⊎ E → Text ⊎ Error E
bytes_of (inl bin) = inl bin
bytes_of (inr e) = inr (reqwest e)

unfoldable pub result_of : {E : Type 0} → Response E ⊎ E → Text ⊎ Error E
unfolding is_success bytes_of
result_of (inr e) = inr (reqwest e)
result_of (inl res) = if is_success res.status then bytes_of res.bytes else inr (bad_status res)

module _ {W Req E : Type 0} (crate : Crate W Req E) where
  unfoldable pub send_single : Req → W → (Text ⊎ Error E) × W
  unfolding result_of
  send_single r w = let (res, after) = crate.send r w in (result_of res, after)

  -- A clone is made before the send, when there are tries left.
  unfoldable pub after_send :
      Option Req → (Text ⊎ Error E) × W → (Req → W → (Text ⊎ Error E) × W) → (Text ⊎ Error E) × W
  unfolding is_404
  after_send clone (inl bin, w) again = (inl bin, w)
  after_send none (inr e, w) again = (inr e, w)
  after_send (some r) (inr e, w) again =
      let rest = again r w in if is_404 e then (inr e, w) else rest

  unfoldable pub req : ℕ → Req → W → (Text ⊎ Error E) × W
  unfolding after_send send_single
  req zero r w = send_single r w
  req (suc retry) r w =
      let again = req retry in after_send (crate.try_clone r) (send_single r w) again
