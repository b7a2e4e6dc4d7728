-- ===== src/Handlers.antt =====
-- The HTTP side that the handlers of the relay share: replies, and chains of checks that return early.
pub mod Checks
use interchange.Base.{ℕ, Bool, true, false, String, Option, none, some, List, Text, take}
use interchange.Storage.{Status}

-- One entry of the owner's list: the id, the creation time, the target, and the requester's view.
pub record PendingView : Type 0 where
  pub request_id : Text
  pub created_at : ℕ
  pub target_nexus_id : Text
  pub requester : Option (List (String × Text))

-- The status and the body of a response: an error code, or the fields of a success.
pub data Reply : Type 0 where
  failed : ℕ → String → Reply
  accepted : Text → Reply
  listed : List Text → Option Text → Reply
  evicted : ℕ → Reply
  created : Text → ℕ → Reply
  request_status : Text → Status → Text → Option (List (String × Text)) → Reply
  pending_list : List PendingView → Reply
  approval : Text → Text → List (String × Text) → Reply
  denial : Text → Reply
  not_pending : Status → Reply

-- A value, or the reply of an early return.
pub data Checked {ℓ} (A : Type ℓ) : Type ℓ where
  pass : A → Checked A
  stop : Reply → Checked A

infixl 5 ◌>>=◌ ◌>>◌
unfoldable pub ◌>>=◌ {ℓ κ} : {A : Type ℓ} {B : Type κ} → Checked A → (A → Checked B) → Checked B
pass a >>= f = f a
stop r >>= f = stop r

abbrev pub ◌>>◌ {ℓ} : {B : Type ℓ} → Checked (Unit {0}) → Checked B → Checked B
m >> k = m >>= λ _. k

abbrev pub require : Bool → ℕ → String → Checked (Unit {0})
require true status code = pass tt
require false status code = stop (failed status code)

abbrev pub require_some {ℓ} : {A : Type ℓ} → Option A → ℕ → String → Checked A
require_some (some a) status code = pass a
require_some none status code = stop (failed status code)

-- io.ReadAll(io.LimitReader(r.Body, limit))
abbrev pub read_body : ℕ → Option Text → Checked Text
read_body limit none = stop (failed 400 "body_read_failed")
read_body limit (some body) = pass (take limit body)
