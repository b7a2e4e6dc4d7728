-- ===== src/Mailbox/Checks.antt =====
-- The checks of the mailbox on a stored pair, on the verifier and on a listing.
use interchange.Base.{◌≡◌, ◌≢◌, refl, arith, List, [], ◌∷◌, Text}
use interchange.Crypto.{Identified, caller}
use interchange.Storage.{Envelope, Pair, not_found, Result, ok, err}
use interchange.Handlers.{pass}
use interchange.Handlers.Checks.{Refuses}
use interchange.Mailbox.{require_pair, require_caller, require_list}

-- The meaning of each check that passed.
pub require_pair_inv : (r : Result Pair) (p : Pair) → require_pair r ≡ pass p → r ≡ ok p
require_pair_inv r p h = ground arith

pub require_caller_inv :
    (i : Identified) (key : Text) → require_caller i ≡ pass key → (i ≡ caller key) × (key ≢ [])
require_caller_inv Identified.fault key h = absurd (cc h)
require_caller_inv (Identified.caller []) key h = absurd (cc h)
require_caller_inv (Identified.caller (c ∷ k)) key h = (cc, λ e. cc)

pub require_caller-caller : (key : Text) → key ≢ [] → require_caller (caller key) ≡ pass key
require_caller-caller [] n = absurd (n refl)
require_caller-caller (c ∷ key) n = refl

pub Refuses-require_pair : (r : Result Pair) → Refuses (require_pair r)
Refuses-require_pair (ok p) = record { at = λ r h. absurd (cc h) }
Refuses-require_pair (err not_found) = record { at = λ r h. (404, "pair_not_found", cc) }
Refuses-require_pair (err _) = record { at = λ r h. (500, "storage_error", cc) }

pub Refuses-require_caller : (i : Identified) → Refuses (require_caller i)
Refuses-require_caller Identified.fault = record { at = λ r h. (500, "verifier_error", cc) }
Refuses-require_caller (Identified.caller []) = record {
  at = λ r h. (401, "signature_invalid", cc);
}
Refuses-require_caller (Identified.caller (c ∷ key)) = record { at = λ r h. absurd (cc h) }

pub require_list_inv :
    (r : Result (List Envelope)) (rows : List Envelope) → require_list r ≡ pass rows → r ≡ ok rows
require_list_inv (ok x) rows h = cc
require_list_inv (err e) rows h = absurd (cc h)
