-- ===== src/Handlers/Checks.antt =====
-- Chains of checks: what one that passed has established, and how one can stop.
use interchange.Base.{
  ℕ, String, ◌≡◌, refl, arith, Bool, true, false, Option, none, some, Text, take,
}
use interchange.Handlers.{
  Reply, failed, Checked, pass, stop, ◌>>=◌, require, require_some, read_body,
}

-- A check that passed: what it yielded, and that the rest passed on it.
pub on_pass {ℓ κ ι} :
    {A : Type ℓ} {B : Type κ} {C : Type ι} (m : Checked A) (f : A → Checked B) {b : B}
    → (m >>= f) ≡ pass b
    → ((a : A) → m ≡ pass a → f a ≡ pass b → C)
    → C
unfolding ◌>>=◌
on_pass (pass a) f h k = k a refl h
on_pass (stop r) f h k = absurd (cc h)

pub require_inv :
    (b : Bool) (n : ℕ) (code : String) (u : Unit {0}) → require b n code ≡ pass u → b ≡ true
require_inv b n code u h = ground arith

pub require_some_inv :
    {A : Type 0} (o : Option A) (n : ℕ) (code : String) (a : A)
    → require_some o n code ≡ pass a
    → o ≡ some a
require_some_inv (some x) n code a h = cc
require_some_inv none n code a h = absurd (cc h)

pub read_body_inv :
    (limit : ℕ) (o : Option Text) (body : Text)
    → read_body limit o ≡ pass body
    → (raw : Text) × (o ≡ some raw) × (body ≡ take limit raw)
read_body_inv limit none body h = absurd (cc h)
read_body_inv limit (some raw) body h = (raw, refl, cc)

pub pass-injective : {A : Type 0} (a b : A) → pass a ≡ pass b → a ≡ b
pass-injective a b h = cc

-- A chain of checks that can only stop with an error reply.
pub record Refuses {A : Type 0} (m : Checked A) : Type 0 where
  pub at : (r : Reply) → m ≡ stop r → (n : ℕ) × (code : String) × (r ≡ failed n code)

module _ {A : Type 0} where
  pub Refuses-pass : (a : A) → Refuses (pass a)
  Refuses-pass a = record { at = λ r h. absurd (cc h) }

  pub Refuses-require_some :
      (o : Option A) (n : ℕ) (code : String) → Refuses (require_some o n code)
  Refuses-require_some none n code = record { at = λ r h. (n, code, cc) }
  Refuses-require_some (some a) n code = record { at = λ r h. absurd (cc h) }

pub Refuses-bind :
    {A B : Type 0} (m : Checked A) (f : A → Checked B)
    → Refuses m
    → ((a : A) → Refuses (f a))
    → Refuses (m >>= f)
unfolding ◌>>=◌
Refuses-bind (pass a) f h k = k a
Refuses-bind (stop r) f h k = record { at = λ q e. h.at q (cc e) }

pub Refuses-require : (b : Bool) (n : ℕ) (code : String) → Refuses (require b n code)
Refuses-require true n code = record { at = λ r h. absurd (cc h) }
Refuses-require false n code = record { at = λ r h. (n, code, cc) }

pub Refuses-read_body : (limit : ℕ) (o : Option Text) → Refuses (read_body limit o)
Refuses-read_body limit none = record { at = λ r h. (400, "body_read_failed", cc) }
Refuses-read_body limit (some b) = record { at = λ r h. absurd (cc h) }
