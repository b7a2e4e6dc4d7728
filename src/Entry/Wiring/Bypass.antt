-- ===== src/Entry/Wiring/Bypass.antt =====
-- The gateway command in bypass mode.
use interchange.Base.{◌≡◌, sym, ap, ◌∙◌, true, inl, inr, Option, none, some, [], Text, contains}
use mathlib.Core.Option.{some-injective}
use interchange.Gateway
use interchange.Gateway.{Verifier, Request, product_of}
use interchange.Edge
use interchange.Entry.{edge_identity, zero_identity, verified}
use interchange.Entry.Lanes.{Entitled}
use interchange.Entry.Wiring.{
  Settings, Tools, Entry, choose_verifier, start, calls, respond, route_products,
}
use interchange.Entry.Wiring.Assembly.{start-Assembled}
use interchange.Entry.Wiring.Admission.{respond-calls}

zero_verified :
    (v : Option Verifier) (token : Text) (gid : Gateway.Identity)
    → v ≡ none
    → verified v token ≡ some gid
    → gid ≡ zero_identity
zero_verified none token gid n h = sym (some-injective _ _ h)
zero_verified (some v) token gid n h = absurd (cc n)

zero-Entitled :
    (product : Text) (gid : Gateway.Identity) → gid ≡ zero_identity → Entitled gid product → ⊥
unfolding Edge.has_product contains
zero-Entitled product gid z (has, addressed) =
    cc (sym has ∙ ap (λ g. Edge.has_product (edge_identity g) product) z)

-- A command that was started in bypass mode calls only pillars without a product, and under the empty
-- identity: requests for /knowledge, /ledger and the API of /cairn never reach their pillars.
pub bypass-calls :
    (tools : Tools) (s : Settings) (e : Entry) (req out : Request) (name : Text)
    (id : Edge.Identity)
    → start tools s ≡ some e
    → s.auth_bypass ≡ true
    → respond e req ≡ calls name id out
    → (product_of route_products name ≡ []) × (id ≡ edge_identity zero_identity)
unfolding choose_verifier
bypass-calls tools s e req out name id h bypass called =
    let (r, handed, admitted) = respond-calls e req out name id called in
    let (gid, (token, known), entitled, same, path, clean) = admitted in
    let chosen : choose_verifier tools s ≡ some e.verifier =
      (start-Assembled tools s e h).verifies in
    let z =
      zero_verified e.verifier _ gid
        (sym (some-injective _ _ (rw (bypass, choose_verifier) at chosen))) known in
    elim entitled [
      | inl p ↦ (p, same ∙ ap edge_identity z)
      | inr p ↦ absurd (zero-Entitled _ gid z p)
    ]
