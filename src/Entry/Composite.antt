-- ===== src/Entry/Composite.antt =====
-- What the composite handlers of /cairn and /herald let through, on each of their two lanes.
use interchange.Base.{
  ℕ, ◌≡◌, refl, sym, ap, String, arith, false, ◌⊎◌, inl, inr, Option, [], Text, codes, has_prefix,
  Bool-cases,
}
use interchange.Gateway
use interchange.Gateway.{Verifier, Headers, Request, bearer, strip, inject_identity}
use interchange.Gateway.Headers.{Asserts, Without}
use interchange.Edge
use interchange.Entry.Spoofing.{
  Unspoofed, strip_spoofed_identity-Unspoofed, inject-Without, inject-Asserts,
}
use interchange.Entry.{
  Outcome, rejected, called, passed, audience_ok, edge_identity, cwb_headers,
  strip_spoofed_identity, inject_cwb_headers, with_headers, cairn_lane, cairn_composite,
  is_admin_path, herald_composite,
}
use interchange.Entry.Lanes.{
  Admitted, Verified, Entitled, authenticate_inv, guards-Entitled, called_inv,
}

passed_inv : (r out : Request) → passed r ≡ passed out → out ≡ r
passed_inv r out h = cc h

cairn_composite_inv :
    (v : Option Verifier) (product : Text) (r : Request) (o : Outcome)
    → cairn_composite v product r ≡ o
    → ((status : ℕ) × (message : String) × (o ≡ rejected status message))
      ⊎ ((gid : Gateway.Identity) × Verified v r gid
          × ((product ≡ []) ⊎ Entitled gid product)
          × (cairn_lane (edge_identity gid) r ≡ o))
unfolding cairn_composite
cairn_composite_inv v product r o h = elim (authenticate_inv v r _ o h) [
  | inl (message, e) ↦ inl (401, message, e)
  | inr (gid, known, k) ↦ elim (Bool-cases (Edge.has_product (edge_identity gid) product)) [
    | inr p ↦ inl (403, "product not enabled for org", sym (rw p at k))
    | inl p ↦ elim (Bool-cases (audience_ok gid product)) [
      | inr a ↦ inl (403, "token audience does not include this service", sym (rw (p, a) at k))
      | inl a ↦ inr (gid, known, guards-Entitled gid product (ground (arith, p)) a, rw (p, a) at k)
    ]
  ]
]

-- A call through the API lane of /cairn.
pub cairn_composite-Admitted :
    (v : Option Verifier) (product : Text) (r out : Request) (id : Edge.Identity)
    → cairn_composite v product r ≡ called id out
    → Admitted v product cwb_headers r id out
unfolding cairn_lane
cairn_composite-Admitted v product r out id h = elim (cairn_composite_inv v product r _ h) [
  | inl (status, message, e) ↦ absurd (cc e)
  | inr (gid, known, entitled, lane) ↦ elim (Bool-cases (has_prefix r.path (codes "/api/"))) [
    | inr p ↦ absurd (ground (arith, p, lane))
    | inl p ↦
        let (same, made) =
          called_inv (edge_identity gid) id (with_headers r (strip_spoofed_identity r.headers)) out
            (rw p at lane) in
        (
          gid,
          known,
          entitled,
          same,
          ap (λ q. q.path) made,
          rw made (strip_spoofed_identity-Unspoofed r.headers).1,
        )
  ]
]

-- What the git lane of /cairn hands to the HTTP backend: the request of a verified caller, under the
-- headers of its identity.
abbrev pub Proxied : Option Verifier → Text → Request → Request → Type 0
Proxied v product r out =
    (gid : Gateway.Identity) × Verified v r gid
    × ((product ≡ []) ⊎ Entitled gid product)
    × (out.path ≡ r.path)
    × Asserts gid out.headers
    × Without cwb_headers out.headers

pub cairn_composite-Proxied :
    (v : Option Verifier) (product : Text) (r out : Request)
    → cairn_composite v product r ≡ passed out
    → Proxied v product r out
unfolding cairn_lane
cairn_composite-Proxied v product r out h = elim (cairn_composite_inv v product r _ h) [
  | inl (status, message, e) ↦ absurd (cc e)
  | inr (gid, known, entitled, lane) ↦ elim (Bool-cases (has_prefix r.path (codes "/api/"))) [
    | inl p ↦ absurd (ground (arith, p, lane))
    | inr p ↦
        let clean = strip_spoofed_identity r.headers in
        let made =
          passed_inv (with_headers r (inject_cwb_headers (edge_identity gid) clean)) out
            (rw p at lane) in
        let (x_cwb, cwb) = strip_spoofed_identity-Unspoofed r.headers in
        (
          gid,
          known,
          entitled,
          ap (λ q. q.path) made,
          rw made (inject-Asserts gid clean x_cwb),
          rw made (inject-Without gid clean cwb),
        )
  ]
]

-- A call through the admin lane of /herald, which has no product.
pub herald_composite-Admitted :
    (v : Option Verifier) (r out : Request) (id : Edge.Identity)
    → herald_composite v r ≡ called id out
    → Admitted v [] cwb_headers r id out
unfolding herald_composite
herald_composite-Admitted v r out id h = elim (Bool-cases (is_admin_path r.path)) [
  | inr e ↦ absurd (ground (arith, e, h))
  | inl e ↦ elim (authenticate_inv v r _ (called id out) (rw e at h)) [
    | inl (message, refused) ↦ absurd (cc refused)
    | inr (gid, known, k) ↦
        let (same, made) =
          called_inv (edge_identity gid) id (with_headers r (strip_spoofed_identity r.headers)) out
            k in
        (
          gid,
          known,
          inl refl,
          same,
          ap (λ q. q.path) made,
          rw made (strip_spoofed_identity-Unspoofed r.headers).1,
        )
  ]
]

-- What herald's HTTP backend gets without a token.
abbrev pub Tokenless : Request → Request → Type 0
Tokenless r out = (is_admin_path r.path ≡ false) × (out.path ≡ r.path) × Unspoofed out.headers

pub herald_composite-Tokenless :
    (v : Option Verifier) (r out : Request) → herald_composite v r ≡ passed out → Tokenless r out
unfolding herald_composite
herald_composite-Tokenless v r out h = elim (Bool-cases (is_admin_path r.path)) [
  | inl e ↦ elim (authenticate_inv v r _ (passed out) (rw e at h)) [
    | inl (message, refused) ↦ absurd (cc refused)
    | inr (gid, known, k) ↦ absurd (cc k)
  ]
  | inr e ↦
      let made = passed_inv (with_headers r (strip_spoofed_identity r.headers)) out (rw e at h) in
      (e, ap (λ q. q.path) made, rw made (strip_spoofed_identity-Unspoofed r.headers))
]
