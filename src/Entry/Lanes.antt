-- ===== src/Entry/Lanes.antt =====
-- What a handler of the gateway command lets through to its pillar.
use interchange.Base.{
  ◌≡◌, ◌≢◌, refl, sym, ap, String, arith, true, false, not, ◌&&◌, ◌⊎◌, inl, inr, Option, some, List,
  [], ◌∷◌, Text, is_empty, ◌==◌, contains, Bool-cases, Option-cases,
}
use interchange.Gateway
use interchange.Gateway.{Verifier, Headers, Request, bearer, strip, inject_identity}
use interchange.Gateway.Headers.{strip-Without, Without, empty_or, nonempty}
use interchange.Edge
use interchange.Entry.{
  is_none, Outcome, rejected, called, passed, audience_ok, verified, edge_identity, cwb_headers,
  with_headers, auth_inject, authenticate,
}

empty_nil : (s : Text) → is_empty s ≡ true → s ≡ []
empty_nil [] h = refl
empty_nil (c ∷ s) h = absurd (cc h)

-- The token of the request is there and passes as an identity: the one that the verifier names, or
-- the empty one where there is no verifier.
abbrev pub Verified : Option Verifier → Request → Gateway.Identity → Type 0
Verified v r gid = (bearer r.headers ≢ []) × (verified v (bearer r.headers) ≡ some gid)

-- An identity without an audience, or with this one in it.
abbrev pub Addressed : Gateway.Identity → Text → Type 0
Addressed gid product = (gid.audience ≡ []) ⊎ (contains (λ a. a == product) gid.audience ≡ true)

-- The identity's organisation has the product, and the token is meant for it.
abbrev pub Entitled : Gateway.Identity → Text → Type 0
Entitled gid product = (Edge.has_product (edge_identity gid) product ≡ true) × Addressed gid product

none_listed : (xs : List Text) → is_none xs ≡ true → xs ≡ []
none_listed [] h = refl
none_listed (x ∷ xs) h = absurd (cc h)

audience_ok-Addressed :
    (gid : Gateway.Identity) (product : Text)
    → audience_ok gid product ≡ true
    → Addressed gid product ⊎ (product ≡ [])
unfolding audience_ok
audience_ok-Addressed gid product h = elim (Bool-cases (is_none gid.audience)) [
  | inl e ↦ inl (inl (none_listed gid.audience e))
  | inr e ↦ elim (Bool-cases (is_empty product)) [
    | inl p ↦ inr (empty_nil product p)
    | inr p ↦ inl (inr (rw (e, p) at h))
  ]
]

-- A handler that begins with authentication answers 401 or goes on with a verified identity.
pub authenticate_inv :
    (v : Option Verifier) (r : Request) (next : Gateway.Identity → Outcome) (o : Outcome)
    → authenticate v r next ≡ o
    → ((message : String) × (o ≡ rejected 401 message))
      ⊎ ((gid : Gateway.Identity) × Verified v r gid × (next gid ≡ o))
unfolding authenticate
authenticate_inv v r next o h = elim (Bool-cases (is_empty (bearer r.headers))) [
  | inl t ↦ inl ("missing bearer token", sym (rw t at h))
  | inr t ↦ elim (Option-cases (verified v (bearer r.headers))) [
    | inl e ↦ inl ("invalid token", sym (rw (t, e) at h))
    | inr (gid, e) ↦ inr (gid, (nonempty _ t, e), rw (t, e) at h)
  ]
]

-- What a call to a pillar went through: the token passed, the identity's organisation has the
-- product and the token is meant for it, if there is a product; the identity is handed on as it is,
-- and the request as it came but for the headers of these names, which are gone.
abbrev pub Admitted :
    Option Verifier → Text → List Text → Request → Edge.Identity → Request → Type 0
Admitted v product names r id out =
    (gid : Gateway.Identity) × Verified v r gid
    × ((product ≡ []) ⊎ Entitled gid product)
    × (id ≡ edge_identity gid)
    × (out.path ≡ r.path)
    × Without names out.headers

-- The two guards on product and audience.
pub guards-Entitled :
    (gid : Gateway.Identity) (product : Text)
    → (not (is_empty product) && not (Edge.has_product (edge_identity gid) product)) ≡ false
    → audience_ok gid product ≡ true
    → (product ≡ []) ⊎ Entitled gid product
guards-Entitled gid product p a =
    elim (empty_or product (Edge.has_product (edge_identity gid) product) p) [
      | inl e ↦ inl e
      | inr e ↦ elim (audience_ok-Addressed gid product a) [ inl d ↦ inr (e, d) | inr d ↦ inl d ]
    ]

pub called_inv :
    (id id' : Edge.Identity) (r out : Request)
    → called id r ≡ called id' out
    → (id' ≡ id) × (out ≡ r)
called_inv id id' r out h = (cc h, cc h)

pub auth_inject-Admitted :
    (v : Option Verifier) (product : Text) (r out : Request) (id : Edge.Identity)
    → auth_inject v product r ≡ called id out
    → Admitted v product cwb_headers r id out
unfolding auth_inject
auth_inject-Admitted v product r out id h = elim (authenticate_inv v r _ (called id out) h) [
  | inl (message, e) ↦ absurd (cc e)
  | inr (gid, known, k) ↦
      elim (Bool-cases
        (not (is_empty product) && not (Edge.has_product (edge_identity gid) product))) [
          | inl p ↦ absurd (ground (arith, p, k))
          | inr p ↦ elim (Bool-cases (audience_ok gid product)) [
            | inr a ↦ absurd (ground (arith, p, a, k))
            | inl a ↦
                let (same, made) =
                  called_inv (edge_identity gid) id (with_headers r (strip cwb_headers r.headers))
                    out (ground (arith, p, a, k)) in
                (
                  gid,
                  known,
                  guards-Entitled gid product p a,
                  same,
                  ap (λ q. q.path) made,
                  rw made (strip-Without cwb_headers r.headers),
                )
          ]
        ]
]

pub auth_inject_never_passed :
    (v : Option Verifier) (product : Text) (r out : Request) → auth_inject v product r ≢ passed out
unfolding auth_inject
auth_inject_never_passed v product r out h = elim (authenticate_inv v r _ (passed out) h) [
  | inl (message, e) ↦ cc e
  | inr (gid, known, k) ↦
      elim (Bool-cases
        (not (is_empty product) && not (Edge.has_product (edge_identity gid) product))) [
          | inl p ↦ ground (arith, p, k)
          | inr p ↦ ground (arith, p, k)
        ]
]
