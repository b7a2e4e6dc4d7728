-- ===== src/Entry/Wiring/Admission.antt =====
-- What reaches a pillar or a backend through the whole gateway command.
use interchange.Base.{
  Option, none, [], ◌≢◌, ℕ, String, ◌≡◌, refl, sym, subst, ◌∙◌, ap, arith, ◌⊎◌, inl, inr, some,
  Text, codes, text_eq, ◌==◌, Bool-cases,
}
use interchange.Gateway
use interchange.Gateway.{
  Verifier, bearer, Request, Route, match_route, serve, product_of, Served, backend, refused,
  handled, proxied,
}
use interchange.Gateway.Headers.{Without, Admission, serve-Admission}
use interchange.Edge
use interchange.Edge.{Metadata, IsLawful}
use interchange.Edge.Carried.{Carries}
use interchange.Entry.Metadata.{annotate, annotate-Carries, joined_some}
use interchange.Entry.{
  Outcome, called, passed, rejected, cwb_headers, verified, edge_identity, zero_identity,
}
use interchange.Entry.Lanes.{Admitted, Entitled}
use interchange.Entry.Composite.{Proxied, Tokenless}
use interchange.Entry.Wiring.{
  Entry, Reply, healthy, route_products, calls, forwards, answered, reply_of, own_backend, reply_to,
  run_handler, respond,
}
use interchange.Entry.Wiring.Handed.{Handed, run_handler_inv, serve_handled}

abbrev Ways : Entry → Request → Reply → Type 0
Ways e req reply =
    ((u : Text) × (r : Request) × (serve e.gateway req ≡ proxied u r) × (reply ≡ forwards u r))
    ⊎ ((name : Text) × (r : Request) × (serve e.gateway req ≡ handled name r)
        × (run_handler e name r ≡ reply))

abbrev Answer : Reply → Type 0
Answer reply =
    (reply ≡ healthy) ⊎ ((status : ℕ) × (message : String) × (reply ≡ answered status message))

reply_to_inv :
    (e : Entry) (req : Request) (reply : Reply) (s : Served)
    → serve e.gateway req ≡ s
    → reply_to e s ≡ reply
    → Answer reply ⊎ Ways e req reply
reply_to_inv e req reply (refused status message) q h = inl (inr (status, message, sym h))
reply_to_inv e req reply (proxied u r) q h = inr (inl (u, r, q, sym h))
reply_to_inv e req reply (handled name r) q h = inr (inr (name, r, q, h))

respond_inv :
    (e : Entry) (req : Request) (reply : Reply)
    → respond e req ≡ reply
    → Answer reply ⊎ Ways e req reply
unfolding respond
respond_inv e req reply h = elim (Bool-cases (req.path == codes "/healthz")) [
  | inl t ↦ inl (inl (ground (arith, t, h)))
  | inr t ↦ reply_to_inv e req reply (serve e.gateway req) refl (ground (arith, t, h))
]

reply_of_calls :
    (e : Entry) (n name : Text) (id : Edge.Identity) (out : Request) (o : Outcome)
    → reply_of e n o ≡ calls name id out
    → (n ≡ name) × (o ≡ called id out)
reply_of_calls e n name id out (rejected status message) h = absurd (cc h)
reply_of_calls e n name id out (called id' r) h = (cc h, cc h)
reply_of_calls e n name id out (passed r) h = absurd (cc h)

reply_of_forwards :
    (e : Entry) (n to : Text) (out : Request) (o : Outcome)
    → reply_of e n o ≡ forwards to out
    → (to ≡ own_backend e n) × (o ≡ passed out)
reply_of_forwards e n to out (rejected status message) h = absurd (cc h)
reply_of_forwards e n to out (called id r) h = absurd (cc h)
reply_of_forwards e n to out (passed r) h = (cc h, cc h)

pub respond-calls :
    (e : Entry) (req out : Request) (name : Text) (id : Edge.Identity)
    → respond e req ≡ calls name id out
    → (r : Request) × Handed e req name r
      × Admitted e.verifier (product_of route_products name) cwb_headers r id out
respond-calls e req out name id h = elim (respond_inv e req (calls name id out) h) [
  | inl (inl n) ↦ absurd (cc n)
  | inl (inr (status, message, n)) ↦ absurd (cc n)
  | inr (inl (u, r, q, n)) ↦ absurd (cc n)
  | inr (inr (n, r, q, ran)) ↦ elim (run_handler_inv e n r (calls name id out) ran) [
    | inl (status, message, m) ↦ absurd (cc m)
    | inr (k, guards, named, reply) ↦
        let (same, o) = reply_of_calls e n name id out (k.1.1 r) reply in
        (
          r,
          subst (λ m. Handed e req m r) same (serve_handled e req r n q),
          subst (λ p. Admitted e.verifier p cwb_headers r id out)
              (guards.product ∙ ap (product_of route_products) (named ∙ same))
              (guards.called_under r out id o),
        )
  ]
]

-- A request to /cairn or /herald that a composite handler passed on to its HTTP backend.
abbrev pub Composite : Entry → Request → Text → Request → Type 0
Composite e req to out =
    ((r : Request) × Handed e req (codes "/cairn") r
      × (to ≡ e.cairn_git)
      × Proxied e.verifier (codes "cairn") r out)
    ⊎ ((r : Request) × Handed e req (codes "/herald") r × (to ≡ e.herald_http) × Tokenless r out)

handler-Composite :
    (e : Entry) (req r out : Request) (n to : Text)
    → Handed e req n r
    → to ≡ own_backend e n
    → ((n ≡ codes "/cairn") × Proxied e.verifier (codes "cairn") r out)
      ⊎ ((n ≡ codes "/herald") × Tokenless r out)
    → Composite e req to out
unfolding text_eq
handler-Composite e req r out n to h t (inl (c, p)) =
    inl (r, subst (λ m. Handed e req m r) c h, t ∙ rw c refl, p)
handler-Composite e req r out n to h t (inr (c, p)) =
    inr (r, subst (λ m. Handed e req m r) c h, t ∙ rw c refl, p)

-- Whatever leaves for an HTTP backend left in one of three ways. The gateway's own proxy sent it under
-- its route, with the admission of that route. Or the git lane of /cairn sent it to cairn's backend:
-- the bearer token is there and verified, the organisation has the product cairn, a token with an
-- audience names it, the X-CWB headers state the verified identity and no cwb-* header is left. Or
-- /herald sent it to herald's backend without asking for a token: then the path is none of the admin
-- paths, and no identity header of either form is left.
pub respond-forwards :
    (e : Entry) (req out : Request) (to : Text)
    → respond e req ≡ forwards to out
    → ((rt : Route) × (rest : Text) × (product : Text) × (match_route e.gateway.routes req.path
          ≡ some (rt, rest))
        × (rt.target ≡ backend to product)
        × (out.path ≡ rest)
        × Admission e.gateway product req out.headers)
      ⊎ Composite e req to out
respond-forwards e req out to h = elim (respond_inv e req (forwards to out) h) [
  | inl (inl n) ↦ absurd (cc n)
  | inl (inr (status, message, n)) ↦ absurd (cc n)
  | inr (inl (u, r, q, n)) ↦ inl (serve-Admission e.gateway to req out (q ∙ cc n))
  | inr (inr (n, r, q, ran)) ↦ elim (run_handler_inv e n r (forwards to out) ran) [
    | inl (status, message, m) ↦ absurd (cc m)
    | inr (k, guards, named, reply) ↦
        let (target, o) = reply_of_forwards e n to out (k.1.1 r) reply in
        inr (
          handler-Composite e req r out n to (serve_handled e req r n q) target
            (rw named at guards.passed_under r out o))
  ]
]

-- Who stands behind the identity of a token: the verifier, or nobody where the command has none.
abbrev pub Vouched : Option Verifier → Text → Gateway.Identity → Type 0
Vouched none token gid = gid ≡ zero_identity
Vouched (some v) token gid = v token ≡ some gid

verified-Vouched :
    (v : Option Verifier) (token : Text) (gid : Gateway.Identity)
    → verified v token ≡ some gid
    → Vouched v token gid
verified-Vouched none token gid h = cc
verified-Vouched (some v) token gid h = h

-- A call to a pillar was made by the handler of the route that serves the path, on the request under
-- what is left of its path. Its bearer token is there. Where the command has a verifier, the token
-- verified as the identity that the call runs under; in bypass mode, without one, any token does, and
-- the identity is the empty one. If routeProducts gives the prefix a product, the organisation of that
-- identity has it, and a token with an audience names it; a prefix without a product asks for neither.
-- No cwb-* header of the client is left. The metadata that the pillar's mux adds carries that identity
-- and nothing else; the keys of scopes, products and the responsible human have a value only where the
-- identity has some.
pub calls-Carries :
    (S : Metadata) (law : IsLawful S) (e : Entry) (req out : Request) (name : Text)
    (id : Edge.Identity)
    → respond e req ≡ calls name id out
    → (r : Request) × Handed e req name r
      × (gid : Gateway.Identity) × (bearer r.headers ≢ [])
      × Vouched e.verifier (bearer r.headers) gid
      × ((product_of route_products name ≡ []) ⊎ Entitled gid (product_of route_products name))
      × (id ≡ edge_identity gid)
      × (out.path ≡ r.path)
      × Without cwb_headers out.headers
      × Carries joined_some id (λ k. S.values (annotate S (some id)) k)
calls-Carries S law e req out name id h =
    let (r, handed, (gid, (filled, known), entitled, same, path, without)) =
      respond-calls e req out name id h in
    (
      r,
      handed,
      gid,
      filled,
      verified-Vouched e.verifier (bearer r.headers) gid known,
      entitled,
      same,
      path,
      without,
      annotate-Carries S law id,
    )
