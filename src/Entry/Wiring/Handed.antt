-- ===== src/Entry/Wiring/Handed.antt =====
-- The handlers of the gateway command under their routes, and the requests that the gateway hands to
-- them.
use interchange.Base.{
  ℕ, String, ◌≡◌, ◌≢◌, refl, sym, ap, arith, ◌⊎◌, inl, inr, Option, some, [], Text, codes, text_eq,
  text_eq_iff, ◌==◌, find, Option-cases, All, find_sound, find-All,
}
use interchange.Gateway
use interchange.Gateway.{
  Verifier, Request, Route, match_route, serve, handler, product_of, Served, Target, backend,
  bearer, strip, trusted_headers, refused, handled, proxied,
}
use interchange.Edge
use interchange.Edge.{Metadata, IsLawful}
use interchange.Entry.{
  Outcome, called, passed, cwb_headers, auth_inject, cairn_composite, herald_composite,
}
use interchange.Entry.Lanes.{Admitted, auth_inject-Admitted, auth_inject_never_passed}
use interchange.Entry.Composite.{
  Proxied, Tokenless, cairn_composite-Admitted, cairn_composite-Proxied, herald_composite-Admitted,
  herald_composite-Tokenless,
}
use interchange.Entry.Wiring.{
  Entry, Reply, route_products, answered, handlers, reply_of, run_handler,
}

-- What holds of every outcome of a handler: its product is the one that routeProducts has for its
-- prefix, calls are admitted under it, and only the two composite handlers pass requests on.
pub record Guards (v : Option Verifier) (h : Text × (Text × (Request → Outcome))) : Type 0 where
  pub product : h.1.0 ≡ product_of route_products h.0
  pub called_under :
      (r out : Request) (id : Edge.Identity)
      → h.1.1 r ≡ called id out
      → Admitted v h.1.0 cwb_headers r id out
  pub passed_under :
      (r out : Request)
      → h.1.1 r ≡ passed out
      → ((h.0 ≡ codes "/cairn") × Proxied v (codes "cairn") r out)
        ⊎ ((h.0 ≡ codes "/herald") × Tokenless r out)

inject-Guards :
    (v : Option Verifier) (name product : Text)
    → product ≡ product_of route_products name
    → Guards v (name, (product, auth_inject v product))
inject-Guards v name product e = record {
  product = e;
  called_under = λ r out id h. auth_inject-Admitted v product r out id h;
  passed_under = λ r out h. absurd (auth_inject_never_passed v product r out h);
}

cairn-Guards :
    (v : Option Verifier)
    → Guards v (codes "/cairn", (codes "cairn", cairn_composite v (codes "cairn")))
cairn-Guards v = record {
  product = unfold product_of find text_eq in refl;
  called_under = λ r out id h. cairn_composite-Admitted v (codes "cairn") r out id h;
  passed_under = λ r out h. inl (refl, cairn_composite-Proxied v (codes "cairn") r out h);
}

herald-Guards : (v : Option Verifier) → Guards v (codes "/herald", ([], herald_composite v))
herald-Guards v = record {
  product = unfold product_of find text_eq in refl;
  called_under = λ r out id h. herald_composite-Admitted v r out id h;
  passed_under = λ r out h. inr (refl, herald_composite-Tokenless v r out h);
}

handlers-Guards : (v : Option Verifier) → All (Guards v) (handlers v)
unfolding product_of find text_eq
handlers-Guards v = (
  inject-Guards v (codes "/knowledge") _ refl,
  (
    inject-Guards v (codes "/ledger") _ refl,
    (
      cairn-Guards v,
      (
        herald-Guards v,
        (
          inject-Guards v (codes "/almanac") _ refl,
          (inject-Guards v (codes "/mason") _ refl, (inject-Guards v (codes "/atlas") _ refl, tt)),
        ),
      ),
    ),
  ),
)

-- A handler's name, and the request that the gateway hands it.
abbrev pub Handed : Entry → Request → Text → Request → Type 0
Handed e req name r =
    (rt : Route) × (match_route e.gateway.routes req.path ≡ some (rt, r.path))
    × (rt.target ≡ handler name)
    × (r.headers ≡ req.headers)

pub run_handler_inv :
    (e : Entry) (name : Text) (r : Request) (reply : Reply)
    → run_handler e name r ≡ reply
    → ((status : ℕ) × (message : String) × (reply ≡ answered status message))
      ⊎ ((h : Text × (Text × (Request → Outcome))) × Guards e.verifier h
          × (h.0 ≡ name)
          × (reply_of e name (h.1.1 r) ≡ reply))
unfolding run_handler find text_eq
run_handler_inv e name r reply h =
    elim (Option-cases (find (λ k. k.0 == name) (handlers e.verifier))) [
      | inl n ↦ inl (404, "no route", sym (rw n at h))
      | inr (k, f) ↦ inr (
        k,
        find-All (Guards e.verifier) (λ x. x.0 == name) (handlers e.verifier) k f
            (handlers-Guards e.verifier),
        (text_eq_iff k.0 name).0 (find_sound (λ q. q.0 == name) (handlers e.verifier) k f),
        rw f at h,
      )
    ]

serve_backend_handled :
    (g : Gateway.Gateway) (u product rest name : Text) (req r : Request)
    → Gateway.serve_backend g u product rest req ≢ handled name r
unfolding Gateway.serve_backend
serve_backend_handled g u product rest name req r h =
    elim (Option-cases (g.verify (bearer (strip trusted_headers req.headers)))) [
      | inl v ↦ ground (arith, h, v)
      | inr (id, v) ↦ ground (arith, h, v)
    ]

target_handled :
    (g : Gateway.Gateway) (t : Target) (rest name : Text) (req r : Request)
    → Gateway.serve_target g t rest req ≡ handled name r
    → (t ≡ handler name) × (r ≡ record req { path = rest })
target_handled g (handler n) rest name req r h = (cc h, cc h)
target_handled g (backend u product) rest name req r h =
    absurd (serve_backend_handled g u product rest name req r h)

pub serve_handled :
    (e : Entry) (req r : Request) (name : Text)
    → serve e.gateway req ≡ handled name r
    → Handed e req name r
unfolding serve
serve_handled e req r name h = elim (Option-cases (match_route e.gateway.routes req.path)) [
  | inl m ↦ absurd (ground (arith, m, h))
  | inr (found, m) ↦
      let (target, made) =
        target_handled e.gateway found.0.target found.1 name req r (rw (m, serve) at h) in
      (found.0, rw made m, target, ap (λ q. q.headers) made)
]

-- The two ways to a pillar or a backend: proxied by the gateway, or through a handler.
