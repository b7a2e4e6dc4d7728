-- ===== src/Gateway/Headers.antt =====
-- The trusted headers of what a gateway hands to a backend.
use interchange.Base.{
  All-of_Has, contains-of_Has, All, append_nil, contains, ◌≡◌, ◌≢◌, ◌⊎◌, refl, sym, subst, ◌∙◌,
  arith, Bool, true, false, not, ◌&&◌, some, List, [], ◌∷◌, ◌++◌, map, Text, codes, text_eq,
  text_eq_iff, text_eq_refl, ◌==◌, is_empty, filter, join_with, if◌then◌else◌, Bool-cases,
  Option-cases, inl, inr,
}
use interchange.Gateway.{
  Identity, Headers, Request, Gateway, Route, Target, proxied, backend, handler, del, set, strip,
  trusted_headers, inject_identity, bearer, is_public, has_product, match_route, serve_backend,
  serve_target, serve,
}

-- The values of a header, in order.
abbrev pub values : Text → Headers → List Text
values name hs = map (λ h. h.1) (filter (λ h. h.0 == name) hs)

values-del_same : (name : Text) (hs : Headers) → values name (del name hs) ≡ []
unfolding del filter
values-del_same name [] = refl
values-del_same name (h ∷ hs) = ground (arith, values-del_same name hs)

values-del :
    (name other : Text) (hs : Headers)
    → (other == name) ≡ false
    → values name (del other hs) ≡ values name hs
unfolding del filter
values-del name other [] n = refl
values-del name other (h ∷ hs) n = ground (
  arith,
  values-del name other hs,
  text_eq_iff h.0 other,
  text_eq_iff h.0 name,
  text_eq_iff other name,
)

values-append :
    (name : Text) (hs ks : Headers) → values name (hs ++ ks) ≡ values name hs ++ values name ks
unfolding filter
values-append name [] ks = refl
values-append name (h ∷ hs) ks = ground (arith, values-append name hs ks)

pub values-set_same :
    (name value : Text) (hs : Headers) → values name (set name value hs) ≡ value ∷ []
unfolding set filter
values-set_same name value hs =
    values-append name (del name hs) ((name, value) ∷ [])
    ∙ rw (values-del_same name hs, text_eq_refl name) refl

pub values-set :
    (name other value : Text) (hs : Headers)
    → (other == name) ≡ false
    → values name (set other value hs) ≡ values name hs
unfolding set filter
values-set name other value hs n =
    values-append name (del other hs) ((other, value) ∷ [])
    ∙ rw (values-del name other hs n, n) (append_nil (values name hs))

pub values-strip_empty :
    (name : Text) (names : List Text) (hs : Headers)
    → values name hs ≡ []
    → values name (strip names hs) ≡ []
unfolding strip
values-strip_empty name [] hs h = h
values-strip_empty name (n ∷ names) hs h = elim (Bool-cases (n == name)) [
  | inl e ↦ values-strip_empty name names (del n hs) (
      subst (λ m. values name (del m hs) ≡ []) (sym ((text_eq_iff n name).0 e))
        (values-del_same name hs))
  | inr e ↦ values-strip_empty name names (del n hs) (values-del name n hs e ∙ h)
]

pub values-strip :
    (name : Text) (names : List Text) (hs : Headers)
    → contains (λ n. n == name) names ≡ true
    → values name (strip names hs) ≡ []
unfolding strip contains
values-strip name [] hs h = absurd (cc h)
values-strip name (n ∷ names) hs h = elim (Bool-cases (n == name)) [
  | inl e ↦ values-strip_empty name names (del n hs) (
      subst (λ m. values name (del m hs) ≡ []) (sym ((text_eq_iff n name).0 e))
        (values-del_same name hs))
  | inr e ↦ values-strip name names (del n hs) (rw e at h)
]

pub values-strip_other :
    (name : Text) (names : List Text) (hs : Headers)
    → contains (λ n. n == name) names ≡ false
    → values name (strip names hs) ≡ values name hs
unfolding strip contains
values-strip_other name [] hs h = refl
values-strip_other name (n ∷ names) hs h =
    values-strip_other name names (del n hs) (ground arith) ∙ values-del name n hs (ground arith)

-- None of these headers is left.
abbrev pub Without : List Text → Headers → Type 0
Without names hs = All (λ name. values name hs ≡ []) names

pub strip-Without : (names : List Text) (hs : Headers) → Without names (strip names hs)
strip-Without names hs =
    All-of_Has (λ name. values name (strip names hs) ≡ []) names
      (λ name m.
        values-strip name names hs
          (contains-of_Has (λ n. n == name) name names m (text_eq_refl name)))

-- The identity headers of a request, each with all its values.
abbrev pub Asserts : Identity → Headers → Type 0
Asserts id hs =
    (values (codes "X-CWB-Org") hs ≡ id.org ∷ [])
    × (values (codes "X-CWB-Subject") hs ≡ id.subject ∷ [])
    × (values (codes "X-CWB-Kind") hs ≡ id.kind ∷ [])
    × (values (codes "X-CWB-Scopes") hs ≡ join_with b' ' id.scopes ∷ [])
    × (values (codes "X-CWB-Products") hs ≡ join_with b' ' id.products ∷ [])
    × (values (codes "X-CWB-Responsible-Human") hs
        ≡ (if is_empty id.responsible_human then [] else id.responsible_human ∷ []))

pub inject_identity-Asserts :
    (id : Identity) (hs : Headers)
    → values (codes "X-CWB-Responsible-Human") hs ≡ []
    → Asserts id (inject_identity id hs)
unfolding inject_identity text_eq
inject_identity-Asserts id hs h = elim (Bool-cases (is_empty id.responsible_human)) [
  | inl e ↦ rw e (
    simp (values-set_same, values-set),
    simp (values-set_same, values-set),
    simp (values-set_same, values-set),
    simp (values-set_same, values-set),
    simp values-set_same,
    simp (values-set, h),
  )
  | inr e ↦ rw e (
    simp (values-set_same, values-set),
    simp (values-set_same, values-set),
    simp (values-set_same, values-set),
    simp (values-set_same, values-set),
    simp (values-set_same, values-set),
    simp values-set_same,
  )
]

-- A request without identity headers.
abbrev pub Anonymous : Headers → Type 0
Anonymous hs = Without trusted_headers hs

-- How a request can reach a backend: under the identity that the verifier gave for its bearer token,
-- with the route's product among those of the identity; or without any identity, where checks are off
-- or the path is public.
abbrev pub Admission : Gateway → Text → Request → Headers → Type 0
Admission g product req out =
    ((id : Identity) × (g.verify (bearer (strip trusted_headers req.headers)) ≡ some id)
      × (bearer (strip trusted_headers req.headers) ≢ [])
      × ((product ≡ []) ⊎ (has_product id.products product ≡ true))
      × Asserts id out)
    ⊎ (((g.bypass ≡ true) ⊎ (is_public g req.path ≡ true)) × Anonymous out)

pub empty_or : (s : Text) (b : Bool) → (not (is_empty s) && not b) ≡ false → (s ≡ []) ⊎ (b ≡ true)
empty_or [] b h = inl refl
empty_or (c ∷ s) b h = inr (ground arith)

pub nonempty : (s : Text) → is_empty s ≡ false → s ≢ []
nonempty s h e = absurd (cc (h, e))

proxied_inv : (u to : Text) (r out : Request) → proxied u r ≡ proxied to out → (to ≡ u) × (out ≡ r)
proxied_inv u to r out h = (cc h, cc h)

serve_backend-Admission :
    (g : Gateway) (u product rest to : Text) (req out : Request)
    → serve_backend g u product rest req ≡ proxied to out
    → (to ≡ u) × (out.path ≡ rest) × Admission g product req out.headers
unfolding serve_backend
serve_backend-Admission g u product rest to req out h =
    let clean = strip trusted_headers req.headers in
    elim (Bool-cases (not g.bypass && not (is_public g req.path))) [
      | inl e ↦ elim (Bool-cases (is_empty (bearer clean))) [
        | inl t ↦ absurd (ground arith)
        | inr t ↦ elim (Option-cases (g.verify (bearer clean))) [
          | inl v ↦ absurd (ground arith)
          | inr (id, v) ↦
              elim (Bool-cases (not (is_empty product) && not (has_product id.products product))) [
                | inl p ↦ absurd (ground arith)
                | inr p ↦
                    let (same, made) =
                      proxied_inv u to (record { path = rest; headers = inject_identity id clean })
                        out (ground arith) in
                    (rw made (
                      same,
                      refl,
                      inl (
                        id,
                        v,
                        nonempty _ t,
                        empty_or product _ p,
                        inject_identity-Asserts id clean (
                            values-strip (codes "X-CWB-Responsible-Human") trusted_headers
                              req.headers (unfold text_eq contains in refl)),
                      ),
                    ))
              ]
        ]
      ]
      | inr e ↦
          let (same, made) =
            proxied_inv u to (record { path = rest; headers = clean }) out (ground arith) in
          (rw made (same, refl, inr (ground arith, strip-Without trusted_headers req.headers)))
    ]

target-Admission :
    (g : Gateway) (t : Target) (rest to : Text) (req out : Request)
    → serve_target g t rest req ≡ proxied to out
    → (product : Text) × (t ≡ backend to product)
      × (out.path ≡ rest)
      × Admission g product req out.headers
target-Admission g (handler k) rest to req out h = absurd (cc h)
target-Admission g (backend u product) rest to req out h =
    let (same, path, admitted) = serve_backend-Admission g u product rest to req out h in
    (product, rw same refl, path, admitted)

-- What reaches a backend came by the match of its path, to the backend of that route and under what is
-- left of the path. Either the bearer token was verified, the identity has the product of the route if
-- it has one, and each identity header carries one value, that of the verified identity (none where the
-- identity names no responsible human); or checks are off or the path is public, and no identity header
-- is left, whatever the client sent.
pub serve-Admission :
    (g : Gateway) (to : Text) (req out : Request)
    → serve g req ≡ proxied to out
    → (rt : Route) × (rest : Text) × (product : Text) × (match_route g.routes req.path
        ≡ some (rt, rest))
      × (rt.target ≡ backend to product)
      × (out.path ≡ rest)
      × Admission g product req out.headers
unfolding serve
serve-Admission g to req out h = elim (Option-cases (match_route g.routes req.path)) [
  | inl e ↦ absurd (ground arith)
  | inr (found, e) ↦
      let (product, target, path, admitted) =
        target-Admission g found.0.target found.1 to req out (rw (e, serve) at h) in
      (found.0, found.1, product, e, target, path, admitted)
]
