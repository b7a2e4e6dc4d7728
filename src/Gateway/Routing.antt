-- ===== src/Gateway/Routing.antt =====
-- The routes of a gateway: the most specific one serves a path, whatever the order of the maps.
use interchange.Base.{
  append_assoc, append_nil, ℕ, ◌≡◌, ◌≤◌, refl, sym, ◌∙◌, arith, Bool, true, false, Option, none,
  some, List, [], ◌∷◌, ◌++◌, map, Text, length, find, sort_by, insert_by, All, find_sound,
  has_prefix, cut_prefix, cut_prefix-append, text_eq_iff, Option-cases, ◌⊎◌, ◌==◌, Bool-cases,
  All-map, subst, inl, inr,
}
use mathlib.Core.Option.{some-injective}
use interchange.Gateway.{
  Env, Config, Route, Gateway, longer, serves, match_route, remainder, slash, proxy_routes,
  grpc_route, new,
}

abbrev reach : Route → ℕ
reach rt = length rt.prefix

-- No later route has a longer prefix.
abbrev Descending : List Route → Type 0
Descending [] = Unit
Descending (r ∷ rs) = All (λ o. reach o ≤ reach r) rs × Descending rs

All-insert :
    (P : Route → Type 0) (x : Route) (ys : List Route)
    → P x
    → All P ys
    → All P (insert_by longer x ys)
unfolding insert_by
All-insert P x [] h k = (h, tt)
All-insert P x (y ∷ ys) h k = ground (arith, All-insert P x ys h k.1)

All-insert_inv :
    (P : Route → Type 0) (x : Route) (ys : List Route)
    → All P (insert_by longer x ys)
    → P x × All P ys
unfolding insert_by
All-insert_inv P x [] h = h
All-insert_inv P x (y ∷ ys) h = elim (Bool-cases (longer y x)) [
  | inl e ↦
      let t : All P (y ∷ insert_by longer x ys) = rw e at h in
      let (p, q) = All-insert_inv P x ys t.1 in (p, (t.0, q))
  | inr e ↦ rw e at h
]

All-sort : (P : Route → Type 0) (rs : List Route) → All P rs → All P (sort_by longer rs)
unfolding sort_by
All-sort P [] h = tt
All-sort P (r ∷ rs) h = All-insert P r (sort_by longer rs) h.0 (All-sort P rs h.1)

All-sort_inv : (P : Route → Type 0) (rs : List Route) → All P (sort_by longer rs) → All P rs
unfolding sort_by
All-sort_inv P [] h = tt
All-sort_inv P (r ∷ rs) h =
    let (p, q) = All-insert_inv P r (sort_by longer rs) h in (p, All-sort_inv P rs q)

Descending-insert :
    (x : Route) (ys : List Route) → Descending ys → Descending (insert_by longer x ys)
unfolding insert_by
Descending-insert x [] d = (tt, tt)
Descending-insert x (y ∷ ys) d = elim (Bool-cases (longer y x)) [
  | inl e ↦
      rw e (All-insert (λ o. reach o ≤ reach y) x ys (ground arith) d.0, Descending-insert x ys d.1)
  | inr e ↦ rw e (
    (
      ground arith,
      All-map {Q = λ o. reach o ≤ reach x} (λ o (h : reach o ≤ reach y). ground arith) ys d.0,
    ),
    d,
  )
]

Descending-sort : (rs : List Route) → Descending (sort_by longer rs)
unfolding sort_by
Descending-sort [] = tt
Descending-sort (r ∷ rs) = Descending-insert r (sort_by longer rs) (Descending-sort rs)

-- The first hit in a descending list is the longest.
find-longest :
    (p : Route → Bool) (rs : List Route) (r : Route)
    → Descending rs
    → find p rs ≡ some r
    → All (λ o. (p o ≡ false) ⊎ (reach o ≤ reach r)) rs
unfolding find
find-longest p [] r d h = tt
find-longest p (x ∷ rs) r d h = elim (Bool-cases (p x)) [
  | inl e ↦
      let same : x ≡ r = some-injective _ _ (rw e at h) in
      subst (λ y. All (λ o. (p o ≡ false) ⊎ (reach o ≤ reach y)) (x ∷ rs)) same
        (
          inr (ground arith),
          All-map {Q = λ o. (p o ≡ false) ⊎ (reach o ≤ reach x)}
              (λ o (k : reach o ≤ reach x). inr k) rs d.0,
        )
  | inr e ↦ (inl e, find-longest p rs r d.1 (rw e at h))
]

find-none : (p : Route → Bool) (rs : List Route) → find p rs ≡ none → All (λ o. p o ≡ false) rs
unfolding find
find-none p [] h = tt
find-none p (x ∷ rs) h = ground (arith, find-none p rs)

has_prefix_sound : (s p : Text) → has_prefix s p ≡ true → (r : Text) × (s ≡ p ++ r)
unfolding has_prefix
has_prefix_sound s [] h = (s, refl)
has_prefix_sound [] (c ∷ p) h = absurd (cc h)
has_prefix_sound (d ∷ s) (c ∷ p) h =
    let (r, e) = has_prefix_sound s p (ground arith) in (r, ground (arith, e))

-- What a path is to the prefix that serves it, and what is left of it behind that prefix.
abbrev pub Splits : Text → Text → Text → Type 0
Splits path prefix rest =
    ((path ≡ prefix) × (rest ≡ slash ∷ []))
    ⊎ ((r : Text) × (path ≡ prefix ++ (slash ∷ r)) × (rest ≡ slash ∷ r))

remainder_self : (p : Text) → remainder p p ≡ slash ∷ []
remainder_self p =
    let whole = subst (λ s. cut_prefix s p ≡ some []) (append_nil p) (cut_prefix-append p []) in
    rw (whole, remainder) refl

remainder-below : (p r : Text) → remainder (p ++ (slash ∷ r)) p ≡ slash ∷ r
remainder-below p r = rw (cut_prefix-append p (slash ∷ r), remainder) refl

serves-Splits :
    (path : Text) (rt : Route)
    → serves path rt ≡ true
    → Splits path rt.prefix (remainder path rt.prefix)
serves-Splits path rt h = elim (Bool-cases (path == rt.prefix)) [
  | inl e ↦
      let same = (text_eq_iff path rt.prefix).0 e in
      inl (
        same,
        subst (λ s. remainder s rt.prefix ≡ slash ∷ []) (sym same) (remainder_self rt.prefix),
      )
  | inr e ↦
      let (r, q) = has_prefix_sound path (rt.prefix ++ (slash ∷ [])) (ground arith) in
      let split = q ∙ append_assoc rt.prefix (slash ∷ []) r in
      inr (
        r,
        split,
        subst (λ s. remainder s rt.prefix ≡ slash ∷ r) (sym split) (remainder-below rt.prefix r),
      )
]

-- The routes that a configuration names.
abbrev pub configured : Config → List Route → List Route
configured cfg proxies = proxies ++ map grpc_route cfg.grpc_handlers

abbrev pub Matched : List Route → Text → Option (Route × Text) → Type 0
Matched all path found =
    ((found ≡ none) × All (λ o. serves path o ≡ false) all)
    ⊎ ((rt : Route) × (found ≡ some (rt, remainder path rt.prefix))
        × Splits path rt.prefix (remainder path rt.prefix)
        × All (λ o. (serves path o ≡ false) ⊎ (length o.prefix ≤ length rt.prefix)) all)

new-routes :
    (env : Env) (cfg : Config) (g : Gateway) (proxies : List Route)
    → proxy_routes env cfg.route_products cfg.routes ≡ some proxies
    → new env cfg ≡ some g
    → g.routes ≡ sort_by longer (configured cfg proxies)
unfolding new
new-routes env cfg g proxies p h = ground (arith, p)

-- In a gateway that a configuration gives, a path without a match is served by no configured route;
-- otherwise the match is a route whose prefix is the path or its front up to a slash, no route that
-- serves the path has a longer prefix, and what is left of the path begins with a slash.
pub match_route-longest :
    (env : Env) (cfg : Config) (g : Gateway) (proxies : List Route) (path : Text)
    → proxy_routes env cfg.route_products cfg.routes ≡ some proxies
    → new env cfg ≡ some g
    → Matched (configured cfg proxies) path (match_route g.routes path)
unfolding match_route
match_route-longest env cfg g proxies path p h =
    let rs = configured cfg proxies in
    rw (new-routes env cfg g proxies p h)
      (elim (Option-cases (find (serves path) (sort_by longer rs))) [
        | inl e ↦
            rw (e, match_route)
              (inl (
                refl,
                All-sort_inv (λ o. serves path o ≡ false) rs
                    (find-none (serves path) (sort_by longer rs) e),
              ))
        | inr (rt, e) ↦
            rw (e, match_route)
              (inr (
                rt,
                refl,
                serves-Splits path rt (find_sound (serves path) (sort_by longer rs) rt e),
                All-sort_inv (λ o. (serves path o ≡ false) ⊎ (reach o ≤ reach rt)) rs
                    (find-longest (serves path) (sort_by longer rs) rt (Descending-sort rs) e),
              ))
      ])
