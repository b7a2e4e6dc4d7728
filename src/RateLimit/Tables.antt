-- ===== src/RateLimit/Tables.antt =====
-- The size of the limiter's table over every history.
use interchange.Base.{
  ◌≡◌, ◌≤◌, inl, inr, refl, sym, subst, arith, Bool, not, some, List, [], ◌∷◌, map, Text, leb,
  length, find, filter, All, All-map, All-filter, Distinct, Distinct-filter, Distinct-map, ap,
  length-filter-le, lookup_key, assign, All-assign, All-lookup_key, Distinct-assign,
  length-assign_old, length-assign, Has, Bool-cases, Option-cases,
}
use mathlib.Core.Option.{some-injective}
use interchange.Platform.{Time}
use interchange.RateLimit.{
  is_matching, RouteRule, RateRule, RateLimitConfig, Limiter, Bucket, Buckets, KeyMap, Event,
  request, tick, match_rule, rule_id, default_id, buckets_of, admit, allow, evict, evict_ips,
  has_buckets, is_idle, step, run,
}

All-of_map :
    {A B : Type 0} (P : B → Type 0) (f : A → B) (xs : List A)
    → All (λ x. P (f x)) xs
    → All P (map f xs)
All-of_map P f [] h = tt
All-of_map P f (x ∷ xs) h = (h.0, All-of_map P f xs h.1)

found-Has :
    (p : RouteRule → Bool) (rr : RouteRule) (rs : List RouteRule)
    → find p rs ≡ some rr
    → Has (rule_id rr) (map rule_id rs)
unfolding find
found-Has p rr [] h = absurd (cc h)
found-Has p rr (r ∷ rs) h = elim (Bool-cases (p r)) [
  | inl e ↦ inl (ap rule_id (sym (some-injective _ _ (rw e at h))))
  | inr e ↦ inr (found-Has p rr rs (rw e at h))
]

module _ (L : Limiter) (cfg : RateLimitConfig) where
  -- The addresses of a rule: each once, and at most as many as the cap.
  pub record Capped (ips : Buckets L) : Type 0 where
    pub addresses : Distinct (λ q. q.0) ips
    pub size : length ips ≤ cfg.max_buckets_per_rule

  -- Each rule once, each of them the default or one of the configuration, each capped.
  pub record Bounded (m : KeyMap L) : Type 0 where
    pub rules : Distinct (λ r. r.0) m
    pub known : All (λ r. Has r.0 (default_id ∷ map rule_id cfg.routes)) m
    pub capped : All (λ r. Capped r.1) m

  no_buckets-Capped : Capped []
  no_buckets-Capped = record { addresses = tt; size = ground arith }

  buckets_of-Capped :
      (id : Text) (m : KeyMap L) → All (λ r. Capped r.1) m → Capped (buckets_of L id m)
  buckets_of-Capped id m h = elim (Option-cases (lookup_key id m)) [
    | inl e ↦ rw (e, buckets_of) no_buckets-Capped
    | inr (ips, e) ↦ rw (e, buckets_of) (All-lookup_key (λ r. Capped r.1) id ips m e h)
  ]

  put_buckets-Bounded :
      (id : Text) (ips : Buckets L) (m : KeyMap L)
      → Has id (default_id ∷ map rule_id cfg.routes)
      → Capped ips
      → Bounded m
      → Bounded (assign id ips m)
  put_buckets-Bounded id ips m k c b = record {
    rules = Distinct-assign id ips m b.rules;
    known = All-assign (λ r. Has r.0 (default_id ∷ map rule_id cfg.routes)) id ips m k b.known;
    capped = All-assign (λ r. Capped r.1) id ips m c b.capped;
  }

  admit-Bounded :
      (id ip : Text) (l : L.State) (now : Time) (m : KeyMap L)
      → Has id (default_id ∷ map rule_id cfg.routes)
      → ((x : Bucket L) → length (assign ip x (buckets_of L id m)) ≤ cfg.max_buckets_per_rule)
      → Bounded m
      → Bounded (admit L id ip l now m).1
  unfolding admit
  admit-Bounded id ip l now m k size b =
      let x : Bucket L = record { limiter = (L.allow l now).1; last = now } in
      put_buckets-Bounded id (assign ip x (buckets_of L id m)) m k
        (record {
          addresses =
              Distinct-assign ip x (buckets_of L id m) (buckets_of-Capped id m b.capped).addresses;
          size = size x;
        })
        b

  allow-Bounded :
      (id ip : Text) (rule : RateRule) (now : Time) (m : KeyMap L)
      → Has id (default_id ∷ map rule_id cfg.routes)
      → Bounded m
      → Bounded (allow L cfg.max_buckets_per_rule id ip rule now m).1
  unfolding allow
  allow-Bounded id ip rule now m k b =
      let ips = buckets_of L id m in
      let c = buckets_of-Capped id m b.capped in
      elim (Option-cases (lookup_key ip ips)) [
        | inr (old, e) ↦
            rw (e, allow)
              (admit-Bounded id ip old.limiter now m k
                (λ x.
                  subst (λ n. n ≤ cfg.max_buckets_per_rule) (sym (length-assign_old ip x old ips e))
                    c.size)
                b)
        | inl e ↦ elim (Bool-cases (leb cfg.max_buckets_per_rule (length ips))) [
          | inl full ↦ rw (e, full, allow) (put_buckets-Bounded id ips m k c b)
          | inr room ↦
              rw (e, room, allow)
                (admit-Bounded id ip (L.fresh rule) now m k
                  (λ x. ground (arith, length-assign ip x ips, room)) b)
        ]
      ]

  keep-Capped :
      (now : Time) (ips : Buckets L)
      → Capped ips
      → Capped (filter (λ q. not (is_idle L cfg.idle_evict_after now q)) ips)
  keep-Capped now ips c = record {
    addresses = Distinct-filter (λ q. q.0) _ ips c.addresses;
    size =
        ground
          (arith, length-filter-le (λ q. not (is_idle L cfg.idle_evict_after now q)) ips, c.size);
  }

  evict-Bounded :
      (now : Time) (m : KeyMap L) → Bounded m → Bounded (evict L cfg.idle_evict_after now m)
  unfolding evict
  evict-Bounded now m b =
      let f = evict_ips L cfg.idle_evict_after now in
      record {
        rules =
            Distinct-filter (λ r. r.0) (has_buckets L) (map f m)
              (Distinct-map (λ r. r.0) f (λ r. refl) m b.rules);
        known =
            All-filter (λ r. Has r.0 (default_id ∷ map rule_id cfg.routes)) (has_buckets L)
              (map f m) (All-of_map _ f m b.known);
        capped =
            All-filter (λ r. Capped r.1) (has_buckets L) (map f m)
              (All-of_map _ f m
                (All-map {Q = λ r. Capped (f r).1} (λ r c. keep-Capped now r.1 c) m b.capped));
      }

  rule-Has :
      (method path : Text)
      → Has (match_rule cfg method path).1 (default_id ∷ map rule_id cfg.routes)
  unfolding match_rule
  rule-Has method path = elim (Option-cases (find (is_matching method path) cfg.routes)) [
    | inl e ↦ inl (ground (arith, e))
    | inr (rr, e) ↦
        let named : (match_rule cfg method path).1 ≡ rule_id rr = ground (arith, e) in
        subst (λ id. Has id (default_id ∷ map rule_id cfg.routes)) (sym named)
          (inr (found-Has (is_matching method path) rr cfg.routes e))
  ]

  pub step-Bounded : (e : Event L) (m : KeyMap L) → Bounded m → Bounded (step L cfg e m)
  step-Bounded (request method path ip now) m b =
      let (rule, id) = match_rule cfg method path in
      allow-Bounded id ip rule now m (rule-Has method path) b
  step-Bounded (tick now) m b = evict-Bounded now m b

  -- Whatever requests and ticks come, in any order and from any addresses: a table that is bounded stays
  -- so, and the empty one is. It holds each rule at most once, no rule but the default one and those of
  -- the configuration, and under each rule each address at most once and no more addresses than the cap.
  pub run-Bounded : (es : List (Event L)) (m : KeyMap L) → Bounded m → Bounded (run L cfg es m)
  unfolding run
  run-Bounded [] m b = b
  run-Bounded (e ∷ es) m b = run-Bounded es (step L cfg e m) (step-Bounded e m b)

  pub no_rules-Bounded : Bounded []
  no_rules-Bounded = record { rules = tt; known = tt; capped = tt }
