-- ===== src/RateLimit/Solo.antt =====
-- What the limit means for one client: the answers of one token bucket, whatever the others do.
use interchange.Base.{
  ◌≡◌, ◌≢◌, inl, inr, refl, sym, subst, ap, ◌∙◌, arith, Bool, true, false, not, ◌&&◌, some, List,
  [], ◌∷◌, map, Text, leb, ltb, length, filter, ◌==◌, text_eq_iff, &&-eq-true, lookup_key, assign,
  lookup_key-assign, lookup_key-assign_same, lookup_key-filter, lookup_key-map, if◌then◌else◌,
  Bool-cases, Option-cases,
}
use mathlib.Core.Path.{ap₂}
use interchange.Platform.{Time, sub_time, le_duration}
use interchange.RateLimit.{
  RateRule, RateLimitConfig, Limiter, Bucket, Buckets, KeyMap, Event, request, tick, match_rule,
  buckets_of, admit, allow, evict, evict_ips, is_idle, decide,
}

module _ (L : Limiter) (cfg : RateLimitConfig) (id ip : Text) where
  -- Whether a request counts for the rule and the address.
  abbrev pub is_mine : Text → Text → Text → Bool
  is_mine method path from = (match_rule cfg method path).1 == id && from == ip

  -- The decisions on the client's requests, in order.
  unfoldable pub answers : List (Event L) → KeyMap L → List Bool
  answers [] m = []
  answers (request method path from now ∷ es) m =
      let (ok, next) = decide L cfg method path from now m in
      let rest = answers es next in if is_mine method path from then ok ∷ rest else rest
  answers (tick now ∷ es) m = answers es (evict L cfg.idle_evict_after now m)

  -- The answers of one limiter, asked at the instants of the client's requests alone.
  unfoldable pub solo : List (Event L) → L.State → List Bool
  solo [] l = []
  solo (request method path from now ∷ es) l =
      let (ok, next) = L.allow l now in
      let asked = solo es next in
      let rest = solo es l in if is_mine method path from then ok ∷ asked else rest
  solo (tick now ∷ es) l = solo es l

  -- At no tick has the client been idle for longer than a bucket is kept.
  abbrev pub Busy : List (Event L) → Time → Type 0
  Busy [] last = Unit
  Busy (request method path from now ∷ es) last =
      Busy es (if is_mine method path from then now else last)
  Busy (tick now ∷ es) last =
      (le_duration (sub_time now last) cfg.idle_evict_after ≡ true) × Busy es last

  -- The client's bucket.
  abbrev pub Holds : KeyMap L → L.State → Time → Type 0
  Holds m l last = lookup_key ip (buckets_of L id m) ≡ some (record { limiter = l; last = last })

  buckets_of-assign : (ips : Buckets L) (m : KeyMap L) → buckets_of L id (assign id ips m) ≡ ips
  buckets_of-assign ips m = rw (lookup_key-assign_same id ips m, buckets_of) refl

  buckets_of-assign_other :
      (other : Text) (ips : Buckets L) (m : KeyMap L)
      → other ≢ id
      → buckets_of L id (assign other ips m) ≡ buckets_of L id m
  buckets_of-assign_other other ips m n = rw (lookup_key-assign other id ips m n, buckets_of) refl

  admit-Holds :
      (l : L.State) (now : Time) (m : KeyMap L)
      → ((admit L id ip l now m).0 ≡ (L.allow l now).0)
        × Holds (admit L id ip l now m).1 (L.allow l now).1 now
  unfolding admit
  admit-Holds l now m =
      (refl, rw (buckets_of-assign _ m) (lookup_key-assign_same ip _ (buckets_of L id m)))

  allow-Holds :
      (rule : RateRule) (l : L.State) (last now : Time) (m : KeyMap L)
      → Holds m l last
      → ((allow L cfg.max_buckets_per_rule id ip rule now m).0 ≡ (L.allow l now).0)
        × Holds (allow L cfg.max_buckets_per_rule id ip rule now m).1 (L.allow l now).1 now
  unfolding allow
  allow-Holds rule l last now m h = rw (h, allow) (admit-Holds l now m)

  kept_buckets :
      (j : Text) (m : KeyMap L)
      → lookup_key ip (buckets_of L id (assign j (buckets_of L j m) m))
        ≡ lookup_key ip (buckets_of L id m)
  kept_buckets j m = elim (Bool-cases (j == id)) [
    | inl e ↦
        subst
          (λ k.
            lookup_key ip (buckets_of L id (assign k (buckets_of L k m) m))
            ≡ lookup_key ip (buckets_of L id m))
          (sym ((text_eq_iff j id).0 e))
          (ap (lookup_key ip) (buckets_of-assign (buckets_of L id m) m))
    | inr e ↦
        ap (lookup_key ip)
          (buckets_of-assign_other j _ m (λ f. ground (arith, e, text_eq_iff j id, f)))
  ]

  -- The tables that differ at most in the buckets of other clients.
  admit_other :
      (j from : Text) (l : L.State) (now : Time) (m : KeyMap L)
      → (j == id && from == ip) ≡ false
      → lookup_key ip (buckets_of L id (admit L j from l now m).1)
        ≡ lookup_key ip (buckets_of L id m)
  unfolding admit
  admit_other j from l now m n = elim (Bool-cases (j == id)) [
    | inl e ↦
        let same : j ≡ id = (text_eq_iff j id).0 e in
        let elsewhere : from ≢ ip = λ f. (ground (arith, n, e, text_eq_iff from ip, f)) in
        let b : Bucket L = record { limiter = (L.allow l now).1; last = now } in
        subst
          (λ k.
            lookup_key ip (buckets_of L id (assign k (assign from b (buckets_of L k m)) m))
            ≡ lookup_key ip (buckets_of L id m))
          (sym same)
          (ap (lookup_key ip) (buckets_of-assign (assign from b (buckets_of L id m)) m)
            ∙ lookup_key-assign from ip b (buckets_of L id m) elsewhere)
    | inr e ↦
        ap (lookup_key ip)
          (buckets_of-assign_other j _ m (λ f. (ground (arith, e, text_eq_iff j id, f))))
  ]

  allow_other :
      (j from : Text) (rule : RateRule) (now : Time) (m : KeyMap L)
      → (j == id && from == ip) ≡ false
      → lookup_key ip (buckets_of L id (allow L cfg.max_buckets_per_rule j from rule now m).1)
        ≡ lookup_key ip (buckets_of L id m)
  unfolding allow
  allow_other j from rule now m n = elim (Option-cases (lookup_key from (buckets_of L j m))) [
    | inr (b, e) ↦ rw (e, allow) (admit_other j from b.limiter now m n)
    | inl e ↦ elim (Bool-cases (leb cfg.max_buckets_per_rule (length (buckets_of L j m)))) [
      | inr room ↦ rw (e, room, allow) (admit_other j from (L.fresh rule) now m n)
      | inl full ↦ rw (e, full, allow) (kept_buckets j m)
    ]
  ]

  held_rule :
      (l : L.State) (last : Time) (m : KeyMap L)
      → Holds m l last
      → (ips : Buckets L) × (lookup_key id m ≡ some ips)
        × (lookup_key ip ips ≡ some (record { limiter = l; last = last }))
  unfolding lookup_key
  held_rule l last m h = elim (Option-cases (lookup_key id m)) [
    | inl e ↦ absurd (cc (rw (e, buckets_of) at h))
    | inr (ips, e) ↦ (ips, e, rw (e, buckets_of) at h)
  ]

  nonempty_of_held :
      (b : Bucket L) (ips : Buckets L) → lookup_key ip ips ≡ some b → ltb 0 (length ips) ≡ true
  unfolding lookup_key
  nonempty_of_held b [] h = absurd (cc h)
  nonempty_of_held b (q ∷ ips) h = ground arith

  evict-Holds :
      (l : L.State) (last now : Time) (m : KeyMap L)
      → le_duration (sub_time now last) cfg.idle_evict_after ≡ true
      → Holds m l last
      → Holds (evict L cfg.idle_evict_after now m) l last
  unfolding evict
  evict-Holds l last now m t h =
      let keep : Bucket L → Bool = λ b. not (is_idle L cfg.idle_evict_after now (ip, b)) in
      let (ips, found, held) = held_rule l last m h in
      let inner = lookup_key-filter keep ip _ ips held (ground (arith, t)) in
      let mapped = lookup_key-map (λ bs. filter (λ q. keep q.1) bs) id ips m found in
      let outer =
        lookup_key-filter (λ bs. ltb 0 (length bs)) id (filter (λ q. keep q.1) ips)
          (map (evict_ips L cfg.idle_evict_after now) m) mapped
          (nonempty_of_held _ (filter (λ q. keep q.1) ips) inner) in
      rw (outer, buckets_of) inner

  decide-Holds :
      (method path from : Text) (l : L.State) (last now : Time) (m : KeyMap L)
      → is_mine method path from ≡ true
      → Holds m l last
      → ((decide L cfg method path from now m).0 ≡ (L.allow l now).0)
        × Holds (decide L cfg method path from now m).1 (L.allow l now).1 now
  decide-Holds method path from l last now m mine h =
      let (rule, j) = match_rule cfg method path in
      let (a, b) = &&-eq-true (j == id) (from == ip) mine in
      let Q : Text → Text → Type 0 = λ k f.
        ((allow L cfg.max_buckets_per_rule k f rule now m).0 ≡ (L.allow l now).0)
        × Holds (allow L cfg.max_buckets_per_rule k f rule now m).1 (L.allow l now).1 now in
      subst (λ k. Q k from) (sym ((text_eq_iff j id).0 a))
        (subst (λ f. Q id f) (sym ((text_eq_iff from ip).0 b)) (allow-Holds rule l last now m h))

  -- A client that has a bucket, and that is never idle for so long that a tick evicts it: the limit
  -- answers its requests under this rule as one token bucket of its own would, asked at the instants of
  -- these requests only. No request of another address or under another rule changes an answer.
  pub answers-solo :
      (es : List (Event L)) (m : KeyMap L) (l : L.State) (last : Time)
      → Holds m l last
      → Busy es last
      → answers es m ≡ solo es l
  unfolding answers solo
  answers-solo [] m l last h b = refl
  answers-solo (tick now ∷ es) m l last h b =
      answers-solo es (evict L cfg.idle_evict_after now m) l last (evict-Holds l last now m b.0 h)
        b.1
  answers-solo (request method path from now ∷ es) m l last h b =
      elim (Bool-cases (is_mine method path from)) [
        | inl e ↦
            let (same, held) = decide-Holds method path from l last now m e h in
            rw (e, answers, solo)
              (ap₂ (λ ok rest. ok ∷ rest) same
                (answers-solo es (decide L cfg method path from now m).1 (L.allow l now).1 now held
                  (rw e at b)))
        | inr e ↦
            let (rule, j) = match_rule cfg method path in
            rw (e, answers, solo)
              (answers-solo es (decide L cfg method path from now m).1 l last
                (allow_other j from rule now m e ∙ h) (rw e at b))
      ]
