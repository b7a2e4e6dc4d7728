-- ===== src/RateLimit.antt =====
-- internal/middleware/middleware.go: the rate limit per rule and client address. The token bucket of
-- golang.org/x/time/rate is a parameter; the mutex makes the operations on the table a sequence. Recover
-- turns a panic into a response, and the model has no panics.
pub mod Tables
pub mod Solo
use interchange.Base.{
  ℕ, ◌*◌, Bool, false, not, ◌&&◌, Option, none, some, List, [], ◌∷◌, ◌++◌, map, Text, codes,
  is_empty, leb, ltb, eqb, ◌==◌, length, find, filter, has_prefix, lookup_key, assign,
  if◌then◌else◌,
}
use interchange.Platform.{Time, minute, sub_time, le_duration}

-- RateRule: so many tokens in so many seconds, and the burst.
pub record RateRule : Type 0 where
  pub tokens : ℕ
  pub seconds : ℕ
  pub burst : ℕ

pub record RouteRule : Type 0 where
  pub method : Text
  pub prefix : Text
  pub rule : RateRule

pub record RateLimitConfig : Type 0 where
  pub default_rule : RateRule
  pub routes : List RouteRule
  pub idle_evict_after : ℕ
  pub max_buckets_per_rule : ℕ
  pub trust_xff : Bool

-- The defaults that RateLimit fills in.
unfoldable pub with_defaults : RateLimitConfig → RateLimitConfig
with_defaults cfg = record cfg {
  idle_evict_after = if eqb cfg.idle_evict_after 0 then 10 * minute else cfg.idle_evict_after;
  max_buckets_per_rule = if eqb cfg.max_buckets_per_rule 0 then 50000 else cfg.max_buckets_per_rule;
}

-- rate.Limiter: NewLimiter, and Allow at an instant.
pub record Limiter : Type 1 where
  pub State : Type 0
  pub fresh : RateRule → State
  pub allow : State → Time → Bool × State

abbrev pub rule_id : RouteRule → Text
rule_id rr = rr.method ++ (b':' ∷ rr.prefix)

abbrev pub default_id : Text
default_id = codes "default"

abbrev pub is_matching : Text → Text → RouteRule → Bool
is_matching method path rr =
    not (not (is_empty rr.method) && not (rr.method == method)) && has_prefix path rr.prefix

-- matchRule
unfoldable pub match_rule : RateLimitConfig → Text → Text → RateRule × Text
match_rule cfg method path = elim (find (is_matching method path) cfg.routes) [
  | none ↦ (cfg.default_rule, default_id)
  | some rr ↦ (rr.rule, rule_id rr)
]

-- The text before the first comma, unless the comma comes first or there is none.
unfoldable pub first_hop : Text → Option Text
first_hop [] = none
first_hop (c ∷ s) =
    let rest = first_hop s in
    if eqb c b',' then some [] else elim rest [ none ↦ none | some t ↦ some (c ∷ t) ]

-- The key that X-Forwarded-For gives, if it gives one.
abbrev pub forwarded_for : (Text → Text) → Text → Text
forwarded_for trim xff = elim (first_hop xff) [
  | none ↦ trim xff
  | some [] ↦ trim xff
  | some (c ∷ t) ↦ trim (c ∷ t)
]

abbrev pub remote_host : (Text → Option Text) → Text → Text
remote_host split_host remote_addr = elim (split_host remote_addr) [
  | none ↦ remote_addr
  | some h ↦ h
]

-- clientIP, with strings.TrimSpace and the host of net.SplitHostPort as parameters.
unfoldable pub client_ip : (Text → Text) → (Text → Option Text) → Bool → Text → Text → Text
client_ip trim split_host trust_xff xff remote_addr =
    if trust_xff && not (is_empty xff)
    then forwarded_for trim xff
    else remote_host split_host remote_addr

module _ (L : Limiter) where
  pub record Bucket : Type 0 where
    pub limiter : L.State
    pub last : Time

  abbrev pub Buckets : Type 0
  Buckets = List (Text × Bucket)

  -- keyMap: by rule, then by address.
  abbrev pub KeyMap : Type 0
  KeyMap = List (Text × Buckets)

  abbrev pub buckets_of : Text → KeyMap → Buckets
  buckets_of id m = elim (lookup_key id m) [ none ↦ [] | some ips ↦ ips ]

  -- The end of allow: the instant is noted and the limiter asked.
  unfoldable pub admit : Text → Text → L.State → Time → KeyMap → Bool × KeyMap
  admit id ip l now m =
      let (ok, next) = L.allow l now in
      (ok, assign id (assign ip (record { limiter = next; last = now }) (buckets_of id m)) m)

  -- allow
  unfoldable pub allow : ℕ → Text → Text → RateRule → Time → KeyMap → Bool × KeyMap
  allow cap id ip rule now m = elim (lookup_key ip (buckets_of id m)) [
    | some b ↦ admit id ip b.limiter now m
    | none ↦
        if leb cap (length (buckets_of id m))
        then (false, assign id (buckets_of id m) m)
        else admit id ip (L.fresh rule) now m
  ]

  abbrev pub is_idle : ℕ → Time → Text × Bucket → Bool
  is_idle idle now q = not (le_duration (sub_time now q.1.last) idle)

  abbrev pub evict_ips : ℕ → Time → Text × Buckets → Text × Buckets
  evict_ips idle now r = (r.0, filter (λ q. not (is_idle idle now q)) r.1)

  abbrev pub has_buckets : Text × Buckets → Bool
  has_buckets r = ltb 0 (length r.1)

  -- One tick of evictLoop.
  unfoldable pub evict : ℕ → Time → KeyMap → KeyMap
  evict idle now m = filter has_buckets (map (evict_ips idle now) m)

  -- What the limiter sees: a request of a client, or a tick.
  pub data Event : Type 0 where
    request : Text → Text → Text → Time → Event
    tick : Time → Event

  -- The decision of the handler of RateLimit, at the client's address.
  abbrev pub decide : RateLimitConfig → Text → Text → Text → Time → KeyMap → Bool × KeyMap
  decide cfg method path ip now m =
      let (rule, id) = match_rule cfg method path in allow cfg.max_buckets_per_rule id ip rule now m

  abbrev pub step : RateLimitConfig → Event → KeyMap → KeyMap
  step cfg (request method path ip now) m = (decide cfg method path ip now m).1
  step cfg (tick now) m = evict cfg.idle_evict_after now m

  unfoldable pub run : RateLimitConfig → List Event → KeyMap → KeyMap
  run cfg [] m = m
  run cfg (e ∷ es) m = run cfg es (step cfg e m)
