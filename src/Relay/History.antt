-- ===== src/Relay/History.antt =====
-- What holds of the relay after any history of requests, ticks and faults.
use interchange.Base.{
  ◌-◌, ◌≡◌, ◌≢◌, refl, ◌∙◌, ap, arith, [], codes, filter, has_prefix, ◌==◌, if_rule,
}
use interchange.Platform.{Time}
use interchange.Storage.{delete_envelopes_older_than, expire_pending_requests, Db}
use interchange.Storage.Keys.{
  Reach, Reach-trans, here, next, swept, expired, Keyed, Reach-Keyed, empty_db,
}
use interchange.Sweep
use interchange.Mailbox
use interchange.Mailbox.Writes.{dispatch-Writes}
use interchange.Pairflow
use interchange.Pairflow.Writes.{Interleaved, dispatch_owner-Reach, dispatch_public-Reach}
use interchange.Pairflow.Public.{
  is_approved, expire-SameGrants, dispatch_public-SameGrants, expire-SameGrants,
  dispatch_owner-unauthorized,
}
use interchange.RateLimit.{Limiter, evict, with_defaults, decide, request, tick}
use interchange.RateLimit.Tables.{Bounded, step-Bounded, no_rules-Bounded}
use interchange.Relay.{
  discovery_path, Http, Node, Turn, Response, Relay, rate_cfg, pairflow_env, public_mux,
  tailnet_mux, fresh, serve_public, serve_tailnet, sweep_once, address, to_mailbox, to_pairflow,
}

module _ (L : Limiter) (node : Node) where
  -- One turn of the program.
  pub data Step (s : Relay L) : Relay L → Type 0 where
    public_turn : (t : Turn) (r : Http) → Step s (serve_public L node t r s).1
    owner_turn :
        (t : Turn) (r : Http)
        → Interleaved (pairflow_env node t)
        → Step s (serve_tailnet L node t r s).1
    sweep_turn : (t : Sweep.Tick) → Step s (sweep_once L node t s)
    evict_turn :
        (now : Time)
        → Step s
            (record s { buckets = evict L (with_defaults rate_cfg).idle_evict_after now s.buckets })

  pub data History : Relay L → Type 0 where
    started : History (fresh L node)
    more : {s t : Relay L} → History s → Step s t → History t

module _ (L : Limiter) (node : Node) where
  -- The turns in which no one shows the owner's secret.
  pub data Outside (s : Relay L) : Relay L → Type 0 where
    public_call : (t : Turn) (r : Http) → Outside s (serve_public L node t r s).1
    refused_call :
        (t : Turn) (r : Http)
        → node.owner_secret ≢ []
        → r.owner_secret ≢ node.owner_secret
        → Outside s (serve_tailnet L node t r s).1
    sweep : (t : Sweep.Tick) → Outside s (sweep_once L node t s)
    eviction :
        (now : Time)
        → Outside s
            (record s { buckets = evict L (with_defaults rate_cfg).idle_evict_after now s.buckets })

  pub data Unattended (s : Relay L) : Relay L → Type 0 where
    nothing : Unattended s s
    onward : {t u : Relay L} → Unattended s t → Outside t u → Unattended s u

-- The pairs are those of before, and the approved requests as well.
abbrev pub SameRights : Db → Db → Type 0
SameRights d e =
    (e.pairs ≡ d.pairs) × (filter is_approved e.requests ≡ filter is_approved d.requests)

SameRights-trans : (d e f : Db) → SameRights d e → SameRights e f → SameRights d f
SameRights-trans d e f h k = (k.0 ∙ h.0, k.1 ∙ h.1)

-- What holds of the tables behind every branch of a mux.
mux-rule :
    (P : Db → Type 0) (node : Node) (t : Turn) (r : Http) (db : Db)
    → P db
    → P (Mailbox.dispatch t.mailbox (to_mailbox r) db).1
    → P (Pairflow.dispatch_public (pairflow_env node t) (to_pairflow r) db).1
    → P (public_mux node t r db).1
unfolding public_mux
mux-rule P node t r db same mail pair =
    let Q : Response × Db → Type 0 = λ x. P x.1 in
    if_rule Q (has_prefix r.path (codes "/mailbox/")) _ _ mail (
      if_rule Q (has_prefix r.path (codes "/pair/")) _ _ pair (
        if_rule Q (r.path == codes "/health") _ _ same (
          if_rule Q (r.path == discovery_path) _ _ same (
            if_rule Q (r.path == codes "/mailbox") _ _ same
              (if_rule Q (r.path == codes "/pair") _ _ same same)))))

tailnet-rule :
    (P : Db → Type 0) (node : Node) (t : Turn) (r : Http) (db : Db)
    → P db
    → P (Pairflow.dispatch_owner (pairflow_env node t) (to_pairflow r) db).1
    → P (tailnet_mux node t r db).1
unfolding tailnet_mux
tailnet-rule P node t r db same pair =
    let Q : Response × Db → Type 0 = λ x. P x.1 in
    if_rule Q (has_prefix r.path (codes "/pair/")) _ _ pair (
      if_rule Q (r.path == codes "/health") _ _ same
        (if_rule Q (r.path == codes "/pair") _ _ same same))

module _ (L : Limiter) (node : Node) where
  -- The tables after a public request, served or refused by the rate limit.
  served-rule :
      (P : Db → Type 0) (t : Turn) (r : Http) (s : Relay L)
      → P s.db
      → P (public_mux node t r s.db).1
      → P (serve_public L node t r s).1.db
  unfolding serve_public
  served-rule P t r s same served =
      if_rule (λ (x : Response × Relay L). P x.1.db)
        (decide L (with_defaults rate_cfg) r.method r.path (address L node r) t.now s.buckets).0 _ _
        served same

  Step-Reach : {s t : Relay L} → Step L node s t → Reach s.db t.db
  unfolding serve_tailnet sweep_once Sweep.once
  Step-Reach {s} (public_turn t r) = served-rule (Reach s.db) t r s here (
      mux-rule (Reach s.db) node t r s.db here (dispatch-Writes t.mailbox (to_mailbox r) s.db).0
        (dispatch_public-Reach (pairflow_env node t) (to_pairflow r) s.db))
  Step-Reach {s} (owner_turn t r others) =
      tailnet-rule (Reach s.db) node t r s.db here
        (dispatch_owner-Reach (pairflow_env node t) others (to_pairflow r) s.db)
  Step-Reach {s} (sweep_turn t) =
      next (next here (swept t.faults (t.now - (Sweep.defaults node.sweep).envelope_max_age)))
        (expired t.faults t.now)
  Step-Reach {s} (evict_turn now) = here

  Step-Bounded :
      {s t : Relay L}
      → Step L node s t
      → Bounded L (with_defaults rate_cfg) s.buckets
      → Bounded L (with_defaults rate_cfg) t.buckets
  unfolding serve_tailnet sweep_once serve_public
  Step-Bounded {s} (public_turn t r) b =
      let cfg = with_defaults rate_cfg in
      let after =
        step-Bounded L cfg (request r.method r.path (address L node r) t.now) s.buckets b in
      if_rule (λ (x : Response × Relay L). Bounded L cfg x.1.buckets)
        (decide L cfg r.method r.path (address L node r) t.now s.buckets).0 _ _ after after
  Step-Bounded {s} (owner_turn t r others) b = b
  Step-Bounded {s} (sweep_turn t) b = b
  Step-Bounded {s} (evict_turn now) b =
      step-Bounded L (with_defaults rate_cfg) (tick now) s.buckets b

  History-Reach : {s : Relay L} → History L node s → Reach empty_db s.db
  History-Reach started = here
  History-Reach (more h e) = Reach-trans (History-Reach h) (Step-Reach e)

  History-Bounded : {s : Relay L} → History L node s → Bounded L (with_defaults rate_cfg) s.buckets
  History-Bounded started = no_rules-Bounded L (with_defaults rate_cfg)
  History-Bounded (more h e) = Step-Bounded e (History-Bounded h)

  -- The relay started on fresh tables, after any history of requests at both listeners, sweeps and
  -- evictions, at any times and with any faults of the driver, where other requests may write in the
  -- middle of an approval: no two rows of a table share a primary key, and the table of the rate limit
  -- holds only configured rules, each at most once, with at most 50,000 addresses under each.
  pub History-sound :
      {s : Relay L} → History L node s → Keyed s.db × Bounded L (with_defaults rate_cfg) s.buckets
  History-sound h = (Reach-Keyed (History-Reach h), History-Bounded h)

  sweep-SameRights : (t : Sweep.Tick) (s : Relay L) → SameRights s.db (sweep_once L node t s).db
  unfolding sweep_once Sweep.once delete_envelopes_older_than
  sweep-SameRights t s =
      let young =
        (delete_envelopes_older_than t.faults (t.now - (Sweep.defaults node.sweep).envelope_max_age)
          s.db).1 in
      let first : SameRights s.db young = (ground arith, ground arith) in
      let (pairs, envelopes, grants) = expire-SameGrants t.faults t.now young in
      SameRights-trans s.db young (expire_pending_requests t.faults t.now young).1 first
        (pairs, grants)

  Outside-SameRights : {s t : Relay L} → Outside L node s t → SameRights s.db t.db
  unfolding serve_tailnet
  Outside-SameRights {s} (public_call t r) =
      let (pairs, envelopes, grants) =
        dispatch_public-SameGrants (pairflow_env node t) (to_pairflow r) s.db in
      let (writes, same_pairs, same_requests) = dispatch-Writes t.mailbox (to_mailbox r) s.db in
      served-rule (SameRights s.db) t r s (refl, refl)
        (mux-rule (SameRights s.db) node t r s.db (refl, refl)
          (same_pairs, ap (filter is_approved) same_requests) (pairs, grants))
  Outside-SameRights {s} (refused_call t r set wrong) =
      tailnet-rule (SameRights s.db) node t r s.db (refl, refl)
        (rw (dispatch_owner-unauthorized (pairflow_env node t) (to_pairflow r) s.db set wrong)
          (refl, refl))
  Outside-SameRights {s} (sweep t) = sweep-SameRights t s
  Outside-SameRights (eviction now) = (refl, refl)

  -- While the owner listener sees no request with the owner's secret, where one is configured, no pair
  -- appears or changes and no request is approved, whatever arrives at the public listener and at the
  -- owner's, and whatever the sweeper does.
  pub Unattended-SameRights : {s t : Relay L} → Unattended L node s t → SameRights s.db t.db
  Unattended-SameRights nothing = (refl, refl)
  Unattended-SameRights {s} {t = u} (onward {t} h e) =
      SameRights-trans s.db t.db u.db (Unattended-SameRights h) (Outside-SameRights e)
