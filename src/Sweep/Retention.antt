-- ===== src/Sweep/Retention.antt =====
-- What a sweep leaves, and what no sweep touches.
use interchange.Base.{
  ◌-◌, ◌+◌, ◌≤◌, ◌<◌, Has, Has-filter, Has-map_fixed, Bool-cases, inl, inr, ◌≡◌, ◌≢◌, refl, arith,
  Bool, true, false, not, some, List, [], ◌∷◌, ◌++◌, Text, All, All-map, subst, sym,
  All-filter_self,
}
use interchange.Platform.{Time, second}
use interchange.Storage.{
  Op, Envelope, PairRequest, expire, pending, Db, Faults, is_older, is_stale, expire_op, sweep_op,
  delete_envelopes_older_than, expire_pending_requests,
}
use interchange.Storage.Keys.{Reach, Reach-trans, here, next, swept, expired}
use interchange.Storage.Requests.{lookup, Reach-decided, expire_pending_requests_lem}
use interchange.Sweep.{Config, Tick, once, run}

pub run-Reach : (c : Config) (ticks : List Tick) (db : Db) → Reach db (run c ticks db)
unfolding run once
run-Reach c [] db = here
run-Reach c (t ∷ ticks) db =
    Reach-trans
      (next (next here (swept t.faults (t.now - c.envelope_max_age))) (expired t.faults t.now))
      (run-Reach c ticks _)

-- Whatever the sweeper does, at whatever times and with whatever faults, a request that has been
-- approved, denied or expired keeps its row.
run-decided :
    (c : Config) (ticks : List Tick) (db : Db) (id : Text) (r : PairRequest)
    → lookup id db ≡ some r
    → r.status ≢ pending
    → lookup id (run c ticks db) ≡ some r
run-decided c ticks db id r row shut = Reach-decided id r (run-Reach c ticks db) row shut

run-append :
    (c : Config) (ticks more : List Tick) (db : Db)
    → run c (ticks ++ more) db ≡ run c more (run c ticks db)
unfolding run
run-append c [] more db = refl
run-append c (t ∷ ticks) more db = run-append c ticks more (once c t.now t.faults db)

-- No message is older than the limit by a second or more, and no pending request is behind its deadline
-- by a second or more: the columns keep whole seconds.
abbrev pub Swept : Config → Time → Db → Type 0
Swept c now db =
    All (λ e. now < e.received_at + c.envelope_max_age + second) db.envelopes
    × All (λ r. r.status ≡ pending → now < r.expires_at + second) db.requests

-- What no tick may take: a message within its age, and a request before its deadline.
abbrev pub Kept : Config → List Tick → Db → Db → Type 0
Kept c ticks db after =
    ((e : Envelope)
      → Has e db.envelopes
      → All (λ t. t.now ≤ e.received_at + c.envelope_max_age) ticks
      → Has e after.envelopes)
    × ((r : PairRequest)
        → Has r db.requests
        → All (λ t. t.now ≤ r.expires_at) ticks
        → Has r after.requests)

-- The test of the deletion, by the age.
not_older :
    (now age : Time) (e : Envelope)
    → is_older (now - age) e ≡ false
    → now < e.received_at + age + second
not_older now age e h = ground arith

older_not :
    (now age : Time) (e : Envelope) → now ≤ e.received_at + age → is_older (now - age) e ≡ false
older_not now age e h = ground arith

not_stale :
    (now : Time) (r : PairRequest)
    → is_stale now r ≡ false
    → r.status ≡ pending
    → now < r.expires_at + second
not_stale now r h p = ground arith

expire_early : (now : Time) (r : PairRequest) → now ≤ r.expires_at → expire now r ≡ r
expire_early now r h = ground arith

not-true : (b : Bool) → not b ≡ true → b ≡ false
not-true b h = ground arith

expire-envelopes :
    (f : Faults) (now : Time) (d : Db) → (expire_pending_requests f now d).1.envelopes ≡ d.envelopes
unfolding expire_pending_requests
expire-envelopes f now d = ground arith

young_left :
    (f : Faults) (cutoff : Time) (db : Db)
    → f sweep_op ≡ false
    → All (λ e. is_older cutoff e ≡ false) (delete_envelopes_older_than f cutoff db).1.envelopes
unfolding delete_envelopes_older_than
young_left f cutoff db up = rw up (
    All-map {Q = λ e. is_older cutoff e ≡ false}
      (λ e (h : not (is_older cutoff e) ≡ true). not-true _ h) _
      (All-filter_self (λ e. not (is_older cutoff e)) db.envelopes))

once-Swept :
    (c : Config) (now : Time) (faults : Faults) (db : Db)
    → ((op : Op) → faults op ≡ false)
    → Swept c now (once c now faults db)
unfolding once
once-Swept c now faults db quiet =
    let d = (delete_envelopes_older_than faults (now - c.envelope_max_age) db).1 in
    let (rows, none_left, again) = expire_pending_requests_lem faults now d (quiet expire_op) in
    (
      subst (All (λ e. now < e.received_at + c.envelope_max_age + second))
          (sym (expire-envelopes faults now d))
          (All-map {Q = λ e. now < e.received_at + c.envelope_max_age + second}
            (not_older now c.envelope_max_age) _ (young_left faults _ db (quiet sweep_op))),
      All-map {Q = λ r. r.status ≡ pending → now < r.expires_at + second} (not_stale now) _
          none_left,
    )

delete-keeps :
    (f : Faults) (now age : Time) (db : Db) (e : Envelope)
    → Has e db.envelopes
    → now ≤ e.received_at + age
    → Has e (delete_envelopes_older_than f (now - age) db).1.envelopes
unfolding delete_envelopes_older_than
delete-keeps f now age db e m young = elim (Bool-cases (f sweep_op)) [
  | inl down ↦ rw down m
  | inr up ↦ rw up (
      Has-filter (λ x. not (is_older (now - age) x)) e db.envelopes
        (rw (older_not now age e young) refl) m)
]

delete-requests :
    (f : Faults) (cutoff : Time) (db : Db)
    → (delete_envelopes_older_than f cutoff db).1.requests ≡ db.requests
unfolding delete_envelopes_older_than
delete-requests f cutoff db = ground arith

expire-keeps :
    (f : Faults) (now : Time) (db : Db) (r : PairRequest)
    → Has r db.requests
    → now ≤ r.expires_at
    → Has r (expire_pending_requests f now db).1.requests
unfolding expire_pending_requests
expire-keeps f now db r m early = elim (Bool-cases (f expire_op)) [
  | inl down ↦ rw down m
  | inr up ↦ rw up (Has-map_fixed (expire now) r db.requests (expire_early now r early) m)
]

run-Kept : (c : Config) (ticks : List Tick) (db : Db) → Kept c ticks db (run c ticks db)
unfolding run once
run-Kept c [] db = (λ e m h. m, λ r m h. m)
run-Kept c (t ∷ ticks) db =
    let d = (delete_envelopes_older_than t.faults (t.now - c.envelope_max_age) db).1 in
    let rest = run-Kept c ticks (once c t.now t.faults db) in
    (
      λ e m h.
          rest.0 e
            (subst (Has e) (sym (expire-envelopes t.faults t.now d))
              (delete-keeps t.faults t.now c.envelope_max_age db e m h.0))
            h.1,
      λ r m h.
          rest.1 r
            (expire-keeps t.faults t.now d r
              (subst (Has r) (sym (delete-requests t.faults (t.now - c.envelope_max_age) db)) m)
              h.0)
            h.1,
    )

-- A sweeper whose last sweep met no fault leaves no message that is older than the limit by a second or
-- more, and no pending request that is behind its deadline by a second or more, whatever went wrong in
-- the sweeps before: the columns keep whole seconds, so within that second a row may stay. And no sweep
-- takes what it should not: a message that is within the limit at every tick is still there, and a
-- request whose deadline no tick is behind still has its row.
pub run-Swept :
    (c : Config) (ticks : List Tick) (last : Tick) (db : Db)
    → ((op : Op) → last.faults op ≡ false)
    → let after = run c (ticks ++ (last ∷ [])) db in
      Swept c last.now after × Kept c (ticks ++ (last ∷ [])) db after
unfolding run
run-Swept c ticks last db quiet = (
  rw (run-append c ticks (last ∷ []) db) (once-Swept c last.now last.faults (run c ticks db) quiet),
  run-Kept c (ticks ++ (last ∷ [])) db,
)
