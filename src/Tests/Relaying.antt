-- ===== src/Tests/Relaying.antt =====
-- The relay on fresh tables, a client of the rate limit, and an inbox that is drained.
use interchange.Base.{
  ◌*◌, ◌≤◌, text_lt, has_prefix, ◌≡◌, refl, arith, true, false, Bool, some, List, [], ◌∷◌, Text,
  codes, text_eq, find, filter, lookup_key, length, sort_by, insert_by, split_on, join_with,
  replicate,
}
use interchange.Storage.{no_faults, b_to_a, inbox}
use interchange.Storage.Keys.{Keyed}
use interchange.Storage.Drain.{Drained, rounds, rounds_drain}
use interchange.Sweep
use interchange.RateLimit.{Limiter, KeyMap, Event, request, tick, with_defaults, match_rule}
use interchange.RateLimit.Tables.{Bounded}
use interchange.RateLimit.Solo.{answers, solo, answers-solo}
use interchange.Relay.{
  Http, Node, Turn, Relay, rate_cfg, fresh, serve_public, serve_tailnet, sweep_once,
}
use interchange.Relay.History.{
  History, started, more, public_turn, sweep_turn, Unattended, nothing, onward, public_call,
  refused_call, SameRights, History-sound, Unattended-SameRights,
}
use interchange.Discovery.Document.{new_document}
use interchange.Relay.{public_mux}
use interchange.Relay.Advertised.{Asked, for_put, promised, read_endpoint}
use interchange.Relay.Advertised.Served.{public_mux-promised}
use interchange.Formats.{path_id_regex, matches}
use interchange.Tests.Mail.{env}
use interchange.Tests.Pairing.{calm}
use interchange.Tests.{db, db-Keyed, path_id, noon}

-- A limiter that counts its tokens down and never refills.
abbrev counter : Limiter
counter = record {
  State = List Bool;
  fresh = λ rule. true ∷ true ∷ [];
  allow = λ l now. elim l [ [] ↦ (false, []) | _ ∷ rest ↦ (true, rest) ];
}

abbrev node : Node
node = record {
  owner_secret = codes "secret";
  sweep = record { interval = 0; envelope_max_age = 0 };
  trim_space = λ s. s;
  split_host = λ s. some s;
}

abbrev turn : Turn
turn = record { now = noon; mailbox = env; pairflow = calm }

abbrev at_path : Text → Text → Http
at_path method path = record {
  method = method;
  path = path;
  raw_query = [];
  signature = codes "s";
  owner_secret = [];
  forwarded_for = codes "1.2.3.4";
  remote_addr = codes "h";
  body = some (codes "{}");
}

abbrev register : Http
register = at_path (codes "POST") (codes "/pair/request")

abbrev intrusion : Http
intrusion =
    at_path (codes "POST") (codes "/pair/requests/01234567-89ab-cdef-0123-456789abcdef/approve")

abbrev sweeping : Sweep.Tick
sweeping = record { now = noon; faults = no_faults }

abbrev registered : Relay counter
registered = (serve_public counter node turn register (fresh counter node)).1

abbrev swept_relay : Relay counter
swept_relay = sweep_once counter node sweeping registered

history : History counter node swept_relay
history = more (more started (public_turn turn register)) (sweep_turn sweeping)

History-sound_example :
    Keyed swept_relay.db × Bounded counter (with_defaults rate_cfg) swept_relay.buckets
History-sound_example = History-sound counter node history

abbrev started_on : Relay counter
started_on = record { db = db; buckets = [] }

abbrev refused_relay : Relay counter
refused_relay =
    (serve_tailnet counter node turn intrusion
      (serve_public counter node turn register started_on).1).1

unattended : Unattended counter node started_on refused_relay
unattended =
    onward (onward nothing (public_call turn register))
      (refused_call turn intrusion (λ e. absurd (cc e)) (λ e. absurd (cc e)))

Unattended-SameRights_example : SameRights started_on.db refused_relay.db
Unattended-SameRights_example = Unattended-SameRights counter node unattended

abbrev upload : Http
upload = at_path (codes "PUT") (codes "/mailbox/nxc_AAAAAAAAAAAAAAAAAAAAAAAAAAAAAAAAAAAAAAAAAAA")

asked_put : Asked (new_document (codes "owner")) upload
unfolding new_document read_endpoint split_on join_with path_id_regex matches replicate
asked_put = for_put path_id refl refl

public_mux-promised_example :
    public_mux node turn upload db ≡ promised node turn upload db asked_put
public_mux-promised_example = public_mux-promised node turn upload db (codes "owner") asked_put

abbrev one_bucket : KeyMap counter
one_bucket =
    (codes "default", (codes "1.2.3.4", record { limiter = true ∷ []; last = noon }) ∷ []) ∷ []

abbrev visits : List (Event counter)
visits =
    request (codes "GET") (codes "/health") (codes "1.2.3.4") noon
    ∷ request (codes "GET") (codes "/health") (codes "5.6.7.8") noon
    ∷ tick noon
    ∷ request (codes "GET") (codes "/health") (codes "1.2.3.4") noon
    ∷ []

answers-solo_example :
    answers counter (with_defaults rate_cfg) (codes "default") (codes "1.2.3.4") visits one_bucket
    ≡ solo counter (with_defaults rate_cfg) (codes "default") (codes "1.2.3.4") visits (true ∷ [])
unfolding lookup_key text_eq with_defaults match_rule find has_prefix
answers-solo_example =
    answers-solo counter (with_defaults rate_cfg) (codes "default") (codes "1.2.3.4") visits
      one_bucket (true ∷ []) noon refl (refl, tt)

short_inbox : length (inbox path_id b_to_a [] db.envelopes) ≤ 1 * 50
unfolding inbox filter sort_by insert_by text_eq text_lt
short_inbox = ground arith

rounds_drain_example : Drained path_id b_to_a db (rounds path_id b_to_a 1 no_faults db)
rounds_drain_example =
    rounds_drain path_id b_to_a 1 no_faults db refl refl db-Keyed.envelopes short_inbox
