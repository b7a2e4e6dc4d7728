-- ===== src/Relay/Advertised.antt =====
-- What a client of the public listener can ask for by the endpoints of the discovery document, and the
-- answer that each stands for.
pub mod Served
use interchange.Base.{
  ◌≡◌, true, none, List, [], ◌∷◌, Text, codes, map, eqb, split_on, join_with, if◌then◌else◌,
}
use interchange.Formats.{path_id_regex, uuid_regex}
use interchange.Storage.{Db, expire_pending_requests}
use interchange.Handlers.{failed}
use interchange.Mailbox
use interchange.Submissions
use interchange.Discovery.Document.{Document}
use interchange.Relay.{
  Http, Response, discovery_document, healthy, replied, Node, Turn, as_response, to_mailbox,
  to_pairflow, pairflow_env,
}

-- A segment of an advertised path: what has a colon stands for the id.
abbrev segment : Text → Text → Text
segment id [] = []
segment id (c ∷ s) = if eqb c b':' then id else c ∷ s

abbrev before_query : List Text → Text
before_query [] = []
before_query (s ∷ rest) = s

-- How a client reads an endpoint: the method, and the path with the id in its place.
abbrev parts : Text → List Text → Text × Text
parts id (method ∷ target ∷ rest) = (
  method,
  join_with b'/' (map (segment id) (split_on b'/' (before_query (split_on b'?' target)))),
)
parts id other = ([], [])

unfoldable pub read_endpoint : Text → Text → Text × Text
read_endpoint endpoint id = parts id (split_on b' ' endpoint)

-- The two decisions of the owner, for which the document has no endpoint.
abbrev pub approve_endpoint : Text
approve_endpoint = codes "POST /pair/requests/:id/approve"

abbrev pub deny_endpoint : Text
deny_endpoint = codes "POST /pair/requests/:id/deny"

-- A request that asks for an endpoint at an id.
abbrev pub At : Http → Text → Text → Type 0
At r endpoint id = (r.method, r.path) ≡ read_endpoint endpoint id

-- What a client can ask for by the document, and the two endpoints that the document has as null.
pub data Asked (d : Document) (r : Http) : Type 0 where
  for_document : At r d.endpoints.discovery [] → Asked d r
  for_health : At r d.endpoints.health [] → Asked d r
  for_put : (id : Text) → path_id_regex id ≡ true → At r d.endpoints.put id → Asked d r
  for_pull : (id : Text) → path_id_regex id ≡ true → At r d.endpoints.pull id → Asked d r
  for_ack : (id : Text) → path_id_regex id ≡ true → At r d.endpoints.ack id → Asked d r
  for_pair_request : At r d.endpoints.pair_request [] → Asked d r
  for_pair_status : (id : Text) → uuid_regex id ≡ true → At r d.endpoints.pair_status id → Asked d r
  for_approve :
      (id : Text)
      → uuid_regex id ≡ true
      → d.endpoints.pair_approve ≡ none
      → At r approve_endpoint id
      → Asked d r
  for_deny :
      (id : Text)
      → uuid_regex id ≡ true
      → d.endpoints.pair_deny ≡ none
      → At r deny_endpoint id
      → Asked d r

-- The tables after the expiry pass of the pair flow.
abbrev pub swept_db : Submissions.Env → Db → Db
swept_db env db = (expire_pending_requests env.faults env.now db).1

-- The answer that the document promises.
pub promised : Node → Turn → (r : Http) → Db → {d : Document} → Asked d r → Response × Db
promised node t r db asked =
    let env = pairflow_env node t in
    let swept = swept_db env db in
    elim asked [
      | for_document at ↦ (discovery_document, db)
      | for_health at ↦ (healthy, db)
      | for_put id ok at ↦ as_response (Mailbox.put t.mailbox id (to_mailbox r) db)
      | for_pull id ok at ↦ as_response (Mailbox.get t.mailbox id (to_mailbox r) db, db)
      | for_ack id ok at ↦ as_response (Mailbox.ack t.mailbox id (to_mailbox r) db)
      | for_pair_request at ↦ as_response (Submissions.create_request env (to_pairflow r) swept)
      | for_pair_status id ok at ↦ as_response (Submissions.get_request_status env id swept, swept)
      | for_approve id ok null at ↦ (replied (failed 404 "404 page not found"), swept)
      | for_deny id ok null at ↦ (replied (failed 404 "404 page not found"), swept)
    ]
