-- ===== src/Relay/Advertised/Served.antt =====
-- What the public mux does with a request for an advertised endpoint.
use interchange.Base.{
  ◌≡◌, refl, arith, ◌∙◌, true, [], ◌∷◌, ◌++◌, Text, codes, split_on, join_with, has_prefix,
  cut_prefix, text_eq, Lacks, split_on-join_with, ap, is_empty, false, replicate,
}
use interchange.Formats.{path_id_regex, uuid_regex, matches}
use interchange.Formats.PathIds.{path_id-Lacks, uuid-Lacks}
use interchange.Storage.{Db}
use interchange.Handlers.{failed}
use interchange.Mailbox
use interchange.Submissions
use interchange.Pairflow
use interchange.Discovery.Document.{endpoints, new_document}
use interchange.Relay.{
  Http, replied, Node, Turn, public_mux, as_response, to_mailbox, pairflow_env, discovery, health,
}
use interchange.Relay.Advertised.{
  read_endpoint, approve_endpoint, deny_endpoint, At, Asked, for_document, for_health, for_put,
  for_pull, for_ack, for_pair_request, for_pair_status, for_approve, for_deny, swept_db, promised,
}

nonempty_path_id : (id : Text) → path_id_regex id ≡ true → is_empty id ≡ false
unfolding path_id_regex matches
nonempty_path_id [] h = cc
nonempty_path_id (c ∷ s) h = refl

nonempty_uuid : (id : Text) → uuid_regex id ≡ true → is_empty id ≡ false
unfolding uuid_regex matches replicate
nonempty_uuid [] h = cc
nonempty_uuid (c ∷ s) h = refl

requests_word : Lacks b'/' (codes "requests")
requests_word = omega arith

split_one : (id : Text) → Lacks b'/' id → split_on b'/' id ≡ id ∷ []
unfolding join_with
split_one id h = split_on-join_with b'/' id [] (h, tt)

split_two :
    (id : Text) (word : Text)
    → Lacks b'/' id
    → Lacks b'/' word
    → split_on b'/' (id ++ (b'/' ∷ word)) ≡ id ∷ word ∷ []
unfolding join_with
split_two id word h k = split_on-join_with b'/' id (word ∷ []) (h, (k, tt))

split_three :
    (id word : Text)
    → Lacks b'/' id
    → Lacks b'/' word
    → split_on b'/' (codes "requests/" ++ (id ++ (b'/' ∷ word))) ≡ codes "requests" ∷ id ∷ word ∷ []
unfolding join_with
split_three id word h k =
    split_on-join_with b'/' (codes "requests") (id ∷ word ∷ []) (requests_word, (h, (k, tt)))

ack_word : Lacks b'/' (codes "ack")
ack_word = omega arith

approve_word : Lacks b'/' (codes "approve")
approve_word = omega arith

deny_word : Lacks b'/' (codes "deny")
deny_word = omega arith

read_status :
    (id : Text)
    → read_endpoint endpoints.pair_status id ≡ (codes "GET", codes "/pair/requests/" ++ id)
unfolding read_endpoint split_on join_with
read_status id = refl

read_approve :
    (id : Text)
    → read_endpoint approve_endpoint id
      ≡ (codes "POST", codes "/pair/requests/" ++ (id ++ codes "/approve"))
unfolding read_endpoint split_on join_with
read_approve id = refl

read_deny :
    (id : Text)
    → read_endpoint deny_endpoint id
      ≡ (codes "POST", codes "/pair/requests/" ++ (id ++ codes "/deny"))
unfolding read_endpoint split_on join_with
read_deny id = refl

asked_method :
    (r : Http) (endpoint id : Text) → At r endpoint id → r.method ≡ (read_endpoint endpoint id).0
asked_method r endpoint id h = ap (λ x. x.0) h

asked_path :
    (r : Http) (endpoint id : Text) → At r endpoint id → r.path ≡ (read_endpoint endpoint id).1
asked_path r endpoint id h = ap (λ x. x.1) h

module _ (node : Node) (t : Turn) (r : Http) (db : Db) where
  put_served :
      (id : Text)
      → path_id_regex id ≡ true
      → At r endpoints.put id
      → public_mux node t r db ≡ as_response (Mailbox.put t.mailbox id (to_mailbox r) db)
  unfolding public_mux read_endpoint split_on join_with has_prefix cut_prefix Mailbox.dispatch
      Mailbox.dispatch_parts Mailbox.route text_eq
  put_served id ok at =
      rw
        (
          asked_path r endpoints.put id at,
          split_one id (path_id-Lacks id ok),
          nonempty_path_id id ok,
          ok,
          asked_method r endpoints.put id at,
        )
        refl

  pull_served :
      (id : Text)
      → path_id_regex id ≡ true
      → At r endpoints.pull id
      → public_mux node t r db ≡ as_response (Mailbox.get t.mailbox id (to_mailbox r) db, db)
  unfolding public_mux read_endpoint split_on join_with has_prefix cut_prefix Mailbox.dispatch
      Mailbox.dispatch_parts Mailbox.route text_eq
  pull_served id ok at =
      rw
        (
          asked_path r endpoints.pull id at,
          split_one id (path_id-Lacks id ok),
          nonempty_path_id id ok,
          ok,
          asked_method r endpoints.pull id at,
        )
        refl

  ack_served :
      (id : Text)
      → path_id_regex id ≡ true
      → At r endpoints.ack id
      → public_mux node t r db ≡ as_response (Mailbox.ack t.mailbox id (to_mailbox r) db)
  unfolding public_mux read_endpoint split_on join_with has_prefix cut_prefix Mailbox.dispatch
      Mailbox.dispatch_parts Mailbox.route text_eq
  ack_served id ok at =
      rw
        (
          asked_path r endpoints.ack id at,
          split_two id (codes "ack") (path_id-Lacks id ok) ack_word,
          nonempty_path_id id ok,
          ok,
          asked_method r endpoints.ack id at,
        )
        refl

  status_served :
      (id : Text)
      → uuid_regex id ≡ true
      → At r endpoints.pair_status id
      → public_mux node t r db
        ≡ as_response (
          Submissions.get_request_status
              (pairflow_env node t)
              id
              (swept_db (pairflow_env node t) db),
          swept_db (pairflow_env node t) db,
        )
  unfolding public_mux has_prefix cut_prefix Pairflow.dispatch_public Pairflow.route_public text_eq
  status_served id ok at =
      let q : r.path ≡ codes "/pair/requests/" ++ id =
        asked_path r endpoints.pair_status id at ∙ ap (λ x. x.1) (read_status id) in
      let m : r.method ≡ codes "GET" =
        asked_method r endpoints.pair_status id at ∙ ap (λ x. x.0) (read_status id) in
      rw
        (
          q,
          m,
          split_two (codes "requests") id requests_word (uuid-Lacks id ok),
          nonempty_uuid id ok,
        )
        refl

  -- The decisions of the owner, which the document has as null.
  decision_refused :
      (id word : Text)
      → uuid_regex id ≡ true
      → Lacks b'/' word
      → r.path ≡ codes "/pair/requests/" ++ (id ++ (b'/' ∷ word))
      → public_mux node t r db
        ≡ (replied (failed 404 "404 page not found"), swept_db (pairflow_env node t) db)
  unfolding public_mux has_prefix cut_prefix Pairflow.dispatch_public Pairflow.route_public text_eq
  decision_refused id word ok one q = rw (q, split_three id word (uuid-Lacks id ok) one) refl

  -- A request that asks for an endpoint of the discovery document by its method and path, at an id of the
  -- right format where it takes one, gets from the public mux what the document promises: the document,
  -- the health answer, the handlers of PUT, GET and ack at that path id, the submission of a pair request
  -- and its status. The two decisions, which the document has as null, are answered 404 there.
  pub public_mux-promised :
      (name : Text) (asked : Asked (new_document name) r)
      → public_mux node t r db ≡ promised node t r db asked
  unfolding new_document promised public_mux read_endpoint split_on join_with has_prefix cut_prefix
      text_eq discovery health Pairflow.dispatch_public Pairflow.route_public
  public_mux-promised name (for_document at) =
      rw (asked_path r endpoints.discovery [] at, asked_method r endpoints.discovery [] at) refl
  public_mux-promised name (for_health at) =
      rw (asked_path r endpoints.health [] at, asked_method r endpoints.health [] at) refl
  public_mux-promised name (for_put id ok at) = put_served id ok at
  public_mux-promised name (for_pull id ok at) = pull_served id ok at
  public_mux-promised name (for_ack id ok at) = ack_served id ok at
  public_mux-promised name (for_pair_request at) =
      rw (asked_path r endpoints.pair_request [] at, asked_method r endpoints.pair_request [] at)
        refl
  public_mux-promised name (for_pair_status id ok at) = status_served id ok at
  public_mux-promised name (for_approve id ok null at) =
      decision_refused id (codes "approve") ok approve_word
        (asked_path r approve_endpoint id at ∙ ap (λ x. x.1) (read_approve id))
  public_mux-promised name (for_deny id ok null at) =
      decision_refused id (codes "deny") ok deny_word
        (asked_path r deny_endpoint id at ∙ ap (λ x. x.1) (read_deny id))
