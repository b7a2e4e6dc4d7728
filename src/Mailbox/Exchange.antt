-- ===== src/Mailbox/Exchange.antt =====
-- Two messages on their way in: which of them comes first makes no difference to anybody.
use interchange.Base.{◌≡◌, ◌≢◌, refl, sym, ap, ◌∙◌, arith, List, [], ◌∷◌, Text}
use interchange.Platform.{Time}
use interchange.Handlers.{Reply}
use interchange.Storage.{Envelope, Db, Faults, insert_envelope, delete_envelopes_older_than}
use interchange.Storage.Keys.{Keyed, Step-Keyed, Reach-Keyed_from, swept, inserted_envelope}
use interchange.Storage.Arrival.{Shuffled, sweep-Shuffled, insert-Commutes, answer_late}
use interchange.Mailbox.{Env, Request, put, put_reply, dispatch}
use interchange.Mailbox.Put.{Deliverable, put_checks_complete}
use interchange.Mailbox.Writes.{put_reply-tables, insert-Writes, dispatch-Writes}
use interchange.Mailbox.Arrival.{put_checks-same, put_reply_same, dispatch-Same}

-- What reaches the messages: requests to the mailbox and sweeps.
pub data Turn : Type 0 where
  requested : Env → Request → Turn
  swept_at : Faults → Time → Turn

-- The replies to the requests among the turns.
unfoldable pub replies : List Turn → Db → List Reply
replies [] db = []
replies (requested env req ∷ turns) db =
    (dispatch env req db).0 ∷ replies turns (dispatch env req db).1
replies (swept_at f cutoff ∷ turns) db = replies turns (delete_envelopes_older_than f cutoff db).1

sweep-pairs :
    (f : Faults) (cutoff : Time) (db : Db)
    → (delete_envelopes_older_than f cutoff db).1.pairs ≡ db.pairs
unfolding delete_envelopes_older_than
sweep-pairs f cutoff db = ground arith

-- The replies do not depend on the order of the messages in the table.
replies-Shuffled :
    (turns : List Turn) (c d : Db)
    → Shuffled c d
    → c.pairs ≡ d.pairs
    → Keyed c
    → replies turns c ≡ replies turns d
unfolding replies
replies-Shuffled [] c d π e v = refl
replies-Shuffled (requested env req ∷ turns) c d π e v =
    let r = dispatch-Same c d π e v env req in
    let w = dispatch-Writes env req c in
    let pairs = w.1 ∙ e ∙ sym (dispatch-Writes env req d).1 in
    rw (r.0, replies-Shuffled turns _ _ r.1 pairs (Reach-Keyed_from w.0 v)) refl
replies-Shuffled (swept_at f cutoff ∷ turns) c d π e v =
    let pairs = sweep-pairs f cutoff c ∙ e ∙ sym (sweep-pairs f cutoff d) in
    replies-Shuffled turns _ _ (sweep-Shuffled c d π f cutoff).1 pairs
      (Step-Keyed (swept f cutoff) v)

-- A message that passes the checks on some tables is inserted on any tables with these pairs.
put_elsewhere :
    (env : Env) (path_id : Text) (req : Request) (db : Db) (row : Envelope)
    → Deliverable env path_id req db row
    → (other : Db) → other.pairs ≡ db.pairs
    → put env path_id req other ≡ put_reply row.msg_id (insert_envelope env.faults row other)
unfolding put
put_elsewhere env path_id req db row deliverable other same =
    rw
      (
        put_checks-same other db same env path_id req
            ∙ put_checks_complete env path_id req db row deliverable,
        put,
      )
      refl

module _ (env env' : Env) (path_id path_id' : Text) (req req' : Request) (db : Db)
    (d e : Envelope) where
  -- The second message, behind the first.
  put_second :
      Deliverable env path_id req db d
      → Deliverable env' path_id' req' db e
      → put env' path_id' req' (put env path_id req db).1
        ≡ put_reply e.msg_id (insert_envelope env'.faults e (insert_envelope env.faults d db).1)
  put_second first second =
      let here = put_elsewhere env path_id req db d first db refl in
      let tables = ap (λ o. o.1) here ∙ put_reply-tables d.msg_id _ in
      rw tables (put_elsewhere env' path_id' req' db e second _ (insert-Writes env.faults d db).1)

  put_second_reply :
      d.msg_id ≢ e.msg_id
      → Deliverable env path_id req db d
      → Deliverable env' path_id' req' db e
      → (put env' path_id' req' (put env path_id req db).1).0 ≡ (put env' path_id' req' db).0
  put_second_reply n first second =
      let late = answer_late db d e n env.faults env'.faults in
      ap (λ o. o.0) (put_second first second)
      ∙ put_reply_same e.msg_id _ _ _
      ∙ ap (λ r. (put_reply e.msg_id (r, db)).0) late
      ∙ put_reply_same e.msg_id _ _ _
      ∙ sym (ap (λ o. o.0) (put_elsewhere env' path_id' req' db e second db refl))

  put_second_tables :
      Deliverable env path_id req db d
      → Deliverable env' path_id' req' db e
      → (put env' path_id' req' (put env path_id req db).1).1
        ≡ (insert_envelope env'.faults e (insert_envelope env.faults d db).1).1
  put_second_tables first second =
      ap (λ o. o.1) (put_second first second) ∙ put_reply-tables e.msg_id _

-- Two messages with different ids that both pass the checks of the handler may be put in either order:
-- each put gets the reply that it gets without the other, and every later sequence of requests to the
-- mailbox and sweeps, whatever fails in it, gets the same replies.
pub put_comm :
    (env env' : Env) (path_id path_id' : Text) (req req' : Request) (db : Db) (d e : Envelope)
    → Keyed db
    → Deliverable env path_id req db d
    → Deliverable env' path_id' req' db e
    → d.msg_id ≢ e.msg_id
    → (turns : List Turn)
    → ((put env' path_id' req' (put env path_id req db).1).0 ≡ (put env' path_id' req' db).0)
      × ((put env path_id req (put env' path_id' req' db).1).0 ≡ (put env path_id req db).0)
      × (replies turns (put env' path_id' req' (put env path_id req db).1).1
          ≡ replies turns (put env path_id req (put env' path_id' req' db).1).1)
put_comm env env' path_id path_id' req req' db d e v first second n turns =
    let f = env.faults in
    let g = env'.faults in
    let kept =
      (insert-Writes g e _).1
      ∙ (insert-Writes f d db).1
      ∙ sym ((insert-Writes f d _).1 ∙ (insert-Writes g e db).1) in
    let keyed = Step-Keyed (inserted_envelope g e) (Step-Keyed (inserted_envelope f d) v) in
    (
      put_second_reply env env' path_id path_id' req req' db d e n first second,
      put_second_reply env' env path_id' path_id req' req db e d (λ k. n (sym k)) second first,
      rw
          (
            put_second_tables env env' path_id path_id' req req' db d e first second,
            put_second_tables env' env path_id' path_id req' req db e d second first,
          )
          (replies-Shuffled turns _ _ (insert-Commutes db d e n f g) kept keyed),
    )
