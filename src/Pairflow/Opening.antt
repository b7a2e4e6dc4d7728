-- ===== src/Pairflow/Opening.antt =====
-- From an approval to the mailbox: what internal/mailbox/mailbox.go finds under the new path id.
use interchange.Base.{
  ◌≡◌, ◌≢◌, refl, sym, arith, true, false, some, none, List, [], ◌∷◌, ◌++◌, Text, ◌==◌, length,
  contains, find, find-append_miss, text_eq_refl, text_eq-false,
}
use interchange.Formats.{path_id_regex}
use interchange.Base64.RoundTrip.{AreBytes}
use interchange.Storage.{
  a_to_b, b_to_a, PairRequest, Pair, Op, ok, Db, Faults, get_pair, get_pair_op,
}
use interchange.Storage.Keys.{Keyed}
use interchange.Halves.{Half, wire_form}
use interchange.Halves.PathId.{compute_path_id_lem}
use interchange.Envelopes.{direction_from, read_direction_for}
use interchange.Submissions.{Env, Request, serialize_half}
use interchange.Decisions.{loaded, path_id_of, new_pair, approve}
use interchange.Pairflow.Approve.{Approvable, stored_pair, approve_activates}

get_pair-last :
    (f : Faults) (id : Text) (p : Pair) (d : Db) (ps : List Pair)
    → f get_pair_op ≡ false
    → d.pairs ≡ ps ++ (p ∷ [])
    → contains (λ x. x.path_id == id) ps ≡ false
    → (p.path_id == id) ≡ true
    → get_pair f id d ≡ ok p
unfolding get_pair find
get_pair-last f id p d ps up e new same =
    rw (up, e, find-append_miss (λ x. x.path_id == id) ps (p ∷ []) new, same) refl

-- The two sides of a pair with different keys: each reads what the other sends.
abbrev pub Opposed : Pair → Text → Text → Type 0
Opposed p requester owner =
    (direction_from p requester ≡ some a_to_b)
    × (read_direction_for p owner ≡ some a_to_b)
    × (direction_from p owner ≡ some b_to_a)
    × (read_direction_for p requester ≡ some b_to_a)

keys-Opposed :
    (p : Pair) → p.requester_pubkey ≢ p.owner_pubkey → Opposed p p.requester_pubkey p.owner_pubkey
unfolding direction_from read_direction_for
keys-Opposed p n = ground (
  arith,
  text_eq_refl p.requester_pubkey,
  text_eq_refl p.owner_pubkey,
  text_eq-false p.owner_pubkey p.requester_pubkey (λ e. n (sym e)),
)

-- After an approval without faults or interference, of two different keys whose path id no pair has yet
-- and under a digest of 32 bytes, the path id of the reply is one that the mailbox routes accept, the
-- mailbox finds under it the pair of the two keys, and each side reads there exactly what the other side
-- sends.
pub approve_opens :
    {env : Env} {id : Text} {req : Request} {db : Db} {r : PairRequest} {stored owner : Half}
    (quiet : (op : Op) → env.faults op ≡ false) (a : Approvable env id req db r stored owner)
    (f : Faults)
    → Keyed db
    → env.before_write db ≡ db
    → ((d : Db) → env.before_claim d ≡ d)
    → contains (λ x. x.path_id == path_id_of env (loaded env.codec stored) owner) db.pairs ≡ false
    → env.codec.half (serialize_half env.codec owner) ≡ some (wire_form owner)
    → env.codec.half [] ≡ none
    → ((s : Text) → AreBytes (env.platform.sha256 s))
    → ((s : Text) → length (env.platform.sha256 s) ≡ 32)
    → stored.pubkey ≢ owner.pubkey
    → f get_pair_op ≡ false
    → let path_id = path_id_of env (loaded env.codec stored) owner in
      (path_id_regex path_id ≡ true)
      × ((p : Pair) × (get_pair f path_id (approve env id req db).1 ≡ ok p)
          × Opposed p stored.pubkey owner.pubkey)
unfolding new_pair
approve_opens {env} {id} {req} {db} {r} {stored} {owner} quiet a f v calm_write calm_claim new trip
      nothing bytes len differ up =
    let requester = loaded env.codec stored in
    let (reply, pairs, envelopes, row, poll) =
      approve_activates quiet a v calm_write calm_claim new trip nothing in
    (
      (compute_path_id_lem env.platform bytes len requester.pubkey_raw owner.pubkey_raw).1,
      (
        stored_pair (new_pair env requester owner),
        get_pair-last f _ _ (approve env id req db).1 db.pairs up pairs new (text_eq_refl _),
        keys-Opposed (stored_pair (new_pair env requester owner)) differ,
      ),
    )
