-- ===== src/Storage/Drain.antt =====
-- A client that lists a page and deletes it, again and again: internal/storage as the mailbox uses it.
use interchange.Base.{
  ℕ, zero, suc, ◌*◌, ◌≤◌, ◌≡◌, ◌≢◌, refl, sym, ap, subst, ◌∙◌, arith, Bool, true, false, not, ◌&&◌,
  List, [], ◌∷◌, map, Text, ◌==◌, text_eq_iff, take, drop, filter, filter-filter, filter-ext,
  filter-ext_of_All, filter-none, filter-All, contains, contains-map, contains-filter,
  contains-sort_by, contains_of_take, contains-of_key, length, length-drop, sort_by, All, All-map,
  All-of_Has, Has, Distinct, Distinct-filter, Ascending, filter-sort_by, text_lt, text_lt_irrefl,
  text_eq_refl,
}
use interchange.Storage.{
  Direction, Envelope, Faults, Db, ok, err, list_limit, inbox, is_after, is_listed, before_msg,
  list_envelopes, list_envelopes_op, delete_envelopes_by_msg_id, delete_envelopes_op,
}
use interchange.Storage.Paging.{msg_key, inbox-Ascending, inbox-is_after}

lt_ne : (x e : Envelope) → text_lt x.msg_id e.msg_id ≡ true → e.msg_id ≢ x.msg_id
lt_ne x e lt same = cc (sym (rw same at lt), text_lt_irrefl x.msg_id)

empty_of_length : (xs : List Envelope) → length xs ≤ 0 → xs ≡ []
empty_of_length [] h = refl
empty_of_length (x ∷ xs) h = absurd (omega arith)

and_comm : (a b : Bool) → (a && b) ≡ (b && a)
and_comm a b = ground arith

keep_other : (l a : Bool) → (l ≡ true → a ≡ true) → (not l && not a) ≡ not a
keep_other true a h = rw (h refl) refl
keep_other false a h = refl

-- With the deletion at work, it removes the listed rows and reports their number, for no ids too.
pub delete_lem :
    (f : Faults) (path_id : Text) (ids : List Text) (db : Db)
    → f delete_envelopes_op ≡ false
    → delete_envelopes_by_msg_id f path_id ids db ≡ (
      ok (length (filter (is_listed path_id ids) db.envelopes)),
      record db { envelopes = filter (λ e. not (is_listed path_id ids e)) db.envelopes },
    )
unfolding delete_envelopes_by_msg_id
delete_lem f path_id [] db up =
    let no_row : All (λ e. is_listed path_id [] e ≡ false) db.envelopes =
      All-of_Has _ db.envelopes (λ e _. unfold contains in ground arith) in
    rw
      (
        filter-none (is_listed path_id []) db.envelopes no_row,
        filter-All (λ e. not (is_listed path_id [] e)) db.envelopes
            (All-map (λ e n. ap not n) db.envelopes no_row),
      )
      refl
delete_lem f path_id (id ∷ ids) db up = rw up refl

module _ (path_id : Text) (dir : Direction) where
  -- One round of the client: the first page, and the deletion of what stands on it.

  abbrev pub round : Faults → Db → Db
  round f db = elim (list_envelopes f path_id dir [] db) [
    | err e ↦ db
    | ok rows ↦ (delete_envelopes_by_msg_id f path_id (map (λ e. e.msg_id) rows) db).1
  ]

  unfoldable pub rounds : ℕ → Faults → Db → Db
  rounds zero f db = db
  rounds (suc n) f db = rounds n f (round f db)

  abbrev box : Db → List Envelope
  box db = inbox path_id dir [] db.envelopes

  abbrev page_ids : ℕ → List Envelope → List Text
  page_ids n xs = map (λ e. e.msg_id) (take n xs)

  -- A row behind one with a smaller id is not listed for that id.
  listed_behind :
      (x e : Envelope) (ids : List Text)
      → text_lt x.msg_id e.msg_id ≡ true
      → not (is_listed path_id (x.msg_id ∷ ids) e) ≡ not (is_listed path_id ids e)
  unfolding contains
  listed_behind x e ids lt =
      ground (arith, text_eq_iff e.msg_id x.msg_id, text_lt_irrefl e.msg_id, lt_ne x e lt)

  -- With ascending ids, what is not on the first page stands behind it.
  filter-page :
      (n : ℕ) (xs : List Envelope)
      → Ascending msg_key xs
      → All (λ e. (e.path_id == path_id) ≡ true) xs
      → filter (λ e. not (is_listed path_id (page_ids n xs) e)) xs ≡ drop n xs
  unfolding take drop filter contains
  filter-page zero xs a p =
      filter-All _ xs
        (All-map {Q = λ e. not (is_listed path_id [] e) ≡ true} (λ e h. ground arith) xs p)
  filter-page (suc n) [] a p = refl
  filter-page (suc n) (x ∷ xs) a p =
      let gone : is_listed path_id (page_ids (suc n) (x ∷ xs)) x ≡ true =
        ground (arith, p.0, text_eq_refl x.msg_id) in
      rw gone (
        filter-ext_of_All _ (λ e. not (is_listed path_id (page_ids n xs) e)) xs
          (All-map
            {Q = λ e.
              not (is_listed path_id (x.msg_id ∷ page_ids n xs) e)
              ≡ not (is_listed path_id (page_ids n xs) e)}
            (λ e lt. listed_behind x e (page_ids n xs) lt) xs a.0)
        ∙ filter-page n xs a.1 p.1)

  -- What the deletion of a page leaves of the table.
  abbrev left_over : List Text → List Envelope → List Envelope
  left_over ids rows = filter (λ e. not (is_listed path_id ids e)) rows

  inbox-left_over :
      (rows : List Envelope)
      → Distinct msg_key rows
      → inbox path_id dir [] (left_over (page_ids list_limit (inbox path_id dir [] rows)) rows)
        ≡ drop list_limit (inbox path_id dir [] rows)
  unfolding inbox
  inbox-left_over rows d =
      let xs = inbox path_id dir [] rows in
      let keep : Envelope → Bool = λ e. not (is_listed path_id (page_ids list_limit xs) e) in
      let after = is_after path_id dir [] in
      let swapped : filter after (filter keep rows) ≡ filter keep (filter after rows) =
        filter-filter after keep rows
        ∙ filter-ext (λ e. keep e && after e) (λ e. after e && keep e) rows
            (λ e. and_comm (keep e) (after e))
        ∙ sym (filter-filter keep after rows) in
      ap (sort_by before_msg) swapped
      ∙ sym (filter-sort_by msg_key keep (filter after rows) (Distinct-filter msg_key after rows d))
      ∙ filter-page list_limit xs (inbox-Ascending path_id dir [] rows d) (
          All-map {Q = λ e. (e.path_id == path_id) ≡ true} (λ e h. ground arith) xs
            (inbox-is_after path_id dir [] rows))

  -- A row on the page is a row of the inbox.
  listed-is_after :
      (rows : List Envelope)
      → Distinct msg_key rows
      → (e : Envelope) → Has e rows
      → is_listed path_id (page_ids list_limit (inbox path_id dir [] rows)) e ≡ true
      → is_after path_id dir [] e ≡ true
  unfolding inbox
  listed-is_after rows d e m h =
      let page = take list_limit (inbox path_id dir [] rows) in
      let on_page : contains (λ x. e.msg_id == x.msg_id) page ≡ true =
        sym (contains-map (λ id. e.msg_id == id) (λ x. x.msg_id) page) ∙ ground (arith, h) in
      contains-of_key msg_key (is_after path_id dir []) e rows d m (
        sym (contains-filter (is_after path_id dir []) (λ x. e.msg_id == x.msg_id) rows)
        ∙ sym (contains-sort_by (λ x. e.msg_id == x.msg_id) _ _)
        ∙ contains_of_take _ list_limit _ on_page)

  others-left_over :
      (rows : List Envelope)
      → Distinct msg_key rows
      → filter
          (λ e. not (is_after path_id dir [] e))
          (left_over (page_ids list_limit (inbox path_id dir [] rows)) rows)
        ≡ filter (λ e. not (is_after path_id dir [] e)) rows
  others-left_over rows d =
      filter-filter _ _ rows
      ∙ filter-ext_of_All _ _ rows
          (All-of_Has _ rows λ e m. keep_other _ _ (listed-is_after rows d e m))

  round_lem :
      (f : Faults) (db : Db)
      → f list_envelopes_op ≡ false
      → f delete_envelopes_op ≡ false
      → round f db ≡ record db { envelopes = left_over (page_ids list_limit (box db)) db.envelopes }
  unfolding list_envelopes
  round_lem f db reads writes =
      let listed : list_envelopes f path_id dir [] db ≡ ok (take list_limit (box db)) =
        rw (reads, list_envelopes) refl in
      rw (listed, round)
        (ap (λ x. x.1) (delete_lem f path_id (page_ids list_limit (box db)) db writes))

  -- The inbox is empty, and all else is as before.
  abbrev pub Drained : Db → Db → Type 0
  Drained db out =
      (inbox path_id dir [] out.envelopes ≡ [])
      × (filter (λ e. not (is_after path_id dir [] e)) out.envelopes
          ≡ filter (λ e. not (is_after path_id dir [] e)) db.envelopes)
      × (out.requests ≡ db.requests)
      × (out.pairs ≡ db.pairs)

  -- Where the driver has no faults and no two rows share an id, a client that lists the first page of its
  -- inbox and deletes what it lists, round after round, has emptied the inbox after as many rounds as
  -- there are pages of 50. Every other row is still there, in order, and no other table has changed.
  pub rounds_drain :
      (n : ℕ) (f : Faults) (db : Db)
      → f list_envelopes_op ≡ false
      → f delete_envelopes_op ≡ false
      → Distinct msg_key db.envelopes
      → length (inbox path_id dir [] db.envelopes) ≤ n * list_limit
      → Drained db (rounds n f db)
  unfolding rounds
  rounds_drain zero f db reads writes d h = (empty_of_length _ h, refl, refl, refl)
  rounds_drain (suc n) f db reads writes d h =
      let ids = page_ids list_limit (box db) in
      let next : Db = record db { envelopes = left_over ids db.envelopes } in
      let same = round_lem f db reads writes in
      let shorter = inbox-left_over db.envelopes d in
      let (empty, others, requests, pairs) =
        rounds_drain n f next reads writes (Distinct-filter msg_key _ db.envelopes d)
          (rw shorter (omega (arith, length-drop list_limit (box db)))) in
      subst (λ x. Drained db (rounds n f x)) (sym same)
        (empty, others ∙ others-left_over db.envelopes d, requests, pairs)
