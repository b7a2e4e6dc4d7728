-- ===== src/Storage/Paging.antt =====
-- ListEnvelopes and the cursor walk over it.
use interchange.Base.{
  ℕ, zero, suc, ◌≤◌, ◌≡◌, sym, ap, ◌∙◌, arith, true, ◌&&◌, List, [], ◌++◌, Text, text_lt, All,
  length, take, drop, filter, sort_by, Distinct, Distinct-filter, Ascending, sort_by-Ascending,
  filter-sort_by, filter-last_key, last_key, filter-filter, filter-ext, All-sort_by,
  All-filter_self, All-take, take-append-drop, length-drop, All-map, text_lt_trans, inl, inr,
  filter-All, ◌*◌, Ascending-take, last_key-above,
}
use interchange.Storage.{
  Direction, Envelope, Db, Result, ok, err, list_limit, is_after, before_msg, inbox, list_envelopes,
  no_faults,
}

abbrev pub msg_key : Envelope → Text
msg_key e = e.msg_id

abbrev pub rows_of : Result (List Envelope) → List Envelope
rows_of (ok rows) = rows
rows_of (err e) = []

module _ (path_id : Text) (dir : Direction) where
  -- What a client collects that asks again behind the last id of each page, for at most n pages.
  unfoldable pub walk : ℕ → Text → Db → List Envelope
  unfolding list_envelopes
  walk zero since db = []
  walk (suc n) since db =
      let page = rows_of (list_envelopes no_faults path_id dir since db) in
      let rest = walk n (last_key msg_key since page) db in page ++ rest

  pub inbox-Ascending :
      (since : Text) (rows : List Envelope)
      → Distinct msg_key rows
      → Ascending msg_key (inbox path_id dir since rows)
  unfolding inbox
  inbox-Ascending since rows d = sort_by-Ascending msg_key _ (Distinct-filter msg_key _ rows d)

  pub inbox-is_after :
      (since : Text) (rows : List Envelope)
      → All (λ e. is_after path_id dir since e ≡ true) (inbox path_id dir since rows)
  unfolding inbox
  inbox-is_after since rows = All-sort_by msg_key _ _ (All-filter_self _ rows)

  inbox-above :
      (since : Text) (rows : List Envelope)
      → All (λ e. text_lt since e.msg_id ≡ true) (inbox path_id dir since rows)
  inbox-above since rows = All-map (λ e h. ground arith) _ (inbox-is_after since rows)

  later_is_after :
      (s s' : Text) (e : Envelope)
      → (text_lt s s' ≡ true)
      → (is_after path_id dir s e && text_lt s' e.msg_id) ≡ is_after path_id dir s' e
  later_is_after s s' e h = ground (arith, text_lt_trans s s' e.msg_id h)

  -- A later cursor keeps what of the inbox stands above it.
  inbox-later :
      (s s' : Text) (rows : List Envelope)
      → Distinct msg_key rows
      → text_lt s s' ≡ true
      → inbox path_id dir s' rows ≡ filter (λ e. text_lt s' e.msg_id) (inbox path_id dir s rows)
  unfolding inbox
  inbox-later s s' rows d h = sym (
      filter-sort_by msg_key _ _ (Distinct-filter msg_key _ rows d)
      ∙ ap (sort_by before_msg)
          (filter-filter _ _ rows ∙ filter-ext _ _ rows (λ e. later_is_after s s' e h)))

  -- Behind the last id of a page the inbox holds what the page left over.
  next_page :
      (n : ℕ) (since : Text) (rows : List Envelope)
      → Distinct msg_key rows
      → inbox path_id dir (last_key msg_key since (take n (inbox path_id dir since rows))) rows
        ≡ drop n (inbox path_id dir since rows)
  next_page n since rows d =
      let a = inbox-Ascending since rows d in
      let above = inbox-above since rows in
      elim (last_key-above msg_key since (take n (inbox path_id dir since rows))
        (Ascending-take msg_key n _ a) (All-take _ n _ above)) [
          | inl e ↦
              rw (e, ← filter-last_key msg_key n since (inbox path_id dir since rows) a above, e)
                (sym (filter-All _ _ above))
          | inr lt ↦
              inbox-later since _ rows d lt
              ∙ filter-last_key msg_key n since (inbox path_id dir since rows) a above
        ]

  walk-eq-inbox :
      (n : ℕ) (since : Text) (db : Db)
      → Distinct msg_key db.envelopes
      → length (inbox path_id dir since db.envelopes) ≤ n * list_limit
      → walk n since db ≡ inbox path_id dir since db.envelopes
  unfolding walk
  walk-eq-inbox zero since db d h = ground arith
  walk-eq-inbox (suc n) since db d h =
      let all = inbox path_id dir since db.envelopes in
      let after = next_page list_limit since db.envelopes d in
      let rest =
        walk-eq-inbox n (last_key msg_key since (take list_limit all)) db d
          (rw after (omega (arith, length-drop list_limit all))) in
      ap (λ r. take list_limit all ++ r) (rest ∙ after) ∙ take-append-drop list_limit all

  -- Where no two rows share an id, a client that fetches enough pages, each behind the last id of the
  -- one before, collects the whole inbox: every envelope of the path and direction behind its first
  -- cursor, once, in strictly ascending order of ids.
  pub walk_complete :
      (n : ℕ) (since : Text) (db : Db)
      → Distinct msg_key db.envelopes
      → length (inbox path_id dir since db.envelopes) ≤ n * list_limit
      → (walk n since db ≡ inbox path_id dir since db.envelopes)
        × Ascending msg_key (walk n since db)
        × All (λ e. is_after path_id dir since e ≡ true) (walk n since db)
  walk_complete n since db d h =
      let e = walk-eq-inbox n since db d h in
      (e, rw e (inbox-Ascending since db.envelopes d), rw e (inbox-is_after since db.envelopes))
