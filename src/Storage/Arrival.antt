-- ===== src/Storage/Arrival.antt =====
-- The order in which messages arrived is not seen: the operations on the messages answer alike on
-- tables that hold the same rows in another order.
use mathlib.Core.List.{Permᴰ}
use mathlib.Core.List.Permᴰ
use interchange.Base.{
  ◌≡◌, ◌≢◌, refl, sym, ap, ◌∙◌, Bool, not, List, [], ◌∷◌, ◌++◌, Text, ◌==◌, text_eq_iff, arith,
  length, filter, contains, Distinct-filter, Bool-cases, inl, inr, contains-perm, filter-perm,
  length-perm, sort_by-perm,
}
use interchange.Platform.{Time}
use interchange.Storage.{
  Direction, Envelope, Db, Faults, ok, insert_envelope, list_envelopes, inbox,
  delete_envelopes_by_msg_id, delete_envelopes_older_than, insert_envelope_op, delete_envelopes_op,
  sweep_op, stored_envelope, is_listed, is_older, is_after,
}
use interchange.Storage.Paging.{msg_key}
use interchange.Storage.Keys.{Keyed}

-- The tables hold the same messages, in whatever order.
abbrev pub Shuffled : Db → Db → Type 0
Shuffled c d = Permᴰ c.envelopes d.envelopes

module _ (c d : Db) (π : Shuffled c d) where
  pub insert-Shuffled :
      (f : Faults) (e : Envelope)
      → ((insert_envelope f e c).0 ≡ (insert_envelope f e d).0)
        × Shuffled (insert_envelope f e c).1 (insert_envelope f e d).1
  unfolding insert_envelope
  insert-Shuffled f e = elim (Bool-cases (f insert_envelope_op)) [
    | inl down ↦ rw down (refl, π)
    | inr up ↦
        let same = contains-perm (λ x. x.msg_id == e.msg_id) π in
        elim (Bool-cases (contains (λ x. x.msg_id == e.msg_id) d.envelopes)) [
          | inl known ↦ rw (up, same, known) (refl, π)
          | inr new ↦ rw (up, same, new) (refl, Permᴰ.append_right _ π)
        ]
  ]

  remove-Shuffled :
      (p : Envelope → Bool)
      → (length (filter p c.envelopes) ≡ length (filter p d.envelopes))
        × Permᴰ (filter (λ e. not (p e)) c.envelopes) (filter (λ e. not (p e)) d.envelopes)
  remove-Shuffled p = (length-perm (filter-perm p π), filter-perm (λ e. not (p e)) π)

  pub delete-Shuffled :
      (f : Faults) (path_id : Text) (ids : List Text)
      → ((delete_envelopes_by_msg_id f path_id ids c).0
          ≡ (delete_envelopes_by_msg_id f path_id ids d).0)
        × Shuffled
            (delete_envelopes_by_msg_id f path_id ids c).1
            (delete_envelopes_by_msg_id f path_id ids d).1
  unfolding delete_envelopes_by_msg_id
  delete-Shuffled f path_id [] = (refl, π)
  delete-Shuffled f path_id (id ∷ ids) = elim (Bool-cases (f delete_envelopes_op)) [
    | inl down ↦ rw down (refl, π)
    | inr up ↦ let r = remove-Shuffled (is_listed path_id (id ∷ ids)) in rw up (ap ok r.0, r.1)
  ]

  pub sweep-Shuffled :
      (f : Faults) (cutoff : Time)
      → ((delete_envelopes_older_than f cutoff c).0 ≡ (delete_envelopes_older_than f cutoff d).0)
        × Shuffled
            (delete_envelopes_older_than f cutoff c).1
            (delete_envelopes_older_than f cutoff d).1
  unfolding delete_envelopes_older_than
  sweep-Shuffled f cutoff = elim (Bool-cases (f sweep_op)) [
    | inl down ↦ rw down (refl, π)
    | inr up ↦ let r = remove-Shuffled (is_older cutoff) in rw up (ap ok r.0, r.1)
  ]

  pub list-Shuffled :
      (f : Faults) (path_id : Text) (dir : Direction) (since : Text)
      → Keyed c
      → list_envelopes f path_id dir since c ≡ list_envelopes f path_id dir since d
  unfolding list_envelopes inbox
  list-Shuffled f path_id dir since v =
      rw
        (sort_by-perm msg_key (filter-perm (is_after path_id dir since) π)
          (Distinct-filter msg_key _ c.envelopes v.envelopes))
        refl

module _ (db : Db) (d e : Envelope) (n : d.msg_id ≢ e.msg_id) where
  -- A row with another id does not make an id known.
  contains-other :
      (rows : List Envelope)
      → contains (λ x. x.msg_id == e.msg_id) (rows ++ (stored_envelope d ∷ []))
        ≡ contains (λ x. x.msg_id == e.msg_id) rows
  unfolding contains
  contains-other [] = ground (arith, (text_eq_iff d.msg_id e.msg_id).0)
  contains-other (x ∷ rows) = ground (arith, contains-other rows)

  pub answer_late :
      (f g : Faults)
      → (insert_envelope g e (insert_envelope f d db).1).0 ≡ (insert_envelope g e db).0
  unfolding insert_envelope
  answer_late f g = ground (arith, contains-other db.envelopes)

module _ {A : Type 0} (d e : A) where
  swap_end :
      (rows : List A) → Permᴰ ((rows ++ (d ∷ [])) ++ (e ∷ [])) ((rows ++ (e ∷ [])) ++ (d ∷ []))
  swap_end [] = Permᴰ.swap refl refl
  swap_end (x ∷ rows) = Permᴰ.cons refl (swap_end rows)

module _ (db : Db) (d e : Envelope) (n : d.msg_id ≢ e.msg_id) (f g : Faults) where
  -- Two messages with different ids leave the same rows in either order.
  pub insert-Commutes :
      Shuffled
        (insert_envelope g e (insert_envelope f d db).1).1
        (insert_envelope f d (insert_envelope g e db).1).1
  unfolding insert_envelope
  insert-Commutes =
      let late = contains-other db d e n db.envelopes in
      let early = contains-other db e d (λ k. n (sym k)) db.envelopes in
      elim (Bool-cases (f insert_envelope_op)) [
        | inl down ↦ rw down (Permᴰ.refl _)
        | inr up ↦ elim (Bool-cases (g insert_envelope_op)) [
          | inl down ↦ rw (up, down) (Permᴰ.refl _)
          | inr up' ↦ elim (Bool-cases (contains (λ x. x.msg_id == d.msg_id) db.envelopes)) [
            | inl known ↦ elim (Bool-cases (contains (λ x. x.msg_id == e.msg_id) db.envelopes)) [
              | inl known' ↦ rw (up, up', known, known', known) (Permᴰ.refl _)
              | inr new' ↦ rw (up, up', known, new', early ∙ known) (Permᴰ.refl _)
            ]
            | inr new ↦ elim (Bool-cases (contains (λ x. x.msg_id == e.msg_id) db.envelopes)) [
              | inl known ↦ rw (up, up', new, known, late ∙ known, new) (Permᴰ.refl _)
              | inr new' ↦
                  rw (up, up', new, new', late ∙ new', early ∙ new)
                    (swap_end (stored_envelope d) (stored_envelope e) db.envelopes)
            ]
          ]
        ]
      ]
