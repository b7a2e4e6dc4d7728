-- ===== src/Storage/Schema/Settled.antt =====
-- Running the schema again on a database that has it changes nothing.
use interchange.Base.{
  ◌≡◌, subst, refl, sym, ap, Bool, true, List, [], ◌∷◌, Text, codes, filter, split_on, join_with,
  has_prefix, Bool-cases, inl, inr, ◌||◌, All,
}
use interchange.Storage.Schema.{
  cut_comment, cleaned, split_statements, trim_left, trim_right, schema_statements, exec_all,
  create_schema,
}

-- Statements that SQLite documents as harmless when what they create is there.
abbrev pub IsRepeatable : Text → Type 0
IsRepeatable s =
    (has_prefix s (codes "CREATE TABLE IF NOT EXISTS ")
      || has_prefix s (codes "CREATE INDEX IF NOT EXISTS "))
    ≡ true

-- A repeatable statement that went through leaves what it creates in place, no repeatable statement takes
-- that away, and where it is in place the statement succeeds and changes nothing.
pub record IsLawful (D : Type 0) (exec : Text → D → Bool × D) (Has : Text → D → Type 0)
    : Type 0 where
  pub creates : (s : Text) (d : D) → IsRepeatable s → (exec s d).0 ≡ true → Has s (exec s d).1
  pub keeps : (s t : Text) (d : D) → IsRepeatable t → Has s d → Has s (exec t d).1
  pub repeats : (s : Text) (d : D) → IsRepeatable s → Has s d → exec s d ≡ (true, d)

module _ (D : Type 0) (exec : Text → D → Bool × D) (Has : Text → D → Type 0)
    (laws : IsLawful D exec Has) where
  exec_all-keeps :
      (s : Text) (stmts : List Text) (d : D)
      → All IsRepeatable stmts
      → Has s d
      → Has s (exec_all exec stmts d).1
  unfolding exec_all
  exec_all-keeps s [] d r h = h
  exec_all-keeps s (t ∷ stmts) d r h = elim (Bool-cases (exec t d).0) [
    | inl e ↦ rw e (exec_all-keeps s stmts _ r.1 (laws.keeps s t d r.0 h))
    | inr e ↦ rw e (laws.keeps s t d r.0 h)
  ]

  exec_all-creates :
      (stmts : List Text) (d : D)
      → All IsRepeatable stmts
      → (exec_all exec stmts d).0 ≡ true
      → All (λ s. Has s (exec_all exec stmts d).1) stmts
  unfolding exec_all
  exec_all-creates [] d r h = tt
  exec_all-creates (t ∷ stmts) d r h = elim (Bool-cases (exec t d).0) [
    | inl e ↦
        let step : exec_all exec (t ∷ stmts) d ≡ exec_all exec stmts (exec t d).1 =
          rw (e, exec_all) refl in
        subst (λ z. All (λ s. Has s z.1) (t ∷ stmts)) (sym step)
          (
            exec_all-keeps t stmts (exec t d).1 r.1 (laws.creates t d r.0 e),
            exec_all-creates stmts (exec t d).1 r.1 (rw step at h),
          )
    | inr e ↦ absurd (cc (rw (e, exec_all) at h))
  ]

  exec_all-repeats :
      (stmts : List Text) (d : D)
      → All IsRepeatable stmts
      → All (λ s. Has s d) stmts
      → exec_all exec stmts d ≡ (true, d)
  unfolding exec_all
  exec_all-repeats [] d r h = refl
  exec_all-repeats (t ∷ stmts) d r h =
      rw (laws.repeats t d r.0 h.0, exec_all) (exec_all-repeats stmts d r.1 h.1)

schema-IsRepeatable : All IsRepeatable schema_statements
unfolding schema_statements split_statements split_on cleaned cut_comment trim_left trim_right
    filter join_with has_prefix
schema-IsRepeatable = (refl, (refl, (refl, (refl, (refl, (refl, (refl, tt)))))))

-- Once CreateSchema has succeeded, every table and index of the schema is in place, and running it again
-- succeeds and changes nothing, if the database keeps the law of IF NOT EXISTS.
pub create_schema_again :
    (D : Type 0) (exec : Text → D → Bool × D) (Has : Text → D → Type 0) (d d' : D)
    → IsLawful D exec Has
    → create_schema exec d ≡ (true, d')
    → All (λ s. Has s d') schema_statements × (create_schema exec d' ≡ (true, d'))
unfolding create_schema
create_schema_again D exec Has d d' laws e =
    let made : All (λ s. Has s d') schema_statements = rw e at (
      exec_all-creates D exec Has laws schema_statements d schema-IsRepeatable (ap (λ x. x.0) e)) in
    (made, exec_all-repeats D exec Has laws schema_statements d' schema-IsRepeatable made)
