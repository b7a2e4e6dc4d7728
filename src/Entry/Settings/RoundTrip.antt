-- ===== src/Entry/Settings/RoundTrip.antt =====
-- The route table, printed and parsed again.
use interchange.Base.{
  ℕ, ◌≡◌, refl, ap, ◌∙◌, arith, All, false, some, List, [], ◌∷◌, ◌++◌, Text, is_empty, ◌==◌, map,
  join_with, Lacks, split_on-join_with, if◌then◌else◌, not, filter, find, text_eq_iff,
}
use interchange.Gateway.{set, del, product_of}
use interchange.Entry.Settings.{cut, parse_entry, parse_entries, parse_routes}

cut-append : (sep : ℕ) (k v : Text) → Lacks sep k → cut sep (k ++ (sep ∷ v)) ≡ some (k, v)
unfolding cut
cut-append sep [] v h = ground arith
cut-append sep (c ∷ k) v h = ground (arith, cut-append sep k v h.1)

-- An entry as it is written, and the whole table.
abbrev pub print_entry : Text × Text → Text
print_entry q = q.0 ++ (b'=' ∷ q.1)

abbrev pub print_routes : List (Text × Text) → Text
print_routes qs = join_with b',' (map print_entry qs)

-- The map with the entries assigned one after the other.
abbrev pub assign_all : List (Text × Text) → List (Text × Text) → List (Text × Text)
assign_all [] out = out
assign_all (q ∷ qs) out = assign_all qs (set q.0 q.1 out)

-- What an entry needs to survive: no separator inside its parts, no white space around them or around
-- the entry, and neither part empty.
abbrev pub Plain : (Text → Text) → Text × Text → Type 0
Plain trim q =
    Lacks b'=' q.0
    × Lacks b',' (print_entry q)
    × (trim q.0 ≡ q.0)
    × (trim q.1 ≡ q.1)
    × (trim (print_entry q) ≡ print_entry q)
    × (is_empty q.0 ≡ false)
    × (is_empty q.1 ≡ false)

-- The value that the last entry with a key gives it, or else the one it has.
abbrev pub last_value : List (Text × Text) → Text → Text → Text
last_value [] k v = v
last_value (q ∷ qs) k v = last_value qs k (if q.0 == k then q.1 else v)

product_of-set_in :
    (k v j : Text) (m : List (Text × Text))
    → product_of (filter (λ q. not (q.0 == k)) m ++ ((k, v) ∷ [])) j
      ≡ (if k == j then v else product_of m j)
unfolding product_of find filter
product_of-set_in k v j [] = ground arith
product_of-set_in k v j (q ∷ m) =
    ground (arith, product_of-set_in k v j m, text_eq_iff q.0 k, text_eq_iff q.0 j, text_eq_iff k j)

product_of-set :
    (k v j : Text) (m : List (Text × Text))
    → product_of (set k v m) j ≡ (if k == j then v else product_of m j)
unfolding set del
product_of-set k v j m = product_of-set_in k v j m

product_of-assign_all :
    (qs out : List (Text × Text)) (k : Text)
    → product_of (assign_all qs out) k ≡ last_value qs k (product_of out k)
product_of-assign_all [] out k = refl
product_of-assign_all (q ∷ qs) out k =
    product_of-assign_all qs (set q.0 q.1 out) k
    ∙ ap (last_value qs k) (product_of-set q.0 q.1 k out)

is_empty-append : (a : Text) (c : ℕ) (b : Text) → is_empty (a ++ (c ∷ b)) ≡ false
is_empty-append [] c b = refl
is_empty-append (x ∷ a) c b = refl

is_empty-print_routes :
    (q : Text × Text) (qs : List (Text × Text)) → is_empty (print_routes (q ∷ qs)) ≡ false
unfolding join_with
is_empty-print_routes q [] = is_empty-append q.0 b'=' q.1
is_empty-print_routes q (r ∷ qs) = is_empty-append (print_entry q) b',' (print_routes (r ∷ qs))

All-print :
    (trim : Text → Text) (qs : List (Text × Text))
    → All (Plain trim) qs
    → All (Lacks b',') (map print_entry qs)
All-print trim [] h = tt
All-print trim (q ∷ qs) h = (h.0.1, All-print trim qs h.1)

module _ (trim : Text → Text) where
  parse_entry-print :
      (q : Text × Text) (out : List (Text × Text))
      → Plain trim q
      → parse_entry trim (trim (print_entry q)) out ≡ some (set q.0 q.1 out)
  unfolding parse_entry
  parse_entry-print q out (key, sep, trim_key, trim_value, whole, some_key, some_value) =
      rw
        (
          whole,
          is_empty-append q.0 b'=' q.1,
          cut-append b'=' q.0 q.1 key,
          trim_key,
          trim_value,
          some_key,
          some_value,
        )
        refl

  parse_entries-print :
      (qs out : List (Text × Text))
      → All (Plain trim) qs
      → parse_entries trim (map print_entry qs) out ≡ some (assign_all qs out)
  unfolding parse_entries
  parse_entries-print [] out h = refl
  parse_entries-print (q ∷ qs) out h =
      rw (parse_entry-print q out h.0, parse_entries) (parse_entries-print qs (set q.0 q.1 out) h.1)

  -- A route table that is printed entry by entry, separated by commas, parses; the map that comes back
  -- gives each key the value of its last entry. The entries' parts are not empty and have no separator
  -- in them, and neither the parts nor the entries nor the whole have white space around them.
  pub parse_routes-print_routes :
      (q : Text × Text) (qs : List (Text × Text))
      → All (Plain trim) (q ∷ qs)
      → trim (print_routes (q ∷ qs)) ≡ print_routes (q ∷ qs)
      → (routes : List (Text × Text)) × (parse_routes trim (print_routes (q ∷ qs)) ≡ some routes)
        × ((k : Text) → product_of routes k ≡ last_value (q ∷ qs) k [])
  unfolding parse_routes product_of find
  parse_routes-print_routes q qs h t = (
    assign_all (q ∷ qs) [],
    rw
        (
          t,
          is_empty-print_routes q qs,
          split_on-join_with b',' (print_entry q) (map print_entry qs) (All-print trim (q ∷ qs) h),
        )
        (parse_entries-print (q ∷ qs) [] h),
    λ k. product_of-assign_all (q ∷ qs) [] k,
  )
