-- ===== src/Entry/Settings.antt =====
-- cmd/interchange-gateway/main.go: the configuration texts of the environment. strings.TrimSpace is a
-- parameter `trim`; a Go map is the list of its entries, each key once.
pub mod RoundTrip
use interchange.Base.{
  ℕ, Bool, true, false, ◌||◌, Option, none, some, List, [], ◌∷◌, Text, codes, is_empty, eqb, ◌==◌,
  filter, not, map, split_on, if◌then◌else◌,
}
use interchange.Gateway.{set, product_of}

-- strings.Cut at one separator byte.
unfoldable pub cut : ℕ → Text → Option (Text × Text)
cut sep [] = none
cut sep (c ∷ s) =
    let rest = cut sep s in
    if eqb c sep then some ([], s) else elim rest [ none ↦ none | some q ↦ some (c ∷ q.0, q.1) ]

-- One entry of parseRoutes: none where it is bad, a map that has it as well otherwise.
unfoldable pub parse_entry : (Text → Text) → Text → List (Text × Text) → Option (List (Text × Text))
parse_entry trim entry out = if is_empty entry then some out else elim (cut b'=' entry) [
  | none ↦ none
  | some q ↦
      if is_empty (trim q.0) || is_empty (trim q.1)
      then none
      else some (set (trim q.0) (trim q.1) out)
]

-- The loop of parseRoutes.
unfoldable pub parse_entries :
    (Text → Text) → List Text → List (Text × Text) → Option (List (Text × Text))
parse_entries trim [] out = some out
parse_entries trim (entry ∷ entries) out = elim (parse_entry trim (trim entry) out) [
  | none ↦ none
  | some more ↦ parse_entries trim entries more
]

-- parseRoutes
unfoldable pub parse_routes : (Text → Text) → Text → Option (List (Text × Text))
parse_routes trim s =
    let entries = parse_entries trim (split_on b',' (trim s)) [] in
    if is_empty (trim s) then some [] else entries

-- parsePublicPaths
unfoldable pub parse_public_paths : (Text → Text) → Text → List Text
parse_public_paths trim s =
    let paths = filter (λ p. not (is_empty p)) (map trim (split_on b',' (trim s))) in
    if is_empty (trim s) then [] else paths

-- env, at the value that the environment has.
abbrev pub env : Text → Text → Text
env v default = if is_empty v then default else v

-- A backend of the route table, or a default; the table without it.
unfoldable pub take_route : List (Text × Text) → Text → Text → Text × List (Text × Text)
take_route routes prefix default =
    (env (product_of routes prefix) default, filter (λ q. not (q.0 == prefix)) routes)

-- shutdownTimeout, at what time.ParseDuration makes of the variable (in nanoseconds, if it is positive).
unfoldable pub shutdown_timeout : Option ℕ → ℕ
shutdown_timeout none = 25000000000
shutdown_timeout (some d) = d
