-- ===== src/Entry/Wiring/Assembly.antt =====
-- The steps by which the gateway command comes to its entry.
use interchange.Base.{◌≡◌, refl, some, List, Text, codes, inl, inr, Option-cases, subst}
use mathlib.Core.Option.{some-injective}
use interchange.Gateway
use interchange.Gateway.{Verifier}
use interchange.Entry.Settings.{parse_routes, take_route}
use interchange.Entry.Wiring.{
  Settings, Tools, Entry, choose_verifier, gateway_config, gateway_env, start, assemble,
}

-- The backends of the composite handlers, and the routes that are left.
abbrev pub cairn_taken : List (Text × Text) → Text × List (Text × Text)
cairn_taken routes = take_route routes (codes "/cairn") (codes "http://cairn.cwb.svc:8100")

abbrev pub herald_taken : List (Text × Text) → Text × List (Text × Text)
herald_taken routes =
    take_route (cairn_taken routes).1 (codes "/herald") (codes "http://herald.cwb.svc:8099")

-- What start needs to come to an entry.
pub record Assembled (tools : Tools) (s : Settings) (e : Entry) : Type 0 where
  pub routes : List (Text × Text)
  pub parses : parse_routes tools.trim_space s.routes ≡ some routes
  pub verifies : choose_verifier tools s ≡ some e.verifier
  pub git : tools.parse_url (cairn_taken routes).0 ≡ some e.cairn_git
  pub http : tools.parse_url (herald_taken routes).0 ≡ some e.herald_http
  pub serves :
      Gateway.new (gateway_env tools) (gateway_config s tools e.verifier (herald_taken routes).1)
      ≡ some e.gateway

module _ (tools : Tools) (s : Settings) (e : Entry) where
  pub Assembled-start : Assembled tools s e → start tools s ≡ some e
  unfolding start assemble
  Assembled-start a = rw (a.parses, start, a.verifies, assemble, a.git, a.http, a.serves) refl

  pub start-Assembled : start tools s ≡ some e → Assembled tools s e
  unfolding start assemble
  start-Assembled h = elim (Option-cases (parse_routes tools.trim_space s.routes)) [
    | inl p ↦ absurd (cc (rw (p, start) at h))
    | inr (routes, p) ↦ elim (Option-cases (choose_verifier tools s)) [
      | inl c ↦ absurd (cc (rw (p, c, start) at h))
      | inr (v, c) ↦ elim (Option-cases (tools.parse_url (cairn_taken routes).0)) [
        | inl m ↦ absurd (cc (rw (p, c, start, m, assemble) at h))
        | inr (git, m) ↦ elim (Option-cases (tools.parse_url (herald_taken routes).0)) [
          | inl n ↦ absurd (cc (rw (p, c, start, m, assemble, n) at h))
          | inr (http, n) ↦
              elim (Option-cases (
                Gateway.new (gateway_env tools)
                  (gateway_config s tools v (herald_taken routes).1))) [
                    | inl o ↦ absurd (cc (rw (p, c, start, m, assemble, n, o) at h))
                    | inr (g, o) ↦
                        subst (Assembled tools s)
                          (some-injective _ _ (rw (p, c, start, m, assemble, n, o) at h))
                          (record {
                            routes = routes;
                            parses = p;
                            verifies = c;
                            git = m;
                            http = n;
                            serves = o;
                          })
                  ]
        ]
      ]
    ]
  ]
