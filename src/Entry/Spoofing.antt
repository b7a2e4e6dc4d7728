-- ===== src/Entry/Spoofing.antt =====
-- The identity headers of a request, before and behind the handlers of the gateway command.
use interchange.Base.{
  ◌≡◌, refl, ◌∙◌, All, All-map, All-of_Has, Has-All, contains, contains-false, false, inl, inr, [],
  Text, text_eq, is_empty, ◌==◌, Bool-cases,
}
use interchange.Gateway
use interchange.Gateway.{Headers, strip, inject_identity}
use interchange.Gateway.Headers.{
  Asserts, Without, inject_identity-Asserts, strip-Without, values, values-set, values-strip_empty,
}
use interchange.Entry.{
  edge_identity, cwb_headers, x_cwb_headers, strip_spoofed_identity, inject_cwb_headers,
}

-- Neither form of the identity headers is left.
abbrev pub Unspoofed : Headers → Type 0
Unspoofed hs = Without x_cwb_headers hs × Without cwb_headers hs

pub strip_spoofed_identity-Unspoofed : (hs : Headers) → Unspoofed (strip_spoofed_identity hs)
unfolding strip_spoofed_identity
strip_spoofed_identity-Unspoofed hs = (
  strip-Without x_cwb_headers (strip cwb_headers hs),
  All-map {Q = λ n. values n (strip x_cwb_headers (strip cwb_headers hs)) ≡ []}
      (λ n h. values-strip_empty n x_cwb_headers (strip cwb_headers hs) h) cwb_headers
      (strip-Without cwb_headers hs),
)

values-inject :
    (gid : Gateway.Identity) (hs : Headers) (name : Text)
    → All (λ h. (h == name) ≡ false) x_cwb_headers
    → values name (inject_cwb_headers (edge_identity gid) hs) ≡ values name hs
unfolding inject_cwb_headers
values-inject gid hs name (org, (subject, (kind, (scopes, (products, (human, done)))))) =
    elim (Bool-cases (is_empty gid.responsible_human)) [
      | inl e ↦ rw e (
          values-set name _ _ _ products
          ∙ values-set name _ _ _ scopes
          ∙ values-set name _ _ _ kind
          ∙ values-set name _ _ _ subject
          ∙ values-set name _ _ _ org)
      | inr e ↦ rw e (
          values-set name _ _ _ human
          ∙ values-set name _ _ _ products
          ∙ values-set name _ _ _ scopes
          ∙ values-set name _ _ _ kind
          ∙ values-set name _ _ _ subject
          ∙ values-set name _ _ _ org)
    ]

apart : All (λ n. contains (λ x. x == n) x_cwb_headers ≡ false) cwb_headers
apart =
    contains-false (λ n. contains (λ x. x == n) x_cwb_headers) cwb_headers
      (unfold contains text_eq in refl)

pub inject-Without :
    (gid : Gateway.Identity) (hs : Headers)
    → Without cwb_headers hs
    → Without cwb_headers (inject_cwb_headers (edge_identity gid) hs)
inject-Without gid hs h =
    All-of_Has (λ n. values n (inject_cwb_headers (edge_identity gid) hs) ≡ []) cwb_headers
      (λ n m.
        values-inject gid hs n (
          contains-false (λ x. x == n) x_cwb_headers
            (Has-All (λ k. contains (λ x. x == k) x_cwb_headers ≡ false) n cwb_headers m apart))
        ∙ Has-All (λ k. values k hs ≡ []) n cwb_headers m h)

pub inject-Asserts :
    (gid : Gateway.Identity) (hs : Headers)
    → Without x_cwb_headers hs
    → Asserts gid (inject_cwb_headers (edge_identity gid) hs)
unfolding inject_cwb_headers inject_identity
inject-Asserts gid hs (org, (subject, (kind, (scopes, (products, (human, done)))))) =
    inject_identity-Asserts gid hs human
