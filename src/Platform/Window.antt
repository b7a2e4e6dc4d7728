-- ===== src/Platform/Window.antt =====
-- The replay window of tsInWindow, which both message endpoints and pairing use.
use interchange.Base.{
  ◌+◌, ◌^◌, ◌≤◌, ◌≡◌, ◌↔◌, ◌⊎◌, subst, refl, true, false, none, some, arith, Text, sym,
}
use mathlib.Core.Option.{some-injective}
use interchange.Platform.{
  Platform, Time, sub_time, absolute, le_duration, replay_window, parse_ts, ts_in_window,
}

-- The instants that the window test lets through.
abbrev pub InWindow : Time → Time → Type 0
InWindow now t = ((t ≤ now + replay_window) × (now ≤ t + replay_window)) ⊎ (now + 2 ^ 63 ≤ t)

in_window :
    (now t : Time) → (le_duration (absolute (sub_time now t)) replay_window ≡ true) ↔ InWindow now t
in_window now t = (λ h. ground arith, λ h. ground arith)

-- A timestamp passes exactly if it parses to an instant at most five minutes from now on either
-- side, or to one so far ahead (2^63 ns, 292 years) that the difference has no opposite in int64.
pub ts_in_window_iff :
    (p : Platform) (ts : Text) (now : Time)
    → (ts_in_window p ts now ≡ true) ↔ ((t : Time) × (parse_ts p ts ≡ some t) × InWindow now t)
unfolding ts_in_window
ts_in_window_iff p ts now =
    elim (parse_ts p ts)
      as (λ o.
        (elim o [ none ↦ false | some t ↦ le_duration (absolute (sub_time now t)) replay_window ]
          ≡ true)
        ↔ ((t : Time) × (o ≡ some t) × InWindow now t)) [
          | none ↦ (λ h. cc, λ w. absurd (cc (w.1)))
          | some t ↦ (
            λ h. (t, refl, (in_window now t).0 h),
            λ w. (in_window now t).1 (subst (InWindow now) (sym (some-injective _ _ w.1)) w.2),
          )
        ]
