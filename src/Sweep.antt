-- ===== src/Sweep.antt =====
-- internal/sweep/sweep.go: the retention jobs. The ticker is a list of the ticks that came before the
-- context ended, each with the clock and the faults that its sweep met.
pub mod Retention
use interchange.Base.{ℕ, ◌-◌, ◌*◌, List, [], ◌∷◌, eqb, if◌then◌else◌}
use interchange.Platform.{Time, minute}
use interchange.Storage.{Db, Faults, delete_envelopes_older_than, expire_pending_requests}

-- A duration that is not positive counts as 0.
pub record Config : Type 0 where
  pub interval : ℕ
  pub envelope_max_age : ℕ

abbrev pub hour : ℕ
hour = 60 * minute

-- Config.defaults
unfoldable pub defaults : Config → Config
defaults c = record {
  interval = if eqb c.interval 0 then hour else c.interval;
  envelope_max_age = if eqb c.envelope_max_age 0 then 7 * (24 * hour) else c.envelope_max_age;
}

-- Sweeper.Once: both jobs run, and an error of either is only logged.
unfoldable pub once : Config → Time → Faults → Db → Db
once c now faults db =
    (expire_pending_requests faults now
      (delete_envelopes_older_than faults (now - c.envelope_max_age) db).1).1

pub record Tick : Type 0 where
  pub now : Time
  pub faults : Faults

-- Sweeper.Run
unfoldable pub run : Config → List Tick → Db → Db
run c [] db = db
run c (t ∷ ticks) db = run c ticks (once c t.now t.faults db)
