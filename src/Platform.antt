-- ===== src/Platform.antt =====
-- What the program takes from outside its sources: time, the codecs and the cryptography of the Go
-- standard library. Texts are byte lists; an instant is a number of nanoseconds.
pub mod Window
use interchange.Base.{
  ℕ, ◌-◌, ◌*◌, ◌/◌, ◌^◌, Bool, Option, none, some, Text, leb, ltb, if◌then◌else◌,
}

-- A time.Time: nanoseconds since an epoch that lies before every instant the program meets.
abbrev pub Time : Type 0
Time = ℕ

abbrev pub second : ℕ
second = 1000000000

abbrev pub minute : ℕ
minute = 60 * second

-- formatTime: the canonical layout drops what is below a second. Texts of that layout have one
-- width and compare like the seconds they name, so the column is kept as that number.
abbrev pub format_time : Time → ℕ
format_time t = t / second

-- parseTime on what formatTime wrote.
abbrev pub parse_time : ℕ → Time
parse_time s = s * second

-- A time.Duration is an int64: the number of nanoseconds, with its sign apart.
pub data Duration : Type 0 where
  pos : ℕ → Duration
  neg : ℕ → Duration

abbrev pub max_duration : ℕ
max_duration = 2 ^ 63 - 1

-- now.Sub(t): the difference, held at the ends of int64 where it does not fit.
abbrev pub sub_time : Time → Time → Duration
sub_time now t =
    if leb t now
    then pos (if leb (now - t) max_duration then now - t else max_duration)
    else neg (if leb (t - now) (2 ^ 63) then t - now else 2 ^ 63)

-- -d in int64: the least value has no opposite and stays itself.
abbrev pub negate : Duration → Duration
negate (pos n) = neg n
negate (neg n) = if leb n max_duration then pos n else neg n

abbrev pub is_negative : Duration → Bool
is_negative (pos n) = Bool.false
is_negative (neg n) = ltb 0 n

abbrev pub le_duration : Duration → ℕ → Bool
le_duration (pos n) m = leb n m
le_duration (neg n) m = Bool.true

-- Parsers, digests and signature checks: functions of their input.
pub record Platform : Type 0 where
  -- time.Parse(time.RFC3339, s)
  pub parse_rfc3339 : Text → Option Time
  -- time.Parse("2006-01-02T15:04:05Z", s)
  pub parse_layout : Text → Option Time
  -- sha256.Sum256
  pub sha256 : Text → Text
  -- ed25519.Verify at a public key, a message and a signature
  pub ed25519_verify : Text → Text → Text → Bool
  -- the quoted form of a string in encoding/json, with HTML escaping off
  pub json_string : Text → Text
  -- url.ParseQuery(raw).Get(key)
  pub query_get : Text → Text → Text

abbrev pub replay_window : ℕ
replay_window = 5 * minute

-- The timestamp of a message, by the first layout or else the second.
unfoldable pub parse_ts : Platform → Text → Option Time
parse_ts p ts = elim (p.parse_rfc3339 ts) [ some t ↦ some t | none ↦ p.parse_layout ts ]

abbrev pub absolute : Duration → Duration
absolute d = if is_negative d then negate d else d

-- tsInWindow
unfoldable pub ts_in_window : Platform → Text → Time → Bool
ts_in_window p ts now = elim (parse_ts p ts) [
  | none ↦ Bool.false
  | some t ↦ le_duration (absolute (sub_time now t)) replay_window
]
