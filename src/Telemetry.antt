-- ===== src/Telemetry.antt =====
-- The privacy state of telemetry: internal/cli/telemetry/telemetry.go and consent.go. A time is a
-- number of nanoseconds, zero for the zero time. The JSON codec, the hash and the environment are
-- parameters; what a call meets (the clock, randomness, the outcome of a write, the terminal) is
-- a record.
pub mod Emitter
pub mod Posted
pub mod Identity
pub mod Session
pub mod Verdict
use forge_development_hub_cl.Base.{
  ℕ, Bool, true, false, not, ◌&&◌, ◌||◌, Option, none, some, List, [], ◌∷◌, ◌+◌, ◌*◌, Text, codes,
  contains, text_eq, is_empty, if◌then◌else◌, leb,
}
use forge_development_hub_cl.Base.Bytes.{trim_space, to_lower}

pub data Source : Type 0 where
  do_not_track env config consent by_default : Source

pub record Decision : Type 0 where
  pub enabled : Bool
  pub source : Source

abbrev pub yes_words : List Text
yes_words = codes "true" ∷ codes "1" ∷ codes "yes" ∷ codes "on" ∷ []

abbrev pub no_words : List Text
no_words = codes "false" ∷ codes "0" ∷ codes "no" ∷ codes "off" ∷ []

-- The word that a `switch strings.ToLower(strings.TrimSpace(v))` reads.
unfoldable pub word : Text → Text
unfolding trim_space to_lower
word v = to_lower (trim_space v)

unfoldable pub truthy : Text → Bool
unfolding contains
truthy v = contains yes_words (word v)

abbrev pub is_default : Source → Bool
is_default by_default = true
is_default _ = false

abbrev from_config : Text → Decision
from_config v =
    if contains yes_words (word v)
    then record { enabled = true; source = config }
    else if contains no_words (word v)
    then record { enabled = false; source = config }
    else record { enabled = false; source = by_default }

unfoldable pub resolve : Text → (Text → Text) → Decision
unfolding truthy contains text_eq trim_space word
resolve config_enabled getenv =
    let track = trim_space (getenv (codes "DO_NOT_TRACK")) in
    let flag = trim_space (getenv (codes "FDH_TELEMETRY")) in
    if not (is_empty track) && not (text_eq track (codes "0"))
    then record { enabled = false; source = do_not_track }
    else if not (is_empty flag)
    then record { enabled = truthy flag; source = env }
    else from_config config_enabled

pub record State : Type 0 where
  pub salt : Text
  pub salt_rotated_at : ℕ
  pub consent_asked : Bool
  pub consent_granted : Bool

abbrev pub zero_state : State
zero_state = record {
  salt = [];
  salt_rotated_at = 0;
  consent_asked = false;
  consent_granted = false;
}

-- A Manager with the state file below its directory: its text, if it can be read.
pub record Manager : Type 0 where
  pub dir : Text
  pub st : State
  pub loaded : Bool
  pub file : Option Text

abbrev pub new_manager : Text → Option Text → Manager
new_manager dir file = record { dir = dir; st = zero_state; loaded = false; file = file }

-- What a call meets: `rand.Read` as the salt in hexadecimal, and what a failed write leaves of
-- the file.
pub record Call : Type 0 where
  pub getenv : Text → Text
  pub tty : Bool
  pub answer : Text
  pub now : ℕ
  pub random : Option Text
  pub mkdir_ok : Bool
  pub write_ok : Bool
  pub left : Option Text → Option Text
  pub config_ok : Bool

-- 90 * 24 * time.Hour
abbrev pub auto_rotate_after : ℕ
auto_rotate_after = 7776000000000000

abbrev consented : Bool → State → State
consented granted s = record s { consent_asked = true; consent_granted = granted }

abbrev affirmative_words : List Text
affirmative_words = codes "y" ∷ codes "yes" ∷ []

unfoldable pub is_affirmative : Text → Bool
unfolding contains word
is_affirmative s = contains affirmative_words (word s)

module _ (encode : State → Text) (decode : Text → Option State) (digest : Text → Text) where
  -- What a state file holds: nothing if it is absent or does not decode.
  abbrev pub held : Option Text → Option State
  held none = none
  held (some body) = decode body

  abbrev pub with_state : Option State → Manager → Manager
  with_state none m = m
  with_state (some s) m = record m { st = s }

  unfoldable pub load : Manager → Manager
  load m =
      if m.loaded
      then m
      else if is_empty m.dir
      then record m { loaded = true }
      else with_state (held m.file) (record m { loaded = true })

  -- The manager afterwards, and whether there was no error.
  unfoldable pub save : Call → Manager → Manager × Bool
  save c m =
      if is_empty m.dir
      then (m, false)
      else if not c.mkdir_ok
      then (m, false)
      else if c.write_ok
      then (record m { file = some (encode m.st) }, true)
      else (record m { file = c.left m.file }, false)

  abbrev rotate_with : Call → Option Text → Manager → Manager × Bool
  rotate_with c none m = (m, false)
  rotate_with c (some salt) m =
      save c (record m { st = record m.st { salt = salt; salt_rotated_at = c.now } })

  unfoldable pub rotate_locked : Call → Manager → Manager × Bool
  unfolding save
  rotate_locked c m = rotate_with c c.random m

  unfoldable pub rotate : Call → Manager → Manager × Bool
  unfolding rotate_locked load
  rotate c m = rotate_locked c (load m)

  abbrev is_due : Call → Manager → Bool
  is_due c m = leb (m.st.salt_rotated_at + auto_rotate_after) c.now

  abbrev with_id : Manager → Manager × Option Text
  with_id m = (m, some (digest m.st.salt))

  -- `none` is an error.
  unfoldable pub install_id : Call → Manager → Manager × Option Text
  unfolding rotate_locked load
  install_id c m =
      let l = load m in
      let (r, ok) = rotate_locked c l in
      if is_empty l.st.salt
      then (if ok then with_id r else (r, none))
      else if is_due c l
      then with_id r
      else with_id l

  unfoldable pub record_consent : Call → Bool → Manager → Manager × Bool
  unfolding save load
  record_consent c granted m = let l = load m in save c (record l { st = consented granted l.st })

  unfoldable pub set_enabled_consent : Call → Bool → Manager → Manager × Bool
  unfolding save load
  set_enabled_consent c enabled m =
      let l = load m in save c (record l { st = consented enabled l.st })

  abbrev pub consent_answered : Manager → Bool
  unfolding load
  consent_answered m = (load m).st.consent_asked

  -- The manager afterwards: it may have read the state file.
  unfoldable pub resolve_with_consent : Text → (Text → Text) → Manager → Manager × Decision
  unfolding resolve load
  resolve_with_consent config_enabled getenv m =
      let d = resolve config_enabled getenv in
      let l = load m in
      if not (is_default d.source)
      then (m, d)
      else if l.st.consent_asked && l.st.consent_granted
      then (l, record { enabled = true; source = consent })
      else (l, record { enabled = false; source = by_default })

  -- The manager afterwards, whether consent is granted, and whether the prompt was shown.
  unfoldable pub maybe_prompt : Call → Bool → Bool → Manager → Manager × Bool × Bool
  unfolding load record_consent is_affirmative
  maybe_prompt c interactive already_decided m =
      let l = load m in
      let granted = is_affirmative c.answer in
      let (r, ok) = record_consent c granted l in
      if already_decided
      then (m, false, false)
      else if not interactive
      then (m, false, false)
      else if l.st.consent_asked
      then (l, l.st.consent_granted, false)
      else (r, granted, true)
