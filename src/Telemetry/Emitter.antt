-- ===== src/Telemetry/Emitter.antt =====
-- The queue of events and its one flush: internal/cli/telemetry/emit.go. A flush is modelled by
-- the events that it posts; `expired i` says that the time box is over when the next event to post
-- is the one at position i. A nil Emitter behaves as a disabled one.
use forge_development_hub_cl.Base.{
  ℕ, suc, Bool, true, false, not, ◌||◌, List, [], ◌∷◌, ◌++◌, Text, is_empty, if◌then◌else◌, leb,
  length,
}

pub record Event : Type 0 where
  pub event : Text
  pub kind : Text
  pub namespace : Text
  pub name : Text
  pub version : Text
  pub content_hash : Text
  pub scope : Text
  pub registry : Text
  pub os : Text
  pub locale : Text
  pub install_id : Text
  pub timestamp : Text
  pub rating : ℕ
  pub category : Text
  pub comment : Text

pub record Emitter : Type 0 where
  pub endpoint : Text
  pub enabled : Bool
  pub queue : List Event
  pub closed : Bool

abbrev pub max_queued : ℕ
max_queued = 64

abbrev pub new_emitter : Text → Bool → Emitter
new_emitter endpoint enabled = record {
  endpoint = endpoint;
  enabled = enabled;
  queue = [];
  closed = false;
}

unfoldable pub enqueue : Event → Emitter → Emitter
enqueue ev e =
    if not e.enabled
    then e
    else if e.closed || leb max_queued (length e.queue)
    then e
    else record e { queue = e.queue ++ ev ∷ [] }

-- The loop of `flushOnce`, from the event at position i.
unfoldable pub post_from : (ℕ → Bool) → ℕ → List Event → List Event
post_from expired i [] = []
post_from expired i (ev ∷ batch) =
    let rest = post_from expired (suc i) batch in if expired i then [] else ev ∷ rest

-- The emitter afterwards and the events that are posted.
unfoldable pub flush_once : (ℕ → Bool) → Emitter → Emitter × List Event
unfolding post_from
flush_once expired e = if not e.enabled then (e, []) else (
  record e { queue = []; closed = true },
  (if is_empty e.endpoint then [] else post_from expired 0 e.queue),
)
