-- ===== src/Telemetry/Session/Reach.antt =====
-- The machines that are reached without an opt-in.
use forge_development_hub_cl.Base.{ℕ, Bool, ◌≡◌, [], Option, none, some, Text}
use forge_development_hub_cl.Telemetry.{State, Call}
use forge_development_hub_cl.Telemetry.Session.{Machine, Command, run}
use forge_development_hub_cl.Telemetry.Session.Private.{NoOptIn, IsQuiet, OptedOut, run-OptedOut}

module _ (encode : State → Text) (decode : Text → Option State) (digest : Text → Text) where
  -- Some runs without an opt-in lead from the one machine to the other.
  pub data Quietly (w : Machine) : Machine → Type 0 where
    start : Quietly w w
    after :
        {v : Machine} (c : Call) (expired : ℕ → Bool) (k : Command)
        → Quietly w v
        → NoOptIn encode decode digest c
        → IsQuiet k
        → Quietly w (run encode decode digest c expired k v).machine

  module _ (reads : (s : State) → decode (encode s) ≡ some s) where
    Quietly-OptedOut :
        {w v : Machine}
        → Quietly w v
        → OptedOut encode decode digest w
        → OptedOut encode decode digest v
    Quietly-OptedOut start o = o
    Quietly-OptedOut (after c expired k q n i) o =
        (run-OptedOut encode decode digest reads c expired k _ n i (Quietly-OptedOut q o)).0

    -- If the decoder reads what the encoder wrote, and the machine has neither a salt nor a granted
    -- consent in its state file, nor a configuration that says yes: after any runs without an
    -- opt-in the same holds, and the next such run posts no event and prints no install id. A run
    -- is without an opt-in if `FDH_TELEMETRY` does not say yes, the prompt is not answered with
    -- yes, the command is neither `enable` nor `rotate`, and a failed write leaves the file or no
    -- state.
    pub Quietly-silent :
        {w v : Machine} (c : Call) (expired : ℕ → Bool) (k : Command)
        → Quietly w v
        → OptedOut encode decode digest w
        → NoOptIn encode decode digest c
        → IsQuiet k
        → OptedOut encode decode digest v
          × ((run encode decode digest c expired k v).posted ≡ [])
          × ((run encode decode digest c expired k v).printed ≡ none)
    Quietly-silent c expired k q o n i =
        let before = Quietly-OptedOut q o in
        let (after_, silent, unprinted) =
          run-OptedOut encode decode digest reads c expired k _ n i before in
        (before, silent, unprinted)
