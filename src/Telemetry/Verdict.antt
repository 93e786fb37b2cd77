-- ===== src/Telemetry/Verdict.antt =====
-- When telemetry is on, from the signals alone.
use forge_development_hub_cl.Base.{
  Option, Bool, true, false, not, ◌&&◌, ◌≡◌, ◌↔◌, ◌⊎◌, Text, codes, contains, text_eq, is_empty,
  arith, refl, if◌then◌else◌,
}
use forge_development_hub_cl.Base.Bytes.{trim_space}
use forge_development_hub_cl.Telemetry.{
  config, env, by_default, consent, do_not_track, is_default, Decision, State, Manager, resolve,
  truthy, word, yes_words, no_words, load, resolve_with_consent,
}

-- A `DO_NOT_TRACK` that counts: not blank, and not "0".
unfoldable pub untracked : (Text → Text) → Bool
unfolding trim_space text_eq
untracked getenv =
    not (is_empty (trim_space (getenv (codes "DO_NOT_TRACK"))))
    && not (text_eq (trim_space (getenv (codes "DO_NOT_TRACK"))) (codes "0"))

unfoldable pub flag : (Text → Text) → Text
unfolding trim_space
flag getenv = trim_space (getenv (codes "FDH_TELEMETRY"))

-- The highest signal that is given says yes, and nothing forbids tracking.
unfoldable pub OptedIn : Text → (Text → Text) → State → Type 0
unfolding truthy contains word untracked flag
OptedIn key getenv s =
    (untracked getenv ≡ false)
    × (((is_empty (flag getenv) ≡ false) × (truthy (flag getenv) ≡ true))
        ⊎ ((is_empty (flag getenv) ≡ true)
            × ((contains yes_words (word key) ≡ true)
                ⊎ ((contains yes_words (word key) ≡ false)
                    × (contains no_words (word key) ≡ false)
                    × (s.consent_asked ≡ true)
                    × (s.consent_granted ≡ true)))))

-- The decision as a function of the tests that it makes.
settled :
    (off given on said denied asked granted : Bool)
    → ((if off
          then false
          else if not given
          then on
          else if said
          then true
          else if denied
          then false
          else asked && granted)
        ≡ true)
      ↔ ((off ≡ false)
          × (((given ≡ false) × (on ≡ true))
              ⊎ ((given ≡ true)
                  × ((said ≡ true)
                      ⊎ ((said ≡ false) × (denied ≡ false) × (asked ≡ true) × (granted ≡ true))))))
settled true given on said denied asked granted = ground arith
settled false false on said denied asked granted = ground arith
settled false true on true denied asked granted = ground arith
settled false true on false true asked granted = ground arith
settled false true on false false asked granted = ground arith

abbrev by_signals : Bool → Bool → Bool → Bool → Bool → Decision
by_signals off given on said denied =
    if off
    then record { enabled = false; source = do_not_track }
    else if not given
    then record { enabled = on; source = env }
    else if said
    then record { enabled = true; source = config }
    else if denied
    then record { enabled = false; source = config }
    else record { enabled = false; source = by_default }

abbrev with_consent : Decision → Manager → Manager → Manager × Decision
with_consent d m l =
    if not (is_default d.source)
    then (m, d)
    else if l.st.consent_asked && l.st.consent_granted
    then (l, record { enabled = true; source = consent })
    else (l, record { enabled = false; source = by_default })

-- Asking for consent behind the signals is one more test.
folded :
    (off given on said denied : Bool) (m l : Manager)
    → (with_consent (by_signals off given on said denied) m l).1.enabled ≡ (
        if off
        then false
        else if not given
        then on
        else if said
        then true
        else if denied
        then false
        else l.st.consent_asked && l.st.consent_granted)
folded true given on said denied m l = refl
folded false false on said denied m l = refl
folded false true on true denied m l = refl
folded false true on false true m l = refl
folded false true on false false m l = ground arith

module _ (encode : State → Text) (decode : Text → Option State) (digest : Text → Text) where
  enabled-settled :
      (key : Text) (getenv : Text → Text) (m : Manager)
      → (resolve_with_consent encode decode digest key getenv m).1.enabled ≡ (
          if untracked getenv
          then false
          else if not (is_empty (flag getenv))
          then truthy (flag getenv)
          else if contains yes_words (word key)
          then true
          else if contains no_words (word key)
          then false
          else (load encode decode digest m).st.consent_asked
            && (load encode decode digest m).st.consent_granted)
  unfolding resolve_with_consent resolve untracked flag
  enabled-settled key getenv m =
      folded (untracked getenv) (is_empty (flag getenv)) (truthy (flag getenv))
        (contains yes_words (word key)) (contains no_words (word key)) m
        (load encode decode digest m)

  -- Telemetry is enabled exactly if `DO_NOT_TRACK` is blank or "0" and the first of these that is
  -- given says yes: the variable `FDH_TELEMETRY`, the configuration key, and the consent that the
  -- state file records as asked and granted.
  pub resolve_with_consent-OptedIn :
      (key : Text) (getenv : Text → Text) (m : Manager)
      → ((resolve_with_consent encode decode digest key getenv m).1.enabled ≡ true)
        ↔ OptedIn key getenv (load encode decode digest m).st
  unfolding OptedIn
  resolve_with_consent-OptedIn key getenv m = rw (enabled-settled key getenv m) (
      settled (untracked getenv) (is_empty (flag getenv)) (truthy (flag getenv))
        (contains yes_words (word key)) (contains no_words (word key))
        (load encode decode digest m).st.consent_asked
        (load encode decode digest m).st.consent_granted)
