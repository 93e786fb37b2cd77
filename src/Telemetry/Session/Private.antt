-- ===== src/Telemetry/Session/Private.antt =====
-- The commands on a machine without an opt-in: internal/cli/telemetry_cmd.go.
use forge_development_hub_cl.Base.{
  ℕ, Bool, true, false, ◌≡◌, ◌⊎◌, inl, inr, refl, List, [], ◌∷◌, Option, none, some, Text, contains,
  arith, if◌then◌else◌, not, ◌&&◌, Bool-cases, is_empty,
}
use forge_development_hub_cl.Base.Bytes.{trim_space}
use forge_development_hub_cl.Telemetry.{
  State, Manager, Call, truthy, word, yes_words, held, with_state, load, save, resolve,
  is_affirmative, record_consent, set_enabled_consent, resolve_with_consent, maybe_prompt,
  consented, is_default,
}
use forge_development_hub_cl.Telemetry.Emitter.{Event}
use forge_development_hub_cl.Telemetry.Verdict.{flag, OptedIn, resolve_with_consent-OptedIn}
use forge_development_hub_cl.Telemetry.Session.{
  Machine, Session, Command, status, rotate_id, claim, set_enabled, work, manager_of, new_session,
  emit, emit_all, flush, run, run_status, run_claim, run_set, run_work, telemetry_non_interactive,
}

-- No salt, and no consent.
abbrev pub Bare : State → Type 0
Bare s = (s.salt ≡ []) × (s.consent_granted ≡ false)

abbrev BareHeld : Option State → Type 0
BareHeld none = Unit
BareHeld (some s) = Bare s

-- The commands that say no opt-in themselves.
abbrev pub IsQuiet : Command → Type 0
IsQuiet rotate_id = ⊥
IsQuiet (set_enabled true) = ⊥
IsQuiet _ = Unit

module _ (encode : State → Text) (decode : Text → Option State) (digest : Text → Text) where
  -- The call says no opt-in, and what a failed write leaves of a file is the file or no state.
  unfoldable pub NoOptIn : Call → Type 0
  unfolding truthy is_affirmative
  NoOptIn c =
      (truthy (flag c.getenv) ≡ false)
      × (is_affirmative c.answer ≡ false)
      × ((f : Option Text) → (c.left f ≡ f) ⊎ (held encode decode digest (c.left f) ≡ none))

  unfoldable pub OptedOut : Machine → Type 0
  unfolding contains word trim_space
  OptedOut w =
      (contains yes_words (word (trim_space w.config_enabled)) ≡ false)
      × BareHeld (held encode decode digest w.file)

  abbrev Kept : Manager → Type 0
  Kept m = Bare m.st × BareHeld (held encode decode digest m.file)

  with_state-Kept :
      (o : Option State) (m : Manager)
      → Kept m
      → BareHeld o
      → Kept (with_state encode decode digest o m)
  with_state-Kept none m h b = h
  with_state-Kept (some s) m h b = (b, h.1)

  load-Kept : (m : Manager) → Kept m → Kept (load encode decode digest m)
  unfolding load
  load-Kept m h = elim (Bool-cases m.loaded) [
    | inl e ↦ rw e h
    | inr e ↦ rw e (elim (Bool-cases (is_empty m.dir)) [
      | inl d ↦ rw d h
      | inr d ↦
          rw d
            (with_state-Kept (held encode decode digest m.file) (record m { loaded = true }) h h.1)
    ])
  ]

  module _ (reads : (s : State) → decode (encode s) ≡ some s) where
    left-BareHeld :
        (c : Call) (f : Option Text)
        → NoOptIn c
        → BareHeld (held encode decode digest f)
        → BareHeld (held encode decode digest (c.left f))
    unfolding NoOptIn
    left-BareHeld c f n h = elim (n.2 f) [ inl e ↦ rw e h | inr e ↦ rw e tt ]

    save-Kept :
        (c : Call) (m : Manager) → NoOptIn c → Kept m → Kept (save encode decode digest c m).0
    unfolding save
    save-Kept c m n h = ground (arith, left-BareHeld c m.file n h.1, reads m.st)

    refused-Kept :
        (c : Call) (l : Manager)
        → NoOptIn c
        → Kept l
        → Kept (save encode decode digest c (record l { st = consented false l.st })).0
    refused-Kept c l n h =
        save-Kept c (record l { st = consented false l.st }) n ((h.0.0, refl), h.1)

    maybe_prompt-Kept :
        (c : Call) (interactive decided : Bool) (m : Manager)
        → NoOptIn c
        → Kept m
        → Kept (maybe_prompt encode decode digest c interactive decided m).0
    unfolding maybe_prompt record_consent NoOptIn
    maybe_prompt-Kept c interactive decided m n h = rw n.1 (
        ground (
          arith,
          load-Kept m h,
          refused-Kept c (load encode decode digest (load encode decode digest m)) n
              (load-Kept (load encode decode digest m) (load-Kept m h)),
        ))

    either-Kept :
        {A : Type 0} (b c : Bool) (m l : Manager) (x y z : A)
        → Kept m
        → Kept l
        → Kept (if◌then◌else◌ {A = Manager × A} b (m, x) (if c then (l, y) else (l, z))).0
    either-Kept true c m l x y z h k = h
    either-Kept false true m l x y z h k = k
    either-Kept false false m l x y z h k = k

    resolve_with_consent-Kept :
        (key : Text) (getenv : Text → Text) (m : Manager)
        → Kept m
        → Kept (resolve_with_consent encode decode digest key getenv m).0
    unfolding resolve_with_consent
    resolve_with_consent-Kept key getenv m h =
        either-Kept (not (is_default (resolve key getenv).source))
          ((load encode decode digest m).st.consent_asked
            && (load encode decode digest m).st.consent_granted)
          m _ _ _ _ h (load-Kept m h)

    resolve_with_consent-off :
        (c : Call) (key : Text) (m : Manager)
        → NoOptIn c
        → contains yes_words (word key) ≡ false
        → Kept m
        → (resolve_with_consent encode decode digest key c.getenv m).1.enabled ≡ false
    unfolding NoOptIn OptedIn
    resolve_with_consent-off c key m n k h =
        ground
          (arith, resolve_with_consent-OptedIn encode decode digest key c.getenv m, load-Kept m h)

    manager_of-Kept : (w : Machine) → OptedOut w → Kept (manager_of encode decode digest w)
    unfolding OptedOut
    manager_of-Kept w o = ((refl, refl), o.1)

    chosen-Kept : (b : Bool) (m l : Manager) → Kept m → Kept l → Kept (if b then m else l)
    chosen-Kept true m l h k = h
    chosen-Kept false m l h k = k

    new_session-Kept :
        (c : Call) (w : Machine)
        → NoOptIn c
        → OptedOut w
        → Kept (new_session encode decode digest c w).mgr
          × ((new_session encode decode digest c w).enabled ≡ false)
    unfolding new_session OptedOut
    new_session-Kept c w n o =
        let m =
          chosen-Kept
            (not (not (is_default (resolve (trim_space w.config_enabled) c.getenv).source))
              && not (telemetry_non_interactive c))
            _ _
            (maybe_prompt-Kept c c.tty
              (not (is_default (resolve (trim_space w.config_enabled) c.getenv).source))
              (manager_of encode decode digest w) n (manager_of-Kept w o))
            (manager_of-Kept w o) in
        (
          resolve_with_consent-Kept (trim_space w.config_enabled) c.getenv _ m,
          resolve_with_consent-off c (trim_space w.config_enabled) _ n o.0 m,
        )

    emit-off :
        (c : Call) (ev : Event) (s : Session)
        → s.enabled ≡ false
        → emit encode decode digest c ev s ≡ s
    unfolding emit
    emit-off c ev s e = rw e refl

    off-quiet :
        (c : Call) (expired : ℕ → Bool) (evs : List Event) (s : Session)
        → s.enabled ≡ false
        → (emit_all encode decode digest c evs s ≡ s) × (flush encode decode digest expired s ≡ [])
    unfolding emit_all emit flush
    off-quiet c expired [] s e = ground arith
    off-quiet c expired (ev ∷ evs) s e = rw (emit-off c ev s e) (off-quiet c expired evs s e)

    -- A run that says no opt-in, from a machine with none, posts nothing, prints no id, and leaves
    -- a machine with none.
    pub run-OptedOut :
        (c : Call) (expired : ℕ → Bool) (k : Command) (w : Machine)
        → NoOptIn c
        → IsQuiet k
        → OptedOut w
        → OptedOut (run encode decode digest c expired k w).machine
          × ((run encode decode digest c expired k w).posted ≡ [])
          × ((run encode decode digest c expired k w).printed ≡ none)
    unfolding run OptedOut run_status run_claim run_set run_work set_enabled_consent
    run-OptedOut c expired status w n q o =
        rw
          (resolve_with_consent-off c (trim_space w.config_enabled)
            (manager_of encode decode digest w) n o.0 (manager_of-Kept w o))
          (
            (
              o.0,
              (resolve_with_consent-Kept (trim_space w.config_enabled) c.getenv
                  (manager_of encode decode digest w) (manager_of-Kept w o)).1,
            ),
            refl,
            refl,
          )
    run-OptedOut c expired rotate_id w n q o = elim q [ ]
    run-OptedOut c expired claim w n q o =
        rw
          (resolve_with_consent-off c (trim_space w.config_enabled)
            (manager_of encode decode digest w) n o.0 (manager_of-Kept w o))
          (
            (
              o.0,
              (resolve_with_consent-Kept (trim_space w.config_enabled) c.getenv
                  (manager_of encode decode digest w) (manager_of-Kept w o)).1,
            ),
            refl,
            refl,
          )
    run-OptedOut c expired (set_enabled true) w n q o = elim q [ ]
    run-OptedOut c expired (set_enabled false) w n q o = elim (Bool-cases c.config_ok) [
      | inl e ↦ rw e (
        (
          refl,
          (refused-Kept c (load encode decode digest (manager_of encode decode digest w)) n
              (load-Kept (manager_of encode decode digest w) (manager_of-Kept w o))).1,
        ),
        refl,
        refl,
      )
      | inr e ↦ rw e (o, refl, refl)
    ]
    run-OptedOut c expired (work evs) w n q o =
        let (kept, off) = new_session-Kept c w n o in
        let (same, silent) = off-quiet c expired evs (new_session encode decode digest c w) off in
        rw (same) ((o.0, kept.1), silent, refl)
