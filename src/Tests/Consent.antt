-- ===== src/Tests/Consent.antt =====
-- Telemetry: a codec that knows one state, on machines with and without an opt-in.
use forge_development_hub_cl.Base.{
  Bool, true, false, ◌≡◌, ◌↔◌, refl, inl, [], ◌∷◌, Option, none, some, Text, codes, zero, suc,
  contains, ℕ,
}
use forge_development_hub_cl.Base.Bytes.{trim_space, to_lower}
use forge_development_hub_cl.Telemetry.{
  State, Call, zero_state, new_manager, resolve_with_consent, install_id, load, save, rotate_locked,
  resolve, truthy, word, is_affirmative,
}
use forge_development_hub_cl.Telemetry.Emitter.{Event, new_emitter, flush_once}
use forge_development_hub_cl.Telemetry.Posted.{IsPrefix, Bounded, enqueue_all, flush_once-first}
use forge_development_hub_cl.Telemetry.Identity.{install_id-again}
use forge_development_hub_cl.Telemetry.Verdict.{OptedIn, flag, resolve_with_consent-OptedIn}
use forge_development_hub_cl.Telemetry.Session.{Machine, status, run, work}
use forge_development_hub_cl.Telemetry.Session.Private.{NoOptIn, OptedOut}
use forge_development_hub_cl.Telemetry.Session.Reach.{start, after, Quietly-silent}

abbrev no_env : Text → Text
no_env v = []

abbrev calm : Call
calm = record {
  getenv = no_env;
  tty = true;
  answer = codes "n";
  now = 5;
  random = some (codes "ab");
  mkdir_ok = true;
  write_ok = true;
  left = λ f. f;
  config_ok = true;
}

-- A codec: the salt behind the two Booleans and the time in unary.
abbrev flag_byte : Bool → ℕ
flag_byte true = 1
flag_byte false = 0

abbrev of_byte : ℕ → Bool
of_byte zero = false
of_byte (suc n) = true

abbrev encoded : State → Text
encoded s = flag_byte s.consent_asked ∷ flag_byte s.consent_granted ∷ s.salt_rotated_at ∷ s.salt

abbrev decoded : Text → Option State
decoded (a ∷ g ∷ t ∷ salt) = some (record {
  salt = salt;
  salt_rotated_at = t;
  consent_asked = of_byte a;
  consent_granted = of_byte g;
})
decoded _ = none

of_byte-flag_byte : (b : Bool) → of_byte (flag_byte b) ≡ b
of_byte-flag_byte true = refl
of_byte-flag_byte false = refl

decoded-encoded : (s : State) → decoded (encoded s) ≡ some s
decoded-encoded s = simp (of_byte-flag_byte s.consent_asked, of_byte-flag_byte s.consent_granted)

abbrev hash : Text → Text
hash s = b'#' ∷ s

abbrev asked : State
asked = record zero_state { consent_asked = true; consent_granted = true }

resolve_with_consent-OptedIn_example :
    ((resolve_with_consent encoded decoded hash [] no_env
        (new_manager (codes "/c") (some (encoded asked)))).1.enabled
      ≡ true)
    ↔ OptedIn [] no_env
        (load encoded decoded hash (new_manager (codes "/c") (some (encoded asked)))).st
resolve_with_consent-OptedIn_example =
    resolve_with_consent-OptedIn encoded decoded hash [] no_env
      (new_manager (codes "/c") (some (encoded asked)))

asked_enabled :
    (resolve_with_consent encoded decoded hash [] no_env
      (new_manager (codes "/c") (some (encoded asked)))).1.enabled
    ≡ true
unfolding resolve_with_consent resolve load trim_space word to_lower contains
asked_enabled = refl

install_id-again_example :
    (install_id encoded decoded hash calm (
      new_manager
        (codes "/c")
        (install_id encoded decoded hash calm (new_manager (codes "/c") none)).0.file)).1
    ≡ (install_id encoded decoded hash calm (new_manager (codes "/c") none)).1
unfolding install_id load rotate_locked save
install_id-again_example =
    install_id-again encoded decoded hash calm calm (codes "/c") (codes "ab") none decoded-encoded
      refl refl refl refl refl refl

abbrev installed : Event
installed = record {
  event = codes "install";
  kind = codes "skill";
  namespace = [];
  name = codes "a";
  version = [];
  content_hash = [];
  scope = [];
  registry = [];
  os = [];
  locale = [];
  install_id = [];
  timestamp = [];
  rating = 0;
  category = [];
  comment = [];
}

flush_once-first_example :
    Bounded (enqueue_all (installed ∷ []) (new_emitter (codes "/t") true)).queue (installed ∷ [])
    × IsPrefix
        (flush_once (λ i. false) (enqueue_all (installed ∷ []) (new_emitter (codes "/t") true))).1
        (enqueue_all (installed ∷ []) (new_emitter (codes "/t") true)).queue
    × ((flush_once
          (λ i. false)
          (enqueue_all (installed ∷ []) (new_emitter (codes "/t") true))).0.queue
        ≡ [])
    × ((flush_once
          (λ i. false)
          (enqueue_all (installed ∷ []) (new_emitter (codes "/t") true))).0.closed
        ≡ true)
flush_once-first_example = flush_once-first (codes "/t") (installed ∷ []) (λ i. false)

abbrev new_machine : Machine
new_machine = record { dir = codes "/c"; config_enabled = []; endpoint = []; file = none }

calm-NoOptIn : NoOptIn encoded decoded hash calm
unfolding NoOptIn truthy word to_lower trim_space contains is_affirmative flag
calm-NoOptIn = (refl, refl, λ f. inl refl)

new_machine-OptedOut : OptedOut encoded decoded hash new_machine
unfolding OptedOut word to_lower trim_space contains
new_machine-OptedOut = (refl, tt)

Quietly-silent_example :
    OptedOut encoded decoded hash
      (run encoded decoded hash calm (λ i. false) status new_machine).machine
    × ((run encoded decoded hash calm
          (λ i. false)
          (work (installed ∷ []))
          (run encoded decoded hash calm (λ i. false) status new_machine).machine).posted
        ≡ [])
    × ((run encoded decoded hash calm
          (λ i. false)
          (work (installed ∷ []))
          (run encoded decoded hash calm (λ i. false) status new_machine).machine).printed
        ≡ none)
Quietly-silent_example =
    Quietly-silent encoded decoded hash decoded-encoded calm (λ i. false) (work (installed ∷ []))
      (after calm (λ i. false) status start calm-NoOptIn tt) new_machine-OptedOut calm-NoOptIn tt
