-- ===== src/Telemetry/Posted.antt =====
-- What a process posts of the events that it emits.
use forge_development_hub_cl.Base.{
  ℕ, suc, ◌≤◌, ◌+◌, Bool, true, false, ◌≡◌, ◌∙◌, ap, refl, ◌⊎◌, inl, inr, List, [], ◌∷◌, ◌++◌, Text,
  is_empty, arith, Bool-cases, if◌then◌else◌, not, ◌||◌, length, leb,
}
use forge_development_hub_cl.Telemetry.Emitter.{
  Event, Emitter, max_queued, new_emitter, enqueue, post_from, flush_once,
}

-- The list begins with the first one.
abbrev pub IsPrefix : List Event → List Event → Type 0
IsPrefix p l = (r : List Event) × (l ≡ p ++ r)

unfoldable pub enqueue_all : List Event → Emitter → Emitter
unfolding enqueue
enqueue_all [] e = e
enqueue_all (ev ∷ evs) e = enqueue_all evs (enqueue ev e)

-- The first list is the second one up to its 64th event.
abbrev pub Bounded : List Event → List Event → Type 0
Bounded q l =
    (r : List Event) × (l ≡ q ++ r) × (length q ≤ max_queued) × ((length q ≡ max_queued) ⊎ (r ≡ []))

post_from-IsPrefix :
    (expired : ℕ → Bool) (i : ℕ) (l : List Event) → IsPrefix (post_from expired i l) l
unfolding post_from
post_from-IsPrefix expired i [] = ([], refl)
post_from-IsPrefix expired i (ev ∷ l) =
    let (r, e) = post_from-IsPrefix expired (suc i) l in
    elim (Bool-cases (expired i)) [ inl x ↦ rw x (ev ∷ l, refl) | inr x ↦ rw x (r, ap (◌∷◌ ev) e) ]

append_assoc : (p q r : List Event) → (p ++ q) ++ r ≡ p ++ (q ++ r)
append_assoc [] q r = refl
append_assoc (x ∷ p) q r = ap (◌∷◌ x) (append_assoc p q r)

length-snoc : (p : List Event) (x : Event) → length (p ++ x ∷ []) ≡ length p + 1
length-snoc [] x = refl
length-snoc (y ∷ p) x = ground (arith, length-snoc p x)

refused :
    (on closed over : Bool) (x y : Emitter)
    → over ≡ true
    → (if not on then x else if closed || over then x else y) ≡ x
refused false closed over x y h = refl
refused true true over x y h = refl
refused true false over x y h = rw h refl

enqueue-full :
    (ev : Event) (e : Emitter) → leb max_queued (length e.queue) ≡ true → enqueue ev e ≡ e
unfolding enqueue
enqueue-full ev e h = refused e.enabled e.closed (leb max_queued (length e.queue)) e _ h

enqueue-room :
    (ev : Event) (e : Emitter)
    → e.enabled ≡ true
    → e.closed ≡ false
    → leb max_queued (length e.queue) ≡ false
    → enqueue ev e ≡ record e { queue = e.queue ++ ev ∷ [] }
unfolding enqueue
enqueue-room ev e on open_ h = simp (on, open_, h)

full :
    (evs : List Event) (e : Emitter)
    → leb max_queued (length e.queue) ≡ true
    → enqueue_all evs e ≡ e
unfolding enqueue_all
full [] e h = refl
full (ev ∷ evs) e h = ap (enqueue_all evs) (enqueue-full ev e h) ∙ full evs e h

full-Bounded :
    (evs : List Event) (e : Emitter)
    → leb max_queued (length e.queue) ≡ true
    → length e.queue ≤ max_queued
    → Bounded (enqueue_all evs e).queue (e.queue ++ evs)
full-Bounded evs e x h = simp (full evs e x) (evs, refl, h, inl (ground arith))

enqueue_all-Bounded :
    (evs : List Event) (e : Emitter)
    → e.enabled ≡ true
    → e.closed ≡ false
    → length e.queue ≤ max_queued
    → Bounded (enqueue_all evs e).queue (e.queue ++ evs)
unfolding enqueue_all
enqueue_all-Bounded [] e on open_ h = ([], refl, h, inr refl)
enqueue_all-Bounded (ev ∷ evs) e on open_ h = elim (Bool-cases (leb max_queued (length e.queue))) [
  | inl x ↦ full-Bounded (ev ∷ evs) e x h
  | inr x ↦
      simp (enqueue-room ev e on open_ x, ← append_assoc e.queue (ev ∷ []) evs)
        (enqueue_all-Bounded evs (record e { queue = e.queue ++ ev ∷ [] }) on open_
          (ground (arith, length-snoc e.queue ev)))
]

enqueue-enabled : (ev : Event) (e : Emitter) → e.enabled ≡ true → (enqueue ev e).enabled ≡ true
unfolding enqueue
enqueue-enabled ev e h = elim (Bool-cases (e.closed || leb max_queued (length e.queue))) [
  | inl c ↦ simp (h, c)
  | inr c ↦ simp (h, c)
]

enqueue_all-enabled :
    (evs : List Event) (e : Emitter) → e.enabled ≡ true → (enqueue_all evs e).enabled ≡ true
unfolding enqueue_all
enqueue_all-enabled [] e h = h
enqueue_all-enabled (ev ∷ evs) e h = enqueue_all-enabled evs (enqueue ev e) (enqueue-enabled ev e h)

flush_once-IsPrefix :
    (expired : ℕ → Bool) (e : Emitter)
    → e.enabled ≡ true
    → IsPrefix (flush_once expired e).1 e.queue
      × ((flush_once expired e).0.queue ≡ [])
      × ((flush_once expired e).0.closed ≡ true)
unfolding flush_once
flush_once-IsPrefix expired e h = elim (Bool-cases (is_empty e.endpoint)) [
  | inl x ↦ simp (h, x) ((e.queue, refl), refl, refl)
  | inr x ↦ simp (h, x) (post_from-IsPrefix expired 0 e.queue, refl, refl)
]

-- Of the events that are emitted for a new emitter that is enabled, the queue holds the first
-- ones, at most 64, and all of them if they are fewer than 64; a flush posts some of the first of
-- the queue, in their order, and leaves the emitter empty and closed.
pub flush_once-first :
    (endpoint : Text) (evs : List Event) (expired : ℕ → Bool)
    → Bounded (enqueue_all evs (new_emitter endpoint true)).queue evs
      × IsPrefix
          (flush_once expired (enqueue_all evs (new_emitter endpoint true))).1
          (enqueue_all evs (new_emitter endpoint true)).queue
      × ((flush_once expired (enqueue_all evs (new_emitter endpoint true))).0.queue ≡ [])
      × ((flush_once expired (enqueue_all evs (new_emitter endpoint true))).0.closed ≡ true)
flush_once-first endpoint evs expired =
    let (first, empty, done) =
      flush_once-IsPrefix expired (enqueue_all evs (new_emitter endpoint true))
        (enqueue_all-enabled evs (new_emitter endpoint true) refl) in
    (
      enqueue_all-Bounded evs (new_emitter endpoint true) refl refl (omega arith),
      first,
      empty,
      done,
    )
