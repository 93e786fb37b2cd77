-- ===== src/Telemetry/Identity.antt =====
-- The install id from one process to the next: internal/cli/telemetry/telemetry.go.
use forge_development_hub_cl.Base.{
  ◌+◌, true, false, ◌≡◌, refl, Option, none, some, Text, is_empty, leb, Bool-cases, inl, inr,
}
use forge_development_hub_cl.Telemetry.{
  State, Call, new_manager, install_id, load, with_state, held, save, rotate_locked,
  auto_rotate_after,
}

module _ (encode : State → Text) (decode : Text → Option State) (digest : Text → Text) where
  load-new :
      (dir : Text) (file : Option Text)
      → is_empty dir ≡ false
      → load encode decode digest (new_manager dir file)
        ≡ with_state encode decode digest
            (held encode decode digest file)
            (record (new_manager dir file) { loaded = true })
  unfolding load
  load-new dir file known = rw known refl

  reused :
      (d : Call) (dir : Text) (file : Option Text) (s : State)
      → is_empty dir ≡ false
      → held encode decode digest file ≡ some s
      → is_empty s.salt ≡ false
      → leb (s.salt_rotated_at + auto_rotate_after) d.now ≡ false
      → (install_id encode decode digest d (new_manager dir file)).1 ≡ some (digest s.salt)
  unfolding install_id
  reused d dir file s known h ne late = rw (load-new dir file known, h, ne, late) refl

  made :
      (c : Call) (dir salt : Text) (file : Option Text) (o : Option State)
      → ((s : State) → decode (encode s) ≡ some s)
      → is_empty dir ≡ false
      → c.mkdir_ok ≡ true
      → c.write_ok ≡ true
      → c.random ≡ some salt
      → is_empty salt ≡ false
      → held encode decode digest file ≡ o
      → (s : State) × (held encode decode digest
            (install_id encode decode digest c (new_manager dir file)).0.file
          ≡ some s)
        × ((install_id encode decode digest c (new_manager dir file)).0.st ≡ s)
        × (is_empty s.salt ≡ false)
        × ((install_id encode decode digest c (new_manager dir file)).1 ≡ some (digest s.salt))
  unfolding install_id rotate_locked save
  made c dir salt file none reads known mk wr ra ne h =
      rw (load-new dir file known, h, ra, known, mk, wr) (_, reads _, refl, ne, refl)
  made c dir salt file (some s) reads known mk wr ra ne h = elim (Bool-cases (is_empty s.salt)) [
    | inl e ↦ rw (load-new dir file known, h, e, ra, known, mk, wr) (_, reads _, refl, ne, refl)
    | inr e ↦ elim (Bool-cases (leb (s.salt_rotated_at + auto_rotate_after) c.now)) [
      | inl l ↦
          rw (load-new dir file known, h, e, l, ra, known, mk, wr) (_, reads _, refl, ne, refl)
      | inr l ↦ rw (load-new dir file known, h, e, l) (s, h, refl, e, refl)
    ]
  ]

  -- If what is encoded decodes to itself, a directory is known and the call can write and has
  -- randomness, then the id that it gives is the id that a later process gives, with the file as
  -- the call left it, until the salt is old enough to be rotated.
  pub install_id-again :
      (c d : Call) (dir salt : Text) (file : Option Text)
      → ((s : State) → decode (encode s) ≡ some s)
      → is_empty dir ≡ false
      → c.mkdir_ok ≡ true
      → c.write_ok ≡ true
      → c.random ≡ some salt
      → is_empty salt ≡ false
      → leb
          ((install_id encode decode digest c (new_manager dir file)).0.st.salt_rotated_at
            + auto_rotate_after)
          d.now
        ≡ false
      → (install_id encode decode digest d
          (new_manager dir (install_id encode decode digest c (new_manager dir file)).0.file)).1
        ≡ (install_id encode decode digest c (new_manager dir file)).1
  install_id-again c d dir salt file reads known mk wr ra ne late =
      let (s, has, st, full, id) =
        made c dir salt file (held encode decode digest file) reads known mk wr ra ne refl in
      rw id (reused d dir _ s known has full (rw (← st) late))
