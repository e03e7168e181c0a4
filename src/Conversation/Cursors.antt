-- ===== src/Conversation/Cursors.antt =====
-- The poller of internal/conversationchannel/poller.go skips no message.
use semdev.Base.{
  ◌≡◌, refl, sym, ap, ◌∙◌, subst, inl, inr, Bool, true, false, List, [], ◌∷◌, if◌then◌else◌, Text,
  same, same_iff, has, Result, ok, err, Bool-cases, arith,
}
use semdev.Conversation.Approval.{Message}
use semdev.Conversation.Poller.{
  Cursors, Poller, Pass, cursor_of, set_cursor, prune, handle_all, advance, after_read,
  after_resolve, poll, after_listing, tick,
}

cursor_of-set_cursor :
    (thread cursor : Text) (cs : Cursors) (other : Text)
    → cursor_of (set_cursor thread cursor cs) other
      ≡ (if same thread other then cursor else cursor_of cs other)
unfolding cursor_of set_cursor
cursor_of-set_cursor thread cursor [] other = ground arith
cursor_of-set_cursor thread cursor ((t, c) ∷ cs) other = ground (
  arith,
  same_iff t thread,
  same_iff t other,
  same_iff thread other,
  cursor_of-set_cursor thread cursor cs other,
)

cursor_of-prune :
    (active : List Text) (cs : Cursors) (other : Text)
    → cursor_of (prune active cs) other ≡ (if has active other then cursor_of cs other else [])
unfolding cursor_of prune
cursor_of-prune active [] other = ground arith
cursor_of-prune active ((t, c) ∷ cs) other = elim (Bool-cases (same t other)) [
  | inl it ↦
      let e = (same_iff t other).0 it in
      elim (Bool-cases (has active t)) [
        | inl kept ↦ rw (kept, it, (ap (has active) (sym e) ∙ kept)) refl
        | inr gone ↦
            rw (gone, it)
              (cursor_of-prune active cs other ∙ rw (ap (has active) (sym e) ∙ gone) refl)
      ]
  | inr apart ↦ elim (Bool-cases (has active t)) [
    | inl kept ↦ rw (kept, apart) (cursor_of-prune active cs other)
    | inr gone ↦ rw (gone, apart) (cursor_of-prune active cs other)
  ]
]

module _ {World : Type 0} (p : Poller World) where
  -- A cursor that reads reach from the start of the thread, each of them of messages that were all
  -- handled.
  pub data Reached (thread : Text) : Text → Type 0 where
    start : Reached thread []
    read_on :
        {c next : Text} {msgs : List Message} (u v : World)
        → Reached thread c
        → p.read u thread c ≡ (ok (msgs, next), v)
        → (handle_all p thread msgs v).0 ≡ true
        → Reached thread next

  abbrev pub NoneSkipped : Cursors → Type 0
  NoneSkipped cs = (thread : Text) → Reached thread (cursor_of cs thread)

  set_cursor-NoneSkipped :
      (thread next : Text) (cs : Cursors)
      → Reached thread next
      → NoneSkipped cs
      → NoneSkipped (set_cursor thread next cs)
  set_cursor-NoneSkipped thread next cs reached h other = elim (Bool-cases (same thread other)) [
    | inl it ↦
        subst (Reached other) (sym (cursor_of-set_cursor thread next cs other ∙ rw it refl))
          (subst (λ x. Reached x next) ((same_iff thread other).0 it) reached)
    | inr apart ↦
        subst (Reached other) (sym (cursor_of-set_cursor thread next cs other ∙ rw apart refl))
          (h other)
  ]

  prune-NoneSkipped :
      (active : List Text) (cs : Cursors) → NoneSkipped cs → NoneSkipped (prune active cs)
  prune-NoneSkipped active cs h other = elim (Bool-cases (has active other)) [
    | inl kept ↦
        subst (Reached other) (sym (cursor_of-prune active cs other ∙ rw kept refl)) (h other)
    | inr dropped ↦
        subst (Reached other) (sym (cursor_of-prune active cs other ∙ rw dropped refl)) start
  ]

  after_read-NoneSkipped :
      (thread : Text) (active : List Text) (cs : Cursors) (u : World)
      → NoneSkipped cs
      → NoneSkipped (after_read p thread active cs (p.read u thread (cursor_of cs thread))).cursors
  after_read-NoneSkipped thread active cs u h =
      answered (p.read u thread (cursor_of cs thread)) refl
    where
      answered :
          (r : Result Text (List Message × Text) × World)
          → p.read u thread (cursor_of cs thread) ≡ r
          → NoneSkipped (after_read p thread active cs r).cursors
      answered (err e, v) is = h
      answered (ok (msgs, next), v) is = moved ((handle_all p thread msgs v).0) refl
        where
          moved :
              (b : Bool)
              → (handle_all p thread msgs v).0 ≡ b
              → NoneSkipped (advance p thread next cs b)
          moved true all = set_cursor-NoneSkipped thread next cs (read_on u v (h thread) is all) h
          moved false some_failed = h

  poll-NoneSkipped :
      (refs : List Text) (s : Pass World)
      → NoneSkipped s.cursors
      → NoneSkipped (poll p refs s).cursors
  unfolding poll
  poll-NoneSkipped [] s h = h
  poll-NoneSkipped (ref ∷ refs) s h =
      poll-NoneSkipped refs (after_resolve p s (p.resolve_thread s.world ref))
        (resolved (p.resolve_thread s.world ref))
    where
      resolved : (r : Result Text Text × World) → NoneSkipped (after_resolve p s r).cursors
      resolved (err e, w) = h
      resolved (ok thread, w) = after_read-NoneSkipped thread (thread ∷ s.active) s.cursors w h

  -- Where every cursor is reached from the start of its thread by reads whose messages were all
  -- handled without an error, it is so after a tick too, whatever the enumeration, the channel and
  -- the handler return: the poller skips no message.
  pub tick-NoneSkipped : (cs : Cursors) (w : World) → NoneSkipped cs → NoneSkipped (tick p cs w).0
  unfolding tick
  tick-NoneSkipped cs w h = listed (p.awaiting w)
    where
      listed : (r : Result Text (List Text) × World) → NoneSkipped (after_listing p cs r).0
      listed (err e, v) = h
      listed (ok refs, v) =
          let s = poll p refs (record { active = []; cursors = cs; world = v }) in
          prune-NoneSkipped s.active s.cursors
            (poll-NoneSkipped refs (record { active = []; cursors = cs; world = v }) h)
