-- ===== src/Runspace/Leaks.antt =====
-- No container leaks from the registry of internal/runspace/sandboxes.go, whatever its callers do.
use semdev.Base.{
  ℕ, ◌+◌, ◌≡◌, refl, sym, ap, ◌∙◌, subst, inl, inr, List, [], ◌∷◌, some, Text, same, same_refl,
  is_empty, length, All, arith, Result, ok, err, Bool-cases, Option-cases,
}
use semdev.Runner.{Runner, Sandbox}
use semdev.Cleanroom.Teardown.{Counts}
use semdev.Runspace.{
  Warm, Entries, find, drop, tear_down, record_warm, provision, down, close, close_all,
}
use semdev.Runspace.Registry.{Distinct, Distinct-drop, drop_absent, length-drop, find-drop}

module _ {World : Type 0} (new_runner : Text → Runner World) (opened : World → ℕ) where
  -- What the callers do with a registry: its own methods, and anything that opens and closes no sandbox.
  pub data Step : Entries World × World → Entries World × World → Type 0 where
    provisions :
        (run image dir : Text) (envs : List Text) (es : Entries World) (w : World)
        → Step
            (es, w)
            (
              (provision new_runner run image dir envs es w).0.1,
              (provision new_runner run image dir envs es w).1,
            )
    downs :
        (run : Text) (es : Entries World) (w : World)
        → Step (es, w) ((down run es w).0.1, (down run es w).1)
    closes :
        (es : Entries World) (w : World) → Step (es, w) ((close_all es w).0.1, (close_all es w).1)
    elsewhere : (es : Entries World) {w v : World} → opened v ≡ opened w → Step (es, w) (es, v)

  pub data Steps (start : Entries World × World) : Entries World × World → Type 0 where
    here : Steps start start
    next : {s t : Entries World × World} → Steps start s → Step s t → Steps start t

  abbrev Counted : Entries World → Type 0
  Counted es = All (λ (e : Text × Warm World). Counts e.1.runner opened) es

  -- The sandboxes that are up beyond the `base` of others are those of the entries.
  record Tracked (base : ℕ) (s : Entries World × World) : Type 0 where
    distinct : Distinct s.0
    counted : Counted s.0
    tracked : opened s.1 ≡ base + length s.0

  find-Counts :
      (run : Text) (es : Entries World) {warm : Warm World}
      → Counted es
      → find run es ≡ some warm
      → Counts warm.runner opened
  unfolding find
  find-Counts run [] c h = cc
  find-Counts run ((r, w) ∷ es) (this, c) h = elim (Bool-cases (same r run)) [
    | inl here_it ↦ subst (λ (x : Warm World). Counts x.runner opened) (is (rw here_it at h)) this
    | inr other ↦ find-Counts run es c (rw other at h)
  ]
    where
      is : {x y : Warm World} → some x ≡ some y → x ≡ y
      is h = cc

  drop-Counted : (run : Text) (es : Entries World) → Counted es → Counted (drop run es)
  unfolding drop
  drop-Counted run [] c = tt
  drop-Counted run ((r, w) ∷ es) (this, c) = elim (Bool-cases (same r run)) [
    | inl gone ↦ rw gone (drop-Counted run es c)
    | inr kept ↦ rw kept (this, drop-Counted run es c)
  ]

  -- Dropping a run's entry and tearing its sandbox down go together.
  tear_down-Balanced :
      (run : Text) (es : Entries World) (w : World)
      → Distinct es
      → Counted es
      → (base : ℕ) → opened w ≡ base + length es
      → opened (tear_down (find run es) w).1 ≡ base + length (drop run es)
  tear_down-Balanced run es w d c base before = elim (Option-cases (find run es)) [
    | inl absent ↦ rw (absent, drop_absent run es absent) before
    | inr (warm, there) ↦
        let one_less = length-drop run es d there in
        let closed = (find-Counts run es c there).down w warm.sandbox in
        rw there (omega (arith, closed, one_less, before))
  ]

  provision-Tracked :
      (base : ℕ) (run image dir : Text) (envs : List Text) (es : Entries World) (w : World)
      → Counts (new_runner image) opened
      → Tracked base (es, w)
      → Tracked base (
        (provision new_runner run image dir envs es w).0.1,
        (provision new_runner run image dir envs es w).1,
      )
  unfolding provision
  provision-Tracked base run image dir envs es w counts t = elim (Bool-cases (is_empty run)) [
    | inl unnamed ↦ rw unnamed t
    | inr named ↦ rw named (up ((new_runner image).up w dir envs) refl)
  ]
    where
      up :
          (r : Result Text Sandbox × World)
          → (new_runner image).up w dir envs ≡ r
          → Tracked base (
            (record_warm run (new_runner image) es r).0.1,
            (record_warm run (new_runner image) es r).1,
          )
      up (err e, v) is = record {
        distinct = t.distinct;
        counted = t.counted;
        tracked =
            ap opened (sym (ap (λ x. x.1) is))
            ∙ counts.up_err w dir envs e (ap (λ x. x.0) is)
            ∙ t.tracked;
      }
      up (ok sb, v) is =
          let one_more : opened v ≡ opened w + 1 =
            ap opened (sym (ap (λ x. x.1) is)) ∙ counts.up_ok w dir envs sb (ap (λ x. x.0) is) in
          record {
            distinct =
                (find-drop run run es ∙ rw (same_refl run) refl, Distinct-drop run es t.distinct);
            counted = (counts, drop-Counted run es t.counted);
            tracked =
                tear_down-Balanced run es v t.distinct t.counted (base + 1)
                  (omega (arith, one_more, t.tracked))
                ∙ omega arith;
          }

  down-Tracked :
      (base : ℕ) (run : Text) (es : Entries World) (w : World)
      → Tracked base (es, w)
      → Tracked base ((down run es w).0.1, (down run es w).1)
  unfolding down
  down-Tracked base run es w t = record {
    distinct = Distinct-drop run es t.distinct;
    counted = drop-Counted run es t.counted;
    tracked = tear_down-Balanced run es w t.distinct t.counted base t.tracked;
  }

  opened-close :
      (es : Entries World) (w : World) (base : ℕ)
      → Counted es
      → opened w ≡ base + length es
      → opened (close es w).1 ≡ base
  unfolding close
  opened-close [] w base c before = omega (arith, before)
  opened-close ((run, warm) ∷ es) w base (this, c) before =
      opened-close es (warm.runner.down w warm.sandbox).1 base c
        (omega (arith, this.down w warm.sandbox, before))

  Step-Tracked :
      (base : ℕ)
      → ((image : Text) → Counts (new_runner image) opened)
      → {s t : Entries World × World} → Step s t
      → Tracked base s
      → Tracked base t
  unfolding close_all
  Step-Tracked base counts (provisions run image dir envs es w) h =
      provision-Tracked base run image dir envs es w (counts image) h
  Step-Tracked base counts (downs run es w) h = down-Tracked base run es w h
  Step-Tracked base counts (closes es w) h = record {
    distinct = tt;
    counted = tt;
    tracked = opened-close es w base h.counted h.tracked ∙ omega arith;
  }
  Step-Tracked base counts (elsewhere es e) h = record {
    distinct = h.distinct;
    counted = h.counted;
    tracked = e ∙ h.tracked;
  }

  Steps-Tracked :
      (base : ℕ)
      → ((image : Text) → Counts (new_runner image) opened)
      → {s t : Entries World × World} → Tracked base s
      → Steps s t
      → Tracked base t
  Steps-Tracked base counts h here = h
  Steps-Tracked base counts h (next before step) =
      Step-Tracked base counts step (Steps-Tracked base counts h before)

  -- With runners whose up adds one open sandbox when it succeeds and none when it fails and whose
  -- down takes one away, after any sequence of provisions, downs, closes and of other steps that
  -- open and close none, from an empty registry on, there is one more sandbox open for each entry
  -- than at the start, no two entries are of one run, and CloseAll leaves as many open as there
  -- were at the start.
  pub opened-Steps :
      ((image : Text) → Counts (new_runner image) opened)
      → (start : World) (es : Entries World) (w : World) → Steps ([], start) (es, w)
      → (opened w ≡ opened start + length es)
        × Distinct es
        × (opened (close_all es w).1 ≡ opened start)
  unfolding close_all
  opened-Steps counts start es w steps =
      let t =
        Steps-Tracked (opened start) counts
          (record { distinct = tt; counted = tt; tracked = omega arith }) steps in
      (t.tracked, t.distinct, opened-close es w (opened start) t.counted t.tracked)
