-- ===== src/Runspace/Table.antt =====
-- The registry of internal/runspace/sandboxes.go as a table of the runs that are warm.
use semdev.Base.{
  ℕ, ◌≡◌, refl, ap, ◌∙◌, inl, inr, List, [], Option, none, some, Text, same, is_empty, arith,
  Result, ok, err, Bool-cases, if◌then◌else◌,
}
use semdev.Runner.{Runner, Sandbox}
use semdev.Runspace.{
  Warm, Entries, RunspaceError, not_warm, find, record_warm, provision, resolve, down, close_all,
}
use semdev.Runspace.Registry.{find-drop}
use semdev.Runspace.Leaks.{Step, provisions, downs, closes, elsewhere, Steps, here, next}

module _ {World : Type 0} (new_runner : Text → Runner World) (opened : World → ℕ) where
  abbrev Table : Type 0
  Table = Text → Option (Warm World)

  abbrev put : Text → Warm World → Table → Table
  put run warm t other = if same run other then some warm else t other

  abbrev remove : Text → Table → Table
  remove run t other = if same run other then none else t other

  -- A provision that fails keeps the table.
  abbrev provisioned : Text → Text → Result RunspaceError Sandbox → Table → Table
  provisioned run image (ok sb) t = put run (record { runner = new_runner image; sandbox = sb }) t
  provisioned run image (err e) t = t

  -- What a step means for the table.
  abbrev after : {s s' : Entries World × World} → Step new_runner opened s s' → Table → Table
  after (provisions run image dir envs es w) t =
      provisioned run image (provision new_runner run image dir envs es w).0.0 t
  after (downs run es w) t = remove run t
  after (closes es w) t = λ other. none
  after (elsewhere es e) t = t

  -- The table after the steps, from the empty one on.
  abbrev pub table : {start s : Entries World × World} → Steps new_runner opened start s → Table
  table here = λ other. none
  table (next before step) = after step (table before)

  find-record_warm :
      (run image : Text) (es : Entries World) (r : Result _ Sandbox × World) (t : Table)
      (other : Text)
      → find other es ≡ t other
      → find other (record_warm run (new_runner image) es r).0.1
        ≡ provisioned run image (record_warm run (new_runner image) es r).0.0 t other
  unfolding find
  find-record_warm run image es (err e, u) t other h = h
  find-record_warm run image es (ok sb, u) t other h = ground (arith, h, find-drop run other es)

  find-provision :
      (run image dir : Text) (envs : List Text) (es : Entries World) (w : World) (t : Table)
      (other : Text)
      → find other es ≡ t other
      → find other (provision new_runner run image dir envs es w).0.1
        ≡ provisioned run image (provision new_runner run image dir envs es w).0.0 t other
  unfolding provision
  find-provision run image dir envs es w t other h = elim (Bool-cases (is_empty run)) [
    | inl unnamed ↦ rw unnamed h
    | inr named ↦
        rw named (find-record_warm run image es ((new_runner image).up w dir envs) t other h)
  ]

  find-after :
      {s s' : Entries World × World} (step : Step new_runner opened s s') (t : Table) (other : Text)
      → find other s.0 ≡ t other
      → find other s'.0 ≡ after step t other
  unfolding find down close_all
  find-after (provisions run image dir envs es w) t other h =
      find-provision run image dir envs es w t other h
  find-after (downs run es w) t other h = find-drop run other es ∙ ground (arith, h)
  find-after (closes es w) t other h = refl
  find-after (elsewhere es e) t other h = h

  find-table :
      {start : World} {s : Entries World × World} (steps : Steps new_runner opened ([], start) s)
      (other : Text)
      → find other s.0 ≡ table steps other
  unfolding find
  find-table here other = refl
  find-table (next before step) other =
      find-after step (table before) other (find-table before other)

  -- After any steps from an empty registry on, Resolve answers as the table of the warm runs that
  -- the steps make of the empty one: a Provision that succeeds puts its run there, with the runner
  -- of its image and the sandbox it returned, one that fails changes nothing, a Down takes its run
  -- out, CloseAll takes all out, and it is an error where the table has none.
  pub resolve-table :
      {start : World} {es : Entries World} {w : World}
      (steps : Steps new_runner opened ([], start) (es, w)) (run : Text)
      → resolve run es
        ≡ (elim (table steps run) [ none ↦ err (not_warm run) | some warm ↦ ok warm ])
  unfolding resolve
  resolve-table steps run =
      ap (λ x. elim x [ none ↦ err (not_warm run) | some warm ↦ ok warm ]) (find-table steps run)
