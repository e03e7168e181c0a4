-- ===== src/Runspace/Registry.antt =====
-- The entries of the registry of internal/runspace/sandboxes.go: what is found once one is dropped.
use semdev.Base.{
  suc, ◌≡◌, refl, sym, ap, ◌∙◌, inl, inr, [], ◌∷◌, none, some, Text, same, same_iff, length, arith,
  Bool-cases, if◌then◌else◌,
}
use semdev.Runspace.{Warm, Entries, find, drop}

module _ {World : Type 0} where
  pub find-drop :
      (run other : Text) (es : Entries World)
      → find other (drop run es) ≡ (if same run other then none else find other es)
  unfolding find drop
  find-drop run other [] = ground arith
  find-drop run other ((r, warm) ∷ es) =
      ground (arith, same_iff r run, same_iff r other, same_iff run other, find-drop run other es)

  -- No two entries are of one run.
  abbrev pub Distinct : Entries World → Type 0
  Distinct [] = Unit
  Distinct ((r, warm) ∷ es) = (find r es ≡ none) × Distinct es

  pub Distinct-drop : (run : Text) (es : Entries World) → Distinct es → Distinct (drop run es)
  unfolding drop
  Distinct-drop run [] d = tt
  Distinct-drop run ((r, warm) ∷ es) (absent, d) = elim (Bool-cases (same r run)) [
    | inl gone ↦ rw gone (Distinct-drop run es d)
    | inr kept ↦ rw kept (find-drop run r es ∙ ground (arith, absent), Distinct-drop run es d)
  ]

  pub drop_absent : (run : Text) (es : Entries World) → find run es ≡ none → drop run es ≡ es
  unfolding find drop
  drop_absent run [] h = refl
  drop_absent run ((r, warm) ∷ es) h = elim (Bool-cases (same r run)) [
    | inl here ↦ cc (rw here at h)
    | inr other ↦ rw other (ap (λ l. (r, warm) ∷ l) (drop_absent run es (rw other at h)))
  ]

  pub length-drop :
      (run : Text) (es : Entries World) {warm : Warm World}
      → Distinct es
      → find run es ≡ some warm
      → suc (length (drop run es)) ≡ length es
  unfolding find drop
  length-drop run [] d h = cc
  length-drop run ((r, w) ∷ es) (absent, d) h = elim (Bool-cases (same r run)) [
    | inl here ↦ rw here (
        ap (λ l. suc (length l))
          (drop_absent run es (ap (λ x. find x es) (sym ((same_iff r run).0 here)) ∙ absent)))
    | inr other ↦ rw other (ap suc (length-drop run es d (rw other at h)))
  ]
