-- ===== src/Base/StringLaws.antt =====
-- Laws of the text functions.
use Prim.Native.Nat.{ℕ}
use mathlib.Core.Path.{◌≡◌, refl, ap, ◌∙◌, sym, subst}
use mathlib.Core.Logic.{◌↔◌, inl, inr}
use mathlib.Core.Bool.{Bool, true, false}
use mathlib.Core.List.{List, [], ◌∷◌, ◌++◌, Memᴰ}
use native.Mathlib.Omega.{arith}
use semdev.Base.Tests.{Bool-cases, or-false, ◌==◌, if◌then◌else◌}
use semdev.Base.Lists.{List-cases}
use semdev.Base.Strings.{
  Text, is_empty, same, has, is_space, trim_left, trim_right, put_unless_space, trim_space,
  is_blank,
}

pub same_iff : (s t : Text) → (same s t ≡ true) ↔ (s ≡ t)
unfolding same
same_iff (a ∷ s) (b ∷ t) = ground (arith, same_iff s t)
same_iff _ _ = ground arith

pub same_refl : (s : Text) → same s s ≡ true
same_refl s = (same_iff s s).1 refl

pub has-Memᴰ : (ss : List Text) (t : Text) → has ss t ≡ true → Memᴰ t ss
unfolding has
has-Memᴰ [] t h = cc
has-Memᴰ (s ∷ ss) t h = elim (Bool-cases (same s t)) [
  | inl e ↦ Memᴰ.head (sym ((same_iff s t).0 e))
  | inr e ↦ Memᴰ.tail (has-Memᴰ ss t (rw e at h))
]

pub Memᴰ-has : {t : Text} {ss : List Text} → Memᴰ t ss → has ss t ≡ true
unfolding has
Memᴰ-has {t} (Memᴰ.head {x = s} e) = ground (arith, same_iff s t)
Memᴰ-has {t} (Memᴰ.tail m) = ground (arith, Memᴰ-has m)

put_unless_space-fixed :
    (c : ℕ) (r : Text) → trim_right r ≡ r → trim_right (put_unless_space c r) ≡ put_unless_space c r
unfolding trim_right
put_unless_space-fixed c [] h = elim (Bool-cases (is_space c)) [ inl e ↦ rw e | inr e ↦ rw (e, e) ]
put_unless_space-fixed c (d ∷ r) h = rw (h, put_unless_space)

trim_right_idem : (t : Text) → trim_right (trim_right t) ≡ trim_right t
unfolding trim_right
trim_right_idem [] = refl
trim_right_idem (c ∷ cs) = put_unless_space-fixed c (trim_right cs) (trim_right_idem cs)

-- The text begins with no space.
abbrev pub StartsSolid : Text → Type 0
StartsSolid [] = Unit
StartsSolid (c ∷ cs) = is_space c ≡ false

trim_left-StartsSolid : (t : Text) → StartsSolid (trim_left t)
unfolding trim_left
trim_left-StartsSolid [] = tt
trim_left-StartsSolid (c ∷ cs) = elim (Bool-cases (is_space c)) [
  | inl e ↦ rw e (trim_left-StartsSolid cs)
  | inr e ↦ rw e e
]

trim_right-StartsSolid : (t : Text) → StartsSolid t → StartsSolid (trim_right t)
unfolding trim_right
trim_right-StartsSolid [] h = tt
trim_right-StartsSolid (c ∷ cs) h = elim (List-cases (trim_right cs)) [
  | inl e ↦ rw (e, put_unless_space, h) h
  | inr (d, r, e) ↦ rw (e, put_unless_space) h
]

pub trim_left-fixed : (t : Text) → StartsSolid t → trim_left t ≡ t
unfolding trim_left
trim_left-fixed [] h = refl
trim_left-fixed (c ∷ cs) h = rw h

pub trim_space_idem : (t : Text) → trim_space (trim_space t) ≡ trim_space t
unfolding trim_space
trim_space_idem t =
    let solid = trim_right-StartsSolid (trim_left t) (trim_left-StartsSolid t) in
    ap trim_right (trim_left-fixed _ solid) ∙ trim_right_idem (trim_left t)

pub trim_space-StartsSolid : (t : Text) → trim_space t ≡ t → StartsSolid t
unfolding trim_space
trim_space-StartsSolid t h =
    subst StartsSolid h (trim_right-StartsSolid (trim_left t) (trim_left-StartsSolid t))

pub trim_space-trim_right : (t : Text) → trim_space t ≡ t → trim_right t ≡ t
unfolding trim_space
trim_space-trim_right t h = sym (ap trim_right (trim_left-fixed t (trim_space-StartsSolid t h))) ∙ h

-- A trimmed text is blank only if it is empty.
pub is_blank-trim_space : (t : Text) → is_blank (trim_space t) ≡ is_blank t
unfolding is_blank
is_blank-trim_space t = ap is_empty (trim_space_idem t)

same_sym-false : (s t : Text) → same s t ≡ false → same t s ≡ false
same_sym-false s t h = elim (Bool-cases (same t s)) [
  | inl e ↦ cc (h, (same_iff s t).1 (sym ((same_iff t s).0 e)))
  | inr e ↦ e
]

-- No text is among those seen.
abbrev pub Unseen : List Text → List Text → Type 0
Unseen seen [] = Unit
Unseen seen (t ∷ ts) = (has seen t ≡ false) × Unseen seen ts

abbrev pub Distinct : List Text → Type 0
Distinct [] = Unit
Distinct (t ∷ ts) = (has ts t ≡ false) × Distinct ts

-- Texts unseen once `t` is seen too are unseen before, and `t` is not among them.
pub Unseen-cons :
    (t : Text) (seen ts : List Text) → Unseen (t ∷ seen) ts → Unseen seen ts × (has ts t ≡ false)
unfolding has
Unseen-cons t seen [] h = (tt, refl)
Unseen-cons t seen (u ∷ us) h =
    let (first, later) = or-false (same t u) (has seen u) h.0 in
    let (rest, absent) = Unseen-cons t seen us h.1 in
    ((later, rest), rw (same_sym-false t u first, absent))

-- No byte of the text is `c`.
abbrev pub Lacks : ℕ → Text → Type 0
Lacks c [] = Unit
Lacks c (d ∷ ds) = ((d == c) ≡ false) × Lacks c ds

pub Lacks-append : (c : ℕ) (s t : Text) → Lacks c s → Lacks c t → Lacks c (s ++ t)
Lacks-append c [] t h k = k
Lacks-append c (d ∷ s) t (here, h) k = (here, Lacks-append c s t h k)

-- A test of `Lacks`, for texts that are written out.
abbrev pub lacks : ℕ → Text → Bool
lacks c [] = true
lacks c (d ∷ ds) = if d == c then false else lacks c ds

pub lacks-Lacks : (c : ℕ) (t : Text) → lacks c t ≡ true → Lacks c t
lacks-Lacks c [] h = tt
lacks-Lacks c (d ∷ ds) h = elim (Bool-cases (d == c)) [
  | inl e ↦ cc (rw e at h)
  | inr e ↦ (e, lacks-Lacks c ds (rw e at h))
]
