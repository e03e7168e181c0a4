-- ===== src/Openspec/Words.antt =====
-- Cutting, trimming and the bytes that a text lacks, for the parsers of internal/openspec/parse.go.
use semdev.Base.{
  ℕ, ◌≡◌, refl, inl, inr, false, [], ◌∷◌, ◌++◌, some, Bool-cases, ◌==◌, ==_iff, Text, is_space,
  trim_space, trim_space_idem, trim_left, trim_right, put_unless_space, Lacks,
}
use semdev.Openspec.Lines.{in_cutset, put_unless_cut, trim_end, cut_prefix}
use semdev.Openspec.Canonical.{IsName}

pub cut_prefix-some : (s p : Text) {r : Text} → cut_prefix s p ≡ some r → s ≡ p ++ r
unfolding cut_prefix
cut_prefix-some s [] h = cc
cut_prefix-some [] (p ∷ ps) h = cc
cut_prefix-some (c ∷ cs) (p ∷ ps) h = elim (Bool-cases (c == p)) [
  | inl e ↦ cc ((==_iff c p).0 e, cut_prefix-some cs ps (rw e at h))
  | inr e ↦ cc (rw e at h)
]

Lacks-trim_left : (c : ℕ) (t : Text) → Lacks c t → Lacks c (trim_left t)
unfolding trim_left
Lacks-trim_left c [] h = tt
Lacks-trim_left c (d ∷ ds) h = elim (Bool-cases (is_space d)) [
  | inl e ↦ rw e (Lacks-trim_left c ds h.1)
  | inr e ↦ rw e h
]

Lacks-put_unless_space :
    (c d : ℕ) (r : Text) → (d == c) ≡ false → Lacks c r → Lacks c (put_unless_space d r)
Lacks-put_unless_space c d [] h k = elim (Bool-cases (is_space d)) [
  | inl e ↦ rw e tt
  | inr e ↦ rw e (h, tt)
]
Lacks-put_unless_space c d (b ∷ r) h k = (h, k)

Lacks-trim_right : (c : ℕ) (t : Text) → Lacks c t → Lacks c (trim_right t)
unfolding trim_right
Lacks-trim_right c [] h = tt
Lacks-trim_right c (d ∷ ds) (here, rest) =
    Lacks-put_unless_space c d (trim_right ds) here (Lacks-trim_right c ds rest)

Lacks-put_unless_cut :
    (c d : ℕ) (r : Text) → (d == c) ≡ false → Lacks c r → Lacks c (put_unless_cut d r)
Lacks-put_unless_cut c d [] h k = elim (Bool-cases (in_cutset d)) [
  | inl e ↦ rw e tt
  | inr e ↦ rw e (h, tt)
]
Lacks-put_unless_cut c d (b ∷ r) h k = (h, k)

pub Lacks-trim_end : (c : ℕ) (t : Text) → Lacks c t → Lacks c (trim_end t)
unfolding trim_end
Lacks-trim_end c [] h = tt
Lacks-trim_end c (d ∷ ds) (here, rest) =
    Lacks-put_unless_cut c d (trim_end ds) here (Lacks-trim_end c ds rest)

-- What is trimmed off a line leaves a name.
pub trim_space-IsName : (t : Text) → Lacks 10 t → IsName (trim_space t)
unfolding trim_space
trim_space-IsName t h =
    (trim_space_idem t, Lacks-trim_right 10 (trim_left t) (Lacks-trim_left 10 t h))

pub Lacks-behind : (c : ℕ) (p r : Text) → Lacks c (p ++ r) → Lacks c r
Lacks-behind c [] r h = h
Lacks-behind c (d ∷ p) r h = Lacks-behind c p r h.1

pub trim_right-blank : (t : Text) → trim_space t ≡ [] → trim_right t ≡ []
unfolding trim_space trim_left trim_right
trim_right-blank [] h = refl
trim_right-blank (c ∷ cs) h = elim (Bool-cases (is_space c)) [
  | inl e ↦ rw (trim_right-blank cs (rw e at h), put_unless_space, e) refl
  | inr e ↦ rw e at h
]
