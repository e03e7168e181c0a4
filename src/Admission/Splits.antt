-- ===== src/Admission/Splits.antt =====
-- Which texts are the coordinate of an issue, and of which: `SplitRef` of
-- internal/intake/admission/refs.go.
use semdev.Base.{
  ℕ, ◌≡◌, ◌↔◌, refl, sym, ap, ◌∙◌, inl, inr, false, [], ◌∷◌, ◌++◌, Option, none, some, Text,
  is_empty, ◌==◌, ==_iff, ==_refl, Bool-cases, Lacks, Option-cases,
}
use semdev.Admission.Refs.{
  Coordinate, cut_first, cut_last, positive_int, split_ref, in_front_of, numbered,
}

some-injective : {A : Type 0} {x y : A} → some x ≡ some y → x ≡ y
some-injective h = cc

in_front_of-some :
    (d : ℕ) (r : Option (Text × Text)) {u v : Text}
    → in_front_of d r ≡ some (u, v)
    → (s : Text) × (r ≡ some (s, v)) × (u ≡ d ∷ s)
in_front_of-some d none h = cc
in_front_of-some d (some (s, t)) h =
    let e = some-injective h in (s, ap (λ x. some (s, x)) (ap (λ p. p.1) e), sym (ap (λ p. p.0) e))

-- The first `c` cuts the text into what is in front of it and what is behind it.
pub record CutFirst (c : ℕ) (t u v : Text) : Type 0 where
  pub is_it : t ≡ u ++ (c ∷ v)
  pub lacks : Lacks c u

pub cut_first-CutFirst :
    (c : ℕ) (t : Text) {u v : Text} → cut_first c t ≡ some (u, v) → CutFirst c t u v
unfolding cut_first
cut_first-CutFirst c [] h = cc
cut_first-CutFirst c (d ∷ ds) {u} {v} h = elim (Bool-cases (d == c)) [
  | inl found ↦
      let e = some-injective (rw found at h) in
      let same_byte = (==_iff d c).0 found in
      let empty : u ≡ [] = sym (ap (λ p. p.0) e) in
      let behind : ds ≡ v = ap (λ p. p.1) e in
      rw empty (record { is_it = cc (same_byte, behind); lacks = tt })
  | inr other ↦
      let (s, is, front) = in_front_of-some d (cut_first c ds) (rw other at h) in
      let rest = cut_first-CutFirst c ds is in
      rw front (record { is_it = ap (λ x. d ∷ x) rest.is_it; lacks = (other, rest.lacks) })
]

pub CutFirst-cut_first : (c : ℕ) (u v : Text) → Lacks c u → cut_first c (u ++ (c ∷ v)) ≡ some (u, v)
unfolding cut_first
CutFirst-cut_first c [] v lacks = rw (==_refl c)
CutFirst-cut_first c (d ∷ u) v (other, lacks) = rw (other, CutFirst-cut_first c u v lacks)

-- The last `c` does so.
record CutLast (c : ℕ) (t u v : Text) : Type 0 where
  is_it : t ≡ u ++ (c ∷ v)
  lacks : Lacks c v

cut_last-none : (c : ℕ) (t : Text) → cut_last c t ≡ none → Lacks c t
unfolding cut_last
cut_last-none c [] h = tt
cut_last-none c (d ∷ ds) h = elim (Option-cases (cut_last c ds)) [
  | inl absent ↦ elim (Bool-cases (d == c)) [
    | inl found ↦ cc (rw (absent, found) at h)
    | inr other ↦ (other, cut_last-none c ds absent)
  ]
  | inr (p, there) ↦ cc (rw there at h)
]

Lacks-cut_last : (c : ℕ) (t : Text) → Lacks c t → cut_last c t ≡ none
unfolding cut_last
Lacks-cut_last c [] lacks = refl
Lacks-cut_last c (d ∷ t) (other, lacks) = rw (Lacks-cut_last c t lacks, other)

cut_last-CutLast : (c : ℕ) (t : Text) {u v : Text} → cut_last c t ≡ some (u, v) → CutLast c t u v
unfolding cut_last
cut_last-CutLast c [] h = cc
cut_last-CutLast c (d ∷ ds) {u} {v} h = elim (Option-cases (cut_last c ds)) [
  | inl absent ↦ elim (Bool-cases (d == c)) [
    | inl found ↦
        let e = some-injective (rw (absent, found) at h) in
        let same_byte = (==_iff d c).0 found in
        let empty : u ≡ [] = sym (ap (λ p. p.0) e) in
        let behind : ds ≡ v = ap (λ p. p.1) e in
        rw empty (record {
          is_it = cc (same_byte, behind);
          lacks = rw behind at (cut_last-none c ds absent);
        })
    | inr other ↦ cc (rw (absent, other) at h)
  ]
  | inr ((s, t), there) ↦
      let rest = cut_last-CutLast c ds there in
      let e = some-injective (rw there at h) in
      let front : u ≡ d ∷ s = sym (ap (λ p. p.0) e) in
      let behind : t ≡ v = ap (λ p. p.1) e in
      rw (front, ← behind) (record { is_it = ap (λ x. d ∷ x) rest.is_it; lacks = rest.lacks })
]

CutLast-cut_last : (c : ℕ) (u v : Text) → Lacks c v → cut_last c (u ++ (c ∷ v)) ≡ some (u, v)
unfolding cut_last
CutLast-cut_last c [] v lacks = rw (Lacks-cut_last c v lacks, ==_refl c)
CutLast-cut_last c (d ∷ u) v lacks = rw (CutLast-cut_last c u v lacks)

-- The text is `owner/repo#number`, the number in decimal digits or after a plus sign, and positive.
pub record Spells (ref : Text) (at : Coordinate) : Type 0 where
  pub digits : Text
  pub is_it : ref ≡ (at.owner ++ (b'/' ∷ at.repo)) ++ (b'#' ∷ digits)
  pub owner_lacks : Lacks b'/' at.owner
  pub owner_named : is_empty at.owner ≡ false
  pub digits_lack : Lacks b'#' digits
  pub number_is : positive_int digits ≡ some at.number

numbered-some :
    (owner repo : Text) (n : Option ℕ) {at : Coordinate}
    → numbered owner repo n ≡ some at
    → (owner ≡ at.owner) × (repo ≡ at.repo) × (n ≡ some at.number)
numbered-some owner repo none h = cc
numbered-some owner repo (some n) h =
    let e = some-injective h in (ap (λ c. c.owner) e, ap (λ c. c.repo) e, ap (λ c. some c.number) e)

split_ref-Spells : (ref : Text) {at : Coordinate} → split_ref ref ≡ some at → Spells ref at
unfolding split_ref
split_ref-Spells ref {at} h = elim (Option-cases (cut_last b'#' ref)) [
  | inl none_there ↦ cc (rw none_there at h)
  | inr ((path, digits), hash) ↦ elim (Option-cases (cut_first b'/' path)) [
    | inl no_slash ↦ cc (rw (hash, no_slash) at h)
    | inr ((owner, repo), slash) ↦ elim (Bool-cases (is_empty owner)) [
      | inl unnamed ↦ cc (rw (hash, slash, unnamed) at h)
      | inr named ↦
          let (owner_is, repo_is, number_is) =
            numbered-some owner repo (positive_int digits) (rw (hash, slash, named) at h) in
          let last = cut_last-CutLast b'#' ref hash in
          let first = cut_first-CutFirst b'/' path slash in
          record {
            digits = digits;
            is_it =
                last.is_it ∙ ap (λ p. p ++ (b'#' ∷ digits)) (first.is_it ∙ cc (owner_is, repo_is));
            owner_lacks = rw owner_is at first.lacks;
            owner_named = rw owner_is at named;
            digits_lack = last.lacks;
            number_is = number_is;
          }
    ]
  ]
]

Spells-split_ref : (ref : Text) (at : Coordinate) → Spells ref at → split_ref ref ≡ some at
unfolding split_ref
Spells-split_ref ref at s = rw (
  s.is_it,
  CutLast-cut_last b'#' (at.owner ++ (b'/' ∷ at.repo)) s.digits s.digits_lack,
  CutFirst-cut_first b'/' at.owner at.repo s.owner_lacks,
  s.owner_named,
  s.number_is,
)

-- SplitRef reads a coordinate from a text exactly when the text spells it: an owner that is not
-- empty and has no slash, a slash, the repository, the last hash sign, and decimal digits of a
-- positive number within 63 bits, a plus sign allowed in front.
pub split_ref_iff : (ref : Text) (at : Coordinate) → (split_ref ref ≡ some at) ↔ Spells ref at
split_ref_iff ref at = (split_ref-Spells ref, Spells-split_ref ref at)
