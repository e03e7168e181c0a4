-- ===== src/Openspec/Trimmed.antt =====
-- Trimming, splitting and joining, as the parsers of internal/openspec/parse.go do.
use semdev.Base.{
  ℕ, ◌≡◌, refl, sym, ap, ◌∙◌, subst, inl, inr, false, List, [], ◌∷◌, ◌++◌, arith, Text, Bool-cases,
  List-cases, All, Lacks, is_space, trim_left, trim_right, put_unless_space, trim_space,
  trim_space-trim_right, trim_left-fixed, split, in_front, join, ◌==◌, ==_iff,
}
use semdev.Openspec.Lines.{in_cutset, put_unless_cut, trim_end}
use semdev.Openspec.Spec.{newline}

not_cut_of_solid : (c : ℕ) → is_space c ≡ false → in_cutset c ≡ false
unfolding is_space in_cutset
not_cut_of_solid c h = ground arith

trim_right-trim_end : (t : Text) → trim_right t ≡ t → trim_end t ≡ t
unfolding trim_right trim_end
trim_right-trim_end [] h = refl
trim_right-trim_end (c ∷ cs) h = elim (List-cases (trim_right cs)) [
  | inl e ↦ elim (Bool-cases (is_space c)) [
    | inl space ↦ cc (rw (e, put_unless_space, space) at h)
    | inr solid ↦
        let last : cs ≡ [] = cc (rw (e, put_unless_space, solid) at h) in
        subst (λ r. put_unless_cut c (trim_end r) ≡ c ∷ r) (sym last)
          (rw (not_cut_of_solid c solid) refl)
  ]
  | inr (d, r, e) ↦
      let same_rest : d ∷ r ≡ cs = cc (rw (e, put_unless_space) at h) in
      subst (λ r. put_unless_cut c (trim_end r) ≡ c ∷ r) same_rest
        (rw (subst (λ r. trim_end r ≡ r) (sym same_rest) (trim_right-trim_end cs (e ∙ same_rest)))
          refl)
]

put_unless_cut-append :
    (c : ℕ) (p : Text) (d : ℕ) (r : Text) → put_unless_cut c (p ++ d ∷ r) ≡ c ∷ (p ++ d ∷ r)
put_unless_cut-append c [] d r = refl
put_unless_cut-append c (b ∷ p) d r = refl

trim_end-append :
    (p : Text) (d : ℕ) (r : Text) → trim_end (d ∷ r) ≡ d ∷ r → trim_end (p ++ d ∷ r) ≡ p ++ d ∷ r
unfolding trim_end
trim_end-append [] d r h = h
trim_end-append (c ∷ p) d r h =
    ap (put_unless_cut c) (trim_end-append p d r h) ∙ put_unless_cut-append c p d r

-- A text that begins and ends with no space, or is empty.
abbrev pub IsTrimmed : Text → Type 0
IsTrimmed t = trim_space t ≡ t

-- What stands behind a prefix that ends in a space is there when the line is cut at its end.
pub trim_end-prefix :
    (p : Text) (d : ℕ) (r : Text) → IsTrimmed (d ∷ r) → trim_end (p ++ d ∷ r) ≡ p ++ d ∷ r
trim_end-prefix p d r h =
    trim_end-append p d r (trim_right-trim_end (d ∷ r) (trim_space-trim_right (d ∷ r) h))

put_unless_space-append :
    (c : ℕ) (p : Text) (d : ℕ) (r : Text) → put_unless_space c (p ++ d ∷ r) ≡ c ∷ (p ++ d ∷ r)
put_unless_space-append c [] d r = refl
put_unless_space-append c (b ∷ p) d r = refl

trim_right-append :
    (p : Text) (d : ℕ) (r : Text)
    → trim_right (d ∷ r) ≡ d ∷ r
    → trim_right (p ++ d ∷ r) ≡ p ++ d ∷ r
unfolding trim_right
trim_right-append [] d r h = h
trim_right-append (c ∷ p) d r h =
    ap (put_unless_space c) (trim_right-append p d r h) ∙ put_unless_space-append c p d r

-- A text that begins with no space in front of a trimmed one is trimmed.
pub IsTrimmed-append :
    (c : ℕ) (p : Text) (d : ℕ) (r : Text)
    → is_space c ≡ false
    → IsTrimmed (d ∷ r)
    → IsTrimmed (c ∷ (p ++ d ∷ r))
unfolding trim_space
IsTrimmed-append c p d r solid h =
    ap trim_right (trim_left-fixed (c ∷ (p ++ d ∷ r)) solid)
    ∙ trim_right-append (c ∷ p) d r (trim_space-trim_right (d ∷ r) h)

pub trim_end-IsTrimmed : (t : Text) → IsTrimmed t → trim_end t ≡ t
trim_end-IsTrimmed t h = trim_right-trim_end t (trim_space-trim_right t h)

pub trim_space-space : (t : Text) → IsTrimmed t → trim_space (32 ∷ t) ≡ t
unfolding trim_space trim_left is_space
trim_space-space t h = h

-- Splitting at the newlines, and joining again.
-- A text is split in at least one piece.
pub split-filled : (t : Text) → (l : Text) × (ls : List Text) × (split 10 t ≡ l ∷ ls)
unfolding split
split-filled [] = ([], [], refl)
split-filled (c ∷ cs) = elim (Bool-cases (c == 10)) [
  | inl e ↦ ([], split 10 cs, rw e refl)
  | inr e ↦ let (l, ls, is) = split-filled cs in (c ∷ l, ls, rw (e, is) refl)
]

pub split-put_line : (t rest : Text) → split 10 (t ++ (10 ∷ rest)) ≡ split 10 t ++ split 10 rest
unfolding split
split-put_line [] rest = refl
split-put_line (c ∷ cs) rest = elim (Bool-cases (c == 10)) [
  | inl e ↦ rw e (ap (λ x. [] ∷ x) (split-put_line cs rest))
  | inr e ↦ let (l, ls, is) = split-filled cs in rw (e, split-put_line cs rest, is) refl
]

pub split-Lacks : (t : Text) → Lacks 10 t → split 10 t ≡ t ∷ []
unfolding split
split-Lacks [] h = refl
split-Lacks (c ∷ cs) (here, rest) = rw (here, split-Lacks cs rest) refl

pub split-All-Lacks : (t : Text) → All (Lacks 10) (split 10 t)
unfolding split
split-All-Lacks [] = (tt, tt)
split-All-Lacks (c ∷ cs) = elim (Bool-cases (c == 10)) [
  | inl e ↦ rw e (tt, split-All-Lacks cs)
  | inr e ↦
      let (l, ls, is) = split-filled cs in
      let h : All (Lacks 10) (l ∷ ls) = subst (All (Lacks 10)) is (split-All-Lacks cs) in
      rw (e, is) ((e, h.0), h.1)
]

pub split-join :
    (l : Text) (ls : List Text)
    → All (Lacks 10) (l ∷ ls)
    → split 10 (join newline (l ∷ ls)) ≡ l ∷ ls
unfolding join
split-join l [] (h, _) = split-Lacks l h
split-join l (m ∷ ls) (h, hs) =
    split-put_line l (join newline (m ∷ ls)) ∙ rw (split-Lacks l h, split-join m ls hs) refl

join-in_front :
    (c : ℕ) (l : Text) (ls : List Text)
    → join newline (in_front c (l ∷ ls)) ≡ c ∷ join newline (l ∷ ls)
unfolding join
join-in_front c l [] = refl
join-in_front c l (m ∷ ls) = refl

pub join-split : (t : Text) → join newline (split 10 t) ≡ t
unfolding join split
join-split [] = refl
join-split (c ∷ cs) = elim (Bool-cases (c == 10)) [
  | inl e ↦
      let (l, ls, is) = split-filled cs in
      let h : join newline (l ∷ ls) ≡ cs = subst (λ x. join newline x ≡ cs) is (join-split cs) in
      rw (e, is) (ap (λ x. 10 ∷ x) h ∙ ap (λ x. x ∷ cs) (sym ((==_iff c 10).0 e)))
  | inr e ↦
      let (l, ls, is) = split-filled cs in
      let h : join newline (l ∷ ls) ≡ cs = subst (λ x. join newline x ≡ cs) is (join-split cs) in
      rw (e, is) (join-in_front c l ls ∙ ap (λ x. c ∷ x) h)
]
