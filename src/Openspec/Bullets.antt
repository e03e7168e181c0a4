-- ===== src/Openspec/Bullets.antt =====
-- The steps that `parseStep` of internal/openspec/parse.go makes of bullets.
use mathlib.Core.List.{Memᴰ}
use semdev.Base.{
  ℕ, ◌≡◌, ◌≢◌, refl, sym, ap, ◌∙◌, subst, inl, inr, Bool, true, false, [], ◌∷◌, ◌++◌, some,
  Option-cases, append_assoc, Bool-cases, List-cases, if◌then◌else◌, ◌==◌, Text, codes, is_empty,
  is_space, same, has, has-Memᴰ, trim_space, trim_left, trim_right, put_unless_space,
  trim_space-trim_right, Lacks, Lacks-append, lacks, lacks-Lacks,
}
use semdev.Openspec.Model.{Step}
use semdev.Openspec.Lines.{
  cut_prefix, bullet_body, parse_step, step_of, cut_space, to_upper, scenario_step_keywords,
}
use semdev.Openspec.Spec.{step_text}
use semdev.Openspec.Trimmed.{IsTrimmed, IsTrimmed-append}
use semdev.Openspec.Canonical.{IsName, IsStep}
use semdev.Openspec.Words.{cut_prefix-some, trim_space-IsName, trim_right-blank}

put_unless_space-short : (c : ℕ) (r : Text) → put_unless_space c [] ≢ c ∷ 32 ∷ r
put_unless_space-short c r h = elim (Bool-cases (is_space c)) [
  | inl e ↦ cc (rw e at h)
  | inr e ↦ cc (rw e at h)
]

-- A bullet that is trimmed has a text.
pub bullet_filled :
    (c : ℕ) (rest : Text) → IsTrimmed (c ∷ 32 ∷ rest) → is_empty (trim_space rest) ≡ false
unfolding trim_right is_space
bullet_filled c rest h = elim (List-cases (trim_space rest)) [
  | inl e ↦ absurd (
      put_unless_space-short c rest (
        ap (λ r. put_unless_space c (put_unless_space 32 r)) (sym (trim_right-blank rest e))
        ∙ trim_space-trim_right (c ∷ 32 ∷ rest) h))
  | inr (d, r, e) ↦ rw e refl
]

pub record IsBullet (t body : Text) : Type 0 where
  pub rest : Text
  pub mark : ℕ
  pub is_it : t ≡ mark ∷ 32 ∷ rest
  pub body_is : body ≡ trim_space rest

pub bullet_body-IsBullet : (t : Text) {body : Text} → bullet_body t ≡ some body → IsBullet t body
unfolding bullet_body
bullet_body-IsBullet t {body} h = elim (Option-cases (cut_prefix t (codes "- "))) [
  | inr (rest, e) ↦ bullet b'-' rest (cut_prefix-some t (codes "- ") e) (rw e at h)
  | inl dash ↦ elim (Option-cases (cut_prefix t (codes "* "))) [
    | inr (rest, e) ↦ bullet b'*' rest (cut_prefix-some t (codes "* ") e) (rw (dash, e) at h)
    | inl star ↦ elim (Option-cases (cut_prefix t (codes "+ "))) [
      | inr (rest, e) ↦
          bullet b'+' rest (cut_prefix-some t (codes "+ ") e) (rw (dash, star, e) at h)
      | inl plus ↦ cc (rw (dash, star, plus) at h)
    ]
  ]
]
  where
    bullet :
        (c : ℕ) (rest : Text)
        → t ≡ c ∷ 32 ∷ rest
        → some (trim_space rest) ≡ some body
        → IsBullet t body
    bullet c rest e k = record { rest = rest; mark = c; is_it = e; body_is = cc k }

-- A text whose first word is a keyword is read as that step.
keyword-reads :
    (t kw rest x : Text)
    → IsTrimmed t
    → cut_space t ≡ (kw, rest)
    → to_upper kw ≡ kw
    → has scenario_step_keywords kw ≡ true
    → trim_space rest ≡ x
    → parse_step t ≡ record { keyword = kw; text = x }
unfolding parse_step
keyword-reads t kw rest x trimmed cut upper known behind =
    ap (λ u. step_of u (cut_space u)) trimmed
    ∙ ap (step_of t) cut
    ∙ ap (λ k. step_with k (has scenario_step_keywords k)) upper
    ∙ ap (step_with kw) known
    ∙ ap (λ y. the_step kw y) behind
  where
    the_step : Text → Text → Step
    the_step k y = record { keyword = k; text = y }

    step_with : Text → Bool → Step
    step_with k b = if b then the_step k (trim_space rest) else the_step [] t

record Keyword (c : ℕ) (p : Text) : Type 0 where
  solid : is_space c ≡ false
  one_line : lacks 10 (c ∷ p) ≡ true
  trimmed : IsTrimmed (c ∷ p)
  alone : cut_space (c ∷ p) ≡ (c ∷ p, [])
  cut : (x : Text) → cut_space ((c ∷ p) ++ (32 ∷ x)) ≡ (c ∷ p, x)
  upper : to_upper (c ∷ p) ≡ c ∷ p
  known : has scenario_step_keywords (c ∷ p) ≡ true

Keyword-IsStep :
    (c : ℕ) (p x : Text) → Keyword c p → IsName x → IsStep (record { keyword = c ∷ p; text = x })
unfolding step_text
Keyword-IsStep c p [] k h = record {
  name = (k.trimmed, lacks-Lacks 10 (c ∷ p) k.one_line);
  filled = refl;
  reads = keyword-reads (c ∷ p) (c ∷ p) [] [] k.trimmed k.alone k.upper k.known h.0;
}
Keyword-IsStep c p (d ∷ r) k h =
    let trimmed : IsTrimmed ((c ∷ p) ++ (32 ∷ d ∷ r)) =
      subst (λ t. IsTrimmed (c ∷ t)) (append_assoc p (32 ∷ []) (d ∷ r))
        (IsTrimmed-append c (p ++ 32 ∷ []) d r k.solid h.0) in
    record {
      name = (
        trimmed,
        Lacks-append 10 (c ∷ p) (32 ∷ d ∷ r) (lacks-Lacks 10 (c ∷ p) k.one_line) (refl, h.1),
      );
      filled = refl;
      reads =
          keyword-reads ((c ∷ p) ++ (32 ∷ d ∷ r)) (c ∷ p) (d ∷ r) (d ∷ r) trimmed (k.cut (d ∷ r))
            k.upper k.known h.0;
    }

given-Keyword : Keyword b'G' (codes "IVEN")
unfolding has same cut_space trim_space is_space trim_left trim_right
given-Keyword = record {
  solid = refl;
  one_line = refl;
  trimmed = refl;
  alone = refl;
  cut = λ x. refl;
  upper = refl;
  known = refl;
}

when-Keyword : Keyword b'W' (codes "HEN")
unfolding has same cut_space trim_space is_space trim_left trim_right
when-Keyword = record {
  solid = refl;
  one_line = refl;
  trimmed = refl;
  alone = refl;
  cut = λ x. refl;
  upper = refl;
  known = refl;
}

then-Keyword : Keyword b'T' (codes "HEN")
unfolding has same cut_space trim_space is_space trim_left trim_right
then-Keyword = record {
  solid = refl;
  one_line = refl;
  trimmed = refl;
  alone = refl;
  cut = λ x. refl;
  upper = refl;
  known = refl;
}

and-Keyword : Keyword b'A' (codes "ND")
unfolding has same cut_space trim_space is_space trim_left trim_right
and-Keyword = record {
  solid = refl;
  one_line = refl;
  trimmed = refl;
  alone = refl;
  cut = λ x. refl;
  upper = refl;
  known = refl;
}

is_known :
    {kw x : Text} {c : ℕ} {p : Text}
    → kw ≡ c ∷ p
    → Keyword c p
    → IsName x
    → IsStep (record { keyword = kw; text = x })
is_known {x} {c} {p} e k h =
    subst (λ w. IsStep (record { keyword = w; text = x })) (sym e) (Keyword-IsStep c p x k h)

known-IsStep :
    (kw x : Text)
    → Memᴰ kw scenario_step_keywords
    → IsName x
    → IsStep (record { keyword = kw; text = x })
known-IsStep kw x (Memᴰ.head e) h = is_known e given-Keyword h
known-IsStep kw x (Memᴰ.tail (Memᴰ.head e)) h = is_known e when-Keyword h
known-IsStep kw x (Memᴰ.tail (Memᴰ.tail (Memᴰ.head e))) h = is_known e then-Keyword h
known-IsStep kw x (Memᴰ.tail (Memᴰ.tail (Memᴰ.tail (Memᴰ.head e)))) h = is_known e and-Keyword h
known-IsStep kw x (Memᴰ.tail (Memᴰ.tail (Memᴰ.tail (Memᴰ.tail e)))) h = elim e [ ]

Lacks-cut_space : (c : ℕ) (t : Text) → Lacks c t → Lacks c (cut_space t).1
unfolding cut_space
Lacks-cut_space c [] h = tt
Lacks-cut_space c (d ∷ ds) h = elim (Bool-cases (d == 32)) [
  | inl e ↦ rw e h.1
  | inr e ↦ rw e (Lacks-cut_space c ds h.1)
]

-- What a bullet is read as is read back from what it is written as.
pub parse_step-IsStep : (t : Text) → IsName t → is_empty t ≡ false → IsStep (parse_step t)
unfolding parse_step step_text
parse_step-IsStep t h filled =
    let head = (cut_space t).0 in
    let text = trim_space (cut_space t).1 in
    let e : parse_step t ≡ step_of t (cut_space t) = ap (λ u. step_of u (cut_space u)) h.0 in
    elim (Bool-cases (has scenario_step_keywords (to_upper head))) [
      | inl known ↦
          let is : parse_step t ≡ record { keyword = to_upper head; text = text } =
            e ∙ rw known refl in
          subst IsStep (sym is) (
            known-IsStep (to_upper head) text
              (has-Memᴰ scenario_step_keywords (to_upper head) known)
              (trim_space-IsName (cut_space t).1 (Lacks-cut_space 10 t h.1)))
      | inr unknown ↦
          let is : parse_step t ≡ record { keyword = []; text = t } = e ∙ rw unknown refl in
          subst IsStep (sym is) (record { name = h; filled = filled; reads = is })
    ]
