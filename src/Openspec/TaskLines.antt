-- ===== src/Openspec/TaskLines.antt =====
-- The tasks of internal/openspec: how `parseTaskBullet` reads what `RenderTasks` writes.
use semdev.Base.{
  ℕ, ◌≡◌, ◌⊎◌, refl, sym, ap, ◌∙◌, subst, inl, inr, Bool, true, false, [], ◌∷◌, ◌++◌, Option, some,
  none, append_assoc, Option-cases, Bool-cases, List-cases, and-true, if◌then◌else◌, Text, codes,
  is_empty, is_space, all, trim_space, trim_left, trim_right, put_unless_space, Lacks, Lacks-append,
  arith,
}
use semdev.Admission.Refs.{cut_first}
use semdev.Admission.Splits.{cut_first-CutFirst, CutFirst-cut_first}
use semdev.Openspec.Model.{Task}
use semdev.Openspec.Lines.{cut_prefix, bullet_body}
use semdev.Openspec.Tasks.{
  prose, line_of, read_line, is_number_rune, is_task_number, whole_number, number_in_front,
  split_task_number, task_of, task_in, parse_task_bullet, task_content, box, spaced,
}
use semdev.Openspec.Trimmed.{IsTrimmed, IsTrimmed-append, trim_end-prefix, trim_space-space}
use semdev.Openspec.Canonical.{IsName}
use semdev.Openspec.Words.{cut_prefix-some, Lacks-behind, trim_space-IsName}
use semdev.Openspec.Bullets.{bullet_body-IsBullet}

-- A task that is what its content is read as.
pub record IsTask (t : Task) : Type 0 where
  pub name : IsName (task_content t)
  pub reads : split_task_number (task_content t) ≡ (t.number, t.text)

pub read_line-box :
    (done : Bool) (c : Text)
    → IsTrimmed c
    → read_line (box done ++ spaced c) ≡ prose (box done ++ spaced c)
unfolding read_line is_space trim_space
read_line-box true [] h = refl
read_line-box false [] h = refl
read_line-box true (d ∷ r) h =
    ap line_of (trim_end-prefix (codes "- [x] ") d r h)
    ∙ rw (IsTrimmed-append b'-' (codes " [x] ") d r refl h) refl
read_line-box false (d ∷ r) h =
    ap line_of (trim_end-prefix (codes "- [ ] ") d r h)
    ∙ rw (IsTrimmed-append b'-' (codes " [ ] ") d r refl h) refl

-- The checkbox of a bullet comes off.
pub parse_task_bullet-box :
    (done : Bool) (c : Text)
    → IsTrimmed c
    → parse_task_bullet (box done ++ spaced c) ≡ some (task_of done (split_task_number c))
unfolding parse_task_bullet bullet_body is_space trim_space
parse_task_bullet-box true [] h = refl
parse_task_bullet-box false [] h = refl
parse_task_bullet-box true (d ∷ r) h =
    ap (λ b. some (task_in b)) (IsTrimmed-append b'[' (codes "x] ") d r refl h)
    ∙ ap (λ b. some (task_of true (split_task_number b))) (trim_space-space (d ∷ r) h)
parse_task_bullet-box false (d ∷ r) h =
    ap (λ b. some (task_in b)) (IsTrimmed-append b'[' (codes " ] ") d r refl h)
    ∙ ap (λ b. some (task_of false (split_task_number b))) (trim_space-space (d ∷ r) h)

number_rune-solid : (c : ℕ) → is_number_rune c ≡ true → is_space c ≡ false
unfolding is_space
number_rune-solid c h = ground arith

put_solid : (c : ℕ) (cs : Text) → is_space c ≡ false → put_unless_space c cs ≡ c ∷ cs
put_solid c [] h = rw h refl
put_solid c (d ∷ r) h = refl

number-trim_right : (s : Text) → all is_number_rune s ≡ true → trim_right s ≡ s
unfolding trim_right
number-trim_right [] h = refl
number-trim_right (c ∷ cs) h =
    let (here, rest) = and-true (is_number_rune c) (all is_number_rune cs) h in
    ap (put_unless_space c) (number-trim_right cs rest) ∙ put_solid c cs (number_rune-solid c here)

number-IsTrimmed : (s : Text) → all is_number_rune s ≡ true → IsTrimmed s
unfolding trim_space trim_left
number-IsTrimmed [] h = refl
number-IsTrimmed (c ∷ cs) h =
    rw (number_rune-solid c (and-true (is_number_rune c) (all is_number_rune cs) h).0)
      (number-trim_right (c ∷ cs) h)

Lacks-cut_first : (c : ℕ) (t : Text) → Lacks c t → cut_first c t ≡ none
unfolding cut_first
Lacks-cut_first c [] h = refl
Lacks-cut_first c (d ∷ ds) (here, rest) = rw (here, Lacks-cut_first c ds rest) refl

-- A number in front of a text, as the content of a task.
numbered : Text → Text → Text
numbered head text = if is_empty text then head else head ++ (32 ∷ text)

is_number_filled : (s : Text) → is_task_number s ≡ true → is_empty s ≡ false
unfolding is_task_number
is_number_filled [] h = cc
is_number_filled (c ∷ cs) h = refl

numbered-IsName :
    (head text : Text)
    → is_task_number head ≡ true
    → Lacks 10 head
    → IsName text
    → IsName (numbered head text)
unfolding numbered is_task_number
numbered-IsName [] text h k name = cc
numbered-IsName (c ∷ p) [] h k name =
    (number-IsTrimmed (c ∷ p) (and-true (all is_number_rune (c ∷ p)) _ h).0, k)
numbered-IsName (c ∷ p) (d ∷ r) h k name =
    let runes = (and-true (all is_number_rune (c ∷ p)) _ h).0 in
    let solid = number_rune-solid c (and-true (is_number_rune c) (all is_number_rune p) runes).0 in
    (
      subst (λ u. IsTrimmed (c ∷ u)) (append_assoc p (32 ∷ []) (d ∷ r))
          (IsTrimmed-append c (p ++ 32 ∷ []) d r solid name.0),
      Lacks-append 10 (c ∷ p) (32 ∷ d ∷ r) k (refl, name.1),
    )

numbered-reads :
    (head text : Text)
    → is_task_number head ≡ true
    → Lacks 32 head
    → IsTrimmed text
    → split_task_number (numbered head text) ≡ (head, text)
unfolding split_task_number numbered
numbered-reads head [] h k trimmed = rw (Lacks-cut_first 32 head k, h) refl
numbered-reads head (d ∷ r) h k trimmed =
    rw (CutFirst-cut_first 32 head (d ∷ r) k, h) (ap (λ x. (head, x)) trimmed)

task_content-numbered :
    (done : Bool) (head text : Text)
    → is_empty head ≡ false
    → task_content (task_of done (head, text)) ≡ numbered head text
unfolding task_content numbered
task_content-numbered done [] text h = cc
task_content-numbered done (c ∷ cs) [] h = refl
task_content-numbered done (c ∷ cs) (d ∷ r) h = refl

-- A text that no number is cut off.
task_content-whole : (done : Bool) (s : Text) → task_content (task_of done (whole_number s)) ≡ s
unfolding task_content
task_content-whole done s = elim (Bool-cases (is_task_number s)) [
  | inr e ↦ rw e refl
  | inl e ↦ elim (List-cases s) [
    | inl empty ↦ cc (is_number_filled s e, ap is_empty empty)
    | inr (c, cs, is) ↦ rw e (subst (λ s. task_content (task_of done (s, [])) ≡ s) (sym is) refl)
  ]
]

whole-IsTask :
    (done : Bool) (s : Text)
    → IsName s
    → split_task_number s ≡ whole_number s
    → IsTask (task_of done (whole_number s))
whole-IsTask done s name is =
    let whole = task_content-whole done s in
    record { name = subst IsName (sym whole) name; reads = ap split_task_number whole ∙ is }

Lacks-front : (c : ℕ) (p r : Text) → Lacks c (p ++ r) → Lacks c p
Lacks-front c [] r h = tt
Lacks-front c (d ∷ p) r (here, h) = (here, Lacks-front c p r h)

split-cut :
    (s : Text) {cut : Option (Text × Text)}
    → cut_first 32 s ≡ cut
    → split_task_number s ≡ number_in_front s cut
unfolding split_task_number
split-cut s e = ap (number_in_front s) e

-- What a text is split into is read back from the content of the task.
pub split-IsTask : (done : Bool) (s : Text) → IsName s → IsTask (task_of done (split_task_number s))
split-IsTask done s name = elim (Option-cases (cut_first 32 s)) [
  | inl e ↦
      let is : split_task_number s ≡ whole_number s = split-cut s e in
      subst (λ x. IsTask (task_of done x)) (sym is) (whole-IsTask done s name is)
  | inr (cut, e) ↦ at_space cut.0 cut.1 e (Bool-cases (is_task_number cut.0))
]
  where
    at_space :
        (head rest : Text)
        → cut_first 32 s ≡ some (head, rest)
        → (is_task_number head ≡ true) ⊎ (is_task_number head ≡ false)
        → IsTask (task_of done (split_task_number s))
    at_space head rest e (inr other) =
        let is : split_task_number s ≡ whole_number s = split-cut s e ∙ rw other refl in
        subst (λ x. IsTask (task_of done x)) (sym is) (whole-IsTask done s name is)
    at_space head rest e (inl number) =
        let text = trim_space rest in
        let cut = cut_first-CutFirst 32 s {u = head} {v = rest} e in
        let one_line : Lacks 10 (head ++ (32 ∷ rest)) = subst (Lacks 10) cut.is_it name.1 in
        let text_name = trim_space-IsName rest (Lacks-behind 10 head (32 ∷ rest) one_line).1 in
        let is : split_task_number s ≡ (head, text) = split-cut s e ∙ rw number refl in
        let content = task_content-numbered done head text (is_number_filled head number) in
        subst (λ x. IsTask (task_of done x)) (sym is)
          (record {
            name = subst IsName (sym content) (
                numbered-IsName head text number (Lacks-front 10 head (32 ∷ rest) one_line)
                  text_name);
            reads =
                ap split_task_number content
                ∙ numbered-reads head text number cut.lacks text_name.0;
          })

box-IsTask :
    (done : Bool) (body p rest : Text)
    → IsName body
    → cut_prefix body p ≡ some rest
    → IsTask (task_of done (split_task_number (trim_space rest)))
box-IsTask done body p rest name e = split-IsTask done (trim_space rest) (
    trim_space-IsName rest
      (Lacks-behind 10 p rest (subst (Lacks 10) (cut_prefix-some body p e) name.1)))

task_in-IsTask : (body : Text) → IsName body → IsTask (task_in body)
unfolding task_in
task_in-IsTask body name = elim (Option-cases (cut_prefix body (codes "[x]"))) [
  | inr (rest, e) ↦ rw e (box-IsTask true body (codes "[x]") rest name e)
  | inl small ↦ elim (Option-cases (cut_prefix body (codes "[X]"))) [
    | inr (rest, e) ↦ rw (small, e) (box-IsTask true body (codes "[X]") rest name e)
    | inl large ↦ elim (Option-cases (cut_prefix body (codes "[ ]"))) [
      | inr (rest, e) ↦ rw (small, large, e) (box-IsTask false body (codes "[ ]") rest name e)
      | inl e ↦ rw (small, large, e) (split-IsTask false body name)
    ]
  ]
]

-- A bullet is read as a task that is read back.
pub parse_task_bullet-IsTask :
    (line : Text) {t : Task} → IsName line → parse_task_bullet line ≡ some t → IsTask t
unfolding parse_task_bullet
parse_task_bullet-IsTask line {t} name h = elim (Option-cases (bullet_body line)) [
  | inl e ↦ cc (rw e at h)
  | inr (body, e) ↦
      let b = bullet_body-IsBullet line e in
      let rest_name = trim_space-IsName b.rest (subst (Lacks 10) b.is_it name.1).1.1 in
      subst IsTask (the_task body e) (task_in-IsTask body (subst IsName (sym b.body_is) rest_name))
]
  where
    the_task : (body : Text) → bullet_body line ≡ some body → task_in body ≡ t
    the_task body e = cc (rw e at h)
