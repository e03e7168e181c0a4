-- ===== src/Runspace/Named.antt =====
-- What one header line of a diff adds to the targets of `parseDiffTargets`, internal/runspace/patcher.go.
use mathlib.Core.List.{Memᴰ}
use semdev.Base.{
  ◌≡◌, ◌⊎◌, refl, subst, inl, inr, Bool, true, false, ◌||◌, List, [], ◌∷◌, ◌++◌, Option, none, some,
  if◌then◌else◌, Text, codes, same, same_iff, has, has-Memᴰ, ok, >>=-eq-ok, ok-injective,
  Bool-cases, Option-cases, Lacks,
}
use semdev.Admission.Refs.{cut_first}
use semdev.Admission.Splits.{cut_first-CutFirst}
use semdev.Runspace.Diffs.{
  Blocks, is_block, is_unsupported_diff_header, header_of, header_path, strip_p1, named, take_name,
  take_header,
}

-- A header's path is that of no file, or that of one of the files behind its first segment, which
-- ends at the first slash.
abbrev pub Names : List Text → Text → Type 0
Names ts path =
    ((path ≡ []) ⊎ (path ≡ codes "/dev/null"))
    ⊎ ((dir : Text) × (rel : Text) × (path ≡ dir ++ (b'/' ∷ rel)) × Lacks b'/' dir × Memᴰ rel ts)

-- The line opens a block, or it is a header of no kind that git writes by other paths, and names only
-- files among these.
abbrev pub Covered : List Text → Text → Type 0
Covered ts line =
    (is_block line ≡ true)
    ⊎ ((is_unsupported_diff_header line ≡ false)
        × ((raw : Text) → header_of line ≡ some raw → Names ts (header_path raw)))

abbrev pub has_header : Text → Bool
has_header line = elim (header_of line) [ none ↦ false | some raw ↦ true ]

-- A header stands in front of the next block and the end.
abbrev pub header_ahead : List Text → Bool
header_ahead [] = false
header_ahead (l ∷ ls) = if is_block l then false else has_header l || header_ahead ls

-- Every block has a header.
abbrev pub Filled : List Text → Type 0
Filled [] = Unit
Filled (l ∷ ls) = (is_block l ≡ true → header_ahead ls ≡ true) × Filled ls

-- The block that is open has a header, or one is ahead.
abbrev pub Served : Blocks → List Text → Type 0
Served b ls = b.in_git_block ≡ true → b.block_has_content ≡ false → header_ahead ls ≡ true

abbrev pub Among : List Text → List Text → Type 0
Among ts us = (t : Text) → Memᴰ t ts → Memᴰ t us

pub Memᴰ-append : {t : Text} {ts : List Text} (us : List Text) → Memᴰ t ts → Memᴰ t (ts ++ us)
Memᴰ-append us (Memᴰ.head e) = Memᴰ.head e
Memᴰ-append us (Memᴰ.tail m) = Memᴰ.tail (Memᴰ-append us m)

Memᴰ-last : (ts : List Text) (t : Text) → Memᴰ t (ts ++ t ∷ [])
Memᴰ-last [] t = Memᴰ.head refl
Memᴰ-last (s ∷ ts) t = Memᴰ.tail (Memᴰ-last ts t)

with_target-Memᴰ : (b : Blocks) (rel : Text) → Memᴰ rel (take_name b (some rel)).targets
with_target-Memᴰ b rel = elim (Bool-cases (has b.targets rel)) [
  | inl e ↦ rw e (has-Memᴰ b.targets rel e)
  | inr e ↦ rw e (Memᴰ-last b.targets rel)
]

take_name-Among : (b : Blocks) (name : Option Text) → Among b.targets (take_name b name).targets
take_name-Among b none t m = m
take_name-Among b (some rel) t m = elim (Bool-cases (has b.targets rel)) [
  | inl e ↦ rw e m
  | inr e ↦ rw e (Memᴰ-append (rel ∷ []) m)
]

-- What a line without a block adds.
pub record Took (b b' : Blocks) (line : Text) : Type 0 where
  pub names : (raw : Text) → header_of line ≡ some raw → Names b'.targets (header_path raw)
  pub grown : Among b.targets b'.targets
  pub same_block : b'.in_git_block ≡ b.in_git_block
  pub content : b'.block_has_content ≡ (if has_header line then true else b.block_has_content)

strip_p1-cases :
    (p : Text)
    → (strip_p1 p ≡ none)
      ⊎ ((dir : Text) × (rel : Text) × (strip_p1 p ≡ some rel)
          × (p ≡ dir ++ (b'/' ∷ rel))
          × Lacks b'/' dir)
unfolding strip_p1
strip_p1-cases p = elim (Option-cases (cut_first b'/' p)) [
  | inl e ↦ inl (rw (e, strip_p1) refl)
  | inr (cut, e) ↦ inr (
    cut.0,
    cut.1,
    rw (e, strip_p1) refl,
    (cut_first-CutFirst b'/' p {u = cut.0} {v = cut.1} e).is_it,
    (cut_first-CutFirst b'/' p {u = cut.0} {v = cut.1} e).lacks,
  )
]

named-Names :
    (b : Blocks) (path : Text) {name : Option Text}
    → named path ≡ ok name
    → Names (take_name b name).targets path
named-Names b [] h = inl (inl refl)
named-Names b (c ∷ cs) {name} h = elim (Bool-cases (same (c ∷ cs) (codes "/dev/null"))) [
  | inl e ↦ inl (inr ((same_iff (c ∷ cs) (codes "/dev/null")).0 e))
  | inr e ↦ elim (strip_p1-cases (c ∷ cs)) [
    | inl k ↦ cc (rw (e, k) at h)
    | inr (dir, rel, k, is, lacks) ↦
        let is_name : some rel ≡ name = ok-injective (rw (e, k) at h) in
        inr (
          dir,
          rel,
          is,
          lacks,
          subst (λ n. Memᴰ rel (take_name b n).targets) is_name (with_target-Memᴰ b rel),
        )
  ]
]

take_name-content : (b : Blocks) (name : Option Text) → (take_name b name).block_has_content ≡ true
take_name-content b none = refl
take_name-content b (some rel) = refl

take_name-block :
    (b : Blocks) (name : Option Text) → (take_name b name).in_git_block ≡ b.in_git_block
take_name-block b none = refl
take_name-block b (some rel) = refl

pub take_header-Took :
    (b : Blocks) (line : Text) {b' : Blocks}
    → take_header b (header_of line) ≡ ok b'
    → Took b b' line
unfolding header_of
take_header-Took b line {b'} h = elim (Option-cases (header_of line)) [
  | inl e ↦
      subst (λ x. Took b x line) (ok-injective (rw e at h))
        (record {
          names = λ raw k. cc (e, k);
          grown = λ t m. m;
          same_block = refl;
          content = rw e refl;
        })
  | inr (raw, e) ↦
      let (name, is, k) =
        >>=-eq-ok (named (header_path raw)) (λ name. ok (take_name b name)) (rw e at h) in
      subst (λ x. Took b x line) (ok-injective k)
        (record {
          names = λ raw' k.
              subst (λ r. Names (take_name b name).targets (header_path r)) (cc (e, k))
                (named-Names b (header_path raw) is);
          grown = take_name-Among b name;
          same_block = take_name-block b name;
          content = rw e (take_name-content b name);
        })
]
