-- ===== src/Runspace/Pathguard.antt =====
-- The containment guard of internal/pathguard/pathguard.go. A checkout root is an absolute path that is
-- clean, held as its segments; `filepath.Join` cleans the segments behind it, and `filepath.Rel` of a
-- path that does not lie below the root starts with `..`.
use mathlib.Core.List.{reverse, reverse-append}
use semdev.Base.{
  ◌≡◌, sym, ◌∙◌, inl, inr, false, ◌||◌, List, [], ◌∷◌, ◌++◌, Option, none, some, if◌then◌else◌,
  Text, codes, same, same_iff, is_empty, split, has_prefix, All, Result, ok, err, Bool-cases,
  Option-cases, All-append, subst,
}

pub data PathError : Type 0 where
  absolute : Text → PathError
  escapes : Text → PathError

abbrev parent : List Text → List Text
parent [] = []
parent (s ∷ up) = up

-- The segments behind one more.
unfoldable pub ahead : List Text → Text → List Text
unfolding same
ahead up s =
    if is_empty s || same s (codes ".")
    then up
    else if same s (codes "..")
    then parent up
    else s ∷ up

-- `filepath.Clean` of an absolute path, with the segments in front, the last one first.
unfoldable pub walk : List Text → List Text → List Text
unfolding ahead
walk up [] = up
walk up (s ∷ ss) = walk (ahead up s) ss

-- What lies behind the root, if the path lies below it.
unfoldable pub below : List Text → List Text → Option (List Text)
unfolding same
below [] path = some path
below (r ∷ root) [] = none
below (r ∷ root) (p ∷ path) = if same r p then below root path else none

-- `SafeJoin`
unfoldable pub safe_join : List Text → Text → Result PathError (List Text)
unfolding walk below has_prefix split
safe_join root rel =
    if has_prefix rel (codes "/")
    then err (absolute rel)
    else (let path = reverse (walk (reverse root) (split b'/' rel)) in
        elim (below root path) [ none ↦ err (escapes rel) | some within ↦ ok path ])

below-append :
    (root path : List Text) {within : List Text}
    → below root path ≡ some within
    → path ≡ root ++ within
unfolding below
below-append [] path h = cc
below-append (r ∷ root) [] h = cc
below-append (r ∷ root) (p ∷ path) h = elim (Bool-cases (same r p)) [
  | inl e ↦ cc ((same_iff r p).0 e, below-append root path (rw e at h))
  | inr e ↦ cc (rw e at h)
]

-- A segment of a path that is clean.
abbrev pub IsSegment : Text → Type 0
IsSegment s = (is_empty s ≡ false) × (same s (codes ".") ≡ false) × (same s (codes "..") ≡ false)

parent-All : (up : List Text) → All IsSegment up → All IsSegment (parent up)
parent-All [] h = tt
parent-All (s ∷ up) h = h.1

ahead-All : (up : List Text) (s : Text) → All IsSegment up → All IsSegment (ahead up s)
unfolding ahead
ahead-All up s h = elim (Bool-cases (is_empty s)) [
  | inl e ↦ rw e h
  | inr filled ↦ elim (Bool-cases (same s (codes "."))) [
    | inl e ↦ rw (filled, e) h
    | inr dot ↦ elim (Bool-cases (same s (codes ".."))) [
      | inl e ↦ rw (filled, dot, e) (parent-All up h)
      | inr dots ↦ rw (filled, dot, dots) ((filled, dot, dots), h)
    ]
  ]
]

walk-All : (up ss : List Text) → All IsSegment up → All IsSegment (walk up ss)
unfolding walk
walk-All up [] h = h
walk-All up (s ∷ ss) h = walk-All (ahead up s) ss (ahead-All up s h)

All-reverse : (ss : List Text) → All IsSegment ss → All IsSegment (reverse ss)
All-reverse [] h = tt
All-reverse (s ∷ ss) (h, hs) =
    subst (All IsSegment) (sym (reverse-append (s ∷ []) ss))
      (All-append IsSegment (reverse ss) (s ∷ []) (All-reverse ss hs) (h, tt))

All-behind : (root within : List Text) → All IsSegment (root ++ within) → All IsSegment within
All-behind [] within h = h
All-behind (r ∷ root) within h = All-behind root within h.1

-- A path below the root, with no way back up.
pub record Inside (root path : List Text) : Type 0 where
  pub within : List Text
  pub is_it : path ≡ root ++ within
  pub clean : All IsSegment within

-- Under a root that is a clean absolute path, a path that SafeJoin gives is the root followed by
-- segments none of which is empty, a dot or two dots.
pub safe_join-Inside :
    (root : List Text) (rel : Text) {path : List Text}
    → All IsSegment root
    → safe_join root rel ≡ ok path
    → Inside root path
unfolding safe_join
safe_join-Inside root rel {path} clean h = elim (Bool-cases (has_prefix rel (codes "/"))) [
  | inl e ↦ cc (rw e at h)
  | inr e ↦ joined (rw e at h)
]
  where
    walked : List Text
    walked = reverse (walk (reverse root) (split b'/' rel))

    segments : All IsSegment walked
    segments = All-reverse _ (walk-All (reverse root) (split b'/' rel) (All-reverse root clean))

    joined :
        ◌≡◌ {A = Result PathError (List Text)}
          (elim (below root walked) [ none ↦ err (escapes rel) | some within ↦ ok walked ])
          (ok path)
        → Inside root path
    joined k = elim (Option-cases (below root walked)) [
      | inl e ↦ cc (rw e at k)
      | inr (within, e) ↦
          let is : walked ≡ path = cc (rw e at k) in
          let split_up = below-append root walked e in
          record {
            within = within;
            is_it = sym is ∙ split_up;
            clean = All-behind root within (subst (All IsSegment) split_up segments);
          }
    ]
