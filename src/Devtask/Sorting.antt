-- ===== src/Devtask/Sorting.antt =====
-- The sort by index of internal/devtask/project.go: what it keeps, and that distinct indices below the
-- length of the list come out as 0, 1, 2, and so on.
use mathlib.Core.List.{Memᴰ}
use semdev.Base.{
  ℕ, zero, suc, ◌+◌, ◌≤◌, ◌<◌, ◌≡◌, ◌≢◌, refl, sym, ap, ◌∙◌, true, false, List, [], ◌∷◌, length,
  map, subst, All, ℤ, pos, arith, Bool-cases, inl, inr,
}
use semdev.Devtask.{int_lt, insert_by, sort_by}

-- The integers from `k` on, `n` of them.
abbrev pub from : ℕ → ℕ → List ℤ
from k zero = []
from k (suc n) = pos k ∷ from (k + 1) n

pos-injective : {a b : ℕ} → pos a ≡ pos b → a ≡ b
pos-injective h = cc

module _ {A : Type 0} (index_of : A → ℤ) where
  -- The elements stand by rising index, none below `lo`.
  abbrev pub Ascending : ℕ → List A → Type 0
  Ascending lo [] = Unit
  Ascending lo (a ∷ xs) = (i : ℕ) × (index_of a ≡ pos i) × (lo ≤ i) × Ascending (i + 1) xs

  abbrev pub Below : ℕ → List A → Type 0
  Below n xs = All (λ a. (i : ℕ) × (index_of a ≡ pos i) × (i < n)) xs

  -- No element has this index.
  abbrev pub Absent : ℤ → List A → Type 0
  Absent i xs = All (λ a. index_of a ≢ i) xs

  -- No two elements have the same index.
  abbrev pub Apart : List A → Type 0
  Apart [] = Unit
  Apart (a ∷ xs) = Absent (index_of a) xs × Apart xs

  insert_by-Ascending :
      (a : A) (i lo : ℕ) (bs : List A)
      → index_of a ≡ pos i
      → lo ≤ i
      → Absent (pos i) bs
      → Ascending lo bs
      → Ascending lo (insert_by index_of a bs)
  unfolding insert_by
  insert_by-Ascending a i lo [] e low absent up = (i, e, low, tt)
  insert_by-Ascending a i lo (b ∷ bs) e low absent (j, f, lowj, up) =
      elim (Bool-cases (int_lt (index_of b) (index_of a))) [
        | inl before ↦
            let below : j < i = less (rw (e, f) at before) in
            rw before (j, f, lowj, insert_by-Ascending a i (j + 1) bs e (omega arith) absent.1 up)
        | inr after ↦
            let above : i ≤ j = not_less (rw (e, f) at after) in
            let different : i ≢ j = λ same. absent.0 (f ∙ ap pos (sym same)) in
            rw after (i, e, low, (j, f, omega arith, up))
      ]
    where
      less : int_lt (pos j) (pos i) ≡ true → j < i
      less h = ground arith

      not_less : int_lt (pos j) (pos i) ≡ false → i ≤ j
      not_less h = ground arith

  insert_by-All {κ} :
      (P : A → Type κ) (a : A) (bs : List A) → P a → All P bs → All P (insert_by index_of a bs)
  unfolding insert_by
  insert_by-All P a [] h hs = (h, tt)
  insert_by-All P a (b ∷ bs) h hs = elim (Bool-cases (int_lt (index_of b) (index_of a))) [
    | inl before ↦ rw before (hs.0, insert_by-All P a bs h hs.1)
    | inr after ↦ rw after (h, hs)
  ]

  pub sort_by-All {κ} : (P : A → Type κ) (xs : List A) → All P xs → All P (sort_by index_of xs)
  unfolding sort_by
  sort_by-All P [] hs = tt
  sort_by-All P (a ∷ xs) hs = insert_by-All P a (sort_by index_of xs) hs.0 (sort_by-All P xs hs.1)

  insert_by-Memᴰ_self : (a : A) (bs : List A) → Memᴰ a (insert_by index_of a bs)
  unfolding insert_by
  insert_by-Memᴰ_self a [] = Memᴰ.head refl
  insert_by-Memᴰ_self a (b ∷ bs) = elim (Bool-cases (int_lt (index_of b) (index_of a))) [
    | inl before ↦ rw before (Memᴰ.tail (insert_by-Memᴰ_self a bs))
    | inr after ↦ rw after (Memᴰ.head refl)
  ]

  insert_by-Memᴰ : {x : A} {bs : List A} (a : A) → Memᴰ x bs → Memᴰ x (insert_by index_of a bs)
  unfolding insert_by
  insert_by-Memᴰ a (Memᴰ.head {x = b} {xs = bs} e) =
      elim (Bool-cases (int_lt (index_of b) (index_of a))) [
        | inl before ↦ rw before (Memᴰ.head e)
        | inr after ↦ rw after (Memᴰ.tail (Memᴰ.head e))
      ]
  insert_by-Memᴰ a (Memᴰ.tail {x = b} {xs = bs} m) =
      let later = insert_by-Memᴰ a m in
      elim (Bool-cases (int_lt (index_of b) (index_of a))) [
        | inl before ↦ rw before (Memᴰ.tail later)
        | inr after ↦ rw after (Memᴰ.tail (Memᴰ.tail m))
      ]

  pub sort_by-Memᴰ : {x : A} {xs : List A} → Memᴰ x xs → Memᴰ x (sort_by index_of xs)
  unfolding sort_by
  sort_by-Memᴰ (Memᴰ.head {x = a} {xs = xs} e) = rw e (insert_by-Memᴰ_self a (sort_by index_of xs))
  sort_by-Memᴰ (Memᴰ.tail {x = a} m) = insert_by-Memᴰ a (sort_by-Memᴰ m)

  length-insert_by : (a : A) (bs : List A) → length (insert_by index_of a bs) ≡ suc (length bs)
  unfolding insert_by
  length-insert_by a [] = refl
  length-insert_by a (b ∷ bs) = ground (arith, length-insert_by a bs)

  length-sort_by : (xs : List A) → length (sort_by index_of xs) ≡ length xs
  unfolding sort_by
  length-sort_by [] = refl
  length-sort_by (a ∷ xs) = length-insert_by a (sort_by index_of xs) ∙ ap suc (length-sort_by xs)

  sort_by-Ascending :
      (n : ℕ) (xs : List A) → Below n xs → Apart xs → Ascending 0 (sort_by index_of xs)
  unfolding sort_by
  sort_by-Ascending n [] below apart = tt
  sort_by-Ascending n (a ∷ xs) ((i, e, lt), below) (absent, apart) =
      insert_by-Ascending a i 0 (sort_by index_of xs) e (omega arith)
        (sort_by-All (λ b. index_of b ≢ pos i) xs (rw e at absent))
        (sort_by-Ascending n xs below apart)

  -- A rising list holds no more elements than there is room for.
  Ascending-room :
      (lo hi : ℕ) (xs : List A) → lo ≤ hi → Ascending lo xs → Below hi xs → lo + length xs ≤ hi
  Ascending-room lo hi [] room up below = omega arith
  Ascending-room lo hi (a ∷ xs) room (i, e, low, up) ((j, f, lt), below) =
      let same : i ≡ j = pos-injective (sym e ∙ f) in
      omega (arith, same, Ascending-room (i + 1) hi xs (omega (arith, same)) up below)

  Ascending-from :
      (lo : ℕ) (xs : List A)
      → Ascending lo xs
      → Below (lo + length xs) xs
      → map index_of xs ≡ from lo (length xs)
  Ascending-from lo [] up below = refl
  Ascending-from lo (a ∷ xs) (i, e, low, up) ((j, f, lt), below) =
      let room =
        Ascending-room (i + 1) (lo + suc (length xs)) xs (omega (arith, pos-injective (sym e ∙ f)))
          up below in
      let first : i ≡ lo = omega (arith, room) in
      let rest =
        Ascending-from (lo + 1) xs (rw first at up) (subst (λ n. Below n xs) (omega arith) below) in
      cc (e ∙ ap pos first, rest)

  -- Distinct indices below the length come out as 0, 1, 2, and so on.
  pub sort_by-from :
      (xs : List A)
      → Below (length xs) xs
      → Apart xs
      → map index_of (sort_by index_of xs) ≡ from 0 (length xs)
  sort_by-from xs below apart =
      Ascending-from 0 (sort_by index_of xs) (sort_by-Ascending (length xs) xs below apart) (
        sort_by-All (λ a. (i : ℕ) × (index_of a ≡ pos i) × (i < 0 + length (sort_by index_of xs)))
          xs (subst (λ n. Below n xs) (omega (arith, length-sort_by xs)) below))
      ∙ ap (from 0) (length-sort_by xs)
