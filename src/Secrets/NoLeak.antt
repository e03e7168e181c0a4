-- ===== src/Secrets/NoLeak.antt =====
-- No secret value survives a scrub of internal/secrets/scrub.go.
use mathlib.Core.List.{Memᴰ}
use semdev.Base.{
  ℕ, zero, suc, ◌≡◌, ◌⊎◌, inl, inr, refl, Bool, true, false, not, ◌&&◌, List, [], ◌∷◌, ◌++◌, ◌==◌,
  length, keep, Text, is_empty, is_blank, has_prefix, contains, arith, Bool-cases, and-true, All,
  ltb, byte_len,
}
use semdev.Secrets.Scrub.{
  values_of, redaction, insert_longest, longest_first, new_scrubber, match_at, scrub_from, scrub,
}

-- The marker's byte does not stand in the value.
abbrev pub Unmarked : Text → Type 0
Unmarked [] = Unit
Unmarked (c ∷ cs) = ((c == b'*') ≡ false) × Unmarked cs

abbrev pub NoneEmpty : List Text → Type 0
NoneEmpty values = All (λ v. is_empty v ≡ false) values

length-suc : (v : Text) → is_empty v ≡ false → (n : ℕ) × (length v ≡ suc n)
length-suc [] h = cc
length-suc (c ∷ cs) h = (length cs, refl)

match_at-has_prefix :
    (t v : Text) {values : List Text}
    → Memᴰ v values
    → NoneEmpty values
    → has_prefix t v ≡ true
    → (n : ℕ) × (match_at values t ≡ suc n)
unfolding match_at
match_at-has_prefix t v (Memᴰ.head {x} {xs} e) ne p =
    let here : has_prefix t x ≡ true = rw e at p in let (n, l) = length-suc x ne.0 in (n, rw here l)
match_at-has_prefix t v (Memᴰ.tail {x} {xs} m) ne p =
    let (n, l) = match_at-has_prefix t v m ne.1 p in
    let (k, e) = length-suc x ne.0 in
    elim (Bool-cases (has_prefix t x)) [
      | inl here ↦ (k, rw here e)
      | inr not_here ↦ (n, rw not_here l)
    ]

ℕ-cases : (n : ℕ) → (n ≡ 0) ⊎ ((k : ℕ) × (n ≡ suc k))
ℕ-cases zero = inl refl
ℕ-cases (suc k) = inr (k, refl)

module _ (values : List Text) where
  scrub_from-kept :
      (c : ℕ) (cs : Text)
      → match_at values (c ∷ cs) ≡ 0
      → scrub_from values 0 (c ∷ cs) ≡ c ∷ scrub_from values 0 cs
  unfolding scrub_from
  scrub_from-kept c cs e = rw (scrub_from, e)

  scrub_from-hit :
      (c : ℕ) (cs : Text) (n : ℕ)
      → match_at values (c ∷ cs) ≡ suc n
      → scrub_from values 0 (c ∷ cs) ≡ redaction ++ scrub_from values n cs
  unfolding scrub_from
  scrub_from-hit c cs n e = rw (scrub_from, e)

  scrub_from-skip :
      (c : ℕ) (cs : Text) (n : ℕ) → scrub_from values (suc n) (c ∷ cs) ≡ scrub_from values n cs
  unfolding scrub_from
  scrub_from-skip c cs n = refl

  scrub_from-nil : (n : ℕ) → scrub_from values n [] ≡ []
  unfolding scrub_from
  scrub_from-nil n = refl

  -- An unmarked prefix of the scrubbed text is a prefix of the text.
  scrub-has_prefix :
      (t v : Text)
      → Unmarked v
      → has_prefix (scrub_from values 0 t) v ≡ true
      → has_prefix t v ≡ true
  unfolding has_prefix
  scrub-has_prefix [] v u h = rw (scrub_from-nil 0) at h
  scrub-has_prefix (c ∷ cs) [] u h = refl
  scrub-has_prefix (c ∷ cs) (d ∷ v) u h = elim (ℕ-cases (match_at values (c ∷ cs))) [
    | inl e ↦
        let h' = rw (scrub_from-kept c cs e) at h in
        let (first, rest) = and-true (c == d) _ h' in rw (first, scrub-has_prefix cs v u.1 rest)
    | inr (n, e) ↦ absurd (marked d _ u.0 (rw (scrub_from-hit c cs n e) at h))
  ]
    where
      marked : (x : ℕ) (b : Bool) → (x == b'*') ≡ false → ((b'*' == x) && b) ≡ true → ⊥
      marked x b p q = ground arith

  -- An unmarked value starts nowhere in the marker and what is behind it, if not behind it.
  contains-redaction :
      (v rest : Text)
      → is_empty v ≡ false
      → Unmarked v
      → contains rest v ≡ false
      → contains (redaction ++ rest) v ≡ false
  unfolding contains
  contains-redaction [] rest ne u h = cc
  contains-redaction (d ∷ v) rest ne u h = ground arith

  -- No value that the scrubber knows stands in the scrubbed text.
  scrub_from-contains :
      (v : Text)
      → NoneEmpty values
      → Memᴰ v values
      → is_empty v ≡ false
      → Unmarked v
      → (skip : ℕ) (t : Text) → contains (scrub_from values skip t) v ≡ false
  scrub_from-contains [] all m ne u skip t = cc
  scrub_from-contains (d ∷ v) all m ne u skip [] =
      rw (scrub_from-nil skip) (unfold contains in refl)
  scrub_from-contains (d ∷ v) all m ne u (suc n) (c ∷ cs) =
      rw (scrub_from-skip c cs n) (scrub_from-contains (d ∷ v) all m ne u n cs)
  scrub_from-contains (d ∷ v) all m ne u zero (c ∷ cs) = elim (ℕ-cases (match_at values (c ∷ cs))) [
    | inl e ↦
        rw (scrub_from-kept c cs e) (kept c cs e (scrub_from-contains (d ∷ v) all m ne u 0 cs))
    | inr (n, e) ↦
        rw (scrub_from-hit c cs n e)
          (contains-redaction (d ∷ v) _ ne u (scrub_from-contains (d ∷ v) all m ne u n cs))
  ]
    where
      kept :
          (x : ℕ) (xs : Text)
          → match_at values (x ∷ xs) ≡ 0
          → contains (scrub_from values 0 xs) (d ∷ v) ≡ false
          → contains (x ∷ scrub_from values 0 xs) (d ∷ v) ≡ false
      kept x xs e later = elim (Bool-cases (has_prefix (x ∷ scrub_from values 0 xs) (d ∷ v))) [
        | inl starts ↦
            let known = scrub-has_prefix (x ∷ xs) (d ∷ v) u (rw (scrub_from-kept x xs e) starts) in
            let (n, hit) = match_at-has_prefix (x ∷ xs) (d ∷ v) m all known in cc (e, hit)
        | inr starts ↦ unfold contains in rw (starts, later)
      ]

insert_longest-Memᴰ_self : (v : Text) (vs : List Text) → Memᴰ v (insert_longest v vs)
unfolding insert_longest
insert_longest-Memᴰ_self v [] = Memᴰ.head refl
insert_longest-Memᴰ_self v (u ∷ us) = elim (Bool-cases (ltb (byte_len v) (byte_len u))) [
  | inl e ↦ rw e (Memᴰ.tail (insert_longest-Memᴰ_self v us))
  | inr e ↦ rw e (Memᴰ.head refl)
]

insert_longest-Memᴰ : (v x : Text) {vs : List Text} → Memᴰ v vs → Memᴰ v (insert_longest x vs)
unfolding insert_longest
insert_longest-Memᴰ v x (Memᴰ.head {x = u} {xs = us} h) =
    elim (Bool-cases (ltb (byte_len x) (byte_len u))) [
      | inl e ↦ rw e (Memᴰ.head h)
      | inr e ↦ rw e (Memᴰ.tail (Memᴰ.head h))
    ]
insert_longest-Memᴰ v x (Memᴰ.tail {x = u} {xs = us} m) =
    let later = insert_longest-Memᴰ v x m in
    elim (Bool-cases (ltb (byte_len x) (byte_len u))) [
      | inl e ↦ rw e (Memᴰ.tail later)
      | inr e ↦ rw e (Memᴰ.tail (Memᴰ.tail m))
    ]

longest_first-Memᴰ : (v : Text) {vs : List Text} → Memᴰ v vs → Memᴰ v (longest_first vs)
unfolding longest_first
longest_first-Memᴰ v (Memᴰ.head {x} {xs} e) = rw e (insert_longest-Memᴰ_self x (longest_first xs))
longest_first-Memᴰ v (Memᴰ.tail {x} m) = insert_longest-Memᴰ v x (longest_first-Memᴰ v m)

insert_longest-NoneEmpty :
    (v : Text) (vs : List Text)
    → is_empty v ≡ false
    → NoneEmpty vs
    → NoneEmpty (insert_longest v vs)
unfolding insert_longest
insert_longest-NoneEmpty v [] h hs = (h, tt)
insert_longest-NoneEmpty v (u ∷ us) h hs = elim (Bool-cases (ltb (byte_len v) (byte_len u))) [
  | inl e ↦ rw e (hs.0, insert_longest-NoneEmpty v us h hs.1)
  | inr e ↦ rw e (h, hs)
]

longest_first-NoneEmpty : (vs : List Text) → NoneEmpty vs → NoneEmpty (longest_first vs)
unfolding longest_first
longest_first-NoneEmpty [] hs = tt
longest_first-NoneEmpty (v ∷ vs) hs =
    insert_longest-NoneEmpty v (longest_first vs) hs.0 (longest_first-NoneEmpty vs hs.1)

is_blank-is_empty : (v : Text) → is_blank v ≡ false → is_empty v ≡ false
unfolding is_blank
is_blank-is_empty [] h = h
is_blank-is_empty (c ∷ cs) h = refl

abbrev is_shown : Text → Bool
is_shown v = not (is_blank v)

keep-NoneEmpty : (vs : List Text) → NoneEmpty (keep is_shown vs)
keep-NoneEmpty [] = tt
keep-NoneEmpty (v ∷ vs) = elim (Bool-cases (is_blank v)) [
  | inl e ↦ rw e (keep-NoneEmpty vs)
  | inr e ↦ rw e (is_blank-is_empty v e, keep-NoneEmpty vs)
]

keep-Memᴰ : (v : Text) {vs : List Text} → is_blank v ≡ false → Memᴰ v vs → Memᴰ v (keep is_shown vs)
keep-Memᴰ v h (Memᴰ.head {x} {xs} e) =
    let shown : is_blank x ≡ false = rw e at h in rw shown (Memᴰ.head e)
keep-Memᴰ v h (Memᴰ.tail {x} {xs} m) =
    let later = keep-Memᴰ v h m in
    elim (Bool-cases (is_blank x)) [ inl e ↦ rw e later | inr e ↦ rw e (Memᴰ.tail later) ]

-- No value of the environment that is not blank, and that does not hold a byte of the redaction
-- marker, stands in a text that the environment's scrubber has scrubbed.
pub scrub-contains :
    (env : List (Text × Text)) (v t : Text)
    → Memᴰ v (values_of env)
    → is_blank v ≡ false
    → Unmarked v
    → contains (scrub (new_scrubber env) t) v ≡ false
unfolding scrub new_scrubber
scrub-contains env v t m shown u =
    let kept = keep is_shown (values_of env) in
    scrub_from-contains (longest_first kept) v
      (longest_first-NoneEmpty kept (keep-NoneEmpty (values_of env)))
      (longest_first-Memᴰ v (keep-Memᴰ v shown m)) (is_blank-is_empty v shown) u 0 t
