-- ===== src/Station/Cut.antt =====
-- The cut of an error to its bytes, truncateErr of internal/station/station.go.
use semdev.Base.{
  ℕ, ◌+◌, ◌-◌, ◌≤◌, ◌<◌, ◌≡◌, refl, ap, inl, inr, [], ◌∷◌, ◌++◌, leb, Text, byte_len, rune_len,
  Bool-cases, arith, leb→le,
}
use semdev.Station.{take_bytes, truncate_err}

-- The text is kept, or as many of its first runes as fit the limit, with an ellipsis.
pub data IsCut (s : Text) : Text → Type 0 where
  whole : byte_len s ≤ 512 → IsCut s s
  cut :
      (kept : Text) (c : ℕ) (rest : Text)
      → s ≡ kept ++ c ∷ rest
      → byte_len kept ≤ 512
      → 512 < byte_len kept + rune_len c
      → IsCut s (kept ++ 0x2026 ∷ [])

-- What fits.
data Fits (n : ℕ) (s : Text) : Text → Type 0 where
  all : byte_len s ≤ n → Fits n s s
  some_of :
      (kept : Text) (c : ℕ) (rest : Text)
      → s ≡ kept ++ c ∷ rest
      → byte_len kept ≤ n
      → n < byte_len kept + rune_len c
      → Fits n s kept

fits_cons :
    (c n : ℕ) (cs : Text) {kept : Text}
    → rune_len c ≤ n
    → Fits (n - rune_len c) cs kept
    → Fits n (c ∷ cs) (c ∷ kept)
unfolding byte_len
fits_cons c n cs l (all h) = all (omega (arith, l, h))
fits_cons c n cs l (some_of kept d rest e h k) =
    some_of (c ∷ kept) d rest (ap (λ t. c ∷ t) e) (omega (arith, l, h)) (omega (arith, l, k))

take_bytes-Fits : (n : ℕ) (s : Text) → Fits n s (take_bytes n s)
unfolding take_bytes byte_len
take_bytes-Fits n [] = all (omega arith)
take_bytes-Fits n (c ∷ cs) = elim (Bool-cases (leb (rune_len c) n)) [
  | inl e ↦ rw e (fits_cons c n cs (leb→le (rune_len c) n e) (take_bytes-Fits (n - rune_len c) cs))
  | inr e ↦ rw e (some_of [] c cs refl (omega arith) (ground arith))
]

Fits-IsCut : {s kept : Text} → 512 < byte_len s → Fits 512 s kept → IsCut s (kept ++ 0x2026 ∷ [])
Fits-IsCut g (all h) = absurd (omega (arith, g, h))
Fits-IsCut g (some_of kept c rest e h k) = cut kept c rest e h k

-- TruncateErr keeps a valid text of at most 512 bytes, and of a longer one it keeps a prefix of
-- whole runes that fits 512 bytes, followed by an ellipsis, where the next rune would not fit.
pub truncate_err-IsCut : (s : Text) → IsCut s (truncate_err s)
unfolding truncate_err
truncate_err-IsCut s = elim (Bool-cases (leb (byte_len s) 512)) [
  | inl e ↦ rw e (whole (leb→le (byte_len s) 512 e))
  | inr e ↦ rw e (Fits-IsCut (ground arith) (take_bytes-Fits 512 s))
]
