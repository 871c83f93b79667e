-- ===== src/Email/Normal.antt =====
-- `normalise_email` puts an address in a normal form.
use mathlib.Core.List.{
  map, reverse, reverse-cons, reverse-append, reverse-reverse, map-map, map-append,
}
use mathlib.Core.Path.{fun_ext, ◌≡⟨◌⟩◌, ◌∎}
use flowtona.Common.{ℕ, Text, ◌≡◌, refl, ap, false, [], ◌∷◌, ◌++◌, arith, Bool-cases, inl, inr}
use flowtona.Email.{is_space, lower, strip_left, strip, normalise_email}

is_space-lower : (c : ℕ) → is_space (lower c) ≡ is_space c
unfolding is_space lower
is_space-lower c = ground arith

lower-lower : (c : ℕ) → lower (lower c) ≡ lower c
unfolding lower
lower-lower c = ground arith

strip_left-strip_left : (s : Text) → strip_left (strip_left s) ≡ strip_left s
unfolding strip_left
strip_left-strip_left [] = refl
strip_left-strip_left (c ∷ s) = ground (arith, strip_left-strip_left s)

-- The last character that is no space stays.
strip_left-snoc :
    (xs : Text) (c : ℕ)
    → is_space c ≡ false
    → (ys : Text) × (strip_left (xs ++ c ∷ []) ≡ ys ++ c ∷ [])
unfolding strip_left
strip_left-snoc [] c h = ([], rw h refl)
strip_left-snoc (x ∷ xs) c h = elim (Bool-cases (is_space x)) [
  | inl p ↦ let (ys, e) = strip_left-snoc xs c h in (ys, rw p e)
  | inr p ↦ (x ∷ xs, rw p refl)
]

reverse-snoc : (ys : Text) (c : ℕ) → reverse (ys ++ c ∷ []) ≡ c ∷ reverse ys
reverse-snoc ys c = reverse-append ys (c ∷ [])

strip_left-strip : (s : Text) → strip_left (strip s) ≡ strip s
unfolding strip strip_left
strip_left-strip [] = refl
strip_left-strip (c ∷ s) = elim (Bool-cases (is_space c)) [
  | inl p ↦ rw p (strip_left-strip s)
  | inr p ↦
      let (ys, e) = strip_left-snoc (reverse s) c p in
      rw (p, reverse-cons c s, e, reverse-snoc ys c) (rw p refl)
]

strip-strip : (s : Text) → strip (strip s) ≡ strip s
unfolding strip
strip-strip s =
    strip (strip s)
    ≡⟨ ap (λ t. reverse (strip_left (reverse t))) (strip_left-strip s) ⟩
      reverse (strip_left (reverse (strip s)))
    ≡⟨ ap (λ t. reverse (strip_left t)) (reverse-reverse (strip_left (reverse (strip_left s)))) ⟩
      reverse (strip_left (strip_left (reverse (strip_left s))))
    ≡⟨ ap reverse (strip_left-strip_left (reverse (strip_left s))) ⟩ strip s ∎

strip_left-map : (s : Text) → strip_left (map lower s) ≡ map lower (strip_left s)
unfolding strip_left
strip_left-map [] = refl
strip_left-map (c ∷ s) = ground (arith, is_space-lower c, strip_left-map s)

reverse-map : (s : Text) → reverse (map lower s) ≡ map lower (reverse s)
reverse-map [] = refl
reverse-map (c ∷ s) = simp (reverse-cons, map-append, reverse-map s)

strip-map : (s : Text) → strip (map lower s) ≡ map lower (strip s)
unfolding strip
strip-map s = simp (strip_left-map, reverse-map)

-- Normalising an address twice is normalising it once.
pub normalise_email_idem : (e : Text) → normalise_email (normalise_email e) ≡ normalise_email e
unfolding normalise_email
normalise_email_idem e =
    rw (strip-map (strip e), strip-strip e, map-map)
      (ap (λ f. map f (strip e)) (fun_ext lower-lower))
