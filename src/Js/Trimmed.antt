-- ===== src/Js/Trimmed.antt =====
-- `trim` of a trimmed string.
use vsn_voice_ai.Prelude.{
  ◌≡◌, refl, sym, ap, ◌∙◌, [], ◌∷◌, ◌++◌, reverse, arith, Bool-cases, inl, inr, ℕ, length,
  length-append,
}
use mathlib.Core.List.{reverse-reverse, reverse-append}
use vsn_voice_ai.Js.Text.{Text, is_white_space, skip_white_space, trim}

skip_white_space_twice : (s : Text) → skip_white_space (skip_white_space s) ≡ skip_white_space s
unfolding skip_white_space
skip_white_space_twice [] = refl
skip_white_space_twice (c ∷ s) = elim (Bool-cases (is_white_space c)) [
  | inl white ↦ ground (arith, skip_white_space_twice s)
  | inr solid ↦ ground arith
]

-- What is skipped stands in front.
skipped : (s : Text) → (p : Text) × (s ≡ p ++ skip_white_space s)
unfolding skip_white_space
skipped [] = ([], refl)
skipped (c ∷ s) =
    let (p, e) = skipped s in
    elim (Bool-cases (is_white_space c)) [
      | inl white ↦ (c ∷ p, rw (white, skip_white_space) (ap (λ t. c ∷ t) e))
      | inr solid ↦ ([], rw (solid, skip_white_space) refl)
    ]

-- The part in front of a string that does not begin with white space.
skip_white_space_prefix : (a b : Text) → skip_white_space (a ++ b) ≡ a ++ b → skip_white_space a ≡ a
unfolding skip_white_space
skip_white_space_prefix [] b h = refl
skip_white_space_prefix (c ∷ a) b h = elim (Bool-cases (is_white_space c)) [
  | inr solid ↦ ground arith
  | inl white ↦
      let (p, e) = skipped (a ++ b) in
      elim (longer p (skip_white_space (a ++ b)) c (a ++ b) e (ground (arith, white, h))) [ ]
]
  where
    longer : (p t : Text) (c : ℕ) (s : Text) → s ≡ p ++ t → t ≡ c ∷ s → ⊥
    longer p t c s e f = omega (arith, ap length e, ap length f, length-append p t)

pub trim-trim : (s : Text) → trim (trim s) ≡ trim s
unfolding trim
trim-trim s =
    let a = skip_white_space s in
    let t = skip_white_space (reverse a) in
    let (p, e) = skipped (reverse a) in
    let whole : reverse t ++ reverse p ≡ a =
      sym (reverse-append p t) ∙ ap reverse (sym e) ∙ reverse-reverse a in
    let led : skip_white_space (reverse t ++ reverse p) ≡ reverse t ++ reverse p =
      rw whole (skip_white_space_twice s) in
    let front = skip_white_space_prefix (reverse t) (reverse p) led in
    ap (λ x. reverse (skip_white_space (reverse x))) front
    ∙ ap (λ x. reverse (skip_white_space x)) (reverse-reverse t)
    ∙ ap reverse (skip_white_space_twice (reverse a))
