-- ===== src/Js/Split.antt =====
-- `split` of a string by one character, and `trim` of strings without white space.
use vsn_voice_ai.Prelude.{
  ℕ, Bool, ◌≡◌, refl, true, not, List, [], ◌∷◌, ◌++◌, reverse, ◌==◌, all, arith, if◌then◌else◌,
}
use mathlib.Core.List.{reverse-reverse, reverse_aux}
use vsn_voice_ai.Js.Text.{Text, is_white_space, skip_white_space, trim}

abbrev prepend : ℕ → List Text → List Text
prepend c [] = (c ∷ []) ∷ []
prepend c (s ∷ ss) = (c ∷ s) ∷ ss

-- `s.split(c)`
unfoldable pub split : ℕ → Text → List Text
split d [] = [] ∷ []
split d (c ∷ s) = if c == d then [] ∷ split d s else prepend c (split d s)

pub split_whole : (d : ℕ) (s : Text) → all (λ c. not (c == d)) s ≡ true → split d s ≡ s ∷ []
unfolding split
split_whole d [] h = refl
split_whole d (c ∷ s) h = ground (arith, split_whole d s)

pub split_first :
    (d : ℕ) (s t : Text) → all (λ c. not (c == d)) s ≡ true → split d (s ++ (d ∷ t)) ≡ s ∷ split d t
unfolding split
split_first d [] t h = ground arith
split_first d (c ∷ s) t h = ground (arith, split_first d s t)

-- A string without white space.
abbrev pub is_solid : Text → Bool
is_solid s = all (λ c. not (is_white_space c)) s

skip_white_space_solid : (s : Text) → is_solid s ≡ true → skip_white_space s ≡ s
unfolding skip_white_space
skip_white_space_solid [] h = refl
skip_white_space_solid (c ∷ s) h = ground arith

all-reverse_aux :
    (p : ℕ → Bool) (s t : Text) → all p s ≡ true → all p t ≡ true → all p (reverse_aux s t) ≡ true
all-reverse_aux p [] t h k = k
all-reverse_aux p (c ∷ s) t h k = all-reverse_aux p s (c ∷ t) (ground arith) (ground arith)

pub trim_solid : (s : Text) → is_solid s ≡ true → trim s ≡ s
unfolding trim
trim_solid s h =
    rw
      (
        skip_white_space_solid s h,
        skip_white_space_solid (reverse s) (all-reverse_aux _ s [] h refl),
      )
      (reverse-reverse s)

-- The space before a cookie's name.
pub trim-space : (s : Text) → is_solid s ≡ true → trim (b' ' ∷ s) ≡ s
unfolding trim skip_white_space
trim-space s h = trim_solid s h
