-- ===== src/Js/Text.antt =====
-- JavaScript strings: sequences of UTF-16 code units.
use Prim.Native.Char.{code}
use vsn_voice_ai.Prelude.{
  ℕ, String, ◌≡◌, refl, ◌↔◌, Bool, true, false, ◌&&◌, ◌||◌, List, [], ◌∷◌, reverse, arith, leb,
  ◌==◌, length,
}

abbrev pub Text : Type 0
Text = List ℕ

-- A literal of the source; each is ASCII, so its code points are its code units.
abbrev pub text : String → Text
text String.[] = []
text (String.◌∷◌ c s) = code c ∷ text s

-- `a === b`
unfoldable pub text_eq : Text → Text → Bool
text_eq [] [] = true
text_eq (a ∷ s) (b ∷ t) = a == b && text_eq s t
text_eq _ _ = false

pub text_eq_iff : (s t : Text) → (text_eq s t ≡ true) ↔ (s ≡ t)
unfolding text_eq
text_eq_iff [] [] = ground arith
text_eq_iff (a ∷ s) (b ∷ t) = grind (arith, text_eq_iff s t)
text_eq_iff [] (b ∷ t) = ground arith
text_eq_iff (a ∷ s) [] = ground arith

pub text_eq_refl : (s : Text) → text_eq s s ≡ true
text_eq_refl s = (text_eq_iff s s).1 refl

-- The white space and line terminators that `trim` strips.
abbrev pub is_white_space : ℕ → Bool
is_white_space c =
    leb 9 c && leb c 13
    || c == 32
    || c == 160
    || c == 0x1680
    || leb 0x2000 c && leb c 0x200A
    || leb 0x2028 c && leb c 0x2029
    || c == 0x202F
    || c == 0x205F
    || c == 0x3000
    || c == 0xFEFF

unfoldable pub skip_white_space : Text → Text
skip_white_space [] = []
skip_white_space (c ∷ s) = elim (is_white_space c) [ true ↦ skip_white_space s | false ↦ c ∷ s ]

-- `s.trim()`
unfoldable pub trim : Text → Text
unfolding skip_white_space
trim s = reverse (skip_white_space (reverse (skip_white_space s)))

-- `list.includes(s)`
unfoldable pub includes : List Text → Text → Bool
includes [] s = false
includes (t ∷ ts) s = text_eq t s || includes ts s

-- `value.trim().length === 0`
abbrev pub is_blank : Text → Bool
is_blank s = length (trim s) == 0

trim_example : trim (text "  ab c ") ≡ text "ab c"
unfolding trim
trim_example = refl
