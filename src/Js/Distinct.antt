-- ===== src/Js/Distinct.antt =====
-- `Set` as a filter of duplicates: texts that were not seen before.
use vsn_voice_ai.Prelude.{◌≡◌, refl, false, List, [], ◌∷◌, All, arith}
use vsn_voice_ai.Js.Text.{Text, text_eq_iff, includes}

abbrev pub DistinctTexts : List Text → Type 0
DistinctTexts [] = Unit
DistinctTexts (t ∷ ts) = (includes ts t ≡ false) × DistinctTexts ts

-- None of the texts is one of those seen.
abbrev pub Unseen : List Text → List Text → Type 0
Unseen seen ts = All (λ t. includes seen t ≡ false) ts

pub Unseen-cons :
    (s : Text) (seen ts : List Text)
    → Unseen (s ∷ seen) ts
    → (includes ts s ≡ false) × Unseen seen ts
unfolding includes
Unseen-cons s seen [] h = (refl, tt)
Unseen-cons s seen (t ∷ ts) (new, h) =
    let (absent, rest) = Unseen-cons s seen ts h in
    (ground (arith, text_eq_iff s t, text_eq_iff t s), (ground arith, rest))
