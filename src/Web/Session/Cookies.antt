-- ===== src/Web/Session/Cookies.antt =====
-- apps/web/lib/web-session.ts: readCookie and serializeCookie.
pub mod Headers
use vsn_voice_ai.Prelude.{
  ℕ, ◌/◌, ◌%◌, ◌+◌, suc, zero, ◌≡◌, refl, sym, ap, ◌∙◌, Bool, true, false, ◌&&◌, not, Option, none,
  some, List, [], ◌∷◌, ◌++◌, ◌==◌, all, All, arith, if◌then◌else◌,
}
use mathlib.Core.List.{append_assoc}
use vsn_voice_ai.Js.Text.{Text, text, text_eq, trim, is_white_space}
use vsn_voice_ai.Js.Map
use vsn_voice_ai.Js.Split.{split, split_first, split_whole, is_solid, trim_solid, trim-space}
use vsn_voice_ai.Js.Url.{is_empty}

before : ℕ → Option (Text × Text) → Option (Text × Text)
before c none = none
before c (some (name, value)) = some (c ∷ name, value)

-- The text before the first `=` and the text after it, if there is one.
unfoldable pub cut : Text → Option (Text × Text)
unfolding before
cut [] = none
cut (c ∷ s) = if c == b'=' then some ([], s) else before c (cut s)

-- `index > 0 && part.slice(0, index).trim() === name`, with the value that is returned then
abbrev pub value_if : Text → Option (Text × Text) → Option Text
value_if name none = none
value_if name (some (key, value)) =
    if not (is_empty key) && text_eq (trim key) name then some (trim value) else none

abbrev pub first_of : Option Text → Option Text → Option Text
first_of none rest = rest
first_of (some value) rest = some value

-- The loop over the parts.
unfoldable pub named_value : Text → List Text → Option Text
unfolding cut
named_value name [] = none
named_value name (part ∷ parts) = first_of (value_if name (cut part)) (named_value name parts)

unfoldable pub read_cookie : Option Text → Text → Option Text
unfolding named_value
read_cookie none name = none
read_cookie (some header) name = named_value name (split b';' header)

-- The decimal digits of a number in front of a text; the first argument bounds their count.
unfoldable pub digits : ℕ → ℕ → Text → Text
digits zero n s = s
digits (suc fuel) n s =
    let more = digits fuel (n / 10) ((b'0' + n % 10) ∷ s) in
    if n / 10 == 0 then (b'0' + n % 10) ∷ s else more

-- `` `${n}` ``
unfoldable pub decimal_text : ℕ → Text
unfolding digits
decimal_text n = digits (suc n) n []

unfoldable pub serialize_cookie : Text → Text → ℕ → Text
serialize_cookie name value max_age_seconds =
    name
    ++ text "="
    ++ value
    ++ text "; Path=/; Max-Age="
    ++ decimal_text max_age_seconds
    ++ text "; HttpOnly; Secure; SameSite=Lax"

unfoldable pub clear_cookie : Text → Text
unfolding serialize_cookie
clear_cookie name = serialize_cookie name [] 0
