-- ===== src/Web/Session/Cookies/Headers.antt =====
-- apps/web/lib/web-session.ts: the cookies that readCookie finds.
use vsn_voice_ai.Prelude.{
  ◌≡◌, refl, ap, ◌∙◌, Bool, true, false, ◌&&◌, not, none, some, List, [], ◌∷◌, ◌++◌, ◌==◌, all, All,
  arith, if◌then◌else◌,
}
use vsn_voice_ai.Js.Text.{Text, text_eq}
use vsn_voice_ai.Js.Map
use vsn_voice_ai.Js.Split.{split, split_first, split_whole, is_solid, trim_solid, trim-space}
use vsn_voice_ai.Js.Url.{is_empty}
use vsn_voice_ai.Web.Session.Cookies.{cut, value_if, named_value, read_cookie}

-- The header in which a browser sends its cookies back.
abbrev pub cookie_header : List (Text × Text) → Text
cookie_header [] = []
cookie_header ((name, value) ∷ []) = name ++ (b'=' ∷ value)
cookie_header ((name, value) ∷ c ∷ more) =
    (name ++ (b'=' ∷ value)) ++ (b';' ∷ b' ' ∷ cookie_header (c ∷ more))

-- A cookie that a header can carry: neither part has white space or `;`, and the name, which is not
-- empty, has no `=`.
abbrev pub is_part : Text → Bool
is_part s = is_solid s && all (λ c. not (c == b';')) s

pub record IsCookie (cookie : Text × Text) : Type 0 where
  pub named : is_empty cookie.0 ≡ false
  pub name : is_part cookie.0 ≡ true
  pub no_equals : all (λ c. not (c == b'=')) cookie.0 ≡ true
  pub value : is_part cookie.1 ≡ true

cut_pair : (k v : Text) → all (λ c. not (c == b'=')) k ≡ true → cut (k ++ (b'=' ∷ v)) ≡ some (k, v)
unfolding cut
cut_pair [] v h = refl
cut_pair (c ∷ k) v h = ground (arith, cut_pair k v)

-- A part of the header, with the space before it that separates it from another one.
value_if-cut :
    (name : Text) (c : Text × Text)
    → IsCookie c
    → value_if name (cut (c.0 ++ (b'=' ∷ c.1))) ≡ (if text_eq c.0 name then some c.1 else none)
value_if-cut name (k, v) h =
    let e = cut_pair k v h.no_equals in
    let filled = h.named in
    let tk = trim_solid k (ground (arith, h.name)) in
    let tv = trim_solid v (ground (arith, h.value)) in rw (e, tk, tv, filled) refl

value_if-space :
    (name : Text) (c : Text × Text)
    → IsCookie c
    → value_if name (cut (b' ' ∷ (c.0 ++ (b'=' ∷ c.1))))
      ≡ (if text_eq c.0 name then some c.1 else none)
unfolding cut
value_if-space name (k, v) h =
    let e = cut_pair k v h.no_equals in
    let tk = trim-space k (ground (arith, h.name)) in
    let tv = trim_solid v (ground (arith, h.value)) in
    let filled : is_empty (b' ' ∷ k) ≡ false = ground arith in rw (e, tk, tv, filled) refl

no_semicolon :
    (c : Text × Text) → IsCookie c → all (λ d. not (d == b';')) (c.0 ++ (b'=' ∷ c.1)) ≡ true
no_semicolon (k, v) h = without k (ground (arith, h.name)) (ground (arith, h.value))
  where
    without :
        (k : Text)
        → all (λ d. not (d == b';')) k ≡ true
        → all (λ d. not (d == b';')) v ≡ true
        → all (λ d. not (d == b';')) (k ++ (b'=' ∷ v)) ≡ true
    without [] hk hv = ground arith
    without (c ∷ k) hk hv = ground (arith, without k)

module _ (name : Text) where
  -- The first part of a longer header.
  named_value-split :
      (part t v : Text) (found : Bool)
      → all (λ d. not (d == b';')) part ≡ true
      → value_if name (cut part) ≡ (if found then some v else none)
      → named_value name (split b';' (part ++ (b';' ∷ t)))
        ≡ (if found then some v else named_value name (split b';' t))
  unfolding named_value
  named_value-split part t v true h e = rw (split_first b';' part t h, e) refl
  named_value-split part t v false h e = rw (split_first b';' part t h, e) refl

  named_value-spaced :
      (cs : List (Text × Text))
      → All IsCookie cs
      → named_value name (split b';' (b' ' ∷ cookie_header cs)) ≡ Map.get cs name
  unfolding named_value Map.get split
  named_value-spaced [] h = refl
  named_value-spaced (c ∷ []) (hc, h) =
      let e = split_whole b';' (b' ' ∷ (c.0 ++ (b'=' ∷ c.1))) (ground (arith, no_semicolon c hc)) in
      rw e (ground (arith, value_if-space name c hc))
  named_value-spaced (c ∷ d ∷ more) (hc, h) =
      named_value-split (b' ' ∷ (c.0 ++ (b'=' ∷ c.1))) (b' ' ∷ cookie_header (d ∷ more)) c.1
        (text_eq c.0 name) (ground (arith, no_semicolon c hc)) (value_if-space name c hc)
      ∙ ap (λ r. if text_eq c.0 name then some c.1 else r) (named_value-spaced (d ∷ more) h)

  -- Of the cookies of a header, `readCookie` returns the first with the name, unchanged, and null if
  -- there is none: names and values without white space or semicolons, no name empty or with `=`.
  pub read_cookie-cookie_header :
      (cs : List (Text × Text))
      → All IsCookie cs
      → read_cookie (some (cookie_header cs)) name ≡ Map.get cs name
  unfolding read_cookie Map.get split
  read_cookie-cookie_header [] h = refl
  read_cookie-cookie_header (c ∷ []) (hc, h) =
      rw (split_whole b';' (c.0 ++ (b'=' ∷ c.1)) (no_semicolon c hc))
        (ground (arith, value_if-cut name c hc))
  read_cookie-cookie_header (c ∷ d ∷ more) (hc, h) =
      named_value-split (c.0 ++ (b'=' ∷ c.1)) (b' ' ∷ cookie_header (d ∷ more)) c.1
        (text_eq c.0 name) (no_semicolon c hc) (value_if-cut name c hc)
      ∙ ap (λ r. if text_eq c.0 name then some c.1 else r) (named_value-spaced (d ∷ more) h)
