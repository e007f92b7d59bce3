-- ===== src/Web/Session/Sealing.antt =====
-- apps/web/lib/web-session.ts: sealValue and unsealValue. The AES-256-GCM of node:crypto, JSON and
-- base64url are parameters with their documented facts.
use vsn_voice_ai.Prelude.{
  ℕ, zero, suc, ◌≤◌, ◌≡◌, refl, sym, ap, ◌∙◌, Bool, true, false, ◌&&◌, ◌||◌, not, Option, none,
  some, List, [], ◌∷◌, ◌++◌, ltb, ◌==◌, length, take, length-append, arith, if◌then◌else◌,
}
use mathlib.Core.List.{append_assoc}
use vsn_voice_ai.Js.Text.{Text}
use vsn_voice_ai.Js.Number.{is_safe_integer}
use vsn_voice_ai.Js.Value.{Value, Fields, undefined, num, str, obj, end, field}
use vsn_voice_ai.Web.Session.{max_cookie_value_length, is_base64url_text}
use mathlib.Core.Option.{get_or}

-- What JSON keeps: objects of texts and safe integers.
abbrev pub is_plain_fields : Fields → Bool
is_plain_fields end = true
is_plain_fields (field name (str s) fs) = is_plain_fields fs
is_plain_fields (field name (num n) fs) = is_safe_integer n && is_plain_fields fs
is_plain_fields _ = false

-- `stringify` and `parse` are JSON's, to and from the UTF-8 bytes, `none` where `parse` throws;
-- `encrypt` gives the ciphertext and the authentication tag, and `decrypt` throws (`none`) where the
-- tag does not fit.
pub record Sealing : Type 0 where
  pub stringify : Value → List ℕ
  pub parse : List ℕ → Option Value
  pub encrypt : List ℕ → List ℕ → List ℕ → List ℕ × List ℕ
  pub decrypt : List ℕ → List ℕ → List ℕ → List ℕ → Option (List ℕ)
  pub encode : List ℕ → Text
  pub decode : Text → List ℕ
  pub parse-stringify :
      (fs : Fields) → is_plain_fields fs ≡ true → parse (stringify (obj fs)) ≡ some (obj fs)
  pub stringify_filled : (fs : Fields) → 1 ≤ length (stringify (obj fs))
  pub decrypt-encrypt :
      (key iv plaintext : List ℕ)
      → decrypt key iv (encrypt key iv plaintext).1 (encrypt key iv plaintext).0 ≡ some plaintext
  pub ciphertext_length :
      (key iv plaintext : List ℕ) → length (encrypt key iv plaintext).0 ≡ length plaintext
  pub tag_length : (key iv plaintext : List ℕ) → length (encrypt key iv plaintext).1 ≡ 16
  pub decode-encode : (bytes : List ℕ) → decode (encode bytes) ≡ bytes
  pub encode-is_base64url_text :
      (bytes : List ℕ) → 1 ≤ length bytes → is_base64url_text (encode bytes) ≡ true

abbrev pub drop : ℕ → List ℕ → List ℕ
drop zero xs = xs
drop (suc n) [] = []
drop (suc n) (x ∷ xs) = drop n xs

module _ (c : Sealing) where
  -- The second argument is the random initialization vector.
  unfoldable pub seal_value : List ℕ → List ℕ → Value → Text
  seal_value key iv value =
      let sealed = c.encrypt key iv (c.stringify value) in c.encode (iv ++ (sealed.1 ++ sealed.0))

  abbrev pub parsed_plaintext : Option (List ℕ) → Value
  parsed_plaintext none = undefined
  parsed_plaintext (some plaintext) = get_or (c.parse plaintext) undefined

  abbrev pub open_raw : List ℕ → List ℕ → Value
  open_raw key raw =
      if ltb (length raw) 29
      then undefined
      else parsed_plaintext (c.decrypt key (take 12 raw) (take 16 (drop 12 raw)) (drop 28 raw))

  unfoldable pub unseal_value : List ℕ → Text → Value
  unseal_value key sealed =
      if length sealed == 0
        || ltb max_cookie_value_length (length sealed)
        || not (is_base64url_text sealed)
      then undefined
      else open_raw key (c.decode sealed)

take-append : (n : ℕ) (xs ys : List ℕ) → length xs ≡ n → take n (xs ++ ys) ≡ xs
take-append zero [] ys h = refl
take-append zero (x ∷ xs) ys h = ground arith
take-append (suc n) [] ys h = ground arith
take-append (suc n) (x ∷ xs) ys h = ap (λ t. x ∷ t) (take-append n xs ys (omega (arith, h)))

drop-append : (n : ℕ) (xs ys : List ℕ) → length xs ≡ n → drop n (xs ++ ys) ≡ ys
drop-append zero [] ys h = refl
drop-append zero (x ∷ xs) ys h = ground arith
drop-append (suc n) [] ys h = ground arith
drop-append (suc n) (x ∷ xs) ys h = drop-append n xs ys (omega (arith, h))

is_base64url_text-filled : (s : Text) → is_base64url_text s ≡ true → (length s == 0) ≡ false
unfolding is_base64url_text
is_base64url_text-filled s h = ground arith

module _ (c : Sealing) (key iv : List ℕ) where
  open_raw-sealed :
      (tag text plaintext : List ℕ)
      → length iv ≡ 12
      → length tag ≡ 16
      → 1 ≤ length text
      → c.decrypt key iv tag text ≡ some plaintext
      → open_raw c key (iv ++ (tag ++ text)) ≡ get_or (c.parse plaintext) undefined
  open_raw-sealed tag text plaintext hi ht hp e =
      let long : ltb (length (iv ++ (tag ++ text))) 29 ≡ false =
        ground (arith, length-append iv (tag ++ text), length-append tag text) in
      let a = take-append 12 iv (tag ++ text) hi in
      let b = drop-append 12 iv (tag ++ text) hi in
      let t = take-append 16 tag text ht in
      let l : length (iv ++ tag) ≡ 28 = omega (arith, length-append iv tag) in
      let d = ap (drop 28) (sym (append_assoc iv tag text)) ∙ drop-append 28 (iv ++ tag) text l in
      rw (long, a, b, t, d, e) refl

  -- `unsealValue` gives back the fields of any object that `sealValue` sealed by the key, if the seal
  -- fits a cookie: fields of texts and safe integers, with a 12-byte initialization vector.
  pub unseal_value-seal_value :
      (fs : Fields)
      → length iv ≡ 12
      → is_plain_fields fs ≡ true
      → length (seal_value c key iv (obj fs)) ≤ max_cookie_value_length
      → unseal_value c key (seal_value c key iv (obj fs)) ≡ obj fs
  unfolding seal_value unseal_value
  unseal_value-seal_value fs hi plain short =
      let plaintext = c.stringify (obj fs) in
      let sealed = c.encrypt key iv plaintext in
      let raw = iv ++ (sealed.1 ++ sealed.0) in
      let base =
        c.encode-is_base64url_text raw
          (omega (arith, length-append iv (sealed.1 ++ sealed.0), hi)) in
      let filled = is_base64url_text-filled (c.encode raw) base in
      let fits : ltb max_cookie_value_length (length (c.encode raw)) ≡ false =
        ground (arith, short) in
      let opened =
        open_raw-sealed sealed.1 sealed.0 plaintext hi (c.tag_length key iv plaintext)
          (omega (arith, c.stringify_filled fs, c.ciphertext_length key iv plaintext))
          (c.decrypt-encrypt key iv plaintext) in
      rw (filled, fits, base, c.decode-encode raw, opened, c.parse-stringify fs plain) refl
