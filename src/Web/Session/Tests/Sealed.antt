-- ===== src/Web/Session/Tests/Sealed.antt =====
-- A transparent sealing with the facts that the sessions rely on: fields and bytes are written out.
use vsn_voice_ai.Prelude.{
  ℕ, zero, suc, ◌+◌, ◌-◌, ◌*◌, ◌/◌, ◌%◌, ◌≤◌, ◌≡◌, refl, ap, ◌∙◌, true, false, Option, none, some,
  List, [], ◌∷◌, ◌++◌, ◌==◌, length, all, arith, if◌then◌else◌,
}
use mathlib.Core.List.{append-nil}
use vsn_voice_ai.Js.Text.{Text}
use vsn_voice_ai.Js.Number.{int, pos, negsuc}
use vsn_voice_ai.Js.Value.{Value, Fields, undefined, num, str, obj, end, field}
use vsn_voice_ai.Identity.Oidc.{is_base64url}
use vsn_voice_ai.Web.Session.{is_base64url_text}
use vsn_voice_ai.Web.Session.Sealing.{Sealing, is_plain_fields}

abbrev pub five : ℕ → ℕ
five n = suc (suc (suc (suc (suc n))))

abbrev pub raised : Text → List ℕ → List ℕ
raised [] t = t
raised (c ∷ s) t = five c ∷ raised s t

abbrev pub written : Fields → List ℕ
written (field name (str s) fs) = 2 ∷ raised name (0 ∷ raised s (1 ∷ written fs))
written (field name (num (int (pos n))) fs) = 2 ∷ raised name (3 ∷ five n ∷ written fs)
written (field name (num (int (negsuc n))) fs) = 2 ∷ raised name (4 ∷ five n ∷ written fs)
written _ = []

-- What a reader from the right holds: the current text, the last value and the fields.
pub record Reading : Type 0 where
  pub now : Text
  pub last : Value
  pub fields : Fields

abbrev pub read_number : (ℕ → Value) → Text → Value
read_number make [] = undefined
read_number make (n ∷ s) = make n

abbrev pub read_cell : ℕ → Reading → Reading
read_cell zero r = record { now = []; last = str r.now; fields = r.fields }
read_cell (suc zero) r = record { now = []; last = undefined; fields = r.fields }
read_cell (suc (suc zero)) r = record {
  now = [];
  last = undefined;
  fields = field r.now r.last r.fields;
}
read_cell (suc (suc (suc zero))) r = record {
  now = [];
  last = read_number (λ n. num (int (pos n))) r.now;
  fields = r.fields;
}
read_cell (suc (suc (suc (suc zero)))) r = record {
  now = [];
  last = read_number (λ n. num (int (negsuc n))) r.now;
  fields = r.fields;
}
read_cell (suc (suc (suc (suc (suc c))))) r = record {
  now = c ∷ r.now;
  last = r.last;
  fields = r.fields;
}

abbrev pub read_cells : List ℕ → Reading
read_cells [] = record { now = []; last = undefined; fields = end }
read_cells (c ∷ cells) = read_cell c (read_cells cells)

read_cells-raised :
    (s : Text) (t : List ℕ)
    → read_cells (raised s t) ≡ record {
      now = s ++ (read_cells t).now;
      last = (read_cells t).last;
      fields = (read_cells t).fields;
    }
read_cells-raised [] t = refl
read_cells-raised (c ∷ s) t = ap (read_cell (five c)) (read_cells-raised s t)

pub read_cells-written :
    (fs : Fields)
    → is_plain_fields fs ≡ true
    → ((read_cells (written fs)).now ≡ []) × ((read_cells (written fs)).fields ≡ fs)
read_cells-written end h = (refl, refl)
read_cells-written (field name (str s) fs) h =
    let (a, b) = read_cells-written fs h in
    (
      refl,
      rw
          (
            read_cells-raised name (0 ∷ raised s (1 ∷ written fs)),
            read_cells-raised s (1 ∷ written fs),
            append-nil name,
            append-nil s,
            b,
          )
          refl,
    )
read_cells-written (field name (num (int (pos n))) fs) h =
    let (a, b) = read_cells-written fs (ground arith) in
    (refl, rw (read_cells-raised name (3 ∷ five n ∷ written fs), append-nil name, b) refl)
read_cells-written (field name (num (int (negsuc n))) fs) h =
    let (a, b) = read_cells-written fs (ground arith) in
    (refl, rw (read_cells-raised name (4 ∷ five n ∷ written fs), append-nil name, b) refl)
read_cells-written (field name _ fs) h = ground arith

abbrev pub stringified : Value → List ℕ
stringified (obj fs) = 1 ∷ written fs
stringified _ = 0 ∷ []

abbrev pub parsed_cells : List ℕ → Option Value
parsed_cells [] = none
parsed_cells (c ∷ cells) = some (obj (read_cells cells).fields)

-- A byte as tens, each an `A`, and the rest, a letter from `a`.
abbrev pub tens : ℕ → Text → Text
tens zero t = t
tens (suc n) t = b'A' ∷ tens n t

abbrev pub encoded : List ℕ → Text
encoded [] = []
encoded (b ∷ bytes) = tens (b / 10) ((b'a' + b % 10) ∷ encoded bytes)

abbrev pub decoded : ℕ → Text → List ℕ
decoded n [] = []
decoded n (c ∷ s) =
    let rest = decoded (suc n) s in
    let next = decoded 0 s in if c == b'A' then rest else (n * 10 + (c - b'a')) ∷ next

decoded-tens : (m n : ℕ) (t : Text) → decoded n (tens m t) ≡ decoded (n + m) t
decoded-tens zero n t = ap (λ k. decoded k t) (omega arith)
decoded-tens (suc m) n t = decoded-tens m (suc n) t ∙ ap (λ k. decoded k t) (omega arith)

pub decoded-encoded : (bytes : List ℕ) → decoded 0 (encoded bytes) ≡ bytes
decoded-encoded [] = refl
decoded-encoded (b ∷ bytes) =
    let small : ((b'a' + b % 10) == b'A') ≡ false = ground arith in
    let same : (0 + b / 10) * 10 + ((b'a' + b % 10) - b'a') ≡ b = omega arith in
    decoded-tens (b / 10) 0 _ ∙ rw (small, decoded-encoded bytes, same) refl

all-tens : (m : ℕ) (t : Text) → all is_base64url t ≡ true → all is_base64url (tens m t) ≡ true
all-tens zero t h = h
all-tens (suc m) t h = all-tens m t h

all-encoded : (bytes : List ℕ) → all is_base64url (encoded bytes) ≡ true
all-encoded [] = refl
all-encoded (b ∷ bytes) = all-tens (b / 10) _ (ground (arith, all-encoded bytes))

encoded_filled : (bytes : List ℕ) → 1 ≤ length bytes → 1 ≤ length (encoded bytes)
encoded_filled [] h = ground arith
encoded_filled (b ∷ bytes) h = filled (b / 10) (b'a' + b % 10) (encoded bytes)
  where
    filled : (m c : ℕ) (t : Text) → 1 ≤ length (tens m (c ∷ t))
    filled zero c t = omega arith
    filled (suc m) c t = omega arith

pub encoded-is_base64url_text :
    (bytes : List ℕ) → 1 ≤ length bytes → is_base64url_text (encoded bytes) ≡ true
unfolding is_base64url_text
encoded-is_base64url_text bytes h = ground (arith, all-encoded bytes, encoded_filled bytes h)

abbrev pub tag : List ℕ
tag = 0 ∷ 0 ∷ 0 ∷ 0 ∷ 0 ∷ 0 ∷ 0 ∷ 0 ∷ 0 ∷ 0 ∷ 0 ∷ 0 ∷ 0 ∷ 0 ∷ 0 ∷ 0 ∷ []

abbrev pub plain_sealing : Sealing
plain_sealing = record {
  stringify = stringified;
  parse = parsed_cells;
  encrypt = λ key iv plaintext. (plaintext, tag);
  decrypt = λ key iv t ciphertext. some ciphertext;
  encode = encoded;
  decode = decoded 0;
  parse-stringify = λ fs h. ap (λ x. some (obj x)) (read_cells-written fs h).1;
  stringify_filled = λ fs. omega arith;
  decrypt-encrypt = λ key iv plaintext. refl;
  ciphertext_length = λ key iv plaintext. refl;
  tag_length = λ key iv plaintext. refl;
  decode-encode = decoded-encoded;
  encode-is_base64url_text = encoded-is_base64url_text;
}
