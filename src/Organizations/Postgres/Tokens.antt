-- ===== src/Organizations/Postgres/Tokens.antt =====
-- postgres-organization-membership-resolver.ts: what `isAuthorityTokens` accepts.
use vsn_voice_ai.Prelude.{ℕ, suc, ◌≤◌, ◌≡◌, refl, ap, true, List, [], ◌∷◌, map, All, arith, length}
use vsn_voice_ai.Js.Text.{Text}
use vsn_voice_ai.Js.Distinct.{DistinctTexts, Unseen, Unseen-cons}
use vsn_voice_ai.Js.Value
use vsn_voice_ai.Js.Value.{Value, Items, str, arr}
use vsn_voice_ai.Organizations.Postgres.{
  is_authority_token, are_tokens, is_authority_tokens, texts, elements,
}

pub record IsToken (maximum_length : ℕ) (s : Text) : Type 0 where
  pub spelled : is_authority_token s ≡ true
  pub longest : length s ≤ maximum_length

-- Different tokens, within the bounds of number and length.
pub record AreTokens (minimum_items maximum_items maximum_length : ℕ) (ts : List Text)
    : Type 0 where
  pub enough : minimum_items ≤ length ts
  pub bounded : length ts ≤ maximum_items
  pub tokens : All (IsToken maximum_length) ts
  pub distinct : DistinctTexts ts

are_tokens_sound :
    (n : ℕ) (seen : List Text) (vs : List Value)
    → are_tokens n seen vs ≡ true
    → All (IsToken n) (texts vs) × Unseen seen (texts vs) × DistinctTexts (texts vs)
unfolding are_tokens
are_tokens_sound n seen [] h = (tt, tt, tt)
are_tokens_sound n seen (str s ∷ vs) h =
    let rest : are_tokens n (s ∷ seen) vs ≡ true = ground arith in
    let (tokens, unseen, distinct) = are_tokens_sound n (s ∷ seen) vs rest in
    let (absent, older) = Unseen-cons s seen (texts vs) unseen in
    (
      (record { spelled = ground arith; longest = ground arith }, tokens),
      (ground arith, older),
      (absent, distinct),
    )
are_tokens_sound n seen (_ ∷ vs) h = cc

are_tokens-texts :
    (n : ℕ) (seen : List Text) (vs : List Value)
    → are_tokens n seen vs ≡ true
    → vs ≡ map str (texts vs)
unfolding are_tokens
are_tokens-texts n seen [] h = refl
are_tokens-texts n seen (str s ∷ vs) h =
    ap (λ ws. str s ∷ ws) (are_tokens-texts n (s ∷ seen) vs (ground arith))
are_tokens-texts n seen (_ ∷ vs) h = cc

-- The value is the array of the texts.
pub IsArrayOf : List Text → Value → Type 0
IsArrayOf ts v = (vs : Items) × (v ≡ arr vs) × (Value.items vs ≡ map str ts)

pub is_authority_tokens-IsArrayOf :
    (v : Value) (least most longest : ℕ)
    → is_authority_tokens v least most longest ≡ true
    → IsArrayOf (texts (elements v)) v
unfolding is_authority_tokens IsArrayOf
is_authority_tokens-IsArrayOf (arr vs) least most longest h =
    (vs, refl, are_tokens-texts longest [] (Value.items vs) (ground arith))
is_authority_tokens-IsArrayOf _ least most longest h = cc

length-texts : (vs : List Value) → length (texts vs) ≡ length vs
length-texts [] = refl
length-texts (v ∷ vs) = ap suc (length-texts vs)

pub is_authority_tokens-AreTokens :
    (v : Value) (least most longest : ℕ)
    → is_authority_tokens v least most longest ≡ true
    → AreTokens least most longest (texts (elements v))
unfolding is_authority_tokens
is_authority_tokens-AreTokens (arr vs) least most longest h =
    let checked : are_tokens longest [] (Value.items vs) ≡ true = ground arith in
    let (tokens, _, distinct) = are_tokens_sound longest [] (Value.items vs) checked in
    let same = length-texts (Value.items vs) in
    record {
      enough = ground (arith, same);
      bounded = ground (arith, same);
      tokens = tokens;
      distinct = distinct;
    }
is_authority_tokens-AreTokens _ least most longest h = cc
