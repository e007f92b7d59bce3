-- ===== src/Identity/Oidc/KeySets.antt =====
-- oidc-bearer-token-resolver.ts: the key sets that parseOidcJwks accepts.
use vsn_voice_ai.Prelude.{
  suc, ◌≤◌, ◌≡◌, refl, ap, subst, ◌⊎◌, inl, inr, true, false, Option, none, some, List, [], ◌∷◌,
  length, is_some, All, arith, Bool-cases,
}
use vsn_voice_ai.Js.Text.{Text, text}
use vsn_voice_ai.Js.Distinct.{DistinctTexts, Unseen, Unseen-cons}
use vsn_voice_ai.Js.Value
use vsn_voice_ai.Js.Value.{Value, undefined, str, arr, obj, Fields}
use vsn_voice_ai.Js.Result.{ok, Result-cases}
use vsn_voice_ai.Identity.Oidc.{SignatureAlgorithm, rs256, es256, VerificationKey}
use vsn_voice_ai.Identity.Oidc.Jwks.{
  PublicKey, max_jwks_keys, private_fields, has_any, kid_of, is_new_kid, add_kid, checked_key,
  parse_key, parse_keys, lacks_kid, parse_entries, parse_oidc_jwks, algorithm_for_jwk,
}

-- The kids that the keys declare.
abbrev pub kids : {K : Type 0} → List (VerificationKey K) → List Text
kids [] = []
kids (k ∷ ks) = add_kid k.kid (kids ks)

module _ {K : Type 0} (create_public_key : Fields → Option (PublicKey K)) where
  -- A key of a public JWK; an RSA key has at least 2048 bits.
  pub record IsPublic (k : VerificationKey K) : Type 0 where
    pub jwk : Fields
    pub public_key : PublicKey K
    pub created : create_public_key jwk ≡ some public_key
    pub same : k.key ≡ public_key.key
    pub not_private : has_any (Value.keys jwk) private_fields ≡ false
    pub long : (k.alg ≡ es256) ⊎ (2048 ≤ public_key.modulus_length)

  pub record IsKeySet (ks : List (VerificationKey K)) : Type 0 where
    pub some_keys : 1 ≤ length ks
    pub bounded : length ks ≤ max_jwks_keys
    pub public : All IsPublic ks
    pub distinct : DistinctTexts (kids ks)
    pub told_apart : (length ks ≡ 1) ⊎ All (λ k. is_some k.kid ≡ true) ks

  checked_key-ok :
      (kid : Option Text) (alg : SignatureAlgorithm) (o : Option (PublicKey K))
      (k : VerificationKey K)
      → checked_key create_public_key kid alg o ≡ ok k
      → (pk : PublicKey K) × (o ≡ some pk)
        × (k.key ≡ pk.key)
        × (k.kid ≡ kid)
        × ((k.alg ≡ es256) ⊎ (2048 ≤ pk.modulus_length))
  checked_key-ok kid alg none k h = ground arith
  checked_key-ok kid rs256 (some pk) k h =
      (pk, refl, ground arith, ground arith, inr (ground arith))
  checked_key-ok kid es256 (some pk) k h =
      (pk, refl, ground arith, ground arith, inl (ground arith))

  parse_key-IsPublic :
      (seen : List Text) (v : Value) (k : VerificationKey K)
      → parse_key create_public_key seen v ≡ ok k
      → IsPublic k × (is_new_kid seen k.kid ≡ true)
  unfolding parse_key
  parse_key-IsPublic seen (obj jwk) k h =
      elim (Result-cases (kid_of (Value.get jwk (text "kid")))) [
        | inr (e, bad) ↦ ground arith
        | inl (kid, named) ↦ elim (Result-cases (algorithm_for_jwk jwk)) [
          | inr (e, bad) ↦ ground arith
          | inl (alg, typed) ↦
              let (pk, created, same, kept, long) =
                checked_key-ok kid alg (create_public_key jwk) k (ground arith) in
              (
                record {
                  jwk = jwk;
                  public_key = pk;
                  created = created;
                  same = same;
                  not_private = ground arith;
                  long = long;
                },
                ground arith,
              )
        ]
      ]
  parse_key-IsPublic seen v k h = ground arith

  parse_keys-cons :
      (seen : List Text) (v : Value) (vs : List Value) (ks : List (VerificationKey K))
      → parse_keys create_public_key seen (v ∷ vs) ≡ ok ks
      → (k : VerificationKey K) × (rest : List (VerificationKey K)) × (ks ≡ k ∷ rest)
        × (parse_key create_public_key seen v ≡ ok k)
        × (parse_keys create_public_key (add_kid k.kid seen) vs ≡ ok rest)
  unfolding parse_keys
  parse_keys-cons seen v vs ks h = elim (Result-cases (parse_key create_public_key seen v)) [
    | inr (e, bad) ↦ ground arith
    | inl (k, good) ↦ elim (Result-cases (parse_keys create_public_key (add_kid k.kid seen) vs)) [
      | inr (e, bad) ↦ ground arith
      | inl (rest, done) ↦ (k, rest, ground arith, good, done)
    ]
  ]

  -- A new kid before kids that come later.
  kids-cons :
      (kid : Option Text) (seen ts : List Text)
      → is_new_kid seen kid ≡ true
      → Unseen (add_kid kid seen) ts
      → DistinctTexts ts
      → DistinctTexts (add_kid kid ts) × Unseen seen (add_kid kid ts)
  kids-cons none seen ts new unseen distinct = (distinct, unseen)
  kids-cons (some s) seen ts new unseen distinct =
      let (absent, older) = Unseen-cons s seen ts unseen in
      ((absent, distinct), (ground arith, older))

  parse_keys-ok :
      (seen : List Text) (vs : List Value) (ks : List (VerificationKey K))
      → parse_keys create_public_key seen vs ≡ ok ks
      → All IsPublic ks × DistinctTexts (kids ks) × Unseen seen (kids ks) × (length ks ≡ length vs)
  parse_keys-ok seen [] ks h =
      let e : ks ≡ [] = unfold parse_keys in ground arith in rw e (tt, tt, tt, refl)
  parse_keys-ok seen (v ∷ vs) ks h =
      let (k, rest, shape, parsed, later) = parse_keys-cons seen v vs ks h in
      let (public_key, new) = parse_key-IsPublic seen v k parsed in
      let (public, distinct, unseen, count) = parse_keys-ok (add_kid k.kid seen) vs rest later in
      let (all_distinct, all_unseen) = kids-cons k.kid seen (kids rest) new unseen distinct in
      rw shape ((public_key, public), all_distinct, all_unseen, ap suc count)

  lacks_kid-false :
      (ks : List (VerificationKey K))
      → lacks_kid create_public_key ks ≡ false
      → All (λ k. is_some k.kid ≡ true) ks
  unfolding lacks_kid
  lacks_kid-false [] h = tt
  lacks_kid-false (k ∷ ks) h = (ground arith, lacks_kid-false ks (ground arith))

  parse_entries-IsKeySet :
      (v : Value) (ks : List (VerificationKey K))
      → parse_entries create_public_key v ≡ ok ks
      → IsKeySet ks
  parse_entries-IsKeySet (arr vs) ks h =
      elim (Result-cases (parse_keys create_public_key [] (Value.items vs))) [
        | inr (e, bad) ↦ ground arith
        | inl (parsed, done) ↦
            let same : parsed ≡ ks = ground arith in
            let (public, distinct, _, count) = parse_keys-ok [] (Value.items vs) parsed done in
            subst IsKeySet same (record {
              some_keys = ground (arith, count);
              bounded = ground (arith, count);
              public = public;
              distinct = distinct;
              told_apart = elim (Bool-cases (lacks_kid create_public_key parsed)) [
                | inl lacking ↦ inl (ground (arith, count))
                | inr named ↦ inr (lacks_kid-false parsed named)
              ];
            })
      ]
  parse_entries-IsKeySet v ks h = ground arith

  -- A key set that is accepted has 1 to 16 keys, each made of a JWK without private fields, an RSA key
  -- of at least 2048 bits. Its kids are distinct, and every key of several has one.
  pub parse_oidc_jwks-IsKeySet :
      (document : Value) (ks : List (VerificationKey K))
      → parse_oidc_jwks create_public_key document ≡ ok ks
      → IsKeySet ks
  unfolding parse_oidc_jwks
  parse_oidc_jwks-IsKeySet (obj document) ks h =
      parse_entries-IsKeySet (Value.get document (text "keys")) ks h
  parse_oidc_jwks-IsKeySet v ks h = ground arith
