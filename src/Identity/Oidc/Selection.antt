-- ===== src/Identity/Oidc/Selection.antt =====
-- oidc-bearer-token-resolver.ts: the key that `selectKey` takes from a key set.
use vsn_voice_ai.Prelude.{
  ◌≡◌, refl, sym, ap, ◌∙◌, ◌⊎◌, inl, inr, true, false, Option, some, List, [], ◌∷◌, All, Any,
  All-imp, arith, Bool-cases, Option-cases,
}
use vsn_voice_ai.Js.Text.{Text, text_eq_iff, text_eq_refl, includes}
use vsn_voice_ai.Js.Distinct.{DistinctTexts}
use vsn_voice_ai.Js.Value.{Value, Fields}
use vsn_voice_ai.Js.Result.{ok}
use vsn_voice_ai.Identity.Oidc.{
  SignatureAlgorithm, rs256, es256, same_algorithm, VerificationKey, of_algorithm, has_kid,
  find_kid, select_key,
}
use vsn_voice_ai.Identity.Oidc.Jwks.{PublicKey, parse_oidc_jwks}
use vsn_voice_ai.Identity.Oidc.KeySets.{kids, parse_oidc_jwks-IsKeySet}

same_algorithm-eq : (a b : SignatureAlgorithm) → same_algorithm a b ≡ true → a ≡ b
same_algorithm-eq rs256 rs256 h = refl
same_algorithm-eq es256 es256 h = refl
same_algorithm-eq rs256 es256 h = cc
same_algorithm-eq es256 rs256 h = cc

module _ {K : Type 0} where
  find_kid-found :
      (kid : Text) (alg : SignatureAlgorithm) (ks : List (VerificationKey K))
      (k : VerificationKey K)
      → find_kid kid (of_algorithm alg ks) ≡ some k
      → Any (λ q. q ≡ k) ks × (k.alg ≡ alg) × (k.kid ≡ some kid)
  unfolding find_kid of_algorithm
  find_kid-found kid alg [] k h = cc
  find_kid-found kid alg (q ∷ ks) k h = elim (Bool-cases (same_algorithm q.alg alg)) [
    | inr other ↦
        let (here, same, named) = find_kid-found kid alg ks k (ground arith) in
        (inr here, same, named)
    | inl fits ↦ elim (Bool-cases (has_kid kid q)) [
      | inl named ↦
          let e : q ≡ k = ground arith in
          (
            inl e,
            ap (λ x. x.alg) (sym e) ∙ same_algorithm-eq q.alg alg fits,
            elim (Option-cases q.kid) [
              | inl absent ↦ ground arith
              | inr (s, has) ↦ ground (arith, text_eq_iff s kid)
            ],
          )
      | inr unnamed ↦
          let (here, same, named) = find_kid-found kid alg ks k (ground arith) in
          (inr here, same, named)
    ]
  ]

  kids-Any :
      (ks : List (VerificationKey K)) (k : VerificationKey K) (s : Text)
      → Any (λ q. q ≡ k) ks
      → k.kid ≡ some s
      → includes (kids ks) s ≡ true
  unfolding includes
  kids-Any [] k s h named = elim h [ ]
  kids-Any (q ∷ ks) k s (inl e) named =
      let its_kid : q.kid ≡ some s = ap (λ x. x.kid) e ∙ named in
      rw its_kid (rw (text_eq_refl s) refl)
  kids-Any (q ∷ ks) k s (inr later) named = elim (Option-cases q.kid) [
    | inl absent ↦ rw absent (kids-Any ks k s later named)
    | inr (t, has) ↦ ground (arith, kids-Any ks k s later named)
  ]

  kids-absent :
      (ks : List (VerificationKey K)) (s : Text)
      → includes (kids ks) s ≡ false
      → All (λ q. has_kid s q ≡ false) ks
  unfolding includes
  kids-absent [] s h = tt
  kids-absent (q ∷ ks) s h = elim (Option-cases q.kid) [
    | inl absent ↦ (ground arith, kids-absent ks s (ground arith))
    | inr (t, has) ↦ (ground arith, kids-absent ks s (ground arith))
  ]

  kids_unique :
      (ks : List (VerificationKey K)) (k : VerificationKey K) (s : Text)
      → DistinctTexts (kids ks)
      → Any (λ q. q ≡ k) ks
      → k.kid ≡ some s
      → All (λ q. (has_kid s q ≡ false) ⊎ (q ≡ k)) ks
  kids_unique [] k s distinct h named = elim h [ ]
  kids_unique (q ∷ ks) k s distinct (inl e) named =
      let its_kid : q.kid ≡ some s = ap (λ x. x.kid) e ∙ named in
      let all_distinct : (includes (kids ks) s ≡ false) × DistinctTexts (kids ks) =
        rw its_kid at distinct in
      (inr e, All-imp (λ x unnamed. inl unnamed) ks (kids-absent ks s (all_distinct.0)))
  kids_unique (q ∷ ks) k s distinct (inr later) named = elim (Option-cases q.kid) [
    | inl absent ↦
        let rest : DistinctTexts (kids ks) = rw absent at distinct in
        (inl (ground arith), kids_unique ks k s rest later named)
    | inr (t, has) ↦
        let all_distinct : (includes (kids ks) t ≡ false) × DistinctTexts (kids ks) =
          rw has at distinct in
        let (absent, rest) = all_distinct in
        (
          inl (ground (arith, kids-Any ks k s later named, text_eq_iff t s)),
          kids_unique ks k s rest later named,
        )
  ]

  -- In a key set that was accepted, a key that is selected by a kid has the header's algorithm and
  -- the kid, and is the only key of the set with it.
  pub select_key_unique :
      (create_public_key : Fields → Option (PublicKey K)) (document : Value)
      (ks : List (VerificationKey K)) (alg : SignatureAlgorithm) (kid : Text)
      (k : VerificationKey K)
      → parse_oidc_jwks create_public_key document ≡ ok ks
      → select_key ks alg (some kid) ≡ some k
      → Any (λ q. q ≡ k) ks
        × (k.alg ≡ alg)
        × (k.kid ≡ some kid)
        × All (λ q. (has_kid kid q ≡ false) ⊎ (q ≡ k)) ks
  unfolding select_key
  select_key_unique create_public_key document ks alg kid k parsed selected =
      let set = parse_oidc_jwks-IsKeySet create_public_key document ks parsed in
      let (member, same, named) = find_kid-found kid alg ks k selected in
      (member, same, named, kids_unique ks k kid set.distinct member named)
