-- ===== src/Identity/Oidc/Verified.antt =====
-- oidc-bearer-token-resolver.ts: what a token that `verify` accepts is.
use vsn_voice_ai.Prelude.{
  ℕ, ◌≤◌, ◌≡◌, refl, ◌↔◌, inl, inr, Bool, true, false, ◌&&◌, ◌||◌, Option, none, some, List, [],
  ◌∷◌, ◌++◌, arith, Bool-cases, length, ltb, ◌==◌,
}
use vsn_voice_ai.Js.Text.{Text, text, includes}
use vsn_voice_ai.Js.Value
use vsn_voice_ai.Js.Value.{Value, undefined, num, str, arr, obj, Fields, as_text, is_undefined}
use vsn_voice_ai.Identity.Principal.{AuthenticatedPrincipal}
use vsn_voice_ai.Identity.Oidc.{
  SignatureAlgorithm, VerificationKey, VerifierConfig, max_bearer_token_length, is_segment,
  decode_segment_json, split_dots, algorithm_of, select_key, is_optional_text, verify_claims,
  verify_signed, verify_algorithm, verify_header, verify_parts, verify,
}
use mathlib.Core.Option.{get_or}
use vsn_voice_ai.Identity.Oidc.Claims.{
  AreClaimsOf, principal_from_claims-AreClaimsOf, AreClaimsOf-principal_from_claims,
}

module _ {K : Type 0} (json_of : Text → Option Value)
    (verify_signature : SignatureAlgorithm → K → Text → Text → Option Bool)
    (config : VerifierConfig K) (now_ms : ℕ) where
  -- A token of the principal: three segments, of a header without critical extensions, with an
  -- algorithm whose selected key verifies the signature, and of the principal's claims.
  pub record IsTokenOf (p : AuthenticatedPrincipal) (token : Text) : Type 0 where
    pub header : Text
    pub payload : Text
    pub signature : Text
    pub fields : Fields
    pub alg : SignatureAlgorithm
    pub key : VerificationKey K
    pub claims : Fields
    pub bounded : length token ≤ max_bearer_token_length
    pub parts : split_dots token ≡ header ∷ payload ∷ signature ∷ []
    pub header_json : decode_segment_json json_of header ≡ obj fields
    pub not_critical : includes (Value.keys fields) (text "crit") ≡ false
    pub algorithm : algorithm_of (Value.get fields (text "alg")) ≡ some alg
    pub named : is_optional_text (Value.get fields (text "kid")) ≡ true
    pub selected : select_key config.keys alg (as_text (Value.get fields (text "kid"))) ≡ some key
    pub segment : is_segment signature ≡ true
    pub signed : verify_signature alg key.key (header ++ (b'.' ∷ payload)) signature ≡ some true
    pub payload_json : decode_segment_json json_of payload ≡ obj claims
    pub claimed : AreClaimsOf config now_ms p claims

  -- The token of three segments that the header's part of `verify` accepts.
  abbrev accepts : Text → Text → Text → Option AuthenticatedPrincipal
  accepts header payload signature =
      verify_parts json_of verify_signature config now_ms (header ∷ payload ∷ signature ∷ [])

  verify_claims-AreClaimsOf :
      (v : Value) (p : AuthenticatedPrincipal)
      → verify_claims json_of verify_signature config now_ms v ≡ some p
      → (claims : Fields) × (v ≡ obj claims) × AreClaimsOf config now_ms p claims
  verify_claims-AreClaimsOf (obj claims) p h = (
    claims,
    refl,
    principal_from_claims-AreClaimsOf json_of verify_signature config now_ms claims p h,
  )
  verify_claims-AreClaimsOf v p h = cc

  get_or-true : (o : Option Bool) → get_or o false ≡ true → o ≡ some true
  get_or-true none h = cc
  get_or-true (some b) h = ground arith

  abbrev Signed :
      Text → Text → Text → SignatureAlgorithm → VerificationKey K → AuthenticatedPrincipal → Type 0
  Signed header payload signature alg k p =
      (is_segment signature ≡ true)
      × (verify_signature alg k.key (header ++ (b'.' ∷ payload)) signature ≡ some true)
      × ((claims : Fields) × (decode_segment_json json_of payload ≡ obj claims)
          × AreClaimsOf config now_ms p claims)

  verify_signed-inv :
      (header payload signature : Text) (alg : SignatureAlgorithm) (o : Option (VerificationKey K))
      (p : AuthenticatedPrincipal)
      → verify_signed json_of verify_signature config now_ms header payload signature alg o ≡ some p
      → (k : VerificationKey K) × (o ≡ some k) × Signed header payload signature alg k p
  verify_signed-inv header payload signature alg none p h = cc
  verify_signed-inv header payload signature alg (some k) p h =
      elim (Bool-cases (
        is_segment signature
        && get_or (verify_signature alg k.key (header ++ (b'.' ∷ payload)) signature) false)) [
          | inr refused ↦ ground arith
          | inl passed ↦ (
            k,
            refl,
            (
              ground arith,
              get_or-true _ (ground arith),
              verify_claims-AreClaimsOf (decode_segment_json json_of payload) p (ground arith),
            ),
          )
        ]

  verify_algorithm-inv :
      (header payload signature : Text) (fs : Fields) (o : Option SignatureAlgorithm)
      (p : AuthenticatedPrincipal)
      → verify_algorithm json_of verify_signature config now_ms header payload signature fs o
        ≡ some p
      → (alg : SignatureAlgorithm) × (k : VerificationKey K) × (o ≡ some alg)
        × (is_optional_text (Value.get fs (text "kid")) ≡ true)
        × (select_key config.keys alg (as_text (Value.get fs (text "kid"))) ≡ some k)
        × Signed header payload signature alg k p
  verify_algorithm-inv header payload signature fs none p h = cc
  verify_algorithm-inv header payload signature fs (some alg) p h =
      elim (Bool-cases (is_optional_text (Value.get fs (text "kid")))) [
        | inr refused ↦ ground arith
        | inl named ↦
            let (k, selected, signed) =
              verify_signed-inv header payload signature alg
                (select_key config.keys alg (as_text (Value.get fs (text "kid")))) p
                (ground arith) in
            (alg, k, refl, named, selected, signed)
      ]

  verify_header-inv :
      (token header payload signature : Text) (v : Value) (p : AuthenticatedPrincipal)
      → length token ≤ max_bearer_token_length
      → split_dots token ≡ header ∷ payload ∷ signature ∷ []
      → decode_segment_json json_of header ≡ v
      → verify_header json_of verify_signature config now_ms header payload signature v ≡ some p
      → IsTokenOf p token
  verify_header-inv token header payload signature (obj fs) p small parts decoded h =
      elim (Bool-cases (includes (Value.keys fs) (text "crit"))) [
        | inl critical ↦ ground arith
        | inr plain ↦
            let (alg, k, named_alg, named, selected, signature_of) =
              verify_algorithm-inv header payload signature fs
                (algorithm_of (Value.get fs (text "alg"))) p (ground arith) in
            let (segment, signed, accepted) = signature_of in
            let (claims, payload_json, claimed) = accepted in
            record {
              header = header;
              payload = payload;
              signature = signature;
              fields = fs;
              alg = alg;
              key = k;
              claims = claims;
              bounded = small;
              parts = parts;
              header_json = decoded;
              not_critical = plain;
              algorithm = named_alg;
              named = named;
              selected = selected;
              segment = segment;
              signed = signed;
              payload_json = payload_json;
              claimed = claimed;
            }
      ]
  verify_header-inv token header payload signature v p small parts decoded h = cc

  verify_parts-inv :
      (token : Text) (ss : List Text) (p : AuthenticatedPrincipal)
      → length token ≤ max_bearer_token_length
      → split_dots token ≡ ss
      → verify_parts json_of verify_signature config now_ms ss ≡ some p
      → IsTokenOf p token
  verify_parts-inv token (header ∷ payload ∷ signature ∷ []) p small parts h =
      verify_header-inv token header payload signature (decode_segment_json json_of header) p small
        parts refl h
  verify_parts-inv token [] p small parts h = cc
  verify_parts-inv token (a ∷ []) p small parts h = cc
  verify_parts-inv token (a ∷ b ∷ []) p small parts h = cc
  verify_parts-inv token (a ∷ b ∷ c ∷ d ∷ ss) p small parts h = cc

  verify-IsTokenOf :
      (token : Text) (p : AuthenticatedPrincipal)
      → verify json_of verify_signature config now_ms token ≡ some p
      → IsTokenOf p token
  unfolding verify
  verify-IsTokenOf token p h =
      elim (Bool-cases (length token == 0 || ltb max_bearer_token_length (length token))) [
        | inl refused ↦ ground arith
        | inr fits ↦ verify_parts-inv token (split_dots token) p (ground arith) refl (ground arith)
      ]

  not_empty : (token a b c : Text) → split_dots token ≡ a ∷ b ∷ c ∷ [] → (length token == 0) ≡ false
  unfolding split_dots
  not_empty [] a b c h = cc
  not_empty (x ∷ s) a b c h = ground arith

  IsTokenOf-verify :
      (token : Text) (p : AuthenticatedPrincipal)
      → IsTokenOf p token
      → verify json_of verify_signature config now_ms token ≡ some p
  unfolding verify
  IsTokenOf-verify token p h =
      let claimed =
        AreClaimsOf-principal_from_claims json_of verify_signature config now_ms h.claims p
          h.claimed in
      let full = not_empty token h.header h.payload h.signature h.parts in
      let short : ltb max_bearer_token_length (length token) ≡ false = ground (arith, h.bounded) in
      simp (
        full, short, h.parts, h.header_json, h.not_critical, h.algorithm, h.named, h.selected,
        h.segment, h.signed, h.payload_json, claimed,
      )

  -- `verify` accepts a token as the principal's exactly when it is a token of the principal.
  pub verify_iff :
      (token : Text) (p : AuthenticatedPrincipal)
      → (verify json_of verify_signature config now_ms token ≡ some p) ↔ IsTokenOf p token
  verify_iff token p = (verify-IsTokenOf token p, IsTokenOf-verify token p)
