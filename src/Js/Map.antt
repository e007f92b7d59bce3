-- ===== src/Js/Map.antt =====
-- `Map` with string keys: entries in insertion order, a write to a present key keeps its place.
use vsn_voice_ai.Prelude.{
  ◌≡◌, refl, sym, subst, inl, inr, Bool-cases, All, Any, false, Option, none, some, List, [], ◌∷◌,
  map, arith, if◌then◌else◌,
}
use vsn_voice_ai.Js.Text.{Text, text_eq, text_eq_iff}

module _ {ℓ} {V : Type ℓ} where
  -- `m.get(k)`
  unfoldable pub get : List (Text × V) → Text → Option V
  get [] k = none
  get ((j, v) ∷ m) k = if text_eq j k then some v else get m k

  -- `m.set(k, v)`
  unfoldable pub set : List (Text × V) → Text → V → List (Text × V)
  set [] k v = (k, v) ∷ []
  set ((j, w) ∷ m) k v = if text_eq j k then (j, v) ∷ m else (j, w) ∷ set m k v

  -- `[...m.values()]`
  abbrev pub values : List (Text × V) → List V
  values m = map (λ e. e.1) m

  pub get-set :
      (m : List (Text × V)) (k j : Text) (v : V)
      → get (set m k v) j ≡ (if text_eq k j then some v else get m j)
  unfolding get set
  get-set [] k j v = refl
  get-set ((i, w) ∷ m) k j v =
      ground (arith, text_eq_iff k j, text_eq_iff i k, text_eq_iff i j, get-set m k j v)

  -- What holds of every entry holds after a write of an entry of which it holds.
  pub All-set {κ} :
      (P : Text × V → Type κ) (m : List (Text × V)) (k : Text) (v : V)
      → P (k, v)
      → All P m
      → All P (set m k v)
  unfolding set
  All-set P [] k v p h = (p, tt)
  All-set P ((j, w) ∷ m) k v p (q, h) = elim (Bool-cases (text_eq j k)) [
    | inl same ↦ rw same (subst (λ i. P (i, v)) (sym ((text_eq_iff j k).0 same)) p, h)
    | inr other ↦ rw other (q, All-set P m k v p h)
  ]

  -- The entries have different keys.
  abbrev pub DistinctKeys : List (Text × V) → Type ℓ
  DistinctKeys [] = Unit
  DistinctKeys (e ∷ m) = All (λ f. text_eq e.0 f.0 ≡ false) m × DistinctKeys m

  pub DistinctKeys-set :
      (m : List (Text × V)) (k : Text) (v : V) → DistinctKeys m → DistinctKeys (set m k v)
  unfolding set
  DistinctKeys-set [] k v h = (tt, tt)
  DistinctKeys-set ((j, w) ∷ m) k v (new, h) = elim (Bool-cases (text_eq j k)) [
    | inl same ↦ rw same (new, h)
    | inr other ↦
        rw other (All-set (λ f. text_eq j f.0 ≡ false) m k v other new, DistinctKeys-set m k v h)
  ]

  pub All-get {κ} :
      (P : Text × V → Type κ) (m : List (Text × V)) (k : Text) (v : V)
      → All P m
      → get m k ≡ some v
      → P (k, v)
  unfolding get
  All-get P [] k v h e = cc
  All-get P ((j, w) ∷ m) k v (p, h) e = elim (Bool-cases (text_eq j k)) [
    | inl same ↦
        let found : w ≡ v = ground arith in
        subst (λ i. P (i, v)) ((text_eq_iff j k).0 same) (subst (λ x. P (j, x)) found p)
    | inr other ↦ All-get P m k v h (ground arith)
  ]

  pub Any-get :
      (P : V → Type 0) (m : List (Text × V)) (k : Text) (v : V)
      → get m k ≡ some v
      → P v
      → Any P (values m)
  unfolding get
  Any-get P [] k v e p = cc
  Any-get P ((j, w) ∷ m) k v e p = elim (Bool-cases (text_eq j k)) [
    | inl same ↦ let found : v ≡ w = ground arith in inl (subst P found p)
    | inr other ↦ inr (Any-get P m k v (ground arith) p)
  ]
