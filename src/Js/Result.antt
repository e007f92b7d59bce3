-- ===== src/Js/Result.antt =====
-- Code that returns a value or throws.
use vsn_voice_ai.Prelude.{◌≡◌, refl, ◌⊎◌, inl, inr, Bool, true, false, arith}

pub data Result (E A : Type 0) : Type 0 where
  ok : A → Result E A
  err : E → Result E A

-- `if (!test) throw e`
abbrev pub guard : {E : Type 0} → Bool → E → Result E (Unit {0})
guard false thrown = err thrown
guard true thrown = ok tt

infixl 5 ◌>>=◌ ◌>>◌
abbrev pub ◌>>=◌ : {E A B : Type 0} → Result E A → (A → Result E B) → Result E B
err thrown >>= next = err thrown
ok value >>= next = next value

abbrev pub ◌>>◌ : {E B : Type 0} → Result E (Unit {0}) → Result E B → Result E B
check >> next = check >>= (λ passed. next)

-- `throw` of another error in place of the one caught
abbrev pub map_err : {E F A : Type 0} → (E → F) → Result E A → Result F A
map_err f (ok a) = ok a
map_err f (err e) = err (f e)

pub Result-cases :
    {E A : Type 0} (r : Result E A) → ((a : A) × (r ≡ ok a)) ⊎ ((e : E) × (r ≡ err e))
Result-cases (ok a) = inl (a, refl)
Result-cases (err e) = inr (e, refl)

-- What a chain that returns a value did first.
pub bind-inv :
    {E A B : Type 0} (r : Result E A) (f : A → Result E B) {b : B}
    → r >>= f ≡ ok b
    → (a : A) × (r ≡ ok a) × (f a ≡ ok b)
bind-inv (ok a) f h = (a, refl, h)
bind-inv (err e) f h = ground arith
