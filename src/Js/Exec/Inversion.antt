-- ===== src/Js/Exec/Inversion.antt =====
-- What a call that returns a value did: inversion of each way to build one.
use vsn_voice_ai.Prelude.{◌≡◌, refl, ◌⊎◌, Bool, true, false, inl, inr, arith}
use vsn_voice_ai.Js.Result.{Result, ok, err, Result-cases}
use vsn_voice_ai.Js.Exec.{Exec, lift, guard, catching, ◌>>=◌, ◌>>◌}

pub lift-inv :
    {S E A B : Type 0} (r : Result E A) (f : A → Exec S E B) {s s' : S} {b : B}
    → (lift r >>= f) s ≡ (ok b, s')
    → (a : A) × (r ≡ ok a) × (f a s ≡ (ok b, s'))
lift-inv (ok a) f h = (a, refl, h)
lift-inv (err e) f h = ground arith

pub catching-inv :
    {S E F A : Type 0} (g : E → F) (m : Exec S E A) (s : S) {s' : S} {a : A}
    → catching g m s ≡ (ok a, s')
    → m s ≡ (ok a, s')
catching-inv g m s h = elim (Result-cases (m s).0) [
  | inl (a, e) ↦ ground arith
  | inr (x, e) ↦ ground arith
]

pub bind-inv :
    {S E A B : Type 0} (m : Exec S E A) (f : A → Exec S E B) (s : S) {s' : S} {b : B}
    → (m >>= f) s ≡ (ok b, s')
    → (a : A) × (r : S) × (m s ≡ (ok a, r)) × (f a r ≡ (ok b, s'))
bind-inv m f s h = elim (Result-cases (m s).0) [
  | inl (a, e) ↦ (a, (m s).1, ground arith, ground arith)
  | inr (x, e) ↦ ground arith
]

pub guard-inv :
    {S E B : Type 0} (test : Bool) (e : E) (k : Exec S E B) (s : S) {s' : S} {b : B}
    → (guard test e >> k) s ≡ (ok b, s')
    → (test ≡ true) × (k s ≡ (ok b, s'))
guard-inv true e k s h = (refl, h)
guard-inv false e k s h = ground arith

-- What a call that throws did: its first part threw, or what follows it.
pub bind-err :
    {S E A B : Type 0} (m : Exec S E A) (f : A → Exec S E B) (s : S) {s' : S} {e : E}
    → (m >>= f) s ≡ (err e, s')
    → ((m s) ≡ (err e, s')) ⊎ ((a : A) × (r : S) × (m s ≡ (ok a, r)) × (f a r ≡ (err e, s')))
bind-err m f s h = elim (Result-cases (m s).0) [
  | inl (a, e) ↦ inr (a, (m s).1, ground arith, ground arith)
  | inr (x, e) ↦ inl (ground arith)
]

pub lift-err :
    {S E A B : Type 0} (r : Result E A) (f : A → Exec S E B) (s : S) {s' : S} {e : E}
    → (lift r >>= f) s ≡ (err e, s')
    → (r ≡ err e) ⊎ ((a : A) × (r ≡ ok a) × (f a s ≡ (err e, s')))
lift-err (ok a) f s h = inr (a, refl, h)
lift-err (err x) f s h = inl (ground arith)

pub catching-err :
    {S E F A : Type 0} (g : E → F) (m : Exec S E A) (s : S) {s' : S} {x : F}
    → catching g m s ≡ (err x, s')
    → (e : E) × (m s ≡ (err e, s')) × (x ≡ g e)
catching-err g m s h = elim (Result-cases (m s).0) [
  | inl (a, e) ↦ ground arith
  | inr (y, e) ↦ (y, ground arith, ground arith)
]
