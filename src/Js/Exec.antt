-- ===== src/Js/Exec.antt =====
-- Asynchronous methods of an object with state `S`, run to their end: a result or an error, and
-- the state that is left.
pub mod Reads
pub mod Inversion
use vsn_voice_ai.Prelude.{Bool, true, false}
use vsn_voice_ai.Js.Result.{Result, ok, err}

abbrev pub Exec : Type 0 → Type 0 → Type 0 → Type 0
Exec S E A = S → Result E A × S

module _ {S E A : Type 0} where
  abbrev pub pure : A → Exec S E A
  pure a s = (ok a, s)

  abbrev pub lift : Result E A → Exec S E A
  lift r s = (r, s)

  abbrev pub throw : E → Exec S E A
  throw e s = (err e, s)

module _ {S E A B : Type 0} where
  abbrev pub proceed : (A → Exec S E B) → Result E A × S → Result E B × S
  proceed f (ok a, s) = f a s
  proceed f (err e, s) = (err e, s)

infixl 5 ◌>>=◌ ◌>>◌
abbrev pub ◌>>=◌ : {S E A B : Type 0} → Exec S E A → (A → Exec S E B) → Exec S E B
◌>>=◌ m f s = proceed f (m s)

abbrev pub ◌>>◌ : {S E B : Type 0} → Exec S E (Unit {0}) → Exec S E B → Exec S E B
m >> k = m >>= λ _. k

abbrev pub guard : {S E : Type 0} → Bool → E → Exec S E (Unit {0})
guard true e s = (ok tt, s)
guard false e s = (err e, s)

abbrev rethrow : {S E F A : Type 0} → (E → F) → Result E A × S → Result F A × S
rethrow f (ok a, s) = (ok a, s)
rethrow f (err e, s) = (err (f e), s)

-- `try { … } catch (error) { throw … }`
abbrev pub catching : {S E F A : Type 0} → (E → F) → Exec S E A → Exec S F A
catching f m s = rethrow f (m s)
