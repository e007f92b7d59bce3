-- ===== src/Js/Exec/Reads.antt =====
-- Calls that never change the state, one rule for each way to build a call.
use vsn_voice_ai.Prelude.{◌≡◌, refl, ◌∙◌}
use vsn_voice_ai.Js.Result.{Result, ok, err}
use vsn_voice_ai.Js.Exec.{Exec, pure, lift, throw, proceed, ◌>>=◌}

pub record OnlyReads {S E A : Type 0} (m : Exec S E A) : Type 0 where
  pub at : (s : S) → (m s).1 ≡ s

module _ {S E A : Type 0} where
  pub OnlyReads-pure : (a : A) → OnlyReads {S = S} {E = E} (pure a)
  OnlyReads-pure a = record { at = λ s. refl }

  pub OnlyReads-throw : (e : E) → OnlyReads {S = S} {A = A} (throw e)
  OnlyReads-throw e = record { at = λ s. refl }

  pub OnlyReads-lift : (r : Result E A) → OnlyReads {S = S} (lift r)
  OnlyReads-lift r = record { at = λ s. refl }

module _ {S E A B : Type 0} where
  proceed-reads :
      (f : A → Exec S E B) (t : Result E A × S)
      → ((a : A) → OnlyReads (f a))
      → (proceed f t).1 ≡ t.1
  proceed-reads f (ok a, s) h = (h a).at s
  proceed-reads f (err e, s) h = refl

  pub OnlyReads-bind :
      (m : Exec S E A) (f : A → Exec S E B)
      → OnlyReads m
      → ((a : A) → OnlyReads (f a))
      → OnlyReads (m >>= f)
  OnlyReads-bind m f hm hf = record { at = λ s. proceed-reads f (m s) hf ∙ hm.at s }

pub ruleset reads_rules = (OnlyReads-pure, OnlyReads-throw, OnlyReads-lift, OnlyReads-bind)
