-- ===== src/DesktopLink/Service/SingleUse.antt =====
-- desktop-link.service.ts: an exchange is used once, whatever happens in between.
use vsn_voice_ai.Prelude.{
  Option-cases, inl, inr, false, ℕ, ◌≡◌, refl, sym, ◌∙◌, ◌≢◌, Bool, some, List, arith,
}
use vsn_voice_ai.Js.Text.{Text, text_eq_refl}
use vsn_voice_ai.Js.Map
use vsn_voice_ai.Js.Map.{get-set}
use vsn_voice_ai.Js.Result.{ok}
use vsn_voice_ai.Js.Exec.{Exec}
use vsn_voice_ai.Js.Date.{Dates}
use vsn_voice_ai.Identity.Principal.{AuthenticatedPrincipal}
use vsn_voice_ai.DesktopLink.Record.{is_issued, DesktopLinkRecord, Failure}
use vsn_voice_ai.DesktopLink.Memory.{
  consume_if_issued, update, Memory, consumed_record, memory_store,
}
use vsn_voice_ai.DesktopLink.Memory.Calls.{StoreCall, run_calls}
use vsn_voice_ai.DesktopLink.Memory.Race.{run_calls-settled}
use vsn_voice_ai.DesktopLink.Service.{consume_commit, DesktopLinkBinding, consume}
use vsn_voice_ai.DesktopLink.Service.Consume.{consume_iff, consume-inv}

module _ (dates : Dates) (locale_after : Text → Text → Bool) (sha256_hex : Text → Text) where
  abbrev attempt :
      AuthenticatedPrincipal
      → Text
      → Text
      → Text
      → Text
      → ℕ
      → Exec Memory Failure DesktopLinkBinding
  attempt = consume (memory_store dates locale_after) dates sha256_hex

  -- After one successful `consume` of a record, and any store calls of other requests, a second one
  -- does not succeed, whoever makes it, with whatever token and at whatever time.
  pub consume_once :
      (p q : AuthenticatedPrincipal) (id o o' d d' token token' : Text) (now now' : ℕ)
      (m m' : Memory) (b b' : DesktopLinkBinding) (between : List StoreCall)
      → attempt p o d id token now m ≡ (ok b, m')
      → (attempt q o' d' id token' now' (run_calls dates between m')).0 ≢ ok b'
  consume_once p q id o o' d d' token token' now now' m m' b b' between first second =
      let (r, found, may, eb, em) =
        (consume_iff dates locale_after sha256_hex p o d id token now m b m').0 first in
      let settled =
        run_calls-settled dates between m' id (consumed_record (dates.to_iso now) r)
          (rw em (rw get-set (rw text_eq_refl refl))) refl in
      let (s, again, may') =
        consume-inv dates locale_after sha256_hex q o' d' id token' now'
          (run_calls dates between m') b' second in
      let same : some s ≡ some (consumed_record (dates.to_iso now) r) = sym again ∙ settled in
      ground (arith, may'.issued)

  abbrev commit : Text → Text → Text → Exec Memory Failure DesktopLinkBinding
  commit = consume_commit (memory_store dates locale_after) dates sha256_hex

  commit-stores :
      (id token at : Text) (m m' : Memory) (b : DesktopLinkBinding)
      → commit id token at m ≡ (ok b, m')
      → (r : DesktopLinkRecord) × (m' ≡ Map.set m id (consumed_record at r))
  unfolding consume_commit consume_if_issued update
  commit-stores id token at m m' b h = elim (Option-cases (Map.get m id)) [
    | inl missing ↦ ground arith
    | inr (r, found) ↦ (r, ground arith)
  ]

  settled-commit :
      (id token at : Text) (m : Memory) (b : DesktopLinkBinding) (r : DesktopLinkRecord)
      → Map.get m id ≡ some r
      → is_issued r.status ≡ false
      → (commit id token at m).0 ≢ ok b
  unfolding consume_commit consume_if_issued update
  settled-commit id token at m b r found settled h = ground arith

  -- Of requests that have all passed the checks of `consume` on one record, one at most completes:
  -- after it has, and any store calls of others, the rest of no other succeeds.
  pub consume_commit_once :
      (id token token' at at' : Text) (m m' : Memory) (b b' : DesktopLinkBinding)
      (between : List StoreCall)
      → commit id token at m ≡ (ok b, m')
      → (commit id token' at' (run_calls dates between m')).0 ≢ ok b'
  consume_commit_once id token token' at at' m m' b b' between first =
      let (r, em) = commit-stores id token at m m' b first in
      settled-commit id token' at' (run_calls dates between m') b' (consumed_record at r)
        (run_calls-settled dates between m' id (consumed_record at r)
          (rw em (rw get-set (rw text_eq_refl refl))) refl)
        refl
