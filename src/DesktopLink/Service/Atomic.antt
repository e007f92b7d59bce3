-- ===== src/DesktopLink/Service/Atomic.antt =====
-- desktop-link.service.ts: an operation that throws has changed nothing.
use vsn_voice_ai.Prelude.{
  ℕ, ◌≡◌, refl, ap, Bool, Option, none, some, arith, Option-cases, inl, inr, ◌⊎◌,
}
use vsn_voice_ai.Js.Text.{Text}
use vsn_voice_ai.Js.Map
use vsn_voice_ai.Js.Number.{Number}
use vsn_voice_ai.Js.Result.{ok, err, Result-cases}
use vsn_voice_ai.Js.Exec.{Exec}
use vsn_voice_ai.Js.Exec.Reads.{OnlyReads, reads_rules}
use vsn_voice_ai.Js.Date.{Dates}
use vsn_voice_ai.Identity.Principal.{AuthenticatedPrincipal}
use vsn_voice_ai.Organizations.Authorization.{AuthorizationContext}
use vsn_voice_ai.DesktopLink.Record.{DesktopLinkRecord}
use vsn_voice_ai.DesktopLink.Memory.{
  Memory, memory_store, put, get, consume_if_issued, revoke_if_issued, list_latest_consumed, update,
}
use vsn_voice_ai.DesktopLink.Memory.Inventory.{list_latest_consumed-IsPage}
use vsn_voice_ai.DesktopLink.Service.{issue, consume, inspect, revoke, list_linked, own_record}

-- A call either returns a value, or throws and leaves the state as it was.
abbrev pub IsAtomic : {S E A : Type 0} → Exec S E A → Type 0
IsAtomic {S} {E} {A} m = (s : S) → ((a : A) × ((m s).0 ≡ ok a)) ⊎ ((e : E) × (m s ≡ (err e, s)))

kept-IsAtomic :
    {S E A : Type 0} (m : Exec S E A)
    → ((s : S) (e : E) → (m s).0 ≡ err e → (m s).1 ≡ s)
    → IsAtomic m
kept-IsAtomic m kept s = elim (Result-cases (m s).0) [
  | inl (a, returned) ↦ inl (a, returned)
  | inr (e, thrown) ↦ inr (e, λ i. (thrown i, kept s e thrown i))
]

module _ (dates : Dates) (locale_after : Text → Text → Bool) (sha256_hex : Text → Text) where
  issue-IsAtomic :
      (a : AuthorizationContext) (d : Text) (ttl : Option Number) (now : ℕ) (id token : Text)
      → IsAtomic (issue (memory_store dates locale_after) dates sha256_hex a d ttl now id token)
  unfolding issue put
  issue-IsAtomic a d ttl now id token = kept-IsAtomic _ λ s e h.
      elim (Option-cases (Map.get s id)) [
        | inl missing ↦ ground arith
        | inr (r, found) ↦ ground arith
      ]

  consume-IsAtomic :
      (p : AuthenticatedPrincipal) (o d id token : Text) (now : ℕ)
      → IsAtomic (consume (memory_store dates locale_after) dates sha256_hex p o d id token now)
  unfolding consume get consume_if_issued update
  consume-IsAtomic p o d id token now = kept-IsAtomic _ λ s e h.
      elim (Option-cases (Map.get s id)) [
        | inl missing ↦ ground arith
        | inr (r, found) ↦ ground arith
      ]

  revoke-IsAtomic :
      (p : AuthenticatedPrincipal) (o id : Text) (now : ℕ)
      → IsAtomic (revoke (memory_store dates locale_after) dates p o id now)
  unfolding revoke get revoke_if_issued update
  revoke-IsAtomic p o id now = kept-IsAtomic _ λ s e h. elim (Option-cases (Map.get s id)) [
    | inl missing ↦ ground arith
    | inr (r, found) ↦ ground arith
  ]

  list_latest_consumed-OnlyReads :
      (s o : Text) (limit : ℕ) → OnlyReads (list_latest_consumed dates locale_after s o limit)
  list_latest_consumed-OnlyReads s o limit = record {
    at = λ m.
        let (page, listed, _) = list_latest_consumed-IsPage dates locale_after s o limit m in
        ap (λ t. t.1) listed;
  }

  get-OnlyReads : (id : Text) → OnlyReads (get id)
  unfolding get
  get-OnlyReads id = record { at = λ m. refl }

  own_record-OnlyReads :
      (s o : Text) (found : Option DesktopLinkRecord)
      → OnlyReads {S = Memory} (own_record s o found)
  own_record-OnlyReads s o none = record { at = λ m. refl }
  own_record-OnlyReads s o (some r) = record { at = λ m. ground arith }

  inspect-OnlyReads :
      (p : AuthenticatedPrincipal) (o id : Text) (now : ℕ)
      → OnlyReads (inspect (memory_store dates locale_after) dates p o id now)
  unfolding inspect
  inspect-OnlyReads p o id now = search (reads_rules, get-OnlyReads, own_record-OnlyReads)

  list_linked-OnlyReads :
      (p : AuthenticatedPrincipal) (o : Text)
      → OnlyReads (list_linked (memory_store dates locale_after) dates p o)
  unfolding list_linked
  list_linked-OnlyReads p o = search (reads_rules, list_latest_consumed-OnlyReads)

  -- An operation of the service that throws leaves the in-memory store as it was, and `inspect` and
  -- `listLinked` never change it.
  pub service-IsAtomic :
      (a : AuthorizationContext) (p : AuthenticatedPrincipal) (o d id token : Text)
      (ttl : Option Number) (now : ℕ)
      → IsAtomic (issue (memory_store dates locale_after) dates sha256_hex a d ttl now id token)
        × IsAtomic (consume (memory_store dates locale_after) dates sha256_hex p o d id token now)
        × IsAtomic (revoke (memory_store dates locale_after) dates p o id now)
        × OnlyReads (inspect (memory_store dates locale_after) dates p o id now)
        × OnlyReads (list_linked (memory_store dates locale_after) dates p o)
  service-IsAtomic a p o d id token ttl now = (
    issue-IsAtomic a d ttl now id token,
    consume-IsAtomic p o d id token now,
    revoke-IsAtomic p o id now,
    inspect-OnlyReads p o id now,
    list_linked-OnlyReads p o,
  )
