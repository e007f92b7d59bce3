-- ===== src/DesktopLink/Service/Revoke.antt =====
-- desktop-link.service.ts: when `revoke` succeeds, and what it leaves.
use vsn_voice_ai.Prelude.{
  ℕ, ◌≤◌, ◌≡◌, ◌≢◌, refl, sym, ap, ◌∙◌, ◌⊎◌, ◌↔◌, Bool, true, false, none, some, List, arith,
  Option-cases, Bool-cases, inl, inr, leb,
}
use vsn_voice_ai.Js.Text.{Text, text_eq_refl}
use vsn_voice_ai.Js.Map
use vsn_voice_ai.Js.Map.{get-set}
use vsn_voice_ai.Js.Result.{Result, ok}
use vsn_voice_ai.Js.Exec.{Exec}
use vsn_voice_ai.Js.Date.{Dates, at_or_after, before, max_time}
use vsn_voice_ai.Identity.Principal.{AuthenticatedPrincipal}
use vsn_voice_ai.DesktopLink.Record.{DesktopLinkRecord, revoked, is_issued, is_revoked, Failure}
use vsn_voice_ai.DesktopLink.Memory.{
  Memory, memory_store, get, revoke_if_issued, update, revoked_record,
}
use vsn_voice_ai.DesktopLink.Memory.Calls.{StoreCall, run_calls}
use vsn_voice_ai.DesktopLink.Memory.Race.{run_calls-settled}
use vsn_voice_ai.DesktopLink.Service.{
  DesktopLinkStatusSnapshot, DesktopLinkBinding, revoke, consume, require_lookup, snapshot_of,
  owned,
}
use vsn_voice_ai.DesktopLink.Service.Consume.{consume-inv}

module _ (dates : Dates) (locale_after : Text → Text → Bool) where
  module _ (p : AuthenticatedPrincipal) (o id : Text) (now : ℕ) where
    abbrev pub run_revoke : Exec Memory Failure DesktopLinkStatusSnapshot
    run_revoke = revoke (memory_store dates locale_after) dates p o id now

    -- Revoking `r` again: it is the caller's, and revoked already.
    pub record IsRevoked (r : DesktopLinkRecord) : Type 0 where
      pub named : require_lookup p o id ≡ ok tt
      pub owner : owned p.subject_id o r ≡ true
      pub revoked : is_revoked r.status ≡ true

    -- Revoking `r`: it is the caller's, issued, and `now` lies from its issue to before its expiry.
    pub record MayRevoke (r : DesktopLinkRecord) : Type 0 where
      pub named : require_lookup p o id ≡ ok tt
      pub owner : owned p.subject_id o r ≡ true
      pub issued : is_issued r.status ≡ true
      pub begun : before (some now) (dates.parse r.issued_at) ≡ false
      pub in_time : at_or_after (some now) (dates.parse r.expires_at) ≡ false
      pub dated : now ≤ max_time

    pub revoke-again :
        (m : Memory) (r : DesktopLinkRecord)
        → Map.get m id ≡ some r
        → IsRevoked r
        → run_revoke m ≡ (ok (snapshot_of r revoked none), m)
    unfolding revoke get
    revoke-again m r found h = ground arith

    revoke-granted :
        (m : Memory) (r : DesktopLinkRecord)
        → Map.get m id ≡ some r
        → MayRevoke r
        → run_revoke m ≡ (ok (snapshot_of r revoked none), Map.set m id (revoked_record r))
    unfolding revoke get revoke_if_issued update
    revoke-granted m r found h = ground (arith, dates.parse-to_iso now h.dated)

    revoke-inv :
        (m : Memory) (s : DesktopLinkStatusSnapshot)
        → (run_revoke m).0 ≡ ok s
        → (r : DesktopLinkRecord) × (Map.get m id ≡ some r) × (IsRevoked r ⊎ MayRevoke r)
    unfolding revoke get revoke_if_issued update
    revoke-inv m s h = elim (Option-cases (Map.get m id)) [
      | inl missing ↦ ground arith
      | inr (r, found) ↦ elim (Bool-cases (is_revoked r.status)) [
        | inl again ↦ (r, found, inl (ground arith))
        | inr first ↦ elim (Bool-cases (leb now max_time)) [
          | inl dated ↦ (r, found, inr (ground (arith, dates.parse-to_iso now (ground arith))))
          | inr late ↦ (r, found, inr (ground arith))
        ]
      ]
    ]

    revoke_unique :
        (m m' m'' : Memory) (s s' : DesktopLinkStatusSnapshot)
        → run_revoke m ≡ (ok s, m')
        → run_revoke m ≡ (ok s', m'')
        → (s ≡ s') × (m' ≡ m'')
    revoke_unique m m' m'' s s' h k =
        let e = sym h ∙ k in
        (
          ground (arith, ap (λ (t : Result Failure DesktopLinkStatusSnapshot × Memory). t.0) e),
          ap (λ t. t.1) e,
        )

    -- Over the in-memory store `revoke` succeeds exactly when the record is the caller's and is revoked
    -- already, when the store stays as it is, or is issued at this time and not expired, when it is
    -- stored as revoked. Either way the snapshot says revoked.
    pub revoke_iff :
        (m : Memory) (s : DesktopLinkStatusSnapshot) (m' : Memory)
        → (run_revoke m ≡ (ok s, m')) ↔ (
            (r : DesktopLinkRecord) × (Map.get m id ≡ some r)
            × (s ≡ snapshot_of r revoked none)
            × ((IsRevoked r × (m' ≡ m)) ⊎ (MayRevoke r × (m' ≡ Map.set m id (revoked_record r)))))
    revoke_iff m s m' = (
      λ h.
          let (r, found, why) = revoke-inv m s (ap (λ t. t.0) h) in
          elim why [
            | inl again ↦
                let (es, em) = revoke_unique m m' _ s _ h (revoke-again m r found again) in
                (r, found, es, inl (again, em))
            | inr first ↦
                let (es, em) = revoke_unique m m' _ s _ h (revoke-granted m r found first) in
                (r, found, es, inr (first, em))
          ],
      λ (r, found, es, why). elim why [
        | inl (again, em) ↦ rw (es, em) (revoke-again m r found again)
        | inr (first, em) ↦ rw (es, em) (revoke-granted m r found first)
      ],
    )

    -- What a successful `revoke` leaves: the caller's record, revoked.
    revoke-leaves :
        (m : Memory) (s : DesktopLinkStatusSnapshot) (m' : Memory)
        → run_revoke m ≡ (ok s, m')
        → (r : DesktopLinkRecord) × (Map.get m' id ≡ some r)
          × IsRevoked r
          × (s ≡ snapshot_of r revoked none)
    revoke-leaves m s m' h =
        let (r, found, es, why) = (revoke_iff m s m').0 h in
        elim why [
          | inl (again, em) ↦ (r, rw em found, again, es)
          | inr (first, em) ↦ (
            revoked_record r,
            rw em (rw get-set (rw text_eq_refl refl)),
            record { named = first.named; owner = first.owner; revoked = refl },
            es,
          )
        ]

  -- After a successful `revoke`, whatever store calls follow, no `consume` of the record succeeds, and
  -- the same caller's `revoke` at any time gives the same snapshot and changes nothing.
  pub revoke-final :
      (sha256_hex : Text → Text) (p q : AuthenticatedPrincipal) (o id o' d token : Text)
      (now now' : ℕ) (m m' : Memory) (s : DesktopLinkStatusSnapshot) (b : DesktopLinkBinding)
      (between : List StoreCall)
      → run_revoke p o id now m ≡ (ok s, m')
      → ((consume
            (memory_store dates locale_after)
            dates
            sha256_hex
            q
            o'
            d
            id
            token
            now'
            (run_calls dates between m')).0
          ≢ ok b)
        × (run_revoke p o id now' (run_calls dates between m') ≡ (ok s, run_calls dates between m'))
  revoke-final sha256_hex p q o id o' d token now now' m m' s b between h =
      let (r, found, again, es) = revoke-leaves p o id now m s m' h in
      let settled : is_issued r.status ≡ false = ground (arith, again.revoked) in
      let stays = run_calls-settled dates between m' id r found settled in
      (
        λ done.
            let (x, found', may) =
              consume-inv dates locale_after sha256_hex q o' d id token now'
                (run_calls dates between m') b done in
            let same : some x ≡ some r = sym found' ∙ stays in ground (arith, may.issued),
        rw es (
            revoke-again p o id now' (run_calls dates between m') r stays
              (record { named = again.named; owner = again.owner; revoked = again.revoked })),
      )
