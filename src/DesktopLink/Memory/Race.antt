-- ===== src/DesktopLink/Memory/Race.antt =====
-- desktop-link-record.ts: what holds of an exchange under every order of store calls.
use vsn_voice_ai.Prelude.{
  ℕ, ◌+◌, ◌≤◌, ◌≡◌, refl, Bool, true, false, some, List, [], ◌∷◌, arith, ◌∙◌, ap, if◌then◌else◌,
  Option-cases, Bool-cases, inl, inr,
}
use vsn_voice_ai.Js.Text.{Text, text_eq, text_eq_iff}
use vsn_voice_ai.Js.Map
use vsn_voice_ai.Js.Map.{get-set}
use vsn_voice_ai.Js.Date.{Dates}
use vsn_voice_ai.DesktopLink.Record.{DesktopLinkRecord, is_issued}
use vsn_voice_ai.DesktopLink.Memory.{
  Memory, update, consume_if_issued, revoke_if_issued, revocable, consumable, consumed_record,
  revoked_record,
}
use vsn_voice_ai.DesktopLink.Memory.Calls.{
  StoreCall, put_call, consume_call, revoke_call, settles, run_call, run_calls, wins, touch,
  get-run_call,
}

-- What no call changes.
pub record SameExchange (r q : DesktopLinkRecord) : Type 0 where
  pub record_id : q.record_id ≡ r.record_id
  pub token_digest : q.token_digest ≡ r.token_digest
  pub subject_id : q.subject_id ≡ r.subject_id
  pub organization_id : q.organization_id ≡ r.organization_id
  pub device_id : q.device_id ≡ r.device_id
  pub issued_at : q.issued_at ≡ r.issued_at
  pub expires_at : q.expires_at ≡ r.expires_at

module _ (dates : Dates) where
  -- A call leaves a record that is not issued.
  pub touch-settled :
      (c : StoreCall) (id : Text) (r : DesktopLinkRecord)
      → is_issued r.status ≡ false
      → touch dates c id r ≡ r
  unfolding touch revocable
  touch-settled (put_call p) id r s = refl
  touch-settled (consume_call id' digest at) id r s = ground arith
  touch-settled (revoke_call id' sub org at) id r s = ground arith

  touch-SameExchange :
      (c : StoreCall) (id : Text) (r : DesktopLinkRecord) → SameExchange r (touch dates c id r)
  unfolding touch
  touch-SameExchange (put_call p) id r = ground arith
  touch-SameExchange (consume_call id' digest at) id r = ground arith
  touch-SameExchange (revoke_call id' sub org at) id r = ground arith

  -- Once a record is consumed or revoked, no sequence of store calls changes it or removes it.
  pub run_calls-settled :
      (cs : List StoreCall) (m : Memory) (id : Text) (r : DesktopLinkRecord)
      → Map.get m id ≡ some r
      → is_issued r.status ≡ false
      → Map.get (run_calls dates cs m) id ≡ some r
  unfolding run_calls
  run_calls-settled [] m id r h s = h
  run_calls-settled (c ∷ cs) m id r h s =
      run_calls-settled cs (run_call dates c m) id r
        (get-run_call dates c m id r h ∙ ap some (touch-settled c id r s)) s

  update-wins :
      (id j : Text) (fits : DesktopLinkRecord → Bool)
      (change : DesktopLinkRecord → DesktopLinkRecord) (m : Memory)
      → settles j (update id fits change m).0 (text_eq id j) ≡ true
      → (r : DesktopLinkRecord) × (Map.get m j ≡ some r) × (fits r ≡ true) × (text_eq id j ≡ true)
  unfolding update
  update-wins id j fits change m h = elim (Option-cases (Map.get m id)) [
    | inl missing ↦ ground arith
    | inr (r, found) ↦ (r, ground (arith, text_eq_iff id j), ground arith, ground arith)
  ]

  -- A winning call finds the record issued, and leaves it settled.
  wins-settles :
      (c : StoreCall) (m : Memory) (id : Text)
      → wins dates id c m ≡ true
      → (r : DesktopLinkRecord) × (Map.get m id ≡ some r)
        × (is_issued r.status ≡ true)
        × (is_issued (touch dates c id r).status ≡ false)
  unfolding wins touch consume_if_issued revoke_if_issued
  wins-settles (put_call p) m id h = cc
  wins-settles (consume_call id' digest at) m id h =
      let (r, found, fit, same) = update-wins id' id (consumable digest) (consumed_record at) m h in
      (r, found, ground arith, ground arith)
  wins-settles (revoke_call id' sub org at) m id h =
      let (r, found, fit, same) =
        update-wins id' id (revocable dates sub org at) revoked_record m h in
      (r, found, unfold revocable in ground arith, ground arith)

  -- How many of the calls, made in turn, end the exchange `id`.
  unfoldable pub count_wins : Text → List StoreCall → Memory → ℕ
  count_wins id [] m = 0
  count_wins id (c ∷ cs) m =
      (if wins dates id c m then 1 else 0) + count_wins id cs (run_call dates c m)

  settled-wins :
      (c : StoreCall) (m : Memory) (id : Text) (r : DesktopLinkRecord)
      → Map.get m id ≡ some r
      → is_issued r.status ≡ false
      → wins dates id c m ≡ false
  settled-wins c m id r h s = elim (Bool-cases (wins dates id c m)) [
    | inl won ↦ let (q, found, open_, _) = wins-settles c m id won in ground arith
    | inr lost ↦ lost
  ]

  settled-count_wins :
      (cs : List StoreCall) (m : Memory) (id : Text) (r : DesktopLinkRecord)
      → Map.get m id ≡ some r
      → is_issued r.status ≡ false
      → count_wins id cs m ≡ 0
  unfolding count_wins
  settled-count_wins [] m id r h s = refl
  settled-count_wins (c ∷ cs) m id r h s = rw (settled-wins c m id r h s) (
      omega (
        arith,
        settled-count_wins cs (run_call dates c m) id r
            (get-run_call dates c m id r h ∙ ap some (touch-settled c id r s)) s,
      ))

  -- In every sequence of store calls at most one consumes or revokes the exchange `id`.
  pub count_wins-le_one : (cs : List StoreCall) (m : Memory) (id : Text) → count_wins id cs m ≤ 1
  unfolding count_wins
  count_wins-le_one [] m id = omega arith
  count_wins-le_one (c ∷ cs) m id = elim (Bool-cases (wins dates id c m)) [
    | inl won ↦
        let (r, found, _, settled) = wins-settles c m id won in
        rw won (
          omega (
            arith,
            settled-count_wins cs (run_call dates c m) id (touch dates c id r)
                (get-run_call dates c m id r found) settled,
          ))
    | inr lost ↦ rw lost (omega (arith, count_wins-le_one cs (run_call dates c m) id))
  ]

  -- No sequence of store calls removes a record, or changes its identifiers, digest or dates.
  pub run_calls-SameExchange :
      (cs : List StoreCall) (m : Memory) (id : Text) (r : DesktopLinkRecord)
      → Map.get m id ≡ some r
      → (q : DesktopLinkRecord) × (Map.get (run_calls dates cs m) id ≡ some q) × SameExchange r q
  unfolding run_calls
  run_calls-SameExchange [] m id r h = (r, h, ground arith)
  run_calls-SameExchange (c ∷ cs) m id r h =
      let (q, found, same) =
        run_calls-SameExchange cs (run_call dates c m) id (touch dates c id r)
          (get-run_call dates c m id r h) in
      let first : SameExchange r (touch dates c id r) = touch-SameExchange c id r in
      (q, found, ground arith)
