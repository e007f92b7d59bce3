-- ===== src/DesktopLink/Memory/Machine/Implemented.antt =====
-- desktop-link-record.ts: the in-memory store implements the state machine of each exchange.
use vsn_voice_ai.Prelude.{
  ◌≡◌, ◌↔◌, refl, sym, subst, ap, ◌∙◌, Bool, false, ◌&&◌, none, some, List, [], ◌∷◌, arith,
  if◌then◌else◌, Option-cases, Bool-cases, inl, inr,
}
use vsn_voice_ai.Js.Text.{Text, text_eq, text_eq_iff}
use vsn_voice_ai.Js.Map
use vsn_voice_ai.Js.Map.{get-set}
use vsn_voice_ai.Js.Date.{Dates}
use vsn_voice_ai.DesktopLink.Record.{
  DesktopLinkRecord, DesktopLinkStatus, issued, consumed, revoked, expired, is_issued,
}
use vsn_voice_ai.DesktopLink.Memory.{
  Memory, put, consume_if_issued, revoke_if_issued, revocable, update, consumable, consumed_record,
  revoked_record,
}
use vsn_voice_ai.DesktopLink.Memory.Calls.{
  StoreCall, put_call, consume_call, revoke_call, run_call, run_calls, touch, get-run_call,
}
use vsn_voice_ai.DesktopLink.Memory.Race.{touch-settled}
use vsn_voice_ai.DesktopLink.Memory.Machine.{
  Exchange, unissued, terms_of, in_status, exchange_of, exchange_at, Obeys, Move, Runs, Runs-unique,
  issues, links, ends, rests, stays, moves,
}

module _ (dates : Dates) (j : Text) where
  -- A put leaves an exchange that was issued.
  put-rests :
      (p r : DesktopLinkRecord) (s : DesktopLinkStatus)
      → Move dates j (put_call p) (in_status s r) (in_status s r)
  put-rests p r issued = rests _ _ (λ x. x)
  put-rests p r consumed = rests _ _ (λ x. x)
  put-rests p r revoked = rests _ _ (λ x. x)
  put-rests p r expired = rests _ _ (λ x. x)

  settled-Move :
      (c : StoreCall) (r : DesktopLinkRecord) (s : DesktopLinkStatus)
      → r.status ≡ s
      → is_issued s ≡ false
      → ¬ Obeys dates j c (in_status s r)
      → Move dates j c (in_status s r) (exchange_of (some (touch dates c j r)))
  settled-Move c r s es settled disobeys =
      rw (touch-settled dates c j r (ap is_issued es ∙ settled)) (
        subst (λ x. Move dates j c (in_status s r) (in_status x r)) (sym es)
          (rests c (in_status s r) disobeys))

  consume-Move :
      (id digest at : Text) (r : DesktopLinkRecord) (s : DesktopLinkStatus)
      → r.status ≡ s
      → Move dates j
          (consume_call id digest at)
          (in_status s r)
          (exchange_of (some (touch dates (consume_call id digest at) j r)))
  unfolding touch
  consume-Move id digest at r issued es =
      elim (Bool-cases (text_eq id j && text_eq r.token_digest digest)) [
        | inl fit ↦
            rw (es, fit)
              (links id digest at (terms_of r) (
                ground (arith, text_eq_iff id j),
                ground (arith, text_eq_iff r.token_digest digest),
              ))
        | inr unfit ↦
            rw (es, unfit)
              (rests _ _ (λ o.
                let same = (text_eq_iff id j).1 o.0 in
                let digests = (text_eq_iff r.token_digest digest).1 o.1 in ground arith))
      ]
  consume-Move id digest at r consumed es =
      settled-Move (consume_call id digest at) r consumed es refl (λ x. x)
  consume-Move id digest at r revoked es =
      settled-Move (consume_call id digest at) r revoked es refl (λ x. x)
  consume-Move id digest at r expired es =
      settled-Move (consume_call id digest at) r expired es refl (λ x. x)

  revoke-Move :
      (id subject_id o at : Text) (r : DesktopLinkRecord) (s : DesktopLinkStatus)
      → r.status ≡ s
      → Move dates j
          (revoke_call id subject_id o at)
          (in_status s r)
          (exchange_of (some (touch dates (revoke_call id subject_id o at) j r)))
  unfolding touch revocable
  revoke-Move id subject_id o at r issued es =
      elim (Bool-cases
        (text_eq id j && revocable dates subject_id o at (record r { status = issued }))) [
          | inl fit ↦
              rw (es, fit)
                (ends id subject_id o at (terms_of r) (
                  ground (arith, text_eq_iff id j),
                  record {
                    subject = ground (arith, text_eq_iff r.subject_id subject_id);
                    organization = ground (arith, text_eq_iff r.organization_id o);
                    dated = ground arith;
                    begun = ground arith;
                    lasting = ground arith;
                  },
                ))
          | inr unfit ↦
              rw (es, unfit)
                (rests _ _ (λ ob.
                  let same = (text_eq_iff id j).1 ob.0 in
                  let subjects = (text_eq_iff r.subject_id subject_id).1 ob.1.subject in
                  let organizations = (text_eq_iff r.organization_id o).1 ob.1.organization in
                  let dated = ob.1.dated in
                  let begun = ob.1.begun in let lasting = ob.1.lasting in ground arith))
        ]
  revoke-Move id subject_id o at r consumed es =
      settled-Move (revoke_call id subject_id o at) r consumed es refl (λ x. x)
  revoke-Move id subject_id o at r revoked es =
      settled-Move (revoke_call id subject_id o at) r revoked es refl (λ x. x)
  revoke-Move id subject_id o at r expired es =
      settled-Move (revoke_call id subject_id o at) r expired es refl (λ x. x)

  -- An update of a record that is missing.
  get-update-none :
      (id : Text) (fits : DesktopLinkRecord → Bool) (change : DesktopLinkRecord → DesktopLinkRecord)
      (m : Memory)
      → Map.get m j ≡ none
      → Map.get (update id fits change m).1 j ≡ none
  unfolding update
  get-update-none id fits change m h = elim (Option-cases (Map.get m id)) [
    | inl missing ↦ ground arith
    | inr (q, found) ↦ ground (arith, get-set m id j (change q), text_eq_iff id j)
  ]

  get-put-none :
      (p : DesktopLinkRecord) (m : Memory)
      → Map.get m j ≡ none
      → Map.get (put p m).1 j ≡ (if text_eq p.record_id j then some p else none)
  unfolding put
  get-put-none p m h = ground (arith, get-set m p.record_id j p, text_eq_iff p.record_id j)

  first-Move :
      (c : StoreCall) (m : Memory)
      → Map.get m j ≡ none
      → Move dates j c unissued (exchange_at (run_call dates c m) j)
  unfolding run_call consume_if_issued revoke_if_issued
  first-Move (put_call p) m h = elim (Bool-cases (text_eq p.record_id j)) [
    | inl same ↦ rw (get-put-none p m h, same) (issues p ((text_eq_iff p.record_id j).0 same))
    | inr other ↦
        rw (get-put-none p m h, other)
          (rests _ _ (λ same. let e = (text_eq_iff p.record_id j).1 same in ground arith))
  ]
  first-Move (consume_call id digest at) m h =
      rw (get-update-none id (consumable digest) (consumed_record at) m h) (rests _ _ (λ x. x))
  first-Move (revoke_call id s o at) m h =
      rw (get-update-none id (revocable dates s o at) revoked_record m h) (rests _ _ (λ x. x))

  later-Move :
      (c : StoreCall) (r : DesktopLinkRecord)
      → Move dates j c (exchange_of (some r)) (exchange_of (some (touch dates c j r)))
  unfolding touch
  later-Move (put_call p) r = put-rests p r r.status
  later-Move (consume_call id digest at) r = consume-Move id digest at r r.status refl
  later-Move (revoke_call id s o at) r = revoke-Move id s o at r r.status refl

  run_call-Move :
      (c : StoreCall) (m : Memory)
      → Move dates j c (exchange_at m j) (exchange_at (run_call dates c m) j)
  run_call-Move c m = elim (Option-cases (Map.get m j)) [
    | inl missing ↦ rw missing (first-Move c m missing)
    | inr (r, found) ↦ rw (found, get-run_call dates c m j r found) (later-Move c r)
  ]

  run_calls-Runs :
      (cs : List StoreCall) (m : Memory)
      → Runs dates j cs (exchange_at m j) (exchange_at (run_calls dates cs m) j)
  unfolding run_calls
  run_calls-Runs [] m = stays
  run_calls-Runs (c ∷ cs) m = moves (run_call-Move c m) (run_calls-Runs cs (run_call dates c m))

  -- The in-memory store implements the machine: whatever calls are made, in whatever order, the
  -- exchange of each identifier ends in the one state to which the machine runs on them. There a put
  -- issues it if it is missing, a consume with its digest links an open one, a revoke by its subject
  -- and organization within its dates ends an open one, and any other call leaves it.
  pub run_calls_iff :
      (cs : List StoreCall) (m : Memory) (e : Exchange)
      → Runs dates j cs (exchange_at m j) e ↔ (exchange_at (run_calls dates cs m) j ≡ e)
  run_calls_iff cs m e = (
    Runs-unique dates j (run_calls-Runs cs m),
    λ same. subst (Runs dates j cs (exchange_at m j)) same (run_calls-Runs cs m),
  )
