-- ===== src/DesktopLink/Memory/Machine.antt =====
-- desktop-link-record.ts: the state machine of one exchange.
pub mod Implemented
use vsn_voice_ai.Prelude.{
  ◌≡◌, refl, sym, subst, ap, ◌∙◌, Bool, true, false, ◌&&◌, Option, none, some, List, [], ◌∷◌, arith,
  if◌then◌else◌, is_some, Option-cases, Bool-cases, inl, inr,
}
use vsn_voice_ai.Js.Text.{Text, text_eq, text_eq_iff}
use vsn_voice_ai.Js.Map
use vsn_voice_ai.Js.Map.{get-set}
use vsn_voice_ai.Js.Date.{Dates, before, at_or_after}
use vsn_voice_ai.DesktopLink.Record.{
  DesktopLinkRecord, DesktopLinkStatus, issued, consumed, revoked, expired, is_issued,
}
use vsn_voice_ai.DesktopLink.Memory.{
  Memory, put, consume_if_issued, revoke_if_issued, revocable, update, consumable, consumed_record,
  revoked_record,
}
use vsn_voice_ai.DesktopLink.Memory.Calls.{
  StoreCall, put_call, consume_call, revoke_call, run_call, run_calls, touch, get-run_call,
}
use vsn_voice_ai.DesktopLink.Memory.Race.{touch-settled}

-- What an exchange is about.
pub record Terms : Type 0 where
  pub token_digest : Text
  pub subject_id : Text
  pub organization_id : Text
  pub device_id : Text
  pub issued_at : Text
  pub expires_at : Text

pub data Exchange : Type 0 where
  unissued : Exchange
  opened : Terms → Exchange
  linked : Terms → Option Text → Exchange
  ended : Terms → Exchange
  lapsed : Terms → Exchange

abbrev pub terms_of : DesktopLinkRecord → Terms
terms_of r = record {
  token_digest = r.token_digest;
  subject_id = r.subject_id;
  organization_id = r.organization_id;
  device_id = r.device_id;
  issued_at = r.issued_at;
  expires_at = r.expires_at;
}

abbrev pub in_status : DesktopLinkStatus → DesktopLinkRecord → Exchange
in_status issued r = opened (terms_of r)
in_status consumed r = linked (terms_of r) r.consumed_at
in_status revoked r = ended (terms_of r)
in_status expired r = lapsed (terms_of r)

abbrev pub exchange_of : Option DesktopLinkRecord → Exchange
exchange_of none = unissued
exchange_of (some r) = in_status r.status r

-- The exchange `j` as the store has it; the order of the entries and the identifiers are forgotten.
abbrev pub exchange_at : Memory → Text → Exchange
exchange_at m j = exchange_of (Map.get m j)

module _ (dates : Dates) (j : Text) where
  -- The caller may end the exchange at that time.
  pub record MayEnd (t : Terms) (subject_id organization_id at : Text) : Type 0 where
    pub subject : t.subject_id ≡ subject_id
    pub organization : t.organization_id ≡ organization_id
    pub dated : is_some (dates.parse at) ≡ true
    pub begun : before (dates.parse at) (dates.parse t.issued_at) ≡ false
    pub lasting : at_or_after (dates.parse at) (dates.parse t.expires_at) ≡ false

  -- The calls that the exchange `j` obeys.
  abbrev pub Obeys : StoreCall → Exchange → Type 0
  Obeys (put_call p) unissued = p.record_id ≡ j
  Obeys (consume_call id digest at) (opened t) = (id ≡ j) × (t.token_digest ≡ digest)
  Obeys (revoke_call id s o at) (opened t) = (id ≡ j) × MayEnd t s o at
  Obeys c e = ⊥

  -- One step of the machine: a call that it obeys has its effect, any other has none.
  pub data Move : StoreCall → Exchange → Exchange → Type 0 where
    issues :
        (p : DesktopLinkRecord)
        → Obeys (put_call p) unissued
        → Move (put_call p) unissued (exchange_of (some p))
    links :
        (id digest at : Text) (t : Terms)
        → Obeys (consume_call id digest at) (opened t)
        → Move (consume_call id digest at) (opened t) (linked t (some at))
    ends :
        (id s o at : Text) (t : Terms)
        → Obeys (revoke_call id s o at) (opened t)
        → Move (revoke_call id s o at) (opened t) (ended t)
    rests : (c : StoreCall) (e : Exchange) → ¬ Obeys c e → Move c e e

  pub data Runs : List StoreCall → Exchange → Exchange → Type 0 where
    stays : {e : Exchange} → Runs [] e e
    moves :
        {c : StoreCall} {cs : List StoreCall} {e f g : Exchange}
        → Move c e f
        → Runs cs f g
        → Runs (c ∷ cs) e g

  -- The machine is deterministic.
  pub Move-unique : {c : StoreCall} {e f g : Exchange} → Move c e f → Move c e g → f ≡ g
  Move-unique (issues p o) (issues p' o') = refl
  Move-unique (issues p o) (rests c e n) = elim (n o) [ ]
  Move-unique (links id d u t o) (links id' d' u' t' o') = refl
  Move-unique (links id d u t o) (rests c e n) = elim (n o) [ ]
  Move-unique (ends id s u v t o) (ends id' s' u' v' t' o') = refl
  Move-unique (ends id s u v t o) (rests c e n) = elim (n o) [ ]
  Move-unique (rests c e n) (issues p o) = elim (n o) [ ]
  Move-unique (rests c e n) (links id d u t o) = elim (n o) [ ]
  Move-unique (rests c e n) (ends id s u v t o) = elim (n o) [ ]
  Move-unique (rests c e n) (rests c' e' n') = refl

  Runs-from : {cs : List StoreCall} {e f g : Exchange} → e ≡ f → Runs cs e g → Runs cs f g
  Runs-from {cs} {e} {f} {g} same run = subst (λ x. Runs cs x g) same run

  pub Runs-unique : {cs : List StoreCall} {e f g : Exchange} → Runs cs e f → Runs cs e g → f ≡ g
  Runs-unique stays stays = refl
  Runs-unique (moves a xs) (moves b ys) = Runs-unique xs (Runs-from (sym (Move-unique a b)) ys)
