-- ===== src/DesktopLink/Runtime.antt =====
-- runtime-desktop-link-record-store.ts: the store behind the runtime boundary.
use vsn_voice_ai.Prelude.{
  ℕ, zero, suc, ◌+◌, ◌≡◌, refl, ◌⊎◌, inl, inr, Bool, true, false, Option, none, some, arith,
  if◌then◌else◌,
}
use vsn_voice_ai.Js.Text.{Text}
use vsn_voice_ai.Js.Result.{ok, err, Result-cases}
use vsn_voice_ai.Js.Exec.{Exec, throw, catching}
use vsn_voice_ai.DesktopLink.Record.{
  DesktopLinkRecord, DesktopLinkRecordStore, Failure, unavailable,
}

-- RejectingDesktopLinkRecordStore: no method does anything but throw.
unfoldable pub rejecting_store : {S : Type 0} → DesktopLinkRecordStore S
rejecting_store = record {
  put = λ r. throw unavailable;
  get = λ id. throw unavailable;
  consume_if_issued = λ id digest at. throw unavailable;
  revoke_if_issued = λ id subject_id organization_id at. throw unavailable;
  list_latest_consumed = λ subject_id organization_id limit. throw unavailable;
}

-- The `catch` of every method: the error itself if it is the unavailable one, else that one.
unfoldable pub collapse : Failure → Failure
collapse unavailable = unavailable
collapse error = unavailable

-- RuntimeDesktopLinkRecordStore's data methods.
unfoldable pub runtime_store : {S : Type 0} → DesktopLinkRecordStore S → DesktopLinkRecordStore S
runtime_store delegate = record {
  put = λ r. catching collapse (delegate.put r);
  get = λ id. catching collapse (delegate.get id);
  consume_if_issued = λ id digest at. catching collapse (delegate.consume_if_issued id digest at);
  revoke_if_issued = λ id subject_id organization_id at.
      catching collapse (delegate.revoke_if_issued id subject_id organization_id at);
  list_latest_consumed = λ subject_id organization_id limit.
      catching collapse (delegate.list_latest_consumed subject_id organization_id limit);
}

-- `createRuntimeDesktopLinkRecordStore`: the store over a client's, where a database is configured.
unfoldable pub create_runtime_store :
    {S Config : Type 0}
    → Option Config
    → (Config → DesktopLinkRecordStore S)
    → DesktopLinkRecordStore S
create_runtime_store none postgres_store = runtime_store rejecting_store
create_runtime_store (some config) postgres_store = runtime_store (postgres_store config)

-- A call behind the boundary: the value and the state of the call itself, or the one error.
abbrev pub IsBehind : {S A : Type 0} → Exec S Failure A → Exec S Failure A → Type 0
IsBehind {S} {A} m n =
    (s : S)
    → ((a : A) × ((n s).0 ≡ ok a) × ((m s).0 ≡ ok a) × ((m s).1 ≡ (n s).1))
      ⊎ ((e : Failure) × ((n s).0 ≡ err e) × ((m s).0 ≡ err unavailable) × ((m s).1 ≡ (n s).1))

catching-IsBehind : {S A : Type 0} (n : Exec S Failure A) → IsBehind (catching collapse n) n
unfolding collapse
catching-IsBehind n s = elim (Result-cases (n s).0) [
  | inl (a, e) ↦ inl (a, e, ground arith, ground arith)
  | inr (x, e) ↦ inr (x, e, ground arith, ground arith)
]

-- Every method of the runtime store returns the delegate's value, or throws the unavailable error
-- where the delegate throws anything; either way it leaves the delegate's state.
pub runtime_store-IsBehind :
    {S : Type 0} (store : DesktopLinkRecordStore S) (r : DesktopLinkRecord)
    (id digest at subject_id organization_id : Text) (limit : ℕ)
    → IsBehind ((runtime_store store).put r) (store.put r)
      × IsBehind ((runtime_store store).get id) (store.get id)
      × IsBehind
          ((runtime_store store).consume_if_issued id digest at)
          (store.consume_if_issued id digest at)
      × IsBehind
          ((runtime_store store).revoke_if_issued id subject_id organization_id at)
          (store.revoke_if_issued id subject_id organization_id at)
      × IsBehind
          ((runtime_store store).list_latest_consumed subject_id organization_id limit)
          (store.list_latest_consumed subject_id organization_id limit)
unfolding runtime_store
runtime_store-IsBehind store r id digest at s o limit = (
  catching-IsBehind (store.put r),
  catching-IsBehind (store.get id),
  catching-IsBehind (store.consume_if_issued id digest at),
  catching-IsBehind (store.revoke_if_issued id s o at),
  catching-IsBehind (store.list_latest_consumed s o limit),
)

-- The object's part in the shutdown: whether it owns a client, whether `closePromise` is set, and how
-- often the client has been told to close.
pub record Shutdown : Type 0 where
  pub owns_client : Bool
  pub closing : Bool
  pub close_calls : ℕ

abbrev pub started : Bool → Shutdown
started owns = record { owns_client = owns; closing = false; close_calls = 0 }

unfoldable pub on_application_shutdown : Shutdown → Shutdown
on_application_shutdown s =
    if s.owns_client
    then (if s.closing then s else record s { closing = true; close_calls = s.close_calls + 1 })
    else s

unfoldable pub shut_down_times : ℕ → Shutdown → Shutdown
unfolding on_application_shutdown
shut_down_times zero s = s
shut_down_times (suc n) s = shut_down_times n (on_application_shutdown s)

closing-shut_down_times :
    (n : ℕ) (s : Shutdown) → s.closing ≡ true → (shut_down_times n s).close_calls ≡ s.close_calls
unfolding shut_down_times
closing-shut_down_times zero s h = refl
closing-shut_down_times (suc n) s h =
    ground (arith, closing-shut_down_times n (on_application_shutdown s))

-- However often the application shuts down, an owned client is closed once, and no other ever.
pub shut_down_once :
    (n : ℕ) (owns : Bool)
    → (shut_down_times (suc n) (started owns)).close_calls ≡ (if owns then 1 else 0)
unfolding shut_down_times
shut_down_once n true =
    closing-shut_down_times n (record { owns_client = true; closing = true; close_calls = 1 }) refl
shut_down_once n false = none_closed n
  where
    none_closed : (n : ℕ) → (shut_down_times n (started false)).close_calls ≡ 0
    none_closed zero = refl
    none_closed (suc n) = none_closed n
