-- ===== src/Web/Proxy/Bodies.antt =====
-- apps/web/lib/api-proxy.ts: what readBoundedBody reads.
use vsn_voice_ai.Prelude.{
  ℕ, ◌+◌, ◌≤◌, ◌≡◌, refl, sym, ap, ◌∙◌, ◌↔◌, false, Option, none, some, List, [], ◌++◌, ltb, length,
  length-append, arith, Bool-cases, Option-cases, inl, inr,
}
use mathlib.Core.List.{append-nil, append_assoc}
use vsn_voice_ai.Js.Result.{ok}
use vsn_voice_ai.Web.Proxy.{Stream, done, broken, chunk, read_chunks, read_bounded_body}

-- All bytes of a stream that ends, `none` for one that breaks.
abbrev pub before_bytes : List ℕ → Option (List ℕ) → Option (List ℕ)
before_bytes bytes none = none
before_bytes bytes (some rest) = some (bytes ++ rest)

abbrev pub stream_bytes : Stream → Option (List ℕ)
stream_bytes done = some []
stream_bytes broken = none
stream_bytes (chunk bytes rest) = before_bytes bytes (stream_bytes rest)

abbrev pub body_bytes : Option Stream → Option (List ℕ)
body_bytes none = some []
body_bytes (some s) = stream_bytes s

read_chunks_sound :
    (limit : ℕ) (read : List ℕ) (s : Stream) (bytes : List ℕ)
    → length read ≤ limit
    → read_chunks limit read s ≡ ok (some bytes)
    → (rest : List ℕ) × (stream_bytes s ≡ some rest)
      × (bytes ≡ read ++ rest)
      × (length bytes ≤ limit)
unfolding read_chunks
read_chunks_sound limit read done bytes small h =
    let same : read ≡ bytes = ground arith in
    ([], refl, sym same ∙ sym (append-nil read), rw (sym same) small)
read_chunks_sound limit read broken bytes small h = cc
read_chunks_sound limit read (chunk more rest) bytes small h =
    elim (Bool-cases (ltb limit (length read + length more))) [
      | inl past ↦ ground arith
      | inr within ↦
          let (tail, all_of, e, bound) =
            read_chunks_sound limit (read ++ more) rest bytes
              (ground (arith, length-append read more)) (rw (within, read_chunks) at h) in
          (more ++ tail, rw all_of refl, e ∙ append_assoc read more tail, bound)
    ]

read_chunks_complete :
    (limit : ℕ) (read : List ℕ) (s : Stream) (rest : List ℕ)
    → stream_bytes s ≡ some rest
    → length (read ++ rest) ≤ limit
    → read_chunks limit read s ≡ ok (some (read ++ rest))
unfolding read_chunks
read_chunks_complete limit read done rest all_of small =
    let e : [] ≡ rest = ground arith in rw (← e) (ap (λ x. ok (some x)) (sym (append-nil read)))
read_chunks_complete limit read broken rest all_of small = cc
read_chunks_complete limit read (chunk more s) rest all_of small =
    elim (Option-cases (stream_bytes s)) [
      | inl fails ↦ ground arith
      | inr (tail, ends) ↦
          let e : more ++ tail ≡ rest = ground arith in
          let whole : (read ++ more) ++ tail ≡ read ++ rest =
            append_assoc read more tail ∙ ap (λ x. read ++ x) e in
          let fits : length ((read ++ more) ++ tail) ≤ limit = rw whole small in
          let within : ltb limit (length read + length more) ≡ false =
            ground (arith, length-append (read ++ more) tail, length-append read more) in
          rw (within, read_chunks)
            (read_chunks_complete limit (read ++ more) s tail ends fits
              ∙ ap (λ x. ok (some x)) whole)
    ]

-- `readBoundedBody` returns bytes exactly when the body ends within the limit, and then they are all
-- of its bytes, in order. A missing body has none.
pub read_bounded_body_iff :
    (body : Option Stream) (limit : ℕ) (bytes : List ℕ)
    → (read_bounded_body body limit ≡ ok (some bytes))
      ↔ ((body_bytes body ≡ some bytes) × (length bytes ≤ limit))
unfolding read_bounded_body
read_bounded_body_iff none limit bytes = (
  λ h. let e : [] ≡ bytes = ground arith in (ap some e, rw (← e) (omega arith)),
  λ (e, l). ground arith,
)
read_bounded_body_iff (some s) limit bytes = (
  λ h.
      let (rest, ends, e, bound) = read_chunks_sound limit [] s bytes (omega arith) h in
      (ends ∙ ap some (sym e), bound),
  λ (ends, bound). read_chunks_complete limit [] s bytes ends bound,
)
