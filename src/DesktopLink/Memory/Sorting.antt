-- ===== src/DesktopLink/Memory/Sorting.antt =====
-- desktop-link-record.ts: the sort of `listLatestConsumed`.
use vsn_voice_ai.Prelude.{
  ℕ, zero, suc, ◌≡◌, Bool, true, false, List, [], ◌∷◌, arith, Bool-cases, inl, inr, All, Any,
  All-take, take,
}
use vsn_voice_ai.Js.Text.{Text, text_eq, text_eq_iff}
use vsn_voice_ai.Js.Date.{Dates, before}
use vsn_voice_ai.DesktopLink.Record.{DesktopLinkRecord}
use vsn_voice_ai.DesktopLink.Memory.{linked_time, goes_after, insert, sort}

-- The records are of different devices.
abbrev pub DistinctDevices : List DesktopLinkRecord → Type 0
DistinctDevices [] = Unit
DistinctDevices (r ∷ rs) =
    All (λ q. text_eq r.device_id q.device_id ≡ false) rs × DistinctDevices rs

pub text_eq-sym : (s t : Text) → text_eq s t ≡ false → text_eq t s ≡ false
text_eq-sym s t h = ground (arith, text_eq_iff s t, text_eq_iff t s)

pub DistinctDevices-take :
    (n : ℕ) (rs : List DesktopLinkRecord) → DistinctDevices rs → DistinctDevices (take n rs)
DistinctDevices-take zero rs h = tt
DistinctDevices-take (suc n) [] h = tt
DistinctDevices-take (suc n) (r ∷ rs) (new, h) =
    (All-take (λ q. text_eq r.device_id q.device_id ≡ false) n rs new, DistinctDevices-take n rs h)

module _ (dates : Dates) (locale_after : Text → Text → Bool) where
  -- Sorting keeps what holds of every record, and distinct devices.
  pub All-insert :
      (P : DesktopLinkRecord → Type 0) (r : DesktopLinkRecord) (xs : List DesktopLinkRecord)
      → P r
      → All P xs
      → All P (insert dates locale_after r xs)
  unfolding insert
  All-insert P r [] p h = (p, tt)
  All-insert P r (x ∷ xs) p (q, h) = elim (Bool-cases (goes_after dates locale_after x r)) [
    | inl later ↦ rw later (p, (q, h))
    | inr not_later ↦ rw not_later (q, All-insert P r xs p h)
  ]

  pub DistinctDevices-insert :
      (r : DesktopLinkRecord) (xs : List DesktopLinkRecord)
      → All (λ q. text_eq r.device_id q.device_id ≡ false) xs
      → DistinctDevices xs
      → DistinctDevices (insert dates locale_after r xs)
  unfolding insert
  DistinctDevices-insert r [] n d = (tt, tt)
  DistinctDevices-insert r (x ∷ xs) (n, ns) (e, d) =
      elim (Bool-cases (goes_after dates locale_after x r)) [
        | inl later ↦ rw later ((n, ns), (e, d))
        | inr not_later ↦ rw not_later (
          All-insert (λ q. text_eq x.device_id q.device_id ≡ false) r xs
              (text_eq-sym r.device_id x.device_id n) e,
          DistinctDevices-insert r xs ns d,
        )
      ]

  -- `x` is not linked before the first of the records that follow it.
  abbrev pub Precedes : DesktopLinkRecord → List DesktopLinkRecord → Type 0
  Precedes x [] = Unit
  Precedes x (y ∷ ys) = before (linked_time dates x) (linked_time dates y) ≡ false

  abbrev pub LatestFirst : List DesktopLinkRecord → Type 0
  LatestFirst [] = Unit
  LatestFirst (x ∷ xs) = Precedes x xs × LatestFirst xs

  goes_after-before :
      (x r : DesktopLinkRecord)
      → goes_after dates locale_after x r ≡ true
      → before (linked_time dates r) (linked_time dates x) ≡ false
  unfolding goes_after
  goes_after-before x r h = ground arith

  not-goes_after-before :
      (x r : DesktopLinkRecord)
      → goes_after dates locale_after x r ≡ false
      → before (linked_time dates x) (linked_time dates r) ≡ false
  unfolding goes_after
  not-goes_after-before x r h = ground arith

  Precedes-insert :
      (x r : DesktopLinkRecord) (xs : List DesktopLinkRecord)
      → goes_after dates locale_after x r ≡ false
      → Precedes x xs
      → Precedes x (insert dates locale_after r xs)
  unfolding insert
  Precedes-insert x r [] g h = not-goes_after-before x r g
  Precedes-insert x r (y ∷ ys) g h = elim (Bool-cases (goes_after dates locale_after y r)) [
    | inl later ↦ rw later (not-goes_after-before x r g)
    | inr not_later ↦ rw not_later h
  ]

  LatestFirst-insert :
      (r : DesktopLinkRecord) (xs : List DesktopLinkRecord)
      → LatestFirst xs
      → LatestFirst (insert dates locale_after r xs)
  unfolding insert
  LatestFirst-insert r [] h = (tt, tt)
  LatestFirst-insert r (x ∷ xs) (p, h) = elim (Bool-cases (goes_after dates locale_after x r)) [
    | inl later ↦ rw later (goes_after-before x r later, (p, h))
    | inr not_later ↦ rw not_later (Precedes-insert x r xs not_later p, LatestFirst-insert r xs h)
  ]

  Precedes-take :
      (n : ℕ) (x : DesktopLinkRecord) (xs : List DesktopLinkRecord)
      → Precedes x xs
      → Precedes x (take n xs)
  Precedes-take zero x xs h = tt
  Precedes-take (suc n) x [] h = tt
  Precedes-take (suc n) x (y ∷ ys) h = h

  pub LatestFirst-take :
      (n : ℕ) (xs : List DesktopLinkRecord) → LatestFirst xs → LatestFirst (take n xs)
  LatestFirst-take zero xs h = tt
  LatestFirst-take (suc n) [] h = tt
  LatestFirst-take (suc n) (x ∷ xs) (p, h) = (Precedes-take n x xs p, LatestFirst-take n xs h)

  module _ (P : DesktopLinkRecord → Type 0) where
    pub All-sort :
        (sorted rs : List DesktopLinkRecord)
        → All P sorted
        → All P rs
        → All P (sort dates locale_after sorted rs)
    unfolding sort
    All-sort sorted [] h k = h
    All-sort sorted (r ∷ rs) h (p, k) =
        All-sort (insert dates locale_after r sorted) rs (All-insert P r sorted p h) k

  pub LatestFirst-sort :
      (sorted rs : List DesktopLinkRecord)
      → LatestFirst sorted
      → LatestFirst (sort dates locale_after sorted rs)
  unfolding sort
  LatestFirst-sort sorted [] h = h
  LatestFirst-sort sorted (r ∷ rs) h =
      LatestFirst-sort (insert dates locale_after r sorted) rs (LatestFirst-insert r sorted h)

  -- None of the records still to be sorted is of a device that is sorted already.
  abbrev pub Apart : List DesktopLinkRecord → List DesktopLinkRecord → Type 0
  Apart sorted rs = All (λ r. All (λ q. text_eq r.device_id q.device_id ≡ false) sorted) rs

  Apart-insert :
      (r : DesktopLinkRecord) (sorted rs : List DesktopLinkRecord)
      → All (λ q. text_eq r.device_id q.device_id ≡ false) rs
      → Apart sorted rs
      → Apart (insert dates locale_after r sorted) rs
  Apart-insert r sorted [] n h = tt
  Apart-insert r sorted (x ∷ rs) (n, ns) (a, h) = (
    All-insert (λ q. text_eq x.device_id q.device_id ≡ false) r sorted
        (text_eq-sym r.device_id x.device_id n) a,
    Apart-insert r sorted rs ns h,
  )

  pub DistinctDevices-sort :
      (sorted rs : List DesktopLinkRecord)
      → DistinctDevices sorted
      → DistinctDevices rs
      → Apart sorted rs
      → DistinctDevices (sort dates locale_after sorted rs)
  unfolding sort
  DistinctDevices-sort sorted [] d k a = d
  DistinctDevices-sort sorted (r ∷ rs) d (n, k) (a, as_) =
      DistinctDevices-sort (insert dates locale_after r sorted) rs
        (DistinctDevices-insert r sorted a d) k (Apart-insert r sorted rs n as_)

  pub Apart-nil : (rs : List DesktopLinkRecord) → Apart [] rs
  Apart-nil [] = tt
  Apart-nil (r ∷ rs) = (tt, Apart-nil rs)

  module _ (P : DesktopLinkRecord → Type 0) where
    Any-insert_self :
        (r : DesktopLinkRecord) (xs : List DesktopLinkRecord)
        → P r
        → Any P (insert dates locale_after r xs)
    unfolding insert
    Any-insert_self r [] p = inl p
    Any-insert_self r (x ∷ xs) p = elim (Bool-cases (goes_after dates locale_after x r)) [
      | inl later ↦ rw later (inl p)
      | inr not_later ↦ rw not_later (inr (Any-insert_self r xs p))
    ]

    Any-insert :
        (r : DesktopLinkRecord) (xs : List DesktopLinkRecord)
        → Any P xs
        → Any P (insert dates locale_after r xs)
    unfolding insert
    Any-insert r [] h = elim h [ ]
    Any-insert r (x ∷ xs) h = elim (Bool-cases (goes_after dates locale_after x r)) [
      | inl later ↦ rw later (inr h)
      | inr not_later ↦ elim h [
        | inl p ↦ rw not_later (inl p)
        | inr later ↦ rw not_later (inr (Any-insert r xs later))
      ]
    ]

    Any-sorted :
        (sorted rs : List DesktopLinkRecord)
        → Any P sorted
        → Any P (sort dates locale_after sorted rs)
    unfolding sort
    Any-sorted sorted [] h = h
    Any-sorted sorted (r ∷ rs) h =
        Any-sorted (insert dates locale_after r sorted) rs (Any-insert r sorted h)

    pub Any-sort :
        (sorted rs : List DesktopLinkRecord) → Any P rs → Any P (sort dates locale_after sorted rs)
    unfolding sort
    Any-sort sorted [] h = elim h [ ]
    Any-sort sorted (r ∷ rs) h = elim h [
      | inl p ↦ Any-sorted (insert dates locale_after r sorted) rs (Any-insert_self r sorted p)
      | inr later ↦ Any-sort (insert dates locale_after r sorted) rs later
    ]
