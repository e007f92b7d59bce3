-- ===== src/Web/Proxy/Paths.antt =====
-- apps/web/lib/api-proxy.ts: the paths that buildUpstreamPath makes.
use vsn_voice_ai.Prelude.{
  ℕ, ◌≤◌, ◌≡◌, refl, ◌↔◌, true, ◌||◌, some, List, [], ◌∷◌, ◌++◌, ◌==◌, length, all, All, arith,
}
use vsn_voice_ai.Js.Text.{Text, text}
use vsn_voice_ai.Web.Proxy.{
  UriEncoding, is_first, is_path_segment, is_segment, joined, build_upstream_path,
}

-- A segment of 1 to 256 letters, digits and marks that does not begin with a dot, so that it is
-- neither `.` nor `..`, and holds no `/`, `?` or `#`.
pub record IsPlain (s : Text) : Type 0 where
  pub first : ℕ
  pub rest : Text
  pub shape : s ≡ first ∷ rest
  pub begins : is_first first ≡ true
  pub goes_on : all (λ d. is_first d || d == b'.') rest ≡ true
  pub short : length s ≤ 256

is_segment_iff : (s : Text) → (is_segment s ≡ true) ↔ IsPlain s
unfolding is_path_segment
is_segment_iff [] = (λ h. ground arith, λ p. let e = p.shape in cc)
is_segment_iff (c ∷ s) = (
  λ h. record {
    first = c;
    rest = s;
    shape = refl;
    begins = ground arith;
    goes_on = ground arith;
    short = ground arith;
  },
  λ p. let e = p.shape in let b = p.begins in let g = p.goes_on in let l = p.short in ground arith,
)

all-is_segment_iff : (ss : List Text) → (all is_segment ss ≡ true) ↔ All IsPlain ss
all-is_segment_iff [] = (λ h. tt, λ h. refl)
all-is_segment_iff (s ∷ ss) = (
  λ h. ((is_segment_iff s).0 (ground arith), (all-is_segment_iff ss).0 (ground arith)),
  λ (p, ps). ground (arith, (is_segment_iff s).1 p, (all-is_segment_iff ss).1 ps),
)

encode_plain : (uri : UriEncoding) (s : Text) → IsPlain s → uri.encode s ≡ s
encode_plain uri s p = uri.encode-unreserved s (rw (p.shape) (ground (arith, p.begins, p.goes_on)))

joined-encode :
    (uri : UriEncoding) (ss : List Text)
    → All IsPlain ss
    → joined uri.encode ss ≡ joined (λ s. s) ss
unfolding joined
joined-encode uri [] h = refl
joined-encode uri (s ∷ []) (p, h) = encode_plain uri s p
joined-encode uri (s ∷ t ∷ ss) (p, h) = rw (encode_plain uri s p, joined-encode uri (t ∷ ss) h) refl

-- A path is made exactly of 1 to 8 plain segments: it is `/v1/` and these, as they are, with slashes
-- between them.
pub build_upstream_path_iff :
    (uri : UriEncoding) (segments : List Text) (path : Text)
    → (build_upstream_path uri segments ≡ some path) ↔ (
        (1 ≤ length segments)
        × (length segments ≤ 8)
        × All IsPlain segments
        × (path ≡ text "/v1/" ++ joined (λ s. s) segments))
unfolding build_upstream_path
build_upstream_path_iff uri segments path = (
  λ h.
      let plain : all is_segment segments ≡ true = ground arith in
      let are = (all-is_segment_iff segments).0 plain in
      let same = joined-encode uri segments are in
      (ground arith, ground arith, are, ground (arith, same)),
  λ (low, high, are, e).
      let plain = (all-is_segment_iff segments).1 are in
      let same = joined-encode uri segments are in ground arith,
)
