-- ===== src/Runs/Requested.antt =====
-- internal/apisrv/handlers.go: what the handlers make of a request's fields: `normalizeTags`,
-- `parseRamp` on the decoded stages, and `protoEnum`.
use loadify.Prelude.{
  ℕ, ◌+◌, ◌≤◌, ◌≡◌, refl, Bytes, Bool, true, false, ◌||◌, String, string_eq, ◌==◌, ==_iff, Option,
  some, List, [], ◌∷◌, ◌++◌, All, All-append, leb, is_nil, length, length-append, arith,
  if◌then◌else◌,
}
use loadify.Wire.{Protocol, unspecified, http, https, grpc, websocket, sse}
use loadify.Scheduler.{RampStage}
use loadify.Importer.{runes_eq, trim_space, is_one_of}

abbrev pub max_tags : ℕ
max_tags = 12

-- The loop of normalizeTags; the tags seen are those put out.
unfoldable pub tags_loop : List Bytes → List Bytes → List Bytes
unfolding trim_space is_one_of
tags_loop [] out = out
tags_loop (t ∷ tags) out =
    let tag = trim_space t in
    let next = out ++ tag ∷ [] in
    if is_nil tag || is_one_of tag out
    then tags_loop tags out
    else if leb max_tags (length next)
    then next
    else tags_loop tags next

unfoldable pub normalize_tags : List Bytes → List Bytes
unfolding tags_loop
normalize_tags tags = tags_loop tags []

-- parseRamp behind its decoding: no data is ten users for half a minute, a JSON error is `none`.
unfoldable pub parse_ramp : Bool → Option (List RampStage) → Option (List RampStage)
parse_ramp true decoded =
    some (record { duration_ms = 30000; target_vus = 10; target_rps = 0 } ∷ [])
parse_ramp false decoded = decoded

unfoldable pub proto_enum : String → Protocol
proto_enum p =
    if p == "http"
    then http
    else if p == "https"
    then https
    else if p == "grpc"
    then grpc
    else if p == "websocket"
    then websocket
    else if p == "sse"
    then sse
    else unspecified

-- At most twelve tags, none of them empty and none twice.
abbrev pub Fresh : List Bytes → Type 0
Fresh [] = Unit
Fresh (t ∷ tags) = (is_one_of t tags ≡ false) × Fresh tags

abbrev pub AreTidy : List Bytes → Type 0
AreTidy tags = (length tags ≤ 12) × All (λ t. is_nil t ≡ false) tags × Fresh tags

is_one_of-append :
    (s t : Bytes) (out : List Bytes)
    → is_one_of s out ≡ false
    → (s == t) ≡ false
    → is_one_of s (out ++ t ∷ []) ≡ false
unfolding is_one_of
is_one_of-append s t [] e f = ground (arith, f)
is_one_of-append s t (o ∷ out) e f = ground (arith, e, is_one_of-append s t out, f)

Fresh-append :
    (t : Bytes) (out : List Bytes) → Fresh out → is_one_of t out ≡ false → Fresh (out ++ t ∷ [])
unfolding is_one_of
Fresh-append t [] f e = (refl, tt)
Fresh-append t (o ∷ out) (g, f) e =
    let apart : (o == t) ≡ false = ground (arith, e, ==_iff o t, ==_iff t o, ==_iff t t) in
    (is_one_of-append o t out g apart, Fresh-append t out f (ground (arith, e)))

if-AreTidy :
    (b : Bool) (one other : List Bytes)
    → (b ≡ true → AreTidy one)
    → (b ≡ false → AreTidy other)
    → AreTidy (if b then one else other)
if-AreTidy true one other g h = g refl
if-AreTidy false one other g h = h refl

-- One more tag, which is not empty and not there yet.
next-AreTidy :
    (tag : Bytes) (out : List Bytes)
    → length out + 1 ≤ 12
    → AreTidy out
    → is_nil tag || is_one_of tag out ≡ false
    → AreTidy (out ++ tag ∷ [])
next-AreTidy tag out few (le, full, fresh) keep =
    let whole : is_nil tag ≡ false = ground (arith, keep) in
    let apart : is_one_of tag out ≡ false = ground (arith, keep) in
    let size = length-append out (tag ∷ []) in
    (
      omega (arith, size, few),
      All-append (λ x. is_nil x ≡ false) out (tag ∷ []) full (whole, tt),
      Fresh-append tag out fresh apart,
    )

tags_loop-AreTidy :
    (tags out : List Bytes) → length out + 1 ≤ 12 → AreTidy out → AreTidy (tags_loop tags out)
unfolding tags_loop
tags_loop-AreTidy [] out few tidy = tidy
tags_loop-AreTidy (t ∷ tags) out few tidy =
    let tag = trim_space t in
    let next = out ++ tag ∷ [] in
    if-AreTidy (is_nil tag || is_one_of tag out) _ _ (λ skip. tags_loop-AreTidy tags out few tidy)
      (λ keep.
        let kept = next-AreTidy tag out few tidy keep in
        if-AreTidy (leb max_tags (length next)) next _ (λ last. kept)
          (λ more. tags_loop-AreTidy tags next (ground (arith, more)) kept))

-- Whatever tags are asked for, at most twelve are kept, none of them empty and none twice.
pub normalize_tags-AreTidy : (tags : List Bytes) → AreTidy (normalize_tags tags)
unfolding normalize_tags
normalize_tags-AreTidy tags = tags_loop-AreTidy tags [] (omega arith) (omega arith, tt, tt)
