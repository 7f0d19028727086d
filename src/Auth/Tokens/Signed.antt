-- ===== src/Auth/Tokens/Signed.antt =====
-- Tokens that were issued are accepted until they expire, and no others.
use loadify.Prelude.{
  ℕ, ◌+◌, ◌≡◌, refl, sym, ap, subst, ◌∙◌, true, false, Bytes, Option, none, some, List, [], ◌∷◌,
  ◌++◌, arith, eqb, is_nil, if◌then◌else◌, Bool-cases, inl, inr,
}
use loadify.Auth.Tokens.{
  Claims, Codec, KeepsTokens, has_dot, onto_first, split, equal, to_seconds, stamp, issue,
  is_expired, fresh_claims, read_payload, check_signature, parse_parts, parse,
}

equal_same : (s : Bytes) → equal s s ≡ true
unfolding equal
equal_same [] = refl
equal_same (c ∷ s) = ground (arith, equal_same s)

equal-same_text : (s t : Bytes) → equal s t ≡ true → s ≡ t
unfolding equal
equal-same_text [] [] h = refl
equal-same_text [] (c ∷ t) h = absurd (ground (arith, h))
equal-same_text (b ∷ s) [] h = absurd (ground (arith, h))
equal-same_text (b ∷ s) (c ∷ t) h = ground (arith, h, equal-same_text s t)

split-append : (a s : Bytes) → has_dot a ≡ false → split (a ++ 46 ∷ s) ≡ a ∷ split s
unfolding split onto_first has_dot
split-append [] s h = refl
split-append (c ∷ a) s h = ground (arith, h, split-append a s)

split-whole : (a : Bytes) → has_dot a ≡ false → split a ≡ a ∷ []
unfolding split onto_first has_dot
split-whole [] h = refl
split-whole (c ∷ a) h = ground (arith, h, split-whole a)

abbrev join : List Bytes → Bytes
join [] = []
join (part ∷ []) = part
join (part ∷ next ∷ parts) = part ++ 46 ∷ join (next ∷ parts)

split-cons : (s : Bytes) → (p : Bytes) × (ps : List Bytes) × (split s ≡ p ∷ ps)
unfolding split onto_first
split-cons [] = ([], [], refl)
split-cons (c ∷ s) =
    let (p, ps, e) = split-cons s in
    elim (Bool-cases (eqb c 46)) [
      | inl dot ↦ ([], split s, rw dot refl)
      | inr other ↦ (c ∷ p, ps, rw (other, e) refl)
    ]

join-onto_first :
    (c : ℕ) (p : Bytes) (ps : List Bytes) → join (onto_first c (p ∷ ps)) ≡ c ∷ join (p ∷ ps)
unfolding onto_first
join-onto_first c p [] = refl
join-onto_first c p (q ∷ ps) = refl

join-split : (s : Bytes) → join (split s) ≡ s
unfolding split
join-split [] = refl
join-split (c ∷ s) =
    let (p, ps, e) = split-cons s in
    let ih : join (p ∷ ps) ≡ s = ap join (sym e) ∙ join-split s in
    elim (Bool-cases (eqb c 46)) [
      | inl dot ↦ rw (dot, e) (ground (arith, dot, ih))
      | inr other ↦ rw (other, e) (join-onto_first c p ps ∙ ap (λ t. c ∷ t) ih)
    ]

split-three :
    (a b s : Bytes)
    → has_dot a ≡ false
    → has_dot b ≡ false
    → has_dot s ≡ false
    → split ((a ++ 46 ∷ b) ++ 46 ∷ s) ≡ a ∷ b ∷ s ∷ []
unfolding split onto_first has_dot
split-three [] b s ha hb hs =
    ap (λ ps. [] ∷ ps) (split-append b s hb ∙ ap (λ ps. b ∷ ps) (split-whole s hs))
split-three (c ∷ a) b s ha hb hs = ground (arith, ha, split-three a b s)

expired_same :
    (d c : Claims) (now : ℕ) → some d ≡ some c → is_expired d now ≡ false → is_expired c now ≡ false
expired_same d c now e h = cc

fresh_claims-some :
    (o : Option Claims) (now : ℕ) (c : Claims)
    → fresh_claims o now ≡ some c
    → (o ≡ some c) × (is_expired c now ≡ false)
unfolding fresh_claims
fresh_claims-some none now c e = ground (arith, e)
fresh_claims-some (some d) now c e = elim (Bool-cases (is_expired d now)) [
  | inl late ↦ ground (arith, late, e)
  | inr fresh ↦
      let same : some d ≡ some c = ground (arith, fresh, e) in
      (same, expired_same d c now same fresh)
]

read_payload-some :
    (k : Codec) (o : Option Bytes) (now : ℕ) (c : Claims)
    → read_payload k o now ≡ some c
    → (text : Bytes) × (o ≡ some text) × (k.unmarshal text ≡ some c) × (is_expired c now ≡ false)
unfolding read_payload
read_payload-some k none now c e = ground (arith, e)
read_payload-some k (some text) now c e =
    let (read, fresh) = fresh_claims-some (k.unmarshal text) now c e in (text, refl, read, fresh)

-- What a token that is accepted for the claims says in its parts.
abbrev pub Says : Codec → Bytes → Bytes → Option Bytes → Bytes → ℕ → Claims → Type 0
Says k head payload signature secret now c =
    (signature ≡ some (k.sign (head ++ 46 ∷ payload) secret))
    × (text : Bytes) × (k.unb64 payload ≡ some text)
    × (k.unmarshal text ≡ some c)
    × (is_expired c now ≡ false)

check_signature-Says :
    (k : Codec) (a b : Bytes) (o : Option Bytes) (secret : Bytes) (now : ℕ) (c : Claims)
    → check_signature k a b o secret now ≡ some c
    → Says k a b o secret now c
unfolding check_signature
check_signature-Says k a b none secret now c e = absurd (ground (arith, e))
check_signature-Says k a b (some got) secret now c e =
    elim (Bool-cases (equal (k.sign (a ++ 46 ∷ b) secret) got)) [
      | inr other ↦ absurd (ground (arith, other, e))
      | inl same ↦
          let read : read_payload k (k.unb64 b) now ≡ some c = ground (arith, same, e) in
          let (text, decoded, claims, fresh) = read_payload-some k (k.unb64 b) now c read in
          (
            ap (λ g. some g) (sym (equal-same_text (k.sign (a ++ 46 ∷ b) secret) got same)),
            text,
            decoded,
            claims,
            fresh,
          )
    ]

parse_parts-Says :
    (k : Codec) (parts : List Bytes) (secret : Bytes) (now : ℕ) (c : Claims)
    → parse_parts k parts secret now ≡ some c
    → (a : Bytes) × (b : Bytes) × (s : Bytes) × (parts ≡ a ∷ b ∷ s ∷ [])
      × Says k a b (k.unb64 s) secret now c
unfolding parse_parts
parse_parts-Says k [] secret now c e = absurd (ground (arith, e))
parse_parts-Says k (a ∷ []) secret now c e = absurd (ground (arith, e))
parse_parts-Says k (a ∷ b ∷ []) secret now c e = absurd (ground (arith, e))
parse_parts-Says k (a ∷ b ∷ s ∷ []) secret now c e =
    (a, b, s, refl, check_signature-Says k a b (k.unb64 s) secret now c e)
parse_parts-Says k (a ∷ b ∷ s ∷ t ∷ rest) secret now c e = absurd (ground (arith, e))

issued_parse :
    (k : Codec) (c : Claims) (secret : Bytes) (ttl now later : ℕ)
    → KeepsTokens k c
    → let signing = k.b64 k.header ++ 46 ∷ k.b64 (k.marshal (stamp c ttl now)) in
      parse k (signing ++ 46 ∷ k.b64 (k.sign signing secret)) secret later
      ≡ (if is_expired (stamp c ttl now) later then none else some (stamp c ttl now))
unfolding parse parse_parts check_signature read_payload fresh_claims stamp
issued_parse k c secret ttl now later l =
    let signing = k.b64 k.header ++ 46 ∷ k.b64 (k.marshal (stamp c ttl now)) in
    rw
      (
        split-three (k.b64 k.header) (k.b64 (k.marshal (stamp c ttl now)))
            (k.b64 (k.sign signing secret)) (l.b64-has_dot _) (l.b64-has_dot _) (l.b64-has_dot _),
        l.unb64-b64 (k.sign signing secret),
        equal_same (k.sign signing secret),
        l.unb64-b64 (k.marshal (stamp c ttl now)),
        l.unmarshal-marshal (to_seconds now) (to_seconds (now + ttl)),
      )
      refl

-- A token that was issued is accepted under its secret exactly as long as it has not expired, and
-- gives back the claims it was issued for, stamped with its times.
pub issue-parse :
    (k : Codec) (c : Claims) (secret token : Bytes) (ttl now later : ℕ)
    → KeepsTokens k c
    → is_nil secret ≡ false
    → issue k c secret ttl now ≡ some token
    → parse k token secret later
      ≡ (if is_expired (stamp c ttl now) later then none else some (stamp c ttl now))
unfolding issue
issue-parse k c secret token ttl now later l h e =
    let signing = k.b64 k.header ++ 46 ∷ k.b64 (k.marshal (stamp c ttl now)) in
    let made : signing ++ 46 ∷ k.b64 (k.sign signing secret) ≡ token = ground (arith, h, e) in
    subst
      (λ (t : Bytes).
        parse k t secret later
        ≡ (if is_expired (stamp c ttl now) later then none else some (stamp c ttl now)))
      made (issued_parse k c secret ttl now later l)

-- Only signed tokens are accepted: one that is has three parts, its last the signature of the
-- first two under the secret, and its second the claims it is accepted for, which have not expired.
pub parse-signed :
    (k : Codec) (token secret : Bytes) (now : ℕ) (c : Claims)
    → parse k token secret now ≡ some c
    → (head : Bytes) × (payload : Bytes) × (signature : Bytes) × (token
        ≡ head ++ 46 ∷ (payload ++ 46 ∷ signature))
      × Says k head payload (k.unb64 signature) secret now c
unfolding parse
parse-signed k token secret now c e =
    let (a, b, s, parts, says) = parse_parts-Says k (split token) secret now c e in
    (a, b, s, sym (join-split token) ∙ ap join parts, says)
