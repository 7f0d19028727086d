-- ===== src/Auth/Tokens.antt =====
-- internal/auth/jwt.go: the session tokens. What the code takes from crypto/hmac, encoding/base64
-- and encoding/json is the record Codec. Texts of claims are UTF-8, times are in nanoseconds.
pub mod Signed
use loadify.Prelude.{
  ℕ, ◌+◌, ◌/◌, ◌≡◌, Bool, true, false, not, ◌&&◌, ◌||◌, String, Bytes, Option, none, some, List, [],
  ◌∷◌, ◌++◌, leb, eqb, is_nil, if◌then◌else◌,
}

pub record Claims : Type 0 where
  pub subject : String
  pub email : String
  pub name : String
  pub role : String
  pub issued : ℕ
  pub expires : ℕ

pub record Codec : Type 0 where
  -- HMAC-SHA256 of a message under a key.
  pub sign : Bytes → Bytes → Bytes
  -- base64.RawURLEncoding; `none` is an error.
  pub b64 : Bytes → Bytes
  pub unb64 : Bytes → Option Bytes
  -- The JSON of the header, of claims, and the claims of a JSON text; `none` is an error.
  pub header : Bytes
  pub marshal : Claims → Bytes
  pub unmarshal : Bytes → Option Claims

unfoldable pub has_dot : Bytes → Bool
has_dot [] = false
has_dot (c ∷ s) = eqb c 46 || has_dot s

-- What encoding/base64 and encoding/json document: decoding undoes encoding, and the alphabet of
-- the encoding has no dot; the claims keep their texts, whatever their times.
pub record KeepsTokens (k : Codec) (c : Claims) : Type 0 where
  pub unb64-b64 : (s : Bytes) → k.unb64 (k.b64 s) ≡ some s
  pub b64-has_dot : (s : Bytes) → has_dot (k.b64 s) ≡ false
  pub unmarshal-marshal :
      (issued expires : ℕ)
      → let stamped = record c { issued = issued; expires = expires } in
        k.unmarshal (k.marshal stamped) ≡ some stamped

-- strings.Split(s, ".")
unfoldable pub onto_first : ℕ → List Bytes → List Bytes
onto_first c [] = (c ∷ []) ∷ []
onto_first c (part ∷ parts) = (c ∷ part) ∷ parts

unfoldable pub split : Bytes → List Bytes
unfolding onto_first
split [] = [] ∷ []
split (c ∷ s) = let rest = split s in if eqb c 46 then [] ∷ rest else onto_first c rest

-- subtle.ConstantTimeCompare
unfoldable pub equal : Bytes → Bytes → Bool
equal [] [] = true
equal [] (c ∷ t) = false
equal (b ∷ s) [] = false
equal (b ∷ s) (c ∷ t) = eqb b c && equal s t

abbrev pub to_seconds : ℕ → ℕ
to_seconds t = t / 1000000000

-- Issue
unfoldable pub stamp : Claims → ℕ → ℕ → Claims
stamp c ttl now = record c { issued = to_seconds now; expires = to_seconds (now + ttl) }

unfoldable pub issue : Codec → Claims → Bytes → ℕ → ℕ → Option Bytes
unfolding stamp
issue k c secret ttl now =
    let signing = k.b64 k.header ++ 46 ∷ k.b64 (k.marshal (stamp c ttl now)) in
    if is_nil secret then none else some (signing ++ 46 ∷ k.b64 (k.sign signing secret))

-- Parse, from its third test on, and before.
unfoldable pub is_expired : Claims → ℕ → Bool
is_expired c now = not (eqb c.expires 0) && leb c.expires (to_seconds now)

unfoldable pub fresh_claims : Option Claims → ℕ → Option Claims
unfolding is_expired
fresh_claims none now = none
fresh_claims (some c) now = if is_expired c now then none else some c

unfoldable pub read_payload : Codec → Option Bytes → ℕ → Option Claims
unfolding fresh_claims
read_payload k none now = none
read_payload k (some payload) now = fresh_claims (k.unmarshal payload) now

unfoldable pub check_signature : Codec → Bytes → Bytes → Option Bytes → Bytes → ℕ → Option Claims
unfolding read_payload equal
check_signature k head payload none secret now = none
check_signature k head payload (some got) secret now =
    if equal (k.sign (head ++ 46 ∷ payload) secret) got
    then read_payload k (k.unb64 payload) now
    else none

unfoldable pub parse_parts : Codec → List Bytes → Bytes → ℕ → Option Claims
unfolding check_signature
parse_parts k [] secret now = none
parse_parts k (a ∷ []) secret now = none
parse_parts k (a ∷ b ∷ []) secret now = none
parse_parts k (a ∷ b ∷ s ∷ []) secret now = check_signature k a b (k.unb64 s) secret now
parse_parts k (a ∷ b ∷ s ∷ t ∷ rest) secret now = none

unfoldable pub parse : Codec → Bytes → Bytes → ℕ → Option Claims
unfolding parse_parts split
parse k token secret now = parse_parts k (split token) secret now
