-- ===== src/Examples/Admitting.antt =====
-- Tokens and accounts at small values, with a plain encoding and signature.
use loadify.Prelude.{
  String, true, ◌&&◌, ◌==◌, ℕ, ◌+◌, ◌-◌, ◌*◌, ◌≡◌, refl, ap, false, not, Bytes, [], ◌∷◌, ◌++◌, map,
  none, some, string_eq, arith, if◌then◌else◌, leb, le→leb,
}
use loadify.Auth.Tokens.{
  Claims, Codec, KeepsTokens, has_dot, issue, stamp, is_expired, parse, parse_parts, split,
  onto_first, check_signature, equal, read_payload, fresh_claims,
}
use loadify.Auth.Access.{
  public_claims_from, Middleware, Request, bearer, require, answer, resolve_raw, passes, at_least,
  served, revoked, forbidden, claims_from, claims_raw, header_of, trim_prefix, claims_of, role_rank,
  is_valid,
}
use loadify.Auth.Access.Roles.{IsEntitled, require-IsEntitled, issue-require}
use loadify.Auth.Sharing.{Server, share_claims, share_run, answer_token, run_read, as_share, denied}
use loadify.Auth.Sharing.Scope.{share_run-scope, is_over}
use loadify.Auth.Revocation.{Database, validate_claims}
use loadify.Auth.Revocation.Delay.{checked, revocation_delay}

abbrev alice : Claims
alice = record {
  subject = "alice";
  email = "alice@loadify";
  name = "Alice";
  role = "operator";
  issued = 0;
  expires = 0;
}

-- The characters are those beyond the dot, a signature is the key before the message, and the JSON
-- of a session is its two times.
abbrev codec_of : Claims → Codec
codec_of session = record {
  sign = λ m key. key ++ m;
  b64 = λ s. map (λ c. c + 47) s;
  unb64 = λ s. some (map (λ c. c - 47) s);
  header = 1 ∷ [];
  marshal = λ c. c.issued ∷ c.expires ∷ [];
  unmarshal = λ s. elim s [
    | [] ↦ none
    | i ∷ t ↦ elim t [ [] ↦ none | e ∷ u ↦ some (record session { issued = i; expires = e }) ]
  ];
}

abbrev codec : Codec
codec = codec_of alice

decode-encode : (s : Bytes) → map (λ c. c - 47) (map (λ c. c + 47) s) ≡ s
decode-encode [] = refl
decode-encode (c ∷ s) = ground (arith, decode-encode s)

encode-has_dot : (s : Bytes) → has_dot (map (λ c. c + 47) s) ≡ false
unfolding has_dot
encode-has_dot [] = refl
encode-has_dot (c ∷ s) = ground (arith, encode-has_dot s)

codec_of-KeepsTokens : (c : Claims) → KeepsTokens (codec_of c) c
codec_of-KeepsTokens c = record {
  unb64-b64 = λ s. ap (λ t. some t) (decode-encode s);
  b64-has_dot = encode-has_dot;
  unmarshal-marshal = λ issued expires. refl;
}

abbrev middleware : Middleware
middleware = record { codec = codec; secret = 7 ∷ []; validate = none; resolve = none }

-- The token of a session of an hour that begins after 10 s.
abbrev token : Bytes
token = (48 ∷ 46 ∷ 57 ∷ 3657 ∷ []) ++ 46 ∷ 54 ∷ 95 ∷ 93 ∷ 104 ∷ 3704 ∷ []

abbrev request : Request
request = record { authorization = bearer ++ token; query_token = [] }

issue-require_example :
    let stamped = stamp alice (3600 * 1000000000) (10 * 1000000000) in
    require middleware "viewer" request (20 * 1000000000) ≡ (
      if is_expired stamped (20 * 1000000000)
      then answer middleware "viewer" (resolve_raw middleware token)
      else if not (passes middleware stamped)
      then revoked
      else if at_least alice.role "viewer"
      then served stamped
      else forbidden)
unfolding issue stamp
issue-require_example =
    issue-require middleware "viewer" alice token [] (3600 * 1000000000) (10 * 1000000000)
      (20 * 1000000000) (codec_of-KeepsTokens alice) refl refl

alice_served :
    require middleware "viewer" request (20 * 1000000000)
    ≡ served (stamp alice (3600 * 1000000000) (10 * 1000000000))
unfolding require claims_from claims_raw header_of trim_prefix claims_of parse parse_parts split
    onto_first check_signature equal read_payload fresh_claims is_expired answer passes at_least
    role_rank stamp
alice_served = refl

-- A server with a persistent token that is not signed.
abbrev persistent : Bytes
persistent = 112 ∷ []

abbrev with_tokens : Middleware
with_tokens = record middleware {
  resolve = some (λ raw. if equal raw persistent then some alice else none);
}

abbrev token_request : Request
token_request = record { authorization = bearer ++ persistent; query_token = [] }

require-IsEntitled_example : IsEntitled with_tokens "viewer" token_request (20 * 1000000000) alice
unfolding is_valid require claims_from claims_raw header_of trim_prefix claims_of parse parse_parts
    split onto_first check_signature equal resolve_raw answer passes at_least role_rank
require-IsEntitled_example =
    require-IsEntitled with_tokens "viewer" token_request (20 * 1000000000) alice refl refl

-- The account is disabled after 5 s.
abbrev database : ℕ → Database
database now user = some (record { disabled = leb (5 * 1000000000) now; creds_changed_at = 0 })

revocation_delay_example :
    (validate_claims
      (checked database ((alice, 4 * 1000000000) ∷ (alice, 6 * 1000000000) ∷ []) [])
      (database (36 * 1000000000))
      alice
      (36 * 1000000000)).1
    ≡ false
revocation_delay_example =
    revocation_delay database ((alice, 4 * 1000000000) ∷ (alice, 6 * 1000000000) ∷ []) alice
      (5 * 1000000000) (36 * 1000000000) (λ t h. le→leb (5 * 1000000000) t h) (omega arith)

-- A server whose only account is that of alice, and the token of a run shared after 10 s.
abbrev server : Server
server = record {
  authmw = record {
    codec = codec_of (share_claims "r1");
    secret = 7 ∷ [];
    validate = some (λ c. c.subject == "alice");
    resolve = none;
  };
  jwt_secret = 7 ∷ [];
}

abbrev shared_token : Bytes
shared_token = (48 ∷ 46 ∷ 57 ∷ 2592057 ∷ []) ++ 46 ∷ 54 ∷ 95 ∷ 93 ∷ 104 ∷ 2592104 ∷ []

abbrev r2 : String
r2 = "r2"

share_run-scope_example :
    (run_read server
        (record { authorization = []; query_token = [] })
        shared_token
        "r2"
        (20 * 1000000000)
      ≡ (if ("r1" == r2) && not (is_over "r1" (10 * 1000000000) (20 * 1000000000))
          then as_share
          else denied))
    × (public_claims_from server.authmw
          (record { authorization = bearer ++ shared_token; query_token = [] })
          (20 * 1000000000)
        ≡ none)
unfolding share_run answer_token issue stamp resolve_raw
share_run-scope_example =
    share_run-scope server true "r1" "r2" (10 * 1000000000) (20 * 1000000000) shared_token
      (λ c. c.subject == "alice") (codec_of-KeepsTokens (share_claims "r1")) refl refl refl refl
      refl refl
