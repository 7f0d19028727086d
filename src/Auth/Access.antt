-- ===== src/Auth/Access.antt =====
-- internal/auth/rbac.go: the roles, and the guard in front of a handler. A request is what the code
-- reads of it; `validate` and `resolve` are those of the middleware, `none` where it has none.
pub mod Roles
use loadify.Prelude.{
  ℕ, Bool, true, false, not, String, string_eq, ◌==◌, Bytes, Option, none, some, List, [], ◌∷◌,
  ◌++◌, leb, eqb, ◌||◌, is_nil, if◌then◌else◌,
}
use loadify.Auth.Tokens.{Claims, Codec, parse}

-- roleRank, 0 for a role that is not in it.
unfoldable pub role_rank : String → ℕ
role_rank r =
    if r == "viewer" then 1 else if r == "operator" then 2 else if r == "admin" then 3 else 0

-- AtLeast
unfoldable pub at_least : String → String → Bool
at_least r min = leb (role_rank min) (role_rank r)

-- Valid
unfoldable pub is_valid : String → Bool
is_valid r = r == "viewer" || (r == "operator" || r == "admin")

-- The Authorization header, and the token of the query; empty where there is none.
pub record Request : Type 0 where
  pub authorization : Bytes
  pub query_token : Bytes

pub record Middleware : Type 0 where
  pub codec : Codec
  pub secret : Bytes
  pub validate : Option (Claims → Bool)
  pub resolve : Option (Bytes → Option Claims)

-- "Bearer "
abbrev pub bearer : Bytes
bearer = 66 ∷ 101 ∷ 97 ∷ 114 ∷ 101 ∷ 114 ∷ 32 ∷ []

-- The text after the prefix; `none` where it has another.
unfoldable pub trim_prefix : Bytes → Bytes → Option Bytes
trim_prefix [] s = some s
trim_prefix (c ∷ prefix) [] = none
trim_prefix (c ∷ prefix) (d ∷ s) = let rest = trim_prefix prefix s in if eqb c d then rest else none

unfoldable pub header_of : Request → Bytes
header_of r =
    if is_nil r.authorization
    then (if is_nil r.query_token then [] else bearer ++ r.query_token)
    else r.authorization

-- claimsFrom, from the token on, and from the request.
unfoldable pub resolve_raw : Middleware → Bytes → Option Claims
resolve_raw m raw = elim m.resolve [ none ↦ none | some f ↦ f raw ]

unfoldable pub claims_of : Middleware → Option Claims → Bytes → Option Claims
unfolding resolve_raw
claims_of m none raw = resolve_raw m raw
claims_of m (some c) raw = some c

unfoldable pub claims_raw : Middleware → Option Bytes → ℕ → Option Claims
unfolding claims_of
claims_raw m none now = none
claims_raw m (some raw) now = claims_of m (parse m.codec raw m.secret now) raw

unfoldable pub claims_from : Middleware → Request → ℕ → Option Claims
unfolding claims_raw trim_prefix header_of
claims_from m r now = claims_raw m (trim_prefix bearer (header_of r)) now

-- What a guarded route answers.
pub data Answer : Type 0 where
  unauthorized : Answer
  revoked : Answer
  forbidden : Answer
  served : Claims → Answer

unfoldable pub passes : Middleware → Claims → Bool
passes m c = elim m.validate [ none ↦ true | some f ↦ f c ]

unfoldable pub answer : Middleware → String → Option Claims → Answer
unfolding passes at_least
answer m min none = unauthorized
answer m min (some c) =
    if not (passes m c) then revoked else if at_least c.role min then served c else forbidden

-- Require
unfoldable pub require : Middleware → String → Request → ℕ → Answer
unfolding answer claims_from
require m min r now = answer m min (claims_from m r now)

-- ClaimsFrom
unfoldable pub checked_claims : Middleware → Option Claims → Option Claims
unfolding passes
checked_claims m none = none
checked_claims m (some c) = if passes m c then some c else none

unfoldable pub public_claims_from : Middleware → Request → ℕ → Option Claims
unfolding checked_claims claims_from
public_claims_from m r now = checked_claims m (claims_from m r now)
