-- ===== src/Auth/Access/Roles.antt =====
-- Whom the guard lets through.
use loadify.Prelude.{
  ℕ, ◌≤◌, ◌≡◌, refl, sym, ap, subst, leb→le, ◌∙◌, true, false, not, String, string_eq, Bytes,
  Option, none, some, [], ◌∷◌, ◌++◌, leb, is_nil, if◌then◌else◌, arith, Bool-cases, Option-cases,
  inl, inr, ◌⊎◌,
}
use loadify.Auth.Tokens.{Claims, KeepsTokens, parse, issue, stamp, is_expired}
use loadify.Auth.Tokens.Signed.{issue-parse, parse-signed, Says}
use loadify.Auth.Access.{
  role_rank, at_least, is_valid, Request, Middleware, bearer, trim_prefix, header_of, resolve_raw,
  claims_of, claims_raw, claims_from, Answer, unauthorized, revoked, forbidden, served, passes,
  answer, require,
}

role_rank-is_valid : (r : String) → 1 ≤ role_rank r → is_valid r ≡ true
unfolding role_rank is_valid
role_rank-is_valid r h = ground (arith, h)

is_valid-role_rank : (r : String) → is_valid r ≡ true → 1 ≤ role_rank r
unfolding role_rank is_valid
is_valid-role_rank r h = ground (arith, h)

append-trim_prefix : (prefix s rest : Bytes) → trim_prefix prefix s ≡ some rest → s ≡ prefix ++ rest
unfolding trim_prefix
append-trim_prefix [] s rest e = ground (arith, e)
append-trim_prefix (c ∷ prefix) [] rest e = absurd (ground (arith, e))
append-trim_prefix (c ∷ prefix) (d ∷ s) rest e = ground (arith, e, append-trim_prefix prefix s rest)

-- What is known of a request that was served.
pub record IsEntitled (m : Middleware) (min : String) (r : Request) (now : ℕ) (c : Claims)
    : Type 0 where
  pub token : Bytes
  pub carried : header_of r ≡ bearer ++ token
  pub authentic :
      ((head : Bytes) × (payload : Bytes) × (signature : Bytes) × (token
          ≡ head ++ 46 ∷ (payload ++ 46 ∷ signature))
        × Says m.codec head payload (m.codec.unb64 signature) m.secret now c)
      ⊎ ((parse m.codec token m.secret now ≡ none)
          × (lookup_token : Bytes → Option Claims) × (m.resolve ≡ some lookup_token)
          × (lookup_token token ≡ some c))
  pub not_revoked : passes m c ≡ true
  pub known_role : is_valid c.role ≡ true
  pub high_enough : role_rank min ≤ role_rank c.role

abbrev from_answer : Claims → Answer → Claims
from_answer d unauthorized = d
from_answer d revoked = d
from_answer d forbidden = d
from_answer d (served c) = c

answer-served :
    (m : Middleware) (min : String) (o : Option Claims) (c : Claims)
    → answer m min o ≡ served c
    → (o ≡ some c) × (passes m c ≡ true) × (role_rank min ≤ role_rank c.role)
unfolding answer at_least
answer-served m min none c e = absurd (ground (arith, e))
answer-served m min (some d) c e = elim (Bool-cases (passes m d)) [
  | inr off ↦ absurd (ground (arith, off, e))
  | inl on ↦ elim (Bool-cases (leb (role_rank min) (role_rank d.role))) [
    | inr low ↦ absurd (ground (arith, on, low, e))
    | inl high ↦
        let same : served d ≡ served c = ground (arith, on, high, e) in
        let eq : d ≡ c = ap (from_answer d) same in
        (
          ap (λ x. some x) eq,
          ap (passes m) (sym eq) ∙ on,
          subst (λ (x : Claims). role_rank min ≤ role_rank x.role) eq
              (leb→le (role_rank min) (role_rank d.role) high),
        )
  ]
]

-- Claims are those of the token, or those that it is resolved to as a persistent one.
Found : Middleware → Bytes → ℕ → Claims → Type 0
Found m token now c =
    (parse m.codec token m.secret now ≡ some c)
    ⊎ ((parse m.codec token m.secret now ≡ none)
        × (lookup_token : Bytes → Option Claims) × (m.resolve ≡ some lookup_token)
        × (lookup_token token ≡ some c))

resolve_raw-some :
    (m : Middleware) (raw : Bytes) (c : Claims)
    → resolve_raw m raw ≡ some c
    → (f : Bytes → Option Claims) × (m.resolve ≡ some f) × (f raw ≡ some c)
unfolding resolve_raw
resolve_raw-some m raw c e = elim (Option-cases m.resolve) [
  | inl missing ↦ absurd (ground (arith, missing, e))
  | inr (f, found) ↦ (f, found, ap (λ o. elim o [ none ↦ none | some g ↦ g raw ]) (sym found) ∙ e)
]

claims_of-Found :
    (m : Middleware) (raw : Bytes) (now : ℕ) (c : Claims)
    → claims_of m (parse m.codec raw m.secret now) raw ≡ some c
    → Found m raw now c
unfolding claims_of Found
claims_of-Found m raw now c e = elim (Option-cases (parse m.codec raw m.secret now)) [
  | inl unsigned ↦
      let (f, found, claims) =
        resolve_raw-some m raw c (ap (λ o. claims_of m o raw) (sym unsigned) ∙ e) in
      inr (unsigned, f, found, claims)
  | inr (d, signed) ↦ inl (signed ∙ ap (λ o. claims_of m o raw) (sym signed) ∙ e)
]

claims_raw-Found :
    (m : Middleware) (o : Option Bytes) (now : ℕ) (c : Claims)
    → claims_raw m o now ≡ some c
    → (token : Bytes) × (o ≡ some token) × Found m token now c
unfolding claims_raw
claims_raw-Found m none now c e = absurd (ground (arith, e))
claims_raw-Found m (some raw) now c e = (raw, refl, claims_of-Found m raw now c e)

-- Behind a guard for a known role a request is served only if it carries a token that is authentic
-- in one of two ways: its last part is the signature of the others under the server's secret and its
-- claims have not expired; or it is no such token, and the server's look-up of persistent tokens,
-- which it then has, finds the claims. In both cases the claims pass the revocation check and have a
-- known role that is no lower than the guard's.
pub require-IsEntitled :
    (m : Middleware) (min : String) (r : Request) (now : ℕ) (c : Claims)
    → is_valid min ≡ true
    → require m min r now ≡ served c
    → IsEntitled m min r now c
unfolding require claims_from Found
require-IsEntitled m min r now c v e =
    let (found, passed, high) = answer-served m min (claims_from m r now) c e in
    let (token, carried, authentic) =
      claims_raw-Found m (trim_prefix bearer (header_of r)) now c found in
    record {
      token = token;
      carried = append-trim_prefix bearer (header_of r) token carried;
      authentic = elim authentic [
        | inl parsed ↦ inl (parse-signed m.codec token m.secret now c parsed)
        | inr persistent ↦ inr persistent
      ];
      not_revoked = passed;
      known_role = role_rank-is_valid c.role (omega (arith, high, is_valid-role_rank min v));
      high_enough = high;
    }

-- A request with a token that was issued for some claims is served if they pass the revocation check
-- and their role is no lower than the route asks for, and is told which of the two fails; once the
-- token has expired it is looked up as a persistent one.
pub issue-require :
    (m : Middleware) (min : String) (c : Claims) (token query_token : Bytes) (ttl now later : ℕ)
    → KeepsTokens m.codec c
    → is_nil m.secret ≡ false
    → issue m.codec c m.secret ttl now ≡ some token
    → let stamped = stamp c ttl now in
      require m min (record { authorization = bearer ++ token; query_token = query_token }) later
      ≡ (if is_expired stamped later
          then answer m min (resolve_raw m token)
          else if not (passes m stamped)
          then revoked
          else if at_least c.role min
          then served stamped
          else forbidden)
unfolding require claims_from claims_raw header_of trim_prefix claims_of answer stamp
issue-require m min c token query_token ttl now later l h e =
    rw (issue-parse m.codec c m.secret token ttl now later l h e)
      (elim (Bool-cases (is_expired (stamp c ttl now) later)) [
        | inl late ↦ rw late refl
        | inr fresh ↦ rw fresh refl
      ])
