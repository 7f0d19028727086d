-- ===== src/Auth/Sharing/Scope.antt =====
-- What a share token opens.
use text.Mathlib.TextLemmas.{append_cancel_left}
use loadify.Prelude.{
  ℕ, ◌≡◌, refl, sym, ap, ◌∙◌, Bool, true, false, not, ◌&&◌, String, string_eq, ◌==◌, ==_iff, Bytes,
  Option, none, some, [], ◌∷◌, ◌++◌, is_nil, arith, if◌then◌else◌, Bool-cases, inl, inr,
}
use loadify.Auth.Tokens.{Claims, Codec, KeepsTokens, issue, stamp, parse, is_expired}
use loadify.Auth.Tokens.Signed.{issue-parse}
use loadify.Auth.Access.{
  Middleware, bearer, passes, resolve_raw, public_claims_from, checked_claims, claims_from,
  claims_raw, claims_of, header_of, trim_prefix,
}
use loadify.Auth.Sharing.{
  Server, share_claims, share_subject, share_token_ttl, ShareAnswer, not_found, failed, shared,
  answer_token, share_run, is_subject, is_share_of, run_read, read_answer, as_share, denied,
}

-- Whether the token of a run that was shared has expired.
abbrev pub is_over : String → ℕ → ℕ → Bool
is_over run_id now later = is_expired (stamp (share_claims run_id) share_token_ttl now) later

abbrev from_answer : Bytes → ShareAnswer → Bytes
from_answer t not_found = t
from_answer t failed = t
from_answer t (shared token) = token

share_subject-beq : (a b : String) → (share_subject a == share_subject b) ≡ (a == b)
share_subject-beq a b = elim (Bool-cases (a == b)) [
  | inl same ↦
      (==_iff (share_subject a) (share_subject b)).1 (ap share_subject ((==_iff a b).0 same))
      ∙ sym same
  | inr other ↦ elim (Bool-cases (share_subject a == share_subject b)) [
    | inr no_match ↦ no_match ∙ sym other
    | inl match ↦ absurd (
        ground (
          arith,
          other,
          ==_iff a b,
          append_cancel_left "share:" a b ((==_iff (share_subject a) (share_subject b)).0 match),
        ))
  ]
]

answer_token-shared :
    (o : Option Bytes) (token : Bytes) → answer_token o ≡ shared token → o ≡ some token
unfolding answer_token
answer_token-shared none token e = absurd (ground (arith, e))
answer_token-shared (some t) token e = ap (λ (a : ShareAnswer). some (from_answer t a)) e

share_run-issue :
    (s : Server) (known : Bool) (run_id : String) (now : ℕ) (token : Bytes)
    → share_run s known run_id now ≡ shared token
    → issue s.authmw.codec (share_claims run_id) s.jwt_secret share_token_ttl now ≡ some token
unfolding share_run
share_run-issue s false run_id now token e = absurd (ground (arith, e))
share_run-issue s true run_id now token e = answer_token-shared _ token e

is_nil-append : (xs ys : Bytes) (c : ℕ) → is_nil (xs ++ c ∷ ys) ≡ false
is_nil-append [] ys c = refl
is_nil-append (x ∷ xs) ys c = refl

issue-is_nil :
    (k : Codec) (c : Claims) (secret token : Bytes) (ttl now : ℕ)
    → issue k c secret ttl now ≡ some token
    → is_nil token ≡ false
unfolding issue
issue-is_nil k c secret token ttl now e = elim (Bool-cases (is_nil secret)) [
  | inl empty ↦ absurd (ground (arith, empty, e))
  | inr given ↦
      let signing = k.b64 k.header ++ 46 ∷ k.b64 (k.marshal (stamp c ttl now)) in
      let made : signing ++ 46 ∷ k.b64 (k.sign signing secret) ≡ token = ground (arith, given, e) in
      ap is_nil (sym made) ∙ is_nil-append signing (k.b64 (k.sign signing secret)) 46
]

-- The first test of a query's token, and a request with it as its bearer.
shared_read :
    (s : Server) (run_id other : String) (now later : ℕ) (token : Bytes) (over : Bool)
    → is_nil token ≡ false
    → parse s.authmw.codec token s.jwt_secret later
      ≡ (if over then none else some (stamp (share_claims run_id) share_token_ttl now))
    → is_share_of s token other later ≡ ((run_id == other) && not over)
unfolding is_share_of is_subject stamp
shared_read s run_id other now later token true n read = rw (n, read) (ground (arith, n))
shared_read s run_id other now later token false n read =
    rw (n, read) (ground (arith, share_subject-beq run_id other))

validate_off :
    (m : Middleware) (c : Claims) (f : Claims → Bool)
    → m.validate ≡ some f
    → f c ≡ false
    → passes m c ≡ false
unfolding passes
validate_off m c f v refuses =
    ap (λ (o : Option (Claims → Bool)). elim o as (λ x. Bool) [ none ↦ true | some g ↦ g c ]) v
    ∙ refuses

bearer_read :
    (m : Middleware) (c : Claims) (f : Claims → Bool) (later : ℕ) (token : Bytes) (over : Bool)
    → m.validate ≡ some f
    → f c ≡ false
    → resolve_raw m token ≡ none
    → parse m.codec token m.secret later ≡ (if over then none else some c)
    → public_claims_from m (record { authorization = bearer ++ token; query_token = [] }) later
      ≡ none
unfolding public_claims_from claims_from claims_raw claims_of header_of trim_prefix checked_claims
bearer_read m c f later token true v refuses unknown read = rw (read, unknown) refl
bearer_read m c f later token false v refuses unknown read =
    let off : passes m c ≡ false = validate_off m c f v refuses in rw (read, off) refl

-- A token that was shared for a run shows that run, and no other, until it expires, to a request
-- without a session. It is no session itself, as long as the revocation check refuses claims
-- whose subject is no account and it is no persistent token either.
pub share_run-scope :
    (s : Server) (known : Bool) (run_id other : String) (now later : ℕ) (token : Bytes)
    (f : Claims → Bool)
    → KeepsTokens s.authmw.codec (share_claims run_id)
    → is_nil s.jwt_secret ≡ false
    → s.authmw.secret ≡ s.jwt_secret
    → s.authmw.validate ≡ some f
    → f (stamp (share_claims run_id) share_token_ttl now) ≡ false
    → resolve_raw s.authmw token ≡ none
    → share_run s known run_id now ≡ shared token
    → (run_read s (record { authorization = []; query_token = [] }) token other later
        ≡ (if (run_id == other) && not (is_over run_id now later) then as_share else denied))
      × (public_claims_from s.authmw
            (record { authorization = bearer ++ token; query_token = [] })
            later
          ≡ none)
unfolding run_read read_answer public_claims_from checked_claims claims_from claims_raw header_of
    trim_prefix
share_run-scope s known run_id other now later token f l h secret v refuses unknown e =
    let read =
      issue-parse s.authmw.codec (share_claims run_id) s.jwt_secret token share_token_ttl now later
        l h (share_run-issue s known run_id now token e) in
    let made = share_run-issue s known run_id now token e in
    let share =
      shared_read s run_id other now later token (is_over run_id now later)
        (issue-is_nil s.authmw.codec (share_claims run_id) s.jwt_secret token share_token_ttl now
          made)
        read in
    (
      ap (read_answer none) share,
      bearer_read s.authmw (stamp (share_claims run_id) share_token_ttl now) f later token
          (is_over run_id now later) v refuses unknown
          (ap (λ key. parse s.authmw.codec token key later) secret ∙ read),
    )
