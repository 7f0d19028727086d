-- ===== src/Auth/Sharing.antt =====
-- internal/apisrv/share.go: the public link to one run, whose token is a session token with a
-- subject of its own. A request stands as what the handlers read of it.
pub mod Scope
use Prim.Native.String.{◌++◌}
use loadify.Prelude.{
  ℕ, ◌*◌, Bool, true, false, not, ◌&&◌, ◌||◌, String, string_eq, ◌==◌, Bytes, Option, none, some,
  is_nil, if◌then◌else◌,
}
use loadify.Auth.Tokens.{Claims, Codec, issue, parse}
use loadify.Auth.Access.{Middleware, Request, public_claims_from}

abbrev pub share_token_ttl : ℕ
share_token_ttl = 30 * 24 * 3600 * 1000000000

abbrev pub share_subject : String → String
share_subject run_id = "share:" ++ run_id

pub record Server : Type 0 where
  pub authmw : Middleware
  pub jwt_secret : Bytes

-- The claims that handleShareRun issues a token for; it leaves the other fields empty.
abbrev pub share_claims : String → Claims
share_claims run_id = record {
  subject = share_subject run_id;
  email = "";
  name = "";
  role = "viewer";
  issued = 0;
  expires = 0;
}

pub data ShareAnswer : Type 0 where
  not_found : ShareAnswer
  failed : ShareAnswer
  shared : Bytes → ShareAnswer

-- handleShareRun; `known` is whether the store has the run.
unfoldable pub answer_token : Option Bytes → ShareAnswer
answer_token none = failed
answer_token (some token) = shared token

unfoldable pub share_run : Server → Bool → String → ℕ → ShareAnswer
unfolding answer_token issue
share_run s known run_id now =
    if known
    then answer_token (issue s.authmw.codec (share_claims run_id) s.jwt_secret share_token_ttl now)
    else not_found

-- The test of the query's share token, which runRead and reportAuthorized have alike.
unfoldable pub is_subject : Option Claims → String → Bool
is_subject none subject = false
is_subject (some c) subject = c.subject == subject

unfoldable pub is_share_of : Server → Bytes → String → ℕ → Bool
unfolding is_subject parse
is_share_of s share run_id now =
    not (is_nil share)
    && is_subject (parse s.authmw.codec share s.jwt_secret now) (share_subject run_id)

-- reportAuthorized
abbrev pub is_some : Option Claims → Bool
is_some none = false
is_some (some c) = true

unfoldable pub report_authorized : Server → Request → Bytes → String → ℕ → Bool
unfolding is_share_of
report_authorized s r share run_id now =
    is_share_of s share run_id now || is_some (public_claims_from s.authmw r now)

pub data ReadAnswer : Type 0 where
  as_session : Claims → ReadAnswer
  as_share : ReadAnswer
  denied : ReadAnswer

-- runRead
unfoldable pub read_answer : Option Claims → Bool → ReadAnswer
read_answer (some c) is_share = as_session c
read_answer none is_share = if is_share then as_share else denied

unfoldable pub run_read : Server → Request → Bytes → String → ℕ → ReadAnswer
unfolding read_answer is_share_of
run_read s r share run_id now =
    read_answer (public_claims_from s.authmw r now) (is_share_of s share run_id now)
