-- ===== src/Auth/Revocation.antt =====
-- internal/apisrv/revocation.go: the check of a token against its account, with the cache of
-- accounts. What the database answers is an argument, `none` for an error and for no such user.
pub mod Delay
use loadify.Prelude.{
  ℕ, ◌-◌, ◌*◌, Bool, true, false, not, ◌&&◌, String, string_eq, ◌==◌, Option, none, some, List, [],
  ◌∷◌, ltb, eqb, if◌then◌else◌,
}
use loadify.Dict.{lookup, insert}
use loadify.Auth.Tokens.{Claims}

abbrev pub rev_cache_ttl : ℕ
rev_cache_ttl = 30 * 1000000000

pub record AuthState : Type 0 where
  pub disabled : Bool
  pub creds_changed_at : ℕ
  pub fetched : ℕ

-- What a user of the store says of it.
pub record Account : Type 0 where
  pub disabled : Bool
  pub creds_changed_at : ℕ

abbrev pub Cache : Type 0
Cache = List (String × AuthState)

abbrev pub Database : Type 0
Database = String → Option Account

-- cachedAuthState, from its read of the database on, and as a whole.
unfoldable pub fetch : Cache → String → Option Account → ℕ → Cache × Option AuthState
fetch cache user none now = (cache, none)
fetch cache user (some u) now =
    let st : AuthState = record {
      disabled = u.disabled;
      creds_changed_at = u.creds_changed_at;
      fetched = now;
    } in
    (insert user st cache, some st)

unfoldable pub cached :
    Cache → String → Option AuthState → Option Account → ℕ → Cache × Option AuthState
unfolding fetch
cached cache user none found now = fetch cache user found now
cached cache user (some st) found now =
    if ltb (now - st.fetched) rev_cache_ttl then (cache, some st) else fetch cache user found now

unfoldable pub cached_auth_state : Cache → Database → String → ℕ → Cache × Option AuthState
unfolding cached lookup
cached_auth_state cache db user now = cached cache user (lookup user cache) (db user) now

-- validateClaims
unfoldable pub accepts : Claims → Option AuthState → Bool
accepts c none = false
accepts c (some st) =
    if st.disabled then false else not (not (eqb c.issued 0) && ltb c.issued st.creds_changed_at)

unfoldable pub validate_claims : Cache → Database → Claims → ℕ → Cache × Bool
unfolding accepts cached_auth_state
validate_claims cache db c now =
    let (cache', found) = cached_auth_state cache db c.subject now in
    if c.subject == "" then (cache, false) else (cache', accepts c found)
