-- ===== src/Auth/Revocation/Delay.antt =====
-- How long an account that was disabled or deleted is still accepted.
use loadify.Prelude.{
  ℕ, ◌+◌, ◌-◌, ◌≤◌, ◌≡◌, refl, ap, ◌∙◌, Bool, true, false, ◌||◌, String, string_eq, ◌==◌, ==_iff,
  Option, none, some, List, [], ◌∷◌, ltb, arith, Bool-cases, inl, inr,
}
use loadify.Dict.{lookup, lookup-insert}
use loadify.Auth.Tokens.{Claims}
use loadify.Auth.Revocation.{
  AuthState, Account, Cache, Database, rev_cache_ttl, fetch, cached, cached_auth_state, accepts,
  validate_claims,
}

-- The cache after checks at these times; the database may change between them.
abbrev pub checked : (ℕ → Database) → List (Claims × ℕ) → Cache → Cache
checked db [] cache = cache
checked db ((c, now) ∷ checks) cache = checked db checks (validate_claims cache (db now) c now).0

abbrev pub is_gone : Option Account → Bool
is_gone none = true
is_gone (some u) = u.disabled

-- What the cache says of the account is from before `since`, or that it is disabled.
abbrev settled : ℕ → Option AuthState → Bool
settled since none = true
settled since (some st) = st.disabled || ltb st.fetched since

fetch-settled :
    (cache : Cache) (asked user : String) (found : Option Account) (now since : ℕ)
    → (asked ≡ user → since ≤ now → is_gone found ≡ true)
    → settled since (lookup user cache) ≡ true
    → settled since (lookup user (fetch cache asked found now).0) ≡ true
unfolding fetch
fetch-settled cache asked user none now since g s = s
fetch-settled cache asked user (some u) now since g s =
    let found =
      lookup-insert asked user
        (record { disabled = u.disabled; creds_changed_at = u.creds_changed_at; fetched = now })
        cache in
    elim (Bool-cases (asked == user)) [
      | inr other ↦ rw (found, other) s
      | inl same ↦
          rw (found, same)
            (elim (Bool-cases (ltb now since)) [
              | inl early ↦ ground (arith, early)
              | inr late ↦
                  let gone : u.disabled ≡ true =
                    g ((==_iff asked user).0 same) (ground (arith, late)) in
                  simp gone refl
            ])
    ]

cached-settled :
    (cache : Cache) (asked user : String) (o : Option AuthState) (found : Option Account)
    (now since : ℕ)
    → (asked ≡ user → since ≤ now → is_gone found ≡ true)
    → settled since (lookup user cache) ≡ true
    → settled since (lookup user (cached cache asked o found now).0) ≡ true
unfolding cached
cached-settled cache asked user none found now since g s =
    fetch-settled cache asked user found now since g s
cached-settled cache asked user (some st) found now since g s =
    elim (Bool-cases (ltb (now - st.fetched) rev_cache_ttl)) [
      | inl young ↦ rw young s
      | inr old ↦ rw old (fetch-settled cache asked user found now since g s)
    ]

validate_claims-settled :
    (cache : Cache) (db : Database) (c : Claims) (user : String) (now since : ℕ)
    → (since ≤ now → is_gone (db user) ≡ true)
    → settled since (lookup user cache) ≡ true
    → settled since (lookup user (validate_claims cache db c now).0) ≡ true
unfolding validate_claims cached_auth_state
validate_claims-settled cache db c user now since g s =
    let kept =
      cached-settled cache c.subject user (lookup c.subject cache) (db c.subject) now since
        (λ same late. ap (λ u. is_gone (db u)) same ∙ g late) s in
    elim (Bool-cases (c.subject == "")) [
      | inl anonymous ↦ rw anonymous s
      | inr named ↦ rw named kept
    ]

checked-settled :
    (db : ℕ → Database) (checks : List (Claims × ℕ)) (cache : Cache) (user : String) (since : ℕ)
    → ((t : ℕ) → since ≤ t → is_gone (db t user) ≡ true)
    → settled since (lookup user cache) ≡ true
    → settled since (lookup user (checked db checks cache)) ≡ true
checked-settled db [] cache user since g s = s
checked-settled db ((c, now) ∷ checks) cache user since g s =
    checked-settled db checks _ user since g
      (validate_claims-settled cache (db now) c user now since (g now) s)

fetch-refused :
    (cache : Cache) (c : Claims) (user : String) (found : Option Account) (now : ℕ)
    → is_gone found ≡ true
    → accepts c (fetch cache user found now).1 ≡ false
unfolding fetch accepts
fetch-refused cache c user none now g = refl
fetch-refused cache c user (some u) now g = ground (arith, g)

cached-refused :
    (cache : Cache) (c : Claims) (user : String) (o : Option AuthState) (found : Option Account)
    (now since : ℕ)
    → is_gone found ≡ true
    → settled since o ≡ true
    → since + rev_cache_ttl ≤ now
    → accepts c (cached cache user o found now).1 ≡ false
unfolding cached
cached-refused cache c user none found now since g s late = fetch-refused cache c user found now g
cached-refused cache c user (some st) found now since g s late =
    elim (Bool-cases (ltb (now - st.fetched) rev_cache_ttl)) [
      | inr old ↦ rw old (fetch-refused cache c user found now g)
      | inl young ↦ rw young (elim (Bool-cases st.disabled) [
        | inl off ↦ unfold accepts in simp off refl
        | inr on ↦ absurd (ground (arith, on, s, young, late))
      ])
    ]

-- An account that is disabled or deleted from some time on is refused by every check that comes
-- 30 s later or more, whatever checks of whatever accounts filled the cache before, and in whatever
-- order.
pub revocation_delay :
    (db : ℕ → Database) (checks : List (Claims × ℕ)) (c : Claims) (since now : ℕ)
    → ((t : ℕ) → since ≤ t → is_gone (db t c.subject) ≡ true)
    → since + rev_cache_ttl ≤ now
    → (validate_claims (checked db checks []) (db now) c now).1 ≡ false
unfolding validate_claims cached_auth_state
revocation_delay db checks c since now g late =
    let s = checked-settled db checks [] c.subject since g refl in
    let refused =
      cached-refused (checked db checks []) c c.subject _ (db now c.subject) now since
        (g now (omega (arith, late))) s late in
    elim (Bool-cases (c.subject == "")) [
      | inl anonymous ↦ rw anonymous refl
      | inr named ↦ rw named refused
    ]
