-- ===== src/RateLimit/Address.antt =====
-- internal/apisrv/ratelimit.go: `clientIP`, the key of the limit. Texts are bytes.
use loadify.Prelude.{
  ℕ, suc, Bytes, Bool, true, false, ◌||◌, Option, none, some, [], ◌∷◌, eqb, is_nil, take,
  if◌then◌else◌,
}

-- The header X-Forwarded-For and RemoteAddr, with what net.SplitHostPort makes of the latter.
pub record Peer : Type 0 where
  pub forwarded_for : Bytes
  pub remote_addr : Bytes
  pub split_host_port : Bytes → Option (Bytes × Bytes)

-- indexByteComma; `none` is -1.
unfoldable pub index_byte_comma : Bytes → Option ℕ
index_byte_comma [] = none
index_byte_comma (c ∷ s) =
    let rest = index_byte_comma s in
    if eqb c 44 then some 0 else elim rest [ none ↦ none | some i ↦ some (suc i) ]

-- trimSpace, by its two loops.
abbrev is_blank : ℕ → Bool
is_blank c = eqb c 32 || eqb c 9

unfoldable pub trim_start : Bytes → Bytes
trim_start [] = []
trim_start (c ∷ s) = let rest = trim_start s in if is_blank c then rest else c ∷ s

unfoldable pub trim_end : Bytes → Bytes
trim_end [] = []
trim_end (c ∷ s) =
    let rest = trim_end s in
    elim (is_nil rest) [ false ↦ c ∷ rest | true ↦ if is_blank c then [] else c ∷ [] ]

unfoldable pub trim_blanks : Bytes → Bytes
unfolding trim_start trim_end
trim_blanks s = trim_end (trim_start s)

-- clientIP
unfoldable pub client_ip : Peer → Bytes
unfolding index_byte_comma trim_blanks
client_ip r =
    if is_nil r.forwarded_for
    then elim (r.split_host_port r.remote_addr) [ none ↦ r.remote_addr | some host ↦ host.0 ]
    else elim (index_byte_comma r.forwarded_for) [
      | none ↦ trim_blanks r.forwarded_for
      | some i ↦ trim_blanks (take i r.forwarded_for)
    ]
