-- ===== src/Importer.antt =====
-- internal/importer/curl.go: the reading of a curl command line. A text is the list of its runes.
pub mod Words
pub mod Printed
use loadify.Prelude.{
  ℕ, zero, suc, ◌≡◌, ◌↔◌, Bool, true, false, not, ◌&&◌, ◌||◌, Option, none, some, List, [], ◌∷◌,
  ◌++◌, arith, Bytes, Comparable, ◌==◌, eqb, leb, is_nil, length, if◌then◌else◌,
}
use loadify.Dict.{insert}

abbrev runes_beq : Bytes → Bytes → Bool
runes_beq [] [] = true
runes_beq [] (d ∷ t) = false
runes_beq (c ∷ s) [] = false
runes_beq (c ∷ s) (d ∷ t) = eqb c d && runes_beq s t

pub runes_beq_iff : (s t : Bytes) → (runes_beq s t ≡ true) ↔ (s ≡ t)
runes_beq_iff [] [] = ground arith
runes_beq_iff [] (d ∷ t) = ground arith
runes_beq_iff (c ∷ s) [] = ground arith
runes_beq_iff (c ∷ s) (d ∷ t) = ground (arith, runes_beq_iff s t)

instance abbrev pub runes_eq : Comparable Bytes
runes_eq = record { same = runes_beq; same_iff = runes_beq_iff }

-- unicode.IsSpace, strings.TrimSpace, strings.HasPrefix, and strings.Cut at a colon.
unfoldable pub is_space : ℕ → Bool
is_space c =
    (leb 9 c && leb c 13)
    || eqb c 32
    || eqb c 133
    || eqb c 160
    || eqb c 5760
    || (leb 8192 c && leb c 8202)
    || eqb c 8232
    || eqb c 8233
    || eqb c 8239
    || eqb c 8287
    || eqb c 12288

unfoldable pub trim_left : Bytes → Bytes
trim_left [] = []
trim_left (c ∷ s) = let rest = trim_left s in if is_space c then rest else c ∷ s

unfoldable pub trim_right : Bytes → Bytes
trim_right [] = []
trim_right (c ∷ s) = let rest = trim_right s in if is_nil rest && is_space c then [] else c ∷ rest

unfoldable pub trim_space : Bytes → Bytes
unfolding trim_left trim_right
trim_space s = trim_right (trim_left s)

unfoldable pub has_prefix : Bytes → Bytes → Bool
has_prefix s [] = true
has_prefix [] (d ∷ prefix) = false
has_prefix (c ∷ s) (d ∷ prefix) = eqb c d && has_prefix s prefix

abbrev colon : ℕ
colon = 58

unfoldable pub onto_key : ℕ → Option (Bytes × Bytes) → Option (Bytes × Bytes)
onto_key c none = none
onto_key c (some (k, v)) = some (c ∷ k, v)

unfoldable pub cut_colon : Bytes → Option (Bytes × Bytes)
unfolding onto_key
cut_colon [] = none
cut_colon (c ∷ s) = let rest = cut_colon s in if eqb c colon then some ([], s) else onto_key c rest

-- strings.ReplaceAll(s, "\\\n", " "); `held` is whether a backslash stands before.
unfoldable pub fold_loop : Bool → Bytes → Bytes
fold_loop true [] = 92 ∷ []
fold_loop false [] = []
fold_loop true (c ∷ s) =
    let rest = fold_loop (eqb c 92) s in
    if eqb c 10 then 32 ∷ rest else if eqb c 92 then 92 ∷ rest else 92 ∷ c ∷ rest
fold_loop false (c ∷ s) = let rest = fold_loop (eqb c 92) s in if eqb c 92 then rest else c ∷ rest

unfoldable pub fold_lines : Bytes → Bytes
unfolding fold_loop
fold_lines = fold_loop false

-- The variables of tokenize; a quote of 0 is none.
pub record Lexer : Type 0 where
  pub toks : List Bytes
  pub cur : Bytes
  pub quote : ℕ
  pub in_tok : Bool

abbrev pub start : Lexer
start = record { toks = []; cur = []; quote = 0; in_tok = false }

unfoldable pub flush : Lexer → Lexer
flush l =
    if l.in_tok
    then record { toks = l.toks ++ l.cur ∷ []; cur = []; quote = l.quote; in_tok = false }
    else l

unfoldable pub write_rune : Lexer → ℕ → Lexer
write_rune l c = record l { cur = l.cur ++ c ∷ [] }

-- The body of the loop of tokenize.
unfoldable pub read_rune : Lexer → ℕ → Lexer
unfolding flush write_rune
read_rune l c =
    if not (eqb l.quote 0)
    then (if eqb c l.quote then record l { quote = 0 } else write_rune l c)
    else if eqb c 39 || eqb c 34
    then record l { quote = c; in_tok = true }
    else if eqb c 32 || eqb c 9 || eqb c 10 || eqb c 13
    then flush l
    else record (write_rune l c) { in_tok = true }

unfoldable pub read_runes : Lexer → Bytes → Lexer
unfolding read_rune
read_runes l [] = l
read_runes l (c ∷ s) = read_runes (read_rune l c) s

unfoldable pub tokens_of : Lexer → Option (List Bytes)
unfolding flush
tokens_of l = if not (eqb l.quote 0) then none else some (flush l).toks

unfoldable pub tokenize : Bytes → Option (List Bytes)
unfolding read_runes tokens_of
tokenize s = tokens_of (read_runes start s)

-- The request that is imported; its name stays empty.
pub record Req : Type 0 where
  pub method : Bytes
  pub url : Bytes
  pub headers : List (Bytes × Bytes)
  pub body : Bytes

-- The cases of parseCurl's `switch`: what is done with a token, and with the value behind it.
pub data Flag : Type 0 where
  command method header body url user_agent cookie unknown unknown_with_value : Flag
  bare : Bytes → Flag

unfoldable pub is_one_of : Bytes → List Bytes → Bool
is_one_of t [] = false
is_one_of t (name ∷ names) = (t == name) || is_one_of t names

-- "curl"; -X, --request; -H, --header; -d, --data, --data-raw, --data-binary, --data-ascii; --url;
-- -A, --user-agent; -b, --cookie; http://, https://
abbrev pub curl : Bytes
curl = 99 ∷ 117 ∷ 114 ∷ 108 ∷ []

abbrev pub request_flag : Bytes
request_flag = 45 ∷ 88 ∷ []

abbrev pub header_flag : Bytes
header_flag = 45 ∷ 72 ∷ []

abbrev pub data_flag : Bytes
data_flag = 45 ∷ 100 ∷ []

abbrev pub http_prefix : Bytes
http_prefix = 104 ∷ 116 ∷ 116 ∷ 112 ∷ 58 ∷ 47 ∷ 47 ∷ []

abbrev pub https_prefix : Bytes
https_prefix = 104 ∷ 116 ∷ 116 ∷ 112 ∷ 115 ∷ 58 ∷ 47 ∷ 47 ∷ []

abbrev method_flags : List Bytes
method_flags = request_flag ∷ (45 ∷ 45 ∷ 114 ∷ 101 ∷ 113 ∷ 117 ∷ 101 ∷ 115 ∷ 116 ∷ []) ∷ []

abbrev header_flags : List Bytes
header_flags = header_flag ∷ (45 ∷ 45 ∷ 104 ∷ 101 ∷ 97 ∷ 100 ∷ 101 ∷ 114 ∷ []) ∷ []

abbrev data_flags : List Bytes
data_flags =
    data_flag
    ∷ (45 ∷ 45 ∷ 100 ∷ 97 ∷ 116 ∷ 97 ∷ [])
    ∷ (45 ∷ 45 ∷ 100 ∷ 97 ∷ 116 ∷ 97 ∷ 45 ∷ 114 ∷ 97 ∷ 119 ∷ [])
    ∷ (45 ∷ 45 ∷ 100 ∷ 97 ∷ 116 ∷ 97 ∷ 45 ∷ 98 ∷ 105 ∷ 110 ∷ 97 ∷ 114 ∷ 121 ∷ [])
    ∷ (45 ∷ 45 ∷ 100 ∷ 97 ∷ 116 ∷ 97 ∷ 45 ∷ 97 ∷ 115 ∷ 99 ∷ 105 ∷ 105 ∷ [])
    ∷ []

abbrev url_flags : List Bytes
url_flags = (45 ∷ 45 ∷ 117 ∷ 114 ∷ 108 ∷ []) ∷ []

abbrev agent_flags : List Bytes
agent_flags =
    (45 ∷ 65 ∷ []) ∷ (45 ∷ 45 ∷ 117 ∷ 115 ∷ 101 ∷ 114 ∷ 45 ∷ 97 ∷ 103 ∷ 101 ∷ 110 ∷ 116 ∷ []) ∷ []

abbrev cookie_flags : List Bytes
cookie_flags = (45 ∷ 98 ∷ []) ∷ (45 ∷ 45 ∷ 99 ∷ 111 ∷ 111 ∷ 107 ∷ 105 ∷ 101 ∷ []) ∷ []

abbrev user_agent_key : Bytes
user_agent_key = 85 ∷ 115 ∷ 101 ∷ 114 ∷ 45 ∷ 65 ∷ 103 ∷ 101 ∷ 110 ∷ 116 ∷ []

abbrev cookie_key : Bytes
cookie_key = 67 ∷ 111 ∷ 111 ∷ 107 ∷ 105 ∷ 101 ∷ []

abbrev pub post : Bytes
post = 80 ∷ 79 ∷ 83 ∷ 84 ∷ []

-- strings.ContainsAny(t, "ouT")
unfoldable pub takes_value : Bytes → Bool
takes_value [] = false
takes_value (c ∷ t) = (eqb c 111 || eqb c 117 || eqb c 84) || takes_value t

unfoldable pub flag_of : Bytes → Flag
unfolding is_one_of has_prefix takes_value
flag_of t =
    if t == curl
    then command
    else if is_one_of t method_flags
    then method
    else if is_one_of t header_flags
    then header
    else if is_one_of t data_flags
    then body
    else if is_one_of t url_flags
    then url
    else if is_one_of t agent_flags
    then user_agent
    else if is_one_of t cookie_flags
    then cookie
    else if has_prefix t (45 ∷ [])
    then (if not (has_prefix t (45 ∷ 45 ∷ [])) && eqb (length t) 2 && takes_value t
        then unknown_with_value
        else unknown)
    else bare t

-- Whether a case calls next().
unfoldable pub calls_next : Flag → Bool
calls_next command = false
calls_next unknown = false
calls_next (bare t) = false
calls_next _ = true

unfoldable pub set_header : Req → Option (Bytes × Bytes) → Option Req
unfolding trim_space
set_header r none = none
set_header r (some (k, v)) =
    some (record r { headers = insert (trim_space k) (trim_space v) r.headers })

unfoldable pub set_bare : Req → Bytes → Req
unfolding has_prefix
set_bare r t =
    if is_nil r.url && (has_prefix t http_prefix || has_prefix t https_prefix)
    then record r { url = t }
    else r

-- The effect of a case, with what next() gives; `none` is the error of a malformed header.
unfoldable pub apply : Flag → Bytes → Req → Option Req
unfolding set_header set_bare cut_colon
apply command v r = some r
apply method v r = some (record r { method = v })
apply header v r = set_header r (cut_colon v)
apply body v r = some (record r { body = v; method = if is_nil r.method then post else r.method })
apply url v r = some (record r { url = v })
apply user_agent v r = some (record r { headers = insert user_agent_key v r.headers })
apply cookie v r = some (record r { headers = insert cookie_key v r.headers })
apply unknown v r = some r
apply unknown_with_value v r = some r
apply (bare t) v r = some (set_bare r t)

unfoldable pub next_of : List Bytes → Bytes
next_of [] = []
next_of (t ∷ toks) = t

unfoldable pub behind : Bool → List Bytes → List Bytes
behind true (t ∷ toks) = toks
behind _ toks = toks

-- The loop of parseCurl; each turn takes a token, so that as much fuel as there are tokens is enough.
unfoldable pub parse_loop : ℕ → List Bytes → Req → Option Req
unfolding flag_of calls_next apply next_of behind
parse_loop fuel [] r = some r
parse_loop zero (t ∷ toks) r = some r
parse_loop (suc fuel) (t ∷ toks) r =
    let flag = flag_of t in
    elim (apply flag (next_of toks) r) [
      | none ↦ none
      | some s ↦ parse_loop fuel (behind (calls_next flag) toks) s
    ]

unfoldable pub with_url : Option Req → Option Req
with_url none = none
with_url (some r) = if is_nil r.url then none else some r

abbrev pub no_req : Req
no_req = record { method = []; url = []; headers = []; body = [] }

unfoldable pub parse_tokens : Option (List Bytes) → Option Req
unfolding parse_loop with_url
parse_tokens none = none
parse_tokens (some toks) = with_url (parse_loop (length toks) toks no_req)

-- parseCurl; the errors are not told apart.
unfoldable pub parse_curl : Bytes → Option Req
unfolding fold_lines tokenize parse_tokens
parse_curl s = parse_tokens (tokenize (fold_lines s))
