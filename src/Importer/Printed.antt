-- ===== src/Importer/Printed.antt =====
-- A request printed as a curl command is the request that is imported.
use loadify.Prelude.{
  ℕ, zero, suc, ◌≤◌, ◌≡◌, refl, ap, sym, subst, ◌∙◌, Bool, true, false, ◌||◌, Option, none, some,
  List, [], ◌∷◌, ◌++◌, arith, Bytes, All, is_nil, length, if◌then◌else◌,
}
use loadify.Dict.{insert}
use loadify.Importer.{
  runes_eq, Req, Flag, flag_of, calls_next, apply, header, bare, method, body, is_one_of,
  takes_value, onto_key, is_space, trim_left, next_of, behind, parse_loop, with_url, no_req,
  parse_tokens, parse_curl, post, curl, request_flag, header_flag, data_flag, http_prefix,
  https_prefix, trim_space, has_prefix, cut_colon, set_bare, set_header,
}
use loadify.Importer.Words.{Word, IsWord, line, texts, tokenize-fold_lines-line, avoids}

-- The loop does not depend on its fuel where that is enough.
behind-le : (b : Bool) (toks : List Bytes) → length (behind b toks) ≤ length toks
unfolding behind
behind-le true [] = omega arith
behind-le true (t ∷ toks) = omega arith
behind-le false [] = omega arith
behind-le false (t ∷ toks) = omega arith

on_next : (Req → Option Req) → Option Req → Option Req
on_next f o = elim o [ none ↦ none | some s ↦ f s ]

on_next-same :
    (f g : Req → Option Req) (o : Option Req) → ((r : Req) → f r ≡ g r) → on_next f o ≡ on_next g o
unfolding on_next
on_next-same f g none same = refl
on_next-same f g (some r) same = same r

parse_loop-enough :
    (m n : ℕ) (toks : List Bytes) (r : Req)
    → length toks ≤ m
    → length toks ≤ n
    → parse_loop m toks r ≡ parse_loop n toks r
unfolding parse_loop on_next
parse_loop-enough zero zero [] r h k = refl
parse_loop-enough zero (suc n) [] r h k = refl
parse_loop-enough (suc m) zero [] r h k = refl
parse_loop-enough (suc m) (suc n) [] r h k = refl
parse_loop-enough zero n (t ∷ toks) r h k = absurd (omega (arith, h))
parse_loop-enough (suc m) zero (t ∷ toks) r h k = absurd (omega (arith, k))
parse_loop-enough (suc m) (suc n) (t ∷ toks) r h k =
    let rest = behind (calls_next (flag_of t)) toks in
    let le = behind-le (calls_next (flag_of t)) toks in
    on_next-same (parse_loop m rest) (parse_loop n rest) (apply (flag_of t) (next_of toks) r)
      (λ s. parse_loop-enough m n rest s (omega (arith, h, le)) (omega (arith, k, le)))

abbrev parse_all : List Bytes → Req → Option Req
parse_all toks r = parse_loop (length toks) toks r

-- A flag with its value.
parse_all-flag :
    (flag : Flag) (t v : Bytes) (toks : List Bytes) (r s : Req)
    → flag_of t ≡ flag
    → calls_next flag ≡ true
    → apply flag v r ≡ some s
    → parse_all (t ∷ v ∷ toks) r ≡ parse_all toks s
unfolding parse_loop next_of on_next
parse_all-flag flag t v toks r s e c a =
    let whole =
      ap
        (λ f.
          on_next (parse_loop (suc (length toks)) (behind (calls_next f) (v ∷ toks))) (apply f v r))
        e in
    let taken =
      ap (λ b. on_next (parse_loop (suc (length toks)) (behind b (v ∷ toks))) (apply flag v r)) c in
    whole
    ∙ taken
    ∙ ap (on_next (parse_loop (suc (length toks)) toks)) a
    ∙ parse_loop-enough (suc (length toks)) (length toks) toks s (omega arith) (omega arith)

abbrev pub Header : Type 0
Header = Bytes × Bytes

-- The words of a request, its body and its address last.
abbrev header_args : List Header → List Bytes → List Bytes
header_args [] toks = toks
header_args ((k, v) ∷ headers) toks = header_flag ∷ (k ++ 58 ∷ 32 ∷ v) ∷ header_args headers toks

abbrev pub args : Req → List Bytes
args r = curl ∷ request_flag ∷ r.method ∷ header_args r.headers (data_flag ∷ r.body ∷ r.url ∷ [])

abbrev pub added : List Header → List Header → List Header
added found [] = found
added found ((k, v) ∷ headers) = added (insert k v found) headers

abbrev pub IsHeader : Header → Type 0
IsHeader (k, v) = (avoids 58 k ≡ true) × (trim_space k ≡ k) × (trim_space v ≡ v)

abbrev pub is_url : Bytes → Bool
is_url t = has_prefix t http_prefix || has_prefix t https_prefix

abbrev pub IsRequest : Req → Type 0
IsRequest r = (is_nil r.method ≡ false) × (is_url r.url ≡ true) × All IsHeader r.headers

cut_colon-key : (k s : Bytes) → avoids 58 k ≡ true → cut_colon (k ++ 58 ∷ s) ≡ some (k, s)
unfolding cut_colon onto_key
cut_colon-key [] s e = refl
cut_colon-key (c ∷ k) s e = ground (arith, e, cut_colon-key k s)

trim_space-blank : (v : Bytes) → trim_space (32 ∷ v) ≡ trim_space v
unfolding trim_space trim_left is_space
trim_space-blank v = refl

apply-header :
    (k v : Bytes) (r : Req)
    → IsHeader (k, v)
    → apply header (k ++ 58 ∷ 32 ∷ v) r ≡ some (record r { headers = insert k v r.headers })
unfolding apply set_header
apply-header k v r (plain, ek, ev) =
    ap (set_header r) (cut_colon-key k (32 ∷ v) plain)
    ∙ ap (λ x. some (record r { headers = insert x (trim_space (32 ∷ v)) r.headers })) ek
    ∙ ap (λ x. some (record r { headers = insert k x r.headers })) (trim_space-blank v ∙ ev)

parse_all-headers :
    (headers : List Header) (toks : List Bytes) (r : Req)
    → All IsHeader headers
    → parse_all (header_args headers toks) r
      ≡ parse_all toks (record r { headers = added r.headers headers })
unfolding flag_of calls_next
parse_all-headers [] toks r all = refl
parse_all-headers ((k, v) ∷ headers) toks r (first, all) =
    parse_all-flag header header_flag (k ++ 58 ∷ 32 ∷ v) (header_args headers toks) r _ refl refl
      (apply-header k v r first)
    ∙ parse_all-headers headers toks (record r { headers = insert k v r.headers }) all

is_url-first : (c : ℕ) (t : Bytes) → is_url (c ∷ t) ≡ true → c ≡ 104
unfolding has_prefix
is_url-first c t e = ground (arith, e)

flag_of-url : (t : Bytes) → is_url t ≡ true → flag_of t ≡ bare t
unfolding flag_of has_prefix is_one_of takes_value
flag_of-url [] e = absurd (ground (arith, e))
flag_of-url (c ∷ t) e = subst (λ d. flag_of (d ∷ t) ≡ bare (d ∷ t)) (sym (is_url-first c t e)) refl

set_bare-url :
    (t : Bytes) (r : Req)
    → is_url t ≡ true
    → is_nil r.url ≡ true
    → set_bare r t ≡ record r { url = t }
unfolding set_bare
set_bare-url t r e n = ground (arith, e, n)

-- The address, as the last word.
parse_all-url :
    (t : Bytes) (r : Req)
    → is_url t ≡ true
    → is_nil r.url ≡ true
    → parse_all (t ∷ []) r ≡ some (record r { url = t })
unfolding parse_loop on_next apply set_bare
parse_all-url t r e n =
    ap (λ f. on_next (parse_loop 0 (behind (calls_next f) [])) (apply f [] r)) (flag_of-url t e)
    ∙ ap some (set_bare-url t r e n)

apply-data :
    (v : Bytes) (r : Req) → is_nil r.method ≡ false → apply body v r ≡ some (record r { body = v })
unfolding apply
apply-data v r e = ap (λ b. some (record r { body = v; method = if b then post else r.method })) e

is_url-nil : (t : Bytes) → is_url t ≡ true → is_nil t ≡ false
unfolding has_prefix
is_url-nil [] e = absurd (ground (arith, e))
is_url-nil (c ∷ t) e = refl

parse_tokens-args :
    (r : Req)
    → IsRequest r
    → parse_tokens (some (args r)) ≡ some (record r { headers = added [] r.headers })
unfolding parse_tokens parse_loop on_next flag_of calls_next apply with_url
parse_tokens-args r (m, u, all) =
    let named : Req = record no_req { method = r.method } in
    let headed : Req = record named { headers = added [] r.headers } in
    let filled : Req = record headed { body = r.body } in
    let rest = data_flag ∷ r.body ∷ r.url ∷ [] in
    let toks = header_args r.headers rest in
    ap with_url (
      parse_all-flag method request_flag r.method toks no_req named refl refl refl
      ∙ parse_all-headers r.headers rest named all
      ∙ parse_all-flag body data_flag r.body (r.url ∷ []) headed filled refl refl
          (apply-data r.body headed m)
      ∙ parse_all-url r.url filled u refl)
    ∙ ap (λ b. if b then none else some (record filled { url = r.url })) (is_url-nil r.url u)

-- A curl command with -X, a -H for each header, -d and the address, whose words stand in single or
-- double quotes, is imported as the request that it was written for, with the last of the headers
-- of each name. The method is not empty, the address begins with http:// or https://, a header's
-- name has no colon, a name and a value have no blanks around them, and no word has its quote in it
-- or a backslash at the end of a line.
pub parse_curl-line :
    (r : Req) (words : List Word)
    → IsRequest r
    → All IsWord words
    → texts words ≡ args r
    → parse_curl (line words) ≡ some (record r { headers = added [] r.headers })
unfolding parse_curl
parse_curl-line r words request all same =
    ap parse_tokens (tokenize-fold_lines-line words all ∙ ap some same)
    ∙ parse_tokens-args r request
