-- ===== src/Query/Lexer.antt =====
-- src/query_parser.cpp: `QueryLexer`, on the bytes from `pos_` on.
use stratavm.Base.{
  ℕ, zero, suc, ◌+◌, ◌-◌, ◌*◌, ◌%◌, ◌^◌, Bool, true, false, not, ◌&&◌, ◌||◌, ltb, leb, ◌==◌,
  if◌then◌else◌, List, [], ◌∷◌, length, map,
}
use stratavm.Base.Maps.{bytes_beq}
use stratavm.Status.{bad_value}
use stratavm.Query.{Parsed, parsed, failed, thrown, out_of_fuel, ◌>>=◌, QueryToken}

abbrev pub is_space : ℕ → Bool
is_space c = (leb 9 c && leb c 13) || c == 32

abbrev pub is_digit : ℕ → Bool
is_digit c = leb 48 c && leb c 57

abbrev pub is_alpha : ℕ → Bool
is_alpha c = (leb 65 c && leb c 90) || (leb 97 c && leb c 122)

abbrev pub is_word : ℕ → Bool
is_word c = is_alpha c || is_digit c || c == b'_'

abbrev pub to_upper : ℕ → ℕ
to_upper c = if leb 97 c && leb c 122 then c - 32 else c

-- The bytes up to the first that fails the test, and those from there on.
unfoldable pub span : (ℕ → Bool) → List ℕ → List ℕ × List ℕ
span p [] = ([], [])
span p (c ∷ rest) =
    let (front, back) = span p rest in if p c then (c ∷ front, back) else ([], c ∷ rest)

unfoldable pub skip_ws : List ℕ → List ℕ
skip_ws [] = []
skip_ws (c ∷ rest) = let skipped = skip_ws rest in if is_space c then skipped else c ∷ rest

-- The value of decimal digits, from `acc` on.
unfoldable pub digits_value : ℕ → List ℕ → ℕ
digits_value acc [] = acc
digits_value acc (d ∷ ds) = digits_value (acc * 10 + (d - 48)) ds

-- `std::stoll` of a sign and digits: it throws what does not fit a long long.
unfoldable pub stoll : Bool → List ℕ → Parsed ℕ
unfolding digits_value
stoll negative ds =
    let v = digits_value 0 ds in
    if negative
    then if ltb (2 ^ 63) v then thrown else parsed ((2 ^ 64 - v) % 2 ^ 64)
    else if ltb (2 ^ 63 - 1) v
    then thrown
    else parsed v

unfoldable pub classify_word : List ℕ → QueryToken
classify_word w =
    let upper = map to_upper w in
    if bytes_beq w (b'k' ∷ b'i' ∷ b'n' ∷ b'd' ∷ [])
    then QueryToken.kind
    else if bytes_beq w (b'f' ∷ b'i' ∷ b'e' ∷ b'l' ∷ b'd' ∷ [])
    then QueryToken.field
    else if bytes_beq w (b'h' ∷ b'a' ∷ b's' ∷ b'_' ∷ b'c' ∷ b'h' ∷ b'i' ∷ b'l' ∷ b'd' ∷ [])
    then QueryToken.has_child
    else if bytes_beq w (b'h' ∷ b'a' ∷ b's' ∷ b'_' ∷ b'r' ∷ b'e' ∷ b'f' ∷ [])
    then QueryToken.has_ref
    else if bytes_beq w (b'a' ∷ b'l' ∷ b'i' ∷ b'v' ∷ b'e' ∷ [])
    then QueryToken.alive
    else if bytes_beq w (b'a' ∷ b'n' ∷ b'y' ∷ [])
    then QueryToken.any
    else if bytes_beq upper (b'A' ∷ b'N' ∷ b'D' ∷ [])
    then QueryToken.and
    else if bytes_beq upper (b'O' ∷ b'R' ∷ [])
    then QueryToken.or
    else if bytes_beq upper (b'N' ∷ b'O' ∷ b'T' ∷ [])
    then QueryToken.not
    else QueryToken.ident w

abbrev pub starts_with : (ℕ → Bool) → List ℕ → Bool
starts_with p [] = false
starts_with p (c ∷ rest) = p c

abbrev pub tail : List ℕ → List ℕ
tail [] = []
tail (c ∷ rest) = rest

-- Behind an opening quote.
unfoldable pub lex_string : List ℕ → Parsed (QueryToken × List ℕ)
lex_string rest =
    let (text, back) = span (λ c. not (c == b'"')) rest in
    elim back [ [] ↦ failed bad_value | _ ∷ after ↦ parsed (QueryToken.string text, after) ]

unfoldable pub lex_number : Bool → List ℕ → Parsed (QueryToken × List ℕ)
lex_number negative rest =
    let (digits, back) = span is_digit rest in
    stoll negative digits >>= λ v. parsed (QueryToken.integer v, back)

unfoldable pub lex_word : List ℕ → Parsed (QueryToken × List ℕ)
lex_word rest = let (word, back) = span is_word rest in parsed (classify_word word, back)

-- One round of the loop, at the byte `c` that no space precedes.
unfoldable pub lex_token : ℕ → List ℕ → Parsed (QueryToken × List ℕ)
lex_token c rest =
    let equals = starts_with (λ d. d == b'=') rest in
    if c == b'"'
    then lex_string rest
    else if c == b'!' && equals
    then parsed (QueryToken.neq, tail rest)
    else if c == b'<' && equals
    then parsed (QueryToken.le, tail rest)
    else if c == b'>' && equals
    then parsed (QueryToken.ge, tail rest)
    else if c == b'='
    then parsed (QueryToken.eq, rest)
    else if c == b'<'
    then parsed (QueryToken.lt, rest)
    else if c == b'>'
    then parsed (QueryToken.gt, rest)
    else if c == b':'
    then parsed (QueryToken.colon, rest)
    else if c == b'('
    then parsed (QueryToken.lparen, rest)
    else if c == b')'
    then parsed (QueryToken.rparen, rest)
    else if c == b'-' && starts_with is_digit rest
    then lex_number true rest
    else if is_digit c
    then lex_number false (c ∷ rest)
    else if is_alpha c || c == b'_'
    then lex_word (c ∷ rest)
    else failed bad_value

unfoldable pub tokenize_loop : ℕ → List ℕ → Parsed (List QueryToken)
tokenize_loop zero src = out_of_fuel
tokenize_loop (suc fuel) src = elim (skip_ws src) [
  | [] ↦ parsed (QueryToken.end ∷ [])
  | c ∷ rest ↦ lex_token c rest >>= λ (t, rest'). tokenize_loop fuel rest' >>= λ ts. parsed (t ∷ ts)
]

-- Every round takes a byte at least.
unfoldable pub tokenize : List ℕ → Parsed (List QueryToken)
unfolding tokenize_loop
tokenize src = tokenize_loop (length src + 1) src
