-- ===== src/Query/Settling.antt =====
-- src/query_parser.cpp: the lexer's loop, and lexing and parsing of any text.
use stratavm.Base.{
  ℕ, zero, suc, ◌+◌, ◌≤◌, ◌<◌, ◌≡◌, refl, Bool, true, false, not, ◌&&◌, ◌||◌, ◌==◌, if-both,
  if-cases, List, [], ◌∷◌, length, arith,
}
use stratavm.Status.{bad_value}
use stratavm.Query.{Parsed, parsed, failed, thrown, ◌>>=◌, QueryToken, QueryExpr}
use stratavm.Query.Lexer.{
  is_digit, is_alpha, is_word, span, skip_ws, stoll, starts_with, tail, lex_string, lex_number,
  lex_word, lex_token, tokenize_loop, tokenize,
}
use stratavm.Query.Parser.{Tokens, parse}
use stratavm.Query.Termination.{is_ended, Ends, parse_tokens-Ends}
use Ends.{gives, rejects}

-- No fuel ran out: a value with `P`, `BadValue`, or an exception.
pub data Settles {A : Type 0} (P : A → Type 0) : Parsed A → Type 0 where
  returns : {a : A} → P a → Settles P (parsed a)
  refuses : Settles P (failed bad_value)
  throws : Settles P thrown

bind-Settles :
    {A B : Type 0} {P : A → Type 0} {Q : B → Type 0} {m : Parsed A} {f : A → Parsed B}
    → Settles P m
    → ((a : A) → P a → Settles Q (f a))
    → Settles Q (m >>= f)
bind-Settles (returns {a = a} p) g = g a p
bind-Settles refuses g = refuses
bind-Settles throws g = throws

length-skip_ws : (src : List ℕ) → length (skip_ws src) ≤ length src
unfolding skip_ws
length-skip_ws [] = omega arith
length-skip_ws (c ∷ rest) = ground (arith, length-skip_ws rest)

length-span : (p : ℕ → Bool) (xs : List ℕ) → length (span p xs).1 ≤ length xs
unfolding span
length-span p [] = omega arith
length-span p (c ∷ rest) = ground (arith, length-span p rest)

-- A byte that passes the test is taken.
length-span_taken :
    (p : ℕ → Bool) (c : ℕ) (rest : List ℕ) → p c ≡ true → length (span p (c ∷ rest)).1 ≤ length rest
unfolding span
length-span_taken p c rest h = rw h (length-span p rest)

length-tail : (xs : List ℕ) → length (tail xs) ≤ length xs
length-tail [] = omega arith
length-tail (c ∷ rest) = omega arith

abbrev Shorter : ℕ → QueryToken × List ℕ → Type 0
Shorter n (t, rest) = length rest ≤ n

stoll-Settles : (negative : Bool) (ds : List ℕ) → Settles (λ _. Unit {0}) (stoll negative ds)
unfolding stoll
stoll-Settles true ds = if-both (Settles _) _ throws (returns tt)
stoll-Settles false ds = if-both (Settles _) _ throws (returns tt)

lex_number-Settles :
    (negative : Bool) (src : List ℕ) (n : ℕ)
    → length (span is_digit src).1 ≤ n
    → Settles (Shorter n) (lex_number negative src)
unfolding lex_number
lex_number-Settles negative src n h =
    bind-Settles (stoll-Settles negative (span is_digit src).0) λ v _. returns h

lex_string-Settles : (rest : List ℕ) → Settles (Shorter (length rest)) (lex_string rest)
unfolding lex_string
lex_string-Settles rest = closing (span quoted rest).1 (length-span quoted rest)
  where
    quoted : ℕ → Bool
    quoted c = not (c == b'"')

    closing :
        (back : List ℕ)
        → length back ≤ length rest
        → Settles (Shorter (length rest)) (elim back [
          | [] ↦ failed bad_value
          | _ ∷ after ↦ parsed (QueryToken.string (span quoted rest).0, after)
        ])
    closing [] h = refuses
    closing (_ ∷ after) h = returns (omega arith)

lex_token-Settles : (c : ℕ) (rest : List ℕ) → Settles (Shorter (length rest)) (lex_token c rest)
unfolding lex_token lex_word
lex_token-Settles c rest =
    let equals : Bool = starts_with (λ d. d == b'=') rest in
    let plain : (t : QueryToken) → Settles (Shorter (length rest)) (parsed (t, rest)) =
      λ t. returns (omega arith) in
    let pair : (t : QueryToken) → Settles (Shorter (length rest)) (parsed (t, tail rest)) =
      λ t. returns (length-tail rest) in
    if-both S (c == b'"') (lex_string-Settles rest) (
      if-both S (c == b'!' && equals) (pair _) (
        if-both S (c == b'<' && equals) (pair _) (
          if-both S (c == b'>' && equals) (pair _) (
            if-both S (c == b'=') (plain _) (
              if-both S (c == b'<') (plain _) (
                if-both S (c == b'>') (plain _) (
                  if-both S (c == b':') (plain _) (
                    if-both S (c == b'(') (plain _) (
                      if-both S (c == b')') (plain _) (
                        if-both S (c == b'-' && starts_with is_digit rest)
                          (lex_number-Settles true rest (length rest) (length-span is_digit rest))
                          (if-cases S (is_digit c)
                            (λ d.
                              lex_number-Settles false (c ∷ rest) (length rest)
                                (length-span_taken is_digit c rest d))
                            λ _.
                              if-cases S (is_alpha c || c == b'_')
                                (λ w. returns (length-span_taken is_word c rest (word w)))
                                λ _. refuses)))))))))))
  where
    S : Parsed (QueryToken × List ℕ) → Type 0
    S = Settles (Shorter (length rest))

    word : (is_alpha c || c == b'_') ≡ true → is_word c ≡ true
    word w = ground arith

-- A token list with the sentinel at its end.
abbrev IsEnded : Tokens → Type 0
IsEnded ts = is_ended ts ≡ true

IsEnded-more : (t : QueryToken) (ts : Tokens) → IsEnded ts → IsEnded (t ∷ ts)
IsEnded-more t [] h = cc
IsEnded-more t (u ∷ rest) h = h

-- One round, at what `skip_ws` leaves.
round-Settles :
    (fuel : ℕ)
    → ((src : List ℕ) → length src < fuel → Settles IsEnded (tokenize_loop fuel src))
    → (s : List ℕ) → length s ≤ fuel
    → Settles IsEnded (elim s [
      | [] ↦ parsed (QueryToken.end ∷ [])
      | c ∷ rest ↦
          lex_token c rest >>= λ (t, rest'). tokenize_loop fuel rest' >>= λ ts. parsed (t ∷ ts)
    ])
round-Settles fuel more [] k = returns refl
round-Settles fuel more (c ∷ rest) k = bind-Settles (lex_token-Settles c rest) λ (t, rest') shorter.
    bind-Settles (more rest' (omega arith)) λ ts ended. returns (IsEnded-more t ts ended)

tokenize_loop-Settles :
    (fuel : ℕ) (src : List ℕ) → length src < fuel → Settles IsEnded (tokenize_loop fuel src)
unfolding tokenize_loop
tokenize_loop-Settles zero src h = absurd (omega arith)
tokenize_loop-Settles (suc fuel) src h =
    round-Settles fuel (tokenize_loop-Settles fuel) (skip_ws src)
      (omega (arith, length-skip_ws src))

tokenize-Settles : (src : List ℕ) → Settles IsEnded (tokenize src)
unfolding tokenize
tokenize-Settles src = tokenize_loop-Settles (length src + 1) src (omega arith)

-- Any text parses to an expression, fails with BadValue or throws the exception of std::stoll: the
-- fuel of the lexer and of the parser is enough.
pub parse-Settles : (query_text : List ℕ) → Settles (λ _. Unit {0}) (parse query_text)
unfolding parse
parse-Settles query_text =
    bind-Settles (tokenize-Settles query_text) λ ts ended. settled (parse_tokens-Ends ts ended)
  where
    settled : {m : Parsed QueryExpr} → Ends m → Settles (λ _. Unit {0}) m
    settled gives = returns tt
    settled rejects = refuses
