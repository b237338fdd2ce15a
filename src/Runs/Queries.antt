-- ===== src/Runs/Queries.antt =====
-- Runs of the query language.
use stratavm.Base.{ℕ, zero, suc, refl, some, arith, ◌≡◌, [], ◌∷◌, ◌++◌, List}
use stratavm.Query.{parsed, QueryToken, CmpOp}
use stratavm.Query.Parser.{parse, parse_tokens}
use stratavm.Query.Eval.{QueryEngine, execute}
use stratavm.Query.Settling.{Settles, parse-Settles}
use stratavm.Query.Printing.{Query, Level, print, expr_of}
use stratavm.Query.RoundTrip.{parse_tokens-print}
use stratavm.Query.Meaning.{IsSane}
use stratavm.Query.Search.{IsAnswer, execute-IsAnswer}
use stratavm.Atoms
use stratavm.Atoms.{get, intern}
use stratavm.Base.Maps.{bytes_eq, lookup, insert}
use stratavm.Atoms.Invariant.{IsIndexed, empty-IsIndexed, intern_lem}
use stratavm.Runs.{doc, pool, one_kind, root, leaf}

-- `any OR n`
abbrev text : List ℕ
text = b'a' ∷ b'n' ∷ b'y' ∷ b' ' ∷ b'O' ∷ b'R' ∷ b' ' ∷ b'n' ∷ []

parse-Settles_example : Settles (λ _. Unit {0}) (parse text)
parse-Settles_example = parse-Settles text

-- `NOT (kind:doc OR any) AND field:doc < 5`
abbrev query : Query
query = Query.and (Query.not (Query.or (Query.kind doc) Query.any)) (Query.field_int doc CmpOp.lt 5)

parse_tokens-print_example :
    parse_tokens (print Level.disjunction query ++ QueryToken.end ∷ []) ≡ parsed (expr_of query)
parse_tokens-print_example = parse_tokens-print query

abbrev engine : QueryEngine
engine = record { atoms = pool; schema = one_kind; nodes = root ∷ leaf ∷ [] }

pool-distinct : (i j : ℕ) (s : List ℕ) → get pool i ≡ some s → get pool j ≡ some s → i ≡ j
pool-distinct zero zero s h k = refl
pool-distinct zero (suc zero) s h k = cc (h, k)
pool-distinct (suc zero) zero s h k = cc (h, k)
pool-distinct (suc zero) (suc zero) s h k = refl
pool-distinct (suc (suc i)) j s h k = cc
pool-distinct i (suc (suc j)) s h k = cc

pool-IsIndexed : IsIndexed pool
unfolding intern lookup insert
pool-IsIndexed =
    (intern_lem (b'a' ∷ []) _ (intern_lem doc Atoms.empty empty-IsIndexed (omega arith)).indexed
      (omega arith)).indexed

engine-IsSane : IsSane engine
engine-IsSane = record {
  indexed = pool-IsIndexed;
  distinct = pool-distinct;
  few_atoms = omega arith;
  few_kinds = omega arith;
  few_fields = (omega arith, tt);
}

execute-IsAnswer_example : IsAnswer engine query (execute engine (expr_of query))
execute-IsAnswer_example = execute-IsAnswer engine query engine-IsSane
