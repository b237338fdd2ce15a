-- ===== src/Query/Search.antt =====
-- src/query_eval.cpp: what `execute` finds.
use stratavm.Base.{
  ℕ, suc, ◌+◌, ◌%◌, ◌<◌, ◌≡◌, refl, ap, subst, true, false, length-map, sym, ◌∙◌, append-nil,
  Bool-cases, inl, inr, Bool, ◌&&◌, if◌then◌else◌, List, [], ◌∷◌, ◌++◌, length, append_assoc, map,
  arith,
}
use stratavm.Format.{u32_mod}
use stratavm.Node.{Node}
use stratavm.Query.{QueryExpr}
use stratavm.Query.Printing.{Query, expr_of}
use stratavm.Query.Meaning.{IsSane, Reflects, Meets}
use stratavm.Query.Reflecting.{Reflects-test, Reflects-and}
use stratavm.Query.Deciding.{eval_node-Reflects}
use Reflects.{yes, no}
use stratavm.Query.Eval.{QueryEngine, QueryResult, eval_node, scan, execute, no_result}

abbrev pub filter : (Node → Bool) → List Node → List Node
filter p [] = []
filter p (n ∷ rest) = if p n then n ∷ filter p rest else filter p rest

module _ (q : QueryEngine) (e : QueryExpr) where
  -- What the scan looks for.
  abbrev pub wanted : Node → Bool
  wanted n = n.alive && eval_node q e n

  scan_lem :
      (ns : List Node) (r : QueryResult)
      → r.scanned < u32_mod
      → r.matched < u32_mod
      → scan q e ns r ≡ record {
        nodes = r.nodes ++ map Node.id (filter wanted ns);
        scanned = (r.scanned + length ns) % u32_mod;
        matched = (r.matched + length (filter wanted ns)) % u32_mod;
      }
  unfolding scan
  scan_lem [] r s m = λ i. record {
    nodes = sym (append-nil r.nodes) i;
    scanned = small r.scanned s i;
    matched = small r.matched m i;
  }
    where
      small : (k : ℕ) → k < u32_mod → k ≡ (k + 0) % u32_mod
      small k h = omega arith
  scan_lem (n ∷ rest) r s m = elim (Bool-cases (wanted n)) [
    | inl hit ↦ rw hit (
        scan_lem rest
          (record {
            nodes = r.nodes ++ n.id ∷ [];
            scanned = (r.scanned + 1) % u32_mod;
            matched = (r.matched + 1) % u32_mod;
          })
          (omega arith) (omega arith)
        ∙ λ i. record {
          nodes = append_assoc r.nodes (n.id ∷ []) (map Node.id (filter wanted rest)) i;
          scanned = one_more r.scanned (length rest) i;
          matched = one_more r.matched (length (filter wanted rest)) i;
        })
    | inr miss ↦ rw miss (
        scan_lem rest (record r { scanned = (r.scanned + 1) % u32_mod }) (omega arith) m ∙ λ i.
        record {
          nodes = r.nodes ++ map Node.id (filter wanted rest);
          scanned = one_more r.scanned (length rest) i;
          matched = (r.matched + length (filter wanted rest)) % u32_mod;
        })
  ]
    where
      one_more : (k l : ℕ) → ((k + 1) % u32_mod + l) % u32_mod ≡ (k + suc l) % u32_mod
      one_more k l = omega arith

  execute-filter : execute q e ≡ record {
    nodes = map Node.id (filter wanted q.nodes);
    scanned = length q.nodes % u32_mod;
    matched = length (filter wanted q.nodes) % u32_mod;
  }
  execute-filter = scan_lem q.nodes no_result (omega arith) (omega arith) ∙ λ i. record {
    nodes = map Node.id (filter wanted q.nodes);
    scanned = from_zero (length q.nodes) i;
    matched = from_zero (length (filter wanted q.nodes)) i;
  }
    where
      from_zero : (k : ℕ) → (0 + k) % u32_mod ≡ k % u32_mod
      from_zero k = omega arith

module _ (q : QueryEngine) (query : Query) where
  -- The ids of the live nodes that are as a query says, in order.
  pub data Selects : List Node → List ℕ → Type 0 where
    none_left : Selects [] []
    hit :
        {n : Node} {ns : List Node} {ids : List ℕ}
        → n.alive ≡ true
        → Meets q query n
        → Selects ns ids
        → Selects (n ∷ ns) (n.id ∷ ids)
    miss :
        {n : Node} {ns : List Node} {ids : List ℕ}
        → ¬ ((n.alive ≡ true) × Meets q query n)
        → Selects ns ids
        → Selects (n ∷ ns) ids

  -- What a search returns: the ids found, how many nodes there are and how many were found, modulo 2^32.
  pub record IsAnswer (r : QueryResult) : Type 0 where
    pub selected : Selects q.nodes r.nodes
    pub all_scanned : r.scanned ≡ length q.nodes % u32_mod
    pub all_matched : r.matched ≡ length r.nodes % u32_mod

  module _ (sane : IsSane q) where
    Selects-cons :
        (n : Node) (ns found : List Node) (b : Bool)
        → Reflects ((n.alive ≡ true) × Meets q query n) b
        → Selects ns (map Node.id found)
        → Selects (n ∷ ns) (map Node.id (if b then n ∷ found else found))
    Selects-cons n ns found true (yes (live, meets)) h = hit live meets h
    Selects-cons n ns found false (no k) h = miss k h

    filter-Selects :
        (ns : List Node) → Selects ns (map Node.id (filter (wanted q (expr_of query)) ns))
    filter-Selects [] = none_left
    filter-Selects (n ∷ ns) =
        Selects-cons n ns (filter (wanted q (expr_of query)) ns) (wanted q (expr_of query) n)
          (Reflects-and (Reflects-test n.alive) (eval_node-Reflects q sane query n))
          (filter-Selects ns)

    -- In an engine whose pool is indexed and has each text once, and whose tables 32-bit ids address, execute
    -- of a query's expression returns the ids of just the live nodes that are as the query says, in their
    -- order, counts every node, dead ones too, and the ids returned, modulo 2^32. What a query says is told by
    -- the texts of names: And, Or and Not are the connectives, a field is the first one of its name.
    pub execute-IsAnswer : IsAnswer (execute q (expr_of query))
    execute-IsAnswer = subst IsAnswer (sym (execute-filter q (expr_of query))) (record {
      selected = filter-Selects q.nodes;
      all_scanned = refl;
      all_matched =
          ap (λ n. n % u32_mod)
            (sym (length-map Node.id (filter (wanted q (expr_of query)) q.nodes)));
    })
