-- ===== src/Xref/Safety.antt =====
-- src/xref_index.cpp: the index against what it is an index of, and its section on arbitrary bytes.
use stratavm.Base.{
  ℕ, zero, suc, ◌+◌, ◌≤◌, ◌<◌, ◌≡◌, refl, sym, ap, ◌∙◌, Bool, true, false, not, ◌&&◌, ltb, ltb→le,
  ◌==◌, Bool-cases, inl, inr, if◌then◌else◌, List, [], ◌∷◌, ◌++◌, append-nil, append_assoc, length,
  length-set, get_elem?, get_elem?-set_self, get_elem?-set_ne, replicate, arith,
}
use stratavm.Base.Maps.{Map, nat_eq, lookup, insert, lookup-insert}
use stratavm.Status.{limit_exceeded, bad_xref}
use stratavm.Format.{Limits, invalid_id, u32_mod}
use stratavm.Reader.Bounds.{Safe, bind-Safe, return-Safe, refuse_if-Safe, Safe-imp}
use stratavm.Reader.Words.{read_varint_u32-Safe}
use stratavm.Atoms.{AtomPool, lacks}
use stratavm.Node.{Node}
use stratavm.Xref.{
  XrefIndex, list_or_nil, id_or_none, referrers, by_name, name_live, note_source, note_sources,
  reverse_edges, build, reconcile, decode_and_reconcile,
}

-- `id` once for each time that `t` is in the list.
pub occurrences : ℕ → ℕ → List ℕ → List ℕ
occurrences id t [] = []
occurrences id t (u ∷ rest) = let more = occurrences id t rest in if u == t then id ∷ more else more

-- The sources of the edges to `t`, in the order of the nodes, references before children.
pub sources : ℕ → List Node → List ℕ
sources t [] = []
sources t (n ∷ rest) =
    occurrences n.id t n.refs ++ (occurrences n.id t n.children ++ sources t rest)

abbrev at : ℕ → List (List ℕ) → List ℕ
at t adj = list_or_nil (get_elem? adj t)

note_source-length : (id u : ℕ) (adj : List (List ℕ)) → length (note_source id u adj) ≡ length adj
unfolding note_source
note_source-length id u adj = elim (Bool-cases (ltb u (length adj))) [
  | inl small ↦ rw small (length-set adj u _)
  | inr large ↦ rw large refl
]

at-note_source :
    (id u t : ℕ) (adj : List (List ℕ))
    → t < length adj
    → at t (note_source id u adj) ≡ at t adj ++ (if u == t then id ∷ [] else [])
unfolding note_source
at-note_source id u t adj h = ground (
  arith,
  get_elem?-set_self adj t (at t adj ++ id ∷ []),
  get_elem?-set_ne adj u t (at u adj ++ id ∷ []),
  append-nil (at t adj),
)

note_sources-length :
    (id : ℕ) (ts : List ℕ) (adj : List (List ℕ)) → length (note_sources id ts adj) ≡ length adj
unfolding note_sources
note_sources-length id [] adj = refl
note_sources-length id (u ∷ rest) adj =
    note_sources-length id rest (note_source id u adj) ∙ note_source-length id u adj

at-note_sources :
    (id : ℕ) (ts : List ℕ) (t : ℕ) (adj : List (List ℕ))
    → t < length adj
    → at t (note_sources id ts adj) ≡ at t adj ++ occurrences id t ts
unfolding note_sources occurrences
at-note_sources id [] t adj h = sym (append-nil (at t adj))
at-note_sources id (u ∷ rest) t adj h =
    at-note_sources id rest t (note_source id u adj) (omega (arith, note_source-length id u adj))
    ∙ ap (λ xs. xs ++ occurrences id t rest) (at-note_source id u t adj h)
    ∙ append_assoc (at t adj) _ (occurrences id t rest)
    ∙ ap (λ xs. at t adj ++ xs) (put_first (u == t))
  where
    put_first :
        (test : Bool)
        → (if test then id ∷ [] else []) ++ occurrences id t rest
          ≡ (if test then id ∷ occurrences id t rest else occurrences id t rest)
    put_first true = refl
    put_first false = refl

at-reverse_edges :
    (nodes : List Node) (t : ℕ) (adj : List (List ℕ))
    → t < length adj
    → at t (reverse_edges nodes adj) ≡ at t adj ++ sources t nodes
unfolding reverse_edges sources
at-reverse_edges [] t adj h = sym (append-nil (at t adj))
at-reverse_edges (n ∷ rest) t adj h =
    let refs = note_sources n.id n.refs adj in
    let small : t < length refs = omega (arith, note_sources-length n.id n.refs adj) in
    at-reverse_edges rest t (note_sources n.id n.children refs)
      (omega (arith, note_sources-length n.id n.children refs))
    ∙ ap (λ xs. xs ++ sources t rest) (at-note_sources n.id n.children t refs small)
    ∙ ap (λ xs. (xs ++ occurrences n.id t n.children) ++ sources t rest)
        (at-note_sources n.id n.refs t adj h)
    ∙ append_assoc (at t adj ++ occurrences n.id t n.refs) _ _
    ∙ append_assoc (at t adj) _ _

length-replicate : (n : ℕ) → length (replicate {A = List ℕ} n []) ≡ n
length-replicate zero = refl
length-replicate (suc n) = ap suc (length-replicate n)

at-replicate : (n t : ℕ) → at t (replicate n []) ≡ []
at-replicate zero t = refl
at-replicate (suc n) zero = refl
at-replicate (suc n) (suc t) = at-replicate n t

-- For every slot of the node table, the built index lists as referrers exactly the ids of the nodes
-- that refer to it or have it for a child, once for each such edge, in the order of the nodes.
pub referrers-sources :
    (nodes : List Node) (t : ℕ) → t < length nodes → referrers (build nodes) t ≡ sources t nodes
unfolding referrers build
referrers-sources nodes t h =
    at-reverse_edges nodes t (replicate (length nodes) [])
      (omega (arith, length-replicate (length nodes)))
    ∙ ap (λ xs. xs ++ sources t nodes) (at-replicate (length nodes) t)

-- The id of the last live node with the name.
pub last_live : ℕ → List Node → ℕ → ℕ
last_live name [] found = found
last_live name (n ∷ rest) found =
    last_live name rest (if n.name == name && n.alive then n.id else found)

lookup-name_live :
    (nodes : List Node) (name : ℕ) (m : Map ℕ ℕ)
    → (name == invalid_id) ≡ false
    → id_or_none (lookup name (name_live nodes m))
      ≡ last_live name nodes (id_or_none (lookup name m))
unfolding name_live last_live
lookup-name_live [] name m h = refl
lookup-name_live (n ∷ rest) name m h =
    lookup-name_live rest name _ h ∙ ap (last_live name rest) kept
  where
    kept :
        id_or_none
          (lookup name (if not (n.name == invalid_id) && n.alive then insert n.name n.id m else m))
        ≡ (if n.name == name && n.alive then n.id else id_or_none (lookup name m))
    kept = ground (arith, lookup-insert n.name name n.id m)

-- The built index maps a name to the id of the last live node that has it, and to `kInvalidNode` if
-- none has, for every name but `kInvalidAtom`.
pub by_name-last_live :
    (nodes : List Node) (name : ℕ)
    → (name == invalid_id) ≡ false
    → by_name (build nodes) name ≡ last_live name nodes invalid_id
unfolding by_name build lookup
by_name-last_live nodes name h = lookup-name_live nodes name [] h

reconcile-Safe :
    (x : XrefIndex) (atoms : AtomPool) (node_count rounds warnings : ℕ)
    → warnings ≤ u32_mod
    → Safe (reconcile x atoms node_count rounds warnings) (λ w. w ≤ rounds + warnings)
unfolding reconcile
reconcile-Safe x atoms node_count zero warnings small = return-Safe warnings (omega arith)
reconcile-Safe x atoms node_count (suc rounds) warnings small =
    bind-Safe read_varint_u32-Safe λ name _. bind-Safe read_varint_u32-Safe λ node _.
      bind-Safe (refuse_if-Safe (lacks atoms name) bad_xref) λ _ _.
        bind-Safe (refuse_if-Safe _ bad_xref) λ _ _.
          Safe-imp (λ w k. ground (arith, k))
            (reconcile-Safe x atoms node_count rounds _ (ground arith))

-- On any bytes, reconciling indexes nothing out of range, and it counts at most one warning for each of
-- at most `max_nodes` entries.
pub decode_and_reconcile-Safe :
    (x : XrefIndex) (atoms : AtomPool) (limits : Limits) (node_count : ℕ)
    → Safe (decode_and_reconcile x atoms limits node_count 0) (λ w. w ≤ limits.max_nodes)
unfolding decode_and_reconcile
decode_and_reconcile-Safe x atoms limits node_count =
    bind-Safe read_varint_u32-Safe λ entry_count _.
      bind-Safe (refuse_if-Safe (ltb limits.max_nodes entry_count) limit_exceeded) λ _ few.
        bind-Safe (reconcile-Safe x atoms node_count entry_count 0 (omega arith))
          λ warnings k. return-Safe _ (omega (arith, ltb→le _ _ few, k))
