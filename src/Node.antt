-- ===== src/Node.antt =====
-- include/stratavm/node.hpp: one object of the graph.
use stratavm.Base.{ℕ, Bool, true, false, List, [], Option}
use stratavm.Base.Maps.{Map, nat_eq, lookup, insert}
use stratavm.Format.{invalid_id}
use stratavm.Value.{Value}

pub record Node : Type 0 where
  pub id : ℕ
  pub kind : ℕ
  pub name : ℕ
  pub alive : Bool
  pub placeholder : Bool
  pub generation : ℕ
  pub fields : Map ℕ Value
  pub children : List ℕ
  pub refs : List ℕ

-- `Node()`, with the members' initialisers.
abbrev pub fresh : Node
fresh = record {
  id = invalid_id;
  kind = invalid_id;
  name = invalid_id;
  alive = true;
  placeholder = false;
  generation = 0;
  fields = [];
  children = [];
  refs = [];
}

abbrev pub set_field : ℕ → Value → Node → Node
set_field f v n = record n { fields = insert f v n.fields }

abbrev pub field : Node → ℕ → Option Value
field n f = lookup f n.fields
