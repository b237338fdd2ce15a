-- ===== src/Lib.antt =====
-- StrataVM: a binary container for object graphs, and the machine that rebuilds a graph from it.
--
-- A container is a directory of sections. `load` reads the directory, the atom pool (interned strings),
-- the schema (kinds and typed fields) and the initial heap, replays the journal of opcodes over the heap,
-- builds a cross-reference index, reconciles the index that the file may bring, reads metadata and
-- validates the graph. Frames with a checksum carry containers over a byte stream. A builder makes
-- containers; a compactor shortens a journal; over a node table there are queries, an index of field
-- values, and the diff of two tables, which has a byte stream and becomes a journal. A registry keeps
-- the versions of a schema and plans migrations between them.
--
-- Paths are from the repository's root, with `include/stratavm/` and `src/` for headers and code.
--   Status      include/stratavm/status.hpp: codes; a result also tells undefined behaviour
--   Format      include/stratavm/format.hpp, src/journal.cpp: constants, enumerations, limits
--   Reader      include/stratavm/byte_reader.hpp: a cursor over a window of bytes, as a monad
--   Writer      include/stratavm/byte_writer.hpp: the bytes that each call appends
--   Value       src/value.cpp, and `encode_value` of src/compactor.cpp
--   Atoms       src/atom_pool.cpp, and `build_atom_section` of src/builder.cpp
--   Schema      src/schema.cpp, and `build_schema_section` of src/builder.cpp
--   Table       std::vector: elements, capacity, and the storage block that they are in
--   Node, Heap  include/stratavm/node.hpp, src/heap.cpp
--   Vm          src/replay_vm.cpp: State, Ops (opcodes outside groups), Groups (the stack and the loop)
--   Section     src/section.cpp: the header and the directory
--   Xref        src/xref_index.cpp
--   Validator   src/validator.cpp
--   Loader      src/loader.cpp: the pipeline
--   Wire        src/wire.cpp: frames and their checksum
--   Builder     src/builder.cpp: Serialize has the sections, the directory and the patches
--   Query       src/query_parser.cpp (Lexer, Parser) and src/query_eval.cpp (Eval)
--   Diff        src/diff.cpp: the comparison, Codec (the byte stream), Journal (the opcodes)
--   Compactor   src/compactor.cpp: the codec of operations, Passes and Groups (4a to 4d),
--               Reencode (phases 3 to 5), Compact
--   FieldIndex  src/field_index.cpp
--   Registry    src/schema_registry.cpp: the versions, Codec, Migration, and Conversion (the casts)
--   Runs        runs on concrete inputs
-- A class is a record, a method a function with the source's name that takes the record and returns it.
-- A method that fails returns a code and no state. Machine words are numbers with their wrap-around
-- written out; an int64_t or a double is its 64-bit pattern. An index past the end of a vector is
-- `fault out_of_range`, and a use of a pointer into storage that was given up is `fault dangling`: the
-- node table counts its reallocations, and the owner pointer of a group frame remembers the count.
-- A read of a union's member that was not written is `fault inactive_member`, and a cast of a double
-- outside int64_t is `fault bad_conversion`. A loop whose 32-bit counter never reaches its bound is
-- `fault endless`.
-- How much a vector grows is the parameter `Allocator`, with the law that there is room afterwards.
--
-- A hash map that the program looks up is an association list. Where the diff walks one, the order is
-- the parameter `Walk`, with the law that the walk has the map's entries and no others; the field index
-- walks a node's fields in the order of their list, one of the orders that the table may have, since its
-- entries are only looked up by their keys.
--
-- Loops over a count are recursion on that count, and the writer's varint loop is recursion on `Acc`.
-- The query lexer runs on one unit of fuel more than the text has bytes, since each round takes a byte,
-- and the parser on 6 for each token and 6 more, since at most 6 calls pass before a token is taken.
--
-- Not modelled: the texts of errors and issues, allocation failure, the default environment and
-- samples, the tools, tests and fuzz harnesses.
pub mod Base
pub mod Status
pub mod Format
pub mod Reader
pub mod Writer
pub mod Value
pub mod Atoms
pub mod Schema
pub mod Table
pub mod Node
pub mod Heap
pub mod Vm
pub mod Section
pub mod Xref
pub mod Validator
pub mod FieldIndex
pub mod Loader
pub mod Builder
pub mod Wire
pub mod Query
pub mod Diff
pub mod Registry
pub mod Compactor
pub mod Runs
