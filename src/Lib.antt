-- ===== src/Lib.antt =====
-- SMTStabilizer normalises SMT-LIB2 inputs: two inputs that differ in the names of symbols, in the
-- order of assertions or in the order of commutative operands should be printed alike. The parser
-- (src/parser) builds a DAG of hash-consed nodes, the node manager (src/node) hands it to the kernel
-- (src/kernel), and the kernel gives every node a 64-bit hash that depends on its context, separates
-- the symbols by these hashes, names them in the order of the hashes and sorts operands and
-- assertions. The library is called through a C++ facade, a C interface (src/api) or the command
-- line (src/main).
--
-- Files:
-- - Common: names that all files share, lists and tables over native numbers, sorting, and Outcome,
--   the result of code that may throw (`.at`) or take too many rounds.
-- - Hash: src/util/node_helper.cpp. A size_t is a number below 2 ^ 64 and wraps where `u64` is
--   written. Hash/Mix and Hash/Commutative hold what is proved of the functions.
-- - Kind: NODE_KIND of src/parser/kind.h. Kind/Names is kindToString, Kind/Operators is oper_key_map
--   and getOperKind, Kind/Relations is getNegatedKind and getFlipKind.
-- - Sort: SORT_KIND, class Sort and hash_without_name of src/parser/sort.h. Sort/Equality is its
--   operator==, Sort/Printing its toString, where a child that is not there gives none.
-- - Node: what the kernel reads of a DAGNode (src/parser/dag.h) and of the node manager. A shared
--   pointer is a number, the heap is a function from numbers to nodes, and mkUFVNode is a field,
--   since nodes are hash-consed.
-- - Kernel/State: the members of class Kernel. Kernel/Build: the constructor. Kernel/Propagate:
--   propagate, with its static table as a state that goes from call to call. Kernel/Context:
--   context_propagate. Kernel/Rebuild: rebuild_graph. Kernel/Specific: specific_propagate.
--   Kernel/Refine: the refinement loop of apply and the naming of symbols after it. Kernel/Apply:
--   how apply begins, and how it sorts operands and assertions.
-- - Rewrite: the rewriter src/parser/rewrite_parser.cpp, which mkInternalOper calls for each
--   application before the node is created. A vector that grows at its end is kept with its last
--   element first. Rewrite/Logic: the Boolean operators, ite and distinct; Rewrite/Equal: `=`;
--   Rewrite/Order: the comparisons of numbers; Rewrite/Sums: sums and products, with isZero and
--   isOne of src/parser/base_parser.cpp; Rewrite/Dispatch: rewrite_oper; Rewrite/Arity: getArity of
--   src/parser/op_parser.cpp; Rewrite/Oper: its mkOper and mkInternalOper, which call the rewriter
--   and create the node. The meanings they are measured by stand in Rewrite (Model) and
--   Rewrite/Meaning: a reading gives every node a truth value, an equality and an order, in which
--   the comparison of number constants is exact and Boolean constants, bit-vector constants and
--   strings without escapes are one node for each value, and no number; nothing is assumed of other
--   constants. The operations on integer constants are exact, and nothing is assumed of those on real
--   constants, which round. Rewrite/Chains, Rewrite/ScanSound, Rewrite/Comparisons, Rewrite/AtMost,
--   Rewrite/SumsSound, Rewrite/Reorder, Rewrite/Leftover, Rewrite/OperOrder and Rewrite/OperLeft hold
--   the lemmas.
-- - Interval: class Interval of src/parser/interval.h, over numbers whose comparisons are an
--   interface (Comparisons, IsOrdered). Interval/Sets: the operations of src/parser/interval.cpp
--   that read an interval as a set, Interval/Difference: its difference. Interval/Halves
--   holds the lemmas on the two ends.
-- - Api: the facade src/api/stabilizer_api.cpp. Api/Capi: the C interface src/api/c_api.cpp, where a
--   pointer that may be null is an Option. Api/CommandLine: the arguments of src/main/main.cpp.
-- - Examples: concrete inputs.
--
-- Bounds and fuel: the walk of the constructor takes one unit for each round; `build_work` counts the
-- rounds that a heap needs. The loops of context_propagate, specific_propagate and the refinement take
-- fuel, since the source bounds them by nothing but the hashes.
--
-- Parameters: `std::hash` (StdHash), `malloc` and the text of std::bad_alloc, and, in Api, the
-- parser, the node manager and the kernel behind the interface Engine, and std::to_string in
-- Sort/Printing. For the rewriter: Integer and Real, which wrap GMP and MPFR, the values of number
-- constants and the creation of constants (Terms), the cases of the overloads of rewrite that are
-- not modelled (Overloads), the hash codes of nodes, and createNode. For intervals: the comparisons of
-- Number (Comparisons).
--
-- Not modelled: sort_propagate and the renaming of datatypes and functions in apply, the parser, the
-- rewriting of operators other than those above (differences, divisions, bit vectors, strings and
-- the functions of one and two operands), the arithmetic of numbers and intervals, the union
-- of many intervals, and the bit vectors of src/util, which are a copy of another project's
-- code. std::sort is an insertion sort; where it sorts numbers, or
-- elements that its comparison tells apart, every sort gives the same vector. The assertion in toInt
-- is compiled out of release builds, and so it is here.
pub mod Api
pub mod Common
pub mod Examples
pub mod Hash
pub mod Interval
pub mod Kernel
pub mod Kind
pub mod Node
pub mod Rewrite
pub mod Sort
