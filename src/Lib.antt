-- ===== src/Lib.antt =====
-- somedb: the SQL front end, the byte encoding, the hash table, the B+tree index, and the storage
-- below it: the pages of a file, tables of tuples, and the buffer pool.
--
-- A query goes from text to an expression through two parts. The lexer reads a string into tokens,
-- and the parser, which asks it for all tokens when it is made, builds an expression from them. The
-- index keeps its nodes as pages of 4096 bytes, which the byte encoding writes and reads. A table
-- keeps its tuples in pages of the same size. Pages come from a file through the disk manager, and
-- those of the index through the buffer pool, whose clock replacer says which frame may be reused.
-- A plan reads the schema of a table from the table's file, and its expressions are evaluated against
-- rows, which are the tuples of the table.
--
-- Base: the shared types, Boolean tests, vectors as lists, integers, and facts on bits.
-- Utils.Serialize: src/utils/serialize.c. A buffer is a memory, a function from addresses to
--   bytes, and `data + k` of the source is the address k.
-- Utils.Hash: src/utils/hash.c. A chain is a list, whose empty case is an element of the array with
--   no key; a key that was freed is marked, and to read it is an undefined result. `atoi` is a
--   parameter. Utils.Hash.Chain, Refine and Remove relate a table to its entries.
-- Utils.CircularList: src/utils/circular_list.c. A node is its position.
-- Sql.Token, Sql.Lexer: include/sql/lexer.hpp and src/sql/lexer.cpp. `next_token` is
--   `Lexer::nextToken`, with the token before as an argument, since it is an out parameter;
--   `populate_tokens` is `Parser::populateTokens`. The positions are 16 bits and wrap. The
--   children state a specification on the text that is left, and relate the lexer to it.
-- Sql.Expression: include/sql/sql_expression.hpp.
-- Sql.Parser: include/sql/parser.hpp and src/sql/parser.cpp, one function for each method, in a
--   monad of the parser's position with the exceptions as errors. `ahead` is `position + 1`.
--   The children hold the syntax that the parser is for, its printer, and the proofs.
-- Sql.Pipeline: both together.
-- Sql.Primitive, Sql.Primitive.Methods: include/sql/primitive.hpp and src/sql/primitive.cpp. A type
--   is the struct that it is an object of, and a virtual call chooses by it. `typeid` and `double`
--   are a parameter, `Platform`. A string is its address. What may go wrong is an `Outcome`.
-- Sql.Schema: include/sql/schema.hpp and src/sql/schema.cpp. Sql.Schema.Row relates `Row::getValue`
--   to the tuples of Disk.Heap, Sql.Schema.Equal says what the comparison of tables sees.
-- Sql.Logical: src/sql/logical_expression.cpp, `evaluate` and `toString` of the three kinds of
--   expression. Sql.Logical.Typed is a judgement of types for integers.
-- Sql.Access: src/sql/access_method.cpp, the schema that is read from a table's file.
-- Sql.Plan: include/sql/logical_plan.hpp and src/sql/logical_plan.cpp. An operator whose input was
--   moved out has the input `null`.
-- Index.Key, Index.Page: include/index/index_page.hpp and `insertIntoNode` of
--   src/index/index_page.cpp. A vector access out of range is `none`.
-- Index.Codec, Index.Serial: `serialize` of src/index/index_page.cpp and the constructor from a
--   page. The values of the two kinds of node are behind one interface, `Codec`.
-- Index.Order: what an insertion does to the page of a node.
-- Index.Tree: include/index/btree_index.hpp and src/index/btree_index.cpp, the metadata page and
--   `redistribute_kv`, once for each kind of node.
-- Index.Tree.Store: the pages as the tree reaches them, an interface of operations: to fetch and to
--   flush a node, to write the metadata page, and to make a node. It has no laws: a theorem about the
--   tree says which pages an operation flushes and in which order, whatever a flush does.
-- Index.Tree.Pool: the operations of that interface in the program, by the buffer pool and the file;
--   Index.Tree.Pool.RoundTrip and Insert are about a leaf that goes through both.
-- Index.Tree.Search, Ops, Merge: `findLeaf`; `insert` with `splitRootNode` and
--   `splitNonRootNode`; `remove` with `merge` and src/index/btree_strategy.cpp. The store and the
--   fields of the tree are passed from step to step. Ops.Root, Level, Full and NewRoot are about
--   the splits, Merge.Leaves and Merge.Remove about the merges.
-- Disk.File: `read_page` and `write_page` of src/disk/disk_manager.c. A file is a parameter: its
--   size and its bytes, with the law of a write at an offset.
-- Disk.IndexFile: `create_btree_index` and `new_btree_index_page` of the same file.
-- Disk.Tuple, Disk.HeapPage, Disk.Heap: include/disk/heapfile.h and src/disk/heapfile.c, the bytes of
--   a tuple, of a page of tuples, and the operations on a table. Disk.HeapPage.Refine relates a page
--   to the list of its slots, Disk.Heap.Laws does so for a page of the file; Disk.Heap.Table is
--   `create_table`. The address that an allocation returns is an argument, since
--   `find_spacious_page` reads it.
-- Disk.Clock: src/disk/clock_replacer.c. The hand is the position of its node. The removal of a node
--   that frees a key of the frame table marks that key.
-- Disk.Bpm: src/disk/bpm.c, and `flush_node` of include/index/btree_index.hpp. A pointer to a page in
--   the pool is its frame. Disk.Bpm.Allocate is `allocate_new_page`.
--
-- Fuel: the loops of the lexer take one unit for each byte, and those of the parser at most three
-- for each token; what a theorem asks for is written in it. The loop that reads a page takes one
-- unit for each entry. The search of the tree takes a unit for each level and one for each key of a
-- node, the split of a node one for two levels, and `defragment` one for each tuple pointer. `pretty`
-- takes one for each call and each round; the loop of `allocate_new_page` one for each attempt.
--
-- Not modelled: the functions that open, remove or list files, and what a failed write does; latches
-- and threads; the scans of the access methods, which throw.
pub mod Base
pub mod Utils
pub mod Sql
pub mod Index
pub mod Disk
