-- ===== src/Lib.antt =====
-- Verification of yabumi, a small statically typed scripting language: its compiler front end,
-- its tree-walking evaluator and its libraries are written in Rust under src/. A run reads the
-- files, lexes and parses them into the syntax tree (src/ast), checks types and effects
-- (src/types, src/effects), lints, and evaluates the tree (src/eval); the language server
-- (src/lsp) and the formatter use the same front end.
--
-- Common holds what the parts share: Boolean tests, lists over the native numbers, integers with
-- the checked operations of `i64` (Common.Int), decimal texts and trimming (Common.Decimal), maps
-- by name (Common.TextMap) and Rust's `Result`. A Rust string is the list of its code points
-- (`Text`), a `HashMap` by name an association list that keeps one entry for a name, an `Arc` is
-- transparent, and a `Vec` used as a stack has its top in front. A message that a diagnostic
-- carries is the text of the source.
--
-- Diagnostics is src/diagnostics: the error codes with their numbers and display, positions,
-- spans and diagnostics. A diagnostic bag is the list of what was pushed.
--
-- Ast is src/ast: expressions, patterns, statements, declarations and type annotations, as mutual
-- data types. The comments and line numbers that only the formatter reads are left out.
--
-- Types is src/types: `Ty` and its display (Types.Ty), effect sets as the bits of a `u8`
-- (Types.Effects), `unify` of infer.rs (Types.Unify) with its order (Types.Unify.Refinement),
-- substitution and `unify_collect` of generics.rs (Types.Generics, with Types.Generics.Origin on
-- where the entries of its table come from), the tables that the checker leaves
-- (Types.Resolutions), exhaustiveness.rs (Types.Exhaustiveness), the checker's scopes (Types.Env)
-- and the check of written places (Types.Mutability). `unify_collect` changes its table in place;
-- here it returns the table.
--
-- Eval is src/eval. Its data are values and dictionary keys (Eval.Value), the abort signal
-- (Eval.Panic), the environment (Eval.Env) and the program (Eval.Program); operators are in
-- Eval.Ops, the choice of a match arm of expr.rs in Eval.Match, the places of lvalue.rs with the
-- assignments of stmt.rs in Eval.Lvalue. A step that may abort gives an `Outcome`; `unreachable`
-- stands for the source's `unreachable!`, so a theorem that names another outcome shows that it
-- is not reached. The arithmetic of `f64` is a parameter (Eval.Float), bit patterns in and out. A
-- mutable reference into a variable's value is a `Place`: the value there and the variable's
-- value for each value put in its stead.
--
-- The evaluator of expr.rs, stmt.rs, lvalue.rs and call.rs is a function by recursion on the
-- syntax tree (Eval.Expr), in the monad that `eval_val!` and `?` make: a step changes the
-- environment and the world, and gives a value, an early return or an abort (Eval.Flow). What
-- stands between two evaluations of subexpressions is in Eval.Steps, the calls' parts that
-- evaluate nothing in Eval.Call, the methods that write in Eval.Call.Mutation with the
-- collections' operations in Stdlib.Collections, and the copy of a lambda's body in Eval.Clone.
-- What the evaluator calls outside of src/eval is the record Eval.Host: the world, printing, the
-- text of a float, the functions of namespaces and the methods of builtin types that only read.
-- Eval.Expr takes what a call of a function, a method or a lambda does as a parameter (`Calls`),
-- and Eval.Run fills it: `calls_within left` gives the calls with `left` levels below
-- MAX_CALL_DEPTH, which is 3000, and aborts at none. So a call's depth is what bounds the
-- recursion, as in the source, and there is no fuel beside it. A worker thread of `par` counts
-- its depth anew; how many threads may nest before the system refuses one is a number, and the
-- failed `expect` on it an `unreachable`. In the evaluator `par` is the run in which one worker
-- takes the branches in their order; Concurrency has the runs with any number of workers.
-- Eval.Run also runs the statements of the top level.
--
-- Eval.Match.Exhaustive relates two parts, the checker's exhaustiveness.rs and the evaluator's
-- match; Eval.Match.Gaps has the inputs on which the two disagree.
--
-- Concurrency is src/concurrency: the worker threads of `par` with their chunks of branches, the
-- flag that stops them and their messages, as a step relation on the state of all workers
-- (Concurrency), and the loop that puts the messages into slots (Concurrency.Slots). What a
-- branch evaluates to is a parameter there; an abort that ends the process is an abort too. A
-- worker's last step, in which it sets the flag and sends its message, is one step: nothing that
-- another worker does between the two depends on the message.
--
-- Effects is src/effects: the walk that lists the calls of a body (Effects.Walk), the masks that
-- say which parameters a function forwards (Effects.Forwarding), the effects of a call
-- (Effects.CallEffects) and the check of functions and of the program (Effects.Check). The walk's
-- closure that takes each call is a fold over the list of calls, and functions and structs are
-- checked in the order of their maps, which the source's hash maps leave open.
--
-- Lint is src/lint: the lint of unreachable code with the visitor that it is, as the list of what
-- it pushes (Lint.Unreachable); Lint.Unreachable.Laws relates it to the evaluator.
--
-- Stdlib is src/stdlib: the values that library functions return (Stdlib), the methods of lists,
-- dicts and sets that write (Stdlib.Collections), what the codecs share (Stdlib.Codec) and csv.rs
-- whole: the scanner (Stdlib.Codec.Csv), the typed encoding and decoding
-- (Stdlib.Codec.Csv.Table). The text of an `f64` is a parameter.
--
-- Lexer is src/lexer: tokens, the character cursor, and the stack of indentation levels of mod.rs
-- (Lexer.Indent). What one line does is in Lexer.Indent.Transition; a run over a text is a
-- relation that leaves the scanned tokens open (Lexer.Indent.Run), with its two ends, that of the
-- text and a tab in the indentation of a line.
--
-- Lsp is src/lsp/pos.rs: positions between the compiler and the protocol, on `u32` whose
-- additions saturate.
--
-- Recursion is on the data, but for the levels of calls and of threads above and for the decimal
-- digits of a number (Common.Decimal), which take `n + 1` units of fuel, more than the number has
-- digits.
--
-- Not modelled: the parser, the checker's passes over expressions, statements and declarations,
-- the other lints, module resolution, the methods of builtin types that only read, the functions
-- of namespaces, the other codecs, the formatter, the change of the world by workers that
-- overlap, and the driver, as well as what only does I/O.
pub mod Common
pub mod Diagnostics
pub mod Ast
pub mod Types
pub mod Eval
pub mod Concurrency
pub mod Effects
pub mod Lexer
pub mod Lint
pub mod Lsp
pub mod Stdlib
pub mod Tests
