-- ===== src/Lib.antt =====
-- rinja: a type-safe template engine that compiles Jinja-like templates into Rust code.
--
-- A template goes through three crates. rinja_parser turns its text into nodes and expressions;
-- rinja_derive (a procedural macro) turns the nodes into the Rust code that renders the template;
-- and rinja is what that code calls when it runs: escaping, filters and the destination of the
-- output. Each part below is modelled on its own, and they meet in shared types: the literals and
-- whitespace controls of the parser are what the code generator takes, and every destination of
-- output is a writer with the same contract.
--
-- Fmt is `core::fmt::Write`: a writer is a state and a `write_str` that gives the next state or
-- fails. What the theorems ask of a destination is the record `IsWriter`: an empty write does
-- nothing, and two writes are one write of both texts. A `String` is such a writer.
--
-- Html models rinja/src/html.rs: the table of escapes is built as its constants build it, and
-- `write_escaped_str` is the loop over the bytes with `index` and `last`. Html/Escape compares it
-- with a description that has no loop, Html/Safety says what escaped text is good for.
--
-- Filters models rinja/src/filters: Filters/Escape the escapers, `EscapeWriter`, `EscapeDisplay`,
-- `MaybeSafe` and what `rinja_auto_escape` chooses (filters/escape.rs), and Filters/Truncate the
-- writer of the filter `truncate` (filters/builtin.rs). Its search for the end of a character runs
-- on fuel, and the length of the text is enough. A value that is displayed is the list of the texts
-- that it writes. Filters/Json is the writer of filters/json.rs that escapes what is special in
-- HTML, Filters/Join and Filters/Pluralize the filters `join` and `pluralize` (filters/builtin.rs),
-- and Filters/Trim and Filters/Indent the filters `trim` and `indent` (filters/alloc.rs).
--
-- Parser models data of rinja_parser/src: Parser/Whitespace the whitespace controls of node.rs,
-- Parser/Lit the literals of node.rs and `split_ws_parts`, Parser/Expr the expressions of expr.rs,
-- Parser/Target and Parser/Node the patterns of target.rs and the whole node tree of node.rs,
-- Parser/Level the bound on nesting of lib.rs, Parser/Syntax the checks of delimiters of lib.rs,
-- and Parser/Keywords the table of keywords of lib.rs with `normalize_identifier` of
-- rinja_derive/src/generator.rs, which uses it.
--
-- Generator models rinja_derive/src/generator.rs and generator/node.rs. The state is the part of
-- `Generator` that decides which text reaches the output (`next_ws`, `skip_ws`, `buf_writable` and
-- the configured whitespace control), with one function for each of `write_lit`, `flush_ws`,
-- `prepare_ws`, `handle_ws`, `write_expr` and the rounds of `handle`; a failed assertion is `none`.
-- Generator/Spacing is about one literal between two tags, Generator/Output and Generator/Render
-- are about whole templates, and Generator/Controls is about two controls at one span of
-- whitespace. Generator/Writables models `write_buf_writable`, which puts the buffered expressions
-- into one `match` with a cache of equal ones (Generator/Cacheable), by calls of Buffer; Plan is
-- what such a `match` says, Binding, Arguments, Pieces and Loop lead to Evaluation, which compares
-- it with the items. Generator/Condition models `evaluate_condition` and `Conds::compute_branches`,
-- and Generator/Scopes the variables in scope.
--
-- Buffer models rinja_derive/src/integration.rs: `Buffer`, which holds the generated code and
-- merges `write_str` calls, and `string_escape`; a panic is `none`. The crate memchr is a
-- parameter, with what it documents of `memchr3_iter` as the record `IsMemchr3`. Buffer/Escape and
-- Buffer/Literal are about escaping for Rust literals, Buffer/Ask and Buffer/Merge about the buffer
-- as a whole.
--
-- Generator/Macros models the choice of an expression for each argument of a macro call in
-- `write_call` and `macro_call_ensure_arg_count`: Count is about the number of arguments,
-- Positional about calls without names, Passed and Named about names.
--
-- Generator/Visit models rinja_derive/src/generator/expr.rs, the visitors that write the code of an
-- expression. A visitor is a function on the buffer and the scopes that returns, refuses the
-- template or panics. Visit/Leaves, Visit/Targets, Visit/Arguments, Visit/Filters, Visit/Formats,
-- Visit/Parts and Visit/Operators have the visitors that do not recur, over what the visitors of
-- the expressions inside do, and Visit/Exprs ties them together; only `visit_concat` runs on fuel,
-- one more than its expressions. Visit/Escape is `compile_time_escape`, Escape/Displayed is what a
-- literal displays as, and Escape/Runtime compares both with Filters/Escape. Balance reads the code
-- as the tokens of Rust, with brackets and literals: Rules has the steps of its proofs, and Leaves,
-- Targets, Patterns, Arguments, Filters, Formats, Parts, Nested and Exprs follow the visitors.
-- Wrapping is about what the visitors return, Bindings about the variables that a pattern brings
-- into scope. Generator/Lets is `write_let` of rinja_derive/src/generator/node.rs, over these
-- visitors and Generator/Writables: Lets/Shadowing and Lets/Kept are about the variables that
-- buffered expressions still need, and Lets/Declared is about two tags for one name.
--
-- Inheritance models rinja_derive/src/heritage.rs: Inheritance/Context is `Context::new`, a work
-- list of nested nodes, and Inheritance/Chain is `Heritage::new`, which follows `extends`. Both
-- loops run on fuel: the lists of nodes of a template, and the ancestors of a template that has
-- finitely many, are enough. Context/Measure sums over nested nodes in a commutative monoid,
-- Context/Effects and Context/Steps are about one node and one list of nodes, Context/Rounds counts
-- the rounds, and Context/Complete is about the whole function; Chain/Known is about the
-- definitions of one context, and Chain/Ancestors about chains and circles of templates, with the
-- contexts that `Context::new` returns. Inheritance/Used is `find_used_templates` of
-- rinja_derive/src/input.rs, with its two work lists on fuel.
--
-- Config models `Config::new_uncached` of rinja_derive/src/config.rs with the checks of
-- Parser/Syntax, and the choice of an escaper of rinja_derive/src/input.rs; Config/Valid is what it
-- promises.
--
-- Loops models `TemplateLoop` of rinja/src/helpers.rs, Position `generate_row_and_column` of
-- rinja_derive/src/lib.rs, and Indentation `strip_common_ws_prefix` of rinja_derive/src/input.rs,
-- with Indentation/Prefix about what it cuts off.
--
-- Text is the list of its bytes. Numbers are natural numbers, since the lengths and indices of the
-- code stay below the lengths of the texts in memory.
--
-- Not modelled: the parsers themselves, which are built from the combinators of the crate winnow;
-- the handlers of the nodes that generate code around their bodies (`if`, `for`, `match`, `block`,
-- `call`, `filter`, `include`), but for the branches of `if` and the arguments of `call`; the
-- search for template files; the files and caches of the configuration; and the filters that only
-- call the standard library or other crates.
pub mod Base
pub mod Fmt
pub mod Html
pub mod Filters
pub mod Parser
pub mod Generator
pub mod Buffer
pub mod Config
pub mod Indentation
pub mod Inheritance
pub mod Loops
pub mod Position
pub mod Tests
