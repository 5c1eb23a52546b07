-- ===== src/Lib.antt =====
-- A verification library for openradtool, a compiler for data models. A parser (parser.c and
-- parser_*.c) reads a configuration into objects whose names are still unresolved, and keeps a queue
-- of requests, one for each name. ort_parse_close (linker.c) then links the configuration: it
-- resolves the requests (linker_resolve.c), names the joins of the SQL queries and refuses recursive
-- structures (linker_aliases.c), checks the result, and orders the structures. The generators of
-- code, SQL and documents read a linked configuration.
--
-- The model covers the tokens of the parser, its enumerations and bitfields, the linker, the
-- audit of a role, which lists what a role may do and which structures it reaches by that, and the
-- comparison of the enumerations and bitfields of two configurations.
--   Base                    numbers, C strings as bytes, lists
--   Model                   the structs and enums of ort.h and of extern.h
--   Model.Store             writes to objects; gen_errx and gen_warnx of linker.c
--   Model.Outcome           how a pass ends
--   Linker.Graph            structures and their references, as the walks read them
--   Linker.Resolve          linker_resolve.c: Chain (resolve_field_chain and its users), Refs
--                           (references, enumerations, unique clauses, roles), Updates
--                           (resolve_up_const, resolve_up_mod), Rolemaps and Post (the maps
--                           of roles), Passes (linker_resolve)
--   Linker.Aliases          linker_aliases.c: Name (the alias of a join), Create
--                           (linker_aliases_create), Resolve (linker_aliases_resolve)
--   Linker.Checks           linker.c: Searchtype (check_aggrtype, check_searchtype), Unique
--                           (check_unique_unique), Roles (check_unique_roles,
--                           check_unique_roles_tree, check_roleops)
--   Linker.Order            linker.c: annotate, parse_cmp, check_reffind and the sort
--   Linker.Close            ort_parse_close
--   Parser.State            parser.h and the start of parser.c: the state of a parse and its messages
--   Parser.Lexer            parse_next of parser.c
--   Parser.Names            parse_check_badidents, parse_check_dupetoplevel
--   Parser.Labels           parse_comment, parse_label, and the loop of labels
--   Parser.Enum             parser_enum.c, with Item (parse_enum_item) and Assign (the assignment of
--                           values) beside it
--   Parser.Bitfield         parser_bitfield.c
--   Audit                   audit.c: rolemap_has
--   Audit.Run               follow and ort_audit
--   Diff                    diff.c: the comparison of enumerations, and of bitfields
--   Tests                   a small configuration, and the theorems applied to it
-- Modules named Laws, Aggregate, Annotate, Marks, Normal, Prefix, Reffind, Reach, Visits, Labels below
-- Diff, Enums, Itself, Keeps, Spelling, ReadBack, Fails, Ends, Items, Clauses, Values, Assignment
-- and Whole hold proofs.
--
-- An object is known by its address, a number; a configuration holds a store for each kind of
-- object, so that shared objects are shared in the model. A pointer that may be NULL is an option.
-- The queues are lists. A pass ends with its state and success or failure, or with a fault, which is
-- a false assertion or the use of a NULL pointer; only the sort in check_unique_unique takes a NULL
-- field, which linker_resolve rules out, for one without a name, where the source would crash. The
-- structs sent, ord, aggr and group, which the linker treats alike, are one type. Messages keep their
-- format string, without its arguments.
--
-- A file is the list of its bytes, and may end in a read error. strtonum and strtod of the C library
-- are a parameter, Libc, which also says whether errno is ERANGE from before the parse, since no call
-- resets it. What parse_enum and parse_bitfield read is a value that is put into its store at the
-- end, where the source fills an object that is already in its queue; no function between looks at it
-- there. The loops of the parser take fuel, one unit for each round; each round takes a byte of the
-- input or stops the parse, so more fuel than there is input is enough.
--
-- The recursions over references take fuel, one unit for each level. The walk for aliases counts
-- every reference that it follows and stops at the limit of 17576 aliases, so one unit more than the
-- limit is enough for it. annotate and check_reffind run after it, on structures that it has found
-- to be without cycles, and get the same fuel; follow, on a linked configuration, may have it too.
--
-- Not modelled: the parser of roles, fields and structures, the composition of the parsers in
-- ort_parse_file, the comparison of all but enumerations and bitfields, the generators, the
-- printers, the programs, memory management and failed allocations.
pub mod Base
pub mod Model
pub mod Linker
pub mod Parser
pub mod Audit
pub mod Diff
pub mod Tests
