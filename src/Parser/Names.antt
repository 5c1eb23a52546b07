-- ===== src/Parser/Names.antt =====
-- parser.c: the names that are refused, the reserved words and the names of other top-level objects.
use openradtool.Base.{
  ℕ, Bool, true, false, ◌||◌, List, [], ◌∷◌, Bytes, codes, strcaseeq, if◌then◌else◌,
}
use openradtool.Parser.State.{Parse, parse_errx}

abbrev pub badidents : List Bytes
badidents =
    codes "auto"
    ∷ codes "break"
    ∷ codes "case"
    ∷ codes "char"
    ∷ codes "const"
    ∷ codes "continue"
    ∷ codes "default"
    ∷ codes "do"
    ∷ codes "double"
    ∷ codes "enum"
    ∷ codes "extern"
    ∷ codes "float"
    ∷ codes "goto"
    ∷ codes "long"
    ∷ codes "register"
    ∷ codes "short"
    ∷ codes "signed"
    ∷ codes "static"
    ∷ codes "struct"
    ∷ codes "typedef"
    ∷ codes "union"
    ∷ codes "unsigned"
    ∷ codes "void"
    ∷ codes "volatile"
    ∷ codes "ABORT"
    ∷ codes "ACTION"
    ∷ codes "ADD"
    ∷ codes "AFTER"
    ∷ codes "ALL"
    ∷ codes "ALTER"
    ∷ codes "ANALYZE"
    ∷ codes "AND"
    ∷ codes "AS"
    ∷ codes "ASC"
    ∷ codes "ATTACH"
    ∷ codes "AUTOINCREMENT"
    ∷ codes "BEFORE"
    ∷ codes "BEGIN"
    ∷ codes "BETWEEN"
    ∷ codes "BY"
    ∷ codes "CASCADE"
    ∷ codes "CASE"
    ∷ codes "CAST"
    ∷ codes "CHECK"
    ∷ codes "COLLATE"
    ∷ codes "COLUMN"
    ∷ codes "COMMIT"
    ∷ codes "CONFLICT"
    ∷ codes "CONSTRAINT"
    ∷ codes "CREATE"
    ∷ codes "CROSS"
    ∷ codes "CURRENT_DATE"
    ∷ codes "CURRENT_TIME"
    ∷ codes "CURRENT_TIMESTAMP"
    ∷ codes "DATABASE"
    ∷ codes "DEFAULT"
    ∷ codes "DEFERRABLE"
    ∷ codes "DEFERRED"
    ∷ codes "DELETE"
    ∷ codes "DESC"
    ∷ codes "DETACH"
    ∷ codes "DISTINCT"
    ∷ codes "DROP"
    ∷ codes "EACH"
    ∷ codes "ELSE"
    ∷ codes "END"
    ∷ codes "ESCAPE"
    ∷ codes "EXCEPT"
    ∷ codes "EXCLUSIVE"
    ∷ codes "EXISTS"
    ∷ codes "EXPLAIN"
    ∷ codes "FAIL"
    ∷ codes "FOR"
    ∷ codes "FOREIGN"
    ∷ codes "FROM"
    ∷ codes "FULL"
    ∷ codes "GLOB"
    ∷ codes "GROUP"
    ∷ codes "HAVING"
    ∷ codes "IF"
    ∷ codes "IGNORE"
    ∷ codes "IMMEDIATE"
    ∷ codes "IN"
    ∷ codes "INDEX"
    ∷ codes "INDEXED"
    ∷ codes "INITIALLY"
    ∷ codes "INNER"
    ∷ codes "INSERT"
    ∷ codes "INSTEAD"
    ∷ codes "INTERSECT"
    ∷ codes "INTO"
    ∷ codes "IS"
    ∷ codes "ISNULL"
    ∷ codes "JOIN"
    ∷ codes "KEY"
    ∷ codes "LEFT"
    ∷ codes "LIKE"
    ∷ codes "LIMIT"
    ∷ codes "MATCH"
    ∷ codes "NATURAL"
    ∷ codes "NOT"
    ∷ codes "NOTNULL"
    ∷ codes "NULL"
    ∷ codes "OF"
    ∷ codes "OFFSET"
    ∷ codes "ON"
    ∷ codes "OR"
    ∷ codes "ORDER"
    ∷ codes "OUTER"
    ∷ codes "PLAN"
    ∷ codes "PRAGMA"
    ∷ codes "PRIMARY"
    ∷ codes "QUERY"
    ∷ codes "RAISE"
    ∷ codes "RECURSIVE"
    ∷ codes "REFERENCES"
    ∷ codes "REGEXP"
    ∷ codes "REINDEX"
    ∷ codes "RELEASE"
    ∷ codes "RENAME"
    ∷ codes "REPLACE"
    ∷ codes "RESTRICT"
    ∷ codes "RIGHT"
    ∷ codes "ROLLBACK"
    ∷ codes "ROW"
    ∷ codes "SAVEPOINT"
    ∷ codes "SELECT"
    ∷ codes "SET"
    ∷ codes "TABLE"
    ∷ codes "TEMP"
    ∷ codes "TEMPORARY"
    ∷ codes "THEN"
    ∷ codes "TO"
    ∷ codes "TRANSACTION"
    ∷ codes "TRIGGER"
    ∷ codes "UNION"
    ∷ codes "UNIQUE"
    ∷ codes "UPDATE"
    ∷ codes "USING"
    ∷ codes "VACUUM"
    ∷ codes "VALUES"
    ∷ codes "VIEW"
    ∷ codes "VIRTUAL"
    ∷ codes "WHEN"
    ∷ codes "WHERE"
    ∷ codes "WITH"
    ∷ codes "WITHOUT"
    ∷ []

-- The state behind a function that may fail: `success` if it returns non-zero.
pub record Checked : Type 0 where
  pub parse : Parse
  pub success : Bool

unfoldable pub is_reserved : List Bytes → Bytes → Bool
is_reserved [] s = false
is_reserved (b ∷ bs) s = strcaseeq b s || is_reserved bs s

unfoldable pub parse_check_badidents : Parse → Bytes → Checked
unfolding is_reserved parse_errx
parse_check_badidents p s =
    if is_reserved badidents s
    then record { parse = parse_errx p "reserved identifier"; success = false }
    else record { parse = p; success = true }

-- Some object of the queue has the name, where `names` gives the objects' names.
unfoldable pub any_named : (ℕ → Bytes) → List ℕ → Bytes → Bool
any_named names [] s = false
any_named names (x ∷ xs) s = strcaseeq (names x) s || any_named names xs s

unfoldable pub parse_check_dupetoplevel : Parse → Bytes → Checked
unfolding any_named parse_errx
parse_check_dupetoplevel p name =
    if any_named (λ a. (p.cfg.enm a).name) p.cfg.eq name
    then record { parse = parse_errx p "duplicates enum name: %s:%zu:%zu"; success = false }
    else if any_named (λ a. (p.cfg.bitf a).name) p.cfg.bq name
    then record { parse = parse_errx p "duplicates bitfield name: %s:%zu:%zu"; success = false }
    else if any_named (λ a. (p.cfg.strct a).name) p.cfg.sq name
    then record { parse = parse_errx p "duplicates struct name: %s:%zu:%zu"; success = false }
    else record { parse = p; success = true }
