-- ===== src/Parser/State.antt =====
-- parser.h and the start of parser.c: the state of a parse, its position and its messages. The file
-- is the list of its bytes that are still to be read, and may end in a read error. The union `last`
-- stands with its token.
use Prim.Native.String.{String}
use openradtool.Base.{
  ℕ, ◌+◌, ◌-◌, Bool, true, false, Option, none, some, List, [], ◌==◌, ltb, if◌then◌else◌, Bytes, ℤ,
}
use openradtool.Model.{Pos, error, fatal, warn, Config}
use openradtool.Model.Store.{log_msg}

-- A decimal is known by its text, from which `strtod` has its value.
pub data Tok : Type 0 where
  no_tok colon comma eof err lbrace period rbrace semicolon : Tok
  decimal : Bytes → Tok
  ident : Bytes → Tok
  integer : ℤ → Tok
  literal : Bytes → Tok

-- What the C library makes of the text of a number: the value in the range from -INT64_MAX to
-- INT64_MAX, if it is one, and whether strtod refuses a decimal; and whether errno is ERANGE from
-- before, which strtod leaves as it is and no call of the parser resets.
pub record Libc : Type 0 where
  pub strtonum : Bytes → Option ℤ
  pub strtod_fails : Bytes → Bool
  pub errno_range : Bool

pub record Cursor : Type 0 where
  pub line : ℕ
  pub column : ℕ

pub record Parse : Type 0 where
  pub last : Tok
  pub at : Cursor
  pub fname : Bytes
  pub input : List ℕ
  pub broken : Bool
  pub cfg : Config

-- PARSE_STOP
unfoldable pub stops : Tok → Bool
stops err = true
stops eof = true
stops _ = false

-- Tests of the kind of a token, `lasttype`, and its union, `last`.
abbrev pub is_semicolon : Tok → Bool
is_semicolon semicolon = true
is_semicolon _ = false

abbrev pub is_period : Tok → Bool
is_period period = true
is_period _ = false

abbrev pub is_lbrace : Tok → Bool
is_lbrace lbrace = true
is_lbrace _ = false

abbrev pub is_rbrace : Tok → Bool
is_rbrace rbrace = true
is_rbrace _ = false

abbrev pub is_ident : Tok → Bool
is_ident (ident _) = true
is_ident _ = false

abbrev pub is_literal : Tok → Bool
is_literal (literal _) = true
is_literal _ = false

abbrev pub string_of : Tok → Bytes
string_of (ident s) = s
string_of (literal s) = s
string_of _ = []

abbrev pub integer_of : Tok → Option ℤ
integer_of (integer n) = some n
integer_of _ = none

-- The counting of parse_nextchar at a byte.
unfoldable pub advance : ℕ → Cursor → Cursor
advance c k =
    if c == 10
    then record { line = k.line + 1; column = 0 }
    else record { line = k.line; column = k.column + 1 }

-- parse_ungetc at a byte.
unfoldable pub retreat : ℕ → Cursor → Cursor
retreat c k =
    if c == 10
    then record { line = k.line - 1; column = k.column }
    else if ltb 0 k.column
    then record { line = k.line; column = k.column - 1 }
    else k

unfoldable pub parse_point : Parse → Pos
parse_point p = record { fname = p.fname; line = p.at.line; column = p.at.column }

unfoldable pub parse_warnx : Parse → String → Parse
unfolding parse_point log_msg
parse_warnx p s = record p { cfg = log_msg p.cfg warn (some (parse_point p)) s }

-- The message of an error number is left out.
unfoldable pub parse_err : Parse → Parse
unfolding parse_point log_msg
parse_err p = record p { last = err; cfg = log_msg p.cfg fatal (some (parse_point p)) "" }

unfoldable pub parse_errx : Parse → String → Parse
unfolding parse_point log_msg
parse_errx p s = record p { last = err; cfg = log_msg p.cfg error (some (parse_point p)) s }

-- At the end of the input: `eof`, or an error of the stream.
unfoldable pub parse_read_err : Parse → Parse
unfolding parse_err
parse_read_err p = if p.broken then parse_err p else record p { last = eof }
