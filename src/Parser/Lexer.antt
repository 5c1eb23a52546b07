-- ===== src/Parser/Lexer.antt =====
-- parse_next: the tokens of a configuration file. The character classes are those of the C locale.
pub mod Laws
pub mod Keeps
pub mod Spelling
pub mod ReadBack
use openradtool.Base.{
  ℕ, ◌+◌, Bool, true, false, not, ◌&&◌, ◌||◌, Option, none, some, List, [], ◌∷◌, ◌++◌, ◌==◌, leb,
  if◌then◌else◌, Bytes, c_string, ℤ,
}
use openradtool.Parser.State.{
  Tok, colon, comma, eof, err, lbrace, period, rbrace, semicolon, decimal, ident, integer, literal,
  Libc, Cursor, Parse, stops, advance, retreat, parse_errx, parse_read_err,
}

unfoldable pub is_space : ℕ → Bool
is_space c = c == 32 || leb 9 c && leb c 13

unfoldable pub is_digit : ℕ → Bool
is_digit c = leb b'0' c && leb c b'9'

unfoldable pub is_alpha : ℕ → Bool
is_alpha c = leb b'A' c && leb c b'Z' || leb b'a' c && leb c b'z'

unfoldable pub is_alnum : ℕ → Bool
unfolding is_digit is_alpha
is_alnum c = is_alpha c || is_digit c

-- The input from `at` on.
pub record Rest : Type 0 where
  pub at : Cursor
  pub input : List ℕ

-- White-space and comments, up to the first byte of a token; `comment`: a comment is open.
unfoldable pub skip : Bool → Cursor → List ℕ → Rest
unfolding is_space advance
skip comment k [] = record { at = k; input = [] }
skip comment k (c ∷ cs) =
    let rest = skip (if comment then not (c == 10) else c == b'#') (advance c k) cs in
    if comment || is_space c || c == b'#' then rest else record { at = k; input = c ∷ cs }

-- What a token's loop has read: `over` if it met the end of the input.
pub record Scan : Type 0 where
  pub text : Bytes
  pub rest : Rest
  pub over : Bool

-- A byte that is read and given back.
unfoldable pub peeked : Cursor → ℕ → List ℕ → Rest
unfolding advance retreat
peeked k c cs = record { at = retreat c (advance c k); input = c ∷ cs }

unfoldable pub scan_word : Cursor → List ℕ → Scan
unfolding is_alnum peeked
scan_word k [] = record { text = []; rest = record { at = k; input = [] }; over = true }
scan_word k (c ∷ cs) =
    let more = scan_word (advance c k) cs in
    if is_alnum c
    then record more { text = c ∷ more.text }
    else record { text = []; rest = peeked k c cs; over = false }

-- `hasdot`: the number has a decimal point.
pub record Digits : Type 0 where
  pub scan : Scan
  pub hasdot : Bool

unfoldable pub push_digit : ℕ → Digits → Digits
push_digit c d = record d { scan = record d.scan { text = c ∷ d.scan.text } }

unfoldable pub scan_number : Bool → Cursor → List ℕ → Digits
unfolding is_digit peeked push_digit
scan_number hasdot k [] = record {
  scan = record { text = []; rest = record { at = k; input = [] }; over = true };
  hasdot = hasdot;
}
scan_number hasdot k (c ∷ cs) =
    let more = scan_number (hasdot || c == b'.') (advance c k) cs in
    if is_digit c || c == b'.' && not hasdot
    then push_digit c more
    else record { scan = record { text = []; rest = peeked k c cs; over = false }; hasdot = hasdot }

unfoldable pub drop_last : Bytes → Bytes
drop_last [] = []
drop_last (c ∷ []) = []
drop_last (c ∷ d ∷ s) = c ∷ drop_last (d ∷ s)

-- The text of a literal behind its quote: `last` is the byte before, `buf` what is kept so far. A
-- CR before a LF is dropped.
unfoldable pub scan_literal : ℕ → Bytes → Cursor → List ℕ → Scan
unfolding drop_last advance
scan_literal last buf k [] = record {
  text = buf;
  rest = record { at = k; input = [] };
  over = true;
}
scan_literal last buf k (c ∷ cs) =
    let kept = if last == 13 && c == 10 then drop_last buf else buf in
    let more = scan_literal c (kept ++ c ∷ []) (advance c k) cs in
    if c == b'"' && not (last == b'\\')
    then record { text = buf; rest = record { at = advance c k; input = cs }; over = false }
    else more

unfoldable pub move_to : Parse → Rest → Parse
move_to p r = record p { at = r.at; input = r.input }

-- `then`, unless the stream failed under the token.
unfoldable pub unless_broken : Scan → Parse → Parse → Parse
unfolding parse_read_err
unless_broken s p next = if s.over && p.broken then parse_read_err p else next

module _ (lib : Libc) where
  integer_token : Option ℤ → Parse → Parse
  unfolding parse_errx
  integer_token none p = parse_errx p "malformed integer"
  integer_token (some n) p = record p { last = integer n }

  decimal_token : Bytes → Parse → Parse
  unfolding parse_errx
  decimal_token text p =
      if lib.strtod_fails text || lib.errno_range
      then parse_errx p "malformed decimal"
      else record p { last = decimal text }

  -- `text` is what stands before the bytes that are still to be read.
  unfoldable pub number_token : Bytes → Parse → Parse
  unfolding scan_number move_to unless_broken integer_token decimal_token
  number_token text p =
      let d = scan_number false p.at p.input in
      let p' = move_to p d.scan.rest in
      let whole = text ++ d.scan.text in
      unless_broken d.scan p'
        (if d.hasdot then decimal_token whole p' else integer_token (lib.strtonum whole) p')

  word_token : ℕ → Parse → Parse
  unfolding scan_word move_to unless_broken
  word_token c p =
      let s = scan_word p.at p.input in
      let p' = move_to p s.rest in unless_broken s p' (record p' { last = ident (c ∷ s.text) })

  literal_token : Parse → Parse
  unfolding scan_literal move_to unless_broken
  literal_token p =
      let s = scan_literal b' ' [] p.at p.input in
      let p' = move_to p s.rest in
      unless_broken s p' (record p' { last = literal (c_string s.text) })

  minus_token : Parse → List ℕ → Parse
  unfolding parse_read_err parse_errx number_token advance
  minus_token p [] = parse_read_err p
  minus_token p (c ∷ cs) =
      let p' = record p { at = advance c p.at; input = cs } in
      if is_digit c then number_token (b'-' ∷ c ∷ []) p' else parse_errx p' "expected digit"

  -- The token that starts with `c`, which is read already.
  unfoldable pub token : ℕ → Parse → Parse
  unfolding minus_token number_token word_token literal_token parse_errx
  token c p =
      if c == b'-'
      then minus_token p p.input
      else if c == b'}'
      then record p { last = rbrace }
      else if c == b'{'
      then record p { last = lbrace }
      else if c == b';'
      then record p { last = semicolon }
      else if c == b','
      then record p { last = comma }
      else if c == b'.'
      then record p { last = period }
      else if c == b':'
      then record p { last = colon }
      else if c == b'"'
      then literal_token p
      else if is_digit c
      then number_token (c ∷ []) p
      else if is_alpha c
      then word_token c p
      else parse_errx p "unknown input token"

  pub first_token : Parse → List ℕ → Parse
  unfolding token parse_read_err advance
  first_token p [] = parse_read_err p
  first_token p (c ∷ cs) = token c (record p { at = advance c p.at; input = cs })

  unfoldable pub parse_next : Parse → Parse
  unfolding first_token skip move_to
  parse_next p =
      let r = skip false p.at p.input in
      if stops p.last then p else first_token (move_to p r) r.input
