-- ===== src/Tests/Parsing.antt =====
-- The theorems on the parser, applied to a small file.
use openradtool.Base.{
  ℕ, strcaseeq, to_lower, lower, ◌+◌, ◌-◌, ◌*◌, ◌≡◌, ◌≢◌, ◌<◌, length, ◌⊎◌, refl, true, false,
  Option, some, [], ◌∷◌, Bytes, codes, map, arith, ℤ, pos,
}
use openradtool.Model.Outcome.{out_of_fuel}
use openradtool.Parser.State.{no_tok, ident, integer, lbrace, eof, Libc, Parse, stops}
use openradtool.Parser.Lexer.{is_alpha, is_alnum, is_digit, is_space, parse_next}
use openradtool.Parser.Lexer.Laws.{left, Forward, parse_next-Forward}
use openradtool.Parser.Lexer.Spelling.{word, spells_lbrace, number}
use openradtool.Parser.Lexer.ReadBack.{Holds, done, more, read_tokens, read_tokens-Holds}
use openradtool.Parser.Enum.{parse_enum}
use openradtool.Parser.Enum.Laws.{Added, parse_enum-Added, parse_enum-ends}
use openradtool.Parser.Bitfield.{parse_bitfield}
use openradtool.Parser.Bitfield.Laws.{Added as BitfAdded, parse_bitfield-Added, parse_bitfield-ends}
use openradtool.Tests.{parsed, after, is_ok, after-is_ok}

-- A strtonum for numbers without a sign.
abbrev digits : ℕ → Bytes → Option ℤ
digits n [] = some (pos n)
digits n (c ∷ s) = digits (10 * n + (c - b'0')) s

abbrev libc : Libc
libc = record { strtonum = digits 0; strtod_fails = λ s. true; errno_range = false }

abbrev reading : Bytes → Parse
reading input = record {
  last = no_tok;
  at = record { line = 1; column = 0 };
  fname = codes "user.ort";
  input = input;
  broken = false;
  cfg = parsed;
}

abbrev enum_file : Parse
enum_file = reading (codes "Sex { item male 1; item other; item Female 7; };")

abbrev bits_file : Parse
bits_file = reading (codes "perm { item read 0; item write 63; comment \"x\"; };")

abbrev words : Parse
words = reading (codes " item x1 7  { ")

words-Holds :
    Holds libc
      (ident (codes "item") ∷ ident (codes "x1") ∷ integer (pos 7) ∷ lbrace ∷ [])
      (codes " item x1 7  { ")
unfolding is_alpha is_alnum is_digit is_space
words-Holds =
    more (codes " ") (refl, tt) (word b'i' (codes "tem") refl (refl, (refl, (refl, tt))))
      (more (codes " ") (refl, tt) (word b'x' (codes "1") refl (refl, tt))
        (more (codes " ") (refl, tt) (number b'7' [] (pos 7) refl tt refl)
          (more (codes "  ") (refl, (refl, tt)) spells_lbrace (done (codes " ") (refl, tt)) refl)
          refl)
        refl)
      refl

parse_next-Forward_example :
    Forward words (parse_next libc words)
    × ((stops (parse_next libc words).last ≡ true)
        ⊎ (length (parse_next libc words).input < length words.input))
parse_next-Forward_example = parse_next-Forward libc words

read_tokens-Holds_example :
    read_tokens libc 5 words
    ≡ ident (codes "item") ∷ ident (codes "x1") ∷ integer (pos 7) ∷ lbrace ∷ eof ∷ []
unfolding stops
read_tokens-Holds_example = read_tokens-Holds libc words words-Holds refl refl refl

abbrev enum_read : Parse
enum_read = after enum_file (parse_enum libc 60 enum_file)

abbrev bits_read : Parse
bits_read = after bits_file (parse_bitfield libc 60 bits_file)

-- The enumeration is accepted.
enum_read-accepted : (is_ok (parse_enum libc 60 enum_file) ≡ true) × (stops enum_read.last ≡ false)
unfolding parse_enum parse_next stops strcaseeq to_lower lower
enum_read-accepted = (refl, refl)

bits_read-accepted :
    (is_ok (parse_bitfield libc 60 bits_file) ≡ true) × (stops bits_read.last ≡ false)
unfolding parse_bitfield parse_next stops strcaseeq to_lower lower
bits_read-accepted = (refl, refl)

-- The values of the three items of the enumeration: the second one is assigned.
enum_read-values : map (λ i. i.value) (enum_read.cfg.enm 0).eq ≡ pos 1 ∷ pos 8 ∷ pos 7 ∷ []
unfolding parse_enum parse_next stops strcaseeq to_lower lower
enum_read-values = refl

parse_enum-Added_example : Added enum_file.cfg enum_read.cfg
unfolding left stops
parse_enum-Added_example =
    parse_enum-Added libc 60 enum_file enum_read (omega arith)
      (after-is_ok enum_file (parse_enum libc 60 enum_file) enum_read-accepted.0)
      enum_read-accepted.1

parse_enum-ends_example : parse_enum libc 60 enum_file ≢ out_of_fuel
unfolding left stops
parse_enum-ends_example = parse_enum-ends libc 60 enum_file (omega arith)

parse_bitfield-Added_example : BitfAdded bits_file.cfg bits_read.cfg
unfolding left stops
parse_bitfield-Added_example =
    parse_bitfield-Added libc 60 bits_file bits_read (omega arith)
      (after-is_ok bits_file (parse_bitfield libc 60 bits_file) bits_read-accepted.0)
      bits_read-accepted.1

parse_bitfield-ends_example : parse_bitfield libc 60 bits_file ≢ out_of_fuel
unfolding left stops
parse_bitfield-ends_example = parse_bitfield-ends libc 60 bits_file (omega arith)
