-- ===== src/Parser/Lexer/Laws.antt =====
-- parse_next and the position in the input.
use openradtool.Base.{
  ℕ, ◌+◌, ◌≤◌, ◌<◌, ◌≡◌, ◌⊎◌, inl, inr, refl, Bool, true, false, not, ◌&&◌, ◌||◌, Option, none,
  some, List, [], ◌∷◌, ◌++◌, ◌==◌, if◌then◌else◌, Bytes, length, Bool-cases, arith, ℤ,
}
use openradtool.Parser.State.{Libc, Cursor, Parse, stops, advance, parse_read_err}
use openradtool.Parser.Lexer.{
  drop_last, skip, scan_word, scan_number, scan_literal, move_to, unless_broken, token,
  number_token, word_token, literal_token, minus_token, first_token, integer_token, decimal_token,
  parse_next,
}

-- The line feeds of the input.
abbrev pub newlines : List ℕ → ℕ
newlines [] = 0
newlines (c ∷ cs) = if c == 10 then newlines cs + 1 else newlines cs

-- A reader went from the one point of the input to the other, and counted the lines between them.
abbrev pub Ahead : Cursor → List ℕ → Cursor → List ℕ → Type 0
Ahead k cs k' cs' = (length cs' ≤ length cs) × (k'.line + newlines cs' ≡ k.line + newlines cs)

skip-Ahead : (b : Bool) (k : Cursor) (cs : List ℕ) → Ahead k cs (skip b k cs).at (skip b k cs).input
unfolding skip
skip-Ahead b k [] = omega arith
skip-Ahead b k (c ∷ cs) =
    ground (arith, skip-Ahead (if b then not (c == 10) else c == b'#') (advance c k) cs)

scan_word-Ahead :
    (k : Cursor) (cs : List ℕ) → Ahead k cs (scan_word k cs).rest.at (scan_word k cs).rest.input
unfolding scan_word
scan_word-Ahead k [] = omega arith
scan_word-Ahead k (c ∷ cs) = ground (arith, scan_word-Ahead (advance c k) cs)

scan_number-Ahead :
    (h : Bool) (k : Cursor) (cs : List ℕ)
    → Ahead k cs (scan_number h k cs).scan.rest.at (scan_number h k cs).scan.rest.input
unfolding scan_number
scan_number-Ahead h k [] = omega arith
scan_number-Ahead h k (c ∷ cs) = ground (arith, scan_number-Ahead (h || c == b'.') (advance c k) cs)

scan_literal-Ahead :
    (l : ℕ) (buf : Bytes) (k : Cursor) (cs : List ℕ)
    → Ahead k cs (scan_literal l buf k cs).rest.at (scan_literal l buf k cs).rest.input
unfolding scan_literal
scan_literal-Ahead l buf k [] = omega arith
scan_literal-Ahead l buf k (c ∷ cs) = ground (
  arith,
  scan_literal-Ahead c ((if l == 13 && c == 10 then drop_last buf else buf) ++ c ∷ []) (advance c k)
      cs,
)

-- What a step of the parse leaves, against what it had.
abbrev pub Forward : Parse → Parse → Type 0
Forward p q = Ahead p.at p.input q.at q.input

module _ (lib : Libc) where
  integer_token-Forward : (n : Option ℤ) (p : Parse) → Forward p (integer_token lib n p)
  unfolding integer_token
  integer_token-Forward none p = omega arith
  integer_token-Forward (some n) p = omega arith

  decimal_token-Forward : (s : Bytes) (p : Parse) → Forward p (decimal_token lib s p)
  unfolding decimal_token
  decimal_token-Forward s p = ground arith

  number_token-Forward : (s : Bytes) (p : Parse) → Forward p (number_token lib s p)
  unfolding number_token unless_broken
  number_token-Forward s p =
      let d = scan_number false p.at p.input in
      let whole = s ++ d.scan.text in
      ground (
        arith,
        scan_number-Ahead false p.at p.input,
        integer_token-Forward (lib.strtonum whole) (move_to p d.scan.rest),
        decimal_token-Forward whole (move_to p d.scan.rest),
      )

  word_token-Forward : (c : ℕ) (p : Parse) → Forward p (word_token lib c p)
  unfolding word_token unless_broken
  word_token-Forward c p = ground (arith, scan_word-Ahead p.at p.input)

  literal_token-Forward : (p : Parse) → Forward p (literal_token lib p)
  unfolding literal_token unless_broken
  literal_token-Forward p = ground (arith, scan_literal-Ahead b' ' [] p.at p.input)

  minus_token-Forward : (p : Parse) (cs : List ℕ) → p.input ≡ cs → Forward p (minus_token lib p cs)
  unfolding minus_token parse_read_err
  minus_token-Forward p [] e = ground arith
  minus_token-Forward p (c ∷ cs) e =
      ground
        (arith, number_token-Forward (b'-' ∷ c ∷ []) (record p { at = advance c p.at; input = cs }))

  token-Forward : (c : ℕ) (p : Parse) → Forward p (token lib c p)
  unfolding token
  token-Forward c p = ground (
    arith,
    minus_token-Forward p p.input refl,
    number_token-Forward (c ∷ []) p,
    word_token-Forward c p,
    literal_token-Forward p,
  )

  -- The first token of `cs` consumes a byte, or the parse stops.
  first_token-Forward :
      (p : Parse) (cs : List ℕ)
      → p.input ≡ cs
      → Forward p (first_token lib p cs)
        × ((stops (first_token lib p cs).last ≡ true)
            ⊎ (length (first_token lib p cs).input < length cs))
  unfolding first_token parse_read_err stops
  first_token-Forward p [] e = elim (Bool-cases p.broken) [
    | inl b ↦ rw b (omega arith, inl refl)
    | inr b ↦ rw b (omega arith, inl refl)
  ]
  first_token-Forward p (c ∷ cs) e =
      let p' = record p { at = advance c p.at; input = cs } in
      let t = token-Forward c p' in (ground (arith, t), inr (omega (arith, t)))

  -- parse_next goes forward in the input and counts the lines that it consumes, and unless it stops,
  -- or had stopped before, it consumes a byte.
  pub parse_next-Forward :
      (p : Parse)
      → Forward p (parse_next lib p)
        × ((stops (parse_next lib p).last ≡ true)
            ⊎ (length (parse_next lib p).input < length p.input))
  unfolding parse_next
  parse_next-Forward p = elim (Bool-cases (stops p.last)) [
    | inl e ↦ rw e (omega arith, inl e)
    | inr e ↦
        let r = skip false p.at p.input in
        let ahead = skip-Ahead false p.at p.input in
        let f = first_token-Forward (move_to p r) r.input refl in
        rw e (
          omega (arith, ahead, f.0),
          elim f.1 [ inl stopped ↦ inl stopped | inr less ↦ inr (omega (arith, ahead, less)) ],
        )
  ]

  -- A parse that has stopped stays as it is.
  pub parse_next-stops : (p : Parse) → stops p.last ≡ true → parse_next lib p ≡ p
  unfolding parse_next
  parse_next-stops p e = rw e

-- How far a parse can still go: the measure of the loops of the parser.
unfoldable pub left : Parse → ℕ
left p = if stops p.last then 0 else length p.input + 1

module _ (lib : Libc) where
  pub left-parse_next-le : (p : Parse) → left (parse_next lib p) ≤ left p
  unfolding left
  left-parse_next-le p = elim (Bool-cases (stops p.last)) [
    | inl e ↦ rw (parse_next-stops lib p e) (omega arith)
    | inr e ↦ ground (arith, parse_next-Forward lib p)
  ]

  pub left-parse_next-lt : (p : Parse) → stops p.last ≡ false → left (parse_next lib p) < left p
  unfolding left
  left-parse_next-lt p e = ground (arith, parse_next-Forward lib p)
