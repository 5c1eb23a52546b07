-- ===== src/Parser/Lexer/ReadBack.antt =====
-- Files of tokens.
use mathlib.Core.List.{append-nil}
use openradtool.Base.{
  ℕ, zero, suc, ◌≡◌, refl, sym, ap, ◌∙◌, true, false, ◌||◌, List, [], ◌∷◌, ◌++◌, ◌==◌, Bytes,
  length, All, arith,
}
use openradtool.Parser.State.{Tok, eof, Libc, Cursor, Parse, stops, advance, parse_read_err}
use openradtool.Parser.Lexer.{is_space, is_digit, is_alpha, skip, first_token, parse_next}
use openradtool.Parser.Lexer.Spelling.{
  Spells, spells_colon, spells_comma, spells_lbrace, spells_rbrace, spells_period, spells_semicolon,
  word, number, negative, quoted, Next, first_token-Next,
}

module _ (lib : Libc) where
  -- A token does not start with a blank or a comment.
  Spells-start :
      {t : Tok} {text : Bytes} (k : Cursor) (cs : List ℕ)
      → Spells lib t text
      → skip false k (text ++ cs) ≡ record { at = k; input = text ++ cs }
  unfolding skip is_alpha is_digit
  Spells-start k cs spells_colon = refl
  Spells-start k cs spells_comma = refl
  Spells-start k cs spells_lbrace = refl
  Spells-start k cs spells_rbrace = refl
  Spells-start k cs spells_period = refl
  Spells-start k cs spells_semicolon = refl
  Spells-start k cs (word c s a h) =
      let b : (is_space c || c == b'#') ≡ false = ground arith in rw b
  Spells-start k cs (number c s n d h e) =
      let b : (is_space c || c == b'#') ≡ false = ground arith in rw b
  Spells-start k cs (negative c s n d h e) = refl
  Spells-start k cs (quoted s h) = refl

  abbrev pub IsBlank : Bytes → Type 0
  IsBlank = All λ c. is_space c ≡ true

  skip-append :
      (k : Cursor) (bs cs : List ℕ)
      → IsBlank bs
      → (k' : Cursor) × (skip false k (bs ++ cs) ≡ skip false k' cs)
  unfolding skip is_space
  skip-append k [] cs h = (k, refl)
  skip-append k (b ∷ bs) cs h =
      let hash : (b == b'#') ≡ false = ground (arith, h.0) in
      let ih = skip-append (advance b k) bs cs h.1 in (ih.0, rw (h.0, hash) ih.1)

  -- Behind blanks, and before a blank, parse_next reads the token that the text spells.
  pub parse_next-Spells :
      {t : Tok} {text : Bytes} (bs cs : List ℕ) (p : Parse)
      → Spells lib t text
      → IsBlank bs
      → p.input ≡ bs ++ (text ++ 32 ∷ cs)
      → stops p.last ≡ false
      → Next p (parse_next lib p) t (32 ∷ cs)
  unfolding parse_next
  parse_next-Spells {text} bs cs p h blank e go =
      let a = skip-append p.at bs (text ++ 32 ∷ cs) blank in
      let r = a.1 ∙ Spells-start a.0 (32 ∷ cs) h in
      let n = first_token-Next lib h (record p { at = a.0; input = text ++ 32 ∷ cs }) cs in
      rw (go, e, r) (record { last = n.last; input = n.input; broken = n.broken })

  -- The file holds the tokens, each before a blank, with any blanks between.
  pub data Holds : List Tok → List ℕ → Type 0 where
    done : (bs : Bytes) → IsBlank bs → Holds [] bs
    more :
        {t : Tok} {text : Bytes} {ts : List Tok} {cs file : List ℕ} (bs : Bytes)
        → IsBlank bs
        → Spells lib t text
        → Holds ts (32 ∷ cs)
        → file ≡ bs ++ (text ++ 32 ∷ cs)
        → Holds (t ∷ ts) file

  -- The tokens that `n` calls of parse_next read.
  unfoldable pub read_tokens : ℕ → Parse → List Tok
  read_tokens zero p = []
  read_tokens (suc n) p = let q = parse_next lib p in q.last ∷ read_tokens n q

  Spells-stops : {t : Tok} {text : Bytes} → Spells lib t text → stops t ≡ false
  unfolding stops
  Spells-stops spells_colon = refl
  Spells-stops spells_comma = refl
  Spells-stops spells_lbrace = refl
  Spells-stops spells_rbrace = refl
  Spells-stops spells_period = refl
  Spells-stops spells_semicolon = refl
  Spells-stops (word c s a h) = refl
  Spells-stops (number c s n d h e) = refl
  Spells-stops (negative c s n d h e) = refl
  Spells-stops (quoted s h) = refl

  parse_next-end :
      (bs : Bytes) (p : Parse)
      → IsBlank bs
      → p.input ≡ bs
      → stops p.last ≡ false
      → p.broken ≡ false
      → (parse_next lib p).last ≡ eof
  unfolding parse_next first_token parse_read_err skip
  parse_next-end bs p blank e go whole =
      let a = skip-append p.at bs [] blank in
      let same : p.input ≡ bs ++ [] = e ∙ sym (append-nil bs) in rw (go, same, a.1, whole)

  -- If the input is tokens among blanks, with a space behind each of them, and no comment and no
  -- decimal, then parse_next gives the tokens one after another, and then the end of the file. The
  -- tokens are punctuation, words, integers that strtonum accepts, and literals, in which each quote
  -- is behind a backslash, no CR is before a LF, no byte is NUL and the last is not a backslash. The
  -- parse has not stopped before, and no read error is ahead.
  pub read_tokens-Holds :
      {ts : List Tok} {file : List ℕ} (p : Parse)
      → Holds ts file
      → p.input ≡ file
      → stops p.last ≡ false
      → p.broken ≡ false
      → read_tokens (suc (length ts)) p ≡ ts ++ eof ∷ []
  unfolding read_tokens
  read_tokens-Holds p (done bs blank) e go whole = rw (parse_next-end bs p blank e go whole)
  read_tokens-Holds p (more {t = t} {ts = ts} {cs = cs} bs blank h rest f) e go whole =
      let n = parse_next-Spells bs cs p h blank (e ∙ f) go in
      let ih =
        read_tokens-Holds (parse_next lib p) rest n.input (ap stops n.last ∙ Spells-stops h)
          (n.broken ∙ whole) in
      ap (◌∷ read_tokens (suc (length ts)) (parse_next lib p)) n.last ∙ ap (t ∷◌) ih
