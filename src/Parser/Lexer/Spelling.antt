-- ===== src/Parser/Lexer/Spelling.antt =====
-- The texts that spell tokens.
use mathlib.Core.List.{append_assoc, append-nil}
use openradtool.Base.{
  ℕ, ◌≡◌, refl, sym, ap, ◌∙◌, true, false, not, ◌&&◌, some, List, [], ◌∷◌, ◌++◌, ◌==◌, Bytes,
  c_string, All, arith, ℤ,
}
use openradtool.Parser.State.{
  Tok, colon, comma, lbrace, period, rbrace, semicolon, ident, integer, literal, Libc, Cursor,
  Parse, advance,
}
use openradtool.Parser.Lexer.{
  Scan, is_digit, is_alpha, is_alnum, scan_word, scan_number, scan_literal, unless_broken, token,
  number_token, word_token, literal_token, first_token, integer_token,
}

-- Bytes that stand as they are between quotes behind the byte `last`: no quote without a backslash,
-- no CR before a LF, no NUL, and no backslash at the end.
abbrev pub Quotes : ℕ → Bytes → Type 0
Quotes last [] = (last == b'\\') ≡ false
Quotes last (c ∷ cs) =
    ((c == b'"' && not (last == b'\\')) ≡ false)
    × ((last == 13 && c == 10) ≡ false)
    × ((c == 0) ≡ false)
    × Quotes c cs

abbrev pub IsDigits : Bytes → Type 0
IsDigits = All λ c. is_digit c ≡ true

-- The text spells the token.
pub data Spells (lib : Libc) : Tok → Bytes → Type 0 where
  spells_colon : Spells lib colon (b':' ∷ [])
  spells_comma : Spells lib comma (b',' ∷ [])
  spells_lbrace : Spells lib lbrace (b'{' ∷ [])
  spells_rbrace : Spells lib rbrace (b'}' ∷ [])
  spells_period : Spells lib period (b'.' ∷ [])
  spells_semicolon : Spells lib semicolon (b';' ∷ [])
  word :
      (c : ℕ) (s : Bytes)
      → is_alpha c ≡ true
      → All (λ d. is_alnum d ≡ true) s
      → Spells lib (ident (c ∷ s)) (c ∷ s)
  number :
      (c : ℕ) (s : Bytes) (n : ℤ)
      → is_digit c ≡ true
      → IsDigits s
      → lib.strtonum (c ∷ s) ≡ some n
      → Spells lib (integer n) (c ∷ s)
  negative :
      (c : ℕ) (s : Bytes) (n : ℤ)
      → is_digit c ≡ true
      → IsDigits s
      → lib.strtonum (b'-' ∷ c ∷ s) ≡ some n
      → Spells lib (integer n) (b'-' ∷ c ∷ s)
  quoted : (s : Bytes) → Quotes b' ' s → Spells lib (literal s) (b'"' ∷ (s ++ b'"' ∷ []))

-- A loop of a token has read `s` and stands before the bytes `cs`.
record Reads (r : Scan) (s : Bytes) (cs : List ℕ) : Type 0 where
  text : r.text ≡ s
  input : r.rest.input ≡ cs
  over : r.over ≡ false

scan_word-Reads :
    (k : Cursor) (s : Bytes) (cs : List ℕ)
    → All (λ d. is_alnum d ≡ true) s
    → Reads (scan_word k (s ++ 32 ∷ cs)) s (32 ∷ cs)
unfolding scan_word
scan_word-Reads k [] cs h = record { text = refl; input = refl; over = refl }
scan_word-Reads k (c ∷ s) cs h =
    let ih = scan_word-Reads (advance c k) s cs h.1 in
    rw h.0 (record { text = ap (λ t. c ∷ t) ih.text; input = ih.input; over = ih.over })

scan_number-Reads :
    (k : Cursor) (s : Bytes) (cs : List ℕ)
    → IsDigits s
    → Reads (scan_number false k (s ++ 32 ∷ cs)).scan s (32 ∷ cs)
      × ((scan_number false k (s ++ 32 ∷ cs)).hasdot ≡ false)
unfolding scan_number
scan_number-Reads k [] cs h = (record { text = refl; input = refl; over = refl }, refl)
scan_number-Reads k (c ∷ s) cs h =
    let ih = scan_number-Reads (advance c k) s cs h.1 in
    let dot : (c == b'.') ≡ false = ground (arith, h.0) in
    rw (h.0, dot)
      (record { text = ap (λ t. c ∷ t) ih.0.text; input = ih.0.input; over = ih.0.over }, ih.1)

scan_literal-Reads :
    (l : ℕ) (buf : Bytes) (k : Cursor) (s : Bytes) (cs : List ℕ)
    → Quotes l s
    → Reads (scan_literal l buf k (s ++ b'"' ∷ cs)) (buf ++ s) cs
unfolding scan_literal
scan_literal-Reads l buf k [] cs h =
    rw h (record { text = sym (append-nil buf); input = refl; over = refl })
scan_literal-Reads l buf k (c ∷ s) cs h =
    let ih = scan_literal-Reads c (buf ++ c ∷ []) (advance c k) s cs h.3 in
    rw (h.0, h.1)
      (record { text = ih.text ∙ append_assoc buf (c ∷ []) s; input = ih.input; over = ih.over })

c_string-Quotes : (l : ℕ) (s : Bytes) → Quotes l s → c_string s ≡ s
unfolding c_string
c_string-Quotes l [] h = refl
c_string-Quotes l (c ∷ s) h = rw h.2 (ap (λ t. c ∷ t) (c_string-Quotes c s h.3))

-- parse_next read the token and stands before `cs`.
pub record Next (p q : Parse) (t : Tok) (cs : List ℕ) : Type 0 where
  pub last : q.last ≡ t
  pub input : q.input ≡ cs
  pub broken : q.broken ≡ p.broken

module _ (lib : Libc) where
  token-word : (c : ℕ) (p : Parse) → is_alpha c ≡ true → token lib c p ≡ word_token lib c p
  unfolding token is_alpha is_digit
  token-word c p h =
      let a : (c == b'-') ≡ false = ground arith in
      let b : (c == b'}') ≡ false = ground arith in
      let d : (c == b'{') ≡ false = ground arith in
      let e : (c == b';') ≡ false = ground arith in
      let f : (c == b',') ≡ false = ground arith in
      let g : (c == b'.') ≡ false = ground arith in
      let i : (c == b':') ≡ false = ground arith in
      let j : (c == b'"') ≡ false = ground arith in
      let k : is_digit c ≡ false = ground arith in rw (a, b, d, e, f, g, i, j, k, h)

  token-digit :
      (c : ℕ) (p : Parse) → is_digit c ≡ true → token lib c p ≡ number_token lib (c ∷ []) p
  unfolding token is_digit
  token-digit c p h =
      let a : (c == b'-') ≡ false = ground arith in
      let b : (c == b'}') ≡ false = ground arith in
      let d : (c == b'{') ≡ false = ground arith in
      let e : (c == b';') ≡ false = ground arith in
      let f : (c == b',') ≡ false = ground arith in
      let g : (c == b'.') ≡ false = ground arith in
      let i : (c == b':') ≡ false = ground arith in
      let j : (c == b'"') ≡ false = ground arith in rw (a, b, d, e, f, g, i, j, h)

  number_token-Next :
      (pre s : Bytes) (n : ℤ) (p : Parse) (cs : List ℕ)
      → IsDigits s
      → lib.strtonum (pre ++ s) ≡ some n
      → p.input ≡ s ++ 32 ∷ cs
      → Next p (number_token lib pre p) (integer n) (32 ∷ cs)
  unfolding number_token unless_broken integer_token
  number_token-Next pre s n p cs h num e =
      let r = scan_number-Reads p.at s cs h in
      rw (e, r.0.over, r.1, r.0.text, num)
        (record { last = refl; input = r.0.input; broken = refl })

  word_token-Next :
      (c : ℕ) (s : Bytes) (p : Parse) (cs : List ℕ)
      → All (λ d. is_alnum d ≡ true) s
      → p.input ≡ s ++ 32 ∷ cs
      → Next p (word_token lib c p) (ident (c ∷ s)) (32 ∷ cs)
  unfolding word_token unless_broken
  word_token-Next c s p cs h e =
      let r = scan_word-Reads p.at s cs h in
      rw (e, r.over, r.text) (record { last = refl; input = r.input; broken = refl })

  literal_token-Next :
      (s : Bytes) (p : Parse) (cs : List ℕ)
      → Quotes b' ' s
      → p.input ≡ s ++ b'"' ∷ cs
      → Next p (literal_token lib p) (literal s) cs
  unfolding literal_token unless_broken
  literal_token-Next s p cs h e =
      let r = scan_literal-Reads b' ' [] p.at s cs h in
      rw (e, r.over, r.text, c_string-Quotes b' ' s h)
        (record { last = refl; input = r.input; broken = refl })

  pub first_token-Next :
      {t : Tok} {text : Bytes}
      → Spells lib t text
      → (p : Parse) (cs : List ℕ) → Next p (first_token lib p (text ++ 32 ∷ cs)) t (32 ∷ cs)
  unfolding first_token token
  first_token-Next spells_colon p cs = record { last = refl; input = refl; broken = refl }
  first_token-Next spells_comma p cs = record { last = refl; input = refl; broken = refl }
  first_token-Next spells_lbrace p cs = record { last = refl; input = refl; broken = refl }
  first_token-Next spells_rbrace p cs = record { last = refl; input = refl; broken = refl }
  first_token-Next spells_period p cs = record { last = refl; input = refl; broken = refl }
  first_token-Next spells_semicolon p cs = record { last = refl; input = refl; broken = refl }
  first_token-Next (word c s a h) p cs =
      let p' : Parse = record p { at = advance c p.at; input = s ++ 32 ∷ cs } in
      let n = word_token-Next c s p' cs h refl in
      rw (token-word c p' a) (record { last = n.last; input = n.input; broken = n.broken })
  first_token-Next (number c s n d h e) p cs =
      let p' : Parse = record p { at = advance c p.at; input = s ++ 32 ∷ cs } in
      let r = number_token-Next (c ∷ []) s n p' cs h e refl in
      rw (token-digit c p' d) (record { last = r.last; input = r.input; broken = r.broken })
  first_token-Next (negative c s n d h e) p cs =
      let p' : Parse = record p { at = advance c (advance b'-' p.at); input = s ++ 32 ∷ cs } in
      let r = number_token-Next (b'-' ∷ c ∷ []) s n p' cs h e refl in
      rw d (record { last = r.last; input = r.input; broken = r.broken })
  first_token-Next (quoted s h) p cs =
      let p' : Parse = record p { at = advance b'"' p.at; input = (s ++ b'"' ∷ []) ++ 32 ∷ cs } in
      let r = literal_token-Next s p' (32 ∷ cs) h (append_assoc s (b'"' ∷ []) (32 ∷ cs)) in
      record { last = r.last; input = r.input; broken = r.broken }
