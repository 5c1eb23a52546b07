-- ===== src/Parser/Lexer/Keeps.antt =====
-- parse_next and the configuration.
use openradtool.Base.{
  ℕ, ◌≡◌, refl, sym, ap, ◌∙◌, Bool, true, false, ◌&&◌, ◌||◌, Option, none, some, List, [], ◌∷◌,
  ◌++◌, ◌==◌, if◌then◌else◌, Bytes, ℤ,
}
use openradtool.Model.{Config}
use openradtool.Parser.State.{Libc, Parse, stops, advance, parse_err, parse_errx, parse_read_err}
use openradtool.Parser.Lexer.{
  scan_number, scan_word, scan_literal, is_digit, move_to, unless_broken, integer_token,
  decimal_token, number_token, word_token, literal_token, minus_token, token, first_token,
  parse_next, is_alpha, skip,
}

-- The configuration of `q` is `c` with other messages and languages.
pub record Keeps (c : Config) (q : Parse) : Type 0 where
  pub cfg : q.cfg ≡ record c { mq = q.cfg.mq; langs = q.cfg.langs }

pub Keeps-cfg : (c : Config) (q : Parse) → q.cfg ≡ c → Keeps c q
Keeps-cfg c q e = record { cfg = e ∙ ap (λ d. record c { mq = d.mq; langs = d.langs }) (sym e) }

pub Keeps-trans : {c : Config} {q r : Parse} → Keeps c q → Keeps q.cfg r → Keeps c r
Keeps-trans {r = r} h k =
    let swap : Config → Config = λ c. record c { mq = r.cfg.mq; langs = r.cfg.langs } in
    record { cfg = k.cfg ∙ ap swap h.cfg }

pub Keeps-if :
    {c : Config} {q r : Parse} (b : Bool) → Keeps c q → Keeps c r → Keeps c (if b then q else r)
Keeps-if true h k = h
Keeps-if false h k = k

module _ (lib : Libc) where
  integer_token-Keeps : (n : Option ℤ) (p : Parse) → Keeps p.cfg (integer_token lib n p)
  unfolding integer_token parse_errx
  integer_token-Keeps none p = (record { cfg = refl })
  integer_token-Keeps (some n) p = (record { cfg = refl })

  read_err-Keeps : (p : Parse) → Keeps p.cfg (parse_read_err p)
  unfolding parse_read_err parse_err
  read_err-Keeps p = Keeps-if p.broken (record { cfg = refl }) (record { cfg = refl })

  number_token-Keeps : (s : Bytes) (p : Parse) → Keeps p.cfg (number_token lib s p)
  unfolding number_token unless_broken decimal_token parse_errx move_to
  number_token-Keeps s p =
      let d = scan_number false p.at p.input in
      let p' = move_to p d.scan.rest in
      let whole = s ++ d.scan.text in
      Keeps-if (d.scan.over && p.broken) (read_err-Keeps p') (
        Keeps-if d.hasdot
          (Keeps-if (lib.strtod_fails whole || lib.errno_range) (record { cfg = refl })
            (record { cfg = refl }))
          (integer_token-Keeps (lib.strtonum whole) p'))

  word_token-Keeps : (c : ℕ) (p : Parse) → Keeps p.cfg (word_token lib c p)
  unfolding word_token unless_broken move_to
  word_token-Keeps c p =
      let s = scan_word p.at p.input in
      Keeps-if (s.over && p.broken) (read_err-Keeps (move_to p s.rest)) (record { cfg = refl })

  literal_token-Keeps : (p : Parse) → Keeps p.cfg (literal_token lib p)
  unfolding literal_token unless_broken move_to
  literal_token-Keeps p =
      let s = scan_literal b' ' [] p.at p.input in
      Keeps-if (s.over && p.broken) (read_err-Keeps (move_to p s.rest)) (record { cfg = refl })

  minus_token-Keeps : (p : Parse) (cs : List ℕ) → Keeps p.cfg (minus_token lib p cs)
  unfolding minus_token parse_errx
  minus_token-Keeps p [] = read_err-Keeps p
  minus_token-Keeps p (c ∷ cs) =
      Keeps-if (is_digit c)
        (number_token-Keeps (b'-' ∷ c ∷ []) (record p { at = advance c p.at; input = cs }))
        (record { cfg = refl })

  token-Keeps : (c : ℕ) (p : Parse) → Keeps p.cfg (token lib c p)
  unfolding token parse_errx
  token-Keeps c p = Keeps-if (c == b'-') (minus_token-Keeps p p.input) (
      Keeps-if (c == b'}') (record { cfg = refl })
        (Keeps-if (c == b'{') (record { cfg = refl })
          (Keeps-if (c == b';') (record { cfg = refl })
            (Keeps-if (c == b',') (record { cfg = refl })
              (Keeps-if (c == b'.') (record { cfg = refl })
                (Keeps-if (c == b':') (record { cfg = refl })
                  (Keeps-if (c == b'"') (literal_token-Keeps p) (
                    Keeps-if (is_digit c) (number_token-Keeps (c ∷ []) p)
                      (Keeps-if (is_alpha c) (word_token-Keeps c p) (record { cfg = refl }))))))))))

  first_token-Keeps : (p : Parse) (cs : List ℕ) → Keeps p.cfg (first_token lib p cs)
  unfolding first_token
  first_token-Keeps p [] = read_err-Keeps p
  first_token-Keeps p (c ∷ cs) = token-Keeps c (record p { at = advance c p.at; input = cs })

  pub parse_next-Keeps : (p : Parse) → Keeps p.cfg (parse_next lib p)
  unfolding parse_next move_to
  parse_next-Keeps p =
      Keeps-if (stops p.last) (record { cfg = refl })
        (first_token-Keeps (move_to p (skip false p.at p.input)) (skip false p.at p.input).input)
