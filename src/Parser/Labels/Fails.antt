-- ===== src/Parser/Labels/Fails.antt =====
-- The refusals of parse_comment and parse_label.
use openradtool.Base.{
  ℕ, zero, suc, inl, inr, ◌≡◌, refl, true, false, not, ◌&&◌, Option, List, Bytes, codes, strcaseeq,
  Bool-cases, arith,
}
use Prim.Native.String.{String}
use openradtool.Model.{Label}
use openradtool.Model.Outcome.{Returns, returns_ok, returns_fail, returns_none, Returns-if}
use openradtool.Parser.State.{Libc, Parse, stops, is_ident, is_semicolon, string_of, parse_errx}
use openradtool.Parser.Lexer.{parse_next}
use openradtool.Parser.Labels.{
  add_lang, find_lang, push_label, parse_comment, lang_label, parse_label, parse_labels,
}

pub stops-parse_errx : (p : Parse) (s : String) → stops (parse_errx p s).last ≡ true
unfolding parse_errx stops
stops-parse_errx p s = refl

module _ (lib : Libc) where
  pub parse_comment-fails :
      (p : Parse) (doc : Option Bytes)
      → (parse_comment lib p doc).success ≡ false
      → stops (parse_comment lib p doc).parse.last ≡ true
  unfolding parse_comment
  parse_comment-fails p doc h =
      let q = parse_next lib p in
      ground
        (arith, stops-parse_errx q "expected quoted string", stops-parse_errx q "duplicate comment")

  push_label-fails :
      (lang : ℕ) (p : Parse) (q : List Label)
      → (push_label lang p q).success ≡ false
      → stops (push_label lang p q).parse.last ≡ true
  unfolding push_label
  push_label-fails lang p q h = ground (
    arith,
    stops-parse_errx p "expected quoted string",
    stops-parse_errx p "label must be non-empty",
    stops-parse_errx p "duplicate label",
  )

  lang_label-fails :
      (p : Parse) (q : List Label)
      → (lang_label lib p q).success ≡ false
      → stops (lang_label lib p q).parse.last ≡ true
  unfolding lang_label
  lang_label-fails p q h =
      let p1 = parse_next lib p in
      let s = string_of p1.last in
      let p2 = record p1 { cfg = record p1.cfg { langs = add_lang p1.cfg.langs s } } in
      let lang = find_lang p1.cfg.langs s in
      elim (Bool-cases (not (is_ident p1.last))) [
        | inl e ↦ rw e (stops-parse_errx p1 "expected language")
        | inr e ↦ rw e (push_label-fails lang (parse_next lib p2) q (rw e at h))
      ]

  pub parse_label-fails :
      (p : Parse) (q : List Label)
      → (parse_label lib p q).success ≡ false
      → stops (parse_label lib p q).parse.last ≡ true
  unfolding parse_label
  parse_label-fails p q h =
      let p1 = parse_next lib p in
      ground (
        arith,
        lang_label-fails p1 q,
        push_label-fails 0 p1 q,
        stops-parse_errx p1 "expected period or quoted string",
      )

  -- The labels up to a semicolon: a return of zero has stopped the parse.
  pub parse_labels-Returns :
      (n : ℕ) (p : Parse) (q : List Label)
      → Returns (λ l. Unit) (λ l. stops l.parse.last ≡ true) (parse_labels lib n p q)
  unfolding parse_labels
  parse_labels-Returns zero p q = returns_none
  parse_labels-Returns (suc n) p q =
      let p1 = parse_next lib p in
      let l = parse_label lib p1 q in
      Returns-if (is_semicolon p1.last) (λ e. returns_ok _ tt)
        λ e.
          Returns-if (not (is_ident p1.last && strcaseeq (string_of p1.last) (codes "jslabel")))
            (λ f. returns_fail _ (stops-parse_errx p1 "expected \"jslabel\""))
            λ f.
              Returns-if l.success (λ g. parse_labels-Returns n l.parse l.labels)
                (λ g. returns_fail l (parse_label-fails p1 q g))
