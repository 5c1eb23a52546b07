-- ===== src/Parser/Labels.antt =====
-- parser.c: the comments and the labels of an object.
pub mod Laws
pub mod Fails
use openradtool.Base.{
  ℕ, zero, suc, ◌+◌, Bool, true, false, not, ◌&&◌, ◌||◌, Option, none, some, List, [], ◌∷◌, ◌++◌,
  ◌==◌, if◌then◌else◌, Bytes, codes, length, lower, strcaseeq,
}
use openradtool.Model.{Label}
use openradtool.Model.Outcome.{Outcome, ok, fail, out_of_fuel}
use openradtool.Parser.State.{
  Libc, Parse, is_period, is_ident, is_literal, is_semicolon, string_of, parse_errx, parse_point,
}
use openradtool.Parser.Lexer.{parse_next}

pub record Commented : Type 0 where
  pub parse : Parse
  pub doc : Option Bytes
  pub success : Bool

pub record Labelled : Type 0 where
  pub parse : Parse
  pub labels : List Label
  pub success : Bool

abbrev is_empty : Bytes → Bool
is_empty [] = true
is_empty (_ ∷ _) = false

abbrev is_some : Option Bytes → Bool
is_some none = false
is_some (some _) = true

-- The index of a language, or the number of languages if it is new.
unfoldable pub find_lang : List Bytes → Bytes → ℕ
find_lang [] s = 0
find_lang (l ∷ ls) s = if strcaseeq l s then 0 else find_lang ls s + 1

unfoldable pub add_lang : List Bytes → Bytes → List Bytes
unfolding find_lang
add_lang langs s = if find_lang langs s == length langs then langs ++ lower s ∷ [] else langs

unfoldable pub has_lang : ℕ → List Label → Bool
has_lang lang [] = false
has_lang lang (l ∷ q) = lang == l.lang || has_lang lang q

-- The label itself, of the language `lang`.
unfoldable pub push_label : ℕ → Parse → List Label → Labelled
unfolding has_lang parse_errx parse_point
push_label lang p q =
    if not (is_literal p.last)
    then record { parse = parse_errx p "expected quoted string"; labels = q; success = false }
    else if is_empty (string_of p.last)
    then record { parse = parse_errx p "label must be non-empty"; labels = q; success = false }
    else if has_lang lang q
    then record { parse = parse_errx p "duplicate label"; labels = q; success = false }
    else record {
      parse = p;
      labels = q ++ record { label = string_of p.last; lang = lang; pos = parse_point p } ∷ [];
      success = true;
    }

module _ (lib : Libc) where
  unfoldable pub parse_comment : Parse → Option Bytes → Commented
  unfolding parse_next parse_errx
  parse_comment p doc =
      let p1 = parse_next lib p in
      if not (is_literal p1.last)
      then record { parse = parse_errx p1 "expected quoted string"; doc = doc; success = false }
      else if is_some doc
      then record { parse = parse_errx p1 "duplicate comment"; doc = doc; success = false }
      else record { parse = p1; doc = some (string_of p1.last); success = true }

  -- The part of parse_label behind a period, which is read already.
  lang_label : Parse → List Label → Labelled
  unfolding parse_next find_lang add_lang push_label
  lang_label p q =
      let p1 = parse_next lib p in
      let s = string_of p1.last in
      let p2 = record p1 { cfg = record p1.cfg { langs = add_lang p1.cfg.langs s } } in
      if not (is_ident p1.last)
      then record { parse = parse_errx p1 "expected language"; labels = q; success = false }
      else push_label (find_lang p1.cfg.langs s) (parse_next lib p2) q

  unfoldable pub parse_label : Parse → List Label → Labelled
  unfolding lang_label
  parse_label p q =
      let p1 = parse_next lib p in
      if is_period p1.last
      then lang_label p1 q
      else if not (is_literal p1.last)
      then record {
        parse = parse_errx p1 "expected period or quoted string";
        labels = q;
        success = false;
      }
      else push_label 0 p1 q

  -- The labels up to a semicolon: the loop of parse_enum_label and parse_bitidx_label.
  unfoldable pub parse_labels : ℕ → Parse → List Label → Outcome Labelled
  unfolding parse_label
  parse_labels zero p q = out_of_fuel
  parse_labels (suc n) p q =
      let p1 = parse_next lib p in
      let l = parse_label p1 q in
      let rest = parse_labels n l.parse l.labels in
      if is_semicolon p1.last
      then ok (record { parse = p1; labels = q; success = true })
      else if not (is_ident p1.last && strcaseeq (string_of p1.last) (codes "jslabel"))
      then fail
          (record { parse = parse_errx p1 "expected \"jslabel\""; labels = q; success = false })
      else if l.success
      then rest
      else fail l
