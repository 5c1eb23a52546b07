-- ===== src/Parser/Labels/Laws.antt =====
-- Steps of the parser, and the fuel of the loop of labels.
use openradtool.Base.{
  ℕ, zero, suc, ◌≤◌, ◌<◌, ◌≡◌, ◌≢◌, inl, inr, refl, Bool, true, false, not, ◌&&◌, Option, List,
  if◌then◌else◌, Bytes, codes, strcaseeq, Bool-cases, arith,
}
use Prim.Native.String.{String}
use openradtool.Model.{Label}
use openradtool.Model.Outcome.{Outcome, ok, fail, fault, out_of_fuel, on_return}
use openradtool.Parser.State.{
  Tok, Libc, Parse, stops, is_ident, is_literal, is_period, is_semicolon, string_of, parse_errx,
}
use openradtool.Parser.Lexer.{parse_next}
use openradtool.Parser.Lexer.Laws.{left, left-parse_next-le, left-parse_next-lt}
use openradtool.Parser.Lexer.Keeps.{Keeps, Keeps-trans, parse_next-Keeps}
use openradtool.Parser.Labels.{
  add_lang, find_lang, has_lang, is_empty, is_some, push_label, parse_comment, lang_label,
  parse_label, parse_labels,
}

-- A step of the parser from `p` to `q`.
pub record Onward (p q : Parse) : Type 0 where
  pub less : left q ≤ left p
  pub keeps : Keeps p.cfg q

pub Onward-refl : (p : Parse) → Onward p p
Onward-refl p = record { less = omega arith; keeps = record { cfg = refl } }

pub Onward-trans : {p q r : Parse} → Onward p q → Onward q r → Onward p r
Onward-trans h k = record {
  less = omega (arith, h.less, k.less);
  keeps = Keeps-trans h.keeps k.keeps;
}

pub Onward-if : {p q r : Parse} (b : Bool) → Onward p q → Onward p r → Onward p (if b then q else r)
Onward-if true h k = h
Onward-if false h k = k

pub left-parse_errx : (p : Parse) (s : String) → left (parse_errx p s) ≡ 0
unfolding left parse_errx stops
left-parse_errx p s = refl

pub parse_errx-Onward : (p : Parse) (s : String) → Onward p (parse_errx p s)
unfolding parse_errx stops left
parse_errx-Onward p s = record { less = ground arith; keeps = record { cfg = refl } }

pub is_ident-stops : (t : Tok) → is_ident t ≡ true → stops t ≡ false
unfolding stops
is_ident-stops t h = ground arith

module _ (lib : Libc) where
  pub parse_next-Onward : (p : Parse) → Onward p (parse_next lib p)
  parse_next-Onward p = record { less = left-parse_next-le lib p; keeps = parse_next-Keeps lib p }

  pub parse_comment-Onward :
      (p : Parse) (doc : Option Bytes) → Onward (parse_next lib p) (parse_comment lib p doc).parse
  unfolding parse_comment
  parse_comment-Onward p doc =
      let q = parse_next lib p in
      elim (Bool-cases (not (is_literal q.last))) [
        | inl e ↦ rw e (parse_errx-Onward q _)
        | inr e ↦ elim (Bool-cases (is_some doc)) [
          | inl f ↦ rw (e, f) (parse_errx-Onward q _)
          | inr f ↦ rw (e, f) (Onward-refl q)
        ]
      ]

  push_label-Onward : (lang : ℕ) (p : Parse) (q : List Label) → Onward p (push_label lang p q).parse
  unfolding push_label
  push_label-Onward lang p q = elim (Bool-cases (not (is_literal p.last))) [
    | inl e ↦ rw e (parse_errx-Onward p _)
    | inr e ↦ elim (Bool-cases (is_empty (string_of p.last))) [
      | inl f ↦ rw (e, f) (parse_errx-Onward p _)
      | inr f ↦ elim (Bool-cases (has_lang lang q)) [
        | inl g ↦ rw (e, f, g) (parse_errx-Onward p _)
        | inr g ↦ rw (e, f, g) (Onward-refl p)
      ]
    ]
  ]

  lang_label-Onward : (p : Parse) (q : List Label) → Onward p (lang_label lib p q).parse
  unfolding lang_label left
  lang_label-Onward p q =
      let p1 = parse_next lib p in
      let s = string_of p1.last in
      let p2 = record p1 { cfg = record p1.cfg { langs = add_lang p1.cfg.langs s } } in
      let known : Onward p1 p2 = record { less = omega arith; keeps = record { cfg = refl } } in
      elim (Bool-cases (not (is_ident p1.last))) [
        | inl e ↦ rw e (Onward-trans (parse_next-Onward p) (parse_errx-Onward p1 _))
        | inr e ↦ rw e (
            Onward-trans (parse_next-Onward p) (
              Onward-trans known (
                Onward-trans (parse_next-Onward p2)
                  (push_label-Onward (find_lang p1.cfg.langs s) (parse_next lib p2) q))))
      ]

  pub parse_label-Onward :
      (p : Parse) (q : List Label) → Onward (parse_next lib p) (parse_label lib p q).parse
  unfolding parse_label push_label
  parse_label-Onward p q =
      let p1 = parse_next lib p in
      elim (Bool-cases (is_period p1.last)) [
        | inl e ↦ rw e (lang_label-Onward p1 q)
        | inr e ↦ elim (Bool-cases (not (is_literal p1.last))) [
          | inl f ↦ rw (e, f) (parse_errx-Onward p1 _)
          | inr f ↦ let h = push_label-Onward 0 p1 q in rw (e, f) (rw f at h)
        ]
      ]

-- A step that comes closer to the end of the input, unless the parse had stopped.
pub record Closer (p q : Parse) : Type 0 where
  pub onward : Onward p q
  pub less : stops p.last ≡ false → left q < left p

pub Closer-next : (lib : Libc) (p : Parse) {q : Parse} → Onward (parse_next lib p) q → Closer p q
Closer-next lib p h = record {
  onward = Onward-trans (parse_next-Onward lib p) h;
  less = λ go. omega (arith, left-parse_next-lt lib p go, h.less);
}

pub Closer-errx : (p : Parse) (s : String) → Closer p (parse_errx p s)
unfolding left
Closer-errx p s = record {
  onward = parse_errx-Onward p s;
  less = λ go. ground (arith, go, left-parse_errx p s);
}

pub Closer-Onward : {p q r : Parse} → Closer p q → Onward q r → Closer p r
Closer-Onward h k = record {
  onward = Onward-trans h.onward k;
  less = λ go. omega (arith, h.less go, k.less);
}

pub Closer-if : {p q r : Parse} (b : Bool) → Closer p q → Closer p r → Closer p (if b then q else r)
Closer-if true h k = h
Closer-if false h k = k

-- A loop that starts at `p` ends within its fuel, at a state that the parser comes to from `p`.
pub data Ends {S : Type 0} (at : S → Parse) (p : Parse) : Outcome S → Type 0 where
  ends_ok : (s : S) → Onward p (at s) → Ends at p (ok s)
  ends_fail : (s : S) → Onward p (at s) → Ends at p (fail s)
  ends_fault : Ends at p fault

pub Ends-ne-out_of_fuel :
    {S : Type 0} (at : S → Parse) (p : Parse) (m : Outcome S) → Ends at p m → m ≢ out_of_fuel
Ends-ne-out_of_fuel at p m (ends_ok s o) e = cc
Ends-ne-out_of_fuel at p m (ends_fail s o) e = cc
Ends-ne-out_of_fuel at p m ends_fault e = cc

pub Ends-from :
    {S : Type 0} (at : S → Parse) {p q : Parse} (m : Outcome S)
    → Onward p q
    → Ends at q m
    → Ends at p m
Ends-from at m h (ends_ok s o) = ends_ok s (Onward-trans h o)
Ends-from at m h (ends_fail s o) = ends_fail s (Onward-trans h o)
Ends-from at m h ends_fault = ends_fault

pub Ends-return :
    {S : Type 0} {T : Type 0} (at : S → Parse) (to : T → Parse) (p : Parse) (m : Outcome S)
    (f : S → Outcome T) (g : S → Outcome T)
    → Ends at p m
    → ((s : S) → Onward p (at s) → Ends to p (f s))
    → ((s : S) → Onward p (at s) → Ends to p (g s))
    → Ends to p (on_return m f g)
Ends-return at to p m f g (ends_ok s o) h k = h s o
Ends-return at to p m f g (ends_fail s o) h k = k s o
Ends-return at to p m f g ends_fault h k = ends_fault

pub Ends-if :
    {S : Type 0} {at : S → Parse} {p : Parse} {m o : Outcome S} (b : Bool)
    → (b ≡ true → Ends at p m)
    → (b ≡ false → Ends at p o)
    → Ends at p (if b then m else o)
Ends-if true h k = h refl
Ends-if false h k = k refl

-- With more fuel than the parse has left, the loop over labels ends.
pub parse_labels-Ends :
    (lib : Libc) (n : ℕ) (p : Parse) (q : List Label)
    → left p < n
    → Ends (λ l. l.parse) p (parse_labels lib n p q)
unfolding parse_labels
parse_labels-Ends lib zero p q h = absurd (omega (arith, h))
parse_labels-Ends lib (suc n) p q h =
    let p1 = parse_next lib p in
    let o = parse_next-Onward lib p in
    let l = parse_label lib p1 q in
    let ol =
      Onward-trans o (Onward-trans (parse_next-Onward lib p1) (parse_label-Onward lib p1 q)) in
    Ends-if (is_semicolon p1.last) (λ e. ends_ok _ o)
      λ e.
        Ends-if (not (is_ident p1.last && strcaseeq (string_of p1.last) (codes "jslabel")))
          (λ f. ends_fail _ (Onward-trans o (parse_errx-Onward p1 _)))
          λ f.
            let go : stops p1.last ≡ false = is_ident-stops p1.last (ground (arith, f)) in
            let less = left-parse_next-lt lib p1 go in
            let less' = (parse_label-Onward lib p1 q).less in
            Ends-if l.success
              (λ g.
                Ends-from (λ r. r.parse) _ ol
                  (parse_labels-Ends lib n l.parse l.labels
                    (omega (arith, h, o.less, less, less'))))
              (λ g. ends_fail l ol)
