-- ===== src/Parser/Enum/Laws.antt =====
-- parse_enum as a whole.
use mathlib.Core.Path.{subst}
use openradtool.Base.{
  ℕ, ◌+◌, ◌<◌, inl, inr, ◌≡◌, ◌≢◌, refl, sym, ap, ◌∙◌, false, not, [], ◌∷◌, ◌++◌, Bool-cases,
  true-ne-false, if_cases, Option-cases, arith,
}
use openradtool.Model.{Config}
use openradtool.Model.Store.{write, write-same, write-other}
use openradtool.Model.Outcome.{
  Outcome, ok, fail, fault, out_of_fuel, on_return, ok-injective, fail-ne-ok, fail-ne-out_of_fuel,
  on_return-ends, Returns, Returns-ok, Returns-fail,
}
use openradtool.Parser.State.{Libc, Parse, stops, is_ident, string_of}
use openradtool.Parser.Lexer.{parse_next}
use openradtool.Parser.Lexer.Laws.{left, left-parse_next-le}
use openradtool.Parser.Lexer.Keeps.{Keeps, parse_next-Keeps}
use openradtool.Parser.Names.{parse_check_badidents, parse_check_dupetoplevel}
use openradtool.Parser.Labels.Laws.{Ends, ends_ok, ends_fail, ends_fault, Ends-ne-out_of_fuel}
use openradtool.Parser.Assign.{assign_again}
use openradtool.Parser.Enum.{
  EnumState, new_enum, parse_enum_data, finish_enum, open_enum, parse_enum,
}
use openradtool.Parser.Enum.Whole.{
  Settled, Complete, parse_enum_data-Ends, parse_enum_data-Complete,
}
use openradtool.Parser.Enum.Ends.{at_enum}
use openradtool.Parser.Enum.Clauses.{Stopped}
use openradtool.Parser.Enum.Assignment.{Accepted}

-- What parse_enum has done to the configuration at its success: the new enumeration is the last one,
-- and has items, with names that differ in more than their case, and with different values, none of
-- them INT64_MAX or INT64_MIN. All else is as it was, except messages and languages.
pub record Added (c d : Config) : Type 0 where
  pub items : (d.enm c.next_enm).eq ≢ []
  pub accepted : Accepted (d.enm c.next_enm).eq
  pub others : (a : ℕ) → a ≢ c.next_enm → d.enm a ≡ c.enm a
  pub rest : d ≡ record c {
    mq = d.mq;
    langs = d.langs;
    eq = c.eq ++ c.next_enm ∷ [];
    enm = d.enm;
    next_enm = c.next_enm + 1;
  }

Added-Keeps : (p q : Parse) (d : Config) → Keeps p.cfg q → Added q.cfg d → Added p.cfg d
Added-Keeps p q d k h =
    let h' : Added (record p.cfg { mq = q.cfg.mq; langs = q.cfg.langs }) d =
      subst (λ c. Added c d) k.cfg h in
    record { items = h'.items; accepted = h'.accepted; others = h'.others; rest = h'.rest }

module _ (lib : Libc) where
  -- The configuration in which an enumeration is open.
  abbrev opened : Parse → Config
  opened p = record p.cfg {
    eq = p.cfg.eq ++ p.cfg.next_enm ∷ [];
    enm = write p.cfg.enm p.cfg.next_enm (new_enum p);
    next_enm = p.cfg.next_enm + 1;
  }

  finish_enum-last :
      (a : ℕ) (s : EnumState) (q : Parse) → finish_enum lib a s ≡ ok q → q.last ≡ s.parse.last
  unfolding finish_enum
  finish_enum-last a s q h = elim (Option-cases (assign_again s.enm.eq)) [
    | inl e ↦ let no : fault ≡ ok q = rw (e, finish_enum) at h in cc
    | inr (es, e) ↦
        let p = s.parse in
        let done = rw (e, finish_enum) at h in ap (λ r. r.last) (sym (ok-injective done))
  ]

  finish_enum-Settled :
      (p : Parse) (s : EnumState) (q : Parse)
      → Keeps (opened p) s.parse
      → Settled s
      → s.enm.eq ≢ []
      → finish_enum lib p.cfg.next_enm s ≡ ok q
      → Added p.cfg q.cfg
  unfolding finish_enum
  finish_enum-Settled p s q k d ne h =
      let a = p.cfg.next_enm in
      let w = write s.parse.cfg.enm a s.enm in
      let r : Parse = record s.parse { cfg = record s.parse.cfg { enm = w } } in
      let made : ok r ≡ ok q = rw (d.again, finish_enum) at h in
      let here = write-same s.parse.cfg.enm a s.enm in
      let swap : Config → Config = λ c. record c { enm = w } in
      let enms : s.parse.cfg.enm ≡ (opened p).enm = ap (λ c. c.enm) k.cfg in
      let added : Added p.cfg r.cfg = record {
        items = subst (λ e. e.eq ≢ []) (sym here) ne;
        accepted = subst (λ e. Accepted e.eq) (sym here) d.accepted;
        others = λ b other.
            write-other s.parse.cfg.enm a s.enm b other
            ∙ ap (λ f. f b) enms
            ∙ write-other p.cfg.enm a (new_enum p) b other;
        rest = ap swap k.cfg;
      } in
      subst (λ t. Added p.cfg t.cfg) (ok-injective made) added

  -- From either result of parse_enum_data: a parse that goes on has a new enumeration.
  finish-Added :
      (p : Parse) (m : Outcome EnumState) (q : Parse)
      → Ends at_enum (record p { cfg = opened p }) m
      → Returns Complete Stopped m
      → on_return m (finish_enum lib p.cfg.next_enm) (finish_enum lib p.cfg.next_enm) ≡ ok q
      → stops q.last ≡ false
      → Added p.cfg q.cfg
  finish-Added p m q (ends_ok s o) r h go = elim (Returns-ok (ok s) r refl) [
    | inl stop ↦
        let same = ap stops (finish_enum-last p.cfg.next_enm s q h) in
        absurd (true-ne-false (sym stop ∙ sym same ∙ go))
    | inr (d, ne) ↦ finish_enum-Settled p s q o.keeps d ne h
  ]
  finish-Added p m q (ends_fail s o) r h go =
      let same = ap stops (finish_enum-last p.cfg.next_enm s q h) in
      let stop = Returns-fail (fail s) r refl in absurd (true-ne-false (sym stop ∙ sym same ∙ go))
  finish-Added p m q ends_fault r h go = cc

  open_enum-Added :
      (n : ℕ) (p q : Parse)
      → left p < n
      → open_enum lib n p ≡ ok q
      → stops q.last ≡ false
      → Added p.cfg q.cfg
  unfolding open_enum left
  open_enum-Added n p q h e go =
      let p' = record p { cfg = opened p } in
      finish-Added p (parse_enum_data lib n p' (new_enum p)) q
        (parse_enum_data-Ends lib n p' (new_enum p) h)
        (parse_enum_data-Complete lib n p' (new_enum p) refl) e go

  -- With more fuel than there is input, if parse_enum accepts an enumeration, that is, it comes to
  -- its end and the parse has not stopped, then the enumeration is added with items whose names
  -- differ in more than their case and whose values, given or assigned, are different and neither
  -- INT64_MAX nor INT64_MIN, and the rest of the configuration is kept but for messages and languages.
  pub parse_enum-Added :
      (n : ℕ) (p q : Parse)
      → left p < n
      → parse_enum lib n p ≡ ok q
      → stops q.last ≡ false
      → Added p.cfg q.cfg
  unfolding parse_enum
  parse_enum-Added n p q h e go =
      let p1 = parse_next lib p in
      let name = string_of p1.last in
      let le = left-parse_next-le lib p in
      let opening : open_enum lib n p1 ≡ ok q = elim (Bool-cases (not (is_ident p1.last))) [
        | inl f ↦ absurd (fail-ne-ok (rw f at e))
        | inr f ↦ elim (Bool-cases (not (parse_check_dupetoplevel p1 name).success)) [
          | inl g ↦ absurd (fail-ne-ok (rw (f, g) at e))
          | inr g ↦ elim (Bool-cases (not (parse_check_badidents p1 name).success)) [
            | inl k ↦ absurd (fail-ne-ok (rw (f, g, k) at e))
            | inr k ↦ rw (f, g, k) at e
          ]
        ]
      ] in
      Added-Keeps p p1 q.cfg (parse_next-Keeps lib p)
        (open_enum-Added n p1 q (omega (arith, h, le)) opening go)

  finish_enum-ends : (a : ℕ) (s : EnumState) → finish_enum lib a s ≢ out_of_fuel
  unfolding finish_enum
  finish_enum-ends a s h = elim (Option-cases (assign_again s.enm.eq)) [
    | inl e ↦ let no : fault ≡ out_of_fuel = rw (e, finish_enum) at h in cc
    | inr (es, e) ↦ let no = rw (e, finish_enum) at h in cc
  ]

  open_enum-ends : (n : ℕ) (p : Parse) → left p < n → open_enum lib n p ≢ out_of_fuel
  unfolding open_enum left
  open_enum-ends n p h e =
      let p' = record p { cfg = opened p } in
      let a = p.cfg.next_enm in
      on_return-ends (parse_enum_data lib n p' (new_enum p)) (finish_enum lib a) (finish_enum lib a)
        (Ends-ne-out_of_fuel at_enum p' _ (parse_enum_data-Ends lib n p' (new_enum p) h))
        (finish_enum-ends a) (finish_enum-ends a) e

  -- With more fuel than there is input, parse_enum does not run out of it: all its loops end.
  pub parse_enum-ends : (n : ℕ) (p : Parse) → left p < n → parse_enum lib n p ≢ out_of_fuel
  unfolding parse_enum
  parse_enum-ends n p h =
      let p1 = parse_next lib p in
      let name = string_of p1.last in
      let le = left-parse_next-le lib p in
      if_cases (◌≢ out_of_fuel) (not (is_ident p1.last)) (λ f. fail-ne-out_of_fuel)
        λ f.
          if_cases (◌≢ out_of_fuel) (not (parse_check_dupetoplevel p1 name).success)
            (λ g. fail-ne-out_of_fuel)
            λ g.
              if_cases (◌≢ out_of_fuel) (not (parse_check_badidents p1 name).success)
                (λ k. fail-ne-out_of_fuel) (λ k. open_enum-ends n p1 (omega (arith, h, le)))
