-- ===== src/Parser/Bitfield/Laws.antt =====
-- parse_bitfield as a whole.
use mathlib.Core.Path.{subst}
use openradtool.Base.{
  ℕ, ◌+◌, ◌<◌, inl, inr, ◌≡◌, ◌≢◌, refl, sym, ap, ◌∙◌, false, not, [], ◌∷◌, ◌++◌, Bool-cases,
  true-ne-false, if_cases, arith,
}
use openradtool.Model.{Config}
use openradtool.Model.Store.{write, write-same, write-other}
use openradtool.Model.Outcome.{
  Outcome, ok, fail, out_of_fuel, on_return, ok-injective, fail-ne-ok, fail-ne-out_of_fuel,
  ok-ne-out_of_fuel, on_return-ends, Returns, Returns-ok, Returns-fail,
}
use openradtool.Parser.State.{Libc, Parse, stops, is_ident, string_of}
use openradtool.Parser.Lexer.{parse_next}
use openradtool.Parser.Lexer.Laws.{left, left-parse_next-le}
use openradtool.Parser.Lexer.Keeps.{Keeps, parse_next-Keeps}
use openradtool.Parser.Names.{parse_check_badidents, parse_check_dupetoplevel}
use openradtool.Parser.Labels.Laws.{Ends, ends_ok, ends_fail, ends_fault, Ends-ne-out_of_fuel}
use openradtool.Parser.Bitfield.{
  BitfState, new_bitf, parse_bitidx, finish_bitf, open_bitf, parse_bitfield,
}
use openradtool.Parser.Bitfield.Ends.{at_bitf, parse_bitidx-Ends}
use openradtool.Parser.Bitfield.Items.{Wellformed, Stopped}
use openradtool.Parser.Bitfield.Clauses.{Complete, parse_bitidx-Complete}

-- What parse_bitfield has done to the configuration at its success: the new bitfield is the last one,
-- and has items, with names that differ in more than their case, and with different indices from 0
-- to 63. All else is as it was, except messages and languages.
pub record Added (c d : Config) : Type 0 where
  pub items : (d.bitf c.next_bitf).bq ≢ []
  pub accepted : Wellformed (d.bitf c.next_bitf).bq
  pub others : (a : ℕ) → a ≢ c.next_bitf → d.bitf a ≡ c.bitf a
  pub rest : d ≡ record c {
    mq = d.mq;
    langs = d.langs;
    bq = c.bq ++ c.next_bitf ∷ [];
    bitf = d.bitf;
    next_bitf = c.next_bitf + 1;
  }

Added-Keeps : (p q : Parse) (d : Config) → Keeps p.cfg q → Added q.cfg d → Added p.cfg d
Added-Keeps p q d k h =
    let h' : Added (record p.cfg { mq = q.cfg.mq; langs = q.cfg.langs }) d =
      subst (λ c. Added c d) k.cfg h in
    record { items = h'.items; accepted = h'.accepted; others = h'.others; rest = h'.rest }

module _ (lib : Libc) where
  -- The configuration in which a bitfield is open.
  abbrev opened : Parse → Config
  opened p = record p.cfg {
    bq = p.cfg.bq ++ p.cfg.next_bitf ∷ [];
    bitf = write p.cfg.bitf p.cfg.next_bitf (new_bitf p);
    next_bitf = p.cfg.next_bitf + 1;
  }

  finish_bitf-last :
      (a : ℕ) (s : BitfState) (q : Parse) → finish_bitf lib a s ≡ ok q → q.last ≡ s.parse.last
  unfolding finish_bitf
  finish_bitf-last a s q h = ap (λ r. r.last) (sym (ok-injective h))

  finish_bitf-Wellformed :
      (p : Parse) (s : BitfState) (q : Parse)
      → Keeps (opened p) s.parse
      → Wellformed s.bitf.bq
      → s.bitf.bq ≢ []
      → finish_bitf lib p.cfg.next_bitf s ≡ ok q
      → Added p.cfg q.cfg
  unfolding finish_bitf
  finish_bitf-Wellformed p s q k d ne h =
      let a = p.cfg.next_bitf in
      let w = write s.parse.cfg.bitf a s.bitf in
      let r : Parse = record s.parse { cfg = record s.parse.cfg { bitf = w } } in
      let here = write-same s.parse.cfg.bitf a s.bitf in
      let swap : Config → Config = λ c. record c { bitf = w } in
      let bitfs : s.parse.cfg.bitf ≡ (opened p).bitf = ap (λ c. c.bitf) k.cfg in
      let added : Added p.cfg r.cfg = record {
        items = subst (λ b. b.bq ≢ []) (sym here) ne;
        accepted = subst (λ b. Wellformed b.bq) (sym here) d;
        others = λ b other.
            write-other s.parse.cfg.bitf a s.bitf b other
            ∙ ap (λ f. f b) bitfs
            ∙ write-other p.cfg.bitf a (new_bitf p) b other;
        rest = ap swap k.cfg;
      } in
      subst (λ t. Added p.cfg t.cfg) (ok-injective h) added

  -- From either result of parse_bitidx: a parse that goes on has a new bitfield.
  finish-Added :
      (p : Parse) (m : Outcome BitfState) (q : Parse)
      → Ends at_bitf (record p { cfg = opened p }) m
      → Returns Complete Stopped m
      → on_return m (finish_bitf lib p.cfg.next_bitf) (finish_bitf lib p.cfg.next_bitf) ≡ ok q
      → stops q.last ≡ false
      → Added p.cfg q.cfg
  finish-Added p m q (ends_ok s o) r h go = elim (Returns-ok (ok s) r refl) [
    | inl stop ↦
        let same = ap stops (finish_bitf-last p.cfg.next_bitf s q h) in
        absurd (true-ne-false (sym stop ∙ sym same ∙ go))
    | inr (d, ne) ↦ finish_bitf-Wellformed p s q o.keeps d ne h
  ]
  finish-Added p m q (ends_fail s o) r h go =
      let same = ap stops (finish_bitf-last p.cfg.next_bitf s q h) in
      let stop = Returns-fail (fail s) r refl in absurd (true-ne-false (sym stop ∙ sym same ∙ go))
  finish-Added p m q ends_fault r h go = cc

  open_bitf-Added :
      (n : ℕ) (p q : Parse)
      → left p < n
      → open_bitf lib n p ≡ ok q
      → stops q.last ≡ false
      → Added p.cfg q.cfg
  unfolding open_bitf left
  open_bitf-Added n p q h e go =
      let p' = record p { cfg = opened p } in
      finish-Added p (parse_bitidx lib n p' (new_bitf p)) q
        (parse_bitidx-Ends lib n p' (new_bitf p) h)
        (parse_bitidx-Complete lib n p' (new_bitf p) refl) e go

  -- With more fuel than there is input, if parse_bitfield accepts a bitfield, that is, it comes to
  -- its end and the parse has not stopped, then the bitfield is added with items whose names differ
  -- in more than their case and whose indices are different and from 0 to 63, and the rest of the
  -- configuration is kept but for messages and languages.
  pub parse_bitfield-Added :
      (n : ℕ) (p q : Parse)
      → left p < n
      → parse_bitfield lib n p ≡ ok q
      → stops q.last ≡ false
      → Added p.cfg q.cfg
  unfolding parse_bitfield
  parse_bitfield-Added n p q h e go =
      let p1 = parse_next lib p in
      let name = string_of p1.last in
      let le = left-parse_next-le lib p in
      let opening : open_bitf lib n p1 ≡ ok q = elim (Bool-cases (not (is_ident p1.last))) [
        | inl f ↦ absurd (fail-ne-ok (rw f at e))
        | inr f ↦ elim (Bool-cases (not (parse_check_dupetoplevel p1 name).success)) [
          | inl g ↦ absurd (fail-ne-ok (rw (f, g) at e))
          | inr g ↦ elim (Bool-cases (not (parse_check_badidents p1 name).success)) [
            | inl k ↦ absurd (fail-ne-ok (rw (f, g, k) at e))
            | inr k ↦ rw (f, g, k) at e
          ]
        ]
      ] in
      Added-Keeps p p1 q.cfg (parse_next-Keeps lib p)
        (open_bitf-Added n p1 q (omega (arith, h, le)) opening go)

  open_bitf-ends : (n : ℕ) (p : Parse) → left p < n → open_bitf lib n p ≢ out_of_fuel
  unfolding open_bitf finish_bitf left
  open_bitf-ends n p h e =
      let p' = record p { cfg = opened p } in
      let a = p.cfg.next_bitf in
      on_return-ends (parse_bitidx lib n p' (new_bitf p)) (finish_bitf lib a) (finish_bitf lib a)
        (Ends-ne-out_of_fuel at_bitf p' _ (parse_bitidx-Ends lib n p' (new_bitf p) h))
        (λ s. ok-ne-out_of_fuel) (λ s. ok-ne-out_of_fuel) e

  -- With more fuel than there is input, parse_bitfield does not run out of it: all its loops end.
  pub parse_bitfield-ends : (n : ℕ) (p : Parse) → left p < n → parse_bitfield lib n p ≢ out_of_fuel
  unfolding parse_bitfield
  parse_bitfield-ends n p h =
      let p1 = parse_next lib p in
      let name = string_of p1.last in
      let le = left-parse_next-le lib p in
      if_cases (◌≢ out_of_fuel) (not (is_ident p1.last)) (λ f. fail-ne-out_of_fuel)
        λ f.
          if_cases (◌≢ out_of_fuel) (not (parse_check_dupetoplevel p1 name).success)
            (λ g. fail-ne-out_of_fuel)
            λ g.
              if_cases (◌≢ out_of_fuel) (not (parse_check_badidents p1 name).success)
                (λ k. fail-ne-out_of_fuel) (λ k. open_bitf-ends n p1 (omega (arith, h, le)))
