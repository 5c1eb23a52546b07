-- ===== src/Parser/Bitfield/Ends.antt =====
-- The fuel of the loops of parser_bitfield.c, and what they leave of the configuration.
use openradtool.Base.{
  ℕ, zero, suc, inl, inr, refl, ◌<◌, not, ◌&&◌, List, codes, strcaseeq, Bool-cases, if_cases,
  Option-cases, arith,
}
use openradtool.Model.{Bitidx, Bitf}
use openradtool.Parser.State.{
  Libc, Parse, stops, is_lbrace, is_rbrace, is_ident, is_semicolon, string_of, integer_of,
  parse_warnx,
}
use openradtool.Parser.Lexer.{parse_next}
use openradtool.Parser.Lexer.Laws.{left, left-parse_next-lt}
use openradtool.Parser.Names.{parse_check_badidents}
use openradtool.Parser.Labels.{parse_comment}
use openradtool.Parser.Labels.Laws.{
  Onward, Onward-refl, Onward-trans, parse_errx-Onward, parse_next-Onward, parse_comment-Onward,
  parse_label-Onward, Closer-next, Ends, ends_ok, ends_fail, Ends-from, Ends-return, Ends-if,
  parse_labels-Ends,
}
use openradtool.Parser.Enum.Ends.{parse_check_badidents-Onward}
use openradtool.Parser.Bitfield.{
  BitState, BitfState, out_of_range, has_bit, has_bit_name, new_bit, no_bits, bit_attribute,
  bit_attributes, bit_end, bit_value, parse_bitidx_item, parse_bitidx_label, push_bit, bitf_item,
  bitf_unset, bitf_null, bitf_clause, bitf_clauses, close_bitf, bitf_end, parse_bitidx,
}

abbrev pub at_bit : BitState → Parse
at_bit s = s.parse

abbrev pub at_bitf : BitfState → Parse
at_bitf s = s.parse

parse_warnx-Onward :
    (p : Parse) → Onward p (parse_warnx p "\"unset\" is deprecated: use \"isunset\"")
unfolding parse_warnx left
parse_warnx-Onward p = record { less = omega arith; keeps = record { cfg = refl } }

close_bitf-Onward : (s : BitfState) (p : Parse) → Onward p (close_bitf s p).parse
unfolding close_bitf
close_bitf-Onward s p = elim (Bool-cases (not (is_semicolon p.last))) [
  | inl f ↦ rw f (parse_errx-Onward p _)
  | inr f ↦ elim (Bool-cases (no_bits s.bitf.bq)) [
    | inl g ↦ rw (f, g) (parse_errx-Onward p _)
    | inr g ↦ rw (f, g) (Onward-refl p)
  ]
]

module _ (lib : Libc) where
  bit_attribute-Onward : (s : BitState) → Onward s.parse (bit_attribute lib s).parse
  unfolding bit_attribute
  bit_attribute-Onward s =
      let hc = Closer-next lib s.parse (parse_comment-Onward lib s.parse s.item.doc) in
      let hl = Closer-next lib s.parse (parse_label-Onward lib s.parse s.item.labels) in
      elim (Bool-cases (strcaseeq (string_of s.parse.last) (codes "comment"))) [
        | inl e ↦ rw e hc.onward
        | inr e ↦ elim (Bool-cases (strcaseeq (string_of s.parse.last) (codes "jslabel"))) [
          | inl f ↦ rw (e, f) hl.onward
          | inr f ↦ rw (e, f) (parse_errx-Onward s.parse _)
        ]
      ]

  bit_attributes-Ends :
      (n : ℕ) (s : BitState) → left s.parse < n → Ends at_bit s.parse (bit_attributes lib n s)
  unfolding bit_attributes
  bit_attributes-Ends zero s h = absurd (omega (arith, h))
  bit_attributes-Ends (suc n) s h =
      let s1 = record s { parse = parse_next lib s.parse } in
      let o = parse_next-Onward lib s.parse in
      let a = bit_attribute-Onward s1 in
      Ends-if (stops s.parse.last) (λ e. ends_ok s (Onward-refl s.parse))
        λ e.
          let less = left-parse_next-lt lib s.parse e in
          Ends-if (is_ident s1.parse.last)
            (λ f.
              Ends-from at_bit _ (Onward-trans o a)
                (bit_attributes-Ends n (bit_attribute lib s1) (omega (arith, h, less, a.less))))
            (λ f. ends_ok s1 o)

  bit_end-Onward : (s : BitState) → Onward s.parse (bit_end lib s).parse
  unfolding bit_end
  bit_end-Onward s =
      elim (Bool-cases (not (stops s.parse.last) && not (is_semicolon s.parse.last))) [
        | inl e ↦ rw e (parse_errx-Onward s.parse _)
        | inr e ↦ rw e (Onward-refl s.parse)
      ]

  bit_value-Ends :
      (others : List Bitidx) (s : BitState) → Ends at_bit s.parse (bit_value lib others s)
  unfolding bit_value
  bit_value-Ends others s =
      let p = parse_next lib s.parse in
      let o = parse_next-Onward lib s.parse in
      elim (Option-cases (integer_of p.last)) [
        | inl e ↦ rw (e, bit_value) (ends_fail _ (Onward-trans o (parse_errx-Onward p _)))
        | inr (v, e) ↦
            rw (e, bit_value)
              (Ends-if (out_of_range v) (λ f. ends_fail _ (Onward-trans o (parse_errx-Onward p _)))
                λ f.
                  Ends-if (has_bit v others)
                    (λ g. ends_fail _ (Onward-trans o (parse_errx-Onward p _))) (λ g. ends_ok _ o))
      ]

  parse_bitidx_item-Ends :
      (n : ℕ) (others : List Bitidx) (s : BitState)
      → left s.parse < n
      → Ends at_bit s.parse (parse_bitidx_item lib n others s)
  unfolding parse_bitidx_item
  parse_bitidx_item-Ends n others s h =
      Ends-return at_bit at_bit s.parse _ _ _ (bit_value-Ends others s)
        (λ s1 o1.
          Ends-return at_bit at_bit s.parse _ _ _
            (Ends-from at_bit _ o1 (bit_attributes-Ends n s1 (omega (arith, h, o1.less))))
            (λ s2 o2. ends_ok _ (Onward-trans o2 (bit_end-Onward s2))) (λ s2 o2. ends_fail s2 o2))
        (λ s1 o1. ends_fail s1 o1)

  bitf_item-Ends :
      (n : ℕ) (s : BitfState) → left s.parse < n → Ends at_bitf s.parse (bitf_item lib n s)
  unfolding bitf_item push_bit
  bitf_item-Ends n s h =
      let p = parse_next lib s.parse in
      let o = parse_next-Onward lib s.parse in
      let name = string_of p.last in
      let i : BitState = record { parse = p; item = new_bit p } in
      Ends-if (not (is_ident p.last)) (λ e. ends_fail _ (Onward-trans o (parse_errx-Onward p _)))
        λ e.
          Ends-if (not (parse_check_badidents p name).success)
            (λ f. ends_fail _ (Onward-trans o (parse_check_badidents-Onward p name)))
            λ f.
              Ends-if (has_bit_name s.bitf.bq name)
                (λ k. ends_fail _ (Onward-trans o (parse_errx-Onward p _)))
                λ k.
                  Ends-return at_bit at_bitf s.parse _ _ _
                    (Ends-from at_bit _ o
                      (parse_bitidx_item-Ends n s.bitf.bq i (omega (arith, h, o.less))))
                    (λ j oj. ends_ok _ oj) (λ j oj. ends_ok _ oj)

  bitf_unset-Ends :
      (n : ℕ) (s : BitfState) → left s.parse < n → Ends at_bitf s.parse (bitf_unset lib n s)
  unfolding bitf_unset parse_bitidx_label
  bitf_unset-Ends n s h =
      Ends-return (λ l. l.parse) at_bitf s.parse _ _ _
        (parse_labels-Ends lib n s.parse s.bitf.labels_unset h) (λ l ol. ends_ok _ ol)
        (λ l ol. ends_fail _ ol)

  bitf_null-Ends :
      (n : ℕ) (s : BitfState) → left s.parse < n → Ends at_bitf s.parse (bitf_null lib n s)
  unfolding bitf_null parse_bitidx_label
  bitf_null-Ends n s h =
      Ends-return (λ l. l.parse) at_bitf s.parse _ _ _
        (parse_labels-Ends lib n s.parse s.bitf.labels_null h) (λ l ol. ends_ok _ ol)
        (λ l ol. ends_fail _ ol)

  bitf_clause-Ends :
      (n : ℕ) (s : BitfState) → left s.parse < n → Ends at_bitf s.parse (bitf_clause lib n s)
  unfolding bitf_clause
  bitf_clause-Ends n s h =
      let next = string_of s.parse.last in
      let c = parse_comment lib s.parse s.bitf.doc in
      let oc = Closer-next lib s.parse (parse_comment-Onward lib s.parse s.bitf.doc) in
      let p = parse_next lib c.parse in
      let op = Onward-trans oc.onward (parse_next-Onward lib c.parse) in
      let old = parse_warnx s.parse "\"unset\" is deprecated: use \"isunset\"" in
      let warned = parse_warnx-Onward s.parse in
      Ends-if (not (is_ident s.parse.last)) (λ e. ends_fail _ (parse_errx-Onward s.parse _))
        λ e.
          Ends-if (strcaseeq next (codes "comment"))
            (λ f.
              Ends-if (not c.success) (λ g. ends_fail _ oc.onward)
                λ g.
                  Ends-if (not (is_semicolon p.last))
                    (λ k. ends_fail _ (Onward-trans op (parse_errx-Onward p _)))
                    (λ k. ends_ok _ op))
            λ f.
              Ends-if (strcaseeq next (codes "isunset")) (λ g. bitf_unset-Ends n s h)
                λ g.
                  Ends-if (strcaseeq next (codes "unset"))
                    (λ g. Ends-from at_bitf _ warned (
                      bitf_unset-Ends n (record s { parse = old }) (omega (arith, h, warned.less))))
                    λ g.
                      Ends-if (strcaseeq next (codes "isnull")) (λ g. bitf_null-Ends n s h)
                        λ g.
                          Ends-if (not (strcaseeq next (codes "item")))
                            (λ k. ends_fail _ (parse_errx-Onward s.parse _))
                            (λ k. bitf_item-Ends n s h)

  bitf_clauses-Ends :
      (n : ℕ) (s : BitfState) → left s.parse < n → Ends at_bitf s.parse (bitf_clauses lib n s)
  unfolding bitf_clauses
  bitf_clauses-Ends zero s h = absurd (omega (arith, h))
  bitf_clauses-Ends (suc n) s h =
      let s1 = record s { parse = parse_next lib s.parse } in
      let o = parse_next-Onward lib s.parse in
      Ends-if (stops s.parse.last) (λ e. ends_ok _ (Onward-refl s.parse))
        λ e.
          let less = left-parse_next-lt lib s.parse e in
          Ends-if (is_rbrace s1.parse.last) (λ f. ends_ok _ o)
            λ f. Ends-from at_bitf _ o (
              Ends-return at_bitf at_bitf s1.parse _ _ _
                (bitf_clause-Ends n s1 (omega (arith, h, less)))
                (λ s2 o2.
                  Ends-from at_bitf _ o2 (bitf_clauses-Ends n s2 (omega (arith, h, less, o2.less))))
                (λ s2 o2. ends_fail s2 o2))

  bitf_end-Onward : (s : BitfState) → Onward s.parse (bitf_end lib s).parse
  unfolding bitf_end
  bitf_end-Onward s =
      let p = parse_next lib s.parse in
      if_cases (λ (t : BitfState). Onward s.parse t.parse) (stops s.parse.last)
        (λ e. Onward-refl s.parse)
        (λ e. Onward-trans (parse_next-Onward lib s.parse) (close_bitf-Onward s p))

  pub parse_bitidx-Ends :
      (n : ℕ) (p : Parse) (b : Bitf) → left p < n → Ends at_bitf p (parse_bitidx lib n p b)
  unfolding parse_bitidx
  parse_bitidx-Ends n p b h =
      let p1 = parse_next lib p in
      let o = parse_next-Onward lib p in
      let s : BitfState = record { parse = p1; bitf = b } in
      Ends-if (not (is_lbrace p1.last)) (λ f. ends_fail _ (Onward-trans o (parse_errx-Onward p1 _)))
        λ f. Ends-from at_bitf _ o (
          Ends-return at_bitf at_bitf p1 _ _ _ (bitf_clauses-Ends n s (omega (arith, h, o.less)))
            (λ s1 o1. ends_ok _ (Onward-trans o1 (bitf_end-Onward s1))) (λ s1 o1. ends_fail s1 o1))
