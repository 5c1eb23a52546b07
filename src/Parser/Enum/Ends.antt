-- ===== src/Parser/Enum/Ends.antt =====
-- The fuel of the loops of parser_enum.c, and what they leave of the configuration.
use openradtool.Base.{
  ℕ, zero, suc, inl, inr, ◌<◌, not, ◌&&◌, List, Bytes, codes, strcaseeq, Bool-cases, Option-cases,
  arith,
}
use openradtool.Model.{Eitem}
use openradtool.Parser.State.{
  Libc, Parse, stops, is_rbrace, is_ident, is_semicolon, string_of, integer_of,
}
use openradtool.Parser.Lexer.{parse_next}
use openradtool.Parser.Lexer.Laws.{left, left-parse_next-lt}
use openradtool.Parser.Names.{is_reserved, badidents, parse_check_badidents}
use openradtool.Parser.Labels.{parse_comment, parse_label}
use openradtool.Parser.Labels.Laws.{
  Onward, Onward-refl, Onward-trans, parse_errx-Onward, parse_next-Onward, parse_comment-Onward,
  parse_label-Onward, Closer, Closer-next, Closer-errx, Closer-Onward, Ends, ends_ok, ends_fail,
  Ends-from, Ends-return, Ends-if, parse_labels-Ends,
}
use openradtool.Parser.Item.{
  ItemState, is_extreme, has_value, new_item, item_attribute, item_attributes, item_end, item_value,
  parse_enum_item,
}
use openradtool.Parser.Enum.{
  EnumState, has_item, parse_enum_label, push_item, enum_item, enum_clause, enum_clauses,
}

abbrev pub at_item : ItemState → Parse
at_item s = s.parse

abbrev pub at_enum : EnumState → Parse
at_enum s = s.parse

pub parse_check_badidents-Onward :
    (p : Parse) (s : Bytes) → Onward p (parse_check_badidents p s).parse
unfolding parse_check_badidents
parse_check_badidents-Onward p s = elim (Bool-cases (is_reserved badidents s)) [
  | inl e ↦ rw e (parse_errx-Onward p _)
  | inr e ↦ rw e (Onward-refl p)
]

module _ (lib : Libc) where
  item_attribute-Closer : (s : ItemState) → Closer s.parse (item_attribute lib s).state.parse
  unfolding item_attribute
  item_attribute-Closer s =
      let c = parse_comment lib s.parse s.item.doc in
      let l = parse_label lib s.parse s.item.labels in
      let hc = Closer-next lib s.parse (parse_comment-Onward lib s.parse s.item.doc) in
      let hl = Closer-next lib s.parse (parse_label-Onward lib s.parse s.item.labels) in
      elim (Bool-cases (strcaseeq (string_of s.parse.last) (codes "comment"))) [
        | inl e ↦ elim (Bool-cases c.success) [
          | inl f ↦ rw (e, f) (Closer-Onward hc (parse_next-Onward lib c.parse))
          | inr f ↦ rw (e, f) hc
        ]
        | inr e ↦ elim (Bool-cases (strcaseeq (string_of s.parse.last) (codes "jslabel"))) [
          | inl f ↦ rw (e, f) (Closer-Onward hl (parse_next-Onward lib l.parse))
          | inr f ↦ rw (e, f) (Closer-errx s.parse _)
        ]
      ]

  item_attributes-Ends :
      (n : ℕ) (s : ItemState) → left s.parse < n → Ends at_item s.parse (item_attributes lib n s)
  unfolding item_attributes
  item_attributes-Ends zero s h = absurd (omega (arith, h))
  item_attributes-Ends (suc n) s h =
      let r = item_attribute lib s in
      let c = item_attribute-Closer s in
      Ends-if (not (stops s.parse.last) && is_ident s.parse.last)
        (λ e.
          let less = c.less (ground (arith, e)) in
          Ends-if r.go
            (λ f.
              Ends-from at_item _ c.onward
                (item_attributes-Ends n r.state (omega (arith, h, less))))
            (λ f. ends_fail r.state c.onward))
        (λ e. ends_ok s (Onward-refl s.parse))

  item_end-Onward : (s : ItemState) → Onward s.parse (item_end lib s).parse
  unfolding item_end
  item_end-Onward s =
      elim (Bool-cases (not (stops s.parse.last) && not (is_semicolon s.parse.last))) [
        | inl e ↦ rw e (parse_errx-Onward s.parse _)
        | inr e ↦ rw e (Onward-refl s.parse)
      ]

  item_value-Ends :
      (others : List Eitem) (s : ItemState) → Ends at_item s.parse (item_value lib others s)
  unfolding item_value
  item_value-Ends others s =
      let p = parse_next lib s.parse in
      let o = parse_next-Onward lib s.parse in
      elim (Option-cases (integer_of p.last)) [
        | inl e ↦ rw (e, item_value) (ends_ok _ o)
        | inr (v, e) ↦
            rw (e, item_value)
              (Ends-if (is_extreme v) (λ f. ends_fail _ (Onward-trans o (parse_errx-Onward p _)))
                λ f.
                  Ends-if (has_value v others)
                    (λ g. ends_fail _ (Onward-trans o (parse_errx-Onward p _)))
                    (λ g. ends_ok _ (Onward-trans o (parse_next-Onward lib p))))
      ]

  parse_enum_item-Ends :
      (n : ℕ) (others : List Eitem) (s : ItemState)
      → left s.parse < n
      → Ends at_item s.parse (parse_enum_item lib n others s)
  unfolding parse_enum_item
  parse_enum_item-Ends n others s h =
      Ends-return at_item at_item s.parse _ _ _ (item_value-Ends others s)
        (λ s1 o1.
          Ends-return at_item at_item s.parse _ _ _
            (Ends-from at_item _ o1 (item_attributes-Ends n s1 (omega (arith, h, o1.less))))
            (λ s2 o2. ends_ok _ (Onward-trans o2 (item_end-Onward s2))) (λ s2 o2. ends_fail s2 o2))
        (λ s1 o1. ends_fail s1 o1)

  enum_item-Ends :
      (n : ℕ) (s : EnumState) → left s.parse < n → Ends at_enum s.parse (enum_item lib n s)
  unfolding enum_item push_item
  enum_item-Ends n s h =
      let p = parse_next lib s.parse in
      let o = parse_next-Onward lib s.parse in
      let name = string_of p.last in
      let i : ItemState = record { parse = p; item = new_item p } in
      Ends-if (not (is_ident p.last)) (λ e. ends_fail _ (Onward-trans o (parse_errx-Onward p _)))
        λ e.
          Ends-if (not (parse_check_badidents p name).success)
            (λ f. ends_fail _ (Onward-trans o (parse_check_badidents-Onward p name)))
            λ f.
              Ends-if (strcaseeq name (codes "format"))
                (λ g. ends_fail _ (Onward-trans o (parse_errx-Onward p _)))
                λ g.
                  Ends-if (has_item s.enm.eq name)
                    (λ k. ends_fail _ (Onward-trans o (parse_errx-Onward p _)))
                    λ k.
                      Ends-return at_item at_enum s.parse _ _ _
                        (Ends-from at_item _ o
                          (parse_enum_item-Ends n s.enm.eq i (omega (arith, h, o.less))))
                        (λ j oj. ends_ok _ oj) (λ j oj. ends_ok _ oj)

  enum_clause-Ends :
      (n : ℕ) (s : EnumState) → left s.parse < n → Ends at_enum s.parse (enum_clause lib n s)
  unfolding enum_clause parse_enum_label
  enum_clause-Ends n s h =
      let next = string_of s.parse.last in
      let c = parse_comment lib s.parse s.enm.doc in
      let oc = Closer-next lib s.parse (parse_comment-Onward lib s.parse s.enm.doc) in
      let p = parse_next lib c.parse in
      let op = Onward-trans oc.onward (parse_next-Onward lib c.parse) in
      Ends-if (not (is_ident s.parse.last)) (λ e. ends_fail _ (parse_errx-Onward s.parse _))
        λ e.
          Ends-if (strcaseeq next (codes "comment"))
            (λ f.
              Ends-if (not c.success) (λ g. ends_fail _ oc.onward)
                λ g.
                  Ends-if (not (is_semicolon p.last))
                    (λ k. ends_fail _ (Onward-trans op (parse_errx-Onward p _)))
                    (λ k. ends_ok _ op))
            λ f.
              Ends-if (strcaseeq next (codes "isnull"))
                (λ g.
                  Ends-return (λ l. l.parse) at_enum s.parse _ _ _
                    (parse_labels-Ends lib n s.parse s.enm.labels_null h) (λ l ol. ends_ok _ ol)
                    (λ l ol. ends_fail _ ol))
                λ g.
                  Ends-if (not (strcaseeq next (codes "item")))
                    (λ k. ends_fail _ (parse_errx-Onward s.parse _)) (λ k. enum_item-Ends n s h)

  pub enum_clauses-Ends :
      (n : ℕ) (s : EnumState) → left s.parse < n → Ends at_enum s.parse (enum_clauses lib n s)
  unfolding enum_clauses
  enum_clauses-Ends zero s h = absurd (omega (arith, h))
  enum_clauses-Ends (suc n) s h =
      let s1 = record s { parse = parse_next lib s.parse } in
      let o = parse_next-Onward lib s.parse in
      Ends-if (stops s.parse.last) (λ e. ends_ok _ (Onward-refl s.parse))
        λ e.
          let less = left-parse_next-lt lib s.parse e in
          Ends-if (is_rbrace s1.parse.last) (λ f. ends_ok _ o)
            λ f. Ends-from at_enum _ o (
              Ends-return at_enum at_enum s1.parse _ _ _
                (enum_clause-Ends n s1 (omega (arith, h, less)))
                (λ s2 o2.
                  Ends-from at_enum _ o2 (enum_clauses-Ends n s2 (omega (arith, h, less, o2.less))))
                (λ s2 o2. ends_fail s2 o2))
