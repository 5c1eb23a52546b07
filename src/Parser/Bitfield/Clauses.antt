-- ===== src/Parser/Bitfield/Clauses.antt =====
-- The loop of parse_bitidx, and the items that it has read.
use openradtool.Base.{
  ℕ, zero, suc, inl, inr, ◌⊎◌, ◌≡◌, ◌≢◌, refl, true, false, not, List, [], ◌∷◌, Bytes, codes,
  strcaseeq, if_cases, arith,
}
use openradtool.Model.{Bitidx, Bitf}
use openradtool.Model.Outcome.{
  Returns, returns_ok, returns_fail, returns_none, Returns-if, Returns-return,
}
use openradtool.Parser.State.{
  Libc, Parse, stops, is_lbrace, is_rbrace, is_ident, is_semicolon, string_of, parse_warnx,
}
use openradtool.Parser.Lexer.{parse_next}
use openradtool.Parser.Names.{parse_check_badidents}
use openradtool.Parser.Labels.{parse_comment}
use openradtool.Parser.Labels.Laws.{is_ident-stops}
use openradtool.Parser.Labels.Fails.{stops-parse_errx, parse_comment-fails, parse_labels-Returns}
use openradtool.Parser.Enum.Clauses.{parse_check_badidents-fails}
use openradtool.Parser.Bitfield.{
  BitState, BitfState, has_bit_name, new_bit, no_bits, parse_bitidx_label, push_bit, bitf_item,
  bitf_unset, bitf_null, bitf_clause, bitf_clauses, close_bitf, bitf_end, parse_bitidx,
}
use openradtool.Parser.Bitfield.Items.{
  Wellformed, Wellformed-snoc, Fits, Stopped, Reading, go_on, parse_bitidx_item-Fits,
}

push_bit-Wellformed :
    (s : BitfState) (name : Bytes) (i : BitState)
    → Wellformed s.bitf.bq
    → Fits s.bitf.bq name i.item
    → has_bit_name s.bitf.bq name ≡ false
    → Wellformed (push_bit s i).bitf.bq
unfolding push_bit
push_bit-Wellformed s name i d f h = Wellformed-snoc s.bitf.bq i.item name d f h

push_bit-Stopped :
    (s : BitfState) (i : BitState) → stops i.parse.last ≡ true → Stopped (push_bit s i)
unfolding push_bit
push_bit-Stopped s i h = h

-- The state behind the data: stopped, or with items.
abbrev pub Complete : BitfState → Type 0
Complete s = Stopped s ⊎ (Wellformed s.bitf.bq × (s.bitf.bq ≢ []))

no_bits-ne : (bq : List Bitidx) → no_bits bq ≡ false → bq ≢ []
no_bits-ne [] h e = cc
no_bits-ne (x ∷ bq) h e = cc

close_bitf-Complete : (s : BitfState) (p : Parse) → Wellformed s.bitf.bq → Complete (close_bitf s p)
unfolding close_bitf
close_bitf-Complete s p d =
    if_cases Complete (not (is_semicolon p.last))
      (λ f. inl (stops-parse_errx p "expected semicolon"))
      λ f.
        if_cases Complete (no_bits s.bitf.bq) (λ g. inl (stops-parse_errx p "no items in bitfield"))
          (λ g. inr (d, no_bits-ne s.bitf.bq g))

module _ (lib : Libc) where
  bitf_item-Reading :
      (n : ℕ) (s : BitfState) → Wellformed s.bitf.bq → Returns Reading Stopped (bitf_item lib n s)
  unfolding bitf_item
  bitf_item-Reading n s d =
      let p = parse_next lib s.parse in
      let name = string_of p.last in
      let i : BitState = record { parse = p; item = new_bit p } in
      Returns-if (not (is_ident p.last))
        (λ e. returns_fail _ (stops-parse_errx p "expected item name"))
        λ e.
          Returns-if (not (parse_check_badidents p name).success)
            (λ f. returns_fail _ (parse_check_badidents-fails p name (ground (arith, f))))
            λ f.
              Returns-if (has_bit_name s.bitf.bq name)
                (λ k. returns_fail _ (stops-parse_errx p "duplicate item name"))
                λ k.
                  Returns-return _ _ _ (parse_bitidx_item-Fits lib n s.bitf.bq name i refl)
                    (λ j fits. returns_ok _ (inr (push_bit-Wellformed s name j d fits k)))
                    (λ j stop. returns_ok _ (inl (push_bit-Stopped s j stop)))

  bitf_unset-Reading :
      (n : ℕ) (s : BitfState) → Wellformed s.bitf.bq → Returns Reading Stopped (bitf_unset lib n s)
  unfolding bitf_unset parse_bitidx_label
  bitf_unset-Reading n s d =
      Returns-return _ _ _ (parse_labels-Returns lib n s.parse s.bitf.labels_unset)
        (λ l done. returns_ok _ (inr d)) (λ l stop. returns_fail _ stop)

  bitf_null-Reading :
      (n : ℕ) (s : BitfState) → Wellformed s.bitf.bq → Returns Reading Stopped (bitf_null lib n s)
  unfolding bitf_null parse_bitidx_label
  bitf_null-Reading n s d =
      Returns-return _ _ _ (parse_labels-Returns lib n s.parse s.bitf.labels_null)
        (λ l done. returns_ok _ (inr d)) (λ l stop. returns_fail _ stop)

  bitf_clause-Reading :
      (n : ℕ) (s : BitfState) → Reading s → Returns Reading Stopped (bitf_clause lib n s)
  unfolding bitf_clause
  bitf_clause-Reading n s r =
      let next = string_of s.parse.last in
      let c = parse_comment lib s.parse s.bitf.doc in
      let p = parse_next lib c.parse in
      let old = parse_warnx s.parse "\"unset\" is deprecated: use \"isunset\"" in
      Returns-if (not (is_ident s.parse.last))
        (λ e. returns_fail _ (stops-parse_errx s.parse "expected bitfield data type"))
        λ e.
          let d = go_on s r (is_ident-stops s.parse.last (ground (arith, e))) in
          Returns-if (strcaseeq next (codes "comment"))
            (λ f.
              Returns-if (not c.success)
                (λ g.
                  returns_fail _ (parse_comment-fails lib s.parse s.bitf.doc (ground (arith, g))))
                λ g.
                  Returns-if (not (is_semicolon p.last))
                    (λ k. returns_fail _ (stops-parse_errx p "expected end of comment"))
                    (λ k. returns_ok _ (inr d)))
            λ f.
              Returns-if (strcaseeq next (codes "isunset")) (λ g. bitf_unset-Reading n s d)
                λ g.
                  Returns-if (strcaseeq next (codes "unset"))
                    (λ k. bitf_unset-Reading n (record s { parse = old }) d)
                    λ k.
                      Returns-if (strcaseeq next (codes "isnull")) (λ l. bitf_null-Reading n s d)
                        λ l.
                          Returns-if (not (strcaseeq next (codes "item")))
                            (λ m.
                              returns_fail _
                                (stops-parse_errx s.parse "unknown bitfield data type"))
                            (λ m. bitf_item-Reading n s d)

  bitf_clauses-Reading :
      (n : ℕ) (s : BitfState) → Reading s → Returns Reading Stopped (bitf_clauses lib n s)
  unfolding bitf_clauses
  bitf_clauses-Reading zero s r = returns_none
  bitf_clauses-Reading (suc n) s r =
      let s1 = record s { parse = parse_next lib s.parse } in
      Returns-if (stops s.parse.last) (λ e. returns_ok s r)
        λ e.
          let r1 : Reading s1 = inr (go_on s r e) in
          Returns-if (is_rbrace s1.parse.last) (λ f. returns_ok s1 r1)
            λ f.
              Returns-return _ _ _ (bitf_clause-Reading n s1 r1)
                (λ s2 r2. bitf_clauses-Reading n s2 r2) (λ s2 stop. returns_fail s2 stop)

  bitf_end-Complete : (s : BitfState) → Reading s → Complete (bitf_end lib s)
  unfolding bitf_end
  bitf_end-Complete s (inl stop) = rw stop (inl stop)
  bitf_end-Complete s (inr d) =
      if_cases Complete (stops s.parse.last) (λ e. inl e)
        (λ e. close_bitf-Complete s (parse_next lib s.parse) d)

  pub parse_bitidx-Complete :
      (n : ℕ) (p : Parse) (b : Bitf) → b.bq ≡ [] → Returns Complete Stopped (parse_bitidx lib n p b)
  unfolding parse_bitidx
  parse_bitidx-Complete n p b empty =
      let p1 = parse_next lib p in
      let s : BitfState = record { parse = p1; bitf = b } in
      let start : Wellformed s.bitf.bq =
        rw empty (record { names = tt; values = tt; range = tt }) in
      Returns-if (not (is_lbrace p1.last))
        (λ f. returns_fail _ (stops-parse_errx p1 "expected left brace"))
        λ f.
          Returns-return _ _ _ (bitf_clauses-Reading n s (inr start))
            (λ s1 r1. returns_ok _ (bitf_end-Complete s1 r1)) (λ s1 stop. returns_fail s1 stop)
