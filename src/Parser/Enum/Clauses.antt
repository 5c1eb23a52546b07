-- ===== src/Parser/Enum/Clauses.antt =====
-- The loop of parse_enum_data, and the items that it has read.
use openradtool.Base.{
  ℕ, zero, suc, inl, inr, ◌⊎◌, ◌≡◌, refl, ap, ◌∙◌, true, false, not, ◌||◌, Bytes, codes, strcaseeq,
  Bool-cases, arith,
}
use openradtool.Model.Outcome.{
  Returns, returns_ok, returns_fail, returns_none, Returns-if, Returns-return,
}
use openradtool.Parser.State.{Libc, Parse, stops, is_rbrace, is_ident, is_semicolon, string_of}
use openradtool.Parser.Lexer.{parse_next}
use openradtool.Parser.Names.{is_reserved, badidents, parse_check_badidents}
use openradtool.Parser.Labels.{parse_comment}
use openradtool.Parser.Labels.Laws.{is_ident-stops}
use openradtool.Parser.Labels.Fails.{stops-parse_errx, parse_comment-fails, parse_labels-Returns}
use openradtool.Parser.Item.{ItemState, new_item}
use openradtool.Parser.Enum.{
  EnumState, has_item, parse_enum_label, push_item, enum_item, enum_clause, enum_clauses,
}
use openradtool.Parser.Enum.Items.{
  Fits, Wellformed, Wellformed-snoc, any_auto, any_auto-snoc, parse_enum_item-Fits,
}

-- The state between two clauses: the items so far are well-formed, unless the parse has stopped.
pub record Sound (s : EnumState) : Type 0 where
  pub wellformed : Wellformed s.enm.eq
  pub autos : any_auto s.enm.eq ≡ s.hasauto

abbrev pub Reading : EnumState → Type 0
Reading s = (stops s.parse.last ≡ true) ⊎ Sound s

pub parse_check_badidents-fails :
    (p : Parse) (s : Bytes)
    → (parse_check_badidents p s).success ≡ false
    → stops (parse_check_badidents p s).parse.last ≡ true
unfolding parse_check_badidents
parse_check_badidents-fails p s h = elim (Bool-cases (is_reserved badidents s)) [
  | inl e ↦ rw e (stops-parse_errx p "reserved identifier")
  | inr e ↦ let no : true ≡ false = rw e at h in cc
]

abbrev pub Stopped : EnumState → Type 0
Stopped s = stops s.parse.last ≡ true

-- A parse that goes on is sound.
go_on : {s : EnumState} → Reading s → stops s.parse.last ≡ false → Sound s
go_on (inl stop) h = cc
go_on (inr d) h = d

module _ (lib : Libc) where
  push_item-Sound :
      (s : EnumState) (name : Bytes) (i : ItemState)
      → Sound s
      → Fits s.enm.eq name i.item
      → has_item s.enm.eq name ≡ false
      → Sound (push_item lib s i)
  unfolding push_item
  push_item-Sound s name i d f h = record {
    wellformed = Wellformed-snoc s.enm.eq i.item name d.wellformed f h;
    autos = any_auto-snoc s.enm.eq i.item ∙ ap (◌|| i.item.auto) d.autos;
  }

  push_item-stops :
      (s : EnumState) (i : ItemState) → stops i.parse.last ≡ true → Stopped (push_item lib s i)
  unfolding push_item
  push_item-stops s i h = h

  enum_item-Reading :
      (n : ℕ) (s : EnumState) → Sound s → Returns Reading Stopped (enum_item lib n s)
  unfolding enum_item
  enum_item-Reading n s d =
      let p = parse_next lib s.parse in
      let name = string_of p.last in
      let i : ItemState = record { parse = p; item = new_item p } in
      Returns-if (not (is_ident p.last))
        (λ e. returns_fail _ (stops-parse_errx p "expected enum item name"))
        λ e.
          Returns-if (not (parse_check_badidents p name).success)
            (λ f. returns_fail _ (parse_check_badidents-fails p name (ground (arith, f))))
            λ f.
              Returns-if (strcaseeq name (codes "format"))
                (λ g. returns_fail _ (stops-parse_errx p "cannot use reserved name"))
                λ g.
                  Returns-if (has_item s.enm.eq name)
                    (λ k. returns_fail _ (stops-parse_errx p "duplicate enum item name"))
                    λ k.
                      Returns-return _ _ _ (parse_enum_item-Fits lib n s.enm.eq name i refl refl)
                        (λ j fits. returns_ok _ (inr (push_item-Sound s name j d fits k)))
                        (λ j stop. returns_ok _ (inl (push_item-stops s j stop)))

  enum_clause-Reading :
      (n : ℕ) (s : EnumState) → Reading s → Returns Reading Stopped (enum_clause lib n s)
  unfolding enum_clause parse_enum_label
  enum_clause-Reading n s r =
      let next = string_of s.parse.last in
      let c = parse_comment lib s.parse s.enm.doc in
      let p = parse_next lib c.parse in
      Returns-if (not (is_ident s.parse.last))
        (λ e. returns_fail _ (stops-parse_errx s.parse "expected enum attribute"))
        λ e.
          let d = go_on r (is_ident-stops s.parse.last (ground (arith, e))) in
          Returns-if (strcaseeq next (codes "comment"))
            (λ f.
              Returns-if (not c.success)
                (λ g.
                  returns_fail _ (parse_comment-fails lib s.parse s.enm.doc (ground (arith, g))))
                λ g.
                  Returns-if (not (is_semicolon p.last))
                    (λ k. returns_fail _ (stops-parse_errx p "expected semicolon"))
                    (λ k.
                      returns_ok _ (inr (record { wellformed = d.wellformed; autos = d.autos }))))
            λ f.
              Returns-if (strcaseeq next (codes "isnull"))
                (λ g.
                  Returns-return _ _ _ (parse_labels-Returns lib n s.parse s.enm.labels_null)
                    (λ l done.
                      returns_ok _ (inr (record { wellformed = d.wellformed; autos = d.autos })))
                    (λ l stop. returns_fail _ stop))
                λ g.
                  Returns-if (not (strcaseeq next (codes "item")))
                    (λ k. returns_fail _ (stops-parse_errx s.parse "unknown enum attribute"))
                    (λ k. enum_item-Reading n s d)

  pub enum_clauses-Reading :
      (n : ℕ) (s : EnumState) → Reading s → Returns Reading Stopped (enum_clauses lib n s)
  unfolding enum_clauses
  enum_clauses-Reading zero s r = returns_none
  enum_clauses-Reading (suc n) s r =
      let s1 = record s { parse = parse_next lib s.parse } in
      Returns-if (stops s.parse.last) (λ e. returns_ok s r)
        λ e.
          let d = go_on r e in
          let r1 : Reading s1 = inr (record { wellformed = d.wellformed; autos = d.autos }) in
          Returns-if (is_rbrace s1.parse.last) (λ f. returns_ok s1 r1)
            λ f.
              Returns-return _ _ _ (enum_clause-Reading n s1 r1)
                (λ s2 r2. enum_clauses-Reading n s2 r2) (λ s2 stop. returns_fail s2 stop)
