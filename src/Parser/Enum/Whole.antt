-- ===== src/Parser/Enum/Whole.antt =====
-- parse_enum_data as a whole.
use openradtool.Base.{
  ℕ, ◌<◌, inl, inr, ◌⊎◌, ◌≡◌, ◌≢◌, refl, ◌∙◌, false, not, some, List, [], ◌∷◌, if◌then◌else◌,
  Bool-cases, if_cases, Option-cases, arith, negsuc,
}
use openradtool.Model.{Eitem, Enm}
use openradtool.Model.Outcome.{
  ok, Returns, returns_ok, returns_fail, returns_fault, Returns-if, Returns-return,
}
use openradtool.Parser.State.{Libc, Parse, stops, is_lbrace, is_semicolon}
use openradtool.Parser.Lexer.{parse_next}
use openradtool.Parser.Lexer.Laws.{left}
use openradtool.Parser.Labels.Fails.{stops-parse_errx}
use openradtool.Parser.Labels.Laws.{
  Onward, Onward-trans, Onward-refl, parse_errx-Onward, parse_next-Onward, Ends, ends_ok, ends_fail,
  ends_fault, Ends-if, Ends-from, Ends-return,
}
use openradtool.Parser.Assign.{int64_max, greatest, successor, assign_below, assign_again}
use openradtool.Parser.Enum.{
  EnumState, assign_checked, no_items, enum_end, close_enum, parse_enum_data,
}
use openradtool.Parser.Enum.Ends.{at_enum, enum_clauses-Ends}
use openradtool.Parser.Enum.Items.{any_auto}
use openradtool.Parser.Enum.Clauses.{Sound, Reading, Stopped, enum_clauses-Reading}
use openradtool.Parser.Enum.Values.{assign_below-Run}
use openradtool.Parser.Enum.Assignment.{
  Accepted, Run-Accepted, given-Accepted, assign_again-Run, assign_again-given,
}

assign_checked-Ends : (s : EnumState) → Ends at_enum s.parse (assign_checked s)
unfolding assign_checked
assign_checked-Ends s = elim (Option-cases (successor (greatest s.enm.eq (negsuc int64_max)))) [
  | inl e ↦ rw (e, assign_checked) ends_fault
  | inr (m, e) ↦
      rw (e, assign_checked)
        (Ends-if (assign_below m s.enm.eq).within (λ w. ends_ok _ (Onward-refl s.parse))
          (λ w. ends_fail _ (parse_errx-Onward s.parse _)))
]

-- The items are accepted, and parse_enum does not change them again.
pub record Settled (s : EnumState) : Type 0 where
  pub accepted : Accepted s.enm.eq
  pub again : assign_again s.enm.eq ≡ some s.enm.eq

abbrev Done : EnumState → Type 0
Done s = Stopped s ⊎ Settled s

assign_checked-Done : (s : EnumState) → Reading s → Returns Done Stopped (assign_checked s)
unfolding assign_checked
assign_checked-Done s r = elim (Option-cases (successor (greatest s.enm.eq (negsuc int64_max)))) [
  | inl e ↦ rw (e, assign_checked) returns_fault
  | inr (m, e) ↦
      let a = assign_below m s.enm.eq in
      rw (e, assign_checked)
        (Returns-if a.within
          (λ w. returns_ok _ (elim r [
            | inl stop ↦ inl stop
            | inr d ↦
                let run = assign_below-Run m s.enm.eq w in
                inr (record {
                  accepted = Run-Accepted m s.enm.eq a e run d.wellformed;
                  again = assign_again-Run m s.enm.eq a e run;
                })
          ]))
          (λ w.
            returns_fail _
              (stops-parse_errx s.parse "integer overflow when assigning dynamic enum value")))
]

values-Done :
    (s : EnumState)
    → Reading s
    → Returns Done Stopped (if s.hasauto then assign_checked s else ok s)
values-Done s r =
    Returns-if s.hasauto (λ e. assign_checked-Done s r)
      λ e. returns_ok s (elim r [
        | inl stop ↦ inl stop
        | inr d ↦ inr (record {
          accepted = given-Accepted s.enm.eq (d.autos ∙ e) d.wellformed;
          again = assign_again-given s.enm.eq (d.autos ∙ e) d.wellformed.moderate;
        })
      ])

-- The state behind the data: stopped, or with items that are settled.
abbrev pub Complete : EnumState → Type 0
Complete s = Stopped s ⊎ (Settled s × (s.enm.eq ≢ []))

no_items-ne : (es : List Eitem) → no_items es ≡ false → es ≢ []
no_items-ne [] h e = cc
no_items-ne (x ∷ es) h e = cc

close_enum-Onward : (s : EnumState) (p : Parse) → Onward p (close_enum s p).parse
unfolding close_enum
close_enum-Onward s p = elim (Bool-cases (not (is_semicolon p.last))) [
  | inl f ↦ rw f (parse_errx-Onward p _)
  | inr f ↦ elim (Bool-cases (no_items s.enm.eq)) [
    | inl g ↦ rw (f, g) (parse_errx-Onward p _)
    | inr g ↦ rw (f, g) (Onward-refl p)
  ]
]

close_enum-Complete : (s : EnumState) (p : Parse) → Settled s → Complete (close_enum s p)
unfolding close_enum
close_enum-Complete s p d = elim (Bool-cases (not (is_semicolon p.last))) [
  | inl f ↦ rw f (inl (stops-parse_errx p "expected semicolon"))
  | inr f ↦ elim (Bool-cases (no_items s.enm.eq)) [
    | inl g ↦ rw (f, g) (inl (stops-parse_errx p "no items in enum"))
    | inr g ↦
        rw (f, g) (inr (record { accepted = d.accepted; again = d.again }, no_items-ne s.enm.eq g))
  ]
]

module _ (lib : Libc) where
  enum_end-Onward : (s : EnumState) → Onward s.parse (enum_end lib s).parse
  unfolding enum_end
  enum_end-Onward s =
      let p = parse_next lib s.parse in
      if_cases (λ (t : EnumState). Onward s.parse t.parse) (stops s.parse.last)
        (λ e. Onward-refl s.parse)
        (λ e. Onward-trans (parse_next-Onward lib s.parse) (close_enum-Onward s p))

  enum_end-Complete : (s : EnumState) → Done s → Complete (enum_end lib s)
  unfolding enum_end
  enum_end-Complete s (inl stop) = rw stop (inl stop)
  enum_end-Complete s (inr d) =
      if_cases Complete (stops s.parse.last) (λ e. inl e)
        (λ e. close_enum-Complete s (parse_next lib s.parse) d)

  pub parse_enum_data-Ends :
      (n : ℕ) (p : Parse) (e : Enm) → left p < n → Ends at_enum p (parse_enum_data lib n p e)
  unfolding parse_enum_data
  parse_enum_data-Ends n p e h =
      let p1 = parse_next lib p in
      let o = parse_next-Onward lib p in
      let s : EnumState = record { parse = p1; enm = e; hasauto = false } in
      Ends-if (not (is_lbrace p1.last)) (λ f. ends_fail _ (Onward-trans o (parse_errx-Onward p1 _)))
        λ f. Ends-from at_enum _ o (
          Ends-return at_enum at_enum p1 _ _ _
            (enum_clauses-Ends lib n s (omega (arith, h, o.less)))
            (λ s1 o1.
              Ends-return at_enum at_enum p1 _ _ _
                (Ends-from at_enum _ o1 (
                  Ends-if s1.hasauto (λ g. assign_checked-Ends s1)
                    (λ g. ends_ok s1 (Onward-refl s1.parse))))
                (λ s2 o2. ends_ok _ (Onward-trans o2 (enum_end-Onward s2)))
                (λ s2 o2. ends_fail s2 o2))
            (λ s1 o1. ends_fail s1 o1))

  pub parse_enum_data-Complete :
      (n : ℕ) (p : Parse) (e : Enm)
      → e.eq ≡ []
      → Returns Complete Stopped (parse_enum_data lib n p e)
  unfolding parse_enum_data any_auto
  parse_enum_data-Complete n p e empty =
      let p1 = parse_next lib p in
      let s : EnumState = record { parse = p1; enm = e; hasauto = false } in
      let start : Sound s = record {
        wellformed = rw empty (record { names = tt; values = tt; moderate = tt });
        autos = rw empty refl;
      } in
      Returns-if (not (is_lbrace p1.last))
        (λ f. returns_fail _ (stops-parse_errx p1 "expected left brace"))
        λ f.
          Returns-return _ _ _ (enum_clauses-Reading lib n s (inr start))
            (λ s1 r1.
              Returns-return _ _ _ (values-Done s1 r1)
                (λ s2 d2. returns_ok _ (enum_end-Complete s2 d2)) (λ s2 stop. returns_fail s2 stop))
            (λ s1 stop. returns_fail s1 stop)
