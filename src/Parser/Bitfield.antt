-- ===== src/Parser/Bitfield.antt =====
-- parser_bitfield.c: bitfields. A bit index and its bitfield are values that are read to the end and
-- stored then; no function between reads them from the store.
pub mod Ends
pub mod Items
pub mod Clauses
pub mod Laws
use openradtool.Base.{
  ℕ, zero, suc, ◌+◌, Bool, true, false, not, ◌&&◌, ◌||◌, Option, none, some, List, [], ◌∷◌, ◌++◌,
  ltb, if◌then◌else◌, Bytes, codes, lower, strcaseeq, ℤ, pos, negsuc,
}
use openradtool.Model.{Label, Bitidx, Bitf}
use openradtool.Model.Store.{write}
use openradtool.Model.Outcome.{Outcome, ok, fail, fault, out_of_fuel, on_return}
use openradtool.Parser.State.{
  Libc, Parse, stops, is_lbrace, is_rbrace, is_ident, is_semicolon, string_of, integer_of,
  parse_errx, parse_warnx, parse_point,
}
use openradtool.Parser.Lexer.{parse_next}
use openradtool.Parser.Names.{parse_check_badidents, parse_check_dupetoplevel}
use openradtool.Parser.Labels.{Labelled, parse_comment, parse_label, parse_labels}
use openradtool.Parser.Assign.{int_eq}

-- `v < 0 || v >= 64`
unfoldable pub out_of_range : ℤ → Bool
out_of_range (negsuc n) = true
out_of_range (pos n) = not (ltb n 64)

unfoldable pub has_bit : ℤ → List Bitidx → Bool
has_bit v [] = false
has_bit v (bi ∷ bq) = int_eq v bi.value || has_bit v bq

unfoldable pub has_bit_name : List Bitidx → Bytes → Bool
has_bit_name [] s = false
has_bit_name (bi ∷ bq) s = strcaseeq bi.name s || has_bit_name bq s

pub record BitState : Type 0 where
  pub parse : Parse
  pub item : Bitidx

pub record BitfState : Type 0 where
  pub parse : Parse
  pub bitf : Bitf

abbrev pub new_bit : Parse → Bitidx
new_bit p = record {
  name = lower (string_of p.last);
  doc = none;
  labels = [];
  value = pos 0;
  pos = parse_point p;
}

abbrev pub new_bitf : Parse → Bitf
new_bitf p = record {
  name = lower (string_of p.last);
  doc = none;
  labels_unset = [];
  labels_null = [];
  pos = parse_point p;
  bq = [];
}

abbrev pub no_bits : List Bitidx → Bool
no_bits [] = true
no_bits (_ ∷ _) = false

-- The end of a bitfield, whose last token is read: the semicolon, and that there is an item.
unfoldable pub close_bitf : BitfState → Parse → BitfState
unfolding parse_errx
close_bitf s p =
    if not (is_semicolon p.last)
    then record s { parse = parse_errx p "expected semicolon" }
    else if no_bits s.bitf.bq
    then record s { parse = parse_errx p "no items in bitfield" }
    else record s { parse = p }

-- A bit index is appended, however it was read.
unfoldable pub push_bit : BitfState → BitState → BitfState
push_bit s i = record { parse = i.parse; bitf = record s.bitf { bq = s.bitf.bq ++ i.item ∷ [] } }

module _ (lib : Libc) where
  -- An attribute of a bit index, whose name is read already.
  unfoldable pub bit_attribute : BitState → BitState
  unfolding parse_comment parse_label parse_errx
  bit_attribute s =
      let next = string_of s.parse.last in
      let c = parse_comment lib s.parse s.item.doc in
      let l = parse_label lib s.parse s.item.labels in
      if strcaseeq next (codes "comment")
      then record { parse = c.parse; item = record s.item { doc = c.doc } }
      else if strcaseeq next (codes "jslabel")
      then record { parse = l.parse; item = record s.item { labels = l.labels } }
      else record s { parse = parse_errx s.parse "unknown item data type" }

  -- `while (!PARSE_STOP(p) && parse_next(p) == TOK_IDENT)`
  unfoldable pub bit_attributes : ℕ → BitState → Outcome BitState
  unfolding parse_next bit_attribute
  bit_attributes zero s = out_of_fuel
  bit_attributes (suc n) s =
      let s1 = record s { parse = parse_next lib s.parse } in
      let rest = bit_attributes n (bit_attribute s1) in
      if stops s.parse.last then ok s else if is_ident s1.parse.last then rest else ok s1

  unfoldable pub bit_end : BitState → BitState
  unfolding parse_errx
  bit_end s =
      if not (stops s.parse.last) && not (is_semicolon s.parse.last)
      then record s { parse = parse_errx s.parse "expected semicolon" }
      else s

  -- The value of a bit index: `fail` where it is refused. `others` are the indices before it.
  unfoldable pub bit_value : List Bitidx → BitState → Outcome BitState
  unfolding parse_next parse_errx out_of_range has_bit
  bit_value others s =
      let p = parse_next lib s.parse in
      elim (integer_of p.last) [
        | none ↦ fail (record s { parse = parse_errx p "expected item value" })
        | some v ↦
            let bi = record s.item { value = v } in
            if out_of_range v
            then fail (record { parse = parse_errx p "bit index out of range"; item = bi })
            else if has_bit v others
            then fail (record { parse = parse_errx p "duplicate item value"; item = bi })
            else ok (record { parse = p; item = bi })
      ]

  unfoldable pub parse_bitidx_item : ℕ → List Bitidx → BitState → Outcome BitState
  unfolding bit_value bit_attributes bit_end
  parse_bitidx_item n others s =
      on_return (bit_value others s)
        (λ s1. on_return (bit_attributes n s1) (λ s2. ok (bit_end s2)) (λ s2. fail s2))
        (λ s1. fail s1)

  unfoldable pub parse_bitidx_label : ℕ → Parse → List Label → Outcome Labelled
  unfolding parse_labels
  parse_bitidx_label n p q = parse_labels lib n p q

  -- Behind the word "item".
  unfoldable pub bitf_item : ℕ → BitfState → Outcome BitfState
  unfolding parse_next parse_errx parse_check_badidents has_bit_name parse_bitidx_item push_bit
  bitf_item n s =
      let p = parse_next lib s.parse in
      let c = parse_check_badidents p (string_of p.last) in
      if not (is_ident p.last)
      then fail (record s { parse = parse_errx p "expected item name" })
      else if not c.success
      then fail (record s { parse = c.parse })
      else if has_bit_name s.bitf.bq (string_of p.last)
      then fail (record s { parse = parse_errx p "duplicate item name" })
      else on_return (parse_bitidx_item n s.bitf.bq (record { parse = p; item = new_bit p }))
          (λ i. ok (push_bit s i)) (λ i. ok (push_bit s i))

  -- The labels of the words "isunset", "unset" and "isnull".
  unfoldable pub bitf_unset : ℕ → BitfState → Outcome BitfState
  unfolding parse_bitidx_label
  bitf_unset n s =
      on_return (parse_bitidx_label n s.parse s.bitf.labels_unset)
        (λ l. ok (record s { parse = l.parse; bitf = record s.bitf { labels_unset = l.labels } }))
        (λ l. fail (record s { parse = l.parse; bitf = record s.bitf { labels_unset = l.labels } }))

  unfoldable pub bitf_null : ℕ → BitfState → Outcome BitfState
  unfolding parse_bitidx_label
  bitf_null n s =
      on_return (parse_bitidx_label n s.parse s.bitf.labels_null)
        (λ l. ok (record s { parse = l.parse; bitf = record s.bitf { labels_null = l.labels } }))
        (λ l. fail (record s { parse = l.parse; bitf = record s.bitf { labels_null = l.labels } }))

  -- One round of the loop of parse_bitidx, behind the token that is not a right brace; `fail` is its
  -- return.
  unfoldable pub bitf_clause : ℕ → BitfState → Outcome BitfState
  unfolding parse_errx parse_warnx parse_comment parse_next bitf_unset bitf_null bitf_item
  bitf_clause n s =
      let next = string_of s.parse.last in
      let c = parse_comment lib s.parse s.bitf.doc in
      let p = parse_next lib c.parse in
      let commented = record s { bitf = record s.bitf { doc = c.doc } } in
      let old = parse_warnx s.parse "\"unset\" is deprecated: use \"isunset\"" in
      if not (is_ident s.parse.last)
      then fail (record s { parse = parse_errx s.parse "expected bitfield data type" })
      else if strcaseeq next (codes "comment")
      then (if not c.success
          then fail (record commented { parse = c.parse })
          else if not (is_semicolon p.last)
          then fail (record commented { parse = parse_errx p "expected end of comment" })
          else ok (record commented { parse = p }))
      else if strcaseeq next (codes "isunset")
      then bitf_unset n s
      else if strcaseeq next (codes "unset")
      then bitf_unset n (record s { parse = old })
      else if strcaseeq next (codes "isnull")
      then bitf_null n s
      else if not (strcaseeq next (codes "item"))
      then fail (record s { parse = parse_errx s.parse "unknown bitfield data type" })
      else bitf_item n s

  unfoldable pub bitf_clauses : ℕ → BitfState → Outcome BitfState
  unfolding parse_next bitf_clause
  bitf_clauses zero s = out_of_fuel
  bitf_clauses (suc n) s =
      let s1 = record s { parse = parse_next lib s.parse } in
      if stops s.parse.last
      then ok s
      else if is_rbrace s1.parse.last
      then ok s1
      else on_return (bitf_clause n s1) (λ s2. bitf_clauses n s2) (λ s2. fail s2)

  -- Behind the items.
  unfoldable pub bitf_end : BitfState → BitfState
  unfolding parse_next close_bitf
  bitf_end s = if stops s.parse.last then s else close_bitf s (parse_next lib s.parse)

  unfoldable pub parse_bitidx : ℕ → Parse → Bitf → Outcome BitfState
  unfolding parse_next parse_errx bitf_clauses bitf_end
  parse_bitidx n p b =
      let p1 = parse_next lib p in
      let s : BitfState = record { parse = p1; bitf = b } in
      if not (is_lbrace p1.last)
      then fail (record s { parse = parse_errx p1 "expected left brace" })
      else on_return (bitf_clauses n s) (λ s1. ok (bitf_end s1)) (λ s1. fail s1)

  -- The bitfield at the address `a` behind its data.
  unfoldable pub finish_bitf : ℕ → BitfState → Outcome Parse
  finish_bitf a s =
      let p = s.parse in ok (record p { cfg = record p.cfg { bitf = write p.cfg.bitf a s.bitf } })

  -- `parse_bitfield` behind the tests of the name.
  unfoldable pub open_bitf : ℕ → Parse → Outcome Parse
  unfolding parse_bitidx finish_bitf
  open_bitf n p =
      let a = p.cfg.next_bitf in
      let b = new_bitf p in
      let cfg = record p.cfg {
        bq = p.cfg.bq ++ a ∷ [];
        bitf = write p.cfg.bitf a b;
        next_bitf = a + 1;
      } in
      on_return (parse_bitidx n (record p { cfg = cfg }) b) (finish_bitf a) (finish_bitf a)

  -- `fail`: parse_bitfield returns before there is a bitfield.
  unfoldable pub parse_bitfield : ℕ → Parse → Outcome Parse
  unfolding parse_next parse_errx parse_check_dupetoplevel parse_check_badidents open_bitf
  parse_bitfield n p =
      let p1 = parse_next lib p in
      let name = string_of p1.last in
      let dupe = parse_check_dupetoplevel p1 name in
      let bad = parse_check_badidents p1 name in
      if not (is_ident p1.last)
      then fail (parse_errx p1 "expected bitfield name")
      else if not dupe.success
      then fail dupe.parse
      else if not bad.success
      then fail bad.parse
      else open_bitf n p1
