-- ===== src/Diff/Bitfields/Laws.antt =====
-- The entries of the difference of bitfields.
use openradtool.Base.{
  ◌≡◌, refl, Bool, true, false, not, ◌&&◌, ◌||◌, Option, none, some, List, [], ◌∷◌, if◌then◌else◌,
  map, arith,
}
use openradtool.Model.{Bitidx, Bitf, Config}
use openradtool.Parser.Assign.{int_eq}
use openradtool.Diff.{
  Diff, add_bitidx, del_bitidx, mod_bitidx, mod_bitidx_value, mod_bitidx_comment, mod_bitidx_labels,
  same_bitidx, add_bitf, del_bitf, mod_bitf, mod_bitf_comment, mod_bitf_labels, same_bitf,
  ort_check_labels, ort_check_comment, emit_if, ItemDiff,
}
use openradtool.Diff.Enums.{is_same, all_same, all_same-snoc, all_same-emit_if}
use openradtool.Diff.Bitfields.{
  ort_diff_bitidx, find_old_bit, new_bits, bit_is_gone, old_bits, labels_differ, ort_diff_bitf,
  find_bitf, diff_or_add_bitf, new_bitfs, has_bitf, old_bitfs, ort_diff_bitfs,
}

-- Two items agree in value, comment and labels.
unfoldable pub bit_agree : Option Bitidx → Bitidx → Bool
bit_agree none i = false
bit_agree (some f) i =
    int_eq f.value i.value && ort_check_comment f.doc i.doc && ort_check_labels f.labels i.labels

unfoldable pub all_bits_agree : List Bitidx → List Bitidx → Bool
all_bits_agree from [] = true
all_bits_agree from (i ∷ into) = bit_agree (find_old_bit i.name from) i && all_bits_agree from into

unfoldable pub no_bit_gone : List Bitidx → List Bitidx → Bool
no_bit_gone [] into = true
no_bit_gone (f ∷ from) into = not (bit_is_gone f.name into) && no_bit_gone from into

-- Two bitfields agree: in their indices, each known by its name, their comments and labels.
unfoldable pub bitf_agree : Option Bitf → Bitf → Bool
bitf_agree none i = false
bitf_agree (some f) i =
    all_bits_agree f.bq i.bq
    && no_bit_gone f.bq i.bq
    && ort_check_comment f.doc i.doc
    && ort_check_labels f.labels_unset i.labels_unset
    && ort_check_labels f.labels_null i.labels_null

unfoldable pub all_bitfs_agree : List Bitf → List Bitf → Bool
all_bitfs_agree from [] = true
all_bitfs_agree from (i ∷ into) = bitf_agree (find_bitf i.name from) i && all_bitfs_agree from into

unfoldable pub no_bitf_gone : List Bitf → List Bitf → Bool
no_bitf_gone [] into = true
no_bitf_gone (f ∷ from) into = has_bitf f.name into && no_bitf_gone from into

pub ort_diff_bitidx-same :
    (q : List Diff) (f : Option Bitidx) (i : Bitidx)
    → (all_same (ort_diff_bitidx q f i).q ≡ all_same q && bit_agree f i)
      × ((ort_diff_bitidx q f i).modified ≡ not (bit_agree f i))
unfolding ort_diff_bitidx bit_agree
ort_diff_bitidx-same q none i = (ground (arith, all_same-snoc q (add_bitidx i)), refl)
ort_diff_bitidx-same q (some f) i =
    let v = not (int_eq f.value i.value) in
    let c = not (ort_check_comment f.doc i.doc) in
    let l = not (ort_check_labels f.labels i.labels) in
    let q1 = emit_if v (mod_bitidx_value f i) q in
    let q2 = emit_if l (mod_bitidx_labels f i) q1 in
    let q3 = emit_if c (mod_bitidx_comment f i) q2 in
    let d = if v || l || c then mod_bitidx f i else same_bitidx f i in
    let last : is_same d ≡ not (v || l || c) = ground arith in
    (
      ground (
        arith,
        all_same-snoc q3 d,
        last,
        all_same-emit_if l (mod_bitidx_labels f i) q1 refl,
        all_same-emit_if c (mod_bitidx_comment f i) q2 refl,
        all_same-emit_if v (mod_bitidx_value f i) q refl,
      ),
      ground arith,
    )

new_bits-same :
    (from into : List Bitidx) (d : ItemDiff)
    → (all_same (new_bits from into d).q ≡ all_same d.q && all_bits_agree from into)
      × ((new_bits from into d).modified ≡ d.modified || not (all_bits_agree from into))
unfolding new_bits all_bits_agree
new_bits-same from [] d = (ground arith, ground arith)
new_bits-same from (i ∷ into) d =
    let r = ort_diff_bitidx d.q (find_old_bit i.name from) i in
    let s = ort_diff_bitidx-same d.q (find_old_bit i.name from) i in
    let ih = new_bits-same from into (record { q = r.q; modified = d.modified || r.modified }) in
    (ground (arith, s.0, ih.0), ground (arith, s.1, ih.1))

old_bits-same :
    (from into : List Bitidx) (d : ItemDiff)
    → (all_same (old_bits from into d).q ≡ all_same d.q && no_bit_gone from into)
      × ((old_bits from into d).modified ≡ d.modified || not (no_bit_gone from into))
unfolding old_bits no_bit_gone
old_bits-same [] into d = (ground arith, ground arith)
old_bits-same (f ∷ from) into d =
    let g = bit_is_gone f.name into in
    let s = all_same-emit_if g (del_bitidx f) d.q refl in
    let ih =
      old_bits-same from into
        (record { q = emit_if g (del_bitidx f) d.q; modified = d.modified || g }) in
    (ground (arith, s, ih.0), ground (arith, ih.1))

labels_differ-not :
    (f i : Bitf)
    → not (labels_differ f i)
      ≡ ort_check_labels f.labels_unset i.labels_unset
        && ort_check_labels f.labels_null i.labels_null
unfolding labels_differ
labels_differ-not f i = ground arith

diff_or_add_bitf-same :
    (q : List Diff) (f : Option Bitf) (i : Bitf)
    → all_same (diff_or_add_bitf q f i) ≡ all_same q && bitf_agree f i
unfolding diff_or_add_bitf ort_diff_bitf bitf_agree
diff_or_add_bitf-same q none i = ground (arith, all_same-snoc q (add_bitf i))
diff_or_add_bitf-same q (some f) i =
    let d1 = new_bits f.bq i.bq (record { q = q; modified = false }) in
    let d = old_bits f.bq i.bq d1 in
    let s1 = new_bits-same f.bq i.bq (record { q = q; modified = false }) in
    let s = old_bits-same f.bq i.bq d1 in
    let c = not (ort_check_comment f.doc i.doc) in
    let l = labels_differ f i in
    let q1 = emit_if c (mod_bitf_comment f i) d.q in
    let q2 = emit_if l (mod_bitf_labels f i) q1 in
    let e = if d.modified || c || l then mod_bitf f i else same_bitf f i in
    let last : is_same e ≡ not (d.modified || c || l) = ground arith in
    ground (
      arith,
      labels_differ-not f i,
      s.0,
      s.1,
      s1.0,
      s1.1,
      all_same-snoc q2 e,
      last,
      all_same-emit_if l (mod_bitf_labels f i) q1 refl,
      all_same-emit_if c (mod_bitf_comment f i) d.q refl,
    )

new_bitfs-same :
    (from into : List Bitf) (q : List Diff)
    → all_same (new_bitfs from into q) ≡ all_same q && all_bitfs_agree from into
unfolding new_bitfs all_bitfs_agree
new_bitfs-same from [] q = ground arith
new_bitfs-same from (i ∷ into) q =
    let f = find_bitf i.name from in
    ground (arith, new_bitfs-same from into (diff_or_add_bitf q f i), diff_or_add_bitf-same q f i)

old_bitfs-same :
    (from into : List Bitf) (q : List Diff)
    → all_same (old_bitfs from into q) ≡ all_same q && no_bitf_gone from into
unfolding old_bitfs no_bitf_gone
old_bitfs-same [] into q = ground arith
old_bitfs-same (f ∷ from) into q =
    let b = not (has_bitf f.name into) in
    ground (
      arith,
      old_bitfs-same from into (emit_if b (del_bitf f) q),
      all_same-emit_if b (del_bitf f) q refl,
    )

-- All entries are of sameness exactly if the objects agree.
pub ort_diff_bitfs-agree :
    (from into : Config)
    → all_same (ort_diff_bitfs [] from into)
      ≡ all_bitfs_agree (map from.bitf from.bq) (map into.bitf into.bq)
        && no_bitf_gone (map from.bitf from.bq) (map into.bitf into.bq)
unfolding ort_diff_bitfs all_same
ort_diff_bitfs-agree from into =
    let f = map from.bitf from.bq in
    let i = map into.bitf into.bq in
    ground (arith, old_bitfs-same f i (new_bitfs f i []), new_bitfs-same f i [])
