-- ===== src/Diff/Bitfields.antt =====
-- diff.c: the comparison of bitfields.
pub mod Laws
use openradtool.Base.{
  ℕ, Bool, true, false, not, ◌&&◌, ◌||◌, Option, none, some, List, [], ◌∷◌, ◌++◌, if◌then◌else◌,
  Bytes, strcaseeq, map,
}
use openradtool.Model.{Bitidx, Bitf, Config}
use openradtool.Parser.Assign.{int_eq}
use openradtool.Diff.{
  Diff, add_bitidx, del_bitidx, mod_bitidx, mod_bitidx_value, mod_bitidx_comment, mod_bitidx_labels,
  same_bitidx, add_bitf, del_bitf, mod_bitf, mod_bitf_comment, mod_bitf_labels, same_bitf,
  ort_check_labels, ort_check_comment, emit_if, ItemDiff,
}

unfoldable pub ort_diff_bitidx : List Diff → Option Bitidx → Bitidx → ItemDiff
unfolding ort_check_labels ort_check_comment emit_if
ort_diff_bitidx q none i = record { q = q ++ add_bitidx i ∷ []; modified = true }
ort_diff_bitidx q (some f) i =
    let v = not (int_eq f.value i.value) in
    let c = not (ort_check_comment f.doc i.doc) in
    let l = not (ort_check_labels f.labels i.labels) in
    let q3 =
      emit_if c (mod_bitidx_comment f i)
        (emit_if l (mod_bitidx_labels f i) (emit_if v (mod_bitidx_value f i) q)) in
    let b = v || l || c in
    record { q = q3 ++ (if b then mod_bitidx f i else same_bitidx f i) ∷ []; modified = b }

unfoldable pub find_old_bit : Bytes → List Bitidx → Option Bitidx
find_old_bit name [] = none
find_old_bit name (i ∷ q) = if strcaseeq name i.name then some i else find_old_bit name q

unfoldable pub new_bits : List Bitidx → List Bitidx → ItemDiff → ItemDiff
unfolding ort_diff_bitidx find_old_bit
new_bits from [] d = d
new_bits from (i ∷ into) d =
    let r = ort_diff_bitidx d.q (find_old_bit i.name from) i in
    new_bits from into (record { q = r.q; modified = d.modified || r.modified })

unfoldable pub bit_is_gone : Bytes → List Bitidx → Bool
bit_is_gone name [] = true
bit_is_gone name (i ∷ q) = not (strcaseeq i.name name) && bit_is_gone name q

unfoldable pub old_bits : List Bitidx → List Bitidx → ItemDiff → ItemDiff
unfolding bit_is_gone emit_if
old_bits [] into d = d
old_bits (f ∷ from) into d =
    let g = bit_is_gone f.name into in
    old_bits from into (record { q = emit_if g (del_bitidx f) d.q; modified = d.modified || g })

unfoldable pub labels_differ : Bitf → Bitf → Bool
labels_differ f i =
    not (ort_check_labels f.labels_unset i.labels_unset)
    || not (ort_check_labels f.labels_null i.labels_null)

unfoldable pub ort_diff_bitf : List Diff → Bitf → Bitf → List Diff
unfolding new_bits old_bits ort_check_comment emit_if
ort_diff_bitf q f i =
    let d = old_bits f.bq i.bq (new_bits f.bq i.bq (record { q = q; modified = false })) in
    let c = not (ort_check_comment f.doc i.doc) in
    let l = labels_differ f i in
    let q2 = emit_if l (mod_bitf_labels f i) (emit_if c (mod_bitf_comment f i) d.q) in
    q2 ++ (if d.modified || c || l then mod_bitf f i else same_bitf f i) ∷ []

unfoldable pub find_bitf : Bytes → List Bitf → Option Bitf
find_bitf name [] = none
find_bitf name (e ∷ q) = if strcaseeq e.name name then some e else find_bitf name q

unfoldable pub diff_or_add_bitf : List Diff → Option Bitf → Bitf → List Diff
unfolding ort_diff_bitf
diff_or_add_bitf q none i = q ++ add_bitf i ∷ []
diff_or_add_bitf q (some f) i = ort_diff_bitf q f i

unfoldable pub new_bitfs : List Bitf → List Bitf → List Diff → List Diff
unfolding diff_or_add_bitf find_bitf
new_bitfs from [] q = q
new_bitfs from (i ∷ into) q = new_bitfs from into (diff_or_add_bitf q (find_bitf i.name from) i)

unfoldable pub has_bitf : Bytes → List Bitf → Bool
has_bitf name [] = false
has_bitf name (e ∷ q) = strcaseeq name e.name || has_bitf name q

unfoldable pub old_bitfs : List Bitf → List Bitf → List Diff → List Diff
unfolding has_bitf emit_if
old_bitfs [] into q = q
old_bitfs (f ∷ from) into q =
    old_bitfs from into (emit_if (not (has_bitf f.name into)) (del_bitf f) q)

unfoldable pub ort_diff_bitfs : List Diff → Config → Config → List Diff
unfolding new_bitfs old_bitfs
ort_diff_bitfs q from into =
    let f = map from.bitf from.bq in
    let i = map into.bitf into.bq in old_bitfs f i (new_bitfs f i q)
