-- ===== src/Tests/Comparing.antt =====
-- The theorems on the difference of configurations, applied to two small ones.
use openradtool.Base.{
  List, ℕ, ◌≡◌, refl, true, false, none, some, [], ◌∷◌, Bytes, codes, strcaseeq, to_lower, Pairwise,
  pos,
}
use openradtool.Model.{Eitem, Enm, Config, Bitidx, Bitf}
use openradtool.Parser.Enum.Items.{NamesApart}
use openradtool.Diff.{ort_diff_enms}
use openradtool.Diff.Enums.{all_same}
use openradtool.Diff.Bitfields.{labels_differ, ort_diff_bitfs}
use openradtool.Diff.Itself.{ort_diff_enms_refl}
use openradtool.Tests.{whole, here}

abbrev item : Bytes → ℕ → Eitem
item name n = record {
  name = name;
  value = pos n;
  doc = some (codes "an item");
  labels = [];
  pos = here;
  auto = false;
}

abbrev sex : ℕ → Enm
sex n = record {
  name = codes "sex";
  doc = none;
  pos = here;
  labels_null = record { label = codes "unknown"; lang = 0; pos = here } ∷ [];
  eq = item (codes "male") 1 ∷ item (codes "female") n ∷ [];
}

abbrev before : Config
before = record whole { eq = 0 ∷ []; enm = λ _. sex 2 }

-- One item has another value.
abbrev later : Config
later = record whole { eq = 0 ∷ []; enm = λ _. sex 3 }

later-differs : all_same (ort_diff_enms [] before later) ≡ false
unfolding all_same ort_diff_enms strcaseeq to_lower
later-differs = refl

items-NamesApart : Pairwise NamesApart (sex 2).eq
unfolding strcaseeq to_lower
items-NamesApart = ((refl, tt), (tt, tt))

ort_diff_enms_refl_example : all_same (ort_diff_enms [] before before) ≡ true
ort_diff_enms_refl_example = ort_diff_enms_refl before (tt, tt) (items-NamesApart, tt)

abbrev perm : List Bitidx → Bitf
perm bq = record {
  name = codes "perm";
  doc = none;
  labels_unset = [];
  labels_null = [];
  pos = here;
  bq = bq;
}

abbrev bit : Bytes → ℕ → Bitidx
bit name n = record { name = name; doc = none; labels = []; value = pos n; pos = here }

abbrev few : Config
few = record whole { bq = 0 ∷ []; bitf = λ _. perm (bit (codes "read") 0 ∷ []) }

abbrev more : Config
more = record whole {
  bq = 0 ∷ [];
  bitf = λ _. perm (bit (codes "read") 0 ∷ bit (codes "write") 1 ∷ []);
}

more-differs : all_same (ort_diff_bitfs [] few more) ≡ false
unfolding all_same ort_diff_bitfs labels_differ strcaseeq to_lower
more-differs = refl
