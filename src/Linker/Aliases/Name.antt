-- ===== src/Linker/Aliases/Name.antt =====
-- The alias of the n-th reference in linker_aliases_create: `_` and one to three characters.
pub mod Laws
use openradtool.Base.{ℕ, ◌+◌, ◌/◌, ◌%◌, [], ◌∷◌, Bytes, c_string, leb, ◌==◌, if◌then◌else◌}

abbrev pub alias_limit : ℕ
alias_limit = 17576

-- The byte that `%c` prints for `(char)n + 97`.
letter : ℕ → ℕ
letter n = (n % 256 + 97) % 256

unfoldable pub alias_name : ℕ → Bytes
unfolding letter c_string
alias_name offs =
    if leb 676 offs
    then c_string (b'_' ∷ letter (offs / 26 / 26) ∷ letter (offs / 26) ∷ letter (offs % 26) ∷ [])
    else if leb 26 offs
    then c_string (b'_' ∷ letter (offs / 26) ∷ letter (offs % 26) ∷ [])
    else c_string (b'_' ∷ letter offs ∷ [])
