-- ===== src/Text/Unicode.antt =====
-- `str.isspace`, `str.isalpha` and `str.islower` of one character, and
-- `unicodedata.normalize("NFKC", c).lower()`: tables of the Unicode standard. `\s` of a regular
-- expression is `isspace`.
use ai_text.Prelude.{ℕ, Bool, List, [], ◌∷◌, if◌then◌else◌}

pub record Unicode : Type 0 where
  pub is_space : ℕ → Bool
  pub is_alpha : ℕ → Bool
  pub is_lower : ℕ → Bool
  pub nfkc_lower : ℕ → List ℕ

-- A text, by its code points.
abbrev pub Text : Type 0
Text = List ℕ

abbrev pub space : ℕ
space = 0x20

abbrev pub newline : ℕ
newline = 0x0a

abbrev pub hyphen : ℕ
hyphen = 0x2d

module _ (u : Unicode) where
  -- `str.lstrip`
  unfoldable pub drop_spaces : Text → Text
  drop_spaces [] = []
  drop_spaces (c ∷ t) = let rest = drop_spaces t in if u.is_space c then rest else c ∷ t
