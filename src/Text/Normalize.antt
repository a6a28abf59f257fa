-- ===== src/Text/Normalize.antt =====
-- `normalize_with_map` of src/app/domain/text.py. The two lists that it builds side by side are one
-- list of pairs, a character and its index in the text.
use ai_text.Prelude.{
  ℕ, zero, suc, ◌+◌, Bool, true, false, ◌&&◌, ◌||◌, Option, none, some, List, [], ◌∷◌, ◌++◌, map,
  ◌==◌, if◌then◌else◌, drop,
}
use ai_text.Text.Unicode.{Unicode, Text, space, newline, hyphen}

unfoldable pub is_in : ℕ → List ℕ → Bool
is_in c [] = false
is_in c (d ∷ l) = if d == c then true else is_in c l

-- The keys of `_QUOTES` by their value, `_DASHES`, `_SOFT_HYPHEN`, and the letter that is read as е.
abbrev double_quotes : List ℕ
double_quotes = 0xab ∷ 0xbb ∷ 0x201c ∷ 0x201d ∷ 0x201e ∷ 0x201f ∷ 0x2033 ∷ []

abbrev single_quotes : List ℕ
single_quotes = 0x2018 ∷ 0x2019 ∷ 0x201a ∷ 0x201b ∷ 0x2032 ∷ 0x60 ∷ []

abbrev dashes : List ℕ
dashes =
    0x2010 ∷ 0x2011 ∷ 0x2012 ∷ 0x2013 ∷ 0x2014 ∷ 0x2015 ∷ 0x2212 ∷ 0xfe58 ∷ 0xfe63 ∷ 0xff0d ∷ []

abbrev soft_hyphen : ℕ
soft_hyphen = 0xad

-- `mapped.replace("ё", "е")`
abbrev without_yo : ℕ → ℕ
without_yo c = if c == 0x451 then 0x435 else c

-- A prefix of `k` white spaces holds a line break.
unfoldable breaks_line : ℕ → Text → Bool
breaks_line zero t = false
breaks_line (suc k) [] = false
breaks_line (suc k) (c ∷ t) = c == newline || breaks_line k t

abbrev pub Pairs : Type 0
Pairs = List (ℕ × ℕ)

-- `out[-1]`
unfoldable pub last_char : Option ℕ → Pairs → Option ℕ
last_char last [] = last
last_char last ((c, i) ∷ out) = last_char (some c) out

-- One round of the loop: what it appends, and how many of the next characters it jumps over.
pub record Round : Type 0 where
  pub out : Pairs
  pub jump : ℕ

module _ (u : Unicode) where
  -- `_map_char`
  unfoldable pub map_char : ℕ → Text
  unfolding is_in
  map_char c =
      if is_in c double_quotes
      then 0x22 ∷ []
      else if is_in c single_quotes
      then 0x27 ∷ []
      else if is_in c dashes
      then hyphen ∷ []
      else if u.is_space c
      then space ∷ []
      else map without_yo (u.nfkc_lower c)

  unfoldable pub count_spaces : Text → ℕ
  count_spaces [] = 0
  count_spaces (c ∷ t) = let rest = suc (count_spaces t) in if u.is_space c then rest else 0

  abbrev alpha_last : Option ℕ → Bool
  alpha_last none = false
  alpha_last (some c) = u.is_alpha c

  abbrev goes_on : Text → Bool
  goes_on [] = false
  goes_on (c ∷ t) = u.is_alpha c && u.is_lower c

  -- A hyphen at a line break inside a word: jump to where the word goes on.
  unfoldable word_break : ℕ → Option ℕ → Text → Bool
  unfolding breaks_line count_spaces
  word_break c last t =
      c == hyphen
      && alpha_last last
      && breaks_line (count_spaces t) t
      && goes_on (drop (count_spaces t) t)

  abbrev is_one_space : Text → Bool
  is_one_space (c ∷ []) = c == space
  is_one_space _ = false

  abbrev ends_open : Option ℕ → Bool
  ends_open none = false
  ends_open (some c) = if c == space then false else true

  unfoldable pub appended : ℕ → Option ℕ → ℕ → Pairs
  unfolding map_char
  appended c last i =
      if is_one_space (map_char c)
      then if ends_open last then (space, i) ∷ [] else []
      else map (λ d. (d, i)) (map_char c)

  unfoldable pub round : ℕ → ℕ → Option ℕ → Text → Round
  unfolding word_break appended
  round i c last t =
      if c == soft_hyphen
      then record { out = []; jump = 0 }
      else if word_break c last t
      then record { out = []; jump = count_spaces t }
      else record { out = appended c last i; jump = 0 }

  -- The loop from index `i` on; the next `jump` characters are passed over.
  unfoldable pub normalize_from : ℕ → ℕ → Option ℕ → Text → Pairs
  unfolding round last_char
  normalize_from jump i last [] = []
  normalize_from (suc jump) i last (c ∷ t) = normalize_from jump (i + 1) last t
  normalize_from zero i last (c ∷ t) =
      let r = round i c last t in r.out ++ normalize_from r.jump (i + 1) (last_char last r.out) t

  unfoldable pub normalize_with_map : Text → Pairs
  unfolding normalize_from
  normalize_with_map t = normalize_from 0 0 none t
