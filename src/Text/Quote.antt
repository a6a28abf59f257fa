-- ===== src/Text/Quote.antt =====
-- `find_quote` of src/app/domain/text.py.
pub mod Offsets
pub mod Find
pub mod Place
pub mod Sound
pub mod Complete
use ai_text.Prelude.{
  ℕ, zero, suc, ◌+◌, ◌-◌, Bool, true, false, ◌&&◌, not, Option, none, some, List, [], ◌∷◌, ◌++◌,
  map, ltb, leb, ◌==◌, if◌then◌else◌, drop, length, get_elem?,
}
use ai_text.Text.Unicode.{Unicode, Text, drop_spaces}
use ai_text.Text.Normalize.{Pairs, count_spaces, normalize_with_map}

abbrev pub min_quote_chars : ℕ
min_quote_chars = 12

abbrev pub max_elided_span : ℕ
max_elided_span = 2000

pub record Match : Type 0 where
  pub start : ℕ
  pub end : ℕ

-- `None`, a match, or what the code would do otherwise: raise `IndexError`, or not end.
pub data Found : Type 0 where
  absent : Found
  found : Match → Found
  index_error out_of_fuel : Found

unfoldable pub starts_with : Text → Text → Bool
starts_with [] t = true
starts_with (c ∷ p) [] = false
starts_with (c ∷ p) (d ∷ t) = d == c && starts_with p t

unfoldable pub find_from : Text → ℕ → Text → Option ℕ
unfolding starts_with
find_from p i [] = if starts_with p [] then some i else none
find_from p i (c ∷ t) =
    let rest = find_from p (i + 1) t in if starts_with p (c ∷ t) then some i else rest

-- `text.find(part, start)`
unfoldable pub find : Text → Text → ℕ → Option ℕ
unfolding find_from
find t part start = find_from part start (drop start t)

-- `Match(index[first], index[cursor - 1] + 1)`
unfoldable pub match_at : Pairs → ℕ → ℕ → Found
match_at norm first cursor = elim (get_elem? norm first) [
  | none ↦ index_error
  | some (c, start) ↦ elim (get_elem? norm (cursor - 1)) [
    | none ↦ index_error
    | some (d, last) ↦ found (record { start = start; end = last + 1 })
  ]
]

abbrev pub chars : Pairs → Text
chars norm = map (λ p. p.0) norm

-- The loop over `parts[1:]`: where the last part ends.
unfoldable pub place_rest : Text → List Text → ℕ → Option ℕ
place_rest hay [] cursor = some cursor
place_rest hay (part ∷ parts) cursor = elim (find hay part cursor) [
  | none ↦ none
  | some pos ↦ place_rest hay parts (pos + length part)
]

-- `end - start <= _MAX_ELIDED_SPAN`
abbrev pub in_span : Found → Bool
in_span (found m) = leb (m.end - m.start) max_elided_span
in_span _ = true

-- One round of the `while` loop of an elided quote: with the end of the last part, if they all stand
-- in order, and with the place of the first part. `next` is the loop from an offset on.
unfoldable pub elided_placed : Pairs → ℕ → Found → Option ℕ → Found
elided_placed norm first next none = absent
elided_placed norm first next (some cursor) =
    let m = match_at norm first cursor in if in_span m then m else next

unfoldable pub elided_found : Pairs → Text → List Text → (ℕ → Found) → Option ℕ → Found
unfolding elided_placed place_rest
elided_found norm part parts next none = absent
elided_found norm part parts next (some first) =
    elided_placed norm first (next (first + 1))
      (place_rest (chars norm) parts (first + length part))

-- The loop, one round for each unit of fuel.
unfoldable pub find_elided : ℕ → Pairs → Text → List Text → ℕ → Found
unfolding elided_found
find_elided zero norm part parts search_from = out_of_fuel
find_elided (suc fuel) norm part parts search_from =
    elided_found norm part parts (find_elided fuel norm part parts)
      (find (chars norm) part search_from)

unfoldable pub find_single : Pairs → Text → Option ℕ → Found
unfolding match_at
find_single norm part none = absent
find_single norm part (some pos) = match_at norm pos (pos + length part)

unfoldable pub find_parts : Pairs → List Text → Found
unfolding find_elided find_single
find_parts norm [] = absent
find_parts norm (part ∷ []) = find_single norm part (find (chars norm) part 0)
find_parts norm (part ∷ parts) = find_elided (length norm + 1) norm part parts 0

abbrev pub total_chars : List Text → ℕ
total_chars [] = 0
total_chars (p ∷ ps) = length p + total_chars ps

abbrev pub keep_filled : List Text → List Text
keep_filled [] = []
keep_filled ([] ∷ ps) = keep_filled ps
keep_filled ((c ∷ p) ∷ ps) = (c ∷ p) ∷ keep_filled ps

module _ (u : Unicode) where
  -- `str.rstrip`
  unfoldable pub drop_last_spaces : Text → Text
  drop_last_spaces [] = []
  drop_last_spaces (c ∷ t) = elim (drop_last_spaces t) [
    | [] ↦ if u.is_space c then [] else c ∷ []
    | d ∷ r ↦ c ∷ d ∷ r
  ]

  unfoldable pub normalize : Text → Text
  unfolding drop_spaces drop_last_spaces normalize_with_map
  normalize t = drop_last_spaces (drop_spaces u (chars (normalize_with_map u t)))

  -- The length of a match of `_ELLIPSIS_SPLIT` at the head of a text.
  unfoldable separator : Text → Option ℕ
  unfolding count_spaces starts_with
  separator t =
      let after = drop (count_spaces u t) t in
      if starts_with (0x2e ∷ 0x2e ∷ 0x2e ∷ []) after
      then some (count_spaces u t + 3 + count_spaces u (drop 3 after))
      else if starts_with (0x2026 ∷ []) after
      then some (count_spaces u t + 1 + count_spaces u (drop 1 after))
      else none

  -- `_ELLIPSIS_SPLIT.split`, `current` being the piece before this place.
  unfoldable split_from : ℕ → Text → Text → List Text
  unfolding separator
  split_from jump current [] = current ∷ []
  split_from (suc jump) current (c ∷ t) = split_from jump current t
  split_from zero current (c ∷ t) = elim (separator (c ∷ t)) [
    | some n ↦ current ∷ split_from (n - 1) [] t
    | none ↦ split_from zero (current ++ c ∷ []) t
  ]

  unfoldable pub pieces : Text → List Text
  unfolding split_from normalize
  pieces quote = map normalize (split_from 0 [] quote)

  unfoldable pub quote_parts : Text → List Text
  unfolding pieces
  quote_parts quote = keep_filled (pieces quote)

  unfoldable pub find_quote : Text → Text → Found
  unfolding quote_parts find_parts normalize_with_map
  find_quote haystack quote =
      let parts = quote_parts quote in
      if ltb (total_chars parts) min_quote_chars
      then absent
      else find_parts (normalize_with_map u haystack) parts
