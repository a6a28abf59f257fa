-- ===== src/Text/Quote/Complete.antt =====
-- Which quotes `find_quote` of src/app/domain/text.py accepts.
use ai_text.Prelude.{
  ℕ, zero, suc, ◌+◌, ◌-◌, ◌≤◌, ◌<◌, ◌≡◌, refl, ◌∙◌, subst, sym, Bool, true, false, some, List, [],
  ◌∷◌, arith, length, get_elem?, drop, ltb, ltb→lt, All, le→leb, if◌then◌else◌, Bool-cases,
  Option-cases, inl, inr, ◌⊎◌,
}
use ai_text.Text.Unicode.{Unicode, Text}
use ai_text.Text.Normalize.{Pairs, normalize_with_map}
use ai_text.Text.Quote.{
  Match, Found, absent, found, index_error, out_of_fuel, max_elided_span, min_quote_chars,
  starts_with, find, chars, place_rest, in_span, elided_placed, elided_found, find_elided,
  find_single, find_parts, total_chars, quote_parts, find_quote,
}
use ai_text.Text.Quote.Offsets.{IsAscending, normalize_with_map-IsAscending, get_elem?-mono}
use ai_text.Text.Quote.Find.{Occurs, find-Occurs, find-none}
use ai_text.Text.Quote.Place.{
  InOrder, StandAt, IsGood, match_at-IsLookedUp, IsLookedUp, place_rest-InOrder, length-chars,
}
use ai_text.Text.Quote.Sound.{find_quote-IsGood, quote_parts-filled}

-- The place found first, and that it is no later than one that is there.
find_no_later :
    (t p : Text) (start at : ℕ)
    → start ≤ length t
    → start ≤ at
    → starts_with p (drop at t) ≡ true
    → (pos : ℕ) × (find t p start ≡ some pos) × (start ≤ pos) × Occurs t p pos × (pos ≤ at)
find_no_later t p start at le low here = elim (Option-cases (find t p start)) [
  | inl missing ↦ absurd (ground (arith, find-none t p start missing at low))
  | inr (pos, hit) ↦
      let (low', there, leftmost) = find-Occurs t p start pos le hit in
      (pos, hit, low', there, grind (arith, leftmost at low))
]

place_rest_step :
    (t p : Text) (ps : List Text) (start pos : ℕ)
    → find t p start ≡ some pos
    → place_rest t (p ∷ ps) start ≡ place_rest t ps (pos + length p)
unfolding place_rest
place_rest_step t p ps start pos hit = ground arith

-- The greedy placement ends no later than any other.
greedy :
    (t : Text) (ps : List Text) (start cursor end : ℕ)
    → start ≤ length t
    → start ≤ cursor
    → InOrder t ps cursor end
    → (e : ℕ) × (place_rest t ps start ≡ some e) × (e ≤ end)
unfolding place_rest
greedy t [] start cursor end inside le order = (start, refl, omega (arith, order, le))
greedy t (p ∷ ps) start cursor end inside le (at, low, here, order) =
    let (pos, hit, _, there, early) =
      find_no_later t p start at inside (omega (arith, low, le)) here.here in
    let (e, placed, e_le) =
      greedy t ps (pos + length p) (at + length p) end there.inside (omega (arith, early)) order in
    (e, place_rest_step t p ps start pos hit ∙ placed, e_le)

-- A quote with an elision is not too long here, in the text as it is.
abbrev pub IsWithin : Pairs → List Text → ℕ → ℕ → Type 0
IsWithin norm (p ∷ q ∷ ps) first cursor =
    (c : ℕ × ℕ) × (d : ℕ × ℕ) × (get_elem? norm first ≡ some c)
    × (get_elem? norm (cursor - 1) ≡ some d)
    × (d.1 + 1 - c.1 ≤ max_elided_span)
IsWithin norm _ first cursor = Unit

long_enough : (n k : ℕ) → k ≤ n → ltb n k ≡ false
long_enough n k h = ground arith

abbrev IsMade : Found → Type 0
IsMade absent = ⊥
IsMade _ = Unit

if-IsMade : (b : Bool) (m next : Found) → IsMade m → IsMade next → IsMade (if b then m else next)
if-IsMade true m next h k = h
if-IsMade false m next h k = k

module _ (norm : Pairs) (size : ℕ) (asc : IsAscending 0 size norm) where
  -- The match of the greedy placement starts with the other, ends no later, and so is within too.
  greedy_within :
      (p q : Text) (ps : List Text) (first cursor end : ℕ)
      → cursor ≤ end
      → (c : ℕ × ℕ) → get_elem? norm first ≡ some c
      → (d : ℕ × ℕ) → get_elem? norm (cursor - 1) ≡ some d
      → IsWithin norm (p ∷ q ∷ ps) first end
      → d.1 + 1 - c.1 ≤ max_elided_span
  greedy_within p q ps first cursor end le c hc d hd (c', d', hc', hd', span) =
      let low =
        get_elem?-mono 0 size norm (cursor - 1) (end - 1) d d' asc (omega (arith, le)) hd hd' in
      grind (arith, low, hc, hc', span)

  placed-IsMade :
      (first cursor : ℕ) (next : Found)
      → first < cursor
      → cursor ≤ length norm
      → ((m : Match)
          → IsLookedUp norm size first cursor m
          → (m.end - m.start ≤ max_elided_span) ⊎ IsMade next)
      → IsMade (elided_placed norm first next (some cursor))
  unfolding elided_placed
  placed-IsMade first cursor next low high either =
      let (m, up) = match_at-IsLookedUp norm size first cursor asc low high in
      subst (λ f. IsMade (if in_span f then f else next)) (sym up.made)
        (elim (either m up) [
          | inl span ↦ rw (le→leb (m.end - m.start) max_elided_span span) tt
          | inr made ↦ if-IsMade (in_span (found m)) (found m) next tt made
        ])

  -- With the parts in order at `first'`, a search from no later offset is made.
  found-IsMade :
      (p q : Text) (ps : List Text) (search_from first' end : ℕ) (next : ℕ → Found)
      → 0 < length p
      → search_from ≤ length norm
      → search_from ≤ first'
      → StandAt (chars norm) (p ∷ q ∷ ps) first' end
      → IsWithin norm (p ∷ q ∷ ps) first' end
      → ((s : ℕ) → search_from < s → s ≤ first' → IsMade (next s))
      → IsMade (elided_found norm p (q ∷ ps) next (find (chars norm) p search_from))
  unfolding elided_found
  found-IsMade p q ps search_from first' end next filled inside le (here, order) within later =
      let size_eq = length-chars norm in
      let (first, hit, low, there, early) =
        find_no_later (chars norm) p search_from first' (omega (arith, inside, size_eq)) le
          here.here in
      let (cursor, placed, e_le) =
        greedy (chars norm) (q ∷ ps) (first + length p) (first' + length p) end there.inside
          (omega (arith, early)) order in
      let (order', c_low, c_high) =
        place_rest-InOrder (chars norm) (q ∷ ps) (first + length p) cursor there.inside placed in
      subst (λ o. IsMade (elided_found norm p (q ∷ ps) next o)) (sym hit)
        (subst (λ o. IsMade (elided_placed norm first (next (first + 1)) o)) (sym placed)
          (placed-IsMade first cursor (next (first + 1)) (omega (arith, c_low, filled))
            (omega (arith, c_high, size_eq))
            (λ m up. elim (Bool-cases (ltb first first')) [
              | inl before ↦ inr (
                  later (first + 1) (omega (arith, low))
                    (omega (arith, ltb→lt first first' before)))
              | inr not_before ↦
                  let same : first ≡ first' = ground arith in
                  let (c, start) = up.starts in
                  let (d, last, got, e) = up.ends in
                  let span =
                    greedy_within p q ps first' cursor end e_le (c, m.start)
                      (subst (λ k. get_elem? norm k ≡ some (c, m.start)) same start) (d, last) got
                      within in
                  inl (omega (arith, span, e))
            ])))

  elided-IsMade :
      (fuel : ℕ) (p q : Text) (ps : List Text) (search_from first' end : ℕ)
      → 0 < length p
      → search_from ≤ first'
      → StandAt (chars norm) (p ∷ q ∷ ps) first' end
      → IsWithin norm (p ∷ q ∷ ps) first' end
      → IsMade (find_elided fuel norm p (q ∷ ps) search_from)
  unfolding find_elided
  elided-IsMade zero p q ps search_from first' end filled le stand within = tt
  elided-IsMade (suc fuel) p q ps search_from first' end filled le stand within =
      found-IsMade p q ps search_from first' end (find_elided fuel norm p (q ∷ ps)) filled
        (omega (arith, stand.0.inside, length-chars norm, le)) le stand within
        (λ s low high. elided-IsMade fuel p q ps s first' end filled high stand within)

  single-IsMade :
      (p : Text) (first end : ℕ)
      → 0 < length p
      → StandAt (chars norm) (p ∷ []) first end
      → IsMade (find_single norm p (find (chars norm) p 0))
  unfolding find_single
  single-IsMade p first end filled (here, order) =
      let (pos, hit, low, there, early) =
        find_no_later (chars norm) p 0 first (omega arith) (omega arith) here.here in
      let (m, up) =
        match_at-IsLookedUp norm size pos (pos + length p) asc (omega (arith, filled))
          (omega (arith, there.inside, length-chars norm)) in
      subst (λ o. IsMade (find_single norm p o)) (sym hit) (subst IsMade (sym up.made) tt)

  parts-IsMade :
      (parts : List Text) (first end : ℕ)
      → All (λ p. 0 < length p) parts
      → StandAt (chars norm) parts first end
      → IsWithin norm parts first end
      → IsMade (find_parts norm parts)
  unfolding find_parts
  parts-IsMade [] first end filled stand within = absurd stand
  parts-IsMade (p ∷ []) first end filled stand within = single-IsMade p first end filled.0 stand
  parts-IsMade (p ∷ q ∷ ps) first end filled stand within =
      elided-IsMade (length norm + 1) p q ps 0 first end filled.0 (omega arith) stand within

made_is_found :
    (norm : Pairs) (size : ℕ) (parts : List Text) (f : Found)
    → IsGood norm size parts f
    → IsMade f
    → (m : Match) × (f ≡ found m)
made_is_found norm size parts absent good made = absurd made
made_is_found norm size parts (found m) good made = (m, refl)
made_is_found norm size parts index_error good made = absurd good
made_is_found norm size parts out_of_fuel good made = absurd good

-- A quote of at least 12 characters is found whenever its normalised parts stand one after another
-- in the normal form of the text, within 2000 characters of the text if it has an elision.
pub find_quote_complete :
    (u : Unicode) (haystack quote : Text) (first end : ℕ)
    → min_quote_chars ≤ total_chars (quote_parts u quote)
    → StandAt (chars (normalize_with_map u haystack)) (quote_parts u quote) first end
    → IsWithin (normalize_with_map u haystack) (quote_parts u quote) first end
    → (m : Match) × (find_quote u haystack quote ≡ found m)
unfolding find_quote
find_quote_complete u haystack quote first end long stand within =
    let norm = normalize_with_map u haystack in
    made_is_found norm (length haystack) (quote_parts u quote) (find_quote u haystack quote)
      (find_quote-IsGood u haystack quote)
      (rw (long_enough _ _ long) (
        parts-IsMade norm (length haystack) (normalize_with_map-IsAscending u haystack)
          (quote_parts u quote) first end (quote_parts-filled u quote) stand within))
