-- ===== src/Text/Quote/Sound.antt =====
-- What `find_quote` of src/app/domain/text.py returns, on every path: it ends, its look-ups succeed,
-- and a match is a real place of the text.
use ai_text.Prelude.{
  ℕ, zero, suc, ◌+◌, ◌-◌, ◌≤◌, ◌<◌, ◌≡◌, refl, subst, sym, Bool, true, false, Option, none, some,
  List, [], ◌∷◌, arith, length, ltb, leb, leb→le, if◌then◌else◌, All,
}
use ai_text.Text.Unicode.{Unicode, Text}
use ai_text.Text.Normalize.{Pairs, normalize_with_map}
use ai_text.Text.Quote.{
  Match, Found, absent, found, max_elided_span, find, chars, place_rest, in_span, elided_placed,
  elided_found, find_elided, find_single, total_chars, min_quote_chars, find_parts, keep_filled,
  pieces, quote_parts, find_quote,
}
use ai_text.Text.Quote.Offsets.{IsAscending, normalize_with_map-IsAscending}
use ai_text.Text.Quote.Find.{Occurs, find-Occurs}
use ai_text.Text.Quote.Place.{
  InOrder, IsSpan, IsPlace, IsGood, length-chars, place_rest-InOrder, IsLookedUp,
  match_at-IsLookedUp,
}

module _ (norm : Pairs) (size : ℕ) (asc : IsAscending 0 size norm) where
  place :
      (p : Text) (ps : List Text) (first cursor : ℕ) (m : Match)
      → Occurs (chars norm) p first
      → InOrder (chars norm) ps (first + length p) cursor
      → IsLookedUp norm size first cursor m
      → IsSpan (p ∷ ps) m
      → IsPlace norm size (p ∷ ps) m
  place p ps first cursor m here order up span = record {
    first = first;
    cursor = cursor;
    stand = (here, order);
    starts = up.starts;
    ends = up.ends;
    filled = up.filled;
    inside = up.inside;
    span = span;
  }

  in_span-IsGood :
      (p q : Text) (ps : List Text) (first cursor : ℕ) (next : Found)
      → Occurs (chars norm) p first
      → InOrder (chars norm) (q ∷ ps) (first + length p) cursor
      → IsGood norm size (p ∷ q ∷ ps) next
      → (b : Bool) (m : Match) → IsLookedUp norm size first cursor m
      → leb (m.end - m.start) max_elided_span ≡ b
      → IsGood norm size (p ∷ q ∷ ps) (if b then found m else next)
  in_span-IsGood p q ps first cursor next here order good true m up le =
      place p (q ∷ ps) first cursor m here order up (leb→le _ _ le)
  in_span-IsGood p q ps first cursor next here order good false m up gt = good

  elided_placed-IsGood :
      (p q : Text) (ps : List Text) (first : ℕ) (next : Found) (o : Option ℕ)
      → 0 < length p
      → Occurs (chars norm) p first
      → place_rest (chars norm) (q ∷ ps) (first + length p) ≡ o
      → IsGood norm size (p ∷ q ∷ ps) next
      → IsGood norm size (p ∷ q ∷ ps) (elided_placed norm first next o)
  unfolding elided_placed
  elided_placed-IsGood p q ps first next none filled here placed good = tt
  elided_placed-IsGood p q ps first next (some cursor) filled here placed good =
      let (order, low, high) =
        place_rest-InOrder (chars norm) (q ∷ ps) (first + length p) cursor here.inside placed in
      let (m, up) =
        match_at-IsLookedUp norm size first cursor asc (omega (arith, low, filled))
          (omega (arith, high, length-chars norm)) in
      subst (λ f. IsGood norm size (p ∷ q ∷ ps) (if in_span f then f else next)) (sym up.made)
        (in_span-IsGood p q ps first cursor next here order good _ m up refl)

  elided_found-IsGood :
      (p q : Text) (ps : List Text) (search_from : ℕ) (next : ℕ → Found) (o : Option ℕ)
      → 0 < length p
      → search_from ≤ length norm
      → find (chars norm) p search_from ≡ o
      → ((s : ℕ) → search_from < s → s ≤ length norm → IsGood norm size (p ∷ q ∷ ps) (next s))
      → IsGood norm size (p ∷ q ∷ ps) (elided_found norm p (q ∷ ps) next o)
  unfolding elided_found
  elided_found-IsGood p q ps search_from next none filled le hit good = tt
  elided_found-IsGood p q ps search_from next (some first) filled le hit good =
      let (low, here, _) =
        find-Occurs (chars norm) p search_from first (omega (arith, le, length-chars norm)) hit in
      elided_placed-IsGood p q ps first (next (first + 1)) _ filled here refl (
        good (first + 1) (omega (arith, low))
          (omega (arith, here.inside, filled, length-chars norm)))

  find_elided-IsGood :
      (fuel : ℕ) (p q : Text) (ps : List Text) (search_from : ℕ)
      → 0 < length p
      → search_from ≤ length norm
      → length norm < fuel + search_from
      → IsGood norm size (p ∷ q ∷ ps) (find_elided fuel norm p (q ∷ ps) search_from)
  unfolding find_elided
  find_elided-IsGood zero p q ps search_from filled le fuel_left = absurd (omega arith)
  find_elided-IsGood (suc fuel) p q ps search_from filled le fuel_left =
      elided_found-IsGood p q ps search_from (find_elided fuel norm p (q ∷ ps)) _ filled le refl
        (λ s low high. find_elided-IsGood fuel p q ps s filled high (omega (arith, low, fuel_left)))

  find_single-IsGood :
      (p : Text) (o : Option ℕ)
      → 0 < length p
      → find (chars norm) p 0 ≡ o
      → IsGood norm size (p ∷ []) (find_single norm p o)
  unfolding find_single
  find_single-IsGood p none filled hit = tt
  find_single-IsGood p (some first) filled hit =
      let (low, here, _) = find-Occurs (chars norm) p 0 first (omega arith) hit in
      let (m, up) =
        match_at-IsLookedUp norm size first (first + length p) asc (omega (arith, filled))
          (omega (arith, here.inside, length-chars norm)) in
      subst (IsGood norm size (p ∷ [])) (sym up.made)
        (place p [] first (first + length p) m here refl up tt)

  find_parts-IsGood :
      (parts : List Text)
      → All (λ p. 0 < length p) parts
      → IsGood norm size parts (find_parts norm parts)
  unfolding find_parts
  find_parts-IsGood [] filled = tt
  find_parts-IsGood (p ∷ []) filled = find_single-IsGood p _ filled.0 refl
  find_parts-IsGood (p ∷ q ∷ ps) filled =
      find_elided-IsGood (length norm + 1) p q ps 0 filled.0 (omega arith) (omega arith)

keep_filled-filled : (ps : List Text) → All (λ p. 0 < length p) (keep_filled ps)
keep_filled-filled [] = tt
keep_filled-filled ([] ∷ ps) = keep_filled-filled ps
keep_filled-filled ((c ∷ p) ∷ ps) = (omega arith, keep_filled-filled ps)

pub quote_parts-filled :
    (u : Unicode) (quote : Text) → All (λ p. 0 < length p) (quote_parts u quote)
unfolding quote_parts
quote_parts-filled u quote = keep_filled-filled (pieces u quote)

-- Whatever the text and the quote are, the search ends and no look-up of an offset fails. If it
-- finds a match, the normal form of the text holds the normalised parts of the quote one after
-- another, and the match is the fragment that they come from: it is not empty, ends within the text,
-- and is at most 2000 characters long if the quote has an elision.
pub find_quote-IsGood :
    (u : Unicode) (haystack quote : Text)
    → IsGood
        (normalize_with_map u haystack)
        (length haystack)
        (quote_parts u quote)
        (find_quote u haystack quote)
unfolding find_quote
find_quote-IsGood u haystack quote =
    by_size (ltb (total_chars (quote_parts u quote)) min_quote_chars)
  where
    by_size :
        (b : Bool)
        → IsGood
            (normalize_with_map u haystack)
            (length haystack)
            (quote_parts u quote)
            (if b then absent else find_parts (normalize_with_map u haystack) (quote_parts u quote))
    by_size true = tt
    by_size false =
        find_parts-IsGood (normalize_with_map u haystack) (length haystack)
          (normalize_with_map-IsAscending u haystack) (quote_parts u quote)
          (quote_parts-filled u quote)
