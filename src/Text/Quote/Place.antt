-- ===== src/Text/Quote/Place.antt =====
-- Where the parts of a quote stand (src/app/domain/text.py), and what `find_quote` may return.
use ai_text.Prelude.{
  ℕ, ◌+◌, ◌-◌, ◌≤◌, ◌<◌, ◌≡◌, refl, some, List, [], ◌∷◌, arith, length, get_elem?, Option-cases,
  inl, inr,
}
use ai_text.Text.Unicode.{Text}
use ai_text.Text.Normalize.{Pairs}
use ai_text.Text.Quote.{
  Match, Found, absent, found, index_error, out_of_fuel, max_elided_span, find, match_at, chars,
  place_rest,
}
use ai_text.Text.Quote.Offsets.{IsAscending, get_elem?-IsPair, get_elem?-mono}
use ai_text.Text.Quote.Find.{Occurs, find-Occurs}

-- The parts stand in the text one after another, from an offset on, and end at another.
abbrev pub InOrder : Text → List Text → ℕ → ℕ → Type 0
InOrder t [] cursor end = end ≡ cursor
InOrder t (p ∷ ps) cursor end =
    (at : ℕ) × (cursor ≤ at) × Occurs t p at × InOrder t ps (at + length p) end

-- The first part stands at `first`, and the others after it.
abbrev pub StandAt : Text → List Text → ℕ → ℕ → Type 0
StandAt t [] first end = ⊥
StandAt t (p ∷ ps) first end = Occurs t p first × InOrder t ps (first + length p) end

-- Only a quote with an elision is bounded.
abbrev pub IsSpan : List Text → Match → Type 0
IsSpan (p ∷ q ∷ ps) m = m.end - m.start ≤ max_elided_span
IsSpan _ m = Unit

-- The match is the fragment of the text whose normal form holds the parts in order: it starts at the
-- character that the first of them comes from, and ends behind the one that the last comes from.
pub record IsPlace (norm : Pairs) (size : ℕ) (parts : List Text) (m : Match) : Type 0 where
  pub first : ℕ
  pub cursor : ℕ
  pub stand : StandAt (chars norm) parts first cursor
  pub starts : (c : ℕ) × (get_elem? norm first ≡ some (c, m.start))
  pub ends :
      (c : ℕ) × (last : ℕ) × (get_elem? norm (cursor - 1) ≡ some (c, last)) × (m.end ≡ last + 1)
  pub filled : m.start < m.end
  pub inside : m.end ≤ size
  pub span : IsSpan parts m

abbrev pub IsGood : Pairs → ℕ → List Text → Found → Type 0
IsGood norm size parts absent = Unit
IsGood norm size parts (found m) = IsPlace norm size parts m
IsGood norm size parts index_error = ⊥
IsGood norm size parts out_of_fuel = ⊥

pub length-chars : (norm : Pairs) → length (chars norm) ≡ length norm
length-chars [] = refl
length-chars (p ∷ l) = omega (arith, length-chars l)

pub place_rest-InOrder :
    (t : Text) (parts : List Text) (cursor end : ℕ)
    → cursor ≤ length t
    → place_rest t parts cursor ≡ some end
    → InOrder t parts cursor end × (cursor ≤ end) × (end ≤ length t)
unfolding place_rest
place_rest-InOrder t [] cursor end le h = (ground arith, ground arith, ground arith)
place_rest-InOrder t (p ∷ ps) cursor end le h = elim (Option-cases (find t p cursor)) [
  | inl missing ↦ absurd (ground arith)
  | inr (at, hit) ↦
      let (low, here, _) = find-Occurs t p cursor at le hit in
      let (order, le', high) =
        place_rest-InOrder t ps (at + length p) end (omega (arith, here.inside)) (ground arith) in
      ((at, low, here, order), omega (arith, low, le'), high)
]

-- The look-ups of a match.
pub record IsLookedUp (norm : Pairs) (size first cursor : ℕ) (m : Match) : Type 0 where
  pub made : match_at norm first cursor ≡ found m
  pub starts : (c : ℕ) × (get_elem? norm first ≡ some (c, m.start))
  pub ends :
      (c : ℕ) × (last : ℕ) × (get_elem? norm (cursor - 1) ≡ some (c, last)) × (m.end ≡ last + 1)
  pub filled : m.start < m.end
  pub inside : m.end ≤ size

pub match_at-made :
    (norm : Pairs) (first cursor : ℕ) (p q : ℕ × ℕ)
    → get_elem? norm first ≡ some p
    → get_elem? norm (cursor - 1) ≡ some q
    → match_at norm first cursor ≡ found (record { start = p.1; end = q.1 + 1 })
unfolding match_at
match_at-made norm first cursor (c, start) (d, last) hp hq = ground arith

pub match_at-IsLookedUp :
    (norm : Pairs) (size first cursor : ℕ)
    → IsAscending 0 size norm
    → first < cursor
    → cursor ≤ length norm
    → (m : Match) × IsLookedUp norm size first cursor m
match_at-IsLookedUp norm size first cursor asc low high =
    let ((c, start), p) = get_elem?-IsPair 0 size norm first asc (omega (arith, low, high)) in
    let ((d, last), q) = get_elem?-IsPair 0 size norm (cursor - 1) asc (omega (arith, low, high)) in
    let le =
      get_elem?-mono 0 size norm first (cursor - 1) (c, start) (d, last) asc (omega (arith, low))
        p.found q.found in
    (
      record { start = start; end = last + 1 },
      record {
        made = match_at-made norm first cursor (c, start) (d, last) p.found q.found;
        starts = (c, p.found);
        ends = (d, last, q.found, refl);
        filled = omega (arith, le);
        inside = omega (arith, q.upper);
      },
    )
