-- ===== src/Text/Quote/Offsets.antt =====
-- The index list of `normalize_with_map` (src/app/domain/text.py): in range, and in order.
use ai_text.Prelude.{
  ℕ, zero, suc, ◌+◌, ◌≤◌, ◌<◌, ◌≡◌, refl, Option, none, some, [], ◌∷◌, ◌++◌, map, arith, length,
  get_elem?,
}
use ai_text.Text.Unicode.{Unicode, Text}
use ai_text.Text.Normalize.{Pairs, appended, round, normalize_from, normalize_with_map, last_char}

-- The indices rise, from `lo` to below `hi`.
abbrev pub IsAscending : ℕ → ℕ → Pairs → Type 0
IsAscending lo hi [] = Unit
IsAscending lo hi ((c, i) ∷ l) = (lo ≤ i) × (i < hi) × IsAscending i hi l

-- The same index throughout.
abbrev IsAt : ℕ → Pairs → Type 0
IsAt i [] = Unit
IsAt i ((c, j) ∷ l) = (j ≡ i) × IsAt i l

map-IsAt : (i : ℕ) (t : Text) → IsAt i (map (λ d. (d, i)) t)
map-IsAt i [] = tt
map-IsAt i (c ∷ t) = (refl, map-IsAt i t)

IsAscending-lower :
    (lo lo' hi : ℕ) (l : Pairs) → lo ≤ lo' → IsAscending lo' hi l → IsAscending lo hi l
IsAscending-lower lo lo' hi [] h k = tt
IsAscending-lower lo lo' hi ((c, i) ∷ l) h k = (omega (arith, k.0), k.1, k.2)

IsAt-append :
    (lo i hi : ℕ) (l rest : Pairs)
    → lo ≤ i
    → i < hi
    → IsAt i l
    → IsAscending i hi rest
    → IsAscending lo hi (l ++ rest)
IsAt-append lo i hi [] rest h k at asc = IsAscending-lower lo i hi rest h asc
IsAt-append lo i hi ((c, j) ∷ l) rest h k at asc = (
  omega (arith, at.0),
  omega (arith, at.0),
  IsAt-append j i hi l rest (omega (arith, at.0)) k at.1 asc,
)

module _ (u : Unicode) where
  appended-IsAt : (c : ℕ) (last : Option ℕ) (i : ℕ) → IsAt i (appended u c last i)
  unfolding appended
  appended-IsAt c last i = grind (arith, map-IsAt)

  round-IsAt : (i c : ℕ) (last : Option ℕ) (t : Text) → IsAt i (round u i c last t).out
  unfolding round
  round-IsAt i c last t = ground (arith, appended-IsAt c last i)

  normalize_from-IsAscending :
      (jump i : ℕ) (last : Option ℕ) (t : Text) (hi : ℕ)
      → i + length t ≤ hi
      → IsAscending i hi (normalize_from u jump i last t)
  unfolding normalize_from
  normalize_from-IsAscending jump i last [] hi h = tt
  normalize_from-IsAscending (suc jump) i last (c ∷ t) hi h =
      IsAscending-lower i (i + 1) hi (normalize_from u jump (i + 1) last t) (omega arith)
        (normalize_from-IsAscending jump (i + 1) last t hi (omega (arith, h)))
  normalize_from-IsAscending zero i last (c ∷ t) hi h =
      let r = round u i c last t in
      IsAt-append i i hi r.out _ (omega arith) (omega (arith, h)) (round-IsAt i c last t) (
        IsAscending-lower i (i + 1) hi _ (omega arith) (
          normalize_from-IsAscending r.jump (i + 1) (last_char last r.out) t hi (omega (arith, h))))

  pub normalize_with_map-IsAscending :
      (t : Text) → IsAscending 0 (length t) (normalize_with_map u t)
  unfolding normalize_with_map
  normalize_with_map-IsAscending t = normalize_from-IsAscending 0 0 none t (length t) (omega arith)

-- A look-up below the length finds a pair, with an index in range.
pub record IsPair (lo hi : ℕ) (l : Pairs) (k : ℕ) (p : ℕ × ℕ) : Type 0 where
  pub found : get_elem? l k ≡ some p
  pub lower : lo ≤ p.1
  pub upper : p.1 < hi

pub get_elem?-IsPair :
    (lo hi : ℕ) (l : Pairs) (k : ℕ)
    → IsAscending lo hi l
    → k < length l
    → (p : ℕ × ℕ) × IsPair lo hi l k p
get_elem?-IsPair lo hi [] k asc h = absurd (omega arith)
get_elem?-IsPair lo hi ((c, i) ∷ l) zero asc h =
    ((c, i), record { found = refl; lower = asc.0; upper = asc.1 })
get_elem?-IsPair lo hi ((c, i) ∷ l) (suc k) asc h =
    let (p, q) = get_elem?-IsPair i hi l k asc.2 (omega (arith, h)) in
    (p, record { found = q.found; lower = omega (arith, q.lower, asc.0); upper = q.upper })

get_elem?-lower :
    (lo hi : ℕ) (l : Pairs) (k : ℕ) (q : ℕ × ℕ)
    → IsAscending lo hi l
    → get_elem? l k ≡ some q
    → lo ≤ q.1
get_elem?-lower lo hi [] k q asc h = absurd (cc)
get_elem?-lower lo hi ((c, i) ∷ l) zero q asc h = grind (arith, h, asc.0)
get_elem?-lower lo hi ((c, i) ∷ l) (suc k) q asc h =
    omega (arith, asc.0, get_elem?-lower i hi l k q asc.2 h)

-- Of two look-ups, the later has the greater index.
pub get_elem?-mono :
    (lo hi : ℕ) (l : Pairs) (j k : ℕ) (p q : ℕ × ℕ)
    → IsAscending lo hi l
    → j ≤ k
    → get_elem? l j ≡ some p
    → get_elem? l k ≡ some q
    → p.1 ≤ q.1
get_elem?-mono lo hi [] j k p q asc le hj hk = absurd (cc)
get_elem?-mono lo hi ((c, i) ∷ l) zero zero p q asc le hj hk = grind (arith, hj, hk)
get_elem?-mono lo hi ((c, i) ∷ l) zero (suc k) p q asc le hj hk =
    grind (arith, hj, get_elem?-lower i hi l k q asc.2 hk)
get_elem?-mono lo hi ((c, i) ∷ l) (suc j) zero p q asc le hj hk = absurd (omega (arith, le))
get_elem?-mono lo hi ((c, i) ∷ l) (suc j) (suc k) p q asc le hj hk =
    get_elem?-mono i hi l j k p q asc.2 (omega (arith, le)) hj hk
