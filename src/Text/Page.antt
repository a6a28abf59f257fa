-- ===== src/Text/Page.antt =====
-- `page_at` of src/app/domain/text.py.
use ai_text.Prelude.{
  ℕ, suc, ◌-◌, ◌≤◌, ◌<◌, ◌≡◌, refl, inl, inr, String, Option, none, some, List, [], ◌∷◌, arith, leb,
  leb→le, le→leb, ap, ◌∙◌, Bool-cases, All, Among, str_eq, if◌then◌else◌, get_elem?,
}

-- A page of a PDF: `n`, `start` and `label`.
pub record Page : Type 0 where
  pub n : ℕ
  pub start : ℕ
  pub label : Option String

pub record PageRef : Type 0 where
  pub physical : ℕ
  pub label : Option String

-- `bisect.bisect_right` over starts in ascending order: the number of those up to the offset.
unfoldable pub bisect_right : List Page → ℕ → ℕ
bisect_right [] offset = 0
bisect_right (p ∷ pages) offset =
    let rest = suc (bisect_right pages offset) in if leb p.start offset then rest else 0

abbrev pub filled_label : Option String → Option String
filled_label none = none
filled_label (some s) = if str_eq s "" then none else some s

abbrev pub ref_of : Option Page → Option PageRef
ref_of none = none
ref_of (some p) = some (record { physical = p.n; label = filled_label p.label })

unfoldable pub page_at : List Page → ℕ → Option PageRef
unfolding bisect_right
page_at pages offset = ref_of (get_elem? pages (bisect_right pages offset - 1))

-- The starts rise.
abbrev pub AreOrdered : ℕ → List Page → Type 0
AreOrdered from [] = Unit
AreOrdered from (p ∷ pages) = (from ≤ p.start) × AreOrdered p.start pages

-- The page starts at the offset or before it, and no other page that does starts later.
pub record Holds (offset : ℕ) (pages : List Page) (p : Page) : Type 0 where
  pub among : Among p pages
  pub before : p.start ≤ offset
  pub nearest : All (λ q. q.start ≤ offset → q.start ≤ p.start) pages

later_start :
    (offset from : ℕ) (pages : List Page)
    → offset < from
    → AreOrdered from pages
    → All (λ q. offset < q.start) pages
later_start offset from [] h ordered = tt
later_start offset from (p ∷ pages) h (low, ordered) =
    (omega (arith, h, low), later_start offset p.start pages (omega (arith, h, low)) ordered)

none_nearer :
    (offset bound : ℕ) (pages : List Page)
    → All (λ q. offset < q.start) pages
    → All (λ q. q.start ≤ offset → q.start ≤ bound) pages
none_nearer offset bound [] h = tt
none_nearer offset bound (p ∷ pages) (h, rest) =
    (λ le. absurd (omega (arith, h, le)), none_nearer offset bound pages rest)

-- In what follows a page that starts in time, the search finds the page.
bisect_right-Holds :
    (offset : ℕ) (p : Page) (pages : List Page)
    → p.start ≤ offset
    → AreOrdered p.start pages
    → (q : Page) × (get_elem? (p ∷ pages) (bisect_right pages offset) ≡ some q)
      × Holds offset (p ∷ pages) q
unfolding bisect_right
bisect_right-Holds offset p [] le ordered =
    (p, refl, record { among = inl refl; before = le; nearest = (λ h. omega arith, tt) })
bisect_right-Holds offset p (q ∷ pages) le (low, ordered) = elim (Bool-cases (leb q.start offset)) [
  | inl early ↦
      let (r, found, holds) =
        bisect_right-Holds offset q pages (leb→le q.start offset early) ordered in
      (
        r,
        rw early found,
        record {
          among = inr holds.among;
          before = holds.before;
          nearest = (
            λ h. omega (arith, low, holds.nearest.0 (leb→le q.start offset early)),
            holds.nearest,
          );
        },
      )
  | inr late ↦ (
    p,
    rw late refl,
    record {
      among = inl refl;
      before = le;
      nearest = (
        λ h. omega arith,
        none_nearer offset p.start (q ∷ pages) (
            let after : offset < q.start = ground arith in
            (after, later_start offset q.start pages after ordered)),
      );
    },
  )
]

first_round :
    (p : Page) (pages : List Page) (offset : ℕ)
    → p.start ≤ offset
    → get_elem? (p ∷ pages) (bisect_right (p ∷ pages) offset - 1)
      ≡ get_elem? (p ∷ pages) (bisect_right pages offset)
unfolding bisect_right
first_round p pages offset le =
    rw (le→leb p.start offset le) (ap (get_elem? (p ∷ pages)) (omega arith))

-- In a file whose pages are in order and whose first page starts at the offset or before it, the
-- reference is that of the last page to start there or before.
pub page_at-Holds :
    (p : Page) (pages : List Page) (offset : ℕ)
    → p.start ≤ offset
    → AreOrdered p.start pages
    → (q : Page) × (page_at (p ∷ pages) offset ≡ ref_of (some q)) × Holds offset (p ∷ pages) q
unfolding page_at
page_at-Holds p pages offset le ordered =
    let (q, found, holds) = bisect_right-Holds offset p pages le ordered in
    (q, ap ref_of (first_round p pages offset le ∙ found), holds)
