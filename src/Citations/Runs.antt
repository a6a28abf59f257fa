-- ===== src/Citations/Runs.antt =====
-- The runs of consecutive chunks that src/app/domain/citations.py searches for a quote.
use ai_text.Prelude.{
  ℕ, zero, suc, ◌+◌, ◌-◌, ◌≤◌, ◌<◌, ◌≡◌, refl, ap, sym, ◌∙◌, ◌⊎◌, inl, inr, true, some, List, [],
  ◌∷◌, ◌++◌, arith, ltb, ltb→lt, length, slice, take, drop, get_elem?, Bool-cases,
}
use ai_text.Text.Unicode.{Unicode, Text, space}
use ai_text.Text.Chunk.Cover.{IsBlank, get_elem?-some, get_elem?-drop}
use ai_text.Citations.{Chunk, spaces}

pub get_elem?-append_left :
    {A : Type 0} (a b : List A) (i : ℕ) → i < length a → get_elem? (a ++ b) i ≡ get_elem? a i
get_elem?-append_left [] b i h = absurd (omega arith)
get_elem?-append_left (c ∷ a) b zero h = refl
get_elem?-append_left (c ∷ a) b (suc i) h = get_elem?-append_left a b i (omega (arith, h))

pub get_elem?-append_right :
    {A : Type 0} (a b : List A) (i : ℕ) → get_elem? (a ++ b) (length a + i) ≡ get_elem? b i
get_elem?-append_right [] b i = ap (get_elem? b) (omega arith)
get_elem?-append_right (c ∷ a) b i =
    ap (get_elem? (c ∷ (a ++ b)))
      (let e : suc (length a) + i ≡ suc (length a + i) = omega arith in e)
    ∙ get_elem?-append_right a b i

pub get_elem?-inside :
    {A : Type 0} (t : List A) (i : ℕ) (c : A) → get_elem? t i ≡ some c → i < length t
get_elem?-inside [] i c h = absurd (cc)
get_elem?-inside (d ∷ t) zero c h = omega arith
get_elem?-inside (d ∷ t) (suc i) c h = omega (arith, get_elem?-inside t i c h)

get_elem?-take : (n i c : ℕ) (t : Text) → get_elem? (take n t) i ≡ some c → get_elem? t i ≡ some c
get_elem?-take zero i c t h = absurd (cc)
get_elem?-take (suc n) i c [] h = h
get_elem?-take (suc n) zero c (d ∷ t) h = h
get_elem?-take (suc n) (suc i) c (d ∷ t) h = get_elem?-take n i c t h

pub get_elem?-slice :
    (start end i c : ℕ) (t : Text)
    → get_elem? (slice start end t) i ≡ some c
    → get_elem? t (start + i) ≡ some c
get_elem?-slice start end i c t h =
    sym (get_elem?-drop start i t) ∙ get_elem?-take (end - start) i c (drop start t) h

module _ (u : Unicode) where
  -- The same character, or a space in the place of other white space.
  abbrev pub SameMark : ℕ → ℕ → Type 0
  SameMark c d = (c ≡ d) ⊎ ((c ≡ space) × (u.is_space d ≡ true))

  -- The text is what stands in `whole` from `start` on, up to the kind of white space.
  abbrev pub IsFaithful : Text → ℕ → Text → Type 0
  IsFaithful whole start text =
      (i c : ℕ)
      → get_elem? text i ≡ some c
      → (d : ℕ) × (get_elem? whole (start + i) ≡ some d) × SameMark c d

  pub slice-IsFaithful :
      (whole : Text) (start end : ℕ) → IsFaithful whole start (slice start end whole)
  slice-IsFaithful whole start end i c h = (c, get_elem?-slice start end i c whole h, inl refl)

  spaces-IsSpace : (n i c : ℕ) → get_elem? (spaces n) i ≡ some c → (c ≡ space) × (i < n)
  unfolding spaces
  spaces-IsSpace zero i c h = absurd (cc)
  spaces-IsSpace (suc n) zero c h = ground arith
  spaces-IsSpace (suc n) (suc i) c h =
      let (e, lt) = spaces-IsSpace n i c h in (e, omega (arith, lt))

  pub spaces-IsFaithful :
      (whole : Text) (start n : ℕ)
      → start + n ≤ length whole
      → IsBlank u whole start (start + n)
      → IsFaithful whole start (spaces n)
  spaces-IsFaithful whole start n inside blank i c h =
      let (e, lt) = spaces-IsSpace n i c h in
      let (d, at) = get_elem?-some whole (start + i) (omega (arith, inside, lt)) in
      (d, at, inr (e, blank (start + i) d (omega arith) (omega (arith, lt)) at))

  pub append-IsFaithful :
      (whole : Text) (start : ℕ) (a b : Text)
      → IsFaithful whole start a
      → IsFaithful whole (start + length a) b
      → IsFaithful whole start (a ++ b)
  append-IsFaithful whole start a b f g i c h = elim (Bool-cases (ltb i (length a))) [
    | inl before ↦ f i c (sym (get_elem?-append_left a b i (ltb→lt i (length a) before)) ∙ h)
    | inr after ↦
        let j : ℕ = i - length a in
        let i_j : length a + j ≡ i = ground arith in
        let (d, at, same) =
          g j c (sym (get_elem?-append_right a b j) ∙ ap (get_elem? (a ++ b)) i_j ∙ h) in
        (d, ap (get_elem? whole) (omega (arith, i_j)) ∙ at, same)
  ]

pub length-spaces : (n : ℕ) → length (spaces n) ≡ n
unfolding spaces
length-spaces zero = refl
length-spaces (suc n) = omega (arith, length-spaces n)

-- The chunks that a context may hold: exact slices of the versions' texts, and white space between
-- two that follow one another.
pub record IsSource (u : Unicode) (content : ℕ → Text) (G : Chunk → Type 0) : Type 0 where
  pub ordered : (c : Chunk) → G c → c.start ≤ c.end
  pub inside : (c : Chunk) → G c → c.end ≤ length (content c.version_id)
  pub exact : (c : Chunk) → G c → c.text ≡ slice c.start c.end (content c.version_id)
  pub follows :
      (c d : Chunk)
      → G c
      → G d
      → d.version_id ≡ c.version_id
      → d.ordinal ≡ c.ordinal + 1
      → (c.end ≤ d.start) × IsBlank u (content c.version_id) c.end d.start
