-- ===== src/Text/Chunk/Cover.antt =====
-- White space around a chunk of src/app/domain/text.py: what the two inner loops pass over.
use ai_text.Prelude.{
  ℕ, zero, suc, ◌+◌, ◌-◌, ◌≤◌, ◌<◌, ◌≡◌, refl, ap, sym, subst, ◌∙◌, Bool, true, false, some, [],
  ◌∷◌, arith, if◌then◌else◌, drop, length, get_elem?, Bool-cases, inl, inr, ltb, ltb→lt,
}
use ai_text.Text.Unicode.{Unicode, Text}
use ai_text.Text.Normalize.{count_spaces}
use ai_text.Text.Chunk.{trim_end}
use ai_text.Text.Chunk.Cut.{length-drop}

pub get_elem?-some : (text : Text) (i : ℕ) → i < length text → (c : ℕ) × (get_elem? text i ≡ some c)
get_elem?-some [] i h = absurd (omega arith)
get_elem?-some (c ∷ t) zero h = (c, refl)
get_elem?-some (c ∷ t) (suc i) h = get_elem?-some t i (omega (arith, h))

pub get_elem?-drop : (n i : ℕ) (text : Text) → get_elem? (drop n text) i ≡ get_elem? text (n + i)
get_elem?-drop zero i text = ap (get_elem? text) (omega arith)
get_elem?-drop (suc n) i [] = refl
get_elem?-drop (suc n) i (c ∷ t) =
    get_elem?-drop n i t
    ∙ ap (get_elem? (c ∷ t)) (let e : suc (n + i) ≡ suc n + i = omega arith in e)

module _ (u : Unicode) where
  -- Nothing but white space stands from one place to another.
  abbrev pub IsBlank : Text → ℕ → ℕ → Type 0
  IsBlank text from to =
      (i : ℕ) (c : ℕ) → from ≤ i → i < to → get_elem? text i ≡ some c → u.is_space c ≡ true

  -- A character that is no white space.
  abbrev pub IsInk : Text → ℕ → Type 0
  IsInk text i = (c : ℕ) × (get_elem? text i ≡ some c) × (u.is_space c ≡ false)

  pub IsBlank-join :
      (text : Text) (a b c : ℕ) → IsBlank text a b → IsBlank text b c → IsBlank text a c
  IsBlank-join text a b c h k i d low high e = elim (Bool-cases (ltb i b)) [
    | inl before ↦ h i d low (ltb→lt i b before) e
    | inr after ↦ k i d (ground arith) high e
  ]

  spaces-IsBlank : (t : Text) → IsBlank t 0 (count_spaces u t)
  unfolding count_spaces
  spaces-IsBlank [] i d low high e = absurd (omega (arith, high))
  spaces-IsBlank (c ∷ t) zero d low high e = ground arith
  spaces-IsBlank (c ∷ t) (suc i) d low high e = ground (arith, spaces-IsBlank t i d)

  spaces-IsInk : (t : Text) → count_spaces u t < length t → IsInk t (count_spaces u t)
  unfolding count_spaces
  spaces-IsInk [] h = absurd (omega arith)
  spaces-IsInk (c ∷ t) h = elim (Bool-cases (u.is_space c)) [
    | inl white ↦ rw white (spaces-IsInk t (ground arith))
    | inr ink ↦ rw ink (c, refl, ink)
  ]

  -- The loop before a chunk.
  pub skip-IsBlank :
      (text : Text) (pos : ℕ) → IsBlank text pos (pos + count_spaces u (drop pos text))
  skip-IsBlank text pos i d low high e =
      spaces-IsBlank (drop pos text) (i - pos) d (omega arith) (omega (arith, low, high))
        (get_elem?-drop pos (i - pos) text ∙ ap (get_elem? text) (omega (arith, low)) ∙ e)

  pub skip-IsInk :
      (text : Text) (pos : ℕ)
      → pos + count_spaces u (drop pos text) < length text
      → IsInk text (pos + count_spaces u (drop pos text))
  skip-IsInk text pos h =
      let (c, here, ink) = spaces-IsInk (drop pos text) (omega (arith, h, length-drop pos text)) in
      (c, sym (get_elem?-drop pos (count_spaces u (drop pos text)) text) ∙ here, ink)

  trim_step :
      (text : Text) (pos k c : ℕ)
      → get_elem? text (pos + k) ≡ some c
      → (if u.is_space c then trim_end u text pos k else pos + suc k) ≡ trim_end u text pos (suc k)
  unfolding trim_end
  trim_step text pos k c e = ground arith

  -- Where the chunk of `k` characters is to stop.
  abbrev pub IsTrimmed : Text → ℕ → ℕ → ℕ → Type 0
  IsTrimmed text pos k stop =
      (pos < stop) × (stop ≤ pos + k) × IsBlank text stop (pos + k) × IsInk text (stop - 1)

  IsTrimmed-later :
      (text : Text) (pos k c stop : ℕ)
      → get_elem? text (pos + k) ≡ some c
      → u.is_space c ≡ true
      → IsTrimmed text pos k stop
      → IsTrimmed text pos (suc k) stop
  IsTrimmed-later text pos k c stop e white (low, high, blank, ink) = (
    low,
    omega (arith, high),
    IsBlank-join text stop (pos + k) (pos + suc k) blank (λ i d from to at.
        let same : i ≡ pos + k = omega (arith, from, to) in
        let e' = subst (λ j. get_elem? text j ≡ some d) same at in ground arith),
    ink,
  )

  IsTrimmed-here :
      (text : Text) (pos k c : ℕ)
      → get_elem? text (pos + k) ≡ some c
      → u.is_space c ≡ false
      → IsTrimmed text pos (suc k) (pos + suc k)
  IsTrimmed-here text pos k c e ink = (
    omega arith,
    omega arith,
    λ i d low high at. absurd (omega (arith, low, high)),
    (c, ap (get_elem? text) (let same : pos + suc k - 1 ≡ pos + k = omega arith in same) ∙ e, ink),
  )

  trim_by :
      (text : Text) (pos k c : ℕ) (b : Bool)
      → get_elem? text (pos + k) ≡ some c
      → u.is_space c ≡ b
      → (b ≡ true → IsTrimmed text pos k (trim_end u text pos k))
      → IsTrimmed text pos (suc k) (if b then trim_end u text pos k else pos + suc k)
  trim_by text pos k c true e white later =
      IsTrimmed-later text pos k c (trim_end u text pos k) e white (later refl)
  trim_by text pos k c false e black later = IsTrimmed-here text pos k c e black

  -- The loop at the end of a chunk that does not start with white space.
  trim_suc-IsTrimmed :
      (text : Text) (pos k : ℕ)
      → pos + suc k ≤ length text
      → IsInk text pos
      → IsTrimmed text pos (suc k) (trim_end u text pos (suc k))
  trim_suc-IsTrimmed text pos zero inside (c, here, ink) =
      let e : get_elem? text (pos + 0) ≡ some c =
        ap (get_elem? text) (let same : pos + 0 ≡ pos = omega arith in same) ∙ here in
      subst (IsTrimmed text pos 1) (trim_step text pos 0 c e)
        (trim_by text pos 0 c (u.is_space c) e refl (λ white. absurd (ground arith)))
  trim_suc-IsTrimmed text pos (suc k) inside ink =
      let (d, e) = get_elem?-some text (pos + suc k) (omega (arith, inside)) in
      subst (IsTrimmed text pos (suc (suc k))) (trim_step text pos (suc k) d e) (
        trim_by text pos (suc k) d (u.is_space d) e refl
          (λ white. trim_suc-IsTrimmed text pos k (omega (arith, inside)) ink))

  pub trim_end-IsTrimmed :
      (text : Text) (pos k : ℕ)
      → 0 < k
      → pos + k ≤ length text
      → IsInk text pos
      → IsTrimmed text pos k (trim_end u text pos k)
  trim_end-IsTrimmed text pos zero positive inside ink = absurd (omega (arith, positive))
  trim_end-IsTrimmed text pos (suc k) positive inside ink = trim_suc-IsTrimmed text pos k inside ink
