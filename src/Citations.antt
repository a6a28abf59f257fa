-- ===== src/Citations.antt =====
-- src/app/domain/citations.py: the server's check of the citations that the model proposes. A chunk
-- is a row of the context that src/app/domain/context.py builds; ids of versions are numbers, and the
-- versions of the context are a function of the id. Titles and kinds of the sources are not modelled.
pub mod Runs
pub mod Growth
pub mod Chunks
pub mod Sound
pub mod Claims
pub mod Table
pub mod Numbers
use ai_text.Prelude.{
  ℕ, zero, suc, ◌+◌, ◌-◌, max, String, Bool, true, false, not, ◌&&◌, ◌||◌, Option, none, some, List,
  [], ◌∷◌, ◌++◌, ltb, leb, ◌==◌, str_eq, if◌then◌else◌, length, slice,
}
use ai_text.Text.Unicode.{Unicode, Text, space, drop_spaces}
use ai_text.Text.Quote.{
  Match, Found, absent, found, index_error, out_of_fuel, find_quote, drop_last_spaces,
}
use ai_text.Text.Page.{Page, PageRef, page_at}

-- One entry of `chunks`.
pub record Chunk : Type 0 where
  pub key : String
  pub chunk_id : ℕ
  pub version_id : ℕ
  pub ordinal : ℕ
  pub start : ℕ
  pub end : ℕ
  pub text : Text

-- One entry of `versions`.
pub record Version : Type 0 where
  pub source_id : ℕ
  pub pages : List Page

-- `_Run`; the set of keys is a list.
pub record Run : Type 0 where
  pub version_id : ℕ
  pub start : ℕ
  pub text : Text
  pub chunk_keys : List String

pub record Resolved : Type 0 where
  pub source_id : ℕ
  pub version_id : ℕ
  pub chunk_id : Option ℕ
  pub quote : Text
  pub start : ℕ
  pub end : ℕ
  pub page : Option PageRef
  pub page_end : Option PageRef

unfoldable pub has_key : String → List String → Bool
has_key k [] = false
has_key k (j ∷ l) = if str_eq j k then true else has_key k l

-- `{c["key"]: c for c in chunks}`: a later chunk replaces an earlier one of its key, in its place.
unfoldable pub put_chunk : Chunk → List Chunk → List Chunk
put_chunk c [] = c ∷ []
put_chunk c (d ∷ l) = if str_eq d.key c.key then c ∷ l else d ∷ put_chunk c l

unfoldable pub by_key : List Chunk → List Chunk → List Chunk
unfolding put_chunk
by_key table [] = table
by_key table (c ∷ chunks) = by_key (put_chunk c table) chunks

unfoldable pub find_chunk : String → List Chunk → Option Chunk
find_chunk k [] = none
find_chunk k (c ∷ l) = if str_eq c.key k then some c else find_chunk k l

-- The chunks of one version, in their order, and those of all others.
unfoldable pub of_version : ℕ → List Chunk → List Chunk
of_version v [] = []
of_version v (c ∷ l) = let rest = of_version v l in if c.version_id == v then c ∷ rest else rest

-- `items.sort(key=lambda c: c["ordinal"])`, a stable sort.
unfoldable pub insert_by_ordinal : Chunk → List Chunk → List Chunk
insert_by_ordinal c [] = c ∷ []
insert_by_ordinal c (d ∷ l) =
    if leb c.ordinal d.ordinal then c ∷ d ∷ l else d ∷ insert_by_ordinal c l

unfoldable pub sort_by_ordinal : List Chunk → List Chunk
unfolding insert_by_ordinal
sort_by_ordinal [] = []
sort_by_ordinal (c ∷ l) = insert_by_ordinal c (sort_by_ordinal l)

-- `" " * n`
unfoldable pub spaces : ℕ → Text
spaces zero = []
spaces (suc n) = space ∷ spaces n

abbrev pub run_of : Chunk → Run
run_of c = record {
  version_id = c.version_id;
  start = c.start;
  text = c.text;
  chunk_keys = c.key ∷ [];
}

abbrev pub extended : Run → Chunk → Chunk → Run
extended run prev c = record run {
  text = run.text ++ (spaces (c.start - prev.end) ++ c.text);
  chunk_keys = run.chunk_keys ++ c.key ∷ [];
}

-- The inner loop: `run` is the run that is being built and `prev` its last chunk.
unfoldable pub runs_from : Run → Chunk → List Chunk → List Run
unfolding spaces
runs_from run prev [] = run ∷ []
runs_from run prev (c ∷ l) =
    let grown = runs_from (extended run prev c) c l in
    let cut = run ∷ runs_from (run_of c) c l in if c.ordinal == prev.ordinal + 1 then grown else cut

unfoldable pub runs_of_items : List Chunk → List Run
unfolding runs_from
runs_of_items [] = []
runs_of_items (c ∷ l) = runs_from (run_of c) c l

unfoldable pub is_in : ℕ → List ℕ → Bool
is_in v [] = false
is_in v (w ∷ l) = if w == v then true else is_in v l

-- `by_version`, a dictionary: its keys in the order of their first chunk.
unfoldable pub versions_of : List ℕ → List Chunk → List ℕ
unfolding is_in
versions_of seen [] = seen
versions_of seen (c ∷ l) =
    versions_of (if is_in c.version_id seen then seen else seen ++ c.version_id ∷ []) l

unfoldable pub runs_of : List ℕ → List Chunk → List Run
unfolding of_version sort_by_ordinal runs_of_items
runs_of [] chunks = []
runs_of (v ∷ vs) chunks = runs_of_items (sort_by_ordinal (of_version v chunks)) ++ runs_of vs chunks

-- `CitationResolver.__init__`
pub record CitationResolver : Type 0 where
  pub chunks : List Chunk
  pub runs : List Run

unfoldable pub resolver : List Chunk → CitationResolver
unfolding by_key versions_of runs_of
resolver chunks = record {
  chunks = by_key [] chunks;
  runs = runs_of (versions_of [] chunks) chunks;
}

unfoldable pub chunk_at : List Chunk → ℕ → ℕ → Option ℕ
chunk_at [] version_id offset = none
chunk_at (c ∷ l) version_id offset =
    if c.version_id == version_id && leb c.start offset && ltb offset c.end
    then some c.chunk_id
    else chunk_at l version_id offset

-- `sorted(self._runs, key=lambda r: chunk_key not in r.chunk_keys)`
unfoldable pub runs_with : Bool → String → List Run → List Run
unfolding has_key
runs_with wanted k [] = []
runs_with wanted k (r ∷ l) =
    let rest = runs_with wanted k l in
    if (if has_key k r.chunk_keys then wanted else not wanted) then r ∷ rest else rest

module _ (u : Unicode) (versions : ℕ → Version) where
  unfoldable pub cite : CitationResolver → Run → Match → Resolved
  unfolding chunk_at page_at
  cite c run m =
      let start = run.start + m.start in
      let end = run.start + m.end in
      let version = versions run.version_id in
      record {
        source_id = version.source_id;
        version_id = run.version_id;
        chunk_id = chunk_at c.chunks run.version_id start;
        quote = slice m.start m.end run.text;
        start = start;
        end = end;
        page = page_at version.pages start;
        page_end = page_at version.pages (max (end - 1) start);
      }

  -- The loop over the runs. `find_quote` always ends in a match or none.
  unfoldable pub resolve_in : CitationResolver → Text → List Run → Option Resolved
  unfolding cite
  resolve_in c quote [] = none
  resolve_in c quote (run ∷ runs) = elim (find_quote u run.text quote) [
    | found m ↦ some (cite c run m)
    | absent ↦ resolve_in c quote runs
    | index_error ↦ none
    | out_of_fuel ↦ none
  ]

  unfoldable pub resolve : CitationResolver → String → Text → Option Resolved
  unfolding find_chunk runs_with resolve_in
  resolve c chunk_key quote = elim (find_chunk chunk_key c.chunks) [
    | none ↦ none
    | some named ↦
        resolve_in c quote (runs_with true chunk_key c.runs ++ runs_with false chunk_key c.runs)
  ]
