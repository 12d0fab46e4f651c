-- ===== src/TextMerge.antt =====
-- fastedgy/text_merge.py: the three-way line merge of long text fields.
-- `difflib.SequenceMatcher(a, b).get_opcodes()` is the parameter `get_opcodes`; a text is a list of
-- code points and a line is one too, but nothing here looks inside a line.
pub mod Script
pub mod OneSided
pub mod Conflicts
pub mod Apply
pub mod Spacing
pub mod Resolve
mod Examples
use fastedgy.Prelude.{
  ℕ, max, Bool, true, false, ◌&&◌, ◌||◌, List, [], ◌∷◌, ◌++◌, drop, filter, slice, ltb, leb, ◌==◌,
  if◌then◌else◌, not,
}
use fastedgy.Text.{Text, splitlines, join_lines}

-- The tags of difflib's opcodes.
pub data Tag : Type 0 where
  equal replace delete insert : Tag

pub record Opcode : Type 0 where
  pub tag : Tag
  pub i1 : ℕ
  pub i2 : ℕ
  pub j1 : ℕ
  pub j2 : ℕ

-- The tuple `(start, end, replacement)`.
pub record Hunk (L : Type 0) : Type 0 where
  pub start : ℕ
  pub stop : ℕ
  pub replacement : List L

-- An entry of `kept`: the hunk, and whether the client made it.
pub record Entry (L : Type 0) : Type 0 where
  pub hunk : Hunk L
  pub from_client : Bool

module _ {L : Type 0} where
  -- `if tag != "equal"`.
  pub cons_edit : Tag → Hunk L → List (Hunk L) → List (Hunk L)
  cons_edit equal h rest = rest
  cons_edit _ h rest = h ∷ rest

  -- The comprehension of `_hunks`, over the opcodes.
  pub hunks_of : List L → List Opcode → List (Hunk L)
  hunks_of other [] = []
  hunks_of other (op ∷ ops) =
      cons_edit op.tag
        (record { start = op.i1; stop = op.i2; replacement = slice other op.j1 op.j2 })
        (hunks_of other ops)

  -- `_hunks(base, other)`.
  unfoldable pub hunks : (List L → List L → List Opcode) → List L → List L → List (Hunk L)
  unfolding hunks_of cons_edit
  hunks get_opcodes base other = hunks_of other (get_opcodes base other)

  -- `a[0] < b[1] and b[0] < a[1] or (a[0], a[1]) == (b[0], b[1])`
  unfoldable pub overlaps : Hunk L → Hunk L → Bool
  overlaps a b = ltb a.start b.stop && ltb b.start a.stop || a.start == b.start && a.stop == b.stop

  abbrev is_empty : List (Hunk L) → Bool
  is_empty [] = true
  is_empty (_ ∷ _) = false

  -- One round of `for hunk in server_hunks`.
  pub keep_server : List (Hunk L) → Bool → List (Entry L) → Hunk L → List (Entry L)
  unfolding overlaps
  keep_server client_hunks prefer_client kept hunk =
      let conflicting = filter (overlaps hunk) client_hunks in
      let entry : Entry L = record { hunk = hunk; from_client = false } in
      if is_empty conflicting
      then kept ++ entry ∷ []
      else if not prefer_client
      then filter (λ e. not (overlaps hunk e.hunk)) kept ++ entry ∷ []
      else kept

  pub select : List (Hunk L) → Bool → List (Entry L) → List (Hunk L) → List (Entry L)
  select client_hunks prefer_client kept [] = kept
  select client_hunks prefer_client kept (h ∷ hs) =
      select client_hunks prefer_client (keep_server client_hunks prefer_client kept h) hs

  -- `[(*hunk, c) for hunk in hs]`
  pub entries : Bool → List (Hunk L) → List (Entry L)
  entries c [] = []
  entries c (h ∷ hs) = record { hunk = h; from_client = c } ∷ entries c hs

  -- `kept` at the end of the loop over the server's hunks.
  unfoldable pub kept_entries : List (Hunk L) → List (Hunk L) → Bool → List (Entry L)
  unfolding select keep_server entries
  kept_entries client_hunks server_hunks prefer_client =
      select client_hunks prefer_client (entries true client_hunks) server_hunks

  -- `(a[0], a[1]) <= (b[0], b[1])` on the sort keys.
  unfoldable pub key_le : Entry L → Entry L → Bool
  key_le a b =
      ltb a.hunk.start b.hunk.start || a.hunk.start == b.hunk.start && leb a.hunk.stop b.hunk.stop

  -- `kept.sort(key=...)`: Python's sort is stable.
  pub insert_sorted : Entry L → List (Entry L) → List (Entry L)
  unfolding key_le
  insert_sorted e [] = e ∷ []
  insert_sorted e (f ∷ fs) =
      let rest = insert_sorted e fs in if key_le e f then e ∷ f ∷ fs else f ∷ rest

  unfoldable pub sort_entries : List (Entry L) → List (Entry L)
  unfolding insert_sorted
  sort_entries [] = []
  sort_entries (e ∷ es) = insert_sorted e (sort_entries es)

  -- One round of the last loop, over its variables `merged` and `cursor`.
  pub emit_one : List L → List L × ℕ → Hunk L → List L × ℕ
  emit_one base_lines (merged, cursor) h =
      if leb cursor h.start
      then (merged ++ (slice base_lines cursor h.start ++ h.replacement), max cursor h.stop)
      else (merged, cursor)

  pub emit : List L → List L × ℕ → List (Entry L) → List L × ℕ
  emit base_lines state [] = state
  emit base_lines state (e ∷ es) = emit base_lines (emit_one base_lines state e.hunk) es

  -- `merged.extend(base_lines[cursor:])` after the loop.
  unfoldable pub emit_all : List L → List (Entry L) → List L
  unfolding emit emit_one
  emit_all base_lines kept =
      let (merged, cursor) = emit base_lines ([], 0) kept in merged ++ drop cursor base_lines

  -- `merge_text_blocks` between `splitlines` and `join`.
  unfoldable pub merge_lines :
      (List L → List L → List Opcode) → List L → List L → List L → Bool → List L
  unfolding hunks kept_entries sort_entries emit_all
  merge_lines get_opcodes base server client prefer_client =
      let server_hunks = hunks get_opcodes base server in
      let client_hunks = hunks get_opcodes base client in
      emit_all base (sort_entries (kept_entries client_hunks server_hunks prefer_client))

-- `merge_text_blocks`, on texts.
unfoldable pub merge_text_blocks :
    (List Text → List Text → List Opcode) → Text → Text → Text → Bool → Text
unfolding merge_lines splitlines join_lines
merge_text_blocks get_opcodes base server client prefer_client = join_lines (
    merge_lines get_opcodes (splitlines base) (splitlines server) (splitlines client) prefer_client)
