-- ===== src/TextMerge/Resolve.antt =====
-- The merge as a whole: which hunks it keeps, and that it applies them all.
use fastedgy.Prelude.{
  ◌≡◌, ap, ◌∙◌, Bool, true, false, List, [], ◌∷◌, ◌++◌, All, All-append, any, filter, arith,
  Bool-cases, inl, inr,
}
use fastedgy.TextMerge.{
  Opcode, Hunk, Entry, hunks, entries, overlaps, sort_entries, emit_all, kept_entries, merge_lines,
}
use fastedgy.TextMerge.Script.{IsDiffer}
use fastedgy.TextMerge.OneSided.{After}
use fastedgy.TextMerge.Conflicts.{
  Clear, Disjoint, overlaps_comm, free_of, kept_entries-prefer_client, kept_entries-prefer_server,
}
use fastedgy.TextMerge.Spacing.{After-hunks_of, Disjoint-hunks_of}
use fastedgy.TextMerge.Apply.{
  patch, hunks_in, emit-patch, NoClash, Apart, Valid, sort_entries-Apart,
}

module _ {L : Type 0} where
  All-filter :
      (P : Hunk L → Type 0) (keep : Hunk L → Bool) (hs : List (Hunk L))
      → All P hs
      → All P (filter keep hs)
  All-filter P keep [] a = tt
  All-filter P keep (h ∷ hs) a = elim (Bool-cases (keep h)) [
    | inl kept ↦ rw kept (a.0, All-filter P keep hs a.1)
    | inr gone ↦ rw gone (All-filter P keep hs a.1)
  ]

  Disjoint-filter :
      (keep : Hunk L → Bool) (hs : List (Hunk L)) → Disjoint hs → Disjoint (filter keep hs)
  Disjoint-filter keep [] d = tt
  Disjoint-filter keep (h ∷ hs) d = elim (Bool-cases (keep h)) [
    | inl kept ↦
        rw kept (All-filter (λ g. overlaps g h ≡ false) keep hs d.0, Disjoint-filter keep hs d.1)
    | inr gone ↦ rw gone (Disjoint-filter keep hs d.1)
  ]

  -- No hunk of `others` overlaps `h`.
  abbrev Free : List (Hunk L) → Hunk L → Type 0
  Free others h = any (overlaps h) others ≡ false

  Free-free_of : (others hs : List (Hunk L)) → All (Free others) (free_of others hs)
  unfolding free_of
  Free-free_of others [] = tt
  Free-free_of others (h ∷ hs) = elim (Bool-cases (any (overlaps h) others)) [
    | inl hit ↦ rw hit (Free-free_of others hs)
    | inr free ↦ rw free (free, Free-free_of others hs)
  ]

  module _ (c : Bool) where
    NoClash-Clear :
        (h : Hunk L) (b : Bool) (hs : List (Hunk L))
        → Clear h hs
        → NoClash (record { hunk = h; from_client = b }) (entries c hs)
    unfolding entries
    NoClash-Clear h b [] a = tt
    NoClash-Clear h b (g ∷ gs) a = (overlaps_comm h g ∙ a.0, NoClash-Clear h b gs a.1)

    Apart-entries : (hs : List (Hunk L)) → Disjoint hs → Apart (entries c hs)
    unfolding entries
    Apart-entries [] d = tt
    Apart-entries (h ∷ hs) d = (NoClash-Clear h c hs d.0, Apart-entries hs d.1)

    Valid-entries : (hs : List (Hunk L)) → All (After 0) hs → All Valid (entries c hs)
    unfolding entries
    Valid-entries [] a = tt
    Valid-entries (h ∷ hs) a = (a.0.1, Valid-entries hs a.1)

    NoClash-Free :
        (h : Hunk L) (b : Bool) (hs : List (Hunk L))
        → Free hs h
        → NoClash (record { hunk = h; from_client = b }) (entries c hs)
    unfolding entries
    NoClash-Free h b [] a = tt
    NoClash-Free h b (g ∷ gs) a = (ground arith, NoClash-Free h b gs (ground arith))

  Free-head : (g : Hunk L) (gs hs : List (Hunk L)) → All (Free (g ∷ gs)) hs → Clear g hs
  Free-head g gs [] a = tt
  Free-head g gs (h ∷ hs) a = (ground arith, Free-head g gs hs a.1)

  Free-tail : (g : Hunk L) (gs hs : List (Hunk L)) → All (Free (g ∷ gs)) hs → All (Free gs) hs
  Free-tail g gs [] a = tt
  Free-tail g gs (h ∷ hs) a = (ground arith, Free-tail g gs hs a.1)

  -- Every hunk of `gs` is clear of every hunk of `hs`.
  abbrev Crossing : List (Entry L) → List (Entry L) → Type 0
  Crossing xs ys = All (λ x. NoClash x ys) xs

  Crossing-Free-right :
      (gs hs : List (Hunk L)) → All (Free gs) hs → Crossing (entries true gs) (entries false hs)
  unfolding entries
  Crossing-Free-right [] hs a = tt
  Crossing-Free-right (g ∷ gs) hs a = (
    NoClash-Clear false g true hs (Free-head g gs hs a),
    Crossing-Free-right gs hs (Free-tail g gs hs a),
  )

  Crossing-Free-left :
      (gs hs : List (Hunk L)) → All (Free hs) gs → Crossing (entries true gs) (entries false hs)
  unfolding entries
  Crossing-Free-left [] hs a = tt
  Crossing-Free-left (g ∷ gs) hs a =
      (NoClash-Free false g true hs a.0, Crossing-Free-left gs hs a.1)

  Apart-append : (xs ys : List (Entry L)) → Apart xs → Apart ys → Crossing xs ys → Apart (xs ++ ys)
  Apart-append [] ys ax ay c = ay
  Apart-append (x ∷ xs) ys ax ay c = (
    All-append (λ f. overlaps x.hunk f.hunk ≡ false) xs ys ax.0 c.0,
    Apart-append xs ys ax.1 ay c.1,
  )

  -- The entries that are kept do not overlap, whichever side is preferred.
  kept_entries-Apart :
      (client server : List (Hunk L)) (prefer_client : Bool)
      → Disjoint client
      → Disjoint server
      → Apart (kept_entries client server prefer_client)
  kept_entries-Apart client server true dc ds = rw (kept_entries-prefer_client client server) (
      Apart-append (entries true client) (entries false (free_of client server))
        (Apart-entries true client dc)
        (Apart-entries false _ (unfold free_of in Disjoint-filter _ server ds))
        (Crossing-Free-right client (free_of client server) (Free-free_of client server)))
  kept_entries-Apart client server false dc ds = rw (kept_entries-prefer_server client server ds) (
      Apart-append (entries true (free_of server client)) (entries false server)
        (Apart-entries true _ (unfold free_of in Disjoint-filter _ client dc))
        (Apart-entries false server ds)
        (Crossing-Free-left (free_of server client) server (Free-free_of server client)))

  kept_entries-Valid :
      (client server : List (Hunk L)) (prefer_client : Bool)
      → Disjoint server
      → All (After 0) client
      → All (After 0) server
      → All Valid (kept_entries client server prefer_client)
  kept_entries-Valid client server true ds vc vs = rw (kept_entries-prefer_client client server) (
      All-append Valid (entries true client) (entries false (free_of client server))
        (Valid-entries true client vc)
        (Valid-entries false _ (unfold free_of in All-filter (After 0) _ server vs)))
  kept_entries-Valid client server false ds vc vs =
      rw (kept_entries-prefer_server client server ds) (
        All-append Valid (entries true (free_of server client)) (entries false server)
          (Valid-entries true _ (unfold free_of in All-filter (After 0) _ client vc))
          (Valid-entries false server vs))

  -- The base with the hunks of `xs` and of `ys` applied, in the order of their lines.
  abbrev pub patched : List L → List (Hunk L) → List (Hunk L) → List L
  patched base xs ys = patch base 0 (hunks_in (sort_entries (entries true xs ++ entries false ys)))

  module _ (get_opcodes : List L → List L → List Opcode) (d : IsDiffer get_opcodes) where
    pub hunks-Disjoint : (base other : List L) → Disjoint (hunks get_opcodes base other)
    unfolding hunks
    hunks-Disjoint base other =
        Disjoint-hunks_of base other 0 0 (get_opcodes base other) (d.script base other)
          (d.separated base other)

    hunks-After : (base other : List L) → All (After 0) (hunks get_opcodes base other)
    unfolding hunks
    hunks-After base other =
        After-hunks_of base other 0 0 (get_opcodes base other) (d.script base other)

    -- No kept hunk is skipped by the guard on the cursor.
    merge_lines-patch :
        (base server client : List L) (prefer_client : Bool)
        → merge_lines get_opcodes base server client prefer_client
          ≡ patch base 0 (
              hunks_in (
                sort_entries (
                  kept_entries
                    (hunks get_opcodes base client)
                    (hunks get_opcodes base server)
                    prefer_client)))
    unfolding merge_lines emit_all
    merge_lines-patch base server client p =
        let hc = hunks get_opcodes base client in
        let hs = hunks get_opcodes base server in
        emit-patch base [] 0 (sort_entries (kept_entries hc hs p)) (
          sort_entries-Apart (kept_entries hc hs p)
            (kept_entries-Valid hc hs p (hunks-Disjoint base server) (hunks-After base client)
              (hunks-After base server))
            (kept_entries-Apart hc hs p (hunks-Disjoint base client) (hunks-Disjoint base server)))

    -- Let the opcodes be as difflib documents them. Then, whatever the two sides edited, with the
    -- client preferred the merge is the base with all the
    -- client's hunks applied, and with those of the server's that overlap none of the client's:
    -- each of them, and no other.
    pub merge_lines-prefer_client :
        (base server client : List L)
        → let mine = hunks get_opcodes base client in
          merge_lines get_opcodes base server client true
          ≡ patched base mine (free_of mine (hunks get_opcodes base server))
    merge_lines-prefer_client base server client =
        merge_lines-patch base server client true
        ∙ ap (λ es. patch base 0 (hunks_in (sort_entries es)))
            (kept_entries-prefer_client (hunks get_opcodes base client)
              (hunks get_opcodes base server))

    -- Let the opcodes be as difflib documents them. Then, whatever the two sides edited, with the
    -- server preferred the merge is the base with all the
    -- server's hunks applied, and with those of the client's that overlap none of the server's:
    -- each of them, and no other.
    pub merge_lines-prefer_server :
        (base server client : List L)
        → let theirs = hunks get_opcodes base server in
          merge_lines get_opcodes base server client false
          ≡ patched base (free_of theirs (hunks get_opcodes base client)) theirs
    merge_lines-prefer_server base server client =
        merge_lines-patch base server client false
        ∙ ap (λ es. patch base 0 (hunks_in (sort_entries es)))
            (kept_entries-prefer_server (hunks get_opcodes base client)
              (hunks get_opcodes base server) (hunks-Disjoint base server))
