-- ===== src/TextMerge/Conflicts.antt =====
-- Which hunks are kept where both sides have edited.
use fastedgy.Prelude.{
  ◌≡◌, refl, sym, ap, ◌∙◌, Bool, true, false, List, [], ◌∷◌, ◌++◌, All, filter, any, not,
  append_assoc, append-nil, arith, Bool-cases, inl, inr,
}
use fastedgy.TextMerge.{Hunk, Entry, is_empty, entries, overlaps, keep_server, select, kept_entries}

module _ {L : Type 0} where
  is_empty-filter :
      (test : Hunk L → Bool) (hs : List (Hunk L)) → is_empty (filter test hs) ≡ not (any test hs)
  is_empty-filter test [] = refl
  is_empty-filter test (h ∷ hs) = ground (arith, is_empty-filter test hs)

  -- The hunks of `hs` that no hunk of `others` overlaps.
  unfoldable pub free_of : List (Hunk L) → List (Hunk L) → List (Hunk L)
  free_of others hs = filter (λ h. not (any (overlaps h) others)) hs

  select-prefer_client :
      (client : List (Hunk L)) (kept : List (Entry L)) (server : List (Hunk L))
      → select client true kept server ≡ kept ++ entries false (free_of client server)
  unfolding select keep_server free_of entries
  select-prefer_client client kept [] = sym (append-nil kept)
  select-prefer_client client kept (h ∷ hs) = elim (Bool-cases (any (overlaps h) client)) [
    | inl hit ↦ rw (is_empty-filter (overlaps h) client, hit) (select-prefer_client client kept hs)
    | inr free ↦
        rw (is_empty-filter (overlaps h) client, free)
          (select-prefer_client client (kept ++ record { hunk = h; from_client = false } ∷ []) hs
            ∙ append_assoc kept _ _)
  ]

  -- Where the client is preferred, all its hunks are kept, and of the server's exactly those that
  -- overlap none of them.
  pub kept_entries-prefer_client :
      (client server : List (Hunk L))
      → kept_entries client server true
        ≡ entries true client ++ entries false (free_of client server)
  unfolding kept_entries
  kept_entries-prefer_client client server =
      select-prefer_client client (entries true client) server

  pub overlaps_comm : (a b : Hunk L) → overlaps a b ≡ overlaps b a
  unfolding overlaps
  overlaps_comm a b = ground arith

  -- No hunk of `hs` overlaps `h`.
  abbrev pub Clear : Hunk L → List (Hunk L) → Type 0
  Clear h hs = All (λ g. overlaps g h ≡ false) hs

  abbrev pub Disjoint : List (Hunk L) → Type 0
  Disjoint [] = Unit
  Disjoint (h ∷ hs) = Clear h hs × Disjoint hs

  abbrev drop_overlapping : Hunk L → List (Hunk L) → List (Hunk L)
  drop_overlapping h hs = filter (λ g. not (overlaps h g)) hs

  abbrev drop_entries : Hunk L → List (Entry L) → List (Entry L)
  drop_entries h es = filter (λ e. not (overlaps h e.hunk)) es

  drop_entries-append :
      (h : Hunk L) (xs ys : List (Entry L))
      → drop_entries h (xs ++ ys) ≡ drop_entries h xs ++ drop_entries h ys
  drop_entries-append h [] ys = refl
  drop_entries-append h (x ∷ xs) ys = ground (arith, drop_entries-append h xs ys)

  drop_entries-entries :
      (h : Hunk L) (c : Bool) (hs : List (Hunk L))
      → drop_entries h (entries c hs) ≡ entries c (drop_overlapping h hs)
  unfolding entries
  drop_entries-entries h c [] = refl
  drop_entries-entries h c (g ∷ gs) = ground (arith, drop_entries-entries h c gs)

  -- Each hunk of `ps` is clear of `hs`.
  abbrev AllClear : List (Hunk L) → List (Hunk L) → Type 0
  AllClear ps hs = All (λ p. Clear p hs) ps

  AllClear-tail :
      (ps : List (Hunk L)) (h : Hunk L) (hs : List (Hunk L)) → AllClear ps (h ∷ hs) → AllClear ps hs
  AllClear-tail [] h hs a = tt
  AllClear-tail (p ∷ ps) h hs a = (a.0.1, AllClear-tail ps h hs a.1)

  drop_overlapping-AllClear :
      (ps : List (Hunk L)) (h : Hunk L) (hs : List (Hunk L))
      → AllClear ps (h ∷ hs)
      → drop_overlapping h ps ≡ ps
  drop_overlapping-AllClear [] h hs a = refl
  drop_overlapping-AllClear (p ∷ ps) h hs a =
      rw (a.0.0) (ap (λ r. p ∷ r) (drop_overlapping-AllClear ps h hs a.1))

  -- A hunk that overlaps no hunk of the client overlaps none of `hs`.
  abbrev FromClient : List (Hunk L) → List (Hunk L) → Type 0
  FromClient client hs = (h : Hunk L) → any (overlaps h) client ≡ false → drop_overlapping h hs ≡ hs

  FromClient-self : (client : List (Hunk L)) → FromClient client client
  FromClient-self [] h e = refl
  FromClient-self (c ∷ cs) h e = ground (arith, FromClient-self cs h)

  drop_comm :
      (g h : Hunk L) (hs : List (Hunk L))
      → drop_overlapping g (drop_overlapping h hs) ≡ drop_overlapping h (drop_overlapping g hs)
  drop_comm g h [] = refl
  drop_comm g h (x ∷ xs) = ground (arith, drop_comm g h xs)

  free_of-cons :
      (h : Hunk L) (hs client : List (Hunk L))
      → free_of hs (drop_overlapping h client) ≡ free_of (h ∷ hs) client
  unfolding free_of
  free_of-cons h hs [] = refl
  free_of-cons h hs (c ∷ cs) = ground (arith, free_of-cons h hs cs, overlaps_comm h c)

  free_of-nil : (client : List (Hunk L)) → free_of [] client ≡ client
  unfolding free_of
  free_of-nil [] = refl
  free_of-nil (c ∷ cs) = ap (λ r. c ∷ r) (free_of-nil cs)

  -- With the server preferred each of its hunks drives out what it overlaps.
  keep_server-prefer_server :
      (client hs ps : List (Hunk L)) (h : Hunk L) (later : List (Hunk L))
      → FromClient client hs
      → AllClear ps (h ∷ later)
      → keep_server client false (entries true hs ++ entries false ps) h
        ≡ entries true (drop_overlapping h hs) ++ (entries false ps ++ entries false (h ∷ []))
  unfolding keep_server entries
  keep_server-prefer_server client hs ps h later sub clear =
      let kept = entries true hs ++ entries false ps in
      let one = entries false (h ∷ []) in
      let dropped : drop_entries h kept ≡ entries true (drop_overlapping h hs) ++ entries false ps =
        drop_entries-append h (entries true hs) (entries false ps)
        ∙ simp (drop_entries-entries, drop_overlapping-AllClear ps h later clear) in
      elim (Bool-cases (any (overlaps h) client)) [
        | inl hit ↦
            rw (is_empty-filter (overlaps h) client, hit)
              (ap (λ r. r ++ one) dropped
                ∙ append_assoc (entries true (drop_overlapping h hs)) (entries false ps) one)
        | inr free ↦
            rw (is_empty-filter (overlaps h) client, free)
              (append_assoc (entries true hs) (entries false ps) one
                ∙ ap (λ r. entries true r ++ (entries false ps ++ one)) (sym (sub h free)))
      ]

  entries-append :
      (c : Bool) (xs ys : List (Hunk L)) → entries c (xs ++ ys) ≡ entries c xs ++ entries c ys
  unfolding entries
  entries-append c [] ys = refl
  entries-append c (x ∷ xs) ys =
      ap (λ r. record { hunk = x; from_client = c } ∷ r) (entries-append c xs ys)

  FromClient-drop :
      (client hs : List (Hunk L)) (h : Hunk L)
      → FromClient client hs
      → FromClient client (drop_overlapping h hs)
  FromClient-drop client hs h sub g e = drop_comm g h hs ∙ ap (drop_overlapping h) (sub g e)

  AllClear-step :
      (ps : List (Hunk L)) (h : Hunk L) (hs : List (Hunk L))
      → AllClear ps (h ∷ hs)
      → Clear h hs
      → AllClear (ps ++ h ∷ []) hs
  AllClear-step [] h hs a c = (c, tt)
  AllClear-step (p ∷ ps) h hs a c = (a.0.1, AllClear-step ps h hs a.1 c)

  select-prefer_server :
      (client hs ps server : List (Hunk L))
      → FromClient client hs
      → AllClear ps server
      → Disjoint server
      → select client false (entries true hs ++ entries false ps) server
        ≡ entries true (free_of server hs) ++ entries false (ps ++ server)
  unfolding select
  select-prefer_server client hs ps [] sub clear apart = rw (free_of-nil hs, append-nil ps)
  select-prefer_server client hs ps (h ∷ server) sub clear apart = rw (
    keep_server-prefer_server client hs ps h server sub clear,
    ← entries-append false ps (h ∷ []),
    select-prefer_server client (drop_overlapping h hs) (ps ++ h ∷ []) server
        (FromClient-drop client hs h sub) (AllClear-step ps h server clear apart.0) apart.1,
    free_of-cons h server hs,
    append_assoc ps (h ∷ []) server,
  )

  -- Where the server is preferred and its hunks are disjoint, all its hunks are kept, and of the
  -- client's exactly those that overlap none of them.
  pub kept_entries-prefer_server :
      (client server : List (Hunk L))
      → Disjoint server
      → kept_entries client server false
        ≡ entries true (free_of server client) ++ entries false server
  unfolding kept_entries
  kept_entries-prefer_server client server apart =
      rw (← append-nil (entries true client))
        (select-prefer_server client client [] server (FromClient-self client) tt apart)
