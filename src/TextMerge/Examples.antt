-- ===== src/TextMerge/Examples.antt =====
-- A differ that keeps the common first lines, and merges with it.
use fastedgy.Prelude.{
  ℕ, suc, ◌≤◌, ◌-◌, ◌≡◌, refl, sym, ◌∙◌, true, false, List, [], ◌∷◌, length, take, slice_self,
  arith, ◌==◌, if◌then◌else◌,
}
use fastedgy.Text.{splitlines}
use fastedgy.TextMerge.{Tag, equal, replace, delete, insert, Opcode, hunks, merge_lines}
use fastedgy.TextMerge.Script.{IsDiffer}
use fastedgy.TextMerge.Conflicts.{free_of}
use fastedgy.TextMerge.Resolve.{patched, merge_lines-prefer_client, merge_lines-prefer_server}

common : List ℕ → List ℕ → ℕ
common [] ys = 0
common (x ∷ xs) [] = 0
common (x ∷ xs) (y ∷ ys) = let rest = common xs ys in if x == y then suc rest else 0

tag_of : ℕ → ℕ → ℕ → Tag
tag_of k n m =
    if k == n then (if k == m then equal else insert) else if k == m then delete else replace

prefix_opcodes : List ℕ → List ℕ → List Opcode
unfolding common tag_of
prefix_opcodes xs ys =
    let k = common xs ys in
    record { tag = equal; i1 = 0; i2 = k; j1 = 0; j2 = k }
    ∷ record {
      tag = tag_of k (length xs) (length ys);
      i1 = k;
      i2 = length xs;
      j1 = k;
      j2 = length ys;
    }
    ∷ []

common-le : (xs ys : List ℕ) → (common xs ys ≤ length xs) × (common xs ys ≤ length ys)
unfolding common
common-le [] ys = (omega arith, omega arith)
common-le (x ∷ xs) [] = (omega arith, omega arith)
common-le (x ∷ xs) (y ∷ ys) = ground (arith, common-le xs ys)

take-common : (xs ys : List ℕ) → take (common xs ys) xs ≡ take (common xs ys) ys
unfolding common
take-common [] ys = refl
take-common (x ∷ xs) [] = refl
take-common (x ∷ xs) (y ∷ ys) = ground (arith, take-common xs ys)

common_self : (xs : List ℕ) → common xs xs ≡ length xs
unfolding common
common_self [] = refl
common_self (x ∷ xs) = ground (arith, common_self xs)

tag_of-equal : (k n m : ℕ) → tag_of k n m ≡ equal → (n ≡ k) × (m ≡ k)
unfolding tag_of
tag_of-equal k n m e = ground arith

tag_of_self : (n : ℕ) → tag_of n n n ≡ equal
unfolding tag_of
tag_of_self n = ground arith

prefix-IsDiffer : IsDiffer prefix_opcodes
unfolding prefix_opcodes
prefix-IsDiffer = record {
  script = λ xs ys.
      let k = common xs ys in
      (
        refl,
        refl,
        omega arith,
        omega arith,
        λ _. let e : k - 0 ≡ k = omega arith in rw e (take-common xs ys),
        (
          refl,
          refl,
          (common-le xs ys).0,
          (common-le xs ys).1,
          λ e.
              let (n, m) = tag_of-equal k (length xs) (length ys) e in
              rw (n, m) (slice_self xs k ∙ sym (slice_self ys k)),
          (refl, refl),
        ),
      );
  separated = λ xs ys. (λ edit. absurd (edit refl), tt);
  same = λ xs. (refl, (rw (common_self xs) (tag_of_self (length xs)), tt));
}

abbrev before : List ℕ
before = 1 ∷ 2 ∷ []

-- The server rewrites the second line, the client adds one behind it.
abbrev on_server : List ℕ
on_server = 1 ∷ 3 ∷ []

abbrev on_client : List ℕ
on_client = 1 ∷ 2 ∷ 4 ∷ []

-- Both edits survive.
both_survive : merge_lines prefix_opcodes before on_server on_client true ≡ 1 ∷ 3 ∷ 4 ∷ []
unfolding merge_lines prefix_opcodes
both_survive = refl

-- Of two edits of the same line the preferred one survives.
client_wins : merge_lines prefix_opcodes before on_server (1 ∷ 5 ∷ []) true ≡ 1 ∷ 5 ∷ []
unfolding merge_lines prefix_opcodes
client_wins = refl

server_wins : merge_lines prefix_opcodes before on_server (1 ∷ 5 ∷ []) false ≡ 1 ∷ 3 ∷ []
unfolding merge_lines prefix_opcodes
server_wins = refl

merge_lines-prefer_client_example :
    merge_lines prefix_opcodes before on_server on_client true
    ≡ patched before
        (hunks prefix_opcodes before on_client)
        (free_of (hunks prefix_opcodes before on_client) (hunks prefix_opcodes before on_server))
merge_lines-prefer_client_example =
    merge_lines-prefer_client prefix_opcodes prefix-IsDiffer before on_server on_client

merge_lines-prefer_server_example :
    merge_lines prefix_opcodes before on_server on_client false
    ≡ patched before
        (free_of (hunks prefix_opcodes before on_server) (hunks prefix_opcodes before on_client))
        (hunks prefix_opcodes before on_server)
merge_lines-prefer_server_example =
    merge_lines-prefer_server prefix_opcodes prefix-IsDiffer before on_server on_client

-- A carriage return and line feed end one line, and the text's last line feed ends no further line.
two_lines : splitlines (97 ∷ 13 ∷ 10 ∷ 98 ∷ 10 ∷ []) ≡ (97 ∷ []) ∷ (98 ∷ []) ∷ []
unfolding splitlines
two_lines = refl
