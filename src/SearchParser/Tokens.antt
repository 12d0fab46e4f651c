-- ===== src/SearchParser/Tokens.antt =====
-- The tokens of every search text: the loop ends, and each token is well formed.
use fastedgy.Prelude.{
  ℕ, zero, suc, Bool, true, false, Option, none, some, List, [], ◌∷◌, ◌++◌, all, length, not, ◌==◌,
  ◌&&◌, ◌≤◌, if◌then◌else◌, ◌≡◌, refl, arith, Bool-cases, inl, inr,
}
use fastedgy.Text.{Text, codes}
use fastedgy.SearchParser.{
  TokenType, mandatory, excluded, phrase, bare, Token, lstrip, rstrip, strip, is_blank, join,
  is_mark, is_word_char, span_word, read_word, cut_phrase, flush, split_words, phrase_token,
  word_token, signed, next_token, push_token, tokenize_from, tokenize,
}

length-lstrip : (test : ℕ → Bool) (s : Text) → length (lstrip test s) ≤ length s
unfolding lstrip
length-lstrip test [] = omega arith
length-lstrip test (c ∷ cs) = ground (arith, length-lstrip test cs)

all-rstrip : (test keep : ℕ → Bool) (s : Text) → all keep s ≡ true → all keep (rstrip test s) ≡ true
unfolding rstrip
all-rstrip test keep [] h = refl
all-rstrip test keep (c ∷ cs) h = let rest = all-rstrip test keep cs (ground arith) in ground arith

module _ (alnum space : ℕ → Bool) where
  -- A word: an alphanumeric character, and then such characters, apostrophes and hyphens.
  abbrev pub is_word : Text → Bool
  is_word [] = false
  is_word (c ∷ cs) = alnum c && all (is_word_char alnum space) cs

  abbrev pub is_phrase_word : Text → Bool
  is_phrase_word w = not (is_blank w) && all (λ c. not (space c)) w

  -- What stands in a token: words without spaces in a phrase, and else a word and its `:*`.
  abbrev pub IsValue : TokenType → Text → Type 0
  IsValue phrase v =
      (w : Text) × (ws : List Text) × (v ≡ join (codes " <-> ") (w ∷ ws))
      × (all is_phrase_word (w ∷ ws) ≡ true)
  IsValue _ v = (w : Text) × (v ≡ w ++ codes ":*") × (is_word w ≡ true)

  abbrev pub IsToken : Token → Type 0
  IsToken t = IsValue t.token_type t.value

  abbrev MayBeToken : Option Token → Type 0
  MayBeToken none = Unit
  MayBeToken (some t) = IsToken t

  abbrev pub AreTokens : List Token → Type 0
  AreTokens [] = Unit
  AreTokens (t ∷ ts) = IsToken t × AreTokens ts

  abbrev pub AreAllTokens : Option (List Token) → Type 0
  AreAllTokens none = ⊥
  AreAllTokens (some ts) = AreTokens ts

  length-span_word : (s : Text) → length (span_word alnum space s).1 ≤ length s
  unfolding span_word
  length-span_word [] = omega arith
  length-span_word (c ∷ cs) = ground (arith, length-span_word cs)

  all-span_word : (s : Text) → all (is_word_char alnum space) (span_word alnum space s).0 ≡ true
  unfolding span_word
  all-span_word [] = refl
  all-span_word (c ∷ cs) = ground (arith, all-span_word cs)

  length-cut_phrase : (s : Text) → length (cut_phrase alnum space s).1 ≤ length s
  unfolding cut_phrase
  length-cut_phrase [] = omega arith
  length-cut_phrase (c ∷ cs) = ground (arith, length-cut_phrase cs)

  all-flush :
      (word : Text) (ws : List Text)
      → all (λ c. not (space c)) word ≡ true
      → all is_phrase_word ws ≡ true
      → all is_phrase_word (flush alnum space word ws) ≡ true
  all-flush [] ws h k = k
  all-flush (c ∷ cs) ws h k = ground arith

  all-snoc :
      (word : Text) (c : ℕ)
      → all (λ c. not (space c)) word ≡ true
      → space c ≡ false
      → all (λ c. not (space c)) (word ++ c ∷ []) ≡ true
  all-snoc [] c h k = ground arith
  all-snoc (d ∷ ds) c h k = let rest = all-snoc ds c (ground arith) k in ground arith

  all-split_words :
      (word s : Text)
      → all (λ c. not (space c)) word ≡ true
      → all is_phrase_word (split_words alnum space word s) ≡ true
  unfolding split_words
  all-split_words word [] h = all-flush word [] h refl
  all-split_words word (c ∷ cs) h = elim (Bool-cases (space c)) [
    | inl y ↦ rw y (all-flush word (split_words alnum space [] cs) h (all-split_words [] cs refl))
    | inr n ↦ rw n (all-split_words (word ++ c ∷ []) cs (all-snoc word c h n))
  ]

  phrase_token-MayBeToken :
      (ws : List Text) → all is_phrase_word ws ≡ true → MayBeToken (phrase_token alnum space ws)
  phrase_token-MayBeToken [] h = tt
  phrase_token-MayBeToken (w ∷ ws) h = (w, ws, refl, h)

  abbrev is_phrase : TokenType → Bool
  is_phrase phrase = true
  is_phrase _ = false

  word_token-MayBeToken :
      (type : TokenType) (w : Text)
      → is_phrase type ≡ false
      → is_word w ≡ true
      → MayBeToken (word_token alnum space type w)
  word_token-MayBeToken type [] e h = tt
  word_token-MayBeToken mandatory (c ∷ cs) e h = (c ∷ cs, refl, h)
  word_token-MayBeToken excluded (c ∷ cs) e h = (c ∷ cs, refl, h)
  word_token-MayBeToken bare (c ∷ cs) e h = (c ∷ cs, refl, h)
  word_token-MayBeToken phrase (c ∷ cs) e h = cc

  -- Apostrophe and hyphen are not alphanumeric.
  module _ (marks : (c : ℕ) → alnum c ≡ true → is_mark c ≡ false) where
    is_word-strip :
        (c : ℕ) (cs : Text)
        → alnum c ≡ true
        → all (is_word_char alnum space) cs ≡ true
        → is_word (strip is_mark (c ∷ cs)) ≡ true
    unfolding lstrip rstrip
    is_word-strip c cs h k =
        rw (marks c h)
          (ground (arith, marks c h, all-rstrip is_mark (is_word_char alnum space) cs k))

    is_word-read_word :
        (c : ℕ) (cs : Text) → alnum c ≡ true → is_word (read_word alnum space (c ∷ cs)).0 ≡ true
    unfolding read_word span_word
    is_word-read_word c cs h =
        rw h (is_word-strip c (span_word alnum space cs).0 h (all-span_word cs))

    length-read_word :
        (c : ℕ) (cs : Text) → alnum c ≡ true → length (read_word alnum space (c ∷ cs)).1 ≤ length cs
    unfolding read_word span_word
    length-read_word c cs h = rw h (length-span_word cs)

    -- A step leaves less than it started with, and its token is well formed.
    abbrev IsStep : Text → Option Token × Text → Type 0
    IsStep cs r = (length r.1 ≤ length cs) × MayBeToken r.0

    if-IsStep :
        (cs : Text) (test : Bool) (a b : Option Token × Text)
        → (test ≡ true → IsStep cs a)
        → (test ≡ false → IsStep cs b)
        → IsStep cs (if test then a else b)
    if-IsStep cs true a b h k = h refl
    if-IsStep cs false a b h k = k refl

    signed-IsStep :
        (type : TokenType) (cs ds : Text)
        → is_phrase type ≡ false
        → length ds ≤ length cs
        → IsStep cs (signed alnum space type cs ds)
    unfolding signed
    signed-IsStep type cs [] e h = (omega arith, tt)
    signed-IsStep type cs (d ∷ ds) e h =
        if-IsStep cs (alnum d) _ _
          (λ y. (
            omega (arith, length-read_word d ds y),
            word_token-MayBeToken type (read_word alnum space (d ∷ ds)).0 e
                (is_word-read_word d ds y),
          ))
          (λ _. (omega arith, tt))

    next_token-IsStep : (c : ℕ) (cs : Text) → IsStep cs (next_token alnum space c cs)
    unfolding next_token
    next_token-IsStep c cs =
        let front = signed alnum space in
        if-IsStep cs (space c) _ _ (λ _. (omega arith, tt))
          (λ _.
            if-IsStep cs (c == 34) _ _
              (λ _. (
                length-cut_phrase cs,
                phrase_token-MayBeToken _
                    (all-split_words [] (strip space (cut_phrase alnum space cs).0) refl),
              ))
              (λ _.
                if-IsStep cs (c == 43) _ _
                  (λ _. signed-IsStep mandatory cs (lstrip space cs) refl (length-lstrip space cs))
                  (λ _.
                    if-IsStep cs (c == 45) _ _
                      (λ _.
                        signed-IsStep excluded cs (lstrip space cs) refl (length-lstrip space cs))
                      (λ _.
                        if-IsStep cs (not (alnum c)) _ _ (λ _. (omega arith, tt))
                          (λ n.
                            let h : alnum c ≡ true = ground (arith, n) in
                            (
                              length-read_word c cs h,
                              word_token-MayBeToken bare (read_word alnum space (c ∷ cs)).0 refl
                                  (is_word-read_word c cs h),
                            ))))))

    push_token-AreAllTokens :
        (t : Option Token) (ts : Option (List Token))
        → MayBeToken t
        → AreAllTokens ts
        → AreAllTokens (push_token alnum space t ts)
    push_token-AreAllTokens t none h k = absurd k
    push_token-AreAllTokens none (some ts) h k = k
    push_token-AreAllTokens (some t) (some ts) h k = (h, k)

    tokenize_from-AreAllTokens :
        (fuel : ℕ) (s : Text) → length s ≤ fuel → AreAllTokens (tokenize_from alnum space fuel s)
    unfolding tokenize_from
    tokenize_from-AreAllTokens zero [] h = tt
    tokenize_from-AreAllTokens (suc fuel) [] h = tt
    tokenize_from-AreAllTokens zero (c ∷ cs) h = absurd (omega arith)
    tokenize_from-AreAllTokens (suc fuel) (c ∷ cs) h =
        let (less, token) = next_token-IsStep c cs in
        push_token-AreAllTokens (next_token alnum space c cs).0 _ token
          (tokenize_from-AreAllTokens fuel (next_token alnum space c cs).1 (omega arith))

    -- The loop over a search text ends, whatever the text, and gives well formed tokens: a bare,
    -- mandatory or excluded one is a word, which starts with an alphanumeric character, with its `:*`,
    -- and a phrase is a list of at least one word, none empty or with white space in it. Apostrophe
    -- and hyphen are not alphanumeric.
    pub tokenize-AreAllTokens : (s : Text) → AreAllTokens (tokenize alnum space s)
    unfolding tokenize
    tokenize-AreAllTokens s = tokenize_from-AreAllTokens (length s) s (omega arith)
