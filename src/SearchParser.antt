-- ===== src/SearchParser.antt =====
-- fastedgy/orm/filter/search_parser.py: a search text as an expression for to_tsquery.
-- What Python takes for alphanumeric and for white space is a parameter, since it is Unicode's.
pub mod Tokens
mod Examples
use fastedgy.Prelude.{
  ℕ, zero, suc, Bool, true, false, Option, none, some, List, [], ◌∷◌, ◌++◌, map, length, not, ◌==◌,
  ◌||◌, ◌&&◌, leb, if◌then◌else◌,
}
use fastedgy.Text.{Text, codes}

-- `_QUOTE_CHARS`
abbrev is_quote : ℕ → Bool
is_quote c =
    c == 34
    || c == 171
    || c == 187
    || leb 8216 c && leb c 8223
    || leb 8249 c && leb c 8250
    || leb 12300 c && leb c 12303
    || c == 65282

pub data TokenType : Type 0 where
  mandatory excluded phrase bare : TokenType

-- `_Token`
pub record Token : Type 0 where
  pub token_type : TokenType
  pub value : Text

unfoldable pub lstrip : (ℕ → Bool) → Text → Text
lstrip test [] = []
lstrip test (c ∷ cs) = let rest = lstrip test cs in if test c then rest else c ∷ cs

abbrev pub is_blank : Text → Bool
is_blank [] = true
is_blank (_ ∷ _) = false

unfoldable pub rstrip : (ℕ → Bool) → Text → Text
rstrip test [] = []
rstrip test (c ∷ cs) = let rest = rstrip test cs in if is_blank rest && test c then [] else c ∷ rest

-- `s.strip()`, of the characters that pass the test.
abbrev pub strip : (ℕ → Bool) → Text → Text
strip test s = rstrip test (lstrip test s)

-- `separator.join(parts)`
unfoldable pub join : Text → List Text → Text
join separator [] = []
join separator (p ∷ []) = p
join separator (p ∷ q ∷ ps) = p ++ (separator ++ join separator (q ∷ ps))

-- `" "`, `"'"` and `"-"` are 32, 39 and 45.
abbrev pub is_mark : ℕ → Bool
is_mark c = c == 39 || c == 45

module _ (alnum space : ℕ → Bool) where
  -- `_normalize_input`, on one character.
  unfoldable pub normalize_char : ℕ → ℕ
  normalize_char c =
      let q = if is_quote c then 34 else c in
      if alnum q || q == 32 || q == 34 || q == 43 || q == 45 || q == 39 then q else 32

  unfoldable pub normalize_input : Text → Text
  unfolding normalize_char
  normalize_input raw = map normalize_char raw

  abbrev pub is_word_char : ℕ → Bool
  is_word_char c = alnum c || is_mark c

  -- The characters from `start` on that belong to the word, and the others.
  unfoldable pub span_word : Text → Text × Text
  span_word [] = ([], [])
  span_word (c ∷ cs) =
      let (word, rest) = span_word cs in if is_word_char c then (c ∷ word, rest) else ([], c ∷ cs)

  -- `_read_word`
  unfoldable pub read_word : Text → Text × Text
  unfolding span_word lstrip rstrip
  read_word s = let (word, rest) = span_word s in (strip is_mark word, rest)

  -- What stands in front of the next `"`, and what stands behind it.
  unfoldable pub cut_phrase : Text → Text × Text
  cut_phrase [] = ([], [])
  cut_phrase (c ∷ cs) =
      let (inside, rest) = cut_phrase cs in if c == 34 then ([], cs) else (c ∷ inside, rest)

  abbrev pub flush : Text → List Text → List Text
  flush [] words = words
  flush (c ∷ cs) words = (c ∷ cs) ∷ words

  -- `s.split()`, behind the word so far.
  unfoldable pub split_words : Text → Text → List Text
  split_words word [] = flush word []
  split_words word (c ∷ cs) =
      let behind = split_words [] cs in
      let within = split_words (word ++ c ∷ []) cs in if space c then flush word behind else within

  -- The token of a quoted phrase.
  abbrev pub phrase_token : List Text → Option Token
  phrase_token [] = none
  phrase_token (w ∷ ws) =
      some (record { token_type = phrase; value = join (codes " <-> ") (w ∷ ws) })

  abbrev pub word_token : TokenType → Text → Option Token
  word_token type [] = none
  word_token type (c ∷ cs) = some (record { token_type = type; value = (c ∷ cs) ++ codes ":*" })

  -- `+` or `-` in front of `cs`: the word behind the spaces, if there is one.
  unfoldable pub signed : TokenType → Text → Text → Option Token × Text
  unfolding read_word
  signed type cs [] = (none, cs)
  signed type cs (d ∷ ds) =
      let (word, rest) = read_word (d ∷ ds) in
      if alnum d then (word_token type word, rest) else (none, cs)

  -- One round of the loop of `_tokenize` at the character `c`: its token, and what is left.
  unfoldable pub next_token : ℕ → Text → Option Token × Text
  unfolding cut_phrase split_words signed read_word lstrip rstrip join
  next_token c cs =
      let (inside, behind) = cut_phrase cs in
      let (word, rest) = read_word (c ∷ cs) in
      if space c
      then (none, cs)
      else if c == 34
      then (phrase_token (split_words [] (strip space inside)), behind)
      else if c == 43
      then signed mandatory cs (lstrip space cs)
      else if c == 45
      then signed excluded cs (lstrip space cs)
      else if not (alnum c)
      then (none, cs)
      else (word_token bare word, rest)

  abbrev pub push_token : Option Token → Option (List Token) → Option (List Token)
  push_token t none = none
  push_token none (some ts) = some ts
  push_token (some t) (some ts) = some (t ∷ ts)

  -- The loop, on fuel: `none` where it runs out.
  unfoldable pub tokenize_from : ℕ → Text → Option (List Token)
  unfolding next_token
  tokenize_from fuel [] = some []
  tokenize_from zero (c ∷ cs) = none
  tokenize_from (suc fuel) (c ∷ cs) =
      let (t, rest) = next_token c cs in push_token t (tokenize_from fuel rest)

  -- `_tokenize`
  unfoldable pub tokenize : Text → Option (List Token)
  unfolding tokenize_from
  tokenize raw = tokenize_from (length raw) raw

  -- The values of the tokens of the types that pass the test.
  pub values_of : (TokenType → Bool) → List Token → List Text
  values_of test [] = []
  values_of test (t ∷ ts) =
      let rest = values_of test ts in if test t.token_type then t.value ∷ rest else rest

  abbrev in_brackets : Text → Text
  in_brackets s = codes "(" ++ (s ++ codes ")")

  abbrev is_mandatory : TokenType → Bool
  is_mandatory mandatory = true
  is_mandatory phrase = true
  is_mandatory _ = false

  abbrev is_excluded : TokenType → Bool
  is_excluded excluded = true
  is_excluded _ = false

  abbrev is_bare : TokenType → Bool
  is_bare bare = true
  is_bare _ = false

  -- The part of the optional terms.
  abbrev optional_part : List Text → List Text
  optional_part [] = []
  optional_part (t ∷ []) = t ∷ []
  optional_part (t ∷ u ∷ ts) = in_brackets (join (codes " | ") (t ∷ u ∷ ts)) ∷ []

  unfoldable pub query_of : List Token → Text
  unfolding values_of join
  query_of tokens = join (codes " & ") (
      optional_part (values_of is_bare tokens)
      ++ (map in_brackets (values_of is_mandatory tokens)
          ++ map (λ t. codes "!" ++ in_brackets t) (values_of is_excluded tokens)))

  -- `parse_search_input`, by its tokens: `none` where the fuel runs out.
  unfoldable pub parse_search_input : Text → Option Text
  unfolding normalize_input tokenize query_of lstrip rstrip
  parse_search_input raw =
      let text = normalize_input (strip space raw) in
      elim (tokenize text) [
        | none ↦ none
        | some tokens ↦ some (if is_blank (strip space text) then [] else query_of tokens)
      ]
