-- ===== src/SearchParser/Examples.antt =====
-- Search texts of ASCII characters, and the theorem at one.
use fastedgy.Prelude.{ℕ, Bool, true, false, some, ◌==◌, ◌||◌, ◌&&◌, leb, ◌≡◌, refl, arith}
use fastedgy.Text.{codes}
use fastedgy.SearchParser.{is_mark, tokenize, parse_search_input}
use fastedgy.SearchParser.Tokens.{AreAllTokens, tokenize-AreAllTokens}

abbrev ascii_alnum : ℕ → Bool
ascii_alnum c = leb 48 c && leb c 57 || leb 65 c && leb c 90 || leb 97 c && leb c 122

abbrev ascii_space : ℕ → Bool
ascii_space c = c == 32 || leb 9 c && leb c 13 || leb 28 c && leb c 31

query :
    parse_search_input ascii_alnum ascii_space (codes " le +chat - chien \"sur le\" toit")
    ≡ some (codes "(le:* | toit:*) & (chat:*) & (sur <-> le) & !(chien:*)")
unfolding parse_search_input
query = refl

-- A word of a phrase keeps its apostrophe in front.
keeps_apostrophe :
    parse_search_input ascii_alnum ascii_space (codes "\"'chat\"") ≡ some (codes "('chat)")
unfolding parse_search_input
keeps_apostrophe = refl

marks : (c : ℕ) → ascii_alnum c ≡ true → is_mark c ≡ false
marks c h = ground arith

tokenize-AreAllTokens_example :
    AreAllTokens ascii_alnum ascii_space (tokenize ascii_alnum ascii_space (codes "+ab \"c d\" -"))
tokenize-AreAllTokens_example =
    tokenize-AreAllTokens ascii_alnum ascii_space marks (codes "+ab \"c d\" -")
