-- ===== src/Lex/KeywordsLaws.antt =====
-- Laws of the table of keywords (src/dict.cpp).
use kcc.Lex.Keywords.{Keyword, keywords, find, find_in}
use kcc.Prelude.{
  Bool, true, false, not, ◌&&◌, List, [], ◌∷◌, ◌≡◌, refl, same_bytes, same_bytes_refl, In, head,
  tail, every, every-In, arith,
}

-- The spellings differ from one another.
abbrev distinct : List Keyword → Bool
distinct [] = true
distinct (k ∷ ks) =
    every (λ (j : Keyword). not (same_bytes k.spelling j.spelling)) ks && distinct ks

keywords_distinct : distinct keywords ≡ true
unfolding keywords
keywords_distinct = refl

find_in-spelling :
    (ks : List Keyword) (k : Keyword) → distinct ks ≡ true → In k ks → find_in ks k.spelling ≡ k.tag
unfolding find_in
find_in-spelling [] k d i = elim i [ ]
find_in-spelling (j ∷ ks) _ d head = rw (same_bytes_refl j.spelling)
find_in-spelling (j ∷ ks) k d (tail i) =
    let differ =
      every-In (λ (x : Keyword). not (same_bytes j.spelling x.spelling)) ks (ground (arith, d)) i in
    let other : same_bytes j.spelling k.spelling ≡ false = ground (arith, differ) in
    rw other (find_in-spelling ks k (ground (arith, d)) i)

-- Each keyword of the table is found under its spelling, with its own tag.
pub find-keywords : (k : Keyword) → In k keywords → find k.spelling ≡ k.tag
unfolding find
find-keywords k i = find_in-spelling keywords k keywords_distinct i
