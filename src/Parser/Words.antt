-- ===== src/Parser/Words.antt =====
-- Words with delimiters between them, as `next_token` of src/event_parser.cpp takes them off a line.
use orda_book.Prelude.{ℕ, suc, ◌==◌, ◌≡◌, refl, ap, true, false, List, [], ◌∷◌, ◌++◌, length, All}
use orda_book.Prelude.Lists.{take-append, drop-append}
use orda_book.Parser.Tokens.{
  Bytes, is_empty, is_delimiter, skip_delimiters, token_length, next_token,
}

abbrev pub IsDelimiter : ℕ → Type 0
IsDelimiter ch = is_delimiter ch ≡ true

-- A byte of a word is no delimiter and does not end the line.
pub record IsInner (ch : ℕ) : Type 0 where
  pub inner : is_delimiter ch ≡ false
  pub in_line : (ch == b'\n') ≡ false

pub record IsWord (word : Bytes) : Type 0 where
  pub inner : All IsInner word
  pub filled : is_empty word ≡ false

pub skip-delimiters :
    (gap rest : Bytes) → All IsDelimiter gap → skip_delimiters (gap ++ rest) ≡ skip_delimiters rest
unfolding skip_delimiters
skip-delimiters [] rest d = refl
skip-delimiters (ch ∷ gap) rest (d, ds) = rw d (skip-delimiters gap rest ds)

pub skip_word : (word rest : Bytes) → IsWord word → skip_delimiters (word ++ rest) ≡ word ++ rest
unfolding skip_delimiters
skip_word [] rest w = let e = w.filled in cc
skip_word (ch ∷ word) rest w = rw w.inner.0.inner

-- What may follow a word.
abbrev Ends : Bytes → Type 0
Ends [] = Unit {0}
Ends (ch ∷ rest) = IsDelimiter ch

token_length-word :
    (word rest : Bytes) → All IsInner word → Ends rest → token_length (word ++ rest) ≡ length word
unfolding token_length
token_length-word [] [] w e = refl
token_length-word [] (ch ∷ rest) w e = rw e
token_length-word (ch ∷ word) rest (w, ws) e =
    rw w.inner (ap suc (token_length-word word rest ws e))

module _ (first : ℕ) (more : Bytes) (first_delimits : IsDelimiter first)
    (delimits : All IsDelimiter more) where
  -- Every word with the delimiters `first ∷ more` before it.
  abbrev pub spaced : List Bytes → Bytes
  spaced [] = []
  spaced (word ∷ words) = (first ∷ more) ++ (word ++ spaced words)

  spaced-Ends : (words : List Bytes) → Ends (spaced words)
  spaced-Ends [] = tt
  spaced-Ends (word ∷ words) = first_delimits

  pub next_token-word :
      (gap word : Bytes) (words : List Bytes)
      → All IsDelimiter gap
      → IsWord word
      → next_token (gap ++ (word ++ spaced words)) ≡ (word, spaced words)
  unfolding next_token
  next_token-word gap word words d w =
      let rest = spaced words in
      rw (
        skip-delimiters gap (word ++ rest) d,
        skip_word word rest w,
        token_length-word word rest w.inner (spaced-Ends words),
        take-append word rest,
        drop-append word rest,
      )

  pub next_token-spaced :
      (word : Bytes) (words : List Bytes)
      → IsWord word
      → next_token (spaced (word ∷ words)) ≡ (word, spaced words)
  next_token-spaced word words w =
      next_token-word (first ∷ more) word words (first_delimits, delimits) w
