-- ===== src/ClientCli/Words.antt =====
-- The words of a line of client/client_cli.cpp.
use dwt_src.Prelude.{ℕ, ◌≡◌, refl, ap, ◌∙◌, false, List, [], ◌∷◌, ◌++◌, append_empty}
use dwt_src.Bytes.{Bytes}
use dwt_src.ClientCli.{
  is_space, skip_space, first_word, read_word, read_some, read_int, read_int_some, int_of,
}

-- A text of one byte at least and without white space.
pub data Word : Bytes → Type 0 where
  word_end : {b : ℕ} → is_space b ≡ false → Word (b ∷ [])
  word_byte : {b : ℕ} {s : Bytes} → is_space b ≡ false → Word s → Word (b ∷ s)

-- Words behind a word, each after one blank.
abbrev pub next_words : List Bytes → Bytes
next_words [] = []
next_words (word ∷ words) = 32 ∷ (word ++ next_words words)

first_word-next : (words : List Bytes) → first_word (next_words words) ≡ ([], next_words words)
first_word-next [] = refl
first_word-next (word ∷ words) = refl

first_word_lem :
    (word : Bytes) (words : List Bytes)
    → Word word
    → first_word (word ++ next_words words) ≡ (word, next_words words)
first_word_lem [] words is_word = elim is_word [ ]
first_word_lem (b ∷ []) words (word_end inside) = rw (inside, first_word-next words) refl
first_word_lem (b ∷ s) words (word_byte inside rest) = rw (inside, first_word_lem s words rest) refl

skip_space_lem : (word text : Bytes) → Word word → skip_space (word ++ text) ≡ word ++ text
skip_space_lem [] text is_word = elim is_word [ ]
skip_space_lem (b ∷ []) text (word_end inside) = rw inside refl
skip_space_lem (b ∷ s) text (word_byte inside rest) = rw inside refl

read_some_lem :
    (old word : Bytes) (words : List Bytes)
    → Word word
    → read_some old (word ++ next_words words) ≡ (word, next_words words)
read_some_lem old [] words is_word = elim is_word [ ]
read_some_lem old (b ∷ s) words is_word = first_word_lem (b ∷ s) words is_word

pub read_word-first :
    (old word : Bytes) (words : List Bytes)
    → Word word
    → read_word old (word ++ next_words words) ≡ (word, next_words words)
unfolding read_word
read_word-first old word words is_word =
    ap (read_some old) (skip_space_lem word (next_words words) is_word)
    ∙ read_some_lem old word words is_word

pub read_word-next :
    (old word : Bytes) (words : List Bytes)
    → Word word
    → read_word old (next_words (word ∷ words)) ≡ (word, next_words words)
unfolding read_word
read_word-next old word words is_word = read_word-first old word words is_word

pub read_word-none : (old : Bytes) → read_word old (next_words []) ≡ (old, [])
unfolding read_word
read_word-none old = refl

read_int_some_lem : (old : ℕ) (word : Bytes) → Word word → read_int_some old word ≡ int_of word
read_int_some_lem old [] is_word = elim is_word [ ]
read_int_some_lem old (b ∷ s) is_word = refl

pub read_int_lem :
    (old : ℕ) (word : Bytes) → Word word → read_int old (next_words (word ∷ [])) ≡ int_of word
unfolding read_int
read_int_lem old word is_word =
    ap (read_int_some old) (skip_space_lem word [] is_word ∙ append_empty word)
    ∙ read_int_some_lem old word is_word
