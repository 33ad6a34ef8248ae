-- ===== src/ClientCli/Commands.antt =====
-- The commands of client/client_cli.cpp against the calls of the client library.
use dwt_src.Prelude.{
  ◌≡◌, refl, Bool, true, List, [], ◌∷◌, ◌++◌, ◌==◌, if◌then◌else◌, Outcome, ok, ◌>>=◌,
}
use dwt_src.Bytes.{Bytes, bytes, bytes_eq}
use dwt_src.SrcServer.{ServerCodecs}
use dwt_src.SrcClient.{
  SrcClient, create_node, get_node, set_node, delete_node, ls_node, stat_node, exists_node,
}
use dwt_src.ClientCli.{
  Cli, Output, line, list_children, stat_lines, int_of, read_word, execute, dispatch, prompted,
  cli_create, cli_get, cli_set, cli_delete, cli_ls, cli_stat, cli_exists, skip_space,
}
use dwt_src.ClientCli.Words.{
  Word, word_end, word_byte, next_words, read_word-first, read_word-next, read_int_lem,
}

-- What a user can ask for; the type of a node is a text, and may be left out.
pub data Command : Type 0 where
  creates : Bytes → Bytes → Command
  creates_typed : Bytes → Bytes → Bytes → Command
  gets deletes lists stats asks : Bytes → Command
  sets : Bytes → Bytes → Command

abbrev pub name_of : Command → Bytes
name_of (creates path content) = bytes "create"
name_of (creates_typed path content type) = bytes "create"
name_of (gets path) = bytes "get"
name_of (deletes path) = bytes "delete"
name_of (lists path) = bytes "ls"
name_of (stats path) = bytes "stat"
name_of (asks path) = bytes "exists"
name_of (sets path content) = bytes "set"

abbrev pub words_of : Command → List Bytes
words_of (creates path content) = path ∷ content ∷ []
words_of (creates_typed path content type) = path ∷ content ∷ type ∷ []
words_of (gets path) = path ∷ []
words_of (deletes path) = path ∷ []
words_of (lists path) = path ∷ []
words_of (stats path) = path ∷ []
words_of (asks path) = path ∷ []
words_of (sets path content) = path ∷ content ∷ []

-- The line that a user writes for a command.
abbrev pub print : Command → Bytes
print command = name_of command ++ next_words (words_of command)

pub data Words : List Bytes → Type 0 where
  no_words : Words []
  words : {word : Bytes} {rest : List Bytes} → Word word → Words rest → Words (word ∷ rest)

-- A call of the client library that tells whether it succeeded, and what is written then.
abbrev pub told : {S : Type 0} → Bytes → Bytes → Outcome (S × Bool) → Outcome (S × List Output)
told success failure call = do (s', res) ← call; ok (s', line (if res then success else failure))

-- Numbers are written in base 16 after a `stat`.
abbrev pub cli_after : Command → Cli → Cli
cli_after (stats path) cli = record { op = bytes "stat"; is_hex = true }
cli_after command cli = record { op = name_of command; is_hex = cli.is_hex }

pub name-Word : (command : Command) → Word (name_of command)
name-Word (creates path content) = search (word_end, word_byte) depth 8
name-Word (creates_typed path content type) = search (word_end, word_byte) depth 8
name-Word (gets path) = search (word_end, word_byte) depth 8
name-Word (deletes path) = search (word_end, word_byte) depth 8
name-Word (lists path) = search (word_end, word_byte) depth 8
name-Word (stats path) = search (word_end, word_byte) depth 8
name-Word (asks path) = search (word_end, word_byte) depth 8
name-Word (sets path content) = search (word_end, word_byte) depth 8

module _ (codecs : ServerCodecs) {S : Type 0} (exchange : Bytes → S → Outcome (S × Bytes))
    (c : SrcClient) where
  -- The calls that the commands stand for, and what is written.
  abbrev pub calls : Command → Bool → S → Outcome (S × List Output)
  calls (creates path content) is_hex s =
      told (bytes "create success") (bytes "create error")
        (create_node codecs exchange c path content 1 s)
  calls (creates_typed path content type) is_hex s =
      told (bytes "create success") (bytes "create error")
        (create_node codecs exchange c path content (if int_of type == 0 then 1 else int_of type) s)
  calls (gets path) is_hex s = do (s', res) ← get_node codecs exchange c path s; ok (s', line res)
  calls (deletes path) is_hex s =
      told (bytes "set success") (bytes "set error") (delete_node codecs exchange c path s)
  calls (lists path) is_hex s = do
    (s', children) ← ls_node codecs exchange c path s
    ok (s', list_children children)
  calls (stats path) is_hex s = do
    (s', state) ← stat_node codecs exchange c path s
    ok (s', stat_lines is_hex state)
  calls (asks path) is_hex s =
      told (bytes "exists") (bytes "not exists") (exists_node codecs exchange c path s)
  calls (sets path content) is_hex s =
      told (bytes "set success") (bytes "set error") (set_node codecs exchange c path content s)

  dispatch_lem :
      (command : Command) (cli : Cli) (s : S)
      → Words (words_of command)
      → dispatch codecs exchange c
          (record cli { op = name_of command })
          (next_words (words_of command))
          s
        ≡ prompted (cli_after command cli) (calls command cli.is_hex s)
  unfolding dispatch cli_create cli_get cli_set cli_delete cli_ls cli_stat cli_exists bytes_eq
  dispatch_lem (creates path content) cli s (words p (words d no_words)) =
      rw (read_word-next [] path (content ∷ []) p, read_word-next [] content [] d) refl
  dispatch_lem (creates_typed path content type) cli s (words p (words d (words t no_words))) =
      rw
        (
          read_word-next [] path (content ∷ type ∷ []) p,
          read_word-next [] content (type ∷ []) d,
          read_int_lem 1 type t,
        )
        refl
  dispatch_lem (gets path) cli s (words p no_words) = rw (read_word-next [] path [] p) refl
  dispatch_lem (deletes path) cli s (words p no_words) = rw (read_word-next [] path [] p) refl
  dispatch_lem (lists path) cli s (words p no_words) = rw (read_word-next [] path [] p) refl
  dispatch_lem (stats path) cli s (words p no_words) = rw (read_word-next [] path [] p) refl
  dispatch_lem (asks path) cli s (words p no_words) = rw (read_word-next [] path [] p) refl
  dispatch_lem (sets path content) cli s (words p (words d no_words)) =
      rw (read_word-next [] path (content ∷ []) p, read_word-next [] content [] d) refl

  -- On the line that a user writes for a command, with a path, a content and a type that are words, one
  -- round of the loop makes the call of the client library that the command stands for, with these
  -- arguments, and writes its result and the prompt, whatever the line before was; a create without
  -- a type, or with one that reads as 0, asks for the type 1.
  pub execute_lem :
      (command : Command) (cli : Cli) (s : S)
      → Words (words_of command)
      → execute codecs exchange c cli (print command) s
        ≡ prompted (cli_after command cli) (calls command cli.is_hex s)
  unfolding execute
  execute_lem command cli s are_words =
      rw (read_word-first cli.op (name_of command) (words_of command) (name-Word command))
        (dispatch_lem command cli s are_words)

  -- A line of white space, of any length, is the operation of the line before once more, without
  -- arguments: whatever that operation is, it is carried out with an empty path.
  pub blank_lem :
      (blank : Bytes) (cli : Cli) (s : S)
      → skip_space blank ≡ []
      → execute codecs exchange c cli blank s ≡ dispatch codecs exchange c cli [] s
  unfolding execute read_word
  blank_lem blank cli s is_blank = rw is_blank refl
