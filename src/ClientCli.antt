-- ===== src/ClientCli.antt =====
-- client/client_cli.cpp: the command line of the client. A line is read word by word; the operation is
-- kept from line to line, so that a blank line repeats the last one. The exchange with the server is
-- that of SrcClient.antt. Output is a list of texts and numbers.
pub mod Words
pub mod Commands
use dwt_src.Prelude.{
  ℕ, zero, suc, ◌+◌, ◌*◌, ◌-◌, ◌%◌, Bool, true, false, ◌||◌, ◌&&◌, not, List, [], ◌∷◌, ◌++◌, ltb,
  leb, ◌==◌, if◌then◌else◌, Outcome, ok, ◌>>=◌,
}
use dwt_src.Bytes.{Bytes, bytes, bytes_eq}
use dwt_src.Messages.{NodeState}
use dwt_src.SrcServer.{ServerCodecs}
use dwt_src.SrcClient.{
  SrcClient, create_node, get_node, set_node, delete_node, ls_node, stat_node, exists_node,
}

-- The white space of the classic locale.
abbrev pub is_space : ℕ → Bool
is_space b = (b == 32) || (leb 9 b && leb b 13)

abbrev pub skip_space : Bytes → Bytes
skip_space [] = []
skip_space (b ∷ s) = if is_space b then skip_space s else b ∷ s

-- The word at the start of a text, and what follows it.
abbrev pub first_word : Bytes → Bytes × Bytes
first_word [] = ([], [])
first_word (b ∷ s) =
    let (word, rest) = first_word s in if is_space b then ([], b ∷ s) else (b ∷ word, rest)

-- `ss >> word`, which leaves the variable alone when only white space is left.
abbrev pub read_some : Bytes → Bytes → Bytes × Bytes
read_some old [] = (old, [])
read_some old (b ∷ text) = first_word (b ∷ text)

unfoldable pub read_word : Bytes → Bytes → Bytes × Bytes
read_word old s = read_some old (skip_space s)

abbrev pub is_digit : ℕ → Bool
is_digit b = leb 48 b && leb b 57

-- The number of the digits at the start of a text, behind a number that was read.
abbrev pub digits : ℕ → Bytes → ℕ
digits n [] = n
digits n (b ∷ s) = let more = digits (n * 10 + (b - 48)) s in if is_digit b then more else n

-- The largest number of an `int`, and the number of its values.
abbrev pub int_max : ℕ
int_max = 2147483647

abbrev pub int_modulus : ℕ
int_modulus = 4294967296

-- The `int` at the start of a text, as a word of 32 bits: no digits give 0, and what does not fit gives
-- the nearest number that does.
abbrev pub int_of : Bytes → ℕ
int_of [] = 0
int_of (b ∷ s) =
    let negative = digits 0 s in
    let signless = digits 0 (if b == 43 then s else b ∷ s) in
    if b == 45
    then (int_modulus - (if leb negative (suc int_max) then negative else suc int_max))
      % int_modulus
    else (if leb signless int_max then signless else int_max)

-- `ss >> number`
abbrev pub read_int_some : ℕ → Bytes → ℕ
read_int_some old [] = old
read_int_some old (b ∷ text) = int_of (b ∷ text)

unfoldable pub read_int : ℕ → Bytes → ℕ
read_int old s = read_int_some old (skip_space s)

-- A number is written in the base that is set.
pub data Output : Type 0 where
  text : Bytes → Output
  decimal hexadecimal : ℕ → Output

abbrev pub new_line : Output
new_line = text (10 ∷ [])

abbrev pub line : Bytes → List Output
line s = text s ∷ new_line ∷ []

abbrev pub number : Bool → ℕ → Output
number false n = decimal n
number true n = hexadecimal n

abbrev pub prompt : List Output
prompt = text (bytes "SRCCLI$ ") ∷ []

-- The rest of the loop that writes the children of `ls`.
abbrev pub more_children : List Bytes → List Output
more_children [] = []
more_children (child ∷ children) = text (bytes ", ") ∷ text child ∷ more_children children

abbrev pub list_children : List Bytes → List Output
list_children [] = text (bytes "[") ∷ text (bytes "]") ∷ new_line ∷ []
list_children (child ∷ children) =
    text (bytes "[") ∷ text child ∷ (more_children children ++ (text (bytes "]") ∷ new_line ∷ []))

-- The base in which `std::cout` writes a number stays set from call to call.
pub record Cli : Type 0 where
  pub op : Bytes
  pub is_hex : Bool

abbrev pub stat_lines : Bool → NodeState → List Output
stat_lines is_hex state =
    text (bytes "nodeType: ")
    ∷ number is_hex state.node_type
    ∷ new_line
    ∷ text (bytes "dataLength: ")
    ∷ decimal state.data_length
    ∷ new_line
    ∷ text (bytes "numChildren: ")
    ∷ decimal state.num_children
    ∷ new_line
    ∷ text (bytes "ephemeralOwner: ")
    ∷ hexadecimal state.ephemeral_owner
    ∷ new_line
    ∷ new_line
    ∷ []

-- The end of a branch that was taken: the prompt is written.
unfoldable pub prompted :
    {S : Type 0} → Cli → Outcome (S × List Output) → Outcome (S × (Cli × List Output))
prompted cli branch = do (s', written) ← branch; ok (s', (cli, written ++ prompt))

module _ (codecs : ServerCodecs) {S : Type 0} (exchange : Bytes → S → Outcome (S × Bytes))
    (c : SrcClient) where
  -- The branches of the loop, on what is left of the line.
  unfoldable pub cli_create : Bytes → S → Outcome (S × List Output)
  unfolding read_word read_int
  cli_create rest s =
      let (path, after_path) = read_word [] rest in
      let (data_word, after_data) = read_word [] after_path in
      let type = read_int 1 after_data in
      let type' = if type == 0 then 1 else type in
      do
        (s', res) ← create_node codecs exchange c path data_word type' s
        ok (s', line (if res then bytes "create success" else bytes "create error"))

  unfoldable pub cli_get : Bytes → S → Outcome (S × List Output)
  unfolding read_word
  cli_get rest s = do
    (s', res) ← get_node codecs exchange c (read_word [] rest).0 s
    ok (s', line res)

  unfoldable pub cli_set : Bytes → S → Outcome (S × List Output)
  unfolding read_word
  cli_set rest s =
      let (path, after_path) = read_word [] rest in
      let (data_word, after_data) = read_word [] after_path in
      do
        (s', res) ← set_node codecs exchange c path data_word s
        ok (s', line (if res then bytes "set success" else bytes "set error"))

  unfoldable pub cli_delete : Bytes → S → Outcome (S × List Output)
  unfolding read_word
  cli_delete rest s = do
    (s', res) ← delete_node codecs exchange c (read_word [] rest).0 s
    ok (s', line (if res then bytes "set success" else bytes "set error"))

  unfoldable pub cli_ls : Bytes → S → Outcome (S × List Output)
  unfolding read_word
  cli_ls rest s = do
    (s', children) ← ls_node codecs exchange c (read_word [] rest).0 s
    ok (s', list_children children)

  unfoldable pub cli_stat : Bool → Bytes → S → Outcome (S × List Output)
  unfolding read_word
  cli_stat is_hex rest s = do
    (s', state) ← stat_node codecs exchange c (read_word [] rest).0 s
    ok (s', stat_lines is_hex state)

  unfoldable pub cli_exists : Bytes → S → Outcome (S × List Output)
  unfolding read_word
  cli_exists rest s = do
    (s', res) ← exists_node codecs exchange c (read_word [] rest).0 s
    ok (s', line (if res then bytes "exists" else bytes "not exists"))

  unfoldable pub dispatch : Cli → Bytes → S → Outcome (S × (Cli × List Output))
  unfolding prompted
  dispatch cli rest s =
      if bytes_eq cli.op (bytes "create")
      then prompted cli (cli_create rest s)
      else if bytes_eq cli.op (bytes "get")
      then prompted cli (cli_get rest s)
      else if bytes_eq cli.op (bytes "set")
      then prompted cli (cli_set rest s)
      else if bytes_eq cli.op (bytes "delete")
      then prompted cli (cli_delete rest s)
      else if bytes_eq cli.op (bytes "ls")
      then prompted cli (cli_ls rest s)
      else if bytes_eq cli.op (bytes "stat")
      then prompted (record cli { is_hex = true }) (cli_stat cli.is_hex rest s)
      else if bytes_eq cli.op (bytes "exists")
      then prompted cli (cli_exists rest s)
      else ok (s, (cli, line (bytes "invalid operation")))

  unfoldable pub execute : Cli → Bytes → S → Outcome (S × (Cli × List Output))
  unfolding read_word dispatch
  execute cli input s =
      let (op, rest) = read_word cli.op input in dispatch (record cli { op = op }) rest s

  unfoldable pub execute_all : List Bytes → Cli → S → Outcome (S × (Cli × List Output))
  unfolding execute
  execute_all [] cli s = ok (s, (cli, []))
  execute_all (input ∷ inputs) cli s = do
    (s', (cli', written)) ← execute cli input s
    (s'', (cli'', more)) ← execute_all inputs cli' s'
    ok (s'', (cli'', written ++ more))

-- `run`, on the lines of the standard input.
unfoldable pub run :
    (codecs : ServerCodecs) {S : Type 0}
    → (Bytes → S → Outcome (S × Bytes))
    → SrcClient
    → Bytes
    → ℕ
    → List Bytes
    → S
    → Outcome (S × List Output)
run codecs exchange c ip port inputs s = do
  (s', (joined, success)) ← dwt_src.SrcClient.connect codecs exchange c ip port s
  (s'', (cli, written)) ←
      execute_all codecs exchange joined inputs (record { op = []; is_hex = false }) s'
  ok (s'', prompt ++ written)
