-- ===== src/Console.antt =====
-- `test` of src/main.cpp: a command line on the registry itself, without a client and a server, with the
-- session 123. Lines are read as in ClientCli.antt; the texts that are not ASCII are in UTF-8.
pub mod Lines
use dwt_src.Prelude.{
  ℕ, Bool, true, false, Option, none, some, List, [], ◌∷◌, ◌++◌, ◌==◌, if◌then◌else◌,
}
use dwt_src.Bytes.{Bytes, bytes, bytes_eq}
use dwt_src.Messages.{
  Codec, ServiceCodecs, StatusResponse, GetNodeResponse, LsNodeResponse, StatNodeResponse,
  ExistsNodeResponse, NodeState,
}
use dwt_src.Messages.ServiceType
use dwt_src.Services.{Services, handle}
use dwt_src.SrcClient.{default_state}
use dwt_src.ClientCli.{
  Cli, Output, text, new_line, line, number, hexadecimal, list_children, read_word, read_int,
}

abbrev pub session : ℕ
session = 123

abbrev pub create_text : Bytes
create_text = 229 ∷ 136 ∷ 155 ∷ 229 ∷ 187 ∷ 186 ∷ 232 ∷ 138 ∷ 130 ∷ 231 ∷ 130 ∷ 185 ∷ 58 ∷ 32 ∷ []

abbrev pub get_text : Bytes
get_text = 232 ∷ 142 ∷ 183 ∷ 229 ∷ 143 ∷ 150 ∷ 232 ∷ 138 ∷ 130 ∷ 231 ∷ 130 ∷ 185 ∷ 58 ∷ 32 ∷ []

abbrev pub set_text : Bytes
set_text = 232 ∷ 174 ∷ 190 ∷ 231 ∷ 189 ∷ 174 ∷ 232 ∷ 138 ∷ 130 ∷ 231 ∷ 130 ∷ 185 ∷ 58 ∷ 32 ∷ []

abbrev pub delete_text : Bytes
delete_text = 229 ∷ 136 ∷ 160 ∷ 233 ∷ 153 ∷ 164 ∷ 232 ∷ 138 ∷ 130 ∷ 231 ∷ 130 ∷ 185 ∷ 58 ∷ 32 ∷ []

abbrev pub ls_text : Bytes
ls_text = 108 ∷ 115 ∷ 32 ∷ 232 ∷ 138 ∷ 130 ∷ 231 ∷ 130 ∷ 185 ∷ 58 ∷ 32 ∷ []

abbrev pub stat_text : Bytes
stat_text = 115 ∷ 116 ∷ 97 ∷ 116 ∷ 32 ∷ 232 ∷ 138 ∷ 130 ∷ 231 ∷ 130 ∷ 185 ∷ 58 ∷ 32 ∷ []

abbrev pub exists_text : Bytes
exists_text =
    101 ∷ 120 ∷ 105 ∷ 115 ∷ 116 ∷ 115 ∷ 32 ∷ 232 ∷ 138 ∷ 130 ∷ 231 ∷ 130 ∷ 185 ∷ 58 ∷ 32 ∷ []

abbrev pub success_text : Bytes
success_text = 32 ∷ 230 ∷ 136 ∷ 144 ∷ 229 ∷ 138 ∷ 159 ∷ []

abbrev pub failure_text : Bytes
failure_text = 32 ∷ 229 ∷ 164 ∷ 177 ∷ 232 ∷ 180 ∷ 165 ∷ 44 ∷ 32 ∷ []

-- A line made of texts.
abbrev pub texts : List Bytes → List Output
texts [] = new_line ∷ []
texts (part ∷ parts) = text part ∷ texts parts

-- What is written for an answer, when it parses.
abbrev pub shown : {M : Type 0} → Codec M → Bytes → (M → List Output) → List Output
shown codec str report = elim (codec.parse str) [ none ↦ [] | some resp ↦ report resp ]

abbrev pub report_create : Bytes → StatusResponse → List Output
report_create path resp =
    if resp.success
    then texts (create_text ∷ path ∷ success_text ∷ [])
    else texts (create_text ∷ path ∷ failure_text ∷ resp.errmsg ∷ [])

abbrev pub report_get : Bytes → GetNodeResponse → List Output
report_get path resp =
    if resp.success
    then texts (path ∷ bytes ": " ∷ resp.node_data ∷ [])
    else texts (get_text ∷ path ∷ failure_text ∷ resp.errmsg ∷ [])

abbrev pub report_set : Bytes → Bytes → StatusResponse → List Output
report_set path content resp =
    if resp.success
    then texts (bytes "set " ∷ path ∷ bytes " = " ∷ content ∷ [])
    else texts (set_text ∷ path ∷ failure_text ∷ resp.errmsg ∷ [])

abbrev pub report_delete : Bytes → StatusResponse → List Output
report_delete path resp =
    if resp.success
    then texts (bytes "delete " ∷ path ∷ bytes " success" ∷ [])
    else texts (delete_text ∷ path ∷ failure_text ∷ resp.errmsg ∷ [])

abbrev pub report_ls : Bytes → LsNodeResponse → List Output
report_ls path resp =
    if resp.success
    then list_children resp.children
    else texts (ls_text ∷ path ∷ failure_text ∷ resp.errmsg ∷ [])

abbrev pub state_of : StatNodeResponse → NodeState
state_of resp = elim resp.state [ none ↦ default_state | some state ↦ state ]

abbrev pub report_stat : Bool → Bytes → StatNodeResponse → List Output
report_stat is_hex path resp =
    let state = state_of resp in
    if resp.success
    then text (bytes "nodeType: ")
      ∷ number is_hex state.node_type
      ∷ new_line
      ∷ text (bytes "dataLength: ")
      ∷ number is_hex state.data_length
      ∷ new_line
      ∷ text (bytes "numChildren: ")
      ∷ number is_hex state.num_children
      ∷ new_line
      ∷ text (bytes "ephemeralOwner: ")
      ∷ hexadecimal state.ephemeral_owner
      ∷ new_line
      ∷ []
    else texts (stat_text ∷ path ∷ failure_text ∷ resp.errmsg ∷ [])

-- After a `stat` that succeeds, the base in which numbers are written is 16.
abbrev pub hex_after : Bool → Codec StatNodeResponse → Bytes → Bool
hex_after is_hex codec str = elim (codec.parse str) [
  | none ↦ is_hex
  | some resp ↦ if resp.success then true else is_hex
]

abbrev pub report_exists : Bytes → ExistsNodeResponse → List Output
report_exists path resp =
    if resp.success
    then texts (path ∷ (if resp.exist then bytes " exists" else bytes " not exists") ∷ [])
    else texts (exists_text ∷ path ∷ failure_text ∷ resp.errmsg ∷ [])

module _ (codecs : ServiceCodecs) where
  unfoldable pub console_create : Bytes → Services → Services × List Output
  unfolding read_word read_int
  console_create rest s =
      let (path, after_path) = read_word [] rest in
      let (data_word, after_data) = read_word [] after_path in
      let type = read_int 1 after_data in
      let type' = if type == 0 then 1 else type in
      let req =
        codecs.create_request.serialize
          (record { path = path; node_data = data_word; node_type = type' }) in
      let (s', str) = handle codecs s ServiceType.create req session in
      (s', shown codecs.create_response str (report_create path))

  unfoldable pub console_get : Bytes → Services → Services × List Output
  unfolding read_word
  console_get rest s =
      let path = (read_word [] rest).0 in
      let (s', str) =
        handle codecs s ServiceType.get (codecs.get_request.serialize (record { path = path }))
          session in
      (s', shown codecs.get_response str (report_get path))

  unfoldable pub console_set : Bytes → Services → Services × List Output
  unfolding read_word
  console_set rest s =
      let (path, after_path) = read_word [] rest in
      let (data_word, after_data) = read_word [] after_path in
      let req = codecs.set_request.serialize (record { path = path; node_data = data_word }) in
      let (s', str) = handle codecs s ServiceType.set req session in
      (s', shown codecs.set_response str (report_set path data_word))

  unfoldable pub console_delete : Bytes → Services → Services × List Output
  unfolding read_word
  console_delete rest s =
      let path = (read_word [] rest).0 in
      let (s', str) =
        handle codecs s ServiceType.delete
          (codecs.delete_request.serialize (record { path = path })) session in
      (s', shown codecs.delete_response str (report_delete path))

  unfoldable pub console_ls : Bytes → Services → Services × List Output
  unfolding read_word
  console_ls rest s =
      let path = (read_word [] rest).0 in
      let (s', str) =
        handle codecs s ServiceType.ls (codecs.ls_request.serialize (record { path = path }))
          session in
      (s', shown codecs.ls_response str (report_ls path))

  -- With the base for the numbers of the next line.
  unfoldable pub console_stat : Bool → Bytes → Services → Services × (Bool × List Output)
  unfolding read_word
  console_stat is_hex rest s =
      let path = (read_word [] rest).0 in
      let (s', str) =
        handle codecs s ServiceType.stat (codecs.stat_request.serialize (record { path = path }))
          session in
      (
        s',
        (
          hex_after is_hex codecs.stat_response str,
          shown codecs.stat_response str (report_stat is_hex path),
        ),
      )

  unfoldable pub console_exists : Bytes → Services → Services × List Output
  unfolding read_word
  console_exists rest s =
      let path = (read_word [] rest).0 in
      let (s', str) =
        handle codecs s ServiceType.exists
          (codecs.exists_request.serialize (record { path = path })) session in
      (s', shown codecs.exists_response str (report_exists path))

  -- The branches on the operation, with what is left of the line.
  unfoldable pub console_dispatch : Cli → Bytes → Services → Services × (Cli × List Output)
  console_dispatch cli rest s =
      let kept : Services × List Output → Services × (Cli × List Output) =
        λ (s', written). (s', (cli, written)) in
      let (s_stat, (is_hex, stat_written)) = console_stat cli.is_hex rest s in
      if bytes_eq cli.op (bytes "create")
      then kept (console_create rest s)
      else if bytes_eq cli.op (bytes "get")
      then kept (console_get rest s)
      else if bytes_eq cli.op (bytes "set")
      then kept (console_set rest s)
      else if bytes_eq cli.op (bytes "delete")
      then kept (console_delete rest s)
      else if bytes_eq cli.op (bytes "ls")
      then kept (console_ls rest s)
      else if bytes_eq cli.op (bytes "stat")
      then (s_stat, (record cli { is_hex = is_hex }, stat_written))
      else if bytes_eq cli.op (bytes "exists")
      then kept (console_exists rest s)
      else (s, (cli, line (bytes "invalid operation")))

  unfoldable pub console_line : Cli → Bytes → Services → Services × (Cli × List Output)
  unfolding read_word console_dispatch
  console_line cli input s =
      let (op, rest) = read_word cli.op input in console_dispatch (record cli { op = op }) rest s

  -- `test`, on the lines of the standard input.
  unfoldable pub console : List Bytes → Cli → Services → Services × List Output
  unfolding console_line
  console [] cli s = (s, [])
  console (input ∷ inputs) cli s =
      let (s', (cli', written)) = console_line cli input s in
      let (s'', more) = console inputs cli' s' in (s'', written ++ more)
