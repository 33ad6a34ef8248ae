-- ===== src/Tests/Commands.antt =====
-- The command line at concrete inputs.
use dwt_src.Prelude.{◌≡◌, refl, false}
use dwt_src.Bytes.{bytes}
use dwt_src.SrcServer.{on_message}
use dwt_src.SrcClient
use dwt_src.SrcClient.{SrcClient}
use dwt_src.ClientCli.{Cli, prompted, execute}
use dwt_src.Services
use dwt_src.Console.{console_line, report_set}
use dwt_src.Console.Lines.{console_line_lem}
use dwt_src.ClientCli.Words.{Word, word_end, word_byte}
use dwt_src.ClientCli.Commands.{sets, creates_typed, told, no_words, words, execute_lem}
use dwt_src.Tests.Codecs.{codecs}
use dwt_src.Tests.Client.{fresh, peer, away}

abbrev after_get : Cli
after_get = record { op = bytes "get"; is_hex = false }

user-Word : Word (bytes "/user")
user-Word = search (word_end, word_byte) depth 8

two-Word : Word (bytes "2")
two-Word = word_end refl

execute_lem_example :
    execute codecs (on_message codecs 7 5 peer) away after_get (bytes "create /user 2 2") fresh
    ≡ prompted
        (record { op = bytes "create"; is_hex = false })
        (told (bytes "create success") (bytes "create error") (
          SrcClient.create_node codecs
            (on_message codecs 7 5 peer)
            away
            (bytes "/user")
            (bytes "2")
            2
            fresh))
execute_lem_example =
    execute_lem codecs (on_message codecs 7 5 peer) away
      (creates_typed (bytes "/user") (bytes "2") (bytes "2")) after_get fresh
      (words user-Word (words two-Word (words two-Word no_words)))

x-Word : Word (bytes "x")
x-Word = word_end refl

console_line_lem_example :
    console_line codecs.services after_get (bytes "set /user x") fresh.services ≡ (
      (Services.set_node fresh.services (bytes "/user") (bytes "x")).0,
      (
        record { op = bytes "set"; is_hex = false },
        report_set
            (bytes "/user")
            (bytes "x")
            (Services.set_node fresh.services (bytes "/user") (bytes "x")).1,
      ),
    )
console_line_lem_example =
    console_line_lem codecs.services (sets (bytes "/user") (bytes "x")) after_get fresh.services
      (words user-Word (words x-Word no_words))
