-- ===== src/Console/Lines.antt =====
-- The lines of the console of src/main.cpp against the methods of the registry.
use dwt_src.Prelude.{◌≡◌, refl, Bool, true, [], ◌∷◌, List, ◌==◌, if◌then◌else◌}
use dwt_src.Bytes.{bytes_eq}
use dwt_src.Messages.{Codec, ServiceCodecs, StatNodeResponse}
use dwt_src.Services.{
  Services, create_node, get_node, set_node, delete_node, ls_node, stat_node, exists_node,
}
use dwt_src.Services.Handled.{
  handle-create, handle-get, handle-set, handle-delete, handle-ls, handle-stat, handle-exists,
}
use dwt_src.ClientCli.{Cli, Output, int_of}
use dwt_src.ClientCli.Words.{next_words, read_word-first, read_word-next, read_int_lem}
use dwt_src.ClientCli.Commands.{
  Command, creates, creates_typed, gets, deletes, lists, stats, asks, sets, name_of, words_of,
  print, Words, no_words, words, name-Word,
}
use dwt_src.Console.{
  session, shown, hex_after, report_create, report_get, report_set, report_delete, report_ls,
  report_stat, report_exists, console_create, console_get, console_set, console_delete, console_ls,
  console_stat, console_exists, console_dispatch, console_line,
}

-- What a method of the registry leaves and answers, reported, with the base for numbers afterwards.
abbrev pub answers : Command → Bool → Services → Services × (Bool × List Output)
answers (creates path content) is_hex s =
    let (s', resp) = create_node s session path content 1 in (s', (is_hex, report_create path resp))
answers (creates_typed path content type) is_hex s =
    let (s', resp) =
      create_node s session path content (if int_of type == 0 then 1 else int_of type) in
    (s', (is_hex, report_create path resp))
answers (gets path) is_hex s = (s, (is_hex, report_get path (get_node s path)))
answers (deletes path) is_hex s =
    let (s', resp) = delete_node s path in (s', (is_hex, report_delete path resp))
answers (lists path) is_hex s = (s, (is_hex, report_ls path (ls_node s path)))
answers (stats path) is_hex s =
    let resp = stat_node s path in
    (s, (if resp.success then true else is_hex, report_stat is_hex path resp))
answers (asks path) is_hex s = (s, (is_hex, report_exists path (exists_node s path)))
answers (sets path content) is_hex s =
    let (s', resp) = set_node s path content in (s', (is_hex, report_set path content resp))

-- The operation of the command, and the base for numbers.
abbrev pub noted : Command → Services × (Bool × List Output) → Services × (Cli × List Output)
noted command (s, (is_hex, written)) =
    (s, (record { op = name_of command; is_hex = is_hex }, written))

shown_lem :
    {M : Type 0} (codec : Codec M) (resp : M) (report : M → List Output)
    → shown codec (codec.serialize resp) report ≡ report resp
shown_lem codec resp report = rw (shown, codec.parse-serialize resp) refl

hex_after_lem :
    (is_hex : Bool) (codec : Codec StatNodeResponse) (resp : StatNodeResponse)
    → hex_after is_hex codec (codec.serialize resp) ≡ (if resp.success then true else is_hex)
hex_after_lem is_hex codec resp = rw (hex_after, codec.parse-serialize resp) refl

module _ (codecs : ServiceCodecs) where
  console_dispatch_lem :
      (command : Command) (cli : Cli) (s : Services)
      → Words (words_of command)
      → console_dispatch codecs
          (record cli { op = name_of command })
          (next_words (words_of command))
          s
        ≡ noted command (answers command cli.is_hex s)
  unfolding console_dispatch console_create console_get console_set console_delete console_ls
      console_stat console_exists bytes_eq
  console_dispatch_lem (creates path content) cli s (words p (words d no_words)) =
      rw
        (
          read_word-next [] path (content ∷ []) p,
          read_word-next [] content [] d,
          handle-create codecs s path content 1 session,
          shown_lem codecs.create_response (create_node s session path content 1).1
              (report_create path),
        )
        refl
  console_dispatch_lem (creates_typed path content type) cli s
        (words p (words d (words t no_words))) =
      rw
        (
          read_word-next [] path (content ∷ type ∷ []) p,
          read_word-next [] content (type ∷ []) d,
          read_int_lem 1 type t,
          handle-create codecs s path content (if int_of type == 0 then 1 else int_of type) session,
          shown_lem codecs.create_response
              (create_node s session path content (if int_of type == 0 then 1 else int_of type)).1
              (report_create path),
        )
        refl
  console_dispatch_lem (gets path) cli s (words p no_words) =
      rw
        (
          read_word-next [] path [] p,
          handle-get codecs s path session,
          shown_lem codecs.get_response (get_node s path) (report_get path),
        )
        refl
  console_dispatch_lem (deletes path) cli s (words p no_words) =
      rw
        (
          read_word-next [] path [] p,
          handle-delete codecs s path session,
          shown_lem codecs.delete_response (delete_node s path).1 (report_delete path),
        )
        refl
  console_dispatch_lem (lists path) cli s (words p no_words) =
      rw
        (
          read_word-next [] path [] p,
          handle-ls codecs s path session,
          shown_lem codecs.ls_response (ls_node s path) (report_ls path),
        )
        refl
  console_dispatch_lem (stats path) cli s (words p no_words) =
      rw
        (
          read_word-next [] path [] p,
          handle-stat codecs s path session,
          shown_lem codecs.stat_response (stat_node s path) (report_stat cli.is_hex path),
          hex_after_lem cli.is_hex codecs.stat_response (stat_node s path),
        )
        refl
  console_dispatch_lem (asks path) cli s (words p no_words) =
      rw
        (
          read_word-next [] path [] p,
          handle-exists codecs s path session,
          shown_lem codecs.exists_response (exists_node s path) (report_exists path),
        )
        refl
  console_dispatch_lem (sets path content) cli s (words p (words d no_words)) =
      rw
        (
          read_word-next [] path (content ∷ []) p,
          read_word-next [] content [] d,
          handle-set codecs s path content session,
          shown_lem codecs.set_response (set_node s path content).1 (report_set path content),
        )
        refl

  -- On the line that a user writes for a command, with a path, a content and a type that are words, the
  -- console has on the registry the effect of the method that the command stands for, called with
  -- these arguments for the session 123, and reports the answer of this method, whatever the line
  -- before was; after a `stat` that succeeds, numbers are written in base 16.
  pub console_line_lem :
      (command : Command) (cli : Cli) (s : Services)
      → Words (words_of command)
      → console_line codecs cli (print command) s ≡ noted command (answers command cli.is_hex s)
  unfolding console_line
  console_line_lem command cli s are_words =
      rw (read_word-first cli.op (name_of command) (words_of command) (name-Word command))
        (console_dispatch_lem command cli s are_words)
