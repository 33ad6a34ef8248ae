-- ===== src/Tests/Buffers.antt =====
-- The buffer at concrete inputs.
use dwt_src.Prelude.{◌≡◌, [], ◌++◌, some, Returns, Returns-inv, ok}
use dwt_src.Bytes.{bytes}
use dwt_src.Buffer.{Buffer, init, append, read_fd}
use dwt_src.Buffer.Contents.{Shows, init-Shows}
use dwt_src.Buffer.Writes.{append_lem, read_fd_lem}

append_lem_example : Returns (λ b'. Shows b' ([] ++ bytes "ping")) (append init (bytes "ping"))
append_lem_example = append_lem init [] init-Shows (bytes "ping")

abbrev pinged : (b : Buffer) × (append init (bytes "ping") ≡ ok b) × Shows b (bytes "ping")
pinged = Returns-inv (append_lem init [] init-Shows (bytes "ping"))

read_fd_lem_example :
    Returns (λ b'. Shows b' (bytes "ping" ++ bytes "pong")) (read_fd pinged.0 (some (bytes "pong")))
read_fd_lem_example = read_fd_lem pinged.0 (bytes "ping") (bytes "pong") pinged.2
