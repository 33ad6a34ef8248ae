-- ===== src/Messages/MessageType.antt =====
-- `enum MessageType` of src/proto/messages.proto
use dwt_src.Prelude.{ℕ}

abbrev pub connection : ℕ
connection = 1

abbrev pub service : ℕ
service = 2

abbrev pub error : ℕ
error = 3
