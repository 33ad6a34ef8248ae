-- ===== src/Messages/ServiceType.antt =====
-- `enum ServiceType` of src/proto/messages.proto
use dwt_src.Prelude.{ℕ}

abbrev pub create : ℕ
create = 1

abbrev pub get : ℕ
get = 2

abbrev pub set : ℕ
set = 3

abbrev pub delete : ℕ
delete = 4

abbrev pub ls : ℕ
ls = 5

abbrev pub stat : ℕ
stat = 6

abbrev pub exists : ℕ
exists = 7
