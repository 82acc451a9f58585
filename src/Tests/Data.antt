-- ===== src/Tests/Data.antt =====
-- The data of the tests.
use Prim.Native.Char.{code}
use Prim.Native.String.{String}
use ipc_project.Base.{ℕ, ◌-◌, List, [], ◌∷◌, ◌++◌, length, replicate}
use ipc_project.CLib.{Block, Text, word_bytes}

abbrev pub codes : String → List ℕ
codes String.[] = []
codes (String.◌∷◌ c s) = code c ∷ codes s

-- A character array of `k` bytes that holds a string.
abbrev pub field : ℕ → Text → Block
field k t = t ++ replicate (k - length t) 0

-- Requests and replies as structs in memory.
abbrev pub login_block : Block
login_block = field 30 (codes "hen") ++ (field 30 (codes "group5") ++ word_bytes 3)

abbrev pub join_block : Block
join_block = field 30 (codes "hen") ++ (field 30 (codes "chess") ++ word_bytes 9)

abbrev pub log_out_block : Block
log_out_block = field 30 (codes "hen") ++ (0 ∷ 0 ∷ word_bytes 5)

abbrev pub reply_block : Block
reply_block = 1 ∷ 0 ∷ 0 ∷ 0 ∷ word_bytes 4

abbrev pub group_reply_block : Block
group_reply_block =
    word_bytes 8
    ++ (1 ∷ (field 15 (codes "224.0.0.7") ++ (field 5 (codes "2021") ++ (0 ∷ 0 ∷ 0 ∷ []))))

abbrev pub names_block : Block
names_block = field 1000 (codes "\n12345678, z, ") ++ (1 ∷ 0 ∷ 0 ∷ 0 ∷ word_bytes 14)

abbrev pub register_block : Block
register_block = field 30 (codes "dana") ++ (field 30 (codes "1234") ++ word_bytes 1)

abbrev pub create_block : Block
create_block = field 30 (codes "hen") ++ (field 30 (codes "go") ++ word_bytes 7)

abbrev pub dana_joins_block : Block
dana_joins_block = field 30 (codes "dana") ++ (field 30 (codes "chess") ++ word_bytes 9)

abbrev pub see_groups_block : Block
see_groups_block = field 30 (codes "hen") ++ (0 ∷ 0 ∷ word_bytes 13)

abbrev pub leave_block : Block
leave_block = field 30 (codes "hen") ++ (field 30 (codes "chess") ++ word_bytes 11)
