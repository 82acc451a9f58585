-- ===== src/GrpMng/Groups/Listing.antt =====
-- The list of all groups: `GetAllGroupNames`.
use ipc_project.Base.{ℕ, Bool, true, false, Option, none, some, List, [], ◌∷◌, Exec, ok, ◌>>=◌}
use ipc_project.CLib.{Block, Text, strcat}
use ipc_project.Containers.HashMap.{HashMapLib}
use ipc_project.Containers.Queue.{QueueLib}
use ipc_project.Containers.Vector.{VectorLib}
use ipc_project.GrpMng.Groups.{
  GrpMng, GroupMngResult, groupmng_success, groupmng_uninitialized, codes,
}

module _ (L : HashMapLib) (Q : QueueLib) where
  module _ (W : VectorLib) where
    -- `HashMapForEach` with `InsertGroupNameToVector`, which does not look at the vector's answer.
    unfoldable pub collect_names : List (Text × Option ℕ) → W.Vector Text → W.Vector Text
    collect_names [] names = names
    collect_names ((key, pointer) ∷ rest) names = collect_names rest (W.append Text names key).1

    -- `VectorForEach` with `GetGroupNameFromVector`.
    unfoldable pub concat_names : List Text → Block → Exec Block
    concat_names [] out = ok out
    concat_names (name ∷ rest) out = do
      out ← strcat out name
      out ← strcat out (codes ", ")
      concat_names rest out

    -- The flag is the outcome of `VectorCreate`; a NULL vector takes nothing and has nothing to
    -- visit. The second result is the array for the names.
    unfoldable pub get_all_group_names :
        Bool → Option (GrpMng L Q) → Block → Exec (GroupMngResult × Block)
    unfolding collect_names concat_names
    get_all_group_names created none out = ok (groupmng_uninitialized, out)
    get_all_group_names false (some manager) out = ok (groupmng_success, out)
    get_all_group_names true (some manager) out = do
      let names = collect_names (L.entries (Option ℕ) manager.group_map) (W.create Text 100)
      out ← concat_names (W.items Text names) out
      ok (groupmng_success, out)
