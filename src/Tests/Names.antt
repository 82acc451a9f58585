-- ===== src/Tests/Names.antt =====
-- The lists of all groups of two managers, one of which has too many long names.
use ipc_project.Base.{
  ℕ, zero, suc, ◌≡◌, ◌<◌, refl, true, none, some, Option, List, [], ◌∷◌, ◌++◌, map, length, All,
  replicate, length-replicate, arith, ok, fault, leb→le,
}
use ipc_project.CLib.{Text, IsText, calloc, c_string, load, load32, strcmp_eq}
use ipc_project.Containers.HashMap.Assoc.{assoc_map, assoc_map-IsLawful}
use ipc_project.Containers.Queue.{list_queue}
use ipc_project.Containers.Vector.{list_vector, list_vector-IsLawful}
use ipc_project.GrpMng.Groups.Listing.{get_all_group_names}
use ipc_project.GrpMng.Names.{joined, get_all_group_names-overflow}
use ipc_project.Protocol.Layout.{
  LogOutOrSeeGroupsReq, read_log_out_or_see_groups, group_all_available_request,
}
use ipc_project.SrvMng.Sessions.{conversation}
use ipc_project.SrvMng.NamesReply.{names_packet}
use ipc_project.SrvMng.SeeGroups.{see_groups_conversation}
use ipc_project.Tests.Data.{codes, see_groups_block}
use ipc_project.Tests.Server.{memory, locals, sized, server}
use ipc_project.Tests.Groups.{Manager, one_group, one_free}

-- The names of one letter: once, twice and so on.
abbrev letters : ℕ → ℕ → List (Text × Option ℕ)
letters c zero = []
letters c (suc n) = (replicate (suc n) c, none) ∷ letters c n

abbrev long_names : Manager
long_names = record {
  group_map = record {
    eq = strcmp_eq;
    items = letters b'a' 29 ++ (letters b'b' 29 ++ (letters b'c' 29 ++ []));
  };
  groups_id = record { content = []; size = 100 };
  heap = [];
}

abbrev see_request : LogOutOrSeeGroupsReq
see_request = record { username = codes "hen"; tag = 13 }

see_groups_conversation_example :
    conversation assoc_map assoc_map-IsLawful list_queue list_vector memory locals server
      see_groups_block
      (calloc 100)
      group_all_available_request
    ≡ ok (some server, some (names_packet locals (codes "chess, ")))
unfolding read_log_out_or_see_groups c_string load32 load
see_groups_conversation_example =
    see_groups_conversation assoc_map assoc_map-IsLawful list_queue list_vector list_vector-IsLawful
      memory locals (one_group one_free) (omega arith)
      ((omega arith, (omega arith, (omega arith, (omega arith, (omega arith, tt))))), tt) server
      see_groups_block (calloc 100) see_request refl refl sized (length-replicate {A = ℕ} 1008 0)
      refl refl refl (omega arith)

replicate-IsText : (n c : ℕ) → 0 < c → IsText (replicate n c)
replicate-IsText zero c h = tt
replicate-IsText (suc n) c h = (h, replicate-IsText n c h)

letters-IsText :
    (c n : ℕ) (more : List (Text × Option ℕ))
    → 0 < c
    → All IsText (map (λ e. e.0) more)
    → All IsText (map (λ e. e.0) (letters c n ++ more))
letters-IsText c zero more h m = m
letters-IsText c (suc n) more h m = (replicate-IsText (suc n) c h, letters-IsText c n more h m)

long_names-IsText :
    All IsText (map (λ e. e.0) (letters b'a' 29 ++ (letters b'b' 29 ++ (letters b'c' 29 ++ []))))
long_names-IsText =
    letters-IsText b'a' 29 (letters b'b' 29 ++ (letters b'c' 29 ++ [])) (omega arith) (
      letters-IsText b'b' 29 (letters b'c' 29 ++ []) (omega arith)
        (letters-IsText b'c' 29 [] (omega arith) tt))

get_all_group_names-overflow_example :
    get_all_group_names assoc_map list_queue list_vector true (some long_names) (calloc 1000)
    ≡ fault
get_all_group_names-overflow_example =
    get_all_group_names-overflow assoc_map list_queue list_vector list_vector-IsLawful long_names
      (leb→le 87 100 refl) long_names-IsText
      (leb→le 1000 (length (joined (map (λ e. e.0) long_names.group_map.items))) refl)
