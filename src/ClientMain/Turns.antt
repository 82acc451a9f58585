-- ===== src/ClientMain/Turns.antt =====
-- The menus of clnt_main.c keep to the order of the pages.
use ipc_project.Base.{List, [], ◌∷◌}
use ipc_project.ClientMain.{Turn}

-- The turns on top of the earlier ones, the latest first.
abbrev pub latest_first : List Turn → List Turn → List Turn
latest_first [] past = past
latest_first (turn ∷ turns) past = latest_first turns (turn ∷ past)
