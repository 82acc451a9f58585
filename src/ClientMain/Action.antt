-- ===== src/ClientMain/Action.antt =====
-- `UserActions` of clnt_main.c.
use ipc_project.Base.{ℕ}

abbrev pub register : ℕ
register = 1

abbrev pub login : ℕ
login = 2

abbrev pub exit : ℕ
exit = 3

abbrev pub create_grp : ℕ
create_grp = 4

abbrev pub see_grps : ℕ
see_grps = 5

abbrev pub join_grp : ℕ
join_grp = 6

abbrev pub leave_grp : ℕ
leave_grp = 7

abbrev pub logout : ℕ
logout = 8
