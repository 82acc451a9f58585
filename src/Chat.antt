-- ===== src/Chat.antt =====
-- Sender.c and Listener.c: the chat of a group, over its multicast address.
--
-- What the calls of the system come to is an argument. Both programs are given the address, the port,
-- the group and the user as arguments. The process id that they write to a file is left out.
pub mod Sender
pub mod Listener
pub mod Heard
use ipc_project.Base.{
  Bool, true, false, Option, none, some, ◌++◌, Exec, ok, ◌>>=◌, if◌then◌else◌, ℕ,
}
use ipc_project.CLib.{Block, Text, strcpy}
use ipc_project.GrpMng.Groups.{codes}

pub record Arguments : Type 0 where
  pub ip : Text
  pub port : Text
  pub group_name : Text
  pub username : Text

-- How `main` stands: it has returned 1, or returned nothing, or left by `exit(0)`, or it goes on.
pub data Standing : Type 0 where
  returned_one returned_nothing exited running : Standing

-- The name of the file for the process id, written into `str`.
unfoldable pub save_path : Block → Arguments → Exec Block
save_path str arguments =
    strcpy str 0 (codes "multicastPidSavedFile/" ++ (arguments.group_name ++ arguments.username))
