-- ===== src/Tests/Client.antt =====
-- A login that the client sends.
use ipc_project.Base.{◌≡◌, refl, ◌∷◌, [], some, ok, arith}
use ipc_project.CLib.{IsText}
use ipc_project.Protocol.Layout.{login_request}
use ipc_project.ClientManager.{pack_and_send_via_client_net, clnt_mng_send_ok}
use ipc_project.ClientManager.Sending.{plenty, packet, pack_and_send_via_client_net_lem}
use ipc_project.Tests.Data.{codes}

hen-IsText : IsText (codes "hen")
hen-IsText = (omega arith, (omega arith, (omega arith, tt)))

go-IsText : IsText (codes "go")
go-IsText = (omega arith, (omega arith, tt))

pack_and_send_via_client_net_lem_example :
    pack_and_send_via_client_net plenty (some (codes "hen")) (some (codes "go")) login_request
    ≡ ok (
      clnt_mng_send_ok,
      packet login_request (codes "hen") (codes "go")
          ∷ packet login_request (codes "hen") (codes "go")
          ∷ [],
    )
pack_and_send_via_client_net_lem_example =
    pack_and_send_via_client_net_lem (codes "hen") (codes "go") login_request hen-IsText go-IsText
      (omega arith) (omega arith) refl
