-- ===== src/GrpcClient/Tests.antt =====
-- A client with options in a mixed order.
use micra.Common.{Option, none, some, List, [], ◌∷◌, ◌≡◌, refl, map}
use micra.Errors.{Err}
use micra.GrpcClient.{raw, round_robin, chain_unary, Conn, new, conn, init}
use micra.GrpcClient.Dialling.{
  Setting, targeted, dialled_with, round_robin_policy, unary, option_of, conn-init,
}

abbrev settings : List Setting
settings =
    unary (1 ∷ [])
    ∷ targeted "a:1"
    ∷ round_robin_policy
    ∷ unary (2 ∷ 3 ∷ [])
    ∷ dialled_with (raw 7 ∷ [])
    ∷ targeted "b:2"
    ∷ []

abbrev accepted : Conn → Option Err
accepted k = none

conn-init_example :
    conn (init accepted none (new (map option_of settings))).0
    ≡ some (record {
      target = "b:2";
      options = round_robin ∷ raw 7 ∷ chain_unary (1 ∷ 2 ∷ 3 ∷ []) ∷ [];
    })
conn-init_example = conn-init accepted none settings refl refl
