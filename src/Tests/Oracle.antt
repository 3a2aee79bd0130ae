-- ===== src/Tests/Oracle.antt =====
-- The Oracle and its client at concrete data: a first request, and its answer.
use sc_chainlink_rs.Prelude.{ℕ, ◌≡◌, ◌≢◌, refl, false, [], ◌∷◌, some, nat_eq, arith, codes}
use sc_chainlink_rs.Framework.{ok, Env, is_ok}
use sc_chainlink_rs.Framework.Map.{get, insert, remove}
use sc_chainlink_rs.Oracle.Contract.{
  OracleRequest, Oracle, ReplyCall, init, requests_of, expected_nonce, request,
  only_authorized_node, fulfill_request, add_authorization,
}
use sc_chainlink_rs.Oracle.Runs.{Run, here, next, perform, request_call, add_authorization_call}
use sc_chainlink_rs.Oracle.Spent.{fulfilled-never_again}
use sc_chainlink_rs.Oracle.Nonces.{
  InStep, send_request-request, FulfillParts, fulfill_request-parts,
}
use sc_chainlink_rs.Client
use sc_chainlink_rs.Client.{Client, RequestCall, send_request}
use sc_chainlink_rs.Tests.Aggregator.{owner_env, oracle_env}

abbrev client : Client
client = Client.init 5

-- the client contract at address 7 calls the Oracle
abbrev client_env : Env
client_env = record owner_env { caller = 7 }

first-InStep : InStep client init 7
unfolding expected_nonce requests_of Client.init get
first-InStep = record { expected = refl; unused = λ n h. refl }

abbrev first_call : RequestCall
first_call = record {
  to = 5;
  callback_address = 9;
  callback_method = codes "reply";
  nonce = 0;
  data_bytes = [];
}

first_run : send_request owner_env client ≡ ok (first_call, record client { nonce = 1 })
unfolding send_request Client.init
first_run = refl

client_small : client.nonce ≡ 0
unfolding Client.init
client_small = refl

send_request-request_example :
    (s' : Oracle) × (request client_env init 9 (codes "reply") 0 [] ≡ ok s')
    × InStep (record client { nonce = 1 }) s' 7
    × ((r : OracleRequest) × (get client.nonce (requests_of s' 7) ≡ some r)
        × (r.callback_address ≡ 9))
    × ((other : ℕ) → other ≢ 7 → requests_of s' other ≡ requests_of init other)
send_request-request_example =
    send_request-request owner_env client_env client init first-InStep (omega (arith, client_small))
      first_run

abbrev pending : Oracle
pending = record {
  nonces = (7, 0) ∷ [];
  requests =
      (
        7,
        (
          0,
          record {
            caller = 7;
            callback_address = 9;
            callback_method = codes "reply";
            data_bytes = [];
          },
        )
            ∷ [],
      )
      ∷ [];
  authorized_nodes = (2, tt) ∷ [];
}

abbrev fulfilled : Oracle
fulfilled = record pending { requests = (7, []) ∷ [] }

abbrev reply_call : ReplyCall
reply_call = record { to = 9; nonce = 0; answer = codes "42" }

fulfilled_run : fulfill_request oracle_env pending 7 0 (codes "42") ≡ ok (reply_call, fulfilled)
unfolding fulfill_request only_authorized_node get insert remove
fulfilled_run = refl

fulfill_request-parts_example :
    FulfillParts oracle_env pending 7 0 (codes "42") reply_call fulfilled
fulfill_request-parts_example =
    fulfill_request-parts oracle_env pending 7 0 (codes "42") fulfilled_run

abbrev node_env : Env
node_env = record owner_env { caller = 2 }

abbrev authorized : Oracle
authorized = record init { authorized_nodes = (2, tt) ∷ [] }

pending-Run : Run init 2 pending
unfolding perform add_authorization request requests_of expected_nonce get insert
pending-Run =
    next client_env (request_call 9 (codes "reply") 0 [])
      (next {t = authorized} owner_env (add_authorization_call 2) here refl) refl

-- the client asks again
abbrev asked_again : Oracle
asked_again = record {
  nonces = (7, 1) ∷ [];
  requests =
      (
        7,
        (
          1,
          record {
            caller = 7;
            callback_address = 9;
            callback_method = codes "reply";
            data_bytes = [];
          },
        )
            ∷ [],
      )
      ∷ [];
  authorized_nodes = (2, tt) ∷ [];
}

asked_again-Run : Run fulfilled 1 asked_again
unfolding perform request requests_of expected_nonce get insert
asked_again-Run = next client_env (request_call 9 (codes "reply") 1 []) here refl

fulfilled-never_again_example :
    is_ok (fulfill_request node_env asked_again 7 0 (codes "43")) ≡ false
fulfilled-never_again_example =
    fulfilled-never_again oracle_env node_env 7 0 (codes "42") (codes "43") {n = 2} {m = 1}
      (omega arith) pending-Run fulfilled_run asked_again-Run
