-- ===== src/Client.antt =====
-- The client contract: client/src/lib.rs and client_data.rs.
use sc_chainlink_rs.Prelude.{ℕ, Option, none, some, List, [], ◌==◌, nat_eq, codes}
use sc_chainlink_rs.Framework.{Result, ok, ◌>>◌, require, Env, add_u64}

pub record ClientData : Type 0 where
  pub nonce : ℕ
  pub answer : List ℕ

pub record Client : Type 0 where
  pub oracle_address : ℕ
  pub nonce : ℕ
  pub client_data : Option ClientData

-- the asynchronous call `oracle.request(callback_address, callback_method, nonce, data)`
pub record RequestCall : Type 0 where
  pub to : ℕ
  pub callback_address : ℕ
  pub callback_method : List ℕ
  pub nonce : ℕ
  pub data_bytes : List ℕ

unfoldable pub init : ℕ → Client
init oracle_address = record { oracle_address = oracle_address; nonce = 0; client_data = none }

unfoldable pub get_client_data : Client → Option ClientData
get_client_data s = s.client_data

-- `sendRequest`
unfoldable pub send_request : Env → Client → Result (RequestCall × Client)
send_request env s = do
  require (env.caller == env.owner) "Caller must be owner"
  ok (
    record {
      to = s.oracle_address;
      callback_address = env.sc_address;
      callback_method = codes "reply";
      nonce = s.nonce;
      data_bytes = [];
    },
    record s { nonce = add_u64 s.nonce 1 },
  )

-- `reply`
unfoldable pub reply : Env → Client → ℕ → List ℕ → Result Client
reply env s nonce answer = do
  require (env.caller == s.oracle_address) "Only oracle can reply"
  ok (record s { client_data = some (record { nonce = nonce; answer = answer }) })
