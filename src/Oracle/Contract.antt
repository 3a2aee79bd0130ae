-- ===== src/Oracle/Contract.antt =====
-- Storage and endpoints of oracle/src/lib.rs, with the data of oracle_request.rs. A `SetMapper` is
-- a map whose values say nothing; an asynchronous call is a value that names its receiver.
use sc_chainlink_rs.Prelude.{ℕ, not, none, some, List, [], ◌∷◌, ◌++◌, ◌==◌, nat_eq}
use sc_chainlink_rs.Framework.{Result, ok, ◌>>=◌, ◌>>◌, require, ok_or, Env, Framework, add_u64}
use sc_chainlink_rs.Framework.Map.{Map, get, insert, remove, contains_key}

pub record OracleRequest : Type 0 where
  pub caller : ℕ
  pub callback_address : ℕ
  pub callback_method : List ℕ
  pub data_bytes : List ℕ

pub record RequestView : Type 0 where
  pub address : ℕ
  pub nonce : ℕ
  pub data_bytes : List ℕ

pub record Oracle : Type 0 where
  pub nonces : Map ℕ ℕ
  pub requests : Map ℕ (Map ℕ OracleRequest)
  pub authorized_nodes : Map ℕ (Unit {0})

-- the asynchronous calls: `client.reply(nonce, data)` and `aggregator.submit(round_id, values)`
pub record ReplyCall : Type 0 where
  pub to : ℕ
  pub nonce : ℕ
  pub answer : List ℕ

pub record SubmitCall : Type 0 where
  pub to : ℕ
  pub round_id : ℕ
  pub values : List ℕ

-- storage after `init`, which writes nothing
abbrev pub init : Oracle
init = record { nonces = []; requests = []; authorized_nodes = [] }

-- `requests.entry(caller).or_default().get()`
unfoldable pub requests_of : Oracle → ℕ → Map ℕ OracleRequest
requests_of s address = elim (get address s.requests) [ none ↦ [] | some requests ↦ requests ]

-- `nonces.get(&caller).map_or(0, |last_nonce| last_nonce + 1)`
unfoldable pub expected_nonce : Oracle → ℕ → ℕ
expected_nonce s caller = elim (get caller s.nonces) [
  | none ↦ 0
  | some last_nonce ↦ add_u64 last_nonce 1
]

-- `request`
unfoldable pub request : Env → Oracle → ℕ → List ℕ → ℕ → List ℕ → Result Oracle
unfolding requests_of expected_nonce
request env s callback_address callback_method nonce data_bytes = do
  let caller_requests = requests_of s env.caller
  require (not (contains_key nonce caller_requests)) "Existing account and nonce in requests"
  require (nonce == expected_nonce s env.caller) "Invalid nonce"
  let new_request : OracleRequest = record {
    caller = env.caller;
    callback_address = callback_address;
    callback_method = callback_method;
    data_bytes = data_bytes;
  }
  ok (record s {
    requests = insert env.caller (insert nonce new_request caller_requests) s.requests;
    nonces = insert env.caller nonce s.nonces;
  })

unfoldable pub only_authorized_node : Env → Oracle → Result (Unit {0})
only_authorized_node env s =
    require (contains_key env.caller s.authorized_nodes)
      "Not an authorized node to fulfill requests."

-- `fulfillRequest`
unfoldable pub fulfill_request : Env → Oracle → ℕ → ℕ → List ℕ → Result (ReplyCall × Oracle)
unfolding only_authorized_node
fulfill_request env s address nonce data_bytes = do
  only_authorized_node env s
  address_requests ← ok_or (get address s.requests) "Did not find the account to fulfill."
  request ← ok_or (get nonce address_requests) "Did not find the request (nonce) to fulfill."
  ok (
    record { to = request.callback_address; nonce = nonce; answer = data_bytes },
    record s { requests = insert address (remove nonce address_requests) s.requests },
  )

-- `submit`
unfoldable pub submit : Env → Oracle → ℕ → ℕ → ℕ → Result SubmitCall
submit env s aggregator round_id submission = do
  require (env.caller == env.owner) "Only owner may call this function!"
  ok (record { to = aggregator; round_id = round_id; values = submission ∷ [] })

-- `addAuthorization`
unfoldable pub add_authorization : Env → Oracle → ℕ → Result Oracle
add_authorization env s node = do
  require (env.caller == env.owner) "Caller must be owner"
  require (not (contains_key node s.authorized_nodes)) "Already authorized"
  ok (record s { authorized_nodes = insert node tt s.authorized_nodes })

-- `removeAuthorization`
unfoldable pub remove_authorization : Env → Oracle → ℕ → Result Oracle
remove_authorization env s node = do
  require (env.caller == env.owner) "Caller must be owner"
  require (contains_key node s.authorized_nodes) "Authorization not found"
  ok (record s { authorized_nodes = remove node s.authorized_nodes })

-- the inner loop of `requests_as_vec`
unfoldable pub views_of : ℕ → Map ℕ OracleRequest → List RequestView
views_of address [] = []
views_of address ((nonce, request) ∷ rest) =
    record { address = address; nonce = nonce; data_bytes = request.data_bytes }
    ∷ views_of address rest

module _ ⦃fw : Framework⦄ where
  -- its outer loop
  unfoldable pub views : Map ℕ (Map ℕ OracleRequest) → List RequestView
  unfolding views_of
  views [] = []
  views ((address, requests) ∷ rest) =
      views_of address (fw.iter ℕ OracleRequest requests) ++ views rest

  unfoldable pub requests_as_vec : Oracle → List RequestView
  unfolding views
  requests_as_vec s = views (fw.iter ℕ (Map ℕ OracleRequest) s.requests)
