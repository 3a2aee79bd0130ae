-- ===== src/Oracle/Nonces.antt =====
-- The nonces of oracle/src/lib.rs and client/src/lib.rs: the counter of the client, the nonce that the
-- Oracle expects of each caller, and the requests it holds.
use sc_chainlink_rs.Prelude.{
  ℕ, ◌+◌, ◌%◌, ◌^◌, ◌≤◌, ◌<◌, ◌≡◌, ◌≢◌, ◌⊎◌, Option-cases, true, List, none, some, nat_eq, arith,
  inl, inr, ◌==◌, if◌then◌else◌,
}
use sc_chainlink_rs.Framework.{ok, Env}
use sc_chainlink_rs.Framework.Map.{get, insert, remove, contains_key}
use sc_chainlink_rs.Framework.Map.Laws.{get-insert, get-insert_self, get-remove, get-remove_self}
use sc_chainlink_rs.Oracle.Contract.{
  OracleRequest, Oracle, ReplyCall, requests_of, expected_nonce, request, only_authorized_node,
  fulfill_request,
}
use sc_chainlink_rs.Client.{Client, RequestCall, send_request}

-- The Oracle waits for the nonce that the client at `address` sends next, and holds no request of
-- it with that nonce or a later one.
pub record InStep (c : Client) (s : Oracle) (address : ℕ) : Type 0 where
  pub expected : expected_nonce s address ≡ c.nonce
  pub unused : (n : ℕ) → c.nonce ≤ n → get n (requests_of s address) ≡ none

-- what a request of `send_request` says, and what is left in the client
send_request-parts :
    (env : Env) (c : Client) {call : RequestCall} {c' : Client}
    → send_request env c ≡ ok (call, c')
    → (call.nonce ≡ c.nonce)
      × (call.callback_address ≡ env.sc_address)
      × (c'.nonce ≡ (c.nonce + 1) % 2 ^ 64)
unfolding send_request
send_request-parts env c h = ground arith

-- The storage of the Oracle after a request that it accepts.
abbrev pub stored : Oracle → OracleRequest → ℕ → Oracle
stored s new_request nonce = record s {
  requests =
      insert new_request.caller (insert nonce new_request (requests_of s new_request.caller))
        s.requests;
  nonces = insert new_request.caller nonce s.nonces;
}

pub requests_of-stored :
    (s : Oracle) (r : OracleRequest) (nonce k : ℕ)
    → requests_of (stored s r nonce) k
      ≡ (if k == r.caller then insert nonce r (requests_of s r.caller) else requests_of s k)
unfolding requests_of
requests_of-stored s r nonce k =
    ground (arith, get-insert k r.caller (insert nonce r (requests_of s r.caller)) s.requests)

pub expected_nonce-stored :
    (s : Oracle) (r : OracleRequest) (nonce : ℕ)
    → expected_nonce (stored s r nonce) r.caller ≡ (nonce + 1) % 2 ^ 64
unfolding expected_nonce
expected_nonce-stored s r nonce = ground (arith, get-insert_self r.caller nonce s.nonces)

request-stored :
    (env : Env) (s : Oracle) (callback_address : ℕ) (callback_method : List ℕ) (nonce : ℕ)
    (data_bytes : List ℕ)
    → get nonce (requests_of s env.caller) ≡ none
    → expected_nonce s env.caller ≡ nonce
    → request env s callback_address callback_method nonce data_bytes
      ≡ ok (
          stored s
            (record {
              caller = env.caller;
              callback_address = callback_address;
              callback_method = callback_method;
              data_bytes = data_bytes;
            })
            nonce)
unfolding request
request-stored env s callback_address callback_method nonce data_bytes fresh expected = ground arith

-- Below the bound of a `u64`, a request that the client sends in step with the Oracle is accepted
-- there, is stored with its callback address, and leaves the two in step; the requests of other
-- callers stay as they are.
pub send_request-request :
    (env env' : Env) (c : Client) (s : Oracle) {call : RequestCall} {c' : Client}
    → InStep c s env'.caller
    → c.nonce + 1 < 2 ^ 64
    → send_request env c ≡ ok (call, c')
    → (s' : Oracle) × (request env' s call.callback_address call.callback_method call.nonce
          call.data_bytes
        ≡ ok s')
      × InStep c' s' env'.caller
      × ((r : OracleRequest) × (get c.nonce (requests_of s' env'.caller) ≡ some r)
          × (r.callback_address ≡ env.sc_address))
      × ((other : ℕ) → other ≢ env'.caller → requests_of s' other ≡ requests_of s other)
send_request-request env env' c s {call} {c'} h small sends =
    let (nonce, back, counted) = send_request-parts env c sends in
    let r : OracleRequest = record {
      caller = env'.caller;
      callback_address = call.callback_address;
      callback_method = call.callback_method;
      data_bytes = call.data_bytes;
    } in
    let s' = stored s r call.nonce in
    let mine : requests_of s' env'.caller ≡ insert call.nonce r (requests_of s env'.caller) =
      ground (arith, requests_of-stored s r call.nonce env'.caller) in
    (
      s',
      request-stored env' s call.callback_address call.callback_method call.nonce call.data_bytes
          (ground (arith, h.unused call.nonce)) (ground (arith, h.expected)),
      record {
        expected = ground (arith, expected_nonce-stored s r call.nonce);
        unused = λ n later.
            ground (arith, mine, get-insert n call.nonce r (requests_of s env'.caller), h.unused n);
      },
      (r, ground (arith, mine, get-insert_self call.nonce r (requests_of s env'.caller)), back),
      λ other differs. ground (arith, requests_of-stored s r call.nonce other),
    )

-- what an accepted `fulfillRequest` found, and what it left
pub record FulfillParts (env : Env) (s : Oracle) (address nonce : ℕ) (data_bytes : List ℕ)
    (call : ReplyCall) (s' : Oracle) : Type 0 where
  pub authorized : contains_key env.caller s.authorized_nodes ≡ true
  pub request : OracleRequest
  pub found : get nonce (requests_of s address) ≡ some request
  pub receiver : call.to ≡ request.callback_address
  pub echoed : (call.nonce ≡ nonce) × (call.answer ≡ data_bytes)
  pub kept :
      (k n : ℕ) → (k ≢ address) ⊎ (n ≢ nonce) → get n (requests_of s' k) ≡ get n (requests_of s k)
  pub gone : get nonce (requests_of s' address) ≡ none
  pub nonces : s'.nonces ≡ s.nonces

-- An accepted `fulfillRequest` comes from an authorized node and for a stored request; it calls the
-- callback address of that request with its nonce and the given data, and takes away this request
-- and no other.
pub fulfill_request-parts :
    (env : Env) (s : Oracle) (address nonce : ℕ) (data_bytes : List ℕ) {call : ReplyCall}
    {s' : Oracle}
    → fulfill_request env s address nonce data_bytes ≡ ok (call, s')
    → FulfillParts env s address nonce data_bytes call s'
unfolding fulfill_request only_authorized_node requests_of
fulfill_request-parts env s address nonce data_bytes {s'} h =
    elim (Option-cases (get address s.requests)) [
      | inl e ↦ absurd (ground arith)
      | inr (m, e) ↦ elim (Option-cases (get nonce m)) [
        | inl e' ↦ absurd (ground arith)
        | inr (r, e') ↦
            let written : s'.requests ≡ insert address (remove nonce m) s.requests = ground arith in
            record {
              authorized = ground arith;
              request = r;
              found = ground arith;
              receiver = ground arith;
              echoed = ground arith;
              kept = λ k n differs.
                  ground
                    (arith, get-insert k address (remove nonce m) s.requests, get-remove n nonce m);
              gone = ground (
                arith,
                get-insert_self address (remove nonce m) s.requests,
                get-remove_self nonce m,
              );
              nonces = ground arith;
            }
      ]
    ]
