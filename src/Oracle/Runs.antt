-- ===== src/Oracle/Runs.antt =====
-- Runs of oracle/src/lib.rs: its endpoints in any order, called by anyone.
use sc_chainlink_rs.Prelude.{ℕ, ◌+◌, ◌≡◌, List, nat_eq}
use sc_chainlink_rs.Framework.{Result, ok, err, Env}
use sc_chainlink_rs.Oracle.Contract.{
  Oracle, request, fulfill_request, submit, add_authorization, remove_authorization,
}

-- the endpoints, with their arguments
pub data Call : Type 0 where
  request_call : ℕ → List ℕ → ℕ → List ℕ → Call
  fulfill_request_call : ℕ → ℕ → List ℕ → Call
  submit_call : ℕ → ℕ → ℕ → Call
  add_authorization_call : ℕ → Call
  remove_authorization_call : ℕ → Call

abbrev pub leave : {A : Type 0} → (A → Oracle) → Result A → Result Oracle
leave f (ok a) = ok (f a)
leave f (err e) = err e

-- the storage that an accepted call leaves
unfoldable pub perform : Env → Oracle → Call → Result Oracle
perform env s (request_call callback_address callback_method nonce data_bytes) =
    request env s callback_address callback_method nonce data_bytes
perform env s (fulfill_request_call address nonce data_bytes) =
    leave (λ r. r.1) (fulfill_request env s address nonce data_bytes)
perform env s (submit_call aggregator round_id submission) =
    leave (λ r. s) (submit env s aggregator round_id submission)
perform env s (add_authorization_call node) = add_authorization env s node
perform env s (remove_authorization_call node) = remove_authorization env s node

-- a run of so many accepted calls; a rejected call changes nothing
pub data Run (s : Oracle) : ℕ → Oracle → Type 0 where
  here : Run s 0 s
  next :
      {n : ℕ} {u t : Oracle} (env : Env) (call : Call)
      → Run s n u
      → perform env u call ≡ ok t
      → Run s (n + 1) t
