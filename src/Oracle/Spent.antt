-- ===== src/Oracle/Spent.antt =====
-- A fulfilled request of oracle/src/lib.rs along the rest of a run.
use sc_chainlink_rs.Prelude.{
  ℕ, ◌+◌, ◌-◌, ◌^◌, ◌≤◌, ◌<◌, ◌≡◌, ap, sym, ◌∙◌, false, List, none, some, arith, inl, inr, nat_eq,
  Bool-cases, ◌==◌,
}
use mathlib.Core.Path.{subst, ap₂}
use sc_chainlink_rs.Framework.{ok, Env, is_ok, Result-cases}
use sc_chainlink_rs.Framework.Map.{get}
use sc_chainlink_rs.Framework.Map.Laws.{get-insert}
use sc_chainlink_rs.Oracle.Contract.{
  OracleRequest, Oracle, ReplyCall, init, requests_of, expected_nonce, fulfill_request, submit,
}
use sc_chainlink_rs.Oracle.Nonces.{stored, requests_of-stored, FulfillParts, fulfill_request-parts}
use sc_chainlink_rs.Oracle.Runs.{
  Call, request_call, fulfill_request_call, submit_call, add_authorization_call,
  remove_authorization_call, perform, Run, here, next,
}
use sc_chainlink_rs.Oracle.Numbered.{
  IsNumbered, NonceAbove, request-parts, request-NonceAbove, perform-IsNumbered,
  fulfilled-IsNumbered, requests_of-same, leave-same, add-same, remove-same,
}

-- The nonce was used by the account, and no request is open under it.
record IsSpent (s : Oracle) (address nonce : ℕ) : Type 0 where
  last : ℕ
  found : get address s.nonces ≡ some last
  early : nonce ≤ last
  gone : get nonce (requests_of s address) ≡ none

same-IsSpent :
    (s t : Oracle) (address nonce : ℕ)
    → IsSpent s address nonce
    → t.nonces ≡ s.nonces
    → t.requests ≡ s.requests
    → IsSpent t address nonce
same-IsSpent s t address nonce i e f = record {
  last = i.last;
  found = ap (get address) e ∙ i.found;
  early = i.early;
  gone = ap (get nonce) (requests_of-same s t address f) ∙ i.gone;
}

stored-IsSpent :
    (n : ℕ) (s : Oracle) (r : OracleRequest) (new_nonce address nonce : ℕ)
    → NonceAbove n s r.caller new_nonce
    → IsSpent s address nonce
    → IsSpent (stored s r new_nonce) address nonce
stored-IsSpent n s r new_nonce address nonce a i =
    let now = get-insert address r.caller new_nonce s.nonces in
    let held = requests_of-stored s r new_nonce address in
    elim (Bool-cases (address == r.caller)) [
      | inr e ↦ record {
        last = i.last;
        found = ground (arith, i.found);
        early = i.early;
        gone = ground (arith, i.gone);
      }
      | inl e ↦
          let caller : r.caller ≡ address = ground arith in
          let above : new_nonce ≡ i.last + 1 =
            a.above i.last (ap (λ k. get k s.nonces) caller ∙ i.found) in
          let old : get nonce (requests_of s r.caller) ≡ none =
            ap (λ k. get nonce (requests_of s k)) caller ∙ i.gone in
          record {
            last = new_nonce;
            found = ground arith;
            early = omega (arith, above, i.early);
            gone = ground (arith, i.early, get-insert nonce new_nonce r (requests_of s r.caller));
          }
    ]

fulfilled-IsSpent :
    {env : Env} (s : Oracle) {other k : ℕ} {data_bytes : List ℕ} {call : ReplyCall} (t : Oracle)
    (address nonce : ℕ)
    → FulfillParts env s other k data_bytes call t
    → IsSpent s address nonce
    → IsSpent t address nonce
fulfilled-IsSpent s {other} {k} t address nonce p i = record {
  last = i.last;
  found = ap (get address) p.nonces ∙ i.found;
  early = i.early;
  gone = elim (Bool-cases (address == other)) [
    | inr e ↦ p.kept address nonce (inl (ground arith)) ∙ i.gone
    | inl e ↦ elim (Bool-cases (nonce == k)) [
      | inr e' ↦ p.kept address nonce (inr (ground arith)) ∙ i.gone
      | inl e' ↦
          let one : address ≡ other = ground arith in
          let two : nonce ≡ k = ground arith in
          ap₂ (λ a b. get b (requests_of t a)) one two ∙ p.gone
    ]
  ];
}

perform-IsSpent :
    (n : ℕ) (env : Env) (s : Oracle) (call : Call) (address nonce : ℕ) {t : Oracle}
    → n < 2 ^ 64 - 1
    → IsNumbered n s
    → perform env s call ≡ ok t
    → IsSpent s address nonce
    → IsSpent t address nonce
unfolding perform
perform-IsSpent n env s (request_call callback_address callback_method k data_bytes) address nonce b
      i h w =
    let p = request-parts env s callback_address callback_method k data_bytes h in
    let above =
      request-NonceAbove n s p.entry.caller k b i
        (p.expected ∙ ap (expected_nonce s) (sym p.from)) in
    subst (λ u. IsSpent u address nonce) (sym p.writes)
      (stored-IsSpent n s p.entry k address nonce above w)
perform-IsSpent n env s (fulfill_request_call other k data_bytes) address nonce {t} b i h w =
    elim (Result-cases (fulfill_request env s other k data_bytes)) [
      | inr (m, e) ↦ absurd (ground arith)
      | inl (r, e) ↦
          let same : r.1 ≡ t = ground arith in
          subst (λ u. IsSpent u address nonce) same
            (fulfilled-IsSpent s (r.1) address nonce
              (fulfill_request-parts env s other k data_bytes {call = r.0} {s' = r.1} e) w)
    ]
perform-IsSpent n env s (submit_call aggregator round_id submission) address nonce {t} b i h w =
    let same = leave-same s (submit env s aggregator round_id submission) h in
    same-IsSpent s t address nonce w (ap (λ (u : Oracle). u.nonces) same)
      (ap (λ (u : Oracle). u.requests) same)
perform-IsSpent n env s (add_authorization_call node) address nonce {t} b i h w =
    let (e, f) = add-same env s node h in same-IsSpent s t address nonce w e f
perform-IsSpent n env s (remove_authorization_call node) address nonce {t} b i h w =
    let (e, f) = remove-same env s node h in same-IsSpent s t address nonce w e f

init-IsNumbered : IsNumbered 0 init
unfolding requests_of get
init-IsNumbered = record {
  few = λ address last h. absurd (ground arith);
  used = λ address nonce r h. absurd (ground arith);
}

Run-IsNumbered :
    {s t : Oracle} {n m : ℕ} → n + m < 2 ^ 64 → IsNumbered n s → Run s m t → IsNumbered (n + m) t
Run-IsNumbered {s} {n = n} b i here = subst (λ k. IsNumbered k s) (omega arith) i
Run-IsNumbered {t = t} {n = n} b i (next {n = m} {u} env call r run) =
    subst (λ k. IsNumbered k t) (omega arith)
      (perform-IsNumbered (n + m) env u call (omega arith) (Run-IsNumbered (omega arith) i r) run)

Run-IsSpent :
    {s t : Oracle} {n m : ℕ} (address nonce : ℕ)
    → n + m < 2 ^ 64
    → IsNumbered n s
    → Run s m t
    → IsSpent s address nonce
    → IsSpent t address nonce
Run-IsSpent address nonce b i here w = w
Run-IsSpent {n = n} address nonce b i (next {n = m} {u} env call r run) w =
    perform-IsSpent (n + m) env u call address nonce (omega arith)
      (Run-IsNumbered (omega arith) i r) run (Run-IsSpent address nonce (omega arith) i r w)

-- In a run from the start of the contract with fewer than 2 ^ 64 - 1 other accepted calls, by anyone in
-- any order, a request that was fulfilled once is never fulfilled again: whatever is called after
-- the accepted `fulfillRequest`, a further one for the same account and nonce is refused, whoever
-- calls it.
pub fulfilled-never_again :
    (env env' : Env) (address nonce : ℕ) (data_bytes data_bytes' : List ℕ) {n m : ℕ}
    {s s' t : Oracle} {call : ReplyCall}
    → n + m < 2 ^ 64 - 1
    → Run init n s
    → fulfill_request env s address nonce data_bytes ≡ ok (call, s')
    → Run s' m t
    → is_ok (fulfill_request env' t address nonce data_bytes') ≡ false
fulfilled-never_again env env' address nonce data_bytes data_bytes' {n} {s = s} {s'} {t} b before h
      after =
    let i : IsNumbered n s =
      subst (λ k. IsNumbered k s) (omega arith)
        (Run-IsNumbered (omega arith) init-IsNumbered before) in
    let p = fulfill_request-parts env s address nonce data_bytes h in
    let (l, found, early) = i.used address nonce p.request p.found in
    let spent : IsSpent s' address nonce = record {
      last = l;
      found = ap (get address) p.nonces ∙ found;
      early = early;
      gone = p.gone;
    } in
    let w = Run-IsSpent address nonce (omega arith) (fulfilled-IsNumbered n s s' i p) after spent in
    elim (Result-cases (fulfill_request env' t address nonce data_bytes')) [
      | inr (m, e) ↦ rw e
      | inl (r, e) ↦
          let q =
            fulfill_request-parts env' t address nonce data_bytes' {call = r.0} {s' = r.1} e in
          absurd (ground (arith, w.gone, q.found))
    ]
