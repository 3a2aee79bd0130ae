-- ===== src/Oracle/Numbered.antt =====
-- The nonces of oracle/src/lib.rs along a run: which ones are used, and which requests are open.
use sc_chainlink_rs.Prelude.{
  ℕ, ◌+◌, ◌-◌, ◌^◌, ◌≤◌, ◌<◌, ◌≡◌, refl, ap, sym, ◌∙◌, List, none, some, arith, inl, inr, nat_eq,
  Option-cases, Bool-cases, ◌==◌,
}
use mathlib.Core.Path.{subst}
use sc_chainlink_rs.Framework.{Result, ok, err, Env, Result-cases}
use sc_chainlink_rs.Framework.Map.{get}
use sc_chainlink_rs.Framework.Map.Laws.{get-insert}
use sc_chainlink_rs.Oracle.Contract.{
  OracleRequest, Oracle, ReplyCall, requests_of, expected_nonce, request, fulfill_request, submit,
  add_authorization, remove_authorization,
}
use sc_chainlink_rs.Oracle.Nonces.{stored, requests_of-stored, FulfillParts, fulfill_request-parts}
use sc_chainlink_rs.Oracle.Runs.{
  Call, request_call, fulfill_request_call, submit_call, add_authorization_call,
  remove_authorization_call, leave, perform,
}

-- Every open request has a nonce that its account has used, and each account has used fewer than
-- `n` nonces.
pub record IsNumbered (n : ℕ) (s : Oracle) : Type 0 where
  pub few : (address last : ℕ) → get address s.nonces ≡ some last → last < n
  pub used :
      (address nonce : ℕ) (r : OracleRequest)
      → get nonce (requests_of s address) ≡ some r
      → (last : ℕ) × (get address s.nonces ≡ some last) × (nonce ≤ last)

-- An accepted request takes the next nonce of its caller.
pub record RequestParts (env : Env) (s : Oracle) (nonce : ℕ) (t : Oracle) : Type 0 where
  pub entry : OracleRequest
  pub from : entry.caller ≡ env.caller
  pub writes : t ≡ stored s entry nonce
  pub expected : nonce ≡ expected_nonce s env.caller

pub request-parts :
    (env : Env) (s : Oracle) (callback_address : ℕ) (callback_method : List ℕ) (nonce : ℕ)
    (data_bytes : List ℕ) {t : Oracle}
    → request env s callback_address callback_method nonce data_bytes ≡ ok t
    → RequestParts env s nonce t
unfolding request
request-parts env s callback_address callback_method nonce data_bytes h = record {
  entry = record {
    caller = env.caller;
    callback_address = callback_address;
    callback_method = callback_method;
    data_bytes = data_bytes;
  };
  from = refl;
  writes = ground arith;
  expected = ground arith;
}

-- the next nonce lies above all that were used, as long as the counter does not wrap around
expected_above :
    (s : Oracle) (address last : ℕ)
    → last < 2 ^ 64 - 1
    → get address s.nonces ≡ some last
    → expected_nonce s address ≡ last + 1
unfolding expected_nonce
expected_above s address last small h = ground arith

expected_first :
    (s : Oracle) (address : ℕ) → get address s.nonces ≡ none → expected_nonce s address ≡ 0
unfolding expected_nonce
expected_first s address h = ground arith

-- the nonce of an accepted request
pub record NonceAbove (n : ℕ) (s : Oracle) (address nonce : ℕ) : Type 0 where
  pub small : nonce ≤ n
  pub above : (last : ℕ) → get address s.nonces ≡ some last → nonce ≡ last + 1

pub request-NonceAbove :
    (n : ℕ) (s : Oracle) (address nonce : ℕ)
    → n < 2 ^ 64 - 1
    → IsNumbered n s
    → nonce ≡ expected_nonce s address
    → NonceAbove n s address nonce
request-NonceAbove n s address nonce bound i e = elim (Option-cases (get address s.nonces)) [
  | inl g ↦ record {
    small = omega (arith, e, expected_first s address g);
    above = λ last h. absurd (ground arith);
  }
  | inr (l, g) ↦
      let few = i.few address l g in
      let next = expected_above s address l (omega arith) g in
      record {
        small = omega (arith, e, next, few);
        above = λ last h. let same : l ≡ last = ground arith in omega (arith, e, next, same);
      }
]

stored-IsNumbered :
    (n : ℕ) (s : Oracle) (r : OracleRequest) (nonce : ℕ)
    → IsNumbered n s
    → NonceAbove n s r.caller nonce
    → IsNumbered (n + 1) (stored s r nonce)
stored-IsNumbered n s r nonce i a = record {
  few = λ address last h. elim (Bool-cases (address == r.caller)) [
    | inl e ↦ ground (arith, get-insert address r.caller nonce s.nonces, a.small)
    | inr e ↦ ground (arith, get-insert address r.caller nonce s.nonces, i.few address last)
  ];
  used = λ address k q h.
      let now = get-insert address r.caller nonce s.nonces in
      let held = requests_of-stored s r nonce address in
      elim (Bool-cases (address == r.caller)) [
        | inr e ↦
            let old : get k (requests_of s address) ≡ some q = ground arith in
            let (l, found, early) = i.used address k q old in (l, ground arith, early)
        | inl e ↦
            let found : get address (stored s r nonce).nonces ≡ some nonce = ground arith in
            let caller : address ≡ r.caller = ground arith in
            elim (Bool-cases (k == nonce)) [
              | inl same ↦ (nonce, found, ground arith)
              | inr other ↦
                  let old : get k (requests_of s r.caller) ≡ some q =
                    ground (arith, get-insert k nonce r (requests_of s r.caller)) in
                  let (l, was, early) = i.used r.caller k q old in
                  (nonce, found, omega (arith, a.above l was, early))
            ]
      ];
}

pub fulfilled-IsNumbered :
    (n : ℕ) {env : Env} (s : Oracle) {address nonce : ℕ} {data_bytes : List ℕ} {call : ReplyCall}
    (t : Oracle)
    → IsNumbered n s
    → FulfillParts env s address nonce data_bytes call t
    → IsNumbered (n + 1) t
fulfilled-IsNumbered n s {address} {nonce} t i p = record {
  few = λ a last h. omega (arith, i.few a last (ap (get a) (sym p.nonces) ∙ h));
  used = λ a k q h.
      let was : get k (requests_of s a) ≡ some q = elim (Bool-cases (a == address)) [
        | inr e ↦ sym (p.kept a k (inl (ground arith))) ∙ h
        | inl e ↦ elim (Bool-cases (k == nonce)) [
          | inr e' ↦ sym (p.kept a k (inr (ground arith))) ∙ h
          | inl e' ↦
              let one : a ≡ address = ground arith in
              let two : k ≡ nonce = ground arith in absurd (ground (arith, p.gone, one, two))
        ]
      ] in
      let (l, found, early) = i.used a k q was in (l, ap (get a) p.nonces ∙ found, early);
}

pub requests_of-same :
    (s t : Oracle) (address : ℕ)
    → t.requests ≡ s.requests
    → requests_of t address ≡ requests_of s address
unfolding requests_of
requests_of-same s t address e = ground arith

same-IsNumbered :
    (n : ℕ) (s t : Oracle)
    → IsNumbered n s
    → t.nonces ≡ s.nonces
    → t.requests ≡ s.requests
    → IsNumbered (n + 1) t
same-IsNumbered n s t i e f = record {
  few = λ a last h. omega (arith, i.few a last (ap (get a) (sym e) ∙ h));
  used = λ a k q h.
      let (l, found, early) = i.used a k q (ap (get k) (sym (requests_of-same s t a f)) ∙ h) in
      (l, ap (get a) e ∙ found, early);
}

-- the endpoints that leave the requests as they are
pub leave-same :
    {A : Type 0} (s : Oracle) (r : Result A) {t : Oracle} → leave (λ a. s) r ≡ ok t → t ≡ s
leave-same s (ok a) h = ground arith
leave-same s (err e) h = ground arith

pub add-same :
    (env : Env) (s : Oracle) (node : ℕ) {t : Oracle}
    → add_authorization env s node ≡ ok t
    → (t.nonces ≡ s.nonces) × (t.requests ≡ s.requests)
unfolding add_authorization
add-same env s node h = ground arith

pub remove-same :
    (env : Env) (s : Oracle) (node : ℕ) {t : Oracle}
    → remove_authorization env s node ≡ ok t
    → (t.nonces ≡ s.nonces) × (t.requests ≡ s.requests)
unfolding remove_authorization
remove-same env s node h = ground arith

pub perform-IsNumbered :
    (n : ℕ) (env : Env) (s : Oracle) (call : Call) {t : Oracle}
    → n < 2 ^ 64 - 1
    → IsNumbered n s
    → perform env s call ≡ ok t
    → IsNumbered (n + 1) t
unfolding perform
perform-IsNumbered n env s (request_call callback_address callback_method nonce data_bytes) b i h =
    let p = request-parts env s callback_address callback_method nonce data_bytes h in
    let above =
      request-NonceAbove n s p.entry.caller nonce b i
        (p.expected ∙ ap (expected_nonce s) (sym p.from)) in
    subst (IsNumbered (n + 1)) (sym p.writes) (stored-IsNumbered n s p.entry nonce i above)
perform-IsNumbered n env s (fulfill_request_call address nonce data_bytes) {t} b i h =
    elim (Result-cases (fulfill_request env s address nonce data_bytes)) [
      | inr (m, e) ↦ absurd (ground arith)
      | inl (r, e) ↦
          let same : r.1 ≡ t = ground arith in
          subst (IsNumbered (n + 1)) same (
            fulfilled-IsNumbered n s (r.1) i
              (fulfill_request-parts env s address nonce data_bytes {call = r.0} {s' = r.1} e))
    ]
perform-IsNumbered n env s (submit_call aggregator round_id submission) {t} b i h =
    let same = leave-same s (submit env s aggregator round_id submission) h in
    same-IsNumbered n s t i (ap (λ (u : Oracle). u.nonces) same)
      (ap (λ (u : Oracle). u.requests) same)
perform-IsNumbered n env s (add_authorization_call node) {t} b i h =
    let (e, f) = add-same env s node h in same-IsNumbered n s t i e f
perform-IsNumbered n env s (remove_authorization_call node) {t} b i h =
    let (e, f) = remove-same env s node h in same-IsNumbered n s t i e f
