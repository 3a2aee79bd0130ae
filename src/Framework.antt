-- ===== src/Framework.antt =====
-- What the contracts take from the elrond-wasm framework, which is not part of the repository:
-- results of endpoints, the environment of a call, transfers, and the record `Framework` of the
-- operations that are left abstract, with the documented laws that the code relies on.
pub mod Map
pub mod Holdings
use sc_chainlink_rs.Prelude.{
  ℕ, ◌+◌, ◌-◌, ◌%◌, ◌^◌, ◌≤◌, ◌<◌, ◌≡◌, refl, Bool, true, false, Option, none, some, List, String,
  ltb, ◌==◌, bytes_eq, if◌then◌else◌, arith, ◌⊎◌, inl, inr,
}
use mathlib.Core.List.{Perm}

-- `SCResult`: the virtual machine discards every change of a call that ends in an error, so an
-- error carries its message and no state.
pub data Result (A : Type 0) : Type 0 where
  ok : A → Result A
  err : String → Result A

-- `require!(cond, message)`
abbrev pub require : Bool → String → Result (Unit {0})
require cond message = if cond then ok tt else err message

infixl 5 ◌>>=◌ ◌>>◌
abbrev pub ◌>>=◌ : {A B : Type 0} → Result A → (A → Result B) → Result B
err message >>= next = err message
ok value >>= next = next value

abbrev pub ◌>>◌ : {B : Type 0} → Result (Unit {0}) → Result B → Result B
first >> then_do = first >>= λ done. then_do

-- `Option::ok_or(message)?`
abbrev pub ok_or : {A : Type 0} → Option A → String → Result A
ok_or none e = err e
ok_or (some a) e = ok a

-- `Result::is_ok`
abbrev pub is_ok : {A : Type 0} → Result A → Bool
is_ok (ok _) = true
is_ok (err _) = false

-- When two actions together end well, so does each.
pub >>=-eq-ok :
    {A B : Type 0} (first : Result A) (next : A → Result B) {result : B}
    → (first >>= next) ≡ ok result
    → (value : A) × (first ≡ ok value) × (next value ≡ ok result)
>>=-eq-ok (err message) next ends = cc
>>=-eq-ok (ok value) next ends = (value, refl, ends)

-- To split on how a call ended.
pub Result-cases :
    {A : Type 0} (r : Result A) → ((a : A) × (r ≡ ok a)) ⊎ ((e : String) × (r ≡ err e))
Result-cases (ok a) = inl (a, refl)
Result-cases (err e) = inr (e, refl)

-- What `self.blockchain()` tells a call. Addresses are only compared, so they are numbers.
pub record Env : Type 0 where
  pub caller : ℕ
  pub owner : ℕ
  pub sc_address : ℕ
  pub block_timestamp : ℕ

-- `self.send().direct(to, token, amount, message)`
pub record Transfer : Type 0 where
  pub to : ℕ
  pub token : List ℕ
  pub amount : ℕ
  pub message : List ℕ

-- The release profile of the wasm builds wraps a `u64` sum around.
abbrev pub add_u64 : ℕ → ℕ → ℕ
add_u64 a b = (a + b) % 2 ^ 64

-- `u64::checked_sub`
abbrev pub checked_sub : ℕ → ℕ → Option ℕ
checked_sub a b = if ltb a b then none else some (a - b)

-- the amount of each token
abbrev pub Holdings : Type 0
Holdings = List ℕ → ℕ

abbrev pub credit : Holdings → List ℕ → ℕ → Holdings
credit held token amount = λ other. if other == token then held other + amount else held other

abbrev pub debit : Holdings → List ℕ → ℕ → Holdings
debit held token amount = λ other. if other == token then held other - amount else held other

-- Big unsigned numbers have no bound; a subtraction below zero ends the call with an error.
-- The iterator of a storage map visits each entry once, in an order that is not promised.
-- `send().direct` takes the amount from what the contract holds of the token, and ends the call with
-- an error if that is less.
pub record Framework : Type 1 where
  pub sub : ℕ → ℕ → Result ℕ
  pub sub_error : String
  pub sub_le : (a b : ℕ) → b ≤ a → sub a b ≡ ok (a - b)
  pub sub_lt : (a b : ℕ) → a < b → sub a b ≡ err sub_error
  pub iter : (K V : Type 0) → List (K × V) → List (K × V)
  pub iter-perm : (K V : Type 0) (m : List (K × V)) → Perm (iter K V m) m
  pub direct : Holdings → Transfer → Result Holdings
  pub direct_le :
      (held : Holdings) (t : Transfer)
      → t.amount ≤ held t.token
      → direct held t ≡ ok (debit held t.token t.amount)
  pub direct_lt :
      (held : Holdings) (t : Transfer) → held t.token < t.amount → is_ok (direct held t) ≡ false

module _ ⦃fw : Framework⦄ where
  infixl 65 ◌-!◌
  abbrev pub ◌-!◌ : ℕ → ℕ → Result ℕ
  a -! b = fw.sub a b

  pub -!_eq-ok : (a b : ℕ) {c : ℕ} → (a -! b) ≡ ok c → (b ≤ a) × (c ≡ a - b)
  -!_eq-ok a b h = ground (arith, fw.sub_le a b, fw.sub_lt a b)
