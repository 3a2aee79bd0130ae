-- ===== src/Tests/Setting.antt =====
-- A framework that meets the laws: subtraction with its check, and iteration in storage order.
use sc_chainlink_rs.Prelude.{
  refl, false, bytes_eq, ℕ, ◌-◌, ◌<◌, ◌≤◌, ◌≡◌, List, ltb, if◌then◌else◌, arith,
}
use mathlib.Core.List.Perm
use mathlib.Core.List.{Perm}
use sc_chainlink_rs.Framework.{Holdings, debit, Transfer, is_ok, Framework, Result, ok, err}

abbrev pub checked : ℕ → ℕ → Result ℕ
checked a b = if ltb a b then err "cannot subtract because result would be negative" else ok (a - b)

pub checked_le : (a b : ℕ) → b ≤ a → checked a b ≡ ok (a - b)
checked_le a b h = ground arith

pub checked_lt :
    (a b : ℕ) → a < b → checked a b ≡ err "cannot subtract because result would be negative"
checked_lt a b h = ground arith

pub in_order-perm : (K V : Type 0) (m : List (K × V)) → Perm m m
in_order-perm K V m = Perm.refl m

abbrev pub send : Holdings → Transfer → Result Holdings
send held t =
    if ltb (held t.token) t.amount
    then err "insufficient funds"
    else ok (debit held t.token t.amount)

pub send_le :
    (held : Holdings) (t : Transfer)
    → t.amount ≤ held t.token
    → send held t ≡ ok (debit held t.token t.amount)
send_le held t h = let e : ltb (held t.token) t.amount ≡ false = ground arith in rw e refl

pub send_lt :
    (held : Holdings) (t : Transfer) → held t.token < t.amount → is_ok (send held t) ≡ false
send_lt held t h = ground arith

instance abbrev pub plain_framework : Framework
plain_framework = record {
  sub = checked;
  sub_error = "cannot subtract because result would be negative";
  sub_le = checked_le;
  sub_lt = checked_lt;
  iter = λ K V m. m;
  iter-perm = in_order-perm;
  direct = send;
  direct_le = send_le;
  direct_lt = send_lt;
}
