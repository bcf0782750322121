-- ===== src/Payments/Zcash.antt =====
-- sonotxt-api/src/services/payments/zcash.rs: the scanner that credits shielded payments by their
-- memos. What the node lists, hex, UTF-8, the whitespace of Unicode and the rate, in floating
-- point in the code, are parameters. A statement of the k-th payment that is handled has a number
-- from 5 * k on.
pub mod Scanned
mod Tests
use sonotxt_rust.Base.{
  ℕ, ◌+◌, ◌-◌, Bool, true, false, ◌&&◌, ◌||◌, not, Option, none, some, List, [], ◌∷◌, ltb, ◌==◌,
  if◌then◌else◌, length, any, find, zero, suc,
}
use sonotxt_rust.Base.Int.{ℤ, pos}
use sonotxt_rust.Base.Bytes.{Bytes}
use sonotxt_rust.Base.Text.{Text, codes, eq_text, as_bytes, utf8_char, trim}
use sonotxt_rust.Base.Errors.{ApiError, Result, ok, err}
use sonotxt_rust.Base.Assoc.{Assoc, lookup, insert}
use sonotxt_rust.Base.Action.{Action, Schedule, statement, pure, raise, raise_if, ◌>>=◌, ◌>>◌}
use sonotxt_rust.Payments.{Purchase, add_credit}

pub record ReceivedPayment : Type 0 where
  pub txid : Text
  pub amount : ℤ
  pub memo : Text
  pub confirmations : ℕ

-- A row of `accounts` that has a `zid_pubkey`.
pub record ZidAccount : Type 0 where
  pub id : ℕ
  pub zid_pubkey : Text

-- The scanner's memory, which a restart clears, and the tables.
pub record Scan : Type 0 where
  pub seen_txids : List Text
  pub accounts : List ZidAccount
  pub credits : Assoc ℤ
  pub purchases : List Purchase

-- Whether `&text[..n]` is a slice: the text has so many bytes, and a character ends there. If not,
-- it panics, and the task of the scanner is gone.
unfoldable pub has_slice : (n : ℕ) (text : Text) → Bool
unfolding utf8_char
has_slice n [] = n == 0
has_slice n (c ∷ text) =
    let rest = has_slice (n - length (utf8_char c)) text in
    if n == 0 then true else if ltb n (length (utf8_char c)) then false else rest

abbrev pub panic : ApiError
panic = ApiError.internal "panic"

abbrev pub memo_prefix : Text
memo_prefix = codes "tts:"

-- `take_while(|&b| b != 0)`
unfoldable pub before_zero : Bytes → Bytes
before_zero [] = []
before_zero (b ∷ bs) = if b == 0 then [] else b ∷ before_zero bs

-- What is left after a prefix, if it is one.
unfoldable pub strip_prefix : Text → Text → Option Text
strip_prefix [] t = some t
strip_prefix (c ∷ p) [] = none
strip_prefix (c ∷ p) (d ∷ t) = if c == d then strip_prefix p t else none

-- `trim_start_matches`, which takes a prefix away as often as it is there; the length is fuel
-- enough, since each round takes four characters.
unfoldable pub trim_prefix : ℕ → Text → Text
unfolding strip_prefix
trim_prefix zero t = t
trim_prefix (suc n) t = elim (strip_prefix memo_prefix t) [ none ↦ t | some u ↦ trim_prefix n u ]

abbrev pub has_zid : Text → ZidAccount → Bool
has_zid zid a = eq_text a.zid_pubkey zid

module _ (decode_hex : Text → Option Bytes) (from_utf8 : Bytes → Option Text)
    (is_whitespace : ℕ → Bool) where
  abbrev pub decode_memo : Text → Text
  decode_memo hex = elim (decode_hex hex) [
    | none ↦ []
    | some bytes ↦ elim (from_utf8 (before_zero bytes)) [ none ↦ [] | some t ↦ t ]
  ]

  -- The key that a memo names, if it passes the tests.
  unfoldable pub zid_of : Text → Option Text
  unfolding strip_prefix trim_prefix
  zid_of hex =
      let memo = decode_memo hex in
      let zid = trim is_whitespace (trim_prefix (length memo) memo) in
      elim (strip_prefix memo_prefix memo) [
        | none ↦ none
        | some rest ↦ if ltb (length (as_bytes zid)) 32 then none else some zid
      ]

-- `INSERT INTO accounts .. ON CONFLICT (zid_pubkey) DO NOTHING`; the column is VARCHAR(64).
abbrev pub insert_account : ℕ → Text → Scan → Bool × Scan
insert_account id zid s =
    if ltb 64 (length zid)
    then (false, s)
    else if any (has_zid zid) s.accounts
    then (true, s)
    else (true, record s { accounts = record { id = id; zid_pubkey = zid } ∷ s.accounts })

-- `INSERT INTO account_credits .. ON CONFLICT DO NOTHING`; the account has to be there.
abbrev pub insert_credits : ℕ → Scan → Bool × Scan
insert_credits id s =
    if any (λ a. a.id == id) s.accounts
    then (elim (lookup id s.credits) [
      | none ↦ (true, record s { credits = insert id (pos 0) s.credits })
      | some b ↦ (true, s)
    ])
    else (false, s)

module _ (sched : Schedule Scan) where
  -- A write that a constraint may refuse.
  abbrev pub checked : ℕ → (Scan → Bool × Scan) → Action Scan (Unit {0})
  checked k f = do
    fine ← statement sched k f
    if fine then pure tt else raise ApiError.internal_error

  -- The account of a key, which is made if there is none; `id` is drawn.
  unfoldable pub account_of_zid : (k id : ℕ) (zid : Text) → Action Scan ℕ
  account_of_zid k id zid = do
    row ← statement sched k λ s. (find (has_zid zid) s.accounts, s)
    elim row [
      | some a ↦ pure a.id
      | none ↦ (do
        checked (k + 1) (insert_account id zid)
        checked (k + 2) (insert_credits id)
        raise_if (not (has_slice 16 zid)) panic
        pure id)
    ]

  -- `seen_txids.insert`
  unfoldable pub insert_seen : Text → Action Scan (Unit {0})
  insert_seen txid s = (ok tt, record s { seen_txids = txid ∷ s.seen_txids })

  module _ (usd_value : ℤ → ℤ) where
    -- The lines that are logged cut the key and the hash at 16 bytes, which may panic.
    unfoldable pub credit_payment :
        (k id : ℕ) (zid : Text) (p : ReceivedPayment) → Action Scan (Unit {0})
    unfolding account_of_zid insert_seen
    credit_payment k id zid p = do
      account_id ← account_of_zid k id zid
      statement sched (k + 3)
          λ s. (tt, record s { credits = add_credit account_id (usd_value p.amount) s.credits })
      statement sched (k + 4) λ s. (
        tt,
        record s {
          purchases =
              record { account_id = account_id; amount = usd_value p.amount; deposit_id = none }
              ∷ s.purchases;
        },
      )
      insert_seen p.txid
      raise_if (not (has_slice 16 zid) || not (has_slice 16 p.txid)) panic

    module _ (zid_of_memo : Text → Option Text) (new_id : ℕ → ℕ) where
      -- The body of the loop.
      unfoldable pub scan_payment : (k : ℕ) (p : ReceivedPayment) → Action Scan (Unit {0})
      scan_payment k p s =
          if ltb p.confirmations 1 || any (eq_text p.txid) s.seen_txids
          then (ok tt, s)
          else (elim (zid_of_memo p.memo) [
            | none ↦ (ok tt, s)
            | some zid ↦ credit_payment k (new_id k) zid p s
          ])

      unfoldable pub scan_all : (k : ℕ) (payments : List ReceivedPayment) → Action Scan (Unit {0})
      unfolding scan_payment
      scan_all k [] = pure tt
      scan_all k (p ∷ payments) = do scan_payment k p; scan_all (k + 5) payments

      -- `scan`, with what the node lists.
      unfoldable pub scan : Result ApiError (List ReceivedPayment) → Action Scan (Unit {0})
      unfolding scan_all
      scan received = elim received [ err e ↦ raise e | ok payments ↦ scan_all 0 payments ]
