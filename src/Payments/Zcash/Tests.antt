-- ===== src/Payments/Zcash/Tests.antt =====
-- Runs of the scanner: account 1 has a key and a balance of 30, and a unit of zcash is worth two.
use sonotxt_rust.Base.{ℕ, ◌+◌, inl, arith, ◌≡◌, refl, Option, none, some, [], ◌∷◌, ◌==◌, find}
use sonotxt_rust.Base.Int.{ℤ, pos, ◌+ℤ◌}
use sonotxt_rust.Base.Text.{Text, codes, eq_text, utf8_char, as_bytes, trim}
use sonotxt_rust.Base.Errors.{ok}
use sonotxt_rust.Base.Assoc.{lookup, insert}
use sonotxt_rust.Base.Action.{quiet, ◌>>=◌}
use sonotxt_rust.Payments.Zcash.{
  ReceivedPayment, Scan, has_zid, scan, scan_all, scan_payment, credit_payment, account_of_zid,
  zid_of, before_zero, has_slice, insert_seen,
}
use sonotxt_rust.Payments.Zcash.Scanned.{IsAgain, scan_again}

abbrev twice : ℤ → ℤ
twice amount = amount +ℤ amount

abbrev long_key : Text
long_key = codes "zzzzzzzzzzzzzzzz"

abbrev hash : Text
hash = codes "tttttttttttttttt"

abbrev payment : ReceivedPayment
payment = record { txid = hash; amount = pos 4; memo = codes "m"; confirmations = 3 }

abbrev scanner : Scan
scanner = record {
  seen_txids = [];
  accounts = record { id = 1; zid_pubkey = long_key } ∷ [];
  credits = (1, pos 30) ∷ [];
  purchases = [];
}

abbrev to_zid : Text → Option Text
to_zid memo = some (long_key)

abbrev new_account : ℕ → ℕ
new_account k = k + 100

abbrev scanned : Scan
scanned = record {
  seen_txids = hash ∷ [];
  accounts = record { id = 1; zid_pubkey = long_key } ∷ [];
  credits = (1, pos 38) ∷ [];
  purchases = record { account_id = 1; amount = pos 8; deposit_id = none } ∷ [];
}

scanned_once : scan quiet twice to_zid new_account (ok (payment ∷ [])) scanner ≡ (ok tt, scanned)
unfolding scan scan_all scan_payment credit_payment insert_seen has_slice utf8_char account_of_zid
    ◌>>=◌ lookup insert eq_text ◌+ℤ◌
scanned_once = refl

-- Found again, with one more confirmation.
abbrev again : ReceivedPayment
again = record payment { confirmations = 4 }

found_again : IsAgain (payment ∷ []) again
unfolding IsAgain
found_again = inl (refl, refl, omega arith)

scan_again_example :
    scan quiet twice to_zid new_account (ok (again ∷ [])) scanned ≡ (ok tt, scanned)
scan_again_example =
    scan_again twice to_zid new_account (payment ∷ []) (again ∷ []) scanner scanned scanned_once
      (found_again, tt)

known_account : lookup 1 scanner.credits ≡ some (pos 30)
unfolding lookup
known_account = refl

known_zid :
    find (has_zid (long_key)) scanner.accounts ≡ some (record { id = 1; zid_pubkey = long_key })
unfolding eq_text
known_zid = refl

-- "tts:tts: k", with 32 characters of the key, names the key.
named :
    zid_of
      (λ hex. some hex)
      (λ bytes. some bytes)
      (λ c. c == 32)
      (codes "tts:tts: kkkkkkkkkkkkkkkkkkkkkkkkkkkkkkkk")
    ≡ some (codes "kkkkkkkkkkkkkkkkkkkkkkkkkkkkkkkk")
unfolding zid_of before_zero as_bytes trim
named = refl
