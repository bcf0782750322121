-- ===== src/Payments/Zcash/Scanned.antt =====
-- What a scanner remembers, what a restart forgets, and what stops it.
use sonotxt_rust.Base.{
  zero, suc, ℕ, ◌+◌, ◌≤◌, ◌<◌, ◌≡◌, refl, ap, ◌∙◌, sym, Bool, true, false, ◌||◌, Option, none, some,
  List, [], ◌∷◌, arith, ltb, length, any, find, All, is_some, not, inl, inr, ◌⊎◌, Bool-cases,
  Option-cases,
}
use sonotxt_rust.Base.Int.{ℤ, ◌+ℤ◌}
use sonotxt_rust.Base.Text.{Text, eq_text, eq_text_refl}
use sonotxt_rust.Base.Errors.{ApiError, Result, ok, err, Result-cases}
use sonotxt_rust.Base.Assoc.{lookup, insert, lookup-insert_self}
use sonotxt_rust.Base.Action.{quiet, ◌>>=◌}
use sonotxt_rust.Payments.Zcash.{
  strip_prefix, trim_prefix, memo_prefix, ReceivedPayment, ZidAccount, Scan, has_zid, has_slice,
  insert_seen, account_of_zid, credit_payment, scan_payment, scan_all, scan,
}

length-strip_prefix : (p t u : Text) → strip_prefix p t ≡ some u → length t ≡ length p + length u
unfolding strip_prefix
length-strip_prefix [] t u e = ground arith
length-strip_prefix (c ∷ p) [] u e = absurd (ground arith)
length-strip_prefix (c ∷ p) (d ∷ t) u e = ground (arith, length-strip_prefix p t u)

-- The length of a text is fuel enough to take the prefix away as often as it is there.
pub trim_prefix_lem :
    (n : ℕ) (t : Text) → length t ≤ n → strip_prefix memo_prefix (trim_prefix n t) ≡ none
unfolding strip_prefix trim_prefix
trim_prefix_lem zero [] h = refl
trim_prefix_lem zero (c ∷ t) h = absurd (omega arith)
trim_prefix_lem (suc n) t h = elim (Option-cases (strip_prefix memo_prefix t)) [
  | inl gone ↦ ground arith
  | inr (u, there) ↦
      let shorter : length t ≡ 4 + length u = length-strip_prefix memo_prefix t u there in
      ground (arith, trim_prefix_lem n u (omega (arith, shorter)))
]

-- A payment with the hash and the memo of one in the list that was confirmed there.
unfoldable pub IsAgain : List ReceivedPayment → ReceivedPayment → Type 0
IsAgain [] p = ⊥
IsAgain (q ∷ qs) p = ((q.txid ≡ p.txid) × (q.memo ≡ p.memo) × (1 ≤ q.confirmations)) ⊎ IsAgain qs p

module _ (usd_value : ℤ → ℤ) (zid_of_memo : Text → Option Text) (new_id : ℕ → ℕ) where
  abbrev step : ℕ → ReceivedPayment → Scan → Result ApiError (Unit {0}) × Scan
  step k p s = scan_payment quiet usd_value zid_of_memo new_id k p s

  abbrev steps : ℕ → List ReceivedPayment → Scan → Result ApiError (Unit {0}) × Scan
  steps k ps s = scan_all quiet usd_value zid_of_memo new_id k ps s

  -- A payment that the scanner passes over.
  abbrev is_done : ReceivedPayment → Scan → Bool
  is_done p s =
      ltb p.confirmations 1
      || (any (eq_text p.txid) s.seen_txids || not (is_some (zid_of_memo p.memo)))

  passed_over :
      (k : ℕ) (p : ReceivedPayment) (s : Scan) → is_done p s ≡ true → step k p s ≡ (ok tt, s)
  unfolding scan_payment
  passed_over k p s done = ground arith

  credited_seen :
      (k id : ℕ) (zid : Text) (p : ReceivedPayment) (s s' : Scan)
      → credit_payment quiet usd_value k id zid p s ≡ (ok tt, s')
      → s'.seen_txids ≡ p.txid ∷ s.seen_txids
  unfolding credit_payment insert_seen account_of_zid ◌>>=◌
  credited_seen k id zid p s s' e = ground arith

  module _ (k : ℕ) (q : ReceivedPayment) (s s' : Scan) (e : step k q s ≡ (ok tt, s')) where
    -- Either it is passed over, or its hash is seen from then on.
    seen_next :
        ((is_done q s ≡ true) × (s' ≡ s))
        ⊎ ((is_done q s ≡ false) × (s'.seen_txids ≡ q.txid ∷ s.seen_txids))
    unfolding scan_payment
    seen_next = elim (Bool-cases (is_done q s)) [
      | inl done ↦ inl (done, ap (λ r. r.1) (sym e ∙ passed_over k q s done))
      | inr new ↦ elim (Option-cases (zid_of_memo q.memo)) [
        | inl none_named ↦ absurd (ground arith)
        | inr (zid, named) ↦ inr (new, credited_seen k (new_id k) zid q s s' (ground arith))
      ]
    ]

    done_after : is_done q s' ≡ true
    done_after = elim seen_next [
      | inl (done, same) ↦ rw same done
      | inr (new, seen) ↦ ground (arith, eq_text_refl q.txid, ap (any (eq_text q.txid)) seen)
    ]

    done_kept : (p : ReceivedPayment) → is_done p s ≡ true → is_done p s' ≡ true
    done_kept p done = elim seen_next [
      | inl (same_done, same) ↦ rw same done
      | inr (new, seen) ↦ ground (arith, ap (any (eq_text p.txid)) seen)
    ]

  module _ (k : ℕ) (q : ReceivedPayment) (qs : List ReceivedPayment) (s s' : Scan)
      (e : steps k (q ∷ qs) s ≡ (ok tt, s')) where
    -- The scan of the first payment, and of the others.
    split_scan : (mid : Scan) × (step k q s ≡ (ok tt, mid)) × (steps (k + 5) qs mid ≡ (ok tt, s'))
    unfolding scan_all ◌>>=◌
    split_scan = elim (Result-cases (step k q s).0) [
      | inl (u, fine) ↦ ((step k q s).1, ap (λ r. (r, (step k q s).1)) fine, ground arith)
      | inr (bad, failed) ↦ absurd (ground arith)
    ]

  all_kept :
      (k : ℕ) (qs : List ReceivedPayment) (s s' : Scan) (p : ReceivedPayment)
      → steps k qs s ≡ (ok tt, s')
      → is_done p s ≡ true
      → is_done p s' ≡ true
  unfolding scan_all ◌>>=◌
  all_kept k [] s s' p e done = let same : s' ≡ s = ap (λ r. r.1) (sym e) in rw same done
  all_kept k (q ∷ qs) s s' p e done =
      let (mid, first, rest) = split_scan k q qs s s' e in
      all_kept (k + 5) qs mid s' p rest (done_kept k q s mid first p done)

  All-is_done :
      (k : ℕ) (qs : List ReceivedPayment) (s s' : Scan)
      → steps k qs s ≡ (ok tt, s')
      → All (λ p. is_done p s' ≡ true) qs
  All-is_done k [] s s' e = tt
  All-is_done k (q ∷ qs) s s' e =
      let (mid, first, rest) = split_scan k q qs s s' e in
      (
        all_kept (k + 5) qs mid s' q rest (done_after k q s mid first),
        All-is_done (k + 5) qs mid s' rest,
      )

  steps-All_done :
      (k : ℕ) (qs : List ReceivedPayment) (s : Scan)
      → All (λ p. is_done p s ≡ true) qs
      → steps k qs s ≡ (ok tt, s)
  unfolding scan_all ◌>>=◌
  steps-All_done k [] s done = refl
  steps-All_done k (q ∷ qs) s (here, there) =
      ground (arith, passed_over k q s here, steps-All_done (k + 5) qs s there)

  again_done :
      (qs : List ReceivedPayment) (s : Scan) (p : ReceivedPayment)
      → All (λ q. is_done q s ≡ true) qs
      → IsAgain qs p
      → is_done p s ≡ true
  unfolding IsAgain
  again_done [] s p done never = elim never [ ]
  again_done (q ∷ qs) s p (here, there) (inl (same_txid, same_memo, confirmed)) =
      rw (← same_txid, ← same_memo) (ground arith)
  again_done (q ∷ qs) s p (here, there) (inr later) = again_done qs s p there later

  All-again_done :
      (qs later : List ReceivedPayment) (s : Scan)
      → All (λ q. is_done q s ≡ true) qs
      → All (IsAgain qs) later
      → All (λ p. is_done p s ≡ true) later
  All-again_done qs [] s done again = tt
  All-again_done qs (p ∷ later) s done (here, there) =
      (again_done qs s p done here, All-again_done qs later s done there)

  -- With nobody interfering and the database answering, the same scanner passes over the payments
  -- that were confirmed in a scan that ended well: when it finds payments with their hashes and
  -- memos again, in any order and with any amounts and numbers of confirmations, it changes
  -- nothing.
  pub scan_again :
      (payments later : List ReceivedPayment) (s s' : Scan)
      → scan quiet usd_value zid_of_memo new_id (ok payments) s ≡ (ok tt, s')
      → All (IsAgain payments) later
      → scan quiet usd_value zid_of_memo new_id (ok later) s' ≡ (ok tt, s')
  unfolding scan
  scan_again payments later s s' e again =
      steps-All_done 0 later s'
        (All-again_done payments later s' (All-is_done 0 payments s s' e) again)

  module _ (p : ReceivedPayment) (zid : Text) (named : zid_of_memo p.memo ≡ some zid)
      (confirmed : 1 ≤ p.confirmations) where
    -- A confirmed payment that was not seen, whose key has more than the 64 characters that the
    -- column holds and so no account, ends every scan that comes to it first in an error that
    -- changes nothing, whatever payments follow.
    pub scan_blocked :
        (s : Scan) (payments : List ReceivedPayment)
        → any (eq_text p.txid) s.seen_txids ≡ false
        → 64 < length zid
        → find (has_zid zid) s.accounts ≡ none
        → scan quiet usd_value zid_of_memo new_id (ok (p ∷ payments)) s
          ≡ (err ApiError.internal_error, s)
    unfolding scan scan_all scan_payment credit_payment insert_seen account_of_zid ◌>>=◌
    scan_blocked s payments unseen long unknown = ground arith

    credited_known :
        (s : Scan) (a : ZidAccount) (b : ℤ)
        → any (eq_text p.txid) s.seen_txids ≡ false
        → find (has_zid zid) s.accounts ≡ some a
        → lookup a.id s.credits ≡ some b
        → has_slice 16 zid ≡ true
        → has_slice 16 p.txid ≡ true
        → let (r, s') = scan quiet usd_value zid_of_memo new_id (ok (p ∷ [])) s in
          (r ≡ ok tt)
          × (s'.accounts ≡ s.accounts)
          × (s'.credits ≡ insert a.id (b +ℤ usd_value p.amount) s.credits)
    unfolding scan scan_all scan_payment credit_payment insert_seen account_of_zid ◌>>=◌
    credited_known s a b unseen known has cut cut' = ground arith

    -- A confirmed payment of a known account, with a key and a hash that are cut at 16 bytes
    -- without a panic, which a scanner credits, is credited again by the next scanner, whose
    -- memory is empty, with nobody interfering and the database answering.
    pub restart_credits_again :
        (s : Scan) (a : ZidAccount) (b : ℤ)
        → any (eq_text p.txid) s.seen_txids ≡ false
        → find (has_zid zid) s.accounts ≡ some a
        → lookup a.id s.credits ≡ some b
        → has_slice 16 zid ≡ true
        → has_slice 16 p.txid ≡ true
        → let (r, s') = scan quiet usd_value zid_of_memo new_id (ok (p ∷ [])) s in
          let (r', s'') =
            scan quiet usd_value zid_of_memo new_id (ok (p ∷ [])) (record s' { seen_txids = [] }) in
          (r ≡ ok tt)
          × (r' ≡ ok tt)
          × (lookup a.id s''.credits ≡ some (b +ℤ usd_value p.amount +ℤ usd_value p.amount))
    restart_credits_again s a b unseen known has cut cut' =
        let s' : Scan = (scan quiet usd_value zid_of_memo new_id (ok (p ∷ [])) s).1 in
        let (fine, same, credits) = credited_known s a b unseen known has cut cut' in
        let now : lookup a.id s'.credits ≡ some (b +ℤ usd_value p.amount) =
          ap (lookup a.id) credits ∙ lookup-insert_self a.id (b +ℤ usd_value p.amount) s.credits in
        let (fine', same', credits') =
          credited_known (record s' { seen_txids = [] }) a (b +ℤ usd_value p.amount) refl
            (ap (find (has_zid zid)) same ∙ known) now cut cut' in
        (
          fine,
          fine',
          ap (lookup a.id) credits'
              ∙ lookup-insert_self a.id (b +ℤ usd_value p.amount +ℤ usd_value p.amount) s'.credits,
        )
