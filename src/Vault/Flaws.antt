-- ===== src/Vault/Flaws.antt =====
-- What the list of the vault leaves out, and a publication that is paid for and does not happen.
use sonotxt_rust.Base.{
  ℕ, ◌≤◌, ◌<◌, ◌≡◌, refl, false, Option, none, some, List, [], ◌∷◌, arith, length, take, filter,
  find, All, zero, suc,
}
use sonotxt_rust.Base.Int.{ℤ, ◌-ℤ◌, ltb_ℤ}
use sonotxt_rust.Base.Bytes.{Bytes}
use sonotxt_rust.Base.Text.{Text}
use sonotxt_rust.Base.Errors.{ApiError, Result, ok, err}
use sonotxt_rust.Base.Assoc.{lookup, insert, lookup-insert_self}
use sonotxt_rust.Base.Action.{quiet, ◌>>=◌}
use sonotxt_rust.Vault.{
  Key, Item, Vault, UploadResult, VaultListResponse, quota, is_of, is_item, sum_sizes, used,
  list_items, publish_object, publish_item,
}

sum-take_all : (n : ℕ) (is : List Item) → length is ≤ n → sum_sizes (take n is) ≡ sum_sizes is
sum-take_all zero [] h = refl
sum-take_all zero (i ∷ is) h = absurd (omega arith)
sum-take_all (suc n) [] h = refl
sum-take_all (suc n) (i ∷ is) h = omega (arith, sum-take_all n is)

abbrev pub NotEmpty : List Item → Type 0
NotEmpty = All (λ (i : Item). 0 < i.size_bytes)

sum-take_lt :
    (n : ℕ) (is : List Item) → n < length is → NotEmpty is → sum_sizes (take n is) < sum_sizes is
sum-take_lt n [] h filled = absurd (omega arith)
sum-take_lt zero (i ∷ is) h filled = omega arith
sum-take_lt (suc n) (i ∷ is) h filled = omega (arith, sum-take_lt n is (omega arith) filled.1)

module _ (publish_cost : ℕ → ℤ) (decode_base64 : Text → Option Bytes)
    (add_to_ipfs : Bytes → Result ApiError UploadResult) (url_of : Key → Text) where
  -- With nobody interfering and the database answering, the total that is listed with the quota is
  -- what the account uses if it has at most 100 items, and less if it has more and none is empty.
  pub total_understated :
      (account : ℕ) (v : Vault)
      → (r : VaultListResponse) × (list_items publish_cost decode_base64 add_to_ipfs url_of quiet
            account v
          ≡ (ok r, v))
        × (length (filter (is_of account) v.items) ≤ 100 → r.total_bytes ≡ used account v)
        × (100 < length (filter (is_of account) v.items)
            → NotEmpty (filter (is_of account) v.items)
            → r.total_bytes < used account v)
  unfolding list_items ◌>>=◌
  total_understated account v =
      let rows = filter (is_of account) v.items in
      (
        record {
          items = take 100 rows;
          total_bytes = sum_sizes (take 100 rows);
          quota_bytes = quota;
        },
        refl,
        sum-take_all 100 rows,
        sum-take_lt 100 rows,
      )

  paid_then_refused :
      (id account : ℕ) (v : Vault) (i : Item) (b : ℤ) (b64 : Text) (storage : Option Text)
      → find (is_item id account) v.items ≡ some i
      → lookup account v.credits ≡ some b
      → ltb_ℤ b (publish_cost i.size_bytes) ≡ false
      → decode_base64 b64 ≡ none
      → publish_item publish_cost decode_base64 add_to_ipfs url_of quiet id account
          (record { decrypted_data = some b64; storage = storage })
          v
        ≡ (
          err ApiError.invalid_request_error,
          record v { credits = insert account (b -ℤ publish_cost i.size_bytes) v.credits },
        )
  unfolding publish_item publish_object ◌>>=◌
  paid_then_refused id account v i b b64 storage found has enough bad = ground arith

  -- If an account can pay for publishing an item and sends data that is no base64, the answer is an
  -- error and the item is as it was, but the cost is gone from the balance.
  pub paid_unpublished :
      (id account : ℕ) (v : Vault) (i : Item) (b : ℤ) (b64 : Text) (storage : Option Text)
      → find (is_item id account) v.items ≡ some i
      → lookup account v.credits ≡ some b
      → ltb_ℤ b (publish_cost i.size_bytes) ≡ false
      → decode_base64 b64 ≡ none
      → let (r, v') =
          publish_item publish_cost decode_base64 add_to_ipfs url_of quiet id account
            (record { decrypted_data = some b64; storage = storage })
            v in
        (r ≡ err ApiError.invalid_request_error)
        × (v'.items ≡ v.items)
        × (lookup account v'.credits ≡ some (b -ℤ publish_cost i.size_bytes))
  paid_unpublished id account v i b b64 storage found has enough bad =
      rw (paid_then_refused id account v i b b64 storage found has enough bad)
        (refl, refl, lookup-insert_self account (b -ℤ publish_cost i.size_bytes) v.credits)
