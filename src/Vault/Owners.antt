-- ===== src/Vault/Owners.antt =====
-- The vault is closed to other accounts.
use sonotxt_rust.Base.{ℕ, ◌≡◌, ◌≢◌, refl, Option, none, List, [], ◌∷◌, arith, find, All}
use sonotxt_rust.Base.Int.{ℤ}
use sonotxt_rust.Base.Bytes.{Bytes}
use sonotxt_rust.Base.Text.{Text}
use sonotxt_rust.Base.Errors.{ApiError, Result, err}
use sonotxt_rust.Base.Action.{quiet, ◌>>=◌}
use sonotxt_rust.Vault.{
  Key, Item, Vault, UploadResult, PublishRequest, is_item, download_encrypted, delete_item,
  publish_item,
}

-- No item with this id is the account's.
abbrev pub IsForeign : (id account : ℕ) → List Item → Type 0
IsForeign id account = All (λ (i : Item). i.id ≡ id → i.account_id ≢ account)

find-foreign :
    (id account : ℕ) (is : List Item)
    → IsForeign id account is
    → find (is_item id account) is ≡ none
find-foreign id account [] h = refl
find-foreign id account (i ∷ is) h = ground (arith, find-foreign id account is h.1)

module _ (publish_cost : ℕ → ℤ) (decode_base64 : Text → Option Bytes)
    (add_to_ipfs : Bytes → Result ApiError UploadResult) (url_of : Key → Text) where
  -- With nobody interfering and the database answering, an item that is not the account's is not
  -- found by its requests to download, delete or publish it, and nothing changes.
  pub strangers_refused :
      (id account : ℕ) (req : PublishRequest) (v : Vault)
      → IsForeign id account v.items
      → (download_encrypted publish_cost decode_base64 add_to_ipfs url_of quiet id account v
          ≡ (err ApiError.not_found, v))
        × (delete_item publish_cost decode_base64 add_to_ipfs url_of quiet id account v
            ≡ (err ApiError.not_found, v))
        × (publish_item publish_cost decode_base64 add_to_ipfs url_of quiet id account req v
            ≡ (err ApiError.not_found, v))
  unfolding download_encrypted delete_item publish_item ◌>>=◌
  strangers_refused id account req v foreign =
      let none_found = find-foreign id account v.items foreign in
      (ground arith, ground arith, ground arith)
