-- ===== src/Vault/Tests.antt =====
-- Runs of the vault: account 1 has an item of 3 bytes, account 2 none.
use sonotxt_rust.Base.{ℕ, ◌≡◌, refl, true, false, Option, none, some, [], ◌∷◌, arith}
use sonotxt_rust.Base.Int.{ℤ, pos}
use sonotxt_rust.Base.Bytes.{Bytes}
use sonotxt_rust.Base.Text.{Text, codes}
use sonotxt_rust.Base.Errors.{ApiError, Result, err}
use sonotxt_rust.Base.Assoc.{lookup}
use sonotxt_rust.Base.Action.{quiet, unwrap_or, ◌>>=◌}
use sonotxt_rust.Vault.{
  Key, vault, Item, Vault, UploadResult, PublishRequest, used, upload_encrypted, download_encrypted,
  delete_item, publish_item, upload,
}
use sonotxt_rust.Vault.Stored.{Stored, upload_encrypted-Stored}
use sonotxt_rust.Vault.Owners.{strangers_refused}

abbrev cost : ℕ → ℤ
cost size = pos 5

abbrev no_base64 : Text → Option Bytes
no_base64 t = none

abbrev no_ipfs : Bytes → Result ApiError UploadResult
no_ipfs b = err ApiError.internal_error

abbrev url : Key → Text
url k = codes "url"

abbrev item : Item
item = record {
  id = 7;
  account_id = 1;
  filename = codes "a.ogg";
  size_bytes = 3;
  content_type = codes "audio/ogg";
  storage_key = vault 1 7;
  is_public = false;
  public_url = none;
  ipfs_cid = none;
}

abbrev start : Vault
start = record { items = item ∷ []; objects = λ k. none; credits = (1, pos 30) ∷ [] }

upload_encrypted-Stored_example :
    Stored cost no_base64 no_ipfs url true 8 1
      (codes "b.ogg")
      (codes "audio/ogg")
      (1 ∷ 2 ∷ [])
      start
      (upload_encrypted cost no_base64 no_ipfs url quiet true 8 1
        (codes "b.ogg")
        (codes "audio/ogg")
        (1 ∷ 2 ∷ [])
        start)
upload_encrypted-Stored_example =
    upload_encrypted-Stored cost no_base64 no_ipfs url true 8 1 (codes "b.ogg") (codes "audio/ogg")
      (1 ∷ 2 ∷ []) start

uses_five :
    used 1
      (upload_encrypted cost no_base64 no_ipfs url quiet true 8 1
        (codes "b.ogg")
        (codes "audio/ogg")
        (1 ∷ 2 ∷ [])
        start).1
    ≡ 5
unfolding upload_encrypted upload ◌>>=◌
uses_five = refl

deleted : (delete_item cost no_base64 no_ipfs url quiet 7 1 start).1.items ≡ []
unfolding delete_item unwrap_or ◌>>=◌
deleted = refl

abbrev bad_request : PublishRequest
bad_request = record { decrypted_data = some (codes "%"); storage = none }

starts_with_thirty : lookup 1 start.credits ≡ some (pos 30)
unfolding lookup
starts_with_thirty = refl

strangers_refused_example :
    (download_encrypted cost no_base64 no_ipfs url quiet 7 2 start
      ≡ (err ApiError.not_found, start))
    × (delete_item cost no_base64 no_ipfs url quiet 7 2 start ≡ (err ApiError.not_found, start))
    × (publish_item cost no_base64 no_ipfs url quiet 7 2 bad_request start
        ≡ (err ApiError.not_found, start))
strangers_refused_example =
    strangers_refused cost no_base64 no_ipfs url 7 2 bad_request start
      ((λ e same. ground arith), tt)
