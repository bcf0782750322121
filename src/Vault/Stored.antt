-- ===== src/Vault/Stored.antt =====
-- What is stored, listed and paid for in the vault.
use sonotxt_rust.Base.{
  ℕ, ◌+◌, ◌*◌, ◌≤◌, ◌<◌, ◌≡◌, refl, Bool, true, false, ◌⊎◌, Option, none, some, ◌∷◌, arith, ltb,
  length, inl, inr, Bool-cases,
}
use sonotxt_rust.Base.Int.{ℤ}
use sonotxt_rust.Base.Bytes.{Bytes}
use sonotxt_rust.Base.Text.{Text}
use sonotxt_rust.Base.Errors.{ApiError, Result, ok, err}
use sonotxt_rust.Base.Action.{quiet, ◌>>=◌}
use sonotxt_rust.Vault.{
  Key, vault, Item, Vault, UploadResult, UploadResponse, quota, used, put_object, upload_encrypted,
  download_encrypted,
}

module _ (publish_cost : ℕ → ℤ) (decode_base64 : Text → Option Bytes)
    (add_to_ipfs : Bytes → Result ApiError UploadResult) (url_of : Key → Text) where
  module _ (reads_numeric : Bool) (id account : ℕ) (filename content_type : Text) (body : Bytes)
      (v : Vault) where
    abbrev new_item : Item
    new_item = record {
      id = id;
      account_id = account;
      filename = filename;
      size_bytes = length body;
      content_type = content_type;
      storage_key = vault account id;
      is_public = false;
      public_url = none;
      ipfs_cid = none;
    }

    abbrev stored : Vault
    stored = record (put_object (vault account id) (some body) v) { items = new_item ∷ v.items }

    -- What an upload ends in: the item, of at most 100 MB, is stored within the quota and its owner
    -- downloads it as it was; or nothing changes, because the sum is not decoded, or the quota
    -- would be exceeded, or the body has over 100 MB.
    abbrev pub Stored : Result ApiError UploadResponse × Vault → Type 0
    Stored (ok r, v') =
        (reads_numeric ≡ true)
        × (length body ≤ 100 * 1024 * 1024)
        × (r ≡ record { id = id; size_bytes = length body })
        × (used account v' ≡ used account v + length body)
        × (used account v' ≤ quota)
        × (download_encrypted publish_cost decode_base64 add_to_ipfs url_of quiet id account v'
            ≡ (ok (record { content_type = content_type; filename = filename; body = body }), v'))
    Stored (err e, v') =
        (v' ≡ v)
        × (((e ≡ ApiError.internal_error) × (reads_numeric ≡ false))
            ⊎ (((e ≡ ApiError.quota_exceeded) × (quota < used account v + length body))
                ⊎ ((e ≡ ApiError.content_too_large) × (100 * 1024 * 1024 < length body))))

    abbrev uploaded : Result ApiError UploadResponse × Vault
    uploaded =
        upload_encrypted publish_cost decode_base64 add_to_ipfs url_of quiet reads_numeric id
          account filename content_type body v

    unread : reads_numeric ≡ false → uploaded ≡ (err ApiError.internal_error, v)
    unfolding upload_encrypted ◌>>=◌
    unread n = rw n refl

    over :
        reads_numeric ≡ true
        → ltb quota (used account v + length body) ≡ true
        → uploaded ≡ (err ApiError.quota_exceeded, v)
    unfolding upload_encrypted ◌>>=◌
    over n h = rw (n, h) refl

    large :
        reads_numeric ≡ true
        → ltb quota (used account v + length body) ≡ false
        → ltb (100 * 1024 * 1024) (length body) ≡ true
        → uploaded ≡ (err ApiError.content_too_large, v)
    unfolding upload_encrypted ◌>>=◌
    large n h k = rw (n, h, k) refl

    fits :
        reads_numeric ≡ true
        → ltb quota (used account v + length body) ≡ false
        → ltb (100 * 1024 * 1024) (length body) ≡ false
        → uploaded ≡ (ok (record { id = id; size_bytes = length body }), stored)
    unfolding upload_encrypted ◌>>=◌
    fits n h k = rw (n, h, k) refl

    -- With nobody interfering and the database and the bucket answering, an upload is refused with
    -- nothing changed exactly if sqlx does not decode the sum of the sizes, or the quota of 1 GB
    -- would be exceeded, or the body has over 100 MB; otherwise the body is stored within the quota,
    -- where its owner downloads it as it was.
    pub upload_encrypted-Stored : Stored uploaded
    unfolding download_encrypted ◌>>=◌
    upload_encrypted-Stored = elim (Bool-cases reads_numeric) [
      | inr n ↦ rw (unread n) (refl, inl (refl, n))
      | inl n ↦ elim (Bool-cases (ltb quota (used account v + length body))) [
        | inl h ↦ rw (over n h) (refl, inr (inl (refl, ground arith)))
        | inr h ↦ elim (Bool-cases (ltb (100 * 1024 * 1024) (length body))) [
          | inl k ↦ rw (large n h k) (refl, inr (inr (refl, ground arith)))
          | inr k ↦
              rw (fits n h k) (n, ground arith, refl, ground arith, ground arith, ground arith)
        ]
      ]
    ]
