-- ===== src/Vault.antt =====
-- sonotxt-api/src/routes/vault.rs: the encrypted store of users, with `upload` of
-- sonotxt-core/src/storage.rs as it calls it. Accounts and ids are numbers, sizes the lengths of
-- bodies, which fit an i64. The cost of publishing, which the code computes in floating point, is
-- a parameter, and so are base64, the answer of IPFS and the addresses made of a storage key.
pub mod Stored
pub mod Flaws
pub mod Owners
mod Tests
use sonotxt_rust.Base.{
  ℕ, ◌+◌, ◌*◌, Bool, true, false, ◌&&◌, not, Option, none, some, List, [], ◌∷◌, ltb, ◌==◌,
  if◌then◌else◌, length, take, map, filter, find,
}
use sonotxt_rust.Base.Int.{ℤ, pos, ◌-ℤ◌, ltb_ℤ}
use sonotxt_rust.Base.Bytes.{Bytes}
use sonotxt_rust.Base.Text.{Text, codes, eq_text}
use sonotxt_rust.Base.Errors.{ApiError, Result, ok, err}
use sonotxt_rust.Base.Assoc.{Assoc, lookup, insert}
use sonotxt_rust.Base.Action.{
  Action, Schedule, statement, pure, raise, raise_if, or_raise, unwrap_or, ◌>>=◌, ◌>>◌,
}

-- "vault/{account}/{id}" and "public/{id}"
pub data Key : Type 0 where
  vault : (account id : ℕ) → Key
  public : (id : ℕ) → Key

abbrev pub eq_key : Key → Key → Bool
eq_key (vault a i) (vault b j) = (a == b) && (i == j)
eq_key (vault a i) (public j) = false
eq_key (public i) (vault b j) = false
eq_key (public i) (public j) = i == j

-- A row of `vault_items`.
pub record Item : Type 0 where
  pub id : ℕ
  pub account_id : ℕ
  pub filename : Text
  pub size_bytes : ℕ
  pub content_type : Text
  pub storage_key : Key
  pub is_public : Bool
  pub public_url : Option Text
  pub ipfs_cid : Option Text

-- The rows, the newest first, the objects of the bucket, and the balances of `account_credits`.
pub record Vault : Type 0 where
  pub items : List Item
  pub objects : Key → Option Bytes
  pub credits : Assoc ℤ

pub data StorageBackend : Type 0 where
  minio : StorageBackend
  ipfs : StorageBackend

pub record UploadResult : Type 0 where
  pub url : Text
  pub ipfs_cid : Option Text

pub record VaultListResponse : Type 0 where
  pub items : List Item
  pub total_bytes : ℕ
  pub quota_bytes : ℕ

pub record UploadResponse : Type 0 where
  pub id : ℕ
  pub size_bytes : ℕ

pub record Download : Type 0 where
  pub content_type : Text
  pub filename : Text
  pub body : Bytes

pub record PublishRequest : Type 0 where
  pub decrypted_data : Option Text
  pub storage : Option Text

pub record PublishResponse : Type 0 where
  pub public_url : Text
  pub cost : ℤ
  pub ipfs_cid : Option Text

abbrev pub quota : ℕ
quota = 1024 * 1024 * 1024

abbrev pub is_of : ℕ → Item → Bool
is_of account i = i.account_id == account

-- `WHERE id = $1 AND account_id = $2`
abbrev pub is_item : (id account : ℕ) → Item → Bool
is_item id account i = (i.id == id) && (i.account_id == account)

abbrev pub sum_sizes : List Item → ℕ
sum_sizes [] = 0
sum_sizes (i ∷ is) = i.size_bytes + sum_sizes is

-- `SELECT COALESCE(SUM(size_bytes), 0) .. WHERE account_id = $1`
abbrev pub used : ℕ → Vault → ℕ
used account v = sum_sizes (filter (is_of account) v.items)

abbrev pub put_object : Key → Option Bytes → Vault → Vault
put_object key body v = record v { objects = λ k. if eq_key key k then body else v.objects k }

abbrev pub publish_row : ℕ → Text → Option Text → Item → Item
publish_row id url cid i =
    if i.id == id then record i { is_public = true; public_url = some url; ipfs_cid = cid } else i

-- `match req.storage.as_deref()`
abbrev pub backend_of : Option Text → StorageBackend
backend_of none = minio
backend_of (some s) = if eq_text s (codes "ipfs") then ipfs else minio

module _ (publish_cost : ℕ → ℤ) (decode_base64 : Text → Option Bytes)
    (add_to_ipfs : Bytes → Result ApiError UploadResult) (url_of : Key → Text)
    (sched : Schedule Vault) where
  unfoldable pub list_items : ℕ → Action Vault VaultListResponse
  list_items account = do
    rows ← statement sched 0 λ v. (take 100 (filter (is_of account) v.items), v)
    pure (record { items = rows; total_bytes = sum_sizes rows; quota_bytes = quota })

  -- `StorageService::upload`
  unfoldable pub upload :
      (k : ℕ) (key : Key) (body : Bytes) → StorageBackend → Action Vault UploadResult
  upload k key body minio = do
    statement sched k λ v. (tt, put_object key (some body) v)
    pure (record { url = url_of key; ipfs_cid = none })
  upload k key body ipfs = elim (add_to_ipfs body) [ ok r ↦ pure r | err e ↦ raise e ]

  -- Bodies that reach it: the router lets none through of over 10 MB. The sum of a BIGINT column
  -- is a NUMERIC; `reads_numeric` says whether sqlx decodes one as an `Option<i64>`.
  unfoldable pub upload_encrypted :
      (reads_numeric : Bool) (id account : ℕ) (filename content_type : Text) (body : Bytes)
      → Action Vault UploadResponse
  unfolding upload
  upload_encrypted reads_numeric id account filename content_type body = do
    used ← statement sched 0 λ v. (used account v, v)
    raise_if (not reads_numeric) ApiError.internal_error
    raise_if (ltb quota (used + length body)) ApiError.quota_exceeded
    raise_if (ltb (100 * 1024 * 1024) (length body)) ApiError.content_too_large
    stored ← upload 1 (vault account id) body minio
    statement sched 2 λ v. (
      tt,
      record v {
        items =
            record {
              id = id;
              account_id = account;
              filename = filename;
              size_bytes = length body;
              content_type = content_type;
              storage_key = vault account id;
              is_public = false;
              public_url = none;
              ipfs_cid = none;
            }
            ∷ v.items;
      },
    )
    pure (record { id = id; size_bytes = length body })

  -- The row that a handler begins with.
  abbrev pub item_of : (id account : ℕ) → Action Vault Item
  item_of id account = do
    row ← statement sched 0 λ v. (find (is_item id account) v.items, v)
    or_raise row ApiError.not_found

  unfoldable pub download_encrypted : (id account : ℕ) → Action Vault Download
  download_encrypted id account = do
    i ← item_of id account
    object ← statement sched 1 λ v. (v.objects i.storage_key, v)
    body ← or_raise object ApiError.not_found
    pure (record { content_type = i.content_type; filename = i.filename; body = body })

  unfoldable pub delete_item : (id account : ℕ) → Action Vault (Unit {0})
  delete_item id account = do
    i ← item_of id account
    unwrap_or (statement sched 1 λ v. (tt, put_object i.storage_key none v)) tt
    statement sched 2
        λ v. (tt, record v { items = filter (λ j. not (is_item id account j)) v.items })

  -- What is made public, and where: the decrypted data, or the object that is there.
  unfoldable pub publish_object : Item → PublishRequest → Action Vault UploadResult
  unfolding upload
  publish_object i req = elim req.decrypted_data [
    | none ↦ pure (record { url = url_of i.storage_key; ipfs_cid = none })
    | some b64 ↦ (do
      decrypted ← or_raise (decode_base64 b64) ApiError.invalid_request_error
      upload 3 (public i.id) decrypted (backend_of req.storage))
  ]

  unfoldable pub publish_item : (id account : ℕ) → PublishRequest → Action Vault PublishResponse
  unfolding publish_object
  publish_item id account req = do
    i ← item_of id account
    balance ← statement sched 1 λ v. (lookup account v.credits, v)
    raise_if (ltb_ℤ (elim balance [ none ↦ pos 0 | some b ↦ b ]) (publish_cost i.size_bytes))
        ApiError.insufficient_balance
    statement sched 2 λ v. (
      tt,
      elim (lookup account v.credits) [
        | none ↦ v
        | some b ↦ record v { credits = insert account (b -ℤ publish_cost i.size_bytes) v.credits }
      ],
    )
    made ← publish_object i req
    statement sched 4
        λ v. (tt, record v { items = map (publish_row id made.url made.ipfs_cid) v.items })
    pure (record {
      public_url = made.url;
      cost = publish_cost i.size_bytes;
      ipfs_cid = made.ipfs_cid;
    })
