-- ===== src/Sites.antt =====
-- sonotxt-api/src/routes/sites.rs: sites, their content and its versions, over the tables of
-- migrations/001_initial.sql. Accounts and ids are numbers, and rows are the newest first. What
-- processing costs, which the code computes in floating point, is left out.
pub mod Content
pub mod History
pub mod Kept
pub mod Owned
mod Tests
use sonotxt_rust.Base.{
  ℕ, ◌+◌, ◌*◌, ◌-◌, ◌%◌, ◌^◌, Bool, true, false, not, ◌&&◌, ◌||◌, Option, none, some, List, [], ◌∷◌,
  ltb, ◌==◌, if◌then◌else◌, map, filter, find, any,
}
use sonotxt_rust.Base.Int.{as_i32, ℤ, pos, ◌-ℤ◌}
use sonotxt_rust.Base.Bytes.{Bytes}
use sonotxt_rust.Base.Text.{Text, as_bytes}
use sonotxt_rust.Base.Errors.{ApiError, Result, ok, err}
use sonotxt_rust.Base.Action.{Action, Schedule, statement, pure, raise, or_raise, ◌>>=◌, ◌>>◌}
use sonotxt_rust.Crawler.{Web}

pub record SiteRow : Type 0 where
  pub id : ℕ
  pub account_id : ℕ
  pub url : Text
  pub selector : Option Text
  pub auto_crawl : Bool
  pub crawl_frequency_hours : ℤ
  pub last_crawled_at : Option ℕ

pub record ContentRow : Type 0 where
  pub id : ℕ
  pub site_id : Option ℕ
  pub url : Text
  pub text_content : Text
  pub text_hash : Text
  pub word_count : ℤ

pub data VersionType : Type 0 where
  crawl edit : VersionType

pub record VersionRow : Type 0 where
  pub content_id : ℕ
  pub text_content : Text
  pub text_hash : Text
  pub word_count : ℤ
  pub version_type : VersionType
  pub created_by : ℕ

pub record JobRow : Type 0 where
  pub content_id : ℕ
  pub api_key : Text

pub record Sites : Type 0 where
  pub accounts : List ℕ
  pub sites : List SiteRow
  pub content : List ContentRow
  pub versions : List VersionRow
  pub jobs : List JobRow

-- What sites.rs uses of blake3.
pub record Env : Type 0 where
  pub web : Web
  pub to_hex : Bytes → Text

abbrev pub is_site : (id account : ℕ) → SiteRow → Bool
is_site id account s = (s.id == id) && (s.account_id == account)

abbrev pub is_content : ℕ → ContentRow → Bool
is_content id c = c.id == id

-- `site_id = $1`, false at NULL
abbrev pub is_at : ℕ → ContentRow → Bool
is_at site c = elim c.site_id [ none ↦ false | some s ↦ s == site ]

-- The words that begin in a text, behind a word or not.
unfoldable pub words_from : (is_whitespace : ℕ → Bool) (in_word : Bool) → Text → ℕ
words_from is_whitespace in_word [] = 0
words_from is_whitespace in_word (c ∷ s) =
    let rest = words_from is_whitespace (not (is_whitespace c)) s in
    if not (is_whitespace c) && not in_word then rest + 1 else rest

-- `text.split_whitespace().count() as i32`
abbrev pub count_words : Env → Text → ℤ
count_words env s = as_i32 (words_from env.web.is_whitespace false s)

abbrev pub hash_text : Env → Text → Text
hash_text env s = env.to_hex (as_bytes s)

-- `UPDATE content SET text_content = .., text_hash = .., word_count = .. WHERE id = ..`
abbrev pub set_text : Env → (id : ℕ) (new : Text) → ContentRow → ContentRow
set_text env id new c =
    if c.id == id
    then record c {
      text_content = new;
      text_hash = hash_text env new;
      word_count = count_words env new;
    }
    else c

abbrev pub update_text : Env → (id : ℕ) (new : Text) → Sites → Sites
update_text env id new s = record s { content = map (set_text env id new) s.content }

abbrev pub new_content : Env → (id : ℕ) (site : SiteRow) (new : Text) → ContentRow
new_content env id site new = record {
  id = id;
  site_id = some site.id;
  url = site.url;
  text_content = new;
  text_hash = hash_text env new;
  word_count = count_words env new;
}

-- A version that names an account or a content that does not exist is refused.
abbrev pub insert_version :
    Env → (content_id : ℕ) (new : Text) → VersionType → (account : ℕ) → Sites → Bool × Sites
insert_version env content_id new kind account s =
    if any (is_content content_id) s.content && any (λ a. a == account) s.accounts
    then (
      true,
      record s {
        versions =
            record {
              content_id = content_id;
              text_content = new;
              text_hash = hash_text env new;
              word_count = count_words env new;
              version_type = kind;
              created_by = account;
            }
            ∷ s.versions;
      },
    )
    else (false, s)

-- A statement that a constraint may refuse.
abbrev pub checked : Schedule Sites → ℕ → (Sites → Bool × Sites) → Action Sites (Unit {0})
checked sched k f = do
  done ← statement sched k f
  if done then pure tt else raise ApiError.internal_error
