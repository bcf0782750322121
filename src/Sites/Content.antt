-- ===== src/Sites/Content.antt =====
-- The handlers of sonotxt-api/src/routes/sites.rs. Ids that a handler draws are arguments, and
-- `now` is the time.
use sonotxt_rust.Base.{
  ℕ, Bool, true, false, ◌&&◌, Option, none, some, List, ◌∷◌, ◌==◌, if◌then◌else◌, map, filter, find,
  any, take,
}
use sonotxt_rust.Base.Int.{ℤ, pos}
use sonotxt_rust.Base.Text.{Text}
use sonotxt_rust.Base.Errors.{ApiError, ok, err}
use sonotxt_rust.Base.Action.{Action, Schedule, statement, pure, raise, or_raise, ◌>>=◌, ◌>>◌}
use sonotxt_rust.Crawler.{crawl_site}
use sonotxt_rust.Sites.{
  SiteRow, ContentRow, VersionRow, crawl, edit, Sites, Env, is_site, is_content, is_at, count_words,
  hash_text, update_text, new_content, insert_version, checked,
}

pub record CreateSiteRequest : Type 0 where
  pub url : Text
  pub selector : Option Text
  pub auto_crawl : Bool
  pub crawl_frequency_hours : Option ℤ

-- What `trigger_crawl` answers with.
pub record Crawled : Type 0 where
  pub content_id : ℕ
  pub word_count : ℤ

-- What `submit_tts_job` answers with.
pub record Queued : Type 0 where
  pub word_count : ℤ

abbrev pub default_hours : Option ℤ → ℤ
default_hours none = pos 24
default_hours (some h) = h

module _ (env : Env) (sched : Schedule Sites) where
  -- `INSERT INTO sites`, of an account that exists.
  unfoldable pub create_site : (id account : ℕ) → CreateSiteRequest → Action Sites SiteRow
  create_site id account req = do
    let site : SiteRow = record {
      id = id;
      account_id = account;
      url = req.url;
      selector = req.selector;
      auto_crawl = req.auto_crawl;
      crawl_frequency_hours = default_hours req.crawl_frequency_hours;
      last_crawled_at = none;
    }
    checked sched 0 λ s.
        if any (λ a. a == account) s.accounts
        then (true, record s { sites = site ∷ s.sites })
        else (false, s)
    pure site

  unfoldable pub list_sites : (account : ℕ) → Action Sites (List SiteRow)
  list_sites account = statement sched 0 λ s. (filter (λ r. r.account_id == account) s.sites, s)

  -- `trigger_crawl` from the content on, which is inserted or updated.
  unfoldable pub save_content : (content_id : ℕ) (site : SiteRow) (new : Text) → Action Sites ℕ
  save_content content_id site new = do
    known ← statement sched 1 λ s. (find (is_at site.id) s.content, s)
    elim known [
      | some row ↦ (do statement sched 2 λ s. (tt, update_text env row.id new s); pure row.id)
      | none ↦ (do
        checked sched 2 λ s.
            if any (λ r. r.id == site.id) s.sites
            then (true, record s { content = new_content env content_id site new ∷ s.content })
            else (false, s)
        pure content_id)
    ]

  -- `UPDATE sites SET last_crawled_at = NOW()`
  abbrev pub set_crawled : (now site_id : ℕ) → Sites → Sites
  set_crawled now site_id s = record s {
    sites =
        map (λ r. if r.id == site_id then record r { last_crawled_at = some now } else r) s.sites;
  }

  unfoldable pub trigger_crawl : (content_id now site_id account : ℕ) → Action Sites Crawled
  unfolding save_content
  trigger_crawl content_id now site_id account = do
    row ← statement sched 0 λ s. (find (is_site site_id account) s.sites, s)
    site ← or_raise row ApiError.not_found
    new ← elim (crawl_site env.web site.url site.selector) [ ok t ↦ pure t | err e ↦ raise e ]
    final_content_id ← save_content content_id site new
    checked sched 3 λ s. insert_version env final_content_id new crawl account s
    statement sched 4 λ s. (tt, set_crawled now site_id s)
    pure (record { content_id = final_content_id; word_count = count_words env new })

  unfoldable pub get_site_content : (site_id : ℕ) → Action Sites ContentRow
  get_site_content site_id = do
    row ← statement sched 0 λ s. (find (is_at site_id) s.content, s)
    or_raise row ApiError.not_found

  -- `JOIN sites s ON c.site_id = s.id WHERE s.account_id = $1`
  abbrev pub is_joined : (account : ℕ) (sites : List SiteRow) → ContentRow → Bool
  is_joined account sites c = any (λ r. is_at r.id c && (r.account_id == account)) sites

  -- `site_id` is none if it is not given, and some none if it is no UUID.
  unfoldable pub list_content :
      (account : ℕ) (site_id : Option (Option ℕ)) → Action Sites (List ContentRow)
  list_content account none =
      statement sched 0 λ s. (filter (is_joined account s.sites) s.content, s)
  list_content account (some none) = raise ApiError.internal_error
  list_content account (some (some site)) =
      statement sched 0
        λ s. (filter (λ c. is_joined account s.sites c && is_at site c) s.content, s)

  -- The name of the job and the words.
  unfoldable pub process_content : (content_id : ℕ) → Action Sites (Text × ℤ)
  process_content content_id = do
    row ← statement sched 0 λ s. (find (is_content content_id) s.content, s)
    c ← or_raise row ApiError.not_found
    pure (take 16 (hash_text env c.text_content), c.word_count)

  -- `text` is the member `text_content` of the request, if it is a string.
  unfoldable pub update_content : (content_id account : ℕ) (text : Option Text) → Action Sites ℤ
  update_content content_id account text = do
    new ← or_raise text ApiError.internal_error
    checked sched 0 λ s. insert_version env content_id new edit account s
    statement sched 1 λ s. (tt, update_text env content_id new s)
    pure (count_words env new)

  unfoldable pub get_content_versions : (content_id : ℕ) → Action Sites (List VersionRow)
  get_content_versions content_id =
      statement sched 0 λ s. (filter (λ v. v.content_id == content_id) s.versions, s)

  unfoldable pub submit_tts_job : (content_id : ℕ) (api_key : Text) → Action Sites Queued
  submit_tts_job content_id api_key = do
    row ← statement sched 0 λ s. (find (is_content content_id) s.content, s)
    c ← or_raise row ApiError.not_found
    checked sched 1 λ s.
        if any (is_content content_id) s.content
        then (
          true,
          record s { jobs = record { content_id = content_id; api_key = api_key } ∷ s.jobs },
        )
        else (false, s)
    pure (record { word_count = c.word_count })
