-- ===== src/Sites/Kept.antt =====
-- Crawling and editing keep the history of every content.
use sonotxt_rust.Base.{
  [], ℕ, ◌≡◌, ◌≢◌, ◌⊎◌, inl, inr, refl, sym, subst, true, false, ◌&&◌, Option, none, some, List,
  ◌∷◌, ◌==◌, map, find, any, arith, Bool-cases, Option-cases,
}
use sonotxt_rust.Base.Text.{Text}
use sonotxt_rust.Base.Errors.{ApiError, ok, err, Result-cases}
use sonotxt_rust.Base.Action.{quiet, ◌>>=◌}
use sonotxt_rust.Crawler.{crawl_site}
use sonotxt_rust.Sites.{
  SiteRow, ContentRow, VersionRow, VersionType, crawl, edit, Sites, Env, is_site, is_content, is_at,
  count_words, hash_text, set_text, update_text, new_content,
}
use sonotxt_rust.Sites.Content.{trigger_crawl, save_content, update_content, set_crawled}
use sonotxt_rust.Sites.History.{HasHistory, Holds, find-set_text, any-set_text, recorded, any-find}

version_of : Env → (id : ℕ) (new : Text) → VersionType → (account : ℕ) → VersionRow
version_of env id new kind account = record {
  content_id = id;
  text_content = new;
  text_hash = hash_text env new;
  word_count = count_words env new;
  version_type = kind;
  created_by = account;
}

module _ (env : Env) (id account : ℕ) (s : Sites) where
  edited :
      (new : Text)
      → (any (is_content id) s.content && any (λ a. a == account) s.accounts) ≡ true
      → (update_content env quiet id account (some new) s).1
        ≡ update_text env id new
            (record s { versions = version_of env id new edit account ∷ s.versions })
  unfolding update_content ◌>>=◌ version_of
  edited new known = ground arith

  refused :
      (new : Text)
      → (any (is_content id) s.content && any (λ a. a == account) s.accounts) ≡ false
      → (update_content env quiet id account (some new) s).1 ≡ s
  unfolding update_content ◌>>=◌
  refused new unknown = ground arith

  -- With nobody interfering and the database answering, an edit, of whatever content and by
  -- whomever, accepted or refused, keeps the history of every content.
  pub update_content-HasHistory :
      (text : Option Text)
      → HasHistory s
      → HasHistory (update_content env quiet id account text s).1
  unfolding update_content ◌>>=◌ version_of
  update_content-HasHistory none h = h
  update_content-HasHistory (some new) h =
      elim (Bool-cases (any (is_content id) s.content && any (λ a. a == account) s.accounts)) [
        | inl known ↦ subst HasHistory (sym (edited new known)) (
            recorded env id new s
              (update_text env id new
                (record s { versions = version_of env id new edit account ∷ s.versions }))
              edit account refl (λ j c e. find-set_text env id new j s.content c e) h)
        | inr unknown ↦ subst HasHistory (sym (refused new unknown)) h
      ]

any-site :
    (id account : ℕ) (rows : List SiteRow) (site : SiteRow)
    → find (is_site id account) rows ≡ some site
    → any (λ r. r.id == site.id) rows ≡ true
any-site id account [] site e = absurd (cc)
any-site id account (r ∷ rows) site e = ground (arith, any-site id account rows site)

module _ (env : Env) (id now site_id account : ℕ) (s : Sites) where
  abbrev after : (content_id : ℕ) (new : Text) (content : List ContentRow) → Sites
  after content_id new content = set_crawled env quiet now site_id (record s {
    content = content;
    versions = version_of env content_id new crawl account ∷ s.versions;
  })

  unknown_site :
      find (is_site site_id account) s.sites ≡ none
      → (trigger_crawl env quiet id now site_id account s).1 ≡ s
  unfolding trigger_crawl ◌>>=◌
  unknown_site gone = ground arith

  not_crawled :
      (site : SiteRow) (e : ApiError)
      → find (is_site site_id account) s.sites ≡ some site
      → crawl_site env.web site.url site.selector ≡ err e
      → (trigger_crawl env quiet id now site_id account s).1 ≡ s
  unfolding trigger_crawl ◌>>=◌
  not_crawled site e there failed = ground arith

  crawled_again :
      (site : SiteRow) (new : Text) (row : ContentRow)
      → any (λ a. a == account) s.accounts ≡ true
      → find (is_site site_id account) s.sites ≡ some site
      → crawl_site env.web site.url site.selector ≡ ok new
      → find (is_at site.id) s.content ≡ some row
      → (trigger_crawl env quiet id now site_id account s).1
        ≡ after row.id new (map (set_text env row.id new) s.content)
  unfolding trigger_crawl save_content ◌>>=◌ version_of
  crawled_again site new row known there read old =
      ground (arith, any-find site.id s.content row old, any-set_text env row.id new s.content)

  crawled_first :
      (site : SiteRow) (new : Text)
      → any (λ a. a == account) s.accounts ≡ true
      → find (is_site site_id account) s.sites ≡ some site
      → crawl_site env.web site.url site.selector ≡ ok new
      → find (is_at site.id) s.content ≡ none
      → (trigger_crawl env quiet id now site_id account s).1
        ≡ after id new (new_content env id site new ∷ s.content)
  unfolding trigger_crawl save_content ◌>>=◌ version_of
  crawled_first site new known there read fresh =
      ground (arith, any-site site_id account s.sites site there)

  found_first :
      (site : SiteRow) (new : Text) (j : ℕ) (c : ContentRow)
      → find (is_content j) (new_content env id site new ∷ s.content) ≡ some c
      → ((j ≡ id) × Holds env id new c) ⊎ ((j ≢ id) × (find (is_content j) s.content ≡ some c))
  found_first site new j c e = elim (Bool-cases (id == j)) [
    | inl here ↦ inl (ground arith, (ground arith, ground arith, ground arith))
    | inr there ↦ inr ((λ same. ground arith), ground arith)
  ]

  -- With nobody interfering and the database answering, a crawl by an account that exists, of
  -- whatever site and whether or not the page can be read, keeps the history of every content.
  pub trigger_crawl-HasHistory :
      any (λ a. a == account) s.accounts ≡ true
      → HasHistory s
      → HasHistory (trigger_crawl env quiet id now site_id account s).1
  unfolding version_of
  trigger_crawl-HasHistory known h = elim (Option-cases (find (is_site site_id account) s.sites)) [
    | inl gone ↦ subst HasHistory (sym (unknown_site gone)) h
    | inr (site, there) ↦ elim (Result-cases (crawl_site env.web site.url site.selector)) [
      | inr (e, failed) ↦ subst HasHistory (sym (not_crawled site e there failed)) h
      | inl (new, read) ↦ elim (Option-cases (find (is_at site.id) s.content)) [
        | inl fresh ↦ subst HasHistory (sym (crawled_first site new known there read fresh)) (
            recorded env id new s (after id new (new_content env id site new ∷ s.content)) crawl
              account refl (found_first site new) h)
        | inr (row, old) ↦
            subst HasHistory (sym (crawled_again site new row known there read old)) (
              recorded env row.id new s (after row.id new (map (set_text env row.id new) s.content))
                crawl account refl (λ j c e. find-set_text env row.id new j s.content c e) h)
      ]
    ]
  ]
