-- ===== src/Sites/Tests.antt =====
-- Sites on concrete inputs: the site 5 of the account 1, whose page has the text "ab c".
use sonotxt_rust.Base.{◌≡◌, refl, false, ◌||◌, none, some, [], ◌∷◌, ◌==◌}
use sonotxt_rust.Base.Int.{pos}
use sonotxt_rust.Base.Text.{codes, eq_text, trim, trim_start, as_bytes}
use sonotxt_rust.Base.Errors.{ApiError, ok, err}
use sonotxt_rust.Base.Action.{quiet, ◌>>=◌}
use sonotxt_rust.Crawler.{
  text, no_more, and_then, crawl_site, find_content, first_text, extract_text_recursive,
  extract_node, concat, clean, join, split_from, starts_with,
}
use sonotxt_rust.Sites.{SiteRow, Sites, Env, words_from, count_words}
use sonotxt_rust.Sites.Content.{trigger_crawl, save_content, update_content}
use sonotxt_rust.Sites.History.{HasHistory}
use sonotxt_rust.Sites.Kept.{trigger_crawl-HasHistory, update_content-HasHistory}

abbrev env : Env
env = record {
  web = record {
    get = λ url. some [];
    select = λ html selector. some (and_then (text (codes "ab c")) no_more ∷ []);
    is_whitespace = λ c. (c == 32) || (c == 10);
  };
  to_hex = λ bytes. bytes;
}

abbrev site : SiteRow
site = record {
  id = 5;
  account_id = 1;
  url = [];
  selector = none;
  auto_crawl = false;
  crawl_frequency_hours = pos 24;
  last_crawled_at = none;
}

abbrev start : Sites
start = record { accounts = 1 ∷ []; sites = site ∷ []; content = []; versions = []; jobs = [] }

two_words : count_words env (codes "ab c") ≡ pos 2
unfolding words_from
two_words = refl

crawled :
    (trigger_crawl env quiet 9 100 5 1 start).0 ≡ ok (record { content_id = 9; word_count = pos 2 })
unfolding trigger_crawl save_content ◌>>=◌ crawl_site find_content first_text extract_text_recursive
    extract_node concat clean join split_from starts_with trim trim_start eq_text words_from
    as_bytes
crawled = refl

stranger : (trigger_crawl env quiet 9 100 5 2 start).0 ≡ err ApiError.not_found
unfolding trigger_crawl save_content ◌>>=◌
stranger = refl

start-HasHistory : HasHistory start
start-HasHistory id c e = absurd (cc)

trigger_crawl-HasHistory_example : HasHistory (trigger_crawl env quiet 9 100 5 1 start).1
trigger_crawl-HasHistory_example =
    trigger_crawl-HasHistory env 9 100 5 1 start refl start-HasHistory

update_content-HasHistory_example :
    HasHistory
      (update_content env quiet 9 1
        (some (codes "d"))
        (trigger_crawl env quiet 9 100 5 1 start).1).1
update_content-HasHistory_example =
    update_content-HasHistory env 9 1 (trigger_crawl env quiet 9 100 5 1 start).1 (some (codes "d"))
      (trigger_crawl-HasHistory env 9 100 5 1 start refl start-HasHistory)
