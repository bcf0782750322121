-- ===== src/Crawler/Tests.antt =====
-- The text of pages on concrete inputs.
use sonotxt_rust.Base.{Bool, true, false, ◌||◌, ◌≡◌, refl, Option, none, some, List, [], ◌∷◌, ◌==◌}
use sonotxt_rust.Base.Text.{codes, eq_text, trim, trim_start}
use sonotxt_rust.Base.Errors.{ok}
use sonotxt_rust.Crawler.{
  Nodes, text, element, comment, no_more, and_then, Web, concat, join, starts_with, split_from,
  extract_node, extract_text_recursive, clean, find_content, first_text, crawl_site,
}
use sonotxt_rust.Crawler.Stripped.{strip, same_text-strip}

abbrev page : Nodes
page = and_then (element (codes "script") (and_then (text (codes "x")) no_more)) (
    and_then (text (codes " a "))
      (and_then (element (codes "p") (and_then (text (codes "b")) no_more)) no_more))

abbrev read_page : Nodes
read_page = and_then (text (codes " a ")) (
    and_then comment (and_then (element (codes "p") (and_then (text (codes "b")) no_more)) no_more))

abbrev if_body : Bool → Option (List Nodes)
if_body true = some (page ∷ [])
if_body false = none

-- A network with that page, which has one element, the body.
abbrev web : Web
web = record {
  get = λ url. some [];
  select = λ html selector. if_body (eq_text selector (codes "body"));
  is_whitespace = λ c. (c == 32) || (c == 10);
}

page_text : extract_text_recursive web page ≡ codes "a \nb "
unfolding extract_text_recursive extract_node concat trim trim_start eq_text
page_text = refl

page_crawled : crawl_site web [] none ≡ ok (codes "a\nb")
unfolding crawl_site find_content first_text extract_text_recursive extract_node concat trim
    trim_start eq_text clean join split_from starts_with
page_crawled = refl

-- Four line breaks are left as three.
three_breaks : clean web (codes "a\n\n\n\nb") ≡ codes "a\n\n\nb"
unfolding trim trim_start clean join split_from starts_with
three_breaks = refl

same_text-strip_example : extract_text_recursive web page ≡ extract_text_recursive web read_page
unfolding strip eq_text
same_text-strip_example = same_text-strip web page read_page refl
