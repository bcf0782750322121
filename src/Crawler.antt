-- ===== src/Crawler.antt =====
-- sonotxt-api/src/services/crawler.rs: the text of a page. What the network answers and what the
-- HTML parser and its selectors find are parameters, and so is which characters are white space.
pub mod Stripped
mod Tests
use sonotxt_rust.Base.{
  ℕ, zero, suc, ◌-◌, Bool, true, false, not, ◌&&◌, ◌||◌, Option, none, some, List, [], ◌∷◌, ◌++◌,
  ◌==◌, if◌then◌else◌, length, map, filter, any,
}
use sonotxt_rust.Base.Text.{Text, codes, eq_text, trim}
use sonotxt_rust.Base.Errors.{ApiError, Result, ok, err}

mutual
  -- A node of a document: a text, an element with its name and its children, or another.
  pub data Node : Type 0 where
    text : Text → Node
    element : (name : Text) (children : Nodes) → Node
    comment : Node

  pub data Nodes : Type 0 where
    no_more : Nodes
    and_then : Node → Nodes → Nodes

-- `get` is the text of a response, and none is an error. `select` has the children of each element
-- that a selector finds, and is none if the selector does not parse.
pub record Web : Type 0 where
  pub get : (url : Text) → Option Text
  pub select : (html selector : Text) → Option (List Nodes)
  pub is_whitespace : ℕ → Bool

abbrev pub is_empty : Text → Bool
is_empty [] = true
is_empty (c ∷ s) = false

abbrev pub no_result : List Text → Bool
no_result [] = true
no_result (t ∷ ts) = false

abbrev pub is_one_of : List Text → Text → Bool
is_one_of names name = any (eq_text name) names

abbrev pub is_skipped : Text → Bool
is_skipped = is_one_of (codes "script" ∷ codes "style" ∷ codes "noscript" ∷ [])

abbrev pub is_section : Text → Bool
is_section =
    is_one_of (codes "h1" ∷ codes "h2" ∷ codes "h3" ∷ codes "section" ∷ codes "article" ∷ [])

abbrev pub is_line : Text → Bool
is_line =
    is_one_of (
      codes "p" ∷ codes "div" ∷ codes "li" ∷ codes "h4" ∷ codes "h5" ∷ codes "h6" ∷ codes "br" ∷ [])

-- The line breaks before a block element: none at the beginning.
abbrev pub push_break : Text → List Text → List Text
push_break name result =
    if no_result result
    then result
    else if is_section name
    then result ++ codes "\n\n" ∷ []
    else if is_line name
    then result ++ codes "\n" ∷ []
    else result

abbrev pub push_text : Text → List Text → List Text
push_text trimmed result = if is_empty trimmed then result else result ++ trimmed ∷ codes " " ∷ []

unfoldable pub concat : List Text → Text
concat [] = []
concat (t ∷ ts) = t ++ concat ts

-- `lines.join(sep)`
unfoldable pub join : Text → List Text → Text
join sep [] = []
join sep (t ∷ []) = t
join sep (t ∷ u ∷ ts) = t ++ sep ++ join sep (u ∷ ts)

unfoldable pub starts_with : (pat : Text) → Text → Bool
starts_with [] s = true
starts_with (p ∷ ps) [] = false
starts_with (p ∷ ps) (c ∷ s) = (p == c) && starts_with ps s

-- A character before the first piece.
abbrev pub push_char : ℕ → List Text → List Text
push_char c [] = (c ∷ []) ∷ []
push_char c (t ∷ ts) = (c ∷ t) ∷ ts

-- `text.split(pat)`: `skip` characters are left of the separator that was found.
unfoldable pub split_from : (pat : Text) (skip : ℕ) → Text → List Text
unfolding starts_with
split_from pat skip [] = [] ∷ []
split_from pat zero (c ∷ s) = elim (starts_with pat (c ∷ s)) [
  | true ↦ [] ∷ split_from pat (length pat - 1) s
  | false ↦ push_char c (split_from pat 0 s)
]
split_from pat (suc k) (c ∷ s) = split_from pat k s

abbrev pub split : (pat : Text) → Text → List Text
split pat s = split_from pat 0 s

module _ (web : Web) where
  unfoldable mutual
    -- The body of the loop of `extract_node`, and the loop.
    pub extract_child : Node → List Text → List Text
    extract_child (text t) result = push_text (trim web.is_whitespace t) result
    extract_child (element name children) result =
        if is_skipped name then result else extract_node children (push_break name result)
    extract_child comment result = result

    pub extract_node : Nodes → List Text → List Text
    extract_node no_more result = result
    extract_node (and_then child rest) result = extract_node rest (extract_child child result)

  unfoldable pub extract_text_recursive : Nodes → Text
  unfolding concat extract_node
  extract_text_recursive children = concat (extract_node children [])

  -- The first element with a text.
  unfoldable pub first_text : List Nodes → Text
  unfolding extract_text_recursive
  first_text [] = []
  first_text (e ∷ es) =
      let rest = first_text es in
      let extracted = extract_text_recursive e in if is_empty extracted then rest else extracted

  -- The loop over the selectors.
  unfoldable pub find_content : (html : Text) (selectors : List Text) → Text
  unfolding first_text
  find_content html [] = []
  find_content html (sel ∷ selectors) =
      let rest = find_content html selectors in
      elim (web.select html sel) [
        | none ↦ rest
        | some elements ↦
            let content = first_text elements in if is_empty content then rest else content
      ]

  abbrev pub selectors_of : Option Text → List Text
  selectors_of (some sel) = sel ∷ []
  selectors_of none =
      codes "main"
      ∷ codes "article"
      ∷ codes "[role='main']"
      ∷ codes ".content"
      ∷ codes "#content"
      ∷ codes "body"
      ∷ []

  abbrev pub is_blank : Text → Bool
  is_blank s = is_empty (trim web.is_whitespace s)

  unfoldable pub clean : Text → Text
  unfolding join split_from
  clean content =
      let lines = join (codes "\n") (map (trim web.is_whitespace) (split (codes "\n") content)) in
      let sections = join (codes "\n\n") (split (codes "\n\n\n") lines) in
      join (codes "\n\n") (filter (λ s. not (is_blank s)) (split (codes "\n\n") sections))

  unfoldable pub crawl_site : (url : Text) (selector : Option Text) → Result ApiError Text
  unfolding find_content clean
  crawl_site url selector = elim (web.get url) [
    | none ↦ err ApiError.internal_error
    | some html ↦
        let cleaned = clean (find_content html (selectors_of selector)) in
        if is_empty cleaned then err ApiError.not_found else ok cleaned
  ]
