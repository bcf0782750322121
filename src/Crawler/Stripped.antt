-- ===== src/Crawler/Stripped.antt =====
-- What scripts and styles have to do with the text of a page.
use sonotxt_rust.Base.{
  ◌≡◌, refl, sym, ap, ◌∙◌, Option, none, some, List, [], arith, if◌then◌else◌, inl, inr, Bool-cases,
  Option-cases,
}
use sonotxt_rust.Base.Text.{Text}
use sonotxt_rust.Crawler.{
  Node, Nodes, text, element, comment, no_more, and_then, is_skipped, push_break, Web,
  extract_child, extract_node, concat, extract_text_recursive,
}

unfoldable mutual
  -- A page without its comments and the elements that hold no text for a reader.
  pub strip_child : Node → Option Node
  strip_child (text t) = some (text t)
  strip_child (element name children) =
      let kept = strip children in if is_skipped name then none else some (element name kept)
  strip_child comment = none

  pub strip : Nodes → Nodes
  strip no_more = no_more
  strip (and_then child rest) =
      let others = strip rest in
      elim (strip_child child) [ none ↦ others | some kept ↦ and_then kept others ]

module _ (web : Web) where
  mutual
    unfolding strip extract_node

    extract_child-strip_child :
        (child : Node) (result : List Text)
        → (elim (strip_child child) [ none ↦ result | some kept ↦ extract_child web kept result ])
          ≡ extract_child web child result
    extract_child-strip_child (text t) result = refl
    extract_child-strip_child (element name children) result = elim (Bool-cases (is_skipped name)) [
      | inl skipped ↦ ground arith
      | inr read ↦ ground (arith, extract_node-strip children (push_break name result))
    ]
    extract_child-strip_child comment result = refl

    extract_node-strip :
        (children : Nodes) (result : List Text)
        → extract_node web (strip children) result ≡ extract_node web children result
    extract_node-strip no_more result = refl
    extract_node-strip (and_then child rest) result = elim (Option-cases (strip_child child)) [
      | inl gone ↦ ground (
        arith,
        extract_child-strip_child child result,
        extract_node-strip rest (extract_child web child result),
      )
      | inr (kept, e) ↦ ground (
        arith,
        extract_child-strip_child child result,
        extract_node-strip rest (extract_child web child result),
      )
    ]

  -- Elements that differ in scripts, styles and comments only, at any depth, have the same text.
  pub same_text-strip :
      (ns ms : Nodes)
      → strip ns ≡ strip ms
      → extract_text_recursive web ns ≡ extract_text_recursive web ms
  unfolding extract_text_recursive
  same_text-strip ns ms same = ap concat (
      sym (extract_node-strip ns [])
      ∙ ap (λ n. extract_node web n []) same
      ∙ extract_node-strip ms [])
