-- ===== src/Sites/Owned.antt =====
-- Whose content a request reaches.
use sonotxt_rust.Base.{
  ℕ, ◌≡◌, refl, Bool, true, ◌&&◌, Option, none, some, List, [], ◌∷◌, ◌==◌, any, filter, all, arith,
}
use sonotxt_rust.Base.Text.{Text}
use sonotxt_rust.Base.Errors.{ok}
use sonotxt_rust.Base.Action.{quiet, ◌>>=◌}
use sonotxt_rust.Sites.{
  ContentRow, edit, Sites, Env, is_content, is_at, count_words, update_text, insert_version,
}
use sonotxt_rust.Sites.Content.{list_content, is_joined, update_content}

all-filter :
    (p q : ContentRow → Bool) (rows : List ContentRow)
    → ((c : ContentRow) → p c ≡ true → q c ≡ true)
    → all q (filter p rows) ≡ true
all-filter p q [] h = refl
all-filter p q (c ∷ rows) h = ground (arith, h c, all-filter p q rows h)

-- What is listed is content of sites of the account.
pub list_content-own :
    (env : Env) (account : ℕ) (site_id : Option (Option ℕ)) (rows : List ContentRow) (s s' : Sites)
    → list_content env quiet account site_id s ≡ (ok rows, s')
    → all (is_joined env quiet account s.sites) rows ≡ true
unfolding list_content ◌>>=◌
list_content-own env account none rows s s' e = ground (
  arith,
  all-filter (is_joined env quiet account s.sites) (is_joined env quiet account s.sites) s.content
      (λ c h. h),
)
list_content-own env account (some none) rows s s' e = absurd (cc)
list_content-own env account (some (some site)) rows s s' e = ground (
  arith,
  all-filter (λ c. is_joined env quiet account s.sites c && is_at site c)
      (is_joined env quiet account s.sites) s.content (λ c h. ground arith),
)

-- Whoever is logged in, of an account that exists, overwrites any content by its id, whoever's
-- site it is of: its newest version is theirs. Nobody disturbs it.
pub anyone_edits :
    (env : Env) (id account : ℕ) (new : Text) (s : Sites)
    → any (is_content id) s.content ≡ true
    → any (λ a. a == account) s.accounts ≡ true
    → update_content env quiet id account (some new) s ≡ (
      ok (count_words env new),
      update_text env id new (insert_version env id new edit account s).1,
    )
unfolding update_content ◌>>=◌
anyone_edits env id account new s there known = ground arith
