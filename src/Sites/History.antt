-- ===== src/Sites/History.antt =====
-- The history of a content: its newest version is what the content holds.
use sonotxt_rust.Base.{
  ℕ, ◌≡◌, ◌≢◌, ◌⊎◌, inl, inr, refl, sym, Bool, true, some, List, [], ◌∷◌, ◌==◌, map, find, any,
  arith, Bool-cases,
}
use sonotxt_rust.Base.Text.{Text}
use sonotxt_rust.Sites.{
  ContentRow, VersionRow, VersionType, Sites, Env, is_content, is_at, count_words, hash_text,
  set_text,
}

abbrev pub is_of : ℕ → VersionRow → Bool
is_of id v = v.content_id == id

-- Each content has a version, and the newest is its text, with its hash and its words.
abbrev pub HasHistory : Sites → Type 0
HasHistory s =
    (id : ℕ) (c : ContentRow)
    → find (is_content id) s.content ≡ some c
    → (v : VersionRow) × (find (is_of id) s.versions ≡ some v)
      × (v.text_content ≡ c.text_content)
      × (v.text_hash ≡ c.text_hash)
      × (v.word_count ≡ c.word_count)

module _ (env : Env) (id : ℕ) (new : Text) where
  abbrev pub Holds : ContentRow → Type 0
  Holds c =
      (c.text_content ≡ new)
      × (c.text_hash ≡ hash_text env new)
      × (c.word_count ≡ count_words env new)

  pub find-set_text :
      (j : ℕ) (rows : List ContentRow) (c : ContentRow)
      → find (is_content j) (map (set_text env id new) rows) ≡ some c
      → ((j ≡ id) × Holds c) ⊎ ((j ≢ id) × (find (is_content j) rows ≡ some c))
  find-set_text j [] c e = absurd (cc)
  find-set_text j (r ∷ rows) c e = elim (Bool-cases (r.id == id)) [
    | inl old ↦ elim (Bool-cases (r.id == j)) [
      | inl here ↦ inl (ground arith, (ground arith, ground arith, ground arith))
      | inr there ↦ elim (find-set_text j rows c (ground arith)) [
        | inl a ↦ inl a
        | inr (apart, f) ↦ inr (apart, ground arith)
      ]
    ]
    | inr other ↦ elim (Bool-cases (r.id == j)) [
      | inl here ↦ inr ((λ same. ground arith), ground arith)
      | inr there ↦ elim (find-set_text j rows c (ground arith)) [
        | inl a ↦ inl a
        | inr (apart, f) ↦ inr (apart, ground arith)
      ]
    ]
  ]

  pub any-set_text :
      (rows : List ContentRow)
      → any (is_content id) (map (set_text env id new) rows) ≡ any (is_content id) rows
  any-set_text [] = refl
  any-set_text (r ∷ rows) = ground (arith, any-set_text rows)

  -- Writing a text into the content with an id, and a version of it.
  pub recorded :
      (s s' : Sites) (kind : VersionType) (account : ℕ)
      → s'.versions
        ≡ record {
          content_id = id;
          text_content = new;
          text_hash = hash_text env new;
          word_count = count_words env new;
          version_type = kind;
          created_by = account;
        }
          ∷ s.versions
      → ((j : ℕ) (c : ContentRow)
          → find (is_content j) s'.content ≡ some c
          → ((j ≡ id) × Holds c) ⊎ ((j ≢ id) × (find (is_content j) s.content ≡ some c)))
      → HasHistory s
      → HasHistory s'
  recorded s s' kind account versions content h j c e = elim (content j c e) [
    | inl (same, (t, x, w)) ↦ (
      record {
        content_id = id;
        text_content = new;
        text_hash = hash_text env new;
        word_count = count_words env new;
        version_type = kind;
        created_by = account;
      },
      ground arith,
      sym t,
      sym x,
      sym w,
    )
    | inr (apart, f) ↦
        let (v, g, t, x, w) = h j c f in
        (
          v,
          elim (Bool-cases (id == j)) [
            | inl same ↦ absurd (apart (ground arith))
            | inr differs ↦ ground arith
          ],
          t,
          x,
          w,
        )
  ]

pub any-find :
    (site : ℕ) (rows : List ContentRow) (row : ContentRow)
    → find (is_at site) rows ≡ some row
    → any (is_content row.id) rows ≡ true
any-find site [] row e = absurd (cc)
any-find site (r ∷ rows) row e = ground (arith, any-find site rows row)
