-- ===== src/Mcp/Cursor.antt =====
-- mcp/iterators.go (IterateCursor): all the items of a server that gives them in pages.
--
-- The server is a function from its state and a cursor to its new state and a page. The loop goes on as
-- long as the server names a next cursor, which may be for ever, so that it runs on fuel: the count of
-- pages that are fetched.
use mathlib.Core.List.{append-nil, append_assoc}
use toolsy.Prelude.{
  map, ap, ◌∙◌, ℕ, zero, suc, String, Bool, true, false, List, [], ◌∷◌, ◌++◌, ◌≡◌, str_eq,
  if◌then◌else◌,
}
use toolsy.Errors.{GoError, Result, ok, err}

pub record Page (A : Type 0) : Type 0 where
  pub items : List A
  pub next_cursor : String

-- What the consumer is handed: an item, or the error that ends the iteration.
pub data Handed (A : Type 0) : Type 0 where
  item : A → Handed A
  failed : GoError → Handed A

module _ {A S T : Type 0} (fetch : T → String → T × Result (Page A))
    (yield : S → Handed A → S × Bool) where
  -- The loop over the items of a page: whether the consumer goes on.
  unfoldable pub yield_items : S → List A → S × Bool
  yield_items s [] = (s, true)
  yield_items s (a ∷ rest) =
      let (s', goes_on) = yield s (item a) in
      elim goes_on [ true ↦ yield_items s' rest | false ↦ (s', false) ]

  -- What follows a page: the next one where the consumer goes on and there is a cursor.
  abbrev pub after_page : (String → S → (T × S) × Bool) → T → String → S × Bool → (T × S) × Bool
  after_page rest t next (s, false) = ((t, s), true)
  after_page rest t next (s, true) = if str_eq next "" then ((t, s), true) else rest next s

  -- IterateCursor from a cursor: the server, the consumer, and whether the iteration ended.
  unfoldable pub iterate_cursor : ℕ → String → T → S → (T × S) × Bool
  unfolding yield_items
  iterate_cursor zero cursor t s = ((t, s), false)
  iterate_cursor (suc fuel) cursor t s =
      let (t', fetched) = fetch t cursor in
      elim fetched [
        | err e ↦ ((t', (yield s (failed e)).0), true)
        | ok page ↦
            after_page (λ next s'. iterate_cursor fuel next t' s') t' page.next_cursor
              (yield_items s page.items)
      ]

module _ {A T : Type 0} (fetch : T → String → T × Result (Page A)) where
  -- What a consumer that wants all is handed of the pages from a cursor on: the items of all pages, up to
  -- the last one or to the error of the server. The number is of pages that suffice to come to the end.
  pub data Pages : ℕ → String → T → List (Handed A) → T → Type 0 where
    last :
        {n : ℕ} {cursor : String} {t t' : T} (page : Page A)
        → fetch t cursor ≡ (t', ok page)
        → str_eq page.next_cursor "" ≡ true
        → Pages (suc n) cursor t (map item page.items) t'
    breaks :
        {n : ℕ} {cursor : String} {t t' : T} (e : GoError)
        → fetch t cursor ≡ (t', err e)
        → Pages (suc n) cursor t (failed e ∷ []) t'
    more :
        {n : ℕ} {cursor : String} {t t' t'' : T} {rest : List (Handed A)} (page : Page A)
        → fetch t cursor ≡ (t', ok page)
        → str_eq page.next_cursor "" ≡ false
        → Pages n page.next_cursor t' rest t''
        → Pages (suc n) cursor t (map item page.items ++ rest) t''

  abbrev pub keeping : List (Handed A) → Handed A → List (Handed A) × Bool
  keeping seen x = (seen ++ x ∷ [], true)

  yield_items-keeping :
      (seen : List (Handed A)) (items : List A)
      → yield_items fetch keeping seen items ≡ (seen ++ map item items, true)
  unfolding yield_items
  yield_items-keeping seen [] = rw append-nil
  yield_items-keeping seen (a ∷ items) =
      rw (yield_items-keeping (seen ++ item a ∷ []) items, append_assoc)

  -- If the pages of a server come to an end or to an error, the iteration ends, and hands a consumer that
  -- wants all the items of all the pages in their order, and then the error, if there is one.
  pub iterate_cursor-Pages :
      {n : ℕ} {cursor : String} {t t' : T} {handed : List (Handed A)} (seen : List (Handed A))
      → Pages n cursor t handed t'
      → iterate_cursor fetch keeping n cursor t seen ≡ ((t', seen ++ handed), true)
  unfolding iterate_cursor
  iterate_cursor-Pages seen (Pages.last page h k) =
      rw (iterate_cursor, ap (λ x. x.1) h, yield_items-keeping seen page.items, k, ap (λ x. x.0) h)
  iterate_cursor-Pages seen (Pages.breaks e h) =
      rw (iterate_cursor, ap (λ x. x.1) h, ap (λ x. x.0) h)
  iterate_cursor-Pages seen (Pages.more {rest = handed} page h k rest) =
      rw (iterate_cursor, ap (λ x. x.1) h, yield_items-keeping seen page.items, k, ap (λ x. x.0) h)
        (iterate_cursor-Pages (seen ++ map item page.items) rest ∙ rw append_assoc)
