-- ===== src/Fleet/Notices/Ends.antt =====
-- When a list says that it is complete.
use text.Mathlib.TextLemmas.{append-nil}
use sigil_manager.Prelude.{
  ℕ, String, Bool, false, Option, some, [], ◌∷◌, ◌≡◌, refl, arith, if◌then◌else◌, ◌||◌, truthy?,
  template,
}
use sigil_manager.Paging.{PagesData, next, has_more, cursor_repeated}
use sigil_manager.Paging.Cursors.{has_more-cursor_repeated}
use sigil_manager.Fleet.Notices.{pagination_line}

module _ {κ} {P : Type κ} (next_cursor : P → Option String) (show : ℕ → String) where
  shared_end : (a b t e : Bool) → (a || b) ≡ t → (a || b || e) ≡ (t || e)
  shared_end a b t e h = ground arith

  -- Once pages are loaded and nothing is pending, the line under a list says that the results end
  -- exactly when there is no error and the last page has no cursor; otherwise it calls them partial.
  pub pagination_line-next :
      (d : PagesData P) (count : ℕ) (has_error : Bool)
      → pagination_line show count false
          (has_more next_cursor (some d))
          (cursor_repeated next_cursor (some d))
          has_error
          false
        ≡ template (
            show count
            ∷ " loaded · "
            ∷ (if truthy? (next next_cursor d) || has_error
                then "partial results"
                else "end of results")
            ∷ [])
  unfolding pagination_line
  pagination_line-next d count has_error =
      let cover = (has_more-cursor_repeated next_cursor d).0 in
      rw (append-nil, shared_end _ _ _ has_error cover) refl
