-- ===== src/Server/Listing/Walks.antt =====
-- Following the cursors of `ListByStatus` in internal/triage/repo.go from page to page.
use mathlib.Core.List.{append_assoc}
use sigil_manager.Prelude.{
  ℕ, zero, suc, ◌<◌, String, Bool, false, not, Option, none, some, List, [], ◌∷◌, ◌++◌, ◌≡◌, refl,
  sym, ap, ◌∙◌, inl, inr, arith, ltb, ◌==◌, string_eq, eq_iff, if◌then◌else◌, Bool-cases, filter,
  filter-filter, length, length-filter-le, any, includes, All, All-filter, IsPlain, chars,
}
use sigil_manager.Prelude.Sort.{sort, length-sort, All-sort}
use sigil_manager.Server.{Row, Store, empty_store, failed, is_valid}
use sigil_manager.Server.Runs.{Turn, after_turns, after_turns-IsSound}
use sigil_manager.Server.Action.{Result, ok, err}
use sigil_manager.Server.Healthy.{no_faults}
use sigil_manager.Server.KeyOrder.{Key}
use sigil_manager.Server.Listing.{
  ListResult, list_by_status, clamp_limit, wanted, row_after, key_of, is_past, select, page_of,
  encode_cursor, decode_cursor, cut, take,
}
use sigil_manager.Server.Listing.Pages.{filter-sort, filter-past, take-full, All-last}
use sigil_manager.Server.Listing.Cuts.{filter-true, clamp_limit-suc, page_of-last, page_of-full}
use sigil_manager.Server.Listing.Strict.{
  IsSingle, IsSingle-filter, sort-IsStrict, row_after-IsConsistent,
}
use sigil_manager.Server.Listing.Cursors.{decode_cursor-encode_cursor}

abbrev prepend : List Row → Result (List Row) → Result (List Row)
prepend rows (ok more) = ok (rows ++ more)
prepend rows (err e) = err e

no_key : (parse_ts : String → Option ℕ) (k : Key) → decode_cursor parse_ts "" ≡ some k → ⊥
unfolding decode_cursor cut
no_key parse_ts k read = absurd cc

module _ (format_ts : ℕ → String) (parse_ts : String → Option ℕ) where
  abbrev next_page : Result ListResult → (String → Result (List Row)) → Result (List Row)
  next_page (err e) go = err e
  next_page (ok page) go =
      if page.next_cursor == "" then ok page.rows else prepend page.rows (go page.next_cursor)

  -- All pages from a cursor, with fuel for so many.
  pub walk : ℕ → List String → ℕ → String → Store → Result (List Row)
  walk zero statuses limit cursor s = err failed
  walk (suc fuel) statuses limit cursor s =
      next_page
        (list_by_status format_ts parse_ts no_faults
          (record { statuses = statuses; limit = limit; cursor = cursor }) s).0
        (λ next. walk fuel statuses limit next s)

  module _ (parsed : (t : ℕ) → parse_ts (format_ts t) ≡ some t)
      (plain : (t : ℕ) → IsPlain b'|' (chars (format_ts t))) (statuses : List String)
      (valid : any (λ x. not (is_valid x)) (wanted statuses) ≡ false) (limit : ℕ) (s : Store)
      (single : IsSingle s.rows) (hosts : All (λ r. IsPlain b'|' (chars r.host_id)) s.rows) where
    abbrev has_status : Row → Bool
    has_status r = includes (wanted statuses) r.status

    -- All that there is to list.
    abbrev listed_rows : List Row
    listed_rows = sort row_after (filter has_status s.rows)

    -- What a cursor stands for.
    abbrev Reads : String → Option Key → Type 0
    Reads cursor none = cursor ≡ ""
    Reads cursor (some k) = ((cursor == "") ≡ false) × (decode_cursor parse_ts cursor ≡ some k)

    list-select :
        (cursor : String) (k : Option Key)
        → Reads cursor k
        → list_by_status format_ts parse_ts no_faults
            (record { statuses = statuses; limit = limit; cursor = cursor })
            s
          ≡ select format_ts no_faults (clamp_limit limit) (wanted statuses) k s
    unfolding list_by_status
    list-select cursor none start = rw (valid, start) refl
    list-select cursor (some k) (given, read) = rw (valid, given, read) refl

    -- The answer at a cursor, by what is left there.
    list_by_status-left :
        (cursor : String) (k : Option Key) (left : List Row)
        → Reads cursor k
        → filter (is_past k) listed_rows ≡ left
        → (list_by_status format_ts parse_ts no_faults
            (record { statuses = statuses; limit = limit; cursor = cursor })
            s).0
          ≡ ok (page_of format_ts (clamp_limit limit) (take (suc (clamp_limit limit)) left))
    list_by_status-left cursor k left reads rest =
        ap (λ r. r.0) (list-select cursor k reads)
        ∙ ap
            (λ rows.
              ok (page_of format_ts (clamp_limit limit) (take (suc (clamp_limit limit)) rows)))
            (ap (sort row_after) (sym (filter-filter (is_past k) has_status s.rows))
              ∙ sym (
                  filter-sort row_after row_after-IsConsistent (is_past k)
                    (filter has_status s.rows))
              ∙ rest)

    -- A cursor that is encoded is not empty.
    encode_cursor-given :
        (k : Key) → IsPlain b'|' (chars k.host_id) → (encode_cursor format_ts k == "") ≡ false
    encode_cursor-given k host = elim (Bool-cases (encode_cursor format_ts k == "")) [
      | inr given ↦ given
      | inl empty ↦
          let read = decode_cursor-encode_cursor format_ts parse_ts parsed plain k host in
          let none_read : decode_cursor parse_ts "" ≡ some k =
            rw ((eq_iff (encode_cursor format_ts k) "").0 empty) at read in
          absurd (no_key parse_ts k none_read)
    ]

    key_host :
        (before : List Row) (key : Row) (after : List Row)
        → listed_rows ≡ before ++ (key ∷ after)
        → IsPlain b'|' (chars key.host_id)
    key_host before key after whole =
        All-last row_after row_after-IsConsistent (λ r. IsPlain b'|' (chars r.host_id)) before key
          after
          (rw whole at (
            All-sort row_after (λ r. IsPlain b'|' (chars r.host_id)) (filter has_status s.rows)
              (All-filter (λ r. IsPlain b'|' (chars r.host_id)) has_status s.rows hosts)))

    past_key :
        (before : List Row) (key : Row) (after : List Row)
        → listed_rows ≡ before ++ (key ∷ after)
        → filter (is_past (some (key_of key))) listed_rows ≡ after
    past_key before key after whole =
        let strict =
          sort-IsStrict (filter has_status s.rows) (IsSingle-filter has_status s.rows single) in
        rw whole
          (filter-past row_after row_after-IsConsistent before key after (rw whole at strict))

    walk-left :
        (fuel : ℕ) (cursor : String) (k : Option Key) (before left : List Row)
        → Reads cursor k
        → listed_rows ≡ before ++ left
        → filter (is_past k) listed_rows ≡ left
        → length left < fuel
        → walk fuel statuses limit cursor s ≡ ok left
    unfolding walk
    walk-left zero cursor k before left reads whole rest enough = absurd (omega (arith, enough))
    walk-left (suc fuel) cursor k before left reads whole rest enough =
        let go : String → Result (List Row) = λ next. walk fuel statuses limit next s in
        let answer = list_by_status-left cursor k left reads rest in
        elim (Bool-cases (ltb (clamp_limit limit) (length left))) [
          | inr fits ↦
              ap (λ r. next_page r go)
                (answer ∙ ap ok (page_of-last format_ts (clamp_limit limit) left fits))
          | inl more ↦
              let (m, size) = clamp_limit-suc limit in
              let (page, key, after, parts, taken, end, count) =
                take-full m left (ground (arith, more, size)) in
              let full =
                page_of-full format_ts (clamp_limit limit) left page key more
                  (ap (λ n. take n left) size ∙ taken) end in
              let next = encode_cursor format_ts (key_of key) in
              let onward : listed_rows ≡ (before ++ page) ++ (key ∷ after) =
                whole
                ∙ ap (λ l. before ++ l) parts
                ∙ sym (append_assoc before page (key ∷ after)) in
              let host = key_host (before ++ page) key after onward in
              let given = encode_cursor-given (key_of key) host in
              let ends : walk fuel statuses limit next s ≡ ok after =
                walk-left fuel next (some (key_of key)) (before ++ (page ++ (key ∷ []))) after
                  (
                    given,
                    decode_cursor-encode_cursor format_ts parse_ts parsed plain (key_of key) host,
                  )
                  (whole
                    ∙ ap (λ l. before ++ l) (parts ∙ sym (append_assoc page (key ∷ []) after))
                    ∙ sym (append_assoc before (page ++ (key ∷ [])) after))
                  (past_key (before ++ page) key after onward) (omega (arith, enough, count)) in
              ap (λ r. next_page r go) (answer ∙ ap ok full)
              ∙ rw (given, ends) (ap ok (append_assoc page (key ∷ []) after ∙ sym parts))
        ]

    walk_all : walk (suc (length s.rows)) statuses limit "" s ≡ ok listed_rows
    walk_all =
        walk-left (suc (length s.rows)) "" none [] listed_rows refl refl (filter-true listed_rows) (
          omega (
            arith,
            length-sort row_after (filter has_status s.rows),
            length-filter-le has_status s.rows,
          ))

module _ (format_ts : ℕ → String) (parse_ts : String → Option ℕ)
    (parsed : (t : ℕ) → parse_ts (format_ts t) ≡ some t)
    (plain : (t : ℕ) → IsPlain b'|' (chars (format_ts t))) where
  -- If times are read as they were written and their texts and the hosts' names do not have the
  -- separator of the cursors, then in the store after any calls, of which the database may have failed
  -- at any statement, following the cursors from the start ends, whatever the limit, within as many
  -- pages as there are rows and one more, and lists every row with one of the wanted statuses, each
  -- once, in the order of the list.
  pub walk-lists :
      (turns : List Turn) (statuses : List String) (limit : ℕ)
      → any (λ x. not (is_valid x)) (wanted statuses) ≡ false
      → All (λ r. IsPlain b'|' (chars r.host_id)) (after_turns turns empty_store).rows
      → let s = after_turns turns empty_store in
        walk format_ts parse_ts (suc (length s.rows)) statuses limit "" s
        ≡ ok (sort row_after (filter (λ r. includes (wanted statuses) r.status) s.rows))
  walk-lists turns statuses limit valid hosts =
      walk_all format_ts parse_ts parsed plain statuses valid limit (after_turns turns empty_store)
        (after_turns-IsSound turns).single hosts
