-- ===== src/Server/Listing/Cursors.antt =====
-- The cursors of internal/triage/repo.go: what is encoded is read again.
use Prim.Native.Char.{Char, code}
use Prim.Native.String.{[], ◌∷◌, ◌++◌}
use text.Mathlib.TextLemmas.{nil-append, cons-append, append-nil}
use sigil_manager.Prelude.{
  ℕ, String, Option, some, [], ◌∷◌, ◌≡◌, refl, sym, ap, ◌∙◌, arith, template, chars, IsPlain,
  joined,
}
use sigil_manager.Server.KeyOrder.{Key}
use sigil_manager.Server.Listing.{cut, encode_cursor, decode_cursor}

-- A cut at the first separator.
cut-joined :
    (s : String) (c : Char) (t : String)
    → code c ≡ b'|'
    → IsPlain b'|' (chars s)
    → cut (s ++ (c ∷ t)) ≡ some (s, t)
unfolding cut
cut-joined [] c t e h = rw (nil-append (c ∷ t)) (ground (arith, e))
cut-joined (d ∷ s) c t e h =
    rw (cons-append d s (c ∷ t)) (rw (cut-joined s c t e h.1) (ground (arith, h.0)))

decode_cursor-parts :
    (parse_ts : String → Option ℕ) (s time rest : String) (k : Key)
    → cut s ≡ some (time, rest)
    → cut rest ≡ some (k.host_id, k.event_id)
    → parse_ts time ≡ some k.updated_at
    → decode_cursor parse_ts s ≡ some k
unfolding decode_cursor
decode_cursor-parts parse_ts s time rest k first second third =
    rw (first, second, third, decode_cursor) refl

module _ (format_ts : ℕ → String) (parse_ts : String → Option ℕ)
    (parsed : (t : ℕ) → parse_ts (format_ts t) ≡ some t)
    (plain : (t : ℕ) → IsPlain b'|' (chars (format_ts t))) where
  -- A cursor leads back to its key, if its host has no separator.
  pub decode_cursor-encode_cursor :
      (k : Key)
      → IsPlain b'|' (chars k.host_id)
      → decode_cursor parse_ts (encode_cursor format_ts k) ≡ some k
  unfolding encode_cursor
  decode_cursor-encode_cursor k host =
      let time = format_ts k.updated_at in
      let rest = template (k.host_id ∷ "|" ∷ k.event_id ∷ []) in
      let whole : encode_cursor format_ts k ≡ time ++ ("|" ∷ rest) =
        ap (λ r. time ++ ("|" ++ r)) (sym (append-nil rest)) ∙ joined "|" time rest in
      let first : cut (encode_cursor format_ts k) ≡ some (time, rest) =
        ap cut whole ∙ cut-joined time "|" rest refl (plain k.updated_at) in
      let second : cut rest ≡ some (k.host_id, k.event_id) =
        ap cut (joined "|" k.host_id k.event_id) ∙ cut-joined k.host_id "|" k.event_id refl host in
      decode_cursor-parts parse_ts _ time rest k first second (parsed k.updated_at)
