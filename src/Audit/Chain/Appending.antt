-- ===== src/Audit/Chain/Appending.antt =====
-- What appending makes of a log that is accepted, by how its text ends and by what the write does.
use modelguard.Base.{
  ℕ, ◌+◌, String, ◌≡◌, ◌≢◌, refl, sym, ap, ◌∙◌, ◌⊎◌, inl, inr, List, [], ◌∷◌, ◌++◌, Option, none,
  some,
}
use modelguard.Base.{if◌then◌else◌}
use modelguard.Base.Bytes.{Bytes}
use modelguard.Base.Json.{Json}
use modelguard.Base.Result.{ok, err, bind_elim, ok-injective}
use modelguard.Exceptions.{value_error}
use modelguard.Audit.Chain.{
  ChainEntry, Line, blank, garbled, written, LogFile, genesis_hash, linked_entry, last_line,
  read_last_entry, read_lines, read_all_entries, link_behind, lines_of, with_line, append_entry,
  verify_chain,
}
use modelguard.Audit.Chain.Tampering.{Chained, end_hash, verify_entries_iff, Chained-append}
use modelguard.Audit.Chain.Reading.{
  EndsLine, ends_line, ends_line-EndsLine, with_line-EndsLine, read_all_entries-with_line,
  read_all_entries-joined,
}

-- The last entry of a list, or the one given.
abbrev last_or : Option ChainEntry → List ChainEntry → Option ChainEntry
last_or o [] = o
last_or o (e ∷ es) = last_or (some e) es

abbrev as_line : Option ChainEntry → Option Line
as_line none = none
as_line (some e) = some (written e)

last_line-read_lines :
    (lines : List Line) (o : Option ChainEntry) {es : List ChainEntry}
    → read_lines lines ≡ ok es
    → last_line lines (as_line o) ≡ as_line (last_or o es)
unfolding read_lines last_line
last_line-read_lines [] o h = ap (λ es. as_line (last_or o es)) (ok-injective h)
last_line-read_lines (blank ∷ lines) o h = last_line-read_lines lines o h
last_line-read_lines (garbled ∷ lines) o h = cc
last_line-read_lines (written f ∷ lines) o h = bind_elim _ _ h λ fs r k.
    last_line-read_lines lines (some f) r
    ∙ ap (λ (x : List ChainEntry). as_line (last_or o x)) (ok-injective k)

last_or-some :
    (e : ChainEntry) (es : List ChainEntry) → (l : ChainEntry) × (last_or (some e) es ≡ some l)
last_or-some e [] = (e, refl)
last_or-some e (f ∷ es) = last_or-some f es

module _ (sha256 : Bytes → String) where
  end_hash-last_or :
      (prev : String) (e : ChainEntry) (es : List ChainEntry) (l : ChainEntry)
      → last_or (some e) es ≡ some l
      → end_hash sha256 prev (e ∷ es) ≡ l.record_hash
  end_hash-last_or prev e [] l h = cc
  end_hash-last_or prev e (f ∷ es) l h = end_hash-last_or e.record_hash f es l h

  link_behind-lines :
      (line : Line) (lines : List Line) (e : ChainEntry) (es : List ChainEntry)
      → read_lines (line ∷ lines) ≡ ok (e ∷ es)
      → (n : ℕ) × (link_behind (line ∷ lines) ≡ ok (n, end_hash sha256 genesis_hash (e ∷ es)))
  unfolding link_behind read_last_entry
  link_behind-lines line lines e es h =
      let (l, last) = last_or-some e es in
      (
        l.index + 1,
        rw (last_line-read_lines (line ∷ lines) none h, last)
            (ap (λ (x : String). ok (l.index + 1, x))
              (sym (end_hash-last_or genesis_hash e es l last))),
      )

  -- Lines with an entry, or no line at all, tell the next entry what to take up.
  link_behind-end_hash :
      (lines : List Line) (es : List ChainEntry)
      → read_lines lines ≡ ok es
      → (es ≢ []) ⊎ (lines ≡ [])
      → (n : ℕ) × (link_behind lines ≡ ok (n, end_hash sha256 genesis_hash es))
  unfolding read_lines link_behind
  link_behind-end_hash [] es h c =
      (0, ap (λ (es : List ChainEntry). ok (0, end_hash sha256 genesis_hash es)) (ok-injective h))
  link_behind-end_hash (line ∷ lines) [] h (inl c) = absurd (c refl)
  link_behind-end_hash (line ∷ lines) [] h (inr c) = absurd (cc c)
  link_behind-end_hash (line ∷ lines) (e ∷ es) h c = link_behind-lines line lines e es h

  -- The entry that is appended to an accepted log continues its chain.
  pub append_entry-Chained :
      (log : LogFile) (r : Json) (es : List ChainEntry)
      → read_all_entries log ≡ ok es
      → verify_chain sha256 log ≡ ok tt
      → (es ≢ []) ⊎ (lines_of log ≡ [])
      → (e : ChainEntry) × (append_entry sha256 log r ≡ ok (e, with_line log e))
        × (e.entry_record ≡ r)
        × Chained sha256 genesis_hash (es ++ e ∷ [])
  unfolding append_entry verify_chain linked_entry
  append_entry-Chained log r es h v c =
      let (n, next) = link_behind-end_hash (lines_of log) es (unfold read_all_entries in h) c in
      let before : Chained sha256 genesis_hash es =
        (verify_entries_iff sha256 genesis_hash es).0 (rw h at v) in
      let e : ChainEntry = linked_entry sha256 n (end_hash sha256 genesis_hash es) r in
      (
        e,
        rw next refl,
        refl,
        (Chained-append sha256 genesis_hash es (e ∷ [])).1 (before, (refl, refl, tt)),
      )

  unread :
      (log : LogFile)
      → read_all_entries log ≡ err value_error
      → verify_chain sha256 log ≡ err value_error
  unfolding verify_chain
  unread log h = rw h refl

  pub accepts :
      (log : LogFile) (es : List ChainEntry)
      → read_all_entries log ≡ ok es
      → Chained sha256 genesis_hash es
      → verify_chain sha256 log ≡ ok tt
  unfolding verify_chain
  accepts log es h c = rw h ((verify_entries_iff sha256 genesis_hash es).1 c)

  -- The same with the log that it leaves, where the last line is ended.
  pub append_entry-ended :
      (log : LogFile) (r : Json) (es : List ChainEntry)
      → read_all_entries log ≡ ok es
      → verify_chain sha256 log ≡ ok tt
      → (es ≢ []) ⊎ (lines_of log ≡ [])
      → EndsLine log
      → (e : ChainEntry) × (log' : LogFile) × (append_entry sha256 log r ≡ ok (e, log'))
        × (e.entry_record ≡ r)
        × (read_all_entries log' ≡ ok (es ++ e ∷ []))
        × (verify_chain sha256 log' ≡ ok tt)
        × EndsLine log'
  append_entry-ended log r es h v c ended =
      let (e, done, of_r, chained) = append_entry-Chained log r es h v c in
      let read = read_all_entries-with_line log e es h ended in
      (
        e,
        with_line log e,
        done,
        of_r,
        read,
        accepts (with_line log e) (es ++ e ∷ []) read chained,
        with_line-EndsLine log e,
      )

  -- Appending to an accepted log that holds an entry or no line at all returns an entry with the given
  -- record. If a line break ends the last line of the log, or that line is white space for the JSON
  -- parser, the new log reads as the old one with the entry at its end, and is accepted. If not, the
  -- entry stands on the last line with what was there, and the log can be neither read nor verified.
  pub append_entry-verify_chain :
      (log : LogFile) (r : Json) (es : List ChainEntry)
      → read_all_entries log ≡ ok es
      → verify_chain sha256 log ≡ ok tt
      → (es ≢ []) ⊎ (lines_of log ≡ [])
      → (e : ChainEntry) × (log' : LogFile) × (append_entry sha256 log r ≡ ok (e, log'))
        × (e.entry_record ≡ r)
        × (read_all_entries log' ≡ (if ends_line log then ok (es ++ e ∷ []) else err value_error))
        × (verify_chain sha256 log' ≡ (if ends_line log then ok tt else err value_error))
  append_entry-verify_chain log r es h v c = elim (ends_line-EndsLine log) [
    | inl (on, ended) ↦
        let (e, log', done, of_r, read, accepted, _) = append_entry-ended log r es h v c ended in
        (e, log', done, of_r, rw on read, rw on accepted)
    | inr (off, unended_line) ↦
        let (e, done, of_r, _) = append_entry-Chained log r es h v c in
        let read = read_all_entries-joined log e es h unended_line in
        (e, with_line log e, done, of_r, rw off read, rw off (unread (with_line log e) read))
  ]
