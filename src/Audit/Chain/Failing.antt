-- ===== src/Audit/Chain/Failing.antt =====
-- What a write that fails, before or after a part of the entry, leaves of a log (`append_entry` in
-- src/modelguard/audit/chain.py).
use modelguard.Base.{◌≡◌, ◌≢◌, refl, ◌∙◌, String, ◌⊎◌, none, some, List, [], ◌∷◌, ◌++◌}
use modelguard.Base.Bytes.{Bytes}
use modelguard.Base.Json.{Json}
use modelguard.Base.Result.{Result, ok, err, ◌>>=◌, ok-injective}
use modelguard.Exceptions.{Exception, value_error}
use modelguard.Audit.Chain.{
  ChainEntry, blank, written, nothing, skipped, spaces, cut_short, unended, LogFile, genesis_hash,
  read_lines, read_all_entries, lines_of, rest_lines, created, Disk, completes, fails, unopened,
  opened, part, whole_entry, whole_line, left_behind, with_line, joined_rest, settled, append_on,
  verify_chain,
}
use modelguard.Audit.Chain.Tampering.{Chained, Chained-append}
use modelguard.Audit.Chain.Appending.{append_entry-Chained, accepts}
use modelguard.Audit.Chain.Reading.{
  EndsLine, read_lines-append, read_lines-first, read_lines-garbled, read_lines-empty,
  read_all_entries-with_line,
}

-- What is read after a write that completed or failed.
abbrev pub read_after : Disk → List ChainEntry → ChainEntry → Result Exception (List ChainEntry)
read_after completes es e = ok (es ++ e ∷ [])
read_after (fails x unopened) es e = ok es
read_after (fails x opened) es e = ok es
read_after (fails x part) es e = err value_error
read_after (fails x whole_entry) es e = ok (es ++ e ∷ [])
read_after (fails x whole_line) es e = ok (es ++ e ∷ [])

read_all_entries-created :
    (log : LogFile) → read_all_entries (some (created log)) ≡ read_all_entries log
unfolding read_all_entries
read_all_entries-created none = refl
read_all_entries-created (some (lines, rest)) = refl

read_all_entries-part :
    (log : LogFile) (e : ChainEntry) (es : List ChainEntry)
    → read_all_entries log ≡ ok es
    → read_all_entries (left_behind part log e) ≡ err value_error
unfolding read_all_entries left_behind
read_all_entries-part none e es h = unfold read_lines in refl
read_all_entries-part (some (lines, rest)) e es h =
    let (before, _, at_before, _, _) = read_lines-first lines (rest_lines rest) es h in
    read_lines-garbled lines before at_before

read_all_entries-whole :
    (log : LogFile) (e : ChainEntry) (es : List ChainEntry)
    → read_all_entries log ≡ ok es
    → EndsLine log
    → read_all_entries (left_behind whole_entry log e) ≡ ok (es ++ e ∷ [])
unfolding read_all_entries left_behind joined_rest
read_all_entries-whole none e es h c = unfold read_lines in rw (← ok-injective h) refl
read_all_entries-whole (some (lines, nothing)) e es h c =
    read_lines-append lines (written e ∷ [])
      (read_lines-empty lines [] es (unfold read_lines in refl) h) (unfold read_lines in refl)
read_all_entries-whole (some (lines, skipped)) e es h c =
    read_lines-append lines (written e ∷ [])
      (read_lines-empty lines (blank ∷ []) es (unfold read_lines in refl) h)
      (unfold read_lines in refl)
read_all_entries-whole (some (lines, spaces)) e es h c = absurd c
read_all_entries-whole (some (lines, cut_short)) e es h c = absurd c
read_all_entries-whole (some (lines, unended f)) e es h c = absurd c

module _ (sha256 : Bytes → String) where
  settled-read_after :
      (disk : Disk) (log : LogFile) (e : ChainEntry) (es : List ChainEntry)
      → read_all_entries log ≡ ok es
      → EndsLine log
      → read_all_entries (settled disk log (ok (e, with_line log e))).1 ≡ read_after disk es e
  unfolding settled
  settled-read_after completes log e es h c = read_all_entries-with_line log e es h c
  settled-read_after (fails x unopened) log e es h c = unfold left_behind in h
  settled-read_after (fails x opened) log e es h c =
      unfold left_behind in read_all_entries-created log ∙ h
  settled-read_after (fails x part) log e es h c = read_all_entries-part log e es h
  settled-read_after (fails x whole_entry) log e es h c = read_all_entries-whole log e es h c
  settled-read_after (fails x whole_line) log e es h c =
      unfold left_behind in read_all_entries-with_line log e es h c

  -- What is read of such a log is accepted.
  verify_chain-read_after :
      (disk : Disk) (after : LogFile) (e : ChainEntry) (es : List ChainEntry)
      → read_all_entries after ≡ read_after disk es e
      → Chained sha256 genesis_hash (es ++ e ∷ [])
      → verify_chain sha256 after ≡ (read_after disk es e >>= λ _. ok tt)
  verify_chain-read_after completes after e es h c = accepts sha256 after (es ++ e ∷ []) h c
  verify_chain-read_after (fails x unopened) after e es h c =
      accepts sha256 after es h ((Chained-append sha256 genesis_hash es (e ∷ [])).0 c).0
  verify_chain-read_after (fails x opened) after e es h c =
      accepts sha256 after es h ((Chained-append sha256 genesis_hash es (e ∷ [])).0 c).0
  verify_chain-read_after (fails x part) after e es h c = unfold verify_chain in rw h refl
  verify_chain-read_after (fails x whole_entry) after e es h c =
      accepts sha256 after (es ++ e ∷ []) h c
  verify_chain-read_after (fails x whole_line) after e es h c =
      accepts sha256 after (es ++ e ∷ []) h c

  -- Whatever a write to an accepted log does, what it leaves reads as `read_after` tells: with the new
  -- entry, without it, or, where a part of the entry was written, not at all. What can be read is
  -- accepted.
  pub append_on-read_after :
      (disk : Disk) (log : LogFile) (r : Json) (es : List ChainEntry)
      → read_all_entries log ≡ ok es
      → verify_chain sha256 log ≡ ok tt
      → (es ≢ []) ⊎ (lines_of log ≡ [])
      → EndsLine log
      → (e : ChainEntry) × (e.entry_record ≡ r)
        × (read_all_entries (append_on sha256 disk log r).1 ≡ read_after disk es e)
        × (verify_chain sha256 (append_on sha256 disk log r).1
            ≡ (read_after disk es e >>= λ _. ok tt))
  unfolding append_on
  append_on-read_after disk log r es h v c ended =
      let (e, done, of_r, chained) = append_entry-Chained sha256 log r es h v c in
      let read = settled-read_after disk log e es h ended in
      (e, of_r, rw done read, rw done (verify_chain-read_after disk _ e es read chained))
