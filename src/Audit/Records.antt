-- ===== src/Audit/Records.antt =====
-- Records of a hash-chained log read as events, `[from_record(e.record) for e in entries]`, as
-- src/modelguard/audit/log.py and src/modelguard/provenance/store.py do.
use mathlib.Core.Logic.{⊎_elim}
use modelguard.Base.{◌≡◌, ◌≢◌, ◌⊎◌, inl, inr, sym, String, List, [], ◌∷◌, ◌++◌}
use modelguard.Base.Bytes.{Bytes}
use modelguard.Base.Json.{Json}
use modelguard.Base.Result.{Result, ok, ◌>>=◌, bind_elim, ok-injective}
use modelguard.Exceptions.{Exception}
use modelguard.Audit.Chain.{
  ChainEntry, LogFile, append_entry, lines_of, read_all_entries, verify_chain,
}
use modelguard.Audit.Chain.Appending.{append_entry-ended}
use modelguard.Audit.Chain.Reading.{EndsLine}

module _ {E : Type 0} (from_record : Json → Result Exception E) where
  unfoldable pub events_of : List ChainEntry → Result Exception (List E)
  events_of [] = ok []
  events_of (entry ∷ entries) = do
    event ← from_record entry.entry_record
    more ← events_of entries
    ok (event ∷ more)

  unfoldable pub read_events : LogFile → Result Exception (List E)
  unfolding events_of
  read_events log = do entries ← read_all_entries log; events_of entries

  pub events_of-append :
      (es : List ChainEntry) (e : ChainEntry) (xs : List E) (x : E)
      → events_of es ≡ ok xs
      → from_record e.entry_record ≡ ok x
      → events_of (es ++ e ∷ []) ≡ ok (xs ++ x ∷ [])
  unfolding events_of
  events_of-append [] e xs x h at_e = rw (at_e, ← ok-injective h)
  events_of-append (d ∷ es) e xs x h at_e = bind_elim (from_record d.entry_record) _ h λ y at_y h1.
      bind_elim (events_of es) _ h1
        λ ys at_ys h2. rw (at_y, events_of-append es e ys x at_ys at_e, ← ok-injective h2)

  entries-not-empty :
      (es : List ChainEntry) (xs : List E) → events_of es ≡ ok xs → xs ≢ [] → es ≢ []
  unfolding events_of
  entries-not-empty [] xs h n = λ e. n (sym (ok-injective h))
  entries-not-empty (d ∷ es) xs h n = λ e. cc

  -- An event appended to an accepted log, whose last line is ended, is read back behind the events that were in it.
  pub append_entry-read_events :
      (sha256 : Bytes → String) (log : LogFile) (record_of : Json) (x : E) (xs : List E)
      → from_record record_of ≡ ok x
      → read_events log ≡ ok xs
      → verify_chain sha256 log ≡ ok tt
      → (xs ≢ []) ⊎ (lines_of log ≡ [])
      → EndsLine log
      → (e : ChainEntry) × (log' : LogFile) × (append_entry sha256 log record_of ≡ ok (e, log'))
        × (read_events log' ≡ ok (xs ++ x ∷ []))
        × (verify_chain sha256 log' ≡ ok tt)
        × EndsLine log'
  unfolding read_events events_of
  append_entry-read_events sha256 log record_of x xs decodes h v c ended =
      bind_elim (read_all_entries log) _ h λ es at_es h1.
        let (e, log', appended, same, now, still, end) =
          append_entry-ended sha256 log record_of es at_es v
            (⊎_elim (λ n. inl (entries-not-empty es xs h1 n)) (λ e. inr e) c) ended in
        (e, log', appended, rw (now) (events_of-append es e xs x h1 (rw same decodes)), still, end)
