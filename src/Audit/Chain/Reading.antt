-- ===== src/Audit/Chain/Reading.antt =====
-- What is read of the lines of a log (src/modelguard/audit/chain.py) when lines or an entry are put
-- behind them.
use mathlib.Core.List.{append-nil}
use modelguard.Base.{
  Bool, true, false, ◌≡◌, refl, sym, ap, ◌∙◌, ◌⊎◌, inl, inr, List, [], ◌∷◌, ◌++◌, none, some,
}
use modelguard.Base.Result.{ok, err, bind_elim, ok-injective}
use modelguard.Exceptions.{value_error}
use modelguard.Audit.Chain.{
  ChainEntry, Line, blank, garbled, written, nothing, skipped, spaces, cut_short, unended, LogFile,
  read_lines, read_all_entries, with_line,
}

pub read_lines-append :
    (lines more : List Line) {es fs : List ChainEntry}
    → read_lines lines ≡ ok es
    → read_lines more ≡ ok fs
    → read_lines (lines ++ more) ≡ ok (es ++ fs)
unfolding read_lines
read_lines-append [] more h k = rw (← ok-injective h) k
read_lines-append (blank ∷ lines) more h k = read_lines-append lines more h k
read_lines-append (garbled ∷ lines) more h k = cc
read_lines-append (written f ∷ lines) more h k =
    bind_elim _ _ h λ es r m. rw (read_lines-append lines more r k, ← ok-injective m)

-- The lines in front of others that are read are read.
pub read_lines-first :
    (lines more : List Line) (es : List ChainEntry)
    → read_lines (lines ++ more) ≡ ok es
    → (before : List ChainEntry) × (after : List ChainEntry) × (read_lines lines ≡ ok before)
      × (read_lines more ≡ ok after)
      × (before ++ after ≡ es)
unfolding read_lines
read_lines-first [] more es h = ([], es, refl, h, refl)
read_lines-first (blank ∷ lines) more es h = read_lines-first lines more es h
read_lines-first (garbled ∷ lines) more es h = absurd (cc h)
read_lines-first (written f ∷ lines) more es h = bind_elim _ _ h λ fs r m.
    let (before, after, at_before, at_after, whole) = read_lines-first lines more fs r in
    (f ∷ before, after, rw at_before, at_after, ap (λ es. f ∷ es) whole ∙ ok-injective m)

pub read_lines-garbled :
    (lines : List Line) (es : List ChainEntry)
    → read_lines lines ≡ ok es
    → read_lines (lines ++ garbled ∷ []) ≡ err value_error
unfolding read_lines
read_lines-garbled [] es h = refl
read_lines-garbled (blank ∷ lines) es h = read_lines-garbled lines es h
read_lines-garbled (garbled ∷ lines) es h = absurd (cc h)
read_lines-garbled (written f ∷ lines) es h =
    bind_elim _ _ h λ fs r m. rw (read_lines-garbled lines fs r)

garbled_behind :
    (lines more : List Line) (es : List ChainEntry)
    → read_lines (lines ++ more) ≡ ok es
    → read_lines ((lines ++ garbled ∷ []) ++ []) ≡ err value_error
garbled_behind lines more es h =
    let (before, _, at_before, _, _) = read_lines-first lines more es h in
    rw (append-nil (lines ++ garbled ∷ [])) (read_lines-garbled lines before at_before)

-- What is written to the end of the file starts a line of its own.
abbrev pub EndsLine : LogFile → Type 0
EndsLine none = Unit
EndsLine (some (lines, nothing)) = Unit
EndsLine (some (lines, skipped)) = Unit
EndsLine (some (lines, _)) = ⊥

abbrev pub ends_line : LogFile → Bool
ends_line none = true
ends_line (some (lines, nothing)) = true
ends_line (some (lines, skipped)) = true
ends_line (some (lines, _)) = false

pub ends_line-EndsLine :
    (log : LogFile)
    → ((ends_line log ≡ true) × EndsLine log) ⊎ ((ends_line log ≡ false) × ¬ EndsLine log)
ends_line-EndsLine none = inl (refl, tt)
ends_line-EndsLine (some (lines, nothing)) = inl (refl, tt)
ends_line-EndsLine (some (lines, skipped)) = inl (refl, tt)
ends_line-EndsLine (some (lines, spaces)) = inr (refl, λ h. h)
ends_line-EndsLine (some (lines, cut_short)) = inr (refl, λ h. h)
ends_line-EndsLine (some (lines, unended e)) = inr (refl, λ h. h)

-- White space at the end of a file holds no entry.
pub read_lines-empty :
    (lines more : List Line) (es : List ChainEntry)
    → read_lines more ≡ ok []
    → read_lines (lines ++ more) ≡ ok es
    → read_lines lines ≡ ok es
read_lines-empty lines more es none_in h =
    let (before, after, at_before, at_after, whole) = read_lines-first lines more es h in
    let nothing_after : after ≡ [] = ok-injective (sym at_after ∙ none_in) in
    at_before
    ∙ ap (λ es. ok es) (sym (append-nil before) ∙ ap (λ t. before ++ t) (sym nothing_after) ∙ whole)

pub with_line-EndsLine : (log : LogFile) (e : ChainEntry) → EndsLine (with_line log e)
unfolding with_line
with_line-EndsLine none e = tt
with_line-EndsLine (some (lines, rest)) e = tt

pub read_all_entries-with_line :
    (log : LogFile) (e : ChainEntry) (es : List ChainEntry)
    → read_all_entries log ≡ ok es
    → EndsLine log
    → read_all_entries (with_line log e) ≡ ok (es ++ e ∷ [])
unfolding read_all_entries with_line
read_all_entries-with_line none e es h c = unfold read_lines in rw (← ok-injective h) refl
read_all_entries-with_line (some (lines, nothing)) e es h c =
    rw (append-nil (lines ++ written e ∷ [])) (
      read_lines-append lines (written e ∷ [])
        (read_lines-empty lines [] es (unfold read_lines in refl) h) (unfold read_lines in refl))
read_all_entries-with_line (some (lines, skipped)) e es h c =
    rw (append-nil (lines ++ written e ∷ [])) (
      read_lines-append lines (written e ∷ [])
        (read_lines-empty lines (blank ∷ []) es (unfold read_lines in refl) h)
        (unfold read_lines in refl))
read_all_entries-with_line (some (lines, spaces)) e es h c = absurd c
read_all_entries-with_line (some (lines, cut_short)) e es h c = absurd c
read_all_entries-with_line (some (lines, unended f)) e es h c = absurd c

pub read_all_entries-joined :
    (log : LogFile) (e : ChainEntry) (es : List ChainEntry)
    → read_all_entries log ≡ ok es
    → ¬ EndsLine log
    → read_all_entries (with_line log e) ≡ err value_error
unfolding read_all_entries with_line
read_all_entries-joined none e es h c = absurd (c tt)
read_all_entries-joined (some (lines, nothing)) e es h c = absurd (c tt)
read_all_entries-joined (some (lines, skipped)) e es h c = absurd (c tt)
read_all_entries-joined (some (lines, spaces)) e es h c = garbled_behind lines _ es h
read_all_entries-joined (some (lines, cut_short)) e es h c = garbled_behind lines _ es h
read_all_entries-joined (some (lines, unended f)) e es h c = garbled_behind lines _ es h
