-- ===== src/Audit/Chain.antt =====
-- src/modelguard/audit/chain.py: a log file whose entries are linked by hashes. A file is the lines
-- that a line break ends, and what follows the last line break; `none` where there is no file.
pub mod Appending
pub mod Failing
pub mod Reading
pub mod Tampering
use modelguard.Base.{ℕ, zero, suc, ◌+◌, String, Option, none, some, List, [], ◌∷◌, ◌++◌, not, ◌==◌}
use modelguard.Base.{string_eq, if◌then◌else◌}
use modelguard.Base.Bytes.{Bytes, encode}
use modelguard.Base.Json.{Json, dumps}
use modelguard.Base.Result.{Result, ok, err, ◌>>=◌, ◌>>◌}
use modelguard.Exceptions.{Exception, chain_integrity, value_error}

pub record ChainEntry : Type 0 where
  pub index : ℕ
  pub entry_record : Json
  pub record_hash : String
  pub prev_hash : String

-- A line is blank, holds an entry, or is refused by the JSON parser or for a missing member.
pub data Line : Type 0 where
  blank garbled : Line
  written : ChainEntry → Line

-- What follows the last line break: nothing, white space that the JSON parser skips or refuses, text
-- that is no entry, or an entry that no line break ends.
pub data Rest : Type 0 where
  nothing skipped spaces cut_short : Rest
  unended : ChainEntry → Rest

abbrev pub LogFile : Type 0
LogFile = Option (List Line × Rest)

-- Reading goes over the text behind the last line break as over a line.
abbrev pub rest_lines : Rest → List Line
rest_lines nothing = []
rest_lines skipped = blank ∷ []
rest_lines spaces = blank ∷ []
rest_lines cut_short = garbled ∷ []
rest_lines (unended e) = written e ∷ []

abbrev pub lines_of : LogFile → List Line
lines_of none = []
lines_of (some (lines, rest)) = lines ++ rest_lines rest

abbrev pub genesis_hash : String
genesis_hash = "0000000000000000000000000000000000000000000000000000000000000000"

unfoldable pub record_bytes : Json → Bytes
unfolding dumps
record_bytes r = dumps r

-- The last line that is not blank.
unfoldable pub last_line : List Line → Option Line → Option Line
last_line [] last = last
last_line (blank ∷ lines) last = last_line lines last
last_line (line ∷ lines) last = last_line lines (some line)

abbrev entry_of : Option Line → Result Exception ChainEntry
entry_of none = err (chain_integrity 0 "log file exists but contains no entries")
entry_of (some (written e)) = ok e
entry_of (some _) = err value_error

unfoldable pub read_last_entry : List Line → Result Exception ChainEntry
unfolding last_line
read_last_entry lines = entry_of (last_line lines none)

unfoldable pub read_lines : List Line → Result Exception (List ChainEntry)
read_lines [] = ok []
read_lines (blank ∷ lines) = read_lines lines
read_lines (garbled ∷ lines) = err value_error
read_lines (written e ∷ lines) = do more ← read_lines lines; ok (e ∷ more)

unfoldable pub read_all_entries : LogFile → Result Exception (List ChainEntry)
unfolding read_lines
read_all_entries log = read_lines (lines_of log)

-- The index and the hash that the next entry takes up; a file of no size counts as none.
unfoldable pub link_behind : List Line → Result Exception (ℕ × String)
unfolding read_last_entry
link_behind [] = ok (0, genesis_hash)
link_behind (line ∷ lines) = do
  last ← read_last_entry (line ∷ lines)
  ok (last.index + 1, last.record_hash)

-- The line that an entry becomes behind the text that no line break ended.
unfoldable pub joined_line : Rest → ChainEntry → Line
joined_line nothing e = written e
joined_line skipped e = written e
joined_line _ e = garbled

-- The file once an entry and its line break are written to its end.
unfoldable pub with_line : LogFile → ChainEntry → LogFile
unfolding joined_line
with_line none e = some (written e ∷ [], nothing)
with_line (some (lines, rest)) e = some (lines ++ joined_line rest e ∷ [], nothing)

-- How far a write came that failed: the file was not opened, it was opened, a part of the entry was
-- written, all of it but the line break, or all of it.
pub data Extent : Type 0 where
  unopened opened part whole_entry whole_line : Extent

-- What `open`, `write` and `close` do.
pub data Disk : Type 0 where
  completes : Disk
  fails : Exception → Extent → Disk

abbrev pub created : LogFile → List Line × Rest
created none = ([], nothing)
created (some contents) = contents

unfoldable pub joined_rest : Rest → ChainEntry → Rest
joined_rest nothing e = unended e
joined_rest skipped e = unended e
joined_rest _ e = cut_short

-- The file that a failed write leaves.
unfoldable pub left_behind : Extent → LogFile → ChainEntry → LogFile
unfolding with_line joined_rest
left_behind unopened log e = log
left_behind opened log e = some (created log)
left_behind part log e = some ((created log).0, cut_short)
left_behind whole_entry log e = some ((created log).0, joined_rest (created log).1 e)
left_behind whole_line log e = with_line log e

unfoldable pub settled :
    Disk → LogFile → Result Exception (ChainEntry × LogFile) → Result Exception ChainEntry × LogFile
unfolding left_behind
settled disk log (err e) = (err e, log)
settled completes log (ok (entry, after)) = (ok entry, after)
settled (fails e extent) log (ok (entry, after)) = (err e, left_behind extent log entry)

module _ (sha256 : Bytes → String) where
  -- `hashlib.sha256(_record_bytes(record) + prev_hash.encode("utf-8")).hexdigest()`
  unfoldable pub link_hash : Json → String → String
  link_hash r prev_hash = sha256 (record_bytes r ++ encode prev_hash)

  -- The entry that is written behind `prev_hash` at `index`.
  unfoldable pub linked_entry : ℕ → String → Json → ChainEntry
  linked_entry index prev_hash r = record {
    index = index;
    entry_record = r;
    record_hash = link_hash r prev_hash;
    prev_hash = prev_hash;
  }

  -- The entry that is returned, and the file with its line at the end, where the write completes.
  unfoldable pub append_entry : LogFile → Json → Result Exception (ChainEntry × LogFile)
  append_entry log r = do
    link ← link_behind (lines_of log)
    let entry = linked_entry link.0 link.1 r
    ok (entry, with_line log entry)

  -- The same with the writes that fail: what is returned or raised, and the file that is left.
  unfoldable pub append_on : Disk → LogFile → Json → Result Exception ChainEntry × LogFile
  unfolding append_entry settled
  append_on disk log r = settled disk log (append_entry log r)

  -- The loop of `verify_chain`.
  unfoldable pub verify_entries : String → List ChainEntry → Result Exception (Unit {0})
  verify_entries expected_prev [] = ok tt
  verify_entries expected_prev (entry ∷ entries) =
      let rest = verify_entries entry.record_hash entries in
      if not (entry.prev_hash == expected_prev)
      then err
          (chain_integrity entry.index "prev_hash does not match the preceding entry's record_hash")
      else if not (link_hash entry.entry_record entry.prev_hash == entry.record_hash)
      then err (chain_integrity entry.index "record_hash does not match record contents")
      else rest

  unfoldable pub verify_chain : LogFile → Result Exception (Unit {0})
  verify_chain log = do entries ← read_all_entries log; verify_entries genesis_hash entries
