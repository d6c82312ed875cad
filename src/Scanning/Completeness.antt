-- ===== src/Scanning/Completeness.antt =====
-- What a report of `run_scanners` (src/modelguard/scanning/runner.py) holds of each scanner.
use modelguard.Base.{String, ◌≡◌, refl, sym, ap, ◌∙◌, Option, none, some, List, [], ◌∷◌, ◌++◌}
use modelguard.Base.{◌==◌, string_eq, if◌then◌else◌}
use modelguard.Base.Dict
use modelguard.Base.Dict.{get-set}
use modelguard.Base.Result.{Result, ok, err, bind_elim, ok-injective}
use modelguard.Exceptions.{Exception}
use modelguard.Hashing.{ArtifactDigest}
use modelguard.Manifest.{Manifest}
use modelguard.Mbom.{MlBom}
use modelguard.Scanning.{
  Finding, ScanReport, Scanner, note_outcome, run_scanner, run_all, run_scanners, report_digest,
}

-- What a scanner contributes: its findings and `ok`, or nothing and `error`.
abbrev pub found : Result Exception (List Finding) → List Finding
found (ok findings) = findings
found (err e) = []

abbrev pub status : Result Exception (List Finding) → String
status (ok findings) = "ok"
status (err e) = "error"

append_nil : (xs : List Finding) → xs ++ [] ≡ xs
append_nil [] = refl
append_nil (x ∷ xs) = ap (λ ys. x ∷ ys) (append_nil xs)

append_assoc : (xs ys zs : List Finding) → (xs ++ ys) ++ zs ≡ xs ++ (ys ++ zs)
append_assoc [] ys zs = refl
append_assoc (x ∷ xs) ys zs = ap (λ ws. x ∷ ws) (append_assoc xs ys zs)

note_outcome-findings :
    (report : ScanReport) (name : String) (r : Result Exception (List Finding))
    → (note_outcome report name r).findings ≡ report.findings ++ found r
unfolding note_outcome
note_outcome-findings report name (ok found) = refl
note_outcome-findings report name (err e) = sym (append_nil report.findings)

note_outcome-status :
    (report : ScanReport) (name other : String) (r : Result Exception (List Finding))
    → Dict.get (note_outcome report name r).scanner_statuses other
      ≡ (if other == name then some (status r) else Dict.get report.scanner_statuses other)
unfolding note_outcome
note_outcome-status report name other (ok found) = get-set report.scanner_statuses name other "ok"
note_outcome-status report name other (err e) = get-set report.scanner_statuses name other "error"

module _ (manifest : Option Manifest) (mbom : Option MlBom) where
  abbrev pub all_found : List Scanner → List Finding
  all_found [] = []
  all_found (s ∷ ss) = found (s.scan manifest mbom) ++ all_found ss

  -- The status of the last scanner of a name, or the one given.
  abbrev pub last_status : Option String → List Scanner → String → Option String
  last_status before [] name = before
  last_status before (s ∷ ss) name =
      last_status (if name == s.name then some (status (s.scan manifest mbom)) else before) ss name

  run_all-findings :
      (scanners : List Scanner) (report : ScanReport)
      → (run_all manifest mbom scanners report).findings ≡ report.findings ++ all_found scanners
  unfolding run_all run_scanner
  run_all-findings [] report = sym (append_nil report.findings)
  run_all-findings (s ∷ ss) report =
      run_all-findings ss (run_scanner manifest mbom report s)
      ∙ ap (λ fs. fs ++ all_found ss) (note_outcome-findings report s.name (s.scan manifest mbom))
      ∙ append_assoc report.findings (found (s.scan manifest mbom)) (all_found ss)

  run_all-statuses :
      (scanners : List Scanner) (report : ScanReport) (name : String)
      → Dict.get (run_all manifest mbom scanners report).scanner_statuses name
        ≡ last_status (Dict.get report.scanner_statuses name) scanners name
  unfolding run_all run_scanner
  run_all-statuses [] report name = refl
  run_all-statuses (s ∷ ss) report name =
      run_all-statuses ss (run_scanner manifest mbom report s) name
      ∙ ap (λ before. last_status before ss name)
          (note_outcome-status report s.name name (s.scan manifest mbom))

  -- A report holds the findings of every scanner that returned, in their order, whichever others
  -- raised; and under each name the status of the last scanner of that name, or nothing.
  pub run_scanners-report :
      (hashed : Result Exception ArtifactDigest) (scanners : List Scanner) (given : Option String)
      (report : ScanReport)
      → run_scanners hashed manifest mbom scanners given ≡ ok report
      → (report.findings ≡ all_found scanners)
        × ((name : String) → Dict.get report.scanner_statuses name ≡ last_status none scanners name)
  unfolding run_scanners Dict.get
  run_scanners-report hashed scanners given report h =
      bind_elim (report_digest given hashed) _ h λ digest _ h1.
        let empty : ScanReport = record {
          artifact_digest = digest;
          scanner_statuses = [];
          scanner_errors = [];
          findings = [];
        } in
        let same : run_all manifest mbom scanners empty ≡ report = ok-injective h1 in
        (
          ap ScanReport.findings (sym same) ∙ run_all-findings scanners empty,
          λ name.
              ap (λ (r : ScanReport). Dict.get r.scanner_statuses name) (sym same)
              ∙ run_all-statuses scanners empty name,
        )
