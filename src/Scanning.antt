-- ===== src/Scanning.antt =====
-- src/modelguard/scanning/models.py and runner.py: findings, reports, and the run of the scanners.
-- A scanner is its name and what its `scan` does to an artifact, a manifest and an ML-BOM.
pub mod Completeness
use modelguard.Base.{
  ℕ, zero, suc, String, ◌<>◌, Bool, true, false, ◌&&◌, Option, none, some, List, [], ◌∷◌, ◌++◌,
}
use modelguard.Base.{all, select, length, is_empty, ◌==◌, nat_eq, string_eq, if◌then◌else◌}
use modelguard.Base.Dict
use modelguard.Base.Dict.{Dict}
use modelguard.Base.Result.{Result, ok, err, ◌>>=◌}
use modelguard.Exceptions.{Exception}
use modelguard.Hashing.{ArtifactDigest}
use modelguard.Manifest.{Manifest}
use modelguard.Mbom.{MlBom}

pub data Severity : Type 0 where
  info low medium high critical : Severity

pub data Confidence : Type 0 where
  low medium high : Confidence

-- `_SEVERITY_RANK`
unfoldable pub rank : Severity → ℕ
rank Severity.info = 0
rank Severity.low = 1
rank Severity.medium = 2
rank Severity.high = 3
rank Severity.critical = 4

pub record Finding : Type 0 where
  pub scanner : String
  pub category : String
  pub severity : Severity
  pub confidence : Confidence
  pub component : String
  pub message : String
  pub remediation : Option String
  pub evidence : Option String

pub record ScanReport : Type 0 where
  pub artifact_digest : String
  pub scanner_statuses : Dict String String
  pub scanner_errors : Dict String Exception
  pub findings : List Finding

pub record Scanner : Type 0 where
  pub name : String
  pub scan : Option Manifest → Option MlBom → Result Exception (List Finding)

unfoldable pub all_scanners_ok : ScanReport → Bool
all_scanners_ok report = all (λ status. status == "ok") (Dict.values report.scanner_statuses)

unfoldable pub clean : ScanReport → Bool
unfolding all_scanners_ok
clean report = all_scanners_ok report && is_empty report.findings

same_severity : Severity → Severity → Bool
same_severity s t = rank s == rank t

unfoldable pub count : ScanReport → Severity → ℕ
unfolding same_severity
count report severity = length (select (λ f. same_severity f.severity severity) report.findings)

-- The `try` statement in the loop of `run_scanners`, by what a scanner of the name did.
unfoldable pub note_outcome : ScanReport → String → Result Exception (List Finding) → ScanReport
unfolding Dict.set
note_outcome report name (ok found) = record report {
  findings = report.findings ++ found;
  scanner_statuses = Dict.set report.scanner_statuses name "ok";
}
note_outcome report name (err e) = record report {
  scanner_statuses = Dict.set report.scanner_statuses name "error";
  scanner_errors = Dict.set report.scanner_errors name e;
}

unfoldable pub run_scanner : Option Manifest → Option MlBom → ScanReport → Scanner → ScanReport
unfolding note_outcome
run_scanner manifest mbom report scanner =
    note_outcome report scanner.name (scanner.scan manifest mbom)

unfoldable pub run_all : Option Manifest → Option MlBom → List Scanner → ScanReport → ScanReport
run_all manifest mbom [] report = report
run_all manifest mbom (scanner ∷ scanners) report =
    run_all manifest mbom scanners (run_scanner manifest mbom report scanner)

-- The digest that a report is bound to: the given one, or else that of the artifact.
unfoldable pub report_digest :
    Option String → Result Exception ArtifactDigest → Result Exception String
report_digest (some artifact_digest) hashed = ok artifact_digest
report_digest none hashed = do digest ← hashed; ok (digest.algorithm <> ":" <> digest.digest)

-- `run_scanners`, with what `hash_artifact` does at the artifact's path.
unfoldable pub run_scanners :
    Result Exception ArtifactDigest
    → Option Manifest
    → Option MlBom
    → List Scanner
    → Option String
    → Result Exception ScanReport
unfolding report_digest run_all run_scanner
run_scanners hashed manifest mbom active artifact_digest = do
  bound ← report_digest artifact_digest hashed
  ok (
      run_all manifest mbom active (record {
        artifact_digest = bound;
        scanner_statuses = [];
        scanner_errors = [];
        findings = [];
      }))
