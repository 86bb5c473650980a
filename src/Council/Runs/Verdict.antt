-- ===== src/Council/Runs/Verdict.antt =====
-- Which runs are marked for review.
use shared_compute.Common.{
  ℕ, ◌≡◌, refl, ◌∙◌, String, Bool, true, false, ◌&&◌, ◌||◌, List, [], ◌∷◌, ◌++◌, str_eq,
  if◌then◌else◌, Bool-cases, inl, inr, arith,
}
use shared_compute.Common.Int64.{div64, lt64, le64}
use shared_compute.Council.{high, critical}
use shared_compute.Council.Runs.{
  RunStats, Finding, Formats, clean, needs_review, finding_if, verdict_of, total, failed_severity,
  failed_finding, single_finding, slow_finding, charge_finding, findings, review_of,
}

abbrev is_severe : Finding → Bool
is_severe f = str_eq f.severity high || str_eq f.severity critical

verdict_of-finding_if :
    (test : Bool) (f : Finding) (v : String)
    → verdict_of (finding_if test f) v ≡ (if test && is_severe f then needs_review else v)
unfolding verdict_of
verdict_of-finding_if true f v = refl
verdict_of-finding_if false f v = refl

verdict_of-append :
    (xs ys : List Finding) (v : String) → verdict_of (xs ++ ys) v ≡ verdict_of ys (verdict_of xs v)
unfolding verdict_of
verdict_of-append [] ys v = refl
verdict_of-append (x ∷ xs) ys v = verdict_of-append xs ys (if is_severe x then needs_review else v)

-- A finding that is not severe keeps the verdict.
verdict_of-mild :
    (test : Bool) (f : Finding) (v : String)
    → is_severe f ≡ false
    → verdict_of (finding_if test f) v ≡ v
verdict_of-mild test f v h = verdict_of-finding_if test f v ∙ rw h (ground arith)

module _ {Float : Type 0} (formats : Formats Float) (s : RunStats Float) (v : String) where
  verdict_of-failed_finding : verdict_of (failed_finding formats s) v ≡ (
      if lt64 0 s.failed
        && (lt64 0 (total formats s) && formats.over_tenth s.failed (total formats s))
      then needs_review
      else v)
  unfolding failed_finding failed_severity
  verdict_of-failed_finding =
      elim (Bool-cases
        (lt64 0 (total formats s) && formats.over_tenth s.failed (total formats s))) [
          | inl e ↦ rw e (verdict_of-finding_if (lt64 0 s.failed) _ v)
          | inr e ↦ rw e (verdict_of-finding_if (lt64 0 s.failed) _ v)
        ]

  verdict_of-single_finding : verdict_of (single_finding formats s) v ≡ v
  unfolding single_finding
  verdict_of-single_finding = verdict_of-mild (le64 s.fanout 1 && lt64 4 s.ok) _ v refl

  verdict_of-slow_finding : verdict_of (slow_finding formats s) v ≡ v
  unfolding slow_finding
  verdict_of-slow_finding =
      verdict_of-mild (lt64 0 (total formats s) && lt64 4000 (div64 s.wall_ms (total formats s))) _
        v refl

  verdict_of-charge_finding : verdict_of (charge_finding formats s) v ≡ v
  unfolding charge_finding
  verdict_of-charge_finding =
      verdict_of-mild (formats.overcharged s.charged_usd s.quoted_usd) _ v refl

-- An executed workload is marked for review exactly when items failed that are more than a tenth of its
-- total; a slow run, one on a single provider, and a charge above the quote leave it clean.
pub verdict-review_of :
    {Float : Type 0} (formats : Formats Float) (now : ℕ) (s : RunStats Float)
    → (review_of formats now s).verdict ≡ (
        if lt64 0 s.failed
          && (lt64 0 (total formats s) && formats.over_tenth s.failed (total formats s))
        then needs_review
        else clean)
unfolding review_of findings
verdict-review_of formats now s =
    rw
      (
        verdict_of-append, verdict_of-append, verdict_of-append, verdict_of-charge_finding,
        verdict_of-slow_finding, verdict_of-single_finding,
      )
      (verdict_of-failed_finding formats s clean)
