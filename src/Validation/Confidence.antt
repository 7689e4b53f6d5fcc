-- ===== src/Validation/Confidence.antt =====
-- The warnings of validation-engine.ts about fields that were extracted with low confidence.
pub mod Laws
use Prim.Native.String.{◌++◌ as str_append}
use tea_tax_product.Prelude.{
  ℕ, zero, suc, ◌+◌, ◌*◌, ◌/◌, ◌%◌, String, Bool, true, false, Option, none, some, List, [], ◌∷◌,
  ◌++◌, if◌then◌else◌, ltb,
}
use tea_tax_product.Prelude.Int.{ℤ, pos, negsuc, ltb_ℤ}
use tea_tax_product.Prelude.Number.{Number}
use tea_tax_product.TaxSituation.{TaxSituation, ValidationIssue}
use tea_tax_product.TaxSituation.Unions.{warning}

unfoldable pub digit : ℕ → String
digit zero = "0"
digit (suc zero) = "1"
digit (suc (suc zero)) = "2"
digit (suc (suc (suc zero))) = "3"
digit (suc (suc (suc (suc zero)))) = "4"
digit (suc (suc (suc (suc (suc zero))))) = "5"
digit (suc (suc (suc (suc (suc (suc zero)))))) = "6"
digit (suc (suc (suc (suc (suc (suc (suc zero))))))) = "7"
digit (suc (suc (suc (suc (suc (suc (suc (suc zero)))))))) = "8"
digit _ = "9"

-- The decimal digits of n, with fuel; n itself is enough of it.
unfoldable pub decimal_from : ℕ → ℕ → String
unfolding digit
decimal_from zero n = digit n
decimal_from (suc fuel) n =
    let more = str_append (decimal_from fuel (n / 10)) (digit (n % 10)) in
    if ltb n 10 then digit n else more

unfoldable pub decimal : ℕ → String
unfolding decimal_from
decimal n = decimal_from n n

-- n / 65536 with two decimals, the exact half rounded up, as `toFixed(2)` does from the exact value
unfoldable pub hundredths : ℕ → ℕ
hundredths n = (n * 100 + 32768) / 65536

unfoldable pub show_hundredths : ℕ → String
unfolding decimal digit
show_hundredths h =
    str_append (decimal (h / 100))
      (str_append "." (str_append (digit (h / 10 % 10)) (digit (h % 10))))

-- score.toFixed(2): the sign goes in front of the text for the absolute value
unfoldable pub to_fixed_2 : Number → String
unfolding show_hundredths hundredths
to_fixed_2 (pos n) = show_hundredths (hundredths n)
to_fixed_2 (negsuc n) = str_append "-" (show_hundredths (hundredths (suc n)))

-- score < 0.5
unfoldable pub is_below_half : Number → Bool
is_below_half score = ltb_ℤ score (pos 32768)

-- score < 0.4: 0.4 lies between 26214 / 65536 and 26215 / 65536
unfoldable pub is_below_two_fifths : Number → Bool
is_below_two_fifths score = ltb_ℤ score (pos 26215)

unfoldable pub overall_warning : Number → ValidationIssue
unfolding to_fixed_2
overall_warning overall = record {
  code = "LOW_OVERALL_CONFIDENCE";
  severity = warning;
  field = "confidenceScores.overall";
  message =
      str_append "Overall confidence score is "
        (str_append (to_fixed_2 overall) " — results may be unreliable.");
  suggested_action =
      some
        "Review extracted data for accuracy. Manually verify income amounts, filing status, and deduction details.";
}

unfoldable pub field_warning : String → Number → ValidationIssue
unfolding to_fixed_2
field_warning path score = record {
  code = "LOW_FIELD_CONFIDENCE";
  severity = warning;
  field = path;
  message = str_append "Field '" (
      str_append path
        (str_append "' has a low confidence score (" (str_append (to_fixed_2 score) ").")));
  suggested_action =
      some (str_append "Manually verify the value of '" (str_append path "' before filing."));
}

unfoldable pub field_warnings : List (String × Number) → List ValidationIssue
unfolding field_warning is_below_two_fifths
field_warnings [] = []
field_warnings ((path, score) ∷ rest) =
    let later = field_warnings rest in
    if is_below_two_fifths score then field_warning path score ∷ later else later

unfoldable pub uncertainty_warnings : TaxSituation → List ValidationIssue
unfolding overall_warning field_warnings is_below_half
uncertainty_warnings s =
    (if is_below_half s.confidence_scores.overall
      then overall_warning s.confidence_scores.overall ∷ []
      else [])
    ++ field_warnings s.confidence_scores.per_field
