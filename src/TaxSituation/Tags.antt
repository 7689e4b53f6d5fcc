-- ===== src/TaxSituation/Tags.antt =====
-- The string literals of the unions, as the running program holds them.
use tea_tax_product.Prelude.{String}
use tea_tax_product.TaxSituation.Unions.{FilingStatus}
use tea_tax_product.TaxSituation.Unions.{IncomeStreamType}
use tea_tax_product.TaxSituation.Unions.{DeductionType}
use tea_tax_product.TaxSituation.Unions.{CreditType}
use tea_tax_product.TaxSituation.Unions.{LifeEventType}
use tea_tax_product.TaxSituation.Unions.{TaxObjectType}
use tea_tax_product.TaxSituation.Unions.{StateCode}
use tea_tax_product.TaxSituation.Unions.{ArtifactType}
use tea_tax_product.TaxSituation.Unions.{FilingMethod}
use tea_tax_product.TaxSituation.Unions.{ValidationSeverity}

unfoldable pub filing_status_tag : FilingStatus → String
filing_status_tag FilingStatus.single = "single"
filing_status_tag FilingStatus.married_filing_jointly = "married_filing_jointly"
filing_status_tag FilingStatus.married_filing_separately = "married_filing_separately"
filing_status_tag FilingStatus.head_of_household = "head_of_household"
filing_status_tag FilingStatus.qualifying_surviving_spouse = "qualifying_surviving_spouse"

unfoldable pub income_stream_type_tag : IncomeStreamType → String
income_stream_type_tag IncomeStreamType.w2 = "w2"
income_stream_type_tag IncomeStreamType.form_1099_nec = "1099_nec"
income_stream_type_tag IncomeStreamType.form_1099_misc = "1099_misc"
income_stream_type_tag IncomeStreamType.form_1099_b = "1099_b"
income_stream_type_tag IncomeStreamType.form_1099_div = "1099_div"
income_stream_type_tag IncomeStreamType.form_1099_int = "1099_int"
income_stream_type_tag IncomeStreamType.form_1099_r = "1099_r"
income_stream_type_tag IncomeStreamType.k1 = "k1"
income_stream_type_tag IncomeStreamType.rental = "rental"
income_stream_type_tag IncomeStreamType.other = "other"

unfoldable pub deduction_type_tag : DeductionType → String
deduction_type_tag DeductionType.standard = "standard"
deduction_type_tag DeductionType.mortgage_interest = "mortgage_interest"
deduction_type_tag DeductionType.state_local_taxes = "state_local_taxes"
deduction_type_tag DeductionType.charitable = "charitable"
deduction_type_tag DeductionType.medical = "medical"
deduction_type_tag DeductionType.student_loan_interest = "student_loan_interest"
deduction_type_tag DeductionType.educator_expense = "educator_expense"
deduction_type_tag DeductionType.other = "other"

unfoldable pub credit_type_tag : CreditType → String
credit_type_tag CreditType.child_tax = "child_tax"
credit_type_tag CreditType.earned_income = "earned_income"
credit_type_tag CreditType.education_american_opportunity = "education_american_opportunity"
credit_type_tag CreditType.education_lifetime_learning = "education_lifetime_learning"
credit_type_tag CreditType.child_dependent_care = "child_dependent_care"
credit_type_tag CreditType.saver = "saver"
credit_type_tag CreditType.other = "other"

unfoldable pub life_event_type_tag : LifeEventType → String
life_event_type_tag LifeEventType.marriage = "marriage"
life_event_type_tag LifeEventType.divorce = "divorce"
life_event_type_tag LifeEventType.birth = "birth"
life_event_type_tag LifeEventType.adoption = "adoption"
life_event_type_tag LifeEventType.death_of_spouse = "death_of_spouse"
life_event_type_tag LifeEventType.home_purchase = "home_purchase"
life_event_type_tag LifeEventType.home_sale = "home_sale"
life_event_type_tag LifeEventType.job_change = "job_change"
life_event_type_tag LifeEventType.retirement = "retirement"
life_event_type_tag LifeEventType.other = "other"

unfoldable pub tax_object_type_tag : TaxObjectType → String
tax_object_type_tag TaxObjectType.individual = "individual"
tax_object_type_tag TaxObjectType.joint_household = "joint_household"
tax_object_type_tag TaxObjectType.business = "business"
tax_object_type_tag TaxObjectType.dependent = "dependent"
tax_object_type_tag TaxObjectType.estate_or_trust = "estate_or_trust"

unfoldable pub state_code_tag : StateCode → String
state_code_tag StateCode.us_al = "AL"
state_code_tag StateCode.us_ak = "AK"
state_code_tag StateCode.us_az = "AZ"
state_code_tag StateCode.us_ar = "AR"
state_code_tag StateCode.us_ca = "CA"
state_code_tag StateCode.us_co = "CO"
state_code_tag StateCode.us_ct = "CT"
state_code_tag StateCode.us_de = "DE"
state_code_tag StateCode.us_fl = "FL"
state_code_tag StateCode.us_ga = "GA"
state_code_tag StateCode.us_hi = "HI"
state_code_tag StateCode.us_id = "ID"
state_code_tag StateCode.us_il = "IL"
state_code_tag StateCode.us_in = "IN"
state_code_tag StateCode.us_ia = "IA"
state_code_tag StateCode.us_ks = "KS"
state_code_tag StateCode.us_ky = "KY"
state_code_tag StateCode.us_la = "LA"
state_code_tag StateCode.us_me = "ME"
state_code_tag StateCode.us_md = "MD"
state_code_tag StateCode.us_ma = "MA"
state_code_tag StateCode.us_mi = "MI"
state_code_tag StateCode.us_mn = "MN"
state_code_tag StateCode.us_ms = "MS"
state_code_tag StateCode.us_mo = "MO"
state_code_tag StateCode.us_mt = "MT"
state_code_tag StateCode.us_ne = "NE"
state_code_tag StateCode.us_nv = "NV"
state_code_tag StateCode.us_nh = "NH"
state_code_tag StateCode.us_nj = "NJ"
state_code_tag StateCode.us_nm = "NM"
state_code_tag StateCode.us_ny = "NY"
state_code_tag StateCode.us_nc = "NC"
state_code_tag StateCode.us_nd = "ND"
state_code_tag StateCode.us_oh = "OH"
state_code_tag StateCode.us_ok = "OK"
state_code_tag StateCode.us_or = "OR"
state_code_tag StateCode.us_pa = "PA"
state_code_tag StateCode.us_ri = "RI"
state_code_tag StateCode.us_sc = "SC"
state_code_tag StateCode.us_sd = "SD"
state_code_tag StateCode.us_tn = "TN"
state_code_tag StateCode.us_tx = "TX"
state_code_tag StateCode.us_ut = "UT"
state_code_tag StateCode.us_vt = "VT"
state_code_tag StateCode.us_va = "VA"
state_code_tag StateCode.us_wa = "WA"
state_code_tag StateCode.us_wv = "WV"
state_code_tag StateCode.us_wi = "WI"
state_code_tag StateCode.us_wy = "WY"
state_code_tag StateCode.us_dc = "DC"
state_code_tag StateCode.us_as = "AS"
state_code_tag StateCode.us_gu = "GU"
state_code_tag StateCode.us_mp = "MP"
state_code_tag StateCode.us_pr = "PR"
state_code_tag StateCode.us_vi = "VI"

unfoldable pub artifact_type_tag : ArtifactType → String
artifact_type_tag ArtifactType.document = "document"
artifact_type_tag ArtifactType.photo = "photo"
artifact_type_tag ArtifactType.recording = "recording"

unfoldable pub filing_method_tag : FilingMethod → String
filing_method_tag FilingMethod.self_prepared = "self_prepared"
filing_method_tag FilingMethod.tax_professional = "tax_professional"
filing_method_tag FilingMethod.volunteer = "volunteer"
filing_method_tag FilingMethod.unknown = "unknown"

unfoldable pub validation_severity_tag : ValidationSeverity → String
validation_severity_tag ValidationSeverity.error = "error"
validation_severity_tag ValidationSeverity.warning = "warning"
validation_severity_tag ValidationSeverity.info = "info"
