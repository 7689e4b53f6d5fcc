-- ===== src/Schema/Words.antt =====
-- Every word of the unions of packages/core/tax-situation.ts stands in the array of words of its schema.
use tea_tax_product.Prelude.{refl, any}
use tea_tax_product.Prelude.Enum.{In, string_eq, includes}
use tea_tax_product.TaxSituation.Unions.{
  FilingStatus, IncomeStreamType, DeductionType, CreditType, LifeEventType, TaxObjectType,
  StateCode, ArtifactType, FilingMethod,
}
use tea_tax_product.TaxSituation.Tags.{
  filing_status_tag, income_stream_type_tag, deduction_type_tag, credit_type_tag,
  life_event_type_tag, tax_object_type_tag, state_code_tag, artifact_type_tag, filing_method_tag,
}
use tea_tax_product.Schema.Enums.{
  filing_status_enum, income_stream_type_enum, deduction_type_enum, credit_type_enum,
  life_event_type_enum, tax_object_type_enum, state_code_enum, artifact_type_enum,
  prior_year_filing_method_enum,
}

pub filing_status-In : (x : FilingStatus) → In (filing_status_tag x) filing_status_enum
unfolding filing_status_tag filing_status_enum includes any
filing_status-In FilingStatus.single = refl
filing_status-In FilingStatus.married_filing_jointly = refl
filing_status-In FilingStatus.married_filing_separately = refl
filing_status-In FilingStatus.head_of_household = refl
filing_status-In FilingStatus.qualifying_surviving_spouse = refl

pub income_stream_type-In :
    (x : IncomeStreamType) → In (income_stream_type_tag x) income_stream_type_enum
unfolding income_stream_type_tag income_stream_type_enum includes any
income_stream_type-In IncomeStreamType.w2 = refl
income_stream_type-In IncomeStreamType.form_1099_nec = refl
income_stream_type-In IncomeStreamType.form_1099_misc = refl
income_stream_type-In IncomeStreamType.form_1099_b = refl
income_stream_type-In IncomeStreamType.form_1099_div = refl
income_stream_type-In IncomeStreamType.form_1099_int = refl
income_stream_type-In IncomeStreamType.form_1099_r = refl
income_stream_type-In IncomeStreamType.k1 = refl
income_stream_type-In IncomeStreamType.rental = refl
income_stream_type-In IncomeStreamType.other = refl

pub deduction_type-In : (x : DeductionType) → In (deduction_type_tag x) deduction_type_enum
unfolding deduction_type_tag deduction_type_enum includes any
deduction_type-In DeductionType.standard = refl
deduction_type-In DeductionType.mortgage_interest = refl
deduction_type-In DeductionType.state_local_taxes = refl
deduction_type-In DeductionType.charitable = refl
deduction_type-In DeductionType.medical = refl
deduction_type-In DeductionType.student_loan_interest = refl
deduction_type-In DeductionType.educator_expense = refl
deduction_type-In DeductionType.other = refl

pub credit_type-In : (x : CreditType) → In (credit_type_tag x) credit_type_enum
unfolding credit_type_tag credit_type_enum includes any
credit_type-In CreditType.child_tax = refl
credit_type-In CreditType.earned_income = refl
credit_type-In CreditType.education_american_opportunity = refl
credit_type-In CreditType.education_lifetime_learning = refl
credit_type-In CreditType.child_dependent_care = refl
credit_type-In CreditType.saver = refl
credit_type-In CreditType.other = refl

pub life_event_type-In : (x : LifeEventType) → In (life_event_type_tag x) life_event_type_enum
unfolding life_event_type_tag life_event_type_enum includes any
life_event_type-In LifeEventType.marriage = refl
life_event_type-In LifeEventType.divorce = refl
life_event_type-In LifeEventType.birth = refl
life_event_type-In LifeEventType.adoption = refl
life_event_type-In LifeEventType.death_of_spouse = refl
life_event_type-In LifeEventType.home_purchase = refl
life_event_type-In LifeEventType.home_sale = refl
life_event_type-In LifeEventType.job_change = refl
life_event_type-In LifeEventType.retirement = refl
life_event_type-In LifeEventType.other = refl

pub tax_object_type-In : (x : TaxObjectType) → In (tax_object_type_tag x) tax_object_type_enum
unfolding tax_object_type_tag tax_object_type_enum includes any
tax_object_type-In TaxObjectType.individual = refl
tax_object_type-In TaxObjectType.joint_household = refl
tax_object_type-In TaxObjectType.business = refl
tax_object_type-In TaxObjectType.dependent = refl
tax_object_type-In TaxObjectType.estate_or_trust = refl

pub state_code-In : (x : StateCode) → In (state_code_tag x) state_code_enum
unfolding state_code_tag state_code_enum includes any
state_code-In StateCode.us_al = refl
state_code-In StateCode.us_ak = refl
state_code-In StateCode.us_az = refl
state_code-In StateCode.us_ar = refl
state_code-In StateCode.us_ca = refl
state_code-In StateCode.us_co = refl
state_code-In StateCode.us_ct = refl
state_code-In StateCode.us_de = refl
state_code-In StateCode.us_fl = refl
state_code-In StateCode.us_ga = refl
state_code-In StateCode.us_hi = refl
state_code-In StateCode.us_id = refl
state_code-In StateCode.us_il = refl
state_code-In StateCode.us_in = refl
state_code-In StateCode.us_ia = refl
state_code-In StateCode.us_ks = refl
state_code-In StateCode.us_ky = refl
state_code-In StateCode.us_la = refl
state_code-In StateCode.us_me = refl
state_code-In StateCode.us_md = refl
state_code-In StateCode.us_ma = refl
state_code-In StateCode.us_mi = refl
state_code-In StateCode.us_mn = refl
state_code-In StateCode.us_ms = refl
state_code-In StateCode.us_mo = refl
state_code-In StateCode.us_mt = refl
state_code-In StateCode.us_ne = refl
state_code-In StateCode.us_nv = refl
state_code-In StateCode.us_nh = refl
state_code-In StateCode.us_nj = refl
state_code-In StateCode.us_nm = refl
state_code-In StateCode.us_ny = refl
state_code-In StateCode.us_nc = refl
state_code-In StateCode.us_nd = refl
state_code-In StateCode.us_oh = refl
state_code-In StateCode.us_ok = refl
state_code-In StateCode.us_or = refl
state_code-In StateCode.us_pa = refl
state_code-In StateCode.us_ri = refl
state_code-In StateCode.us_sc = refl
state_code-In StateCode.us_sd = refl
state_code-In StateCode.us_tn = refl
state_code-In StateCode.us_tx = refl
state_code-In StateCode.us_ut = refl
state_code-In StateCode.us_vt = refl
state_code-In StateCode.us_va = refl
state_code-In StateCode.us_wa = refl
state_code-In StateCode.us_wv = refl
state_code-In StateCode.us_wi = refl
state_code-In StateCode.us_wy = refl
state_code-In StateCode.us_dc = refl
state_code-In StateCode.us_as = refl
state_code-In StateCode.us_gu = refl
state_code-In StateCode.us_mp = refl
state_code-In StateCode.us_pr = refl
state_code-In StateCode.us_vi = refl

pub artifact_type-In : (x : ArtifactType) → In (artifact_type_tag x) artifact_type_enum
unfolding artifact_type_tag artifact_type_enum includes any
artifact_type-In ArtifactType.document = refl
artifact_type-In ArtifactType.photo = refl
artifact_type-In ArtifactType.recording = refl

pub filing_method-In : (x : FilingMethod) → In (filing_method_tag x) prior_year_filing_method_enum
unfolding filing_method_tag prior_year_filing_method_enum includes any
filing_method-In FilingMethod.self_prepared = refl
filing_method-In FilingMethod.tax_professional = refl
filing_method-In FilingMethod.volunteer = refl
filing_method-In FilingMethod.unknown = refl
