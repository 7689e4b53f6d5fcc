-- ===== src/TaxSituation/Unions.antt =====
-- The string-literal unions of packages/core/tax-situation.ts. A literal that starts with a digit has
-- `form_` in front, a state code `us_` (`form_1099_nec` for '1099_nec'); `tag` gives the literals back.
use tea_tax_product.Prelude.Enum.{StrictEq, discrete_eq}

pub data FilingStatus : Type 0 where
  single married_filing_jointly married_filing_separately head_of_household
        qualifying_surviving_spouse :
      FilingStatus

unfoldable pub FilingStatus-discrete : Discrete FilingStatus
FilingStatus-discrete = hlevel

instance abbrev pub filing_status_eq : StrictEq FilingStatus
filing_status_eq = discrete_eq FilingStatus-discrete

pub data IncomeStreamType : Type 0 where
  w2 form_1099_nec form_1099_misc form_1099_b form_1099_div form_1099_int form_1099_r k1 :
      IncomeStreamType
  rental other : IncomeStreamType

unfoldable pub IncomeStreamType-discrete : Discrete IncomeStreamType
IncomeStreamType-discrete = hlevel

instance abbrev pub income_stream_type_eq : StrictEq IncomeStreamType
income_stream_type_eq = discrete_eq IncomeStreamType-discrete

pub data DeductionType : Type 0 where
  standard mortgage_interest state_local_taxes charitable medical student_loan_interest
        educator_expense other :
      DeductionType

unfoldable pub DeductionType-discrete : Discrete DeductionType
DeductionType-discrete = hlevel

instance abbrev pub deduction_type_eq : StrictEq DeductionType
deduction_type_eq = discrete_eq DeductionType-discrete

pub data CreditType : Type 0 where
  child_tax earned_income education_american_opportunity education_lifetime_learning
        child_dependent_care saver other :
      CreditType

unfoldable pub CreditType-discrete : Discrete CreditType
CreditType-discrete = hlevel

instance abbrev pub credit_type_eq : StrictEq CreditType
credit_type_eq = discrete_eq CreditType-discrete

pub data LifeEventType : Type 0 where
  marriage divorce birth adoption death_of_spouse home_purchase home_sale job_change : LifeEventType
  retirement other : LifeEventType

unfoldable pub LifeEventType-discrete : Discrete LifeEventType
LifeEventType-discrete = hlevel

instance abbrev pub life_event_type_eq : StrictEq LifeEventType
life_event_type_eq = discrete_eq LifeEventType-discrete

pub data TaxObjectType : Type 0 where
  individual joint_household business dependent estate_or_trust : TaxObjectType

unfoldable pub TaxObjectType-discrete : Discrete TaxObjectType
TaxObjectType-discrete = hlevel

instance abbrev pub tax_object_type_eq : StrictEq TaxObjectType
tax_object_type_eq = discrete_eq TaxObjectType-discrete

pub data StateCode : Type 0 where
  us_al us_ak us_az us_ar us_ca us_co us_ct us_de : StateCode
  us_fl us_ga us_hi us_id us_il us_in us_ia us_ks : StateCode
  us_ky us_la us_me us_md us_ma us_mi us_mn us_ms : StateCode
  us_mo us_mt us_ne us_nv us_nh us_nj us_nm us_ny : StateCode
  us_nc us_nd us_oh us_ok us_or us_pa us_ri us_sc : StateCode
  us_sd us_tn us_tx us_ut us_vt us_va us_wa us_wv : StateCode
  us_wi us_wy us_dc us_as us_gu us_mp us_pr us_vi : StateCode

pub data ArtifactType : Type 0 where
  document photo recording : ArtifactType

unfoldable pub ArtifactType-discrete : Discrete ArtifactType
ArtifactType-discrete = hlevel

instance abbrev pub artifact_type_eq : StrictEq ArtifactType
artifact_type_eq = discrete_eq ArtifactType-discrete

pub data FilingMethod : Type 0 where
  self_prepared tax_professional volunteer unknown : FilingMethod

unfoldable pub FilingMethod-discrete : Discrete FilingMethod
FilingMethod-discrete = hlevel

instance abbrev pub filing_method_eq : StrictEq FilingMethod
filing_method_eq = discrete_eq FilingMethod-discrete

pub data ValidationSeverity : Type 0 where
  error warning info : ValidationSeverity

unfoldable pub ValidationSeverity-discrete : Discrete ValidationSeverity
ValidationSeverity-discrete = hlevel

instance abbrev pub validation_severity_eq : StrictEq ValidationSeverity
validation_severity_eq = discrete_eq ValidationSeverity-discrete
