-- ===== src/Taxonomy/Forms.antt =====
-- FORM_TAXONOMY of form-taxonomy.ts.
use tea_tax_product.Prelude.{List, [], ◌∷◌}
use tea_tax_product.Js.{null, str}
use tea_tax_product.Taxonomy.Types.{exists, contains, FormDefinition}

abbrev pub form_1040 : FormDefinition
form_1040 = record {
  form_id = "1040";
  name = "U.S. Individual Income Tax Return";
  required_fields = "filingStatus" ∷ "filingYear" ∷ [];
  dependencies = [];
  triggered_by =
      record {
        field = "filingStatus";
        operator = exists;
        value = null;
        description = "Form 1040 is required for every individual federal return";
      }
      ∷ [];
}

abbrev pub form_w_2 : FormDefinition
form_w_2 = record {
  form_id = "w-2";
  name = "Wage and Tax Statement";
  required_fields = "incomeStreams" ∷ [];
  dependencies = "1040" ∷ [];
  triggered_by =
      record {
        field = "incomeStreams[].type";
        operator = contains;
        value = str "w2";
        description = "W-2 income present in incomeStreams";
      }
      ∷ [];
}

abbrev pub form_schedule_c : FormDefinition
form_schedule_c = record {
  form_id = "schedule-c";
  name = "Profit or Loss from Business (Sole Proprietorship)";
  required_fields = "incomeStreams" ∷ [];
  dependencies = "1040" ∷ [];
  triggered_by =
      record {
        field = "incomeStreams[].type";
        operator = contains;
        value = str "1099_nec";
        description = "1099-NEC income present — indicates self-employment / freelance income";
      }
      ∷ record {
        field = "incomeStreams[].type";
        operator = contains;
        value = str "1099_misc";
        description = "1099-MISC other income present — may indicate self-employment";
      }
      ∷ [];
}

abbrev pub form_schedule_se : FormDefinition
form_schedule_se = record {
  form_id = "schedule-se";
  name = "Self-Employment Tax";
  required_fields = "incomeStreams" ∷ [];
  dependencies = "schedule-c" ∷ [];
  triggered_by =
      record {
        field = "incomeStreams[].type";
        operator = contains;
        value = str "1099_nec";
        description = "1099-NEC income present — self-employment tax always accompanies Schedule C";
      }
      ∷ record {
        field = "incomeStreams[].type";
        operator = contains;
        value = str "1099_misc";
        description = "1099-MISC income present — self-employment tax accompanies Schedule C";
      }
      ∷ [];
}

abbrev pub form_schedule_d : FormDefinition
form_schedule_d = record {
  form_id = "schedule-d";
  name = "Capital Gains and Losses";
  required_fields = "incomeStreams" ∷ [];
  dependencies = "1040" ∷ [];
  triggered_by =
      record {
        field = "incomeStreams[].type";
        operator = contains;
        value = str "1099_b";
        description = "1099-B proceeds present — indicates capital asset transactions";
      }
      ∷ [];
}

abbrev pub form_8949 : FormDefinition
form_8949 = record {
  form_id = "form-8949";
  name = "Sales and Other Dispositions of Capital Assets";
  required_fields = "incomeStreams" ∷ [];
  dependencies = "schedule-d" ∷ [];
  triggered_by =
      record {
        field = "incomeStreams[].type";
        operator = contains;
        value = str "1099_b";
        description = "1099-B proceeds present — Form 8949 always accompanies Schedule D";
      }
      ∷ [];
}

abbrev pub form_schedule_e : FormDefinition
form_schedule_e = record {
  form_id = "schedule-e";
  name = "Supplemental Income and Loss (Rental, Royalties, Partnerships, S Corporations)";
  required_fields = "incomeStreams" ∷ [];
  dependencies = "1040" ∷ [];
  triggered_by =
      record {
        field = "incomeStreams[].type";
        operator = contains;
        value = str "rental";
        description = "Rental income present in incomeStreams";
      }
      ∷ record {
        field = "incomeStreams[].type";
        operator = contains;
        value = str "k1";
        description = "K-1 partnership or S-corp income present in incomeStreams";
      }
      ∷ [];
}

abbrev pub form_schedule_a : FormDefinition
form_schedule_a = record {
  form_id = "schedule-a";
  name = "Itemized Deductions";
  required_fields = "deductions" ∷ [];
  dependencies = "1040" ∷ [];
  triggered_by =
      record {
        field = "deductions[].type";
        operator = contains;
        value = str "mortgage_interest";
        description = "Mortgage interest deduction indicates itemizing";
      }
      ∷ record {
        field = "deductions[].type";
        operator = contains;
        value = str "charitable";
        description = "Charitable contribution deduction indicates itemizing";
      }
      ∷ record {
        field = "deductions[].type";
        operator = contains;
        value = str "medical";
        description = "Medical expense deduction indicates itemizing";
      }
      ∷ record {
        field = "deductions[].type";
        operator = contains;
        value = str "state_local_taxes";
        description = "State and local tax deduction (SALT) indicates itemizing";
      }
      ∷ [];
}

abbrev pub form_schedule_b : FormDefinition
form_schedule_b = record {
  form_id = "schedule-b";
  name = "Interest and Ordinary Dividends";
  required_fields = "incomeStreams" ∷ [];
  dependencies = "1040" ∷ [];
  triggered_by =
      record {
        field = "incomeStreams[].type";
        operator = contains;
        value = str "1099_int";
        description = "1099-INT interest income present";
      }
      ∷ record {
        field = "incomeStreams[].type";
        operator = contains;
        value = str "1099_div";
        description = "1099-DIV dividend income present";
      }
      ∷ [];
}

abbrev pub form_1099_div : FormDefinition
form_1099_div = record {
  form_id = "1099-div";
  name = "Dividends and Distributions";
  required_fields = "incomeStreams" ∷ [];
  dependencies = "1040" ∷ [];
  triggered_by =
      record {
        field = "incomeStreams[].type";
        operator = contains;
        value = str "1099_div";
        description = "Dividend income stream present";
      }
      ∷ [];
}

abbrev pub form_1099_int : FormDefinition
form_1099_int = record {
  form_id = "1099-int";
  name = "Interest Income";
  required_fields = "incomeStreams" ∷ [];
  dependencies = "1040" ∷ [];
  triggered_by =
      record {
        field = "incomeStreams[].type";
        operator = contains;
        value = str "1099_int";
        description = "Interest income stream present";
      }
      ∷ [];
}

abbrev pub form_state_return : FormDefinition
form_state_return = record {
  form_id = "state-return";
  name = "State Individual Income Tax Return";
  required_fields = "stateResidency" ∷ [];
  dependencies = "1040" ∷ [];
  triggered_by =
      record {
        field = "stateResidency.primary";
        operator = exists;
        value = null;
        description = "Primary state residency is set — state return required";
      }
      ∷ [];
}

abbrev pub form_taxonomy : List FormDefinition
form_taxonomy =
    form_1040 ∷ form_w_2 ∷ form_schedule_c ∷ form_schedule_se ∷ form_schedule_d ∷ form_8949
    ∷ form_schedule_e ∷ form_schedule_a ∷ form_schedule_b ∷ form_1099_div ∷ form_1099_int
    ∷ form_state_return ∷ []
