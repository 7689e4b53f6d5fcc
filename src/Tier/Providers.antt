-- ===== src/Tier/Providers.antt =====
-- The provider registry of tier-mapping.ts.
pub mod TurboTax
pub mod HrBlock
pub mod TaxAct
pub mod FreeTaxUsa
pub mod CashApp
use tea_tax_product.Prelude.{List, [], ◌∷◌}
use tea_tax_product.Tier.Types.{ProviderDefinition}
use TurboTax.{turbo_tax}
use HrBlock.{hr_block}
use TaxAct.{tax_act}
use FreeTaxUsa.{free_tax_usa}
use CashApp.{cash_app_taxes}

abbrev pub providers : List ProviderDefinition
providers = turbo_tax ∷ hr_block ∷ tax_act ∷ free_tax_usa ∷ cash_app_taxes ∷ []
