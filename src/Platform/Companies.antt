-- ===== src/Platform/Companies.antt =====
-- The rows of companies, with their features, that backend/src/modules/platform/platform.service.ts and
-- backend/src/modules/tenant-provisioning/tenant-provisioning.service.ts write.
use logistics_center.Base.{
  ℕ, Bool, true, false, Option, none, some, List, [], ◌∷◌, ◌++◌, ◌==◌, ◌&&◌, if◌then◌else◌, get_or,
}
use logistics_center.Base.Text.{Text, codes, text_eq}

pub data CompanyStatus : Type 0 where
  active inactive suspended trial pending_setup archived : CompanyStatus

abbrev pub is_active : CompanyStatus → Bool
is_active active = true
is_active _ = false

-- `companySelect`
pub record Company : Type 0 where
  pub id : ℕ
  pub name : ℕ
  pub slug : ℕ
  pub status : CompanyStatus
  pub timezone : Text
  pub default_currency : Text
  pub language : Text
  pub country : Text
  pub contact_email : Option ℕ
  pub contact_phone : Option ℕ
  pub plan_id : Option ℕ

pub record UpdatePlatformCompanyDto : Type 0 where
  pub name : Option ℕ
  pub timezone : Option Text
  pub default_currency : Option Text
  pub language : Option Text
  pub country : Option Text
  pub contact_email : Option ℕ
  pub contact_phone : Option ℕ
  pub plan_id : Option ℕ

pub record ProvisionTenantOwnerInput : Type 0 where
  pub email : ℕ
  pub password : ℕ
  pub first_name : ℕ
  pub last_name : Option ℕ
  pub phone : Option ℕ

pub record ProvisionTenantInput : Type 0 where
  pub name : ℕ
  pub slug : ℕ
  pub status : Option CompanyStatus
  pub timezone : Option Text
  pub default_currency : Option Text
  pub language : Option Text
  pub country : Option Text
  pub contact_email : Option ℕ
  pub contact_phone : Option ℕ
  pub plan_id : Option ℕ
  pub owner : ProvisionTenantOwnerInput

pub record CompanyFeature : Type 0 where
  pub company_id : ℕ
  pub feature_key : Text
  pub enabled : Bool
  pub enabled_at : Option ℕ
  pub disabled_at : Option ℕ

-- `value !== undefined ? { column: value } : {}`
abbrev pub given_column : Option ℕ → Option ℕ → Option ℕ
given_column none column = column
given_column (some value) column = some value

-- The data of `updateCompany`.
unfoldable pub edit_company : UpdatePlatformCompanyDto → Company → Company
edit_company dto c = record c {
  name = get_or dto.name c.name;
  timezone = get_or dto.timezone c.timezone;
  default_currency = get_or dto.default_currency c.default_currency;
  language = get_or dto.language c.language;
  country = get_or dto.country c.country;
  contact_email = given_column dto.contact_email c.contact_email;
  contact_phone = given_column dto.contact_phone c.contact_phone;
  plan_id = given_column dto.plan_id c.plan_id;
}

-- The data of `provisionCompany`.
unfoldable pub new_company : ProvisionTenantInput → ℕ → Company
new_company input id = record {
  id = id;
  name = input.name;
  slug = input.slug;
  status = get_or input.status active;
  timezone = get_or input.timezone (codes "UTC");
  default_currency = get_or input.default_currency (codes "RUB");
  language = get_or input.language (codes "ru");
  country = get_or input.country (codes "RU");
  contact_email = input.contact_email;
  contact_phone = input.contact_phone;
  plan_id = input.plan_id;
}

-- `DEFAULT_FEATURE_FLAGS`
abbrev pub default_feature_flags : List (Text × Bool)
default_feature_flags =
    (codes "routing.yandex", true)
    ∷ (codes "integrations.crm", false)
    ∷ (codes "payments.minimum-guarantee", false)
    ∷ (codes "notifications.realtime", true)
    ∷ (codes "analytics.finance", false)
    ∷ []

abbrev pub has_feature : ℕ → Text → List CompanyFeature → Bool
has_feature company_id key [] = false
has_feature company_id key (f ∷ fs) =
    if f.company_id == company_id && text_eq f.feature_key key
    then true
    else has_feature company_id key fs

abbrev pub feature_row : ℕ → ℕ → Text × Bool → CompanyFeature
feature_row now company_id (key, enabled) = record {
  company_id = company_id;
  feature_key = key;
  enabled = enabled;
  enabled_at = if enabled then some now else none;
  disabled_at = if enabled then none else some now;
}

-- `createMany` with `skipDuplicates`.
unfoldable pub seed_features :
    ℕ → ℕ → List (Text × Bool) → List CompanyFeature → List CompanyFeature
seed_features now company_id [] rows = rows
seed_features now company_id ((key, enabled) ∷ flags) rows =
    let seeded =
      if has_feature company_id key rows
      then rows
      else rows ++ (feature_row now company_id (key, enabled) ∷ []) in
    seed_features now company_id flags seeded
