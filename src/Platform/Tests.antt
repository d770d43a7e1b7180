-- ===== src/Platform/Tests.antt =====
-- Runs of backend/src/modules/platform/platform.service.ts with two administrators and a company.
use logistics_center.Base.{
  ℕ, ◌≡◌, refl, sym, ◌∙◌, inl, inr, true, none, some, [], ◌∷◌, Elem, ok, err, unauthorized,
}
use logistics_center.Base.Text.{Text, codes}
use logistics_center.Database.ListTable.{list_table}
use logistics_center.Database.PrimaryKey.{keyed_table, keyed_table-IsPrimaryKey}
use logistics_center.Access.Permissions.{admin}
use logistics_center.Access.Guards.{active, suspended, impersonation}
use logistics_center.Platform.Companies.{CompanyStatus, Company}
use logistics_center.Platform.Rows.{PlatformSuperAdmin, User, impersonation_started}
use logistics_center.Platform.Service.{Tables, Db, append_platform_audit, update_admin}
use logistics_center.Platform.Impersonation.{
  StartImpersonationResponse, impersonation_payload, new_session, start_impersonation,
  end_impersonation, validate, is_tenant_admin,
}
use logistics_center.Platform.Steps.{Reaches, here, next, session_started, admin_updated}
use logistics_center.Platform.Admins.{HasActiveAdmin, Reaches-HasActiveAdmin}
use logistics_center.Platform.Sessions.{session_id_of, AreSingle, Reaches-AreSingle}
use logistics_center.Platform.Ended.{end_impersonation-rejected}
use logistics_center.Platform.Accepted.{start_impersonation-accepted}

abbrev tables : Tables
tables = record {
  companies = list_table;
  admins = list_table;
  sessions = keyed_table session_id_of;
  users = list_table;
}

abbrev hash : ℕ → ℕ
hash password = password

abbrev company_text : ℕ → Text
company_text id = codes "c"

abbrev company : Company
company = record {
  id = 7;
  name = 1;
  slug = 2;
  status = CompanyStatus.active;
  timezone = codes "UTC";
  default_currency = codes "RUB";
  language = codes "ru";
  country = codes "RU";
  contact_email = none;
  contact_phone = none;
  plan_id = none;
}

abbrev first_admin : PlatformSuperAdmin
first_admin = record { id = 4; email = 40; password_hash = 9; status = active }

abbrev other_admin : PlatformSuperAdmin
other_admin = record { id = 5; email = 50; password_hash = 9; status = active }

abbrev owner : User
owner = record {
  id = 11;
  company_id = 7;
  role = admin;
  email = 60;
  phone = none;
  first_name = 3;
  last_name = none;
  password_hash = none;
  is_active = true;
  created_at = 1;
}

abbrev sample_db : Db tables
unfolding list_table keyed_table
sample_db = record {
  company_rows = company ∷ [];
  admin_rows = first_admin ∷ other_admin ∷ [];
  session_rows = [];
  user_rows = owner ∷ [];
  features = [];
  audit = [];
}

abbrev started_db : Db tables
unfolding list_table keyed_table
started_db = record sample_db {
  session_rows = new_session 100 4 7 none 1 ∷ [];
  audit =
      record {
        actor_id = 4;
        action = impersonation_started 1 none;
        target_id = 7;
        company_id = some 7;
      }
      ∷ [];
}

abbrev response : StartImpersonationResponse
response = record {
  access_token = impersonation_payload 4 7 1;
  session_id = 1;
  company_id = 7;
  expires_at = 3600100;
}

start_run :
    start_impersonation tables company_text 100 7 none 4 sample_db ≡ ok (response, started_db)
unfolding start_impersonation append_platform_audit list_table keyed_table new_session
start_run = refl

abbrev ended_db : Db tables
ended_db = elim (end_impersonation tables company_text 200 1 4 started_db) [
  | ok db ↦ db
  | err e ↦ started_db
]

end_run : end_impersonation tables company_text 200 1 4 started_db ≡ ok ended_db
unfolding end_impersonation append_platform_audit list_table keyed_table new_session
end_run = refl

end_impersonation-rejected_example :
    validate tables company_text 300 (impersonation_payload 4 7 1) ended_db ≡ err unauthorized
unfolding impersonation_payload
end_impersonation-rejected_example =
    end_impersonation-rejected tables hash company_text 200 300 1 4 started_db ended_db ended_db
      (impersonation_payload 4 7 1) (keyed_table-IsPrimaryKey session_id_of) end_run here refl refl

keyed_admins :
    (x y : PlatformSuperAdmin)
    → Elem x (first_admin ∷ other_admin ∷ [])
    → Elem y (first_admin ∷ other_admin ∷ [])
    → x.id ≡ y.id
    → x ≡ y
keyed_admins x y (inl e) (inl f) same = e ∙ sym f
keyed_admins x y (inl e) (inr (inl f)) same = absurd cc
keyed_admins x y (inr (inl e)) (inl f) same = absurd cc
keyed_admins x y (inr (inl e)) (inr (inl f)) same = e ∙ sym f
keyed_admins x y (inl e) (inr (inr m)) same = absurd m
keyed_admins x y (inr (inl e)) (inr (inr m)) same = absurd m
keyed_admins x y (inr (inr m)) my same = absurd m

start_impersonation-accepted_example :
    (who : User) × Elem who (owner ∷ [])
    × (is_tenant_admin tables company_text 100 7 who ≡ true)
    × (validate tables company_text 100 (impersonation_payload 4 7 1) started_db
        ≡ ok (impersonation who.id who.email admin (company_text who.company_id) 4 40 1))
unfolding list_table sample_db
start_impersonation-accepted_example =
    start_impersonation-accepted tables company_text 100 7 none 4 sample_db started_db response
      first_admin owner start_run keyed_admins (inl refl) refl (inl refl) refl refl refl

abbrev sample_steps : Reaches tables hash company_text sample_db started_db
sample_steps = next here (session_started 100 7 none 4 sample_db started_db response start_run)

sample_db-AreSingle : AreSingle tables hash company_text sample_db.session_rows
unfolding list_table keyed_table
sample_db-AreSingle = record { single = λ r s hr. absurd hr }

Reaches-AreSingle_example : AreSingle tables hash company_text started_db.session_rows
Reaches-AreSingle_example =
    Reaches-AreSingle tables hash company_text sample_db started_db sample_db-AreSingle sample_steps

abbrev suspended_db : Db tables
suspended_db = elim (update_admin tables 4 suspended 5 started_db) [
  | ok (a, db) ↦ db
  | err e ↦ started_db
]

suspend_run :
    update_admin tables 4 suspended 5 started_db
    ≡ ok (record first_admin { status = suspended }, suspended_db)
unfolding update_admin append_platform_audit list_table keyed_table new_session
suspend_run = refl

abbrev all_steps : Reaches tables hash company_text sample_db suspended_db
all_steps = next sample_steps (admin_updated 4 suspended 5 started_db suspended_db _ suspend_run)

Reaches-HasActiveAdmin_example : HasActiveAdmin tables hash company_text suspended_db
unfolding list_table sample_db
Reaches-HasActiveAdmin_example =
    Reaches-HasActiveAdmin tables hash company_text sample_db suspended_db
      (first_admin, inl refl, refl) all_steps
