-- ===== src/Domain/Clients.antt =====
-- The contracts of pkg/domain/client.go on stored audience clients.
use tikti.Base.{
  Text, codes, teq, is_empty, Bool, false, not, ◌&&◌, ◌||◌, Option, none, some, List, [], ◌∷◌,
  same_texts,
}
use tikti.Domain.{Client}

abbrev pub client_type_public : Text
client_type_public = codes "PUBLIC"

abbrev pub client_type_service : Text
client_type_service = codes "SERVICE"

abbrev pub grant_types : List Text
grant_types = codes "token_exchange" ∷ []

abbrev pub client_active : Text
client_active = codes "ACTIVE"

abbrev pub client_inactive : Text
client_inactive = codes "INACTIVE"

abbrev pub code_admin_audience : Text
code_admin_audience = codes "code-admin-api"

abbrev pub code_admin_manager : Text
code_admin_manager = codes "tikti:code-admin-audience:v1"

abbrev pub workload_account_manager : Text
workload_account_manager = codes "tikti:workload-account-bff:v1"

abbrev pub ai_gateway_audience : Text
ai_gateway_audience = codes "code-llm-service"

abbrev pub ai_gateway_manager : Text
ai_gateway_manager = codes "tikti:ai-gateway-audience:v1"

unfoldable pub is_managed_code_admin_audience : Text → Option Client → Bool
is_managed_code_admin_audience tenant_id none = false
is_managed_code_admin_audience tenant_id (some client) =
    teq client.id code_admin_audience
    && teq client.tenant_id tenant_id
    && is_empty client.secret_hash
    && teq client.type client_type_service
    && teq client.status client_active
    && teq client.managed_by code_admin_manager
    && same_texts client.allowed_grant_types grant_types

unfoldable pub is_bootstrap_legacy_audience : Text → Text → Option Client → Bool
is_bootstrap_legacy_audience tenant_id client_id none = false
is_bootstrap_legacy_audience tenant_id client_id (some client) =
    teq client.id client_id
    && teq client.tenant_id tenant_id
    && is_empty client.secret_hash
    && teq client.type client_type_public
    && teq client.status client_active
    && is_empty client.managed_by
    && same_texts client.allowed_grant_types grant_types

unfoldable pub is_bootstrap_legacy_code_admin_audience : Text → Option Client → Bool
is_bootstrap_legacy_code_admin_audience tenant_id client =
    is_bootstrap_legacy_audience tenant_id code_admin_audience client

unfoldable pub is_managed_workload_account_audience : Text → Option Client → Bool
is_managed_workload_account_audience tenant_id none = false
is_managed_workload_account_audience tenant_id (some client) =
    not (is_empty client.id)
    && not (teq client.id code_admin_audience)
    && not (teq client.id ai_gateway_audience)
    && teq client.tenant_id tenant_id
    && is_empty client.secret_hash
    && teq client.type client_type_service
    && teq client.status client_active
    && teq client.managed_by workload_account_manager
    && same_texts client.allowed_grant_types grant_types

unfoldable pub is_managed_ai_gateway_audience_record : Text → Option Client → Bool
is_managed_ai_gateway_audience_record tenant_id none = false
is_managed_ai_gateway_audience_record tenant_id (some client) =
    teq client.id ai_gateway_audience
    && teq client.tenant_id tenant_id
    && is_empty client.secret_hash
    && teq client.type client_type_service
    && (teq client.status client_active || teq client.status client_inactive)
    && teq client.managed_by ai_gateway_manager
    && same_texts client.allowed_grant_types grant_types

unfoldable pub is_managed_ai_gateway_audience : Text → Option Client → Bool
is_managed_ai_gateway_audience tenant_id none = false
is_managed_ai_gateway_audience tenant_id (some client) =
    is_managed_ai_gateway_audience_record tenant_id (some client) && teq client.status client_active
