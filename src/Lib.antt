-- ===== src/Lib.antt =====
-- Tikti is a multi-tenant identity service. Users sign in to a home tenant; a session is exchanged
-- for an access token whose scopes are derived from tenant roles, from the authority of the home, and
-- from the audience that the token is for. This library models the rules that decide that derivation.
--
-- Parts of the program and the files that model them:
--
--   Base/*            helpers: texts as bytes, sorting as insertion sort, Go's string sets as
--                     lists, strings.TrimSpace, results for `(value, error)` pairs
--   Domain            pkg/domain: User, Tenant, Role, RoleResp, Membership, Client, the errors;
--   Domain/Clients    the contracts of audience clients in pkg/domain/client.go
--   Scope/*           internal/scopepolicy/policy.go: CanonicalPermissions,
--                     CanonicalAudienceScopes, RequiresHomeAuthority, TenantRoleAssignable,
--                     parseManifest
--   TenantName/*      internal/tenantname/name.go: Normalize, Valid, ReservedMaster
--   Role/*            internal/services/role_service.go: names, permissions, the operations
--   Authority/*       internal/services/user_service.go and tenant_scoped_token.go: the
--                     effective role, homeAuthority, homeGlobalAuthority, intersectScopeSets
--   Access/*          tenant_scoped_token.go: accessTenantRoles,
--                     resolveTenantScopedAuthorization, resolveMembershipRoleAuthorization,
--                     recoveredMasterPlatformAdministrator
--   Discovery/*       tenant_scoped_token.go: discoverTenantTargets
--   Targeting/*       tenant_scoped_token.go: targetAuthority, resolveDiscoveryHome,
--                     resolveTenantDiscoveryAuthorization
--   Native/*          internal/nativepolicy/policy.go and registry.go
--   Grants/*          internal/nativeauth/store.go: authorization requests and codes in Redis
--   Identity          internal/repository/exact_identity_repository.go and the canonical forms of
--                     users in identity_directory_repository.go and user_repository.go
--   Session/*         internal/services/user_service.go: the claims of tokens, ParseToken,
--                     validateCurrentIDToken, the issue of sessions
--   UserStore/*       internal/repository/user_repository.go, user_legacy_import.go and the user
--                     records of identity_directory_repository.go: FindByID, FindByEmail,
--                     UpdateUser, SetStatus, IncrementTokenVersion, ConsumeTemporaryPassword
--   TenantStore/*     internal/repository/tenant_repository.go, retained_tenant_repository.go and
--                     internal/services/tenant_service.go
--
-- How they interact: Targeting asks Discovery for the tenants of a session and Authority and Access
-- for what it may do at one of them; Discovery and Access read repositories, the role service and the
-- client service, which are the interface records TenantRepository, Directory, ExactMemberships,
-- Roles and Clients of Access. Every list of permissions is checked by Scope against the compiled
-- manifest, the value `policy`. Native derives its scopes from the roles of one registered client;
-- Grants keeps the codes that carry a session into a native client. Session validates a session
-- against the records that UserStore keeps; UserStore.Revocation puts the two together.
--
-- How state and operations correspond: an operation of a Go service is a function by clauses of
-- the same name in snake case. The services that decide authority read, and change nothing
-- themselves, so the answers of a repository are functions of the request; a call that is made
-- twice with one argument has one answer. The role service and the store of Grants change what is
-- stored: their operations return it after them, and clock readings, random identifiers and faults
-- of the connection are arguments of the latter. A Go map that is only a set is a list; another
-- map is an association list with the last entry first. A nil pointer is `none`. Sorting is
-- insertion sort: on texts the result is determined by the members.
--
-- UserStore and TenantStore hold what Redis stores, and their operations return it after them. What
-- other clients write is an argument: a function of the state for every point between two commands,
-- and for each WATCH transaction whether a write of theirs makes EXEC fail. A stored string is what
-- json.Unmarshal makes of it; a document that json.Marshal wrote is read back as the same record.
-- Where Redis is not available every command fails. Stored token versions and revisions are not
-- negative. Where code tests a negative value first, as SetStatus does, that test is left out.
--
-- Loops are structural recursion, so no fuel is used; the retry loops of UserStore and TenantStore
-- make eight attempts, as the code does. Numbers are natural numbers that the code bounds by its
-- limits (500 permissions, 100 targets, 500 role lookups); none of them wraps.
--
-- The store of Grants makes three attempts to claim an identifier, as the code does.
--
-- Parameters: SHA-256 and JSON (Scope, Grants), base64 (Grants), Unicode tables and normal forms
-- (TenantName), the functions of strings and unicode that depend on Unicode tables (Targeting,
-- Identity), the JWT library (Session). Of the JWT library and strings.EqualFold, only
-- Session.Current.Issued assumes anything: that a token which was signed is read back, and that a
-- text is equal to itself. Of Redis, Grants assumes what GET answers after DEL and SETNX, as laws
-- of the interface.
--
-- Not modelled: groups, assignments and memberships, the client and role repositories, HTTP
-- controllers, SAML, storage STS, the AI gateway, CodeQ bindings, workload tokens, configuration,
-- command line tools and the metrics, which are mostly input and output or calls of third-party
-- libraries. Refused requests are errors of pkg/domain; their wrapping texts are left out.
pub mod Base
pub mod Domain
pub mod Scope
pub mod TenantName
pub mod Role
pub mod Authority
pub mod Access
pub mod Discovery
pub mod Targeting
pub mod Native
pub mod Grants
pub mod Identity
pub mod Session
pub mod UserStore
pub mod TenantStore
