-- ===== src/Domain/Workloads.antt =====
-- pkg/domain/workload_identity.go: DNS labels and the subjects of Kubernetes service accounts.
use tikti.Base.{
  ltb, leb, ◌==◌, if◌then◌else◌, length, all, Text, codes, has_prefix, ℕ, Bool, false, not, ◌&&◌,
  ◌||◌, Option, none, some, List, [], ◌∷◌, ◌++◌, trim_space,
}
use tikti.Scope.{contains_byte}
use tikti.Role.{first_byte, last_byte}

-- strings.Split by one byte; `current` is the part before the next separator.
unfoldable pub split_on : ℕ → Text → Text → List Text
split_on separator current [] = current ∷ []
split_on separator current (c ∷ rest) =
    let closed = split_on separator [] rest in
    let longer = split_on separator (current ++ c ∷ []) rest in
    if c == separator then current ∷ closed else longer

abbrev pub label_ends : Text
label_ends = codes "abcdefghijklmnopqrstuvwxyz0123456789"

-- ^[a-z0-9](?:[-a-z0-9]*[a-z0-9])?$, of 1 to 63 bytes
unfoldable pub valid_dns_label : Text → Bool
unfolding contains_byte first_byte last_byte
valid_dns_label value =
    leb 1 (length value)
    && leb (length value) 63
    && contains_byte label_ends (first_byte value)
    && contains_byte label_ends (last_byte value)
    && all (contains_byte (b'-' ∷ label_ends)) value

unfoldable pub valid_dns_subdomain : Text → Bool
unfolding valid_dns_label split_on
valid_dns_subdomain value =
    if ltb (length value) 1 || ltb 253 (length value)
    then false
    else all valid_dns_label (split_on b'.' [] value)

abbrev pub workload_subject_prefix : Text
workload_subject_prefix = codes "system:serviceaccount:"

-- strings.TrimPrefix, where the prefix is there
unfoldable pub drop_prefix : Text → Text → Text
drop_prefix [] s = s
drop_prefix (p ∷ ps) [] = []
drop_prefix (p ∷ ps) (c ∷ s) = drop_prefix ps s

pub record WorkloadSubject : Type 0 where
  pub subject : Text
  pub namespace : Text
  pub service_account : Text

unfoldable pub workload_parts : Text → List Text → Option WorkloadSubject
unfolding valid_dns_label valid_dns_subdomain
workload_parts subject (namespace ∷ account ∷ []) =
    if not (valid_dns_label namespace) || not (valid_dns_subdomain account)
    then none
    else some (record { subject = subject; namespace = namespace; service_account = account })
workload_parts subject _ = none

-- ParseWorkloadSubject
unfoldable pub parse_workload_subject : Text → Option WorkloadSubject
unfolding workload_parts drop_prefix split_on
parse_workload_subject raw =
    let subject = trim_space raw in
    if not (has_prefix subject workload_subject_prefix)
    then none
    else workload_parts subject (split_on b':' [] (drop_prefix workload_subject_prefix subject))
