-- ===== src/Azure/Tests.antt =====
-- Runs of the Azure gate with a small catalog, and its theorems at concrete inputs.
use cynative.Base.{String, Str, codes, ◌≡◌, refl, ◌↔◌, true, List, [], ◌∷◌, some, to_upper, ok, err}
use cynative.Authreq.View.{View}
use cynative.Azure.Path.{Action, unresolved, structural_miss, verb_read, mk}
use cynative.Azure.Types.{resolve_resource_type}
use cynative.Azure.Classifier.{Catalog, action_of, derive_action}
use cynative.Azure.Roles.{RolePermissions, match_pattern, allowed}
use cynative.Azure.Verbs.{IsDerived, derive_action-IsDerived}
use cynative.Azure.Walking.{IsResolved, resolve_resource_type-IsResolved}
use cynative.Azure.Patterns.{Globs, match_pattern_iff}

abbrev vm_types : List Str
vm_types = codes "virtualMachines" ∷ codes "virtualMachines/extensions" ∷ []

abbrev small : Catalog
small = record {
  resource_types = λ namespace. some vm_types;
  lookup_operation = λ namespace type_path token. some (token ∷ to_upper token ∷ []);
}

abbrev sent : String → String → View
sent method path = record {
  method = codes method;
  hostname = codes "management.azure.com";
  port = [];
  path = codes path;
  escaped_path = codes path;
  raw_query = [];
  body = [];
}

abbrev get_vm : View
get_vm = sent "get" "/subscriptions/1/providers/Microsoft.Compute/VirtualMachines/web"

abbrev compute : Str
compute = codes "Microsoft.Compute"

runs :
    (derive_action small get_vm ≡ ok (mk compute (codes "VirtualMachines") verb_read))
    × (derive_action small (sent "POST" "/providers/Microsoft.Compute/virtualMachines/web/start")
        ≡ ok (action_of compute (codes "virtualMachines") (codes "start")))
    × (derive_action small (sent "GET" "/providers/Microsoft.Compute/virtualMachines/web/secrets")
        ≡ err (structural_miss compute))
    × (derive_action small (sent "GET" "/subscriptions/1/providers")
        ≡ ok (mk (codes "Microsoft.Resources") (codes "subscriptions/providers") verb_read))
    × (derive_action small (sent "GET" "/subscriptions/a%2fb") ≡ err unresolved)
unfolding derive_action action_of mk
runs = (refl, refl, refl, refl, refl)

abbrev reader : RolePermissions
reader = record { actions = codes "*/read" ∷ []; not_actions = codes "Microsoft.Secrets/*" ∷ [] }

abbrev vm_read : Action
vm_read = record {
  namespace = compute;
  resource_type = codes "VirtualMachines";
  verb = verb_read;
  full = codes "Microsoft.Compute/VirtualMachines/READ";
}

reads : allowed reader vm_read ≡ true
unfolding allowed
reads = refl

get_vm-derived : derive_action small get_vm ≡ ok (mk compute (codes "VirtualMachines") verb_read)
unfolding derive_action mk
get_vm-derived = refl

derive_action-IsDerived_example :
    IsDerived (to_upper (codes "get")) (mk compute (codes "VirtualMachines") verb_read)
derive_action-IsDerived_example =
    derive_action-IsDerived small get_vm (mk compute (codes "VirtualMachines") verb_read)
      get_vm-derived

abbrev vm_segs : List Str
vm_segs = codes "providers" ∷ compute ∷ codes "virtualMachines" ∷ codes "web" ∷ []

abbrev extension : List Str
extension = codes "virtualMachines" ∷ codes "web" ∷ codes "extensions" ∷ codes "e" ∷ []

resolve_resource_type-IsResolved_example :
    IsResolved (codes "GET") vm_types extension (codes "virtualMachines/extensions")
unfolding resolve_resource_type
resolve_resource_type-IsResolved_example =
    resolve_resource_type-IsResolved (codes "GET") compute vm_types extension
      (codes "virtualMachines/extensions") (codes "extensions") refl

match_pattern_iff_example :
    (match_pattern (codes "*/read") vm_read.full ≡ true) ↔ Globs (codes "*/read") vm_read.full
match_pattern_iff_example = match_pattern_iff (codes "*/read") vm_read.full
