-- ===== src/Governance/Tests.antt =====
-- The gate and the scope at concrete inputs.
use decode.Prelude.{
  ◌≡◌, ◌≢◌, refl, ◌⊎◌, String, true, false, Option, none, some, List, [], ◌∷◌, is_empty, str_eq,
  if◌then◌else◌,
}
use decode.Governance.Types.{
  PermissionMode, plan, ask, auto, AuditLog, allow, needs_approval, write, resolve_mode_decision,
}
use decode.Governance.Scope.{
  IpAddress, IpNetwork, NetParsers, ScopePolicy, add, scope_policy, is_in_scope, extract_host,
}
use decode.Governance.Scope.Laws.{Listed, is_in_scope-Listed, is_in_scope-subnet}
use decode.Governance.Gate.{GovernanceGate, GateEnv, evaluate, effective_risk}
use decode.Governance.Gate.Laws.{
  Accounted, IsAdmissible, evaluate-Accounted, evaluate_allow, evaluate_needs_approval,
  evaluate-resolve_mode_decision, decision_of,
}

-- parsers that read one address and one network
abbrev net : NetParsers
net = record {
  ip_address = λ s. if str_eq s "10.0.0.5" then some (record { version = 4; value = 5 }) else none;
  ip_network = λ s.
      if str_eq s "10.0.0.0/24" then some (record { version = 4; first = 0; last = 255 }) else none;
  hostname = λ s. none;
}

abbrev lab : ScopePolicy
lab = record {
  allow_all = false;
  networks = record { version = 4; first = 0; last = 255 } ∷ [];
  hosts = [];
  domains = [];
}

abbrev env : GateEnv
env = record { net = net; writable = λ n. true; redact = λ s. s }

abbrev gate : PermissionMode → GovernanceGate
gate mode = record { scope = lab; allow_destructive = true; mode = mode }

abbrev log : AuditLog
log = record { events = []; calls = 0 }

address_in_scope : is_in_scope net lab "10.0.0.5" ≡ some true
unfolding is_in_scope extract_host decode.Prelude.Text.strip decode.Prelude.Text.has_part
    decode.Prelude.Text.count_char decode.Governance.Scope.in_network
    decode.Prelude.Text.starts_with
address_in_scope = refl

network_in_scope : is_in_scope net lab "10.0.0.0/24" ≡ some true
unfolding is_in_scope extract_host decode.Prelude.Text.strip decode.Prelude.Text.has_part
    decode.Prelude.Text.count_char decode.Governance.Scope.subnet_of decode.Prelude.Text.starts_with
network_in_scope = refl

is_in_scope-Listed_example :
    (host : String) × (extract_host net "10.0.0.5" ≡ some host)
    × (is_empty host ≡ false)
    × Listed net lab host
is_in_scope-Listed_example = is_in_scope-Listed net lab "10.0.0.5" refl address_in_scope

host_of_network : extract_host net "10.0.0.0/24" ≡ some "10.0.0.0/24"
unfolding extract_host decode.Prelude.Text.strip decode.Prelude.Text.has_part
    decode.Prelude.Text.count_char decode.Prelude.Text.starts_with
host_of_network = refl

host_of_address : extract_host net "10.0.0.5" ≡ some "10.0.0.5"
unfolding extract_host decode.Prelude.Text.strip decode.Prelude.Text.has_part
    decode.Prelude.Text.count_char decode.Prelude.Text.starts_with
host_of_address = refl

is_in_scope-subnet_example : is_in_scope net lab "10.0.0.5" ≡ some true
unfolding decode.Governance.Scope.in_network
is_in_scope-subnet_example =
    is_in_scope-subnet net lab "10.0.0.0/24" "10.0.0.5" "10.0.0.0/24" "10.0.0.5"
      (record { version = 4; first = 0; last = 255 }) (record { version = 4; value = 5 })
      host_of_network refl refl host_of_address refl refl refl network_in_scope

evaluate-Accounted_example :
    Accounted (λ s. s) "scan" log (evaluate env (gate plan) "scan" "10.0.0.5" "write" true log)
evaluate-Accounted_example = evaluate-Accounted env (gate plan) "scan" "10.0.0.5" "write" true log

auto_allows : decision_of (evaluate env (gate auto) "scan" "10.0.0.5" "write" true log) ≡ allow
unfolding evaluate decode.Governance.Gate.evaluate_risk decode.Governance.Gate.out_of_scope
    is_in_scope extract_host decode.Prelude.Text.strip decode.Prelude.Text.upper
    decode.Prelude.Text.has_part decode.Prelude.Text.count_char decode.Governance.Scope.in_network
    decode.Prelude.Text.starts_with
auto_allows = refl

evaluate_allow_example :
    IsAdmissible env (gate auto) "scan" "10.0.0.5" "write" true log
    × (auto ≢ plan)
    × ((effective_risk "write" ≡ "READ")
        ⊎ ((auto ≡ auto) × (effective_risk "write" ≢ "DESTRUCTIVE")))
evaluate_allow_example =
    evaluate_allow env (gate auto) "scan" "10.0.0.5" "write" true log auto_allows

ask_asks :
    decision_of (evaluate env (gate ask) "wipe" "10.0.0.5" "destructive" true log) ≡ needs_approval
unfolding evaluate decode.Governance.Gate.evaluate_risk decode.Governance.Gate.out_of_scope
    is_in_scope extract_host decode.Prelude.Text.strip decode.Prelude.Text.upper
    decode.Prelude.Text.has_part decode.Prelude.Text.count_char decode.Governance.Scope.in_network
    decode.Prelude.Text.starts_with
ask_asks = refl

evaluate_needs_approval_example :
    IsAdmissible env (gate ask) "wipe" "10.0.0.5" "destructive" true log
    × (ask ≢ plan)
    × (effective_risk "destructive" ≢ "READ")
    × ((effective_risk "destructive" ≢ "DESTRUCTIVE") ⊎ (true ≡ true))
evaluate_needs_approval_example =
    evaluate_needs_approval env (gate ask) "wipe" "10.0.0.5" "destructive" true log ask_asks

evaluate-resolve_mode_decision_example :
    decision_of (evaluate env (gate auto) "scan" "10.0.0.5" "WRITE" true log) ≡ allow
unfolding resolve_mode_decision decode.Prelude.Text.strip
evaluate-resolve_mode_decision_example =
    evaluate-resolve_mode_decision env (gate auto) "scan" "10.0.0.5" write true log refl refl
      address_in_scope refl
