-- ===== src/Tests/Exposure.antt =====
-- Benchmark runs and hostnames at concrete inputs.
use triton_control.Prelude.{
  has_char, lower, rstrip_by, ◌≡◌, refl, String, true, false, Option, none, some, List, [], ◌∷◌,
  ◌==◌, if◌then◌else◌,
}
use triton_control.Errors.{ok}
use triton_control.PerfJobs.Runs.{
  reserve, committed, creating, running, succeeded, Run, Job, Pod, Cluster, unavailable, stop_run,
}
use triton_control.PerfJobs.Passes.{reconcile, Event, passes, stops, history}
use triton_control.PerfJobs.Transitions.{Step, reconcile-Step}
use triton_control.PerfJobs.History.{Ending, history-final, history-Ending}
use triton_control.PerfJobs.Exclusive.{Exclusive, Reserved, reserve-Reserved}
use triton_control.Deployment.Wildcards.{Shared, hosts_overlap-Shared}
use triton_control.Deployment.Hostname.{
  hosts_overlap, dns_name, drop_suffix, wildcard_suffix, ClassLookup, Ingress, found, missing,
  check_each,
}
use triton_control.Deployment.Conflicts.{first_conflict, check_each-eq}
use triton_control.Deployment.Policy.{DeploymentAccessRequest, resolve_hostname}
use triton_control.Deployment.Naming.{Resolved, resolve_hostname-Resolved}
use triton_control.Tests.{test_env}

abbrev job : Job
job = record {
  uid = "uid";
  is_deleting = false;
  suspend = false;
  is_complete = true;
  failure = none;
}

abbrev finished : Pod
finished = record { phase = "Succeeded"; exit_codes = 0 ∷ [] }

abbrev cluster : Cluster
cluster = record {
  read = ok (some job);
  pods = ok (finished ∷ []);
  logs = ok (record { output = "p99"; warning = "" });
  create = unavailable "500";
  delete_job = ok tt;
  resume = ok tt;
  cleanup = ok true;
  pod_message = "Waiting for benchmark pod.";
  deadline = 3600;
}

abbrev benchmark : Run
benchmark = record {
  id = "run";
  instance_id = 1;
  model_name = "model";
  model_version = "1";
  job_uid = some "uid";
  state = running;
  message = "Benchmark running.";
  prepared = true;
  stop_output_saved = false;
  cleaned = false;
  output = "";
  exit_code = none;
  created_at = 0;
  started_at = some 0;
  finished_at = none;
}

abbrev events : List Event
events = passes cluster 10 ∷ stops ∷ passes cluster 20 ∷ []

reconcile-Step_example : Step running (reconcile cluster 10 benchmark).state
reconcile-Step_example = reconcile-Step cluster 10 benchmark

history-final_example : (history events (record benchmark { state = succeeded })).state ≡ succeeded
history-final_example = history-final events (record benchmark { state = succeeded }) refl

history-Ending_example : Ending (history events (stop_run benchmark)).state
history-Ending_example = history-Ending events benchmark refl

-- a finished run of the model, and a new one
abbrev rows : List Run
rows = record benchmark { state = succeeded } ∷ []

abbrev new_run : Run
new_run = record benchmark { id = "new"; state = creating }

no_conflict : Exclusive rows
no_conflict = (λ a. tt, tt)

reserve-Reserved_example :
    Reserved (some false) committed new_run rows (reserve (some false) committed new_run rows)
reserve-Reserved_example = reserve-Reserved (some false) committed new_run rows no_conflict

-- the classes of a cluster with two controllers
abbrev classes : String → ClassLookup
classes c = if c == "nginx" then found "k8s.io/ingress-nginx" else missing

abbrev route : String → Option String → Ingress
route name class = record {
  namespace = "models";
  name = name;
  hosts = some "*.example.com" ∷ [];
  ingress_class_name = class;
  class_annotation = none;
}

abbrev routes : List Ingress
routes = route "a" (some "nginx") ∷ route "b" (some "nginx") ∷ route "c" none ∷ []

check_each-eq_example :
    check_each classes "llm.example.com" "traefik" none routes []
    ≡ first_conflict classes "llm.example.com" "traefik" none routes
check_each-eq_example = check_each-eq classes "llm.example.com" "traefik" none routes [] tt

overlapping : hosts_overlap "LLM.example.com" "*.example.com." ≡ true
unfolding hosts_overlap drop_suffix wildcard_suffix has_char lower rstrip_by
overlapping = refl

hosts_overlap-Shared_example : Shared (dns_name "LLM.example.com") (dns_name "*.example.com.")
hosts_overlap-Shared_example = hosts_overlap-Shared "LLM.example.com" "*.example.com." overlapping

abbrev entered : DeploymentAccessRequest
entered = record {
  access_mode = none;
  ingress_host = some "llm";
  ingress_scheme = none;
  basic_auth_enabled = false;
  basic_auth_username = none;
  basic_auth_password = none;
}

resolve_hostname-Resolved_example :
    Resolved "llm" (resolve_hostname entered (some "llm.example.com"))
resolve_hostname-Resolved_example =
    resolve_hostname-Resolved entered "llm" refl (some "llm.example.com") refl
