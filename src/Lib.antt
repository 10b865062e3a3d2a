-- ===== src/Lib.antt =====
-- Triton Control: the backend (triton-backend/app) of a console for Triton inference servers. This
-- library models account management, the exposure of deployed models, the checks of workflows, the
-- benchmark runs and the proxy of inferences, and proves what makes them correct.
--
-- Parts and files (paths are below triton-backend/app):
--   Prelude, Prelude/*   lists as tables, Python's `str`, `int` and dictionaries on native data
--   Errors               exceptions.py: exceptions as values, with their HTTP status
--   Env                  environment variables, hashes, random draws, templates and SMTP: parameters
--   Store/Data           db/entities.py: the rows, and the world that a request sees
--   Store/Session        a service call as a state transformer whose writes survive an exception
--   Store/Users          repositories/users.py
--   Store/Tokens         repositories/account_lifecycle.py
--   Store/Keeps          invariants of service calls, one rule for each combinator
--   Access               core/access_control.py
--   Identity             core/identity.py
--   RequestAuth          core/security.py
--   UserAdmin            services/users.py, mappers/user.py, services/access.py
--   Auth/Settings        services/auth/email_settings.py
--   Auth/Delivery        services/auth/email_delivery.py
--   Auth/Limits          the bounds of its environment variables
--   Auth/Password        schemas/user.py, core/crypto.py, core/user_auth.py, with Hashes
--   Auth/LocalAuth       services/auth/local_auth.py, services/auth/bootstrap.py
--   Auth/Lifecycle       services/auth/account_lifecycle.py: Core (tokens), Issue, Recovery and Redeem
--                        are the operations; Revocation, Issuance, Single, RateLimit and
--                        Redemption the proofs
--   Requests             the requests to account management in any order; Stable, Operations, Accounts
--                        and Reachable are the interface of an invariant, Keyed, Spent, ShutRows,
--                        SingleUse and Outdated what holds of all requests
--   Deployment/Hostname  services/deployment/hostname.py, with Conflicts and Wildcards
--   Deployment/Policy    services/deployment/policy.py, schemas/deployment_access.py,
--                        repositories/deployment_policy.py, with Naming
--   Deployment/Access    services/deployment/access.py, services/deployment/access_manifests.py: Manifests,
--                        Api (the Kubernetes client, a parameter), Reads and Update are the code; Views
--                        says what the client does, Triples reasons on steps, and Shapes, Writes,
--                        Leaves, Apply and Credentials are the proof
--   Json                 JSON documents with integer numbers
--   Workflows/Policy     services/workflows/tracking_policy.py; Occurrence says what a document holds,
--                        Entries and Soundness prove what is accepted, Ends and Depth that it ends
--   Workflows/Credentials  services/workflows/credentials.py: names of Secrets, with Names
--   Navigation           services/development/navigation.py, with History
--   PerfJobs/Runs        repositories/perf_jobs.py and the rows of services/perf_analyzer/jobs.py
--   PerfJobs/Passes      the reconciler of services/perf_analyzer/jobs.py; Transitions, History and
--                        Exclusive are the proofs
--   PerfJobs/Payload     services/perf_analyzer/commands.py: input data; Inputs is the proof
--   Inference            services/triton/models.py, services/triton/config.py: Generate, Triton and Proxy
--                        are the code, Defaults, Costs, Sent, Relay, Failures and Refusals the
--                        proofs; Snapshot is services/triton/repository_snapshot.py, with Stored
--   Tests                a small world, and the theorems at concrete inputs
--
-- How they interact: the services of Auth and UserAdmin call the repositories of Store, which change
-- the world; RequestAuth turns the claims of a request into an account by Identity, and Access guards
-- the administrative calls. Requests puts all of these behind one step function. Deployment and
-- PerfJobs keep their state apart: a row of policy, a row for each run, and the cluster of the client,
-- which a change of exposure alters next to the table of instances.
--
-- State and errors: an operation takes the world and returns a result and the world that is left, for
-- an exception too, as each repository call commits. Times are microseconds; a call runs at one
-- instant. Random values are numbered draws of `Env`. Where a theorem needs that draws do not repeat,
-- or that ids and hashes are keys, it says so. The loops of the modelled code are structural
-- recursions, but for the patches in workflows, which may hold patches: their depth is the only fuel,
-- and is enough when it exceeds the length of the patches in the workflow.
--
-- Parameters: the standard library's hashing, base64, quoting, templates and classes of characters,
-- the SMTP exchange, the Ingress classes and Ingresses of the cluster, and what the Kubernetes calls
-- answer in one pass of the benchmark reconciler; what the HTTP calls of TritonService answer, the
-- difference that it makes of two counters, and whether a response can be encoded; whether the commit
-- of a reservation violates the index; `yaml.safe_load`, `json.loads`, `json.dumps`, bcrypt, `uuid4`;
-- and the calls of the Kubernetes client that change an exposure, of which `Behaves` states the
-- documented behaviour: a read changes nothing, a call that fails may have been carried out unless it
-- was definitively rejected, and no one else changes the objects of the deployment meanwhile. Numbers
-- in JSON are integers. `lower` and `upper` change ASCII letters only, but in the order of snapshots,
-- where `str.lower` is a parameter.
--
-- Not modelled: the routers, the web interface, the Kubernetes, Triton, MLflow, Argo, S3 and OIDC
-- clients, the proxies of web interfaces, JWT encoding, the editing of email settings, and the
-- manifests of workloads, which are input and output or the work of libraries. Of a benchmark run, the
-- copy of its result to the table of latest results and its command line are left out; of
-- services/triton/models.py the listing, loading and unloading of models.
pub mod Prelude
pub mod Errors
pub mod Env
pub mod Store
pub mod Access
pub mod Identity
pub mod Auth
pub mod UserAdmin
pub mod RequestAuth
pub mod Requests
pub mod Json
pub mod Navigation
pub mod Workflows
pub mod Deployment
pub mod PerfJobs
pub mod Inference
pub mod Tests
