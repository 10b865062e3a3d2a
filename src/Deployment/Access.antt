-- ===== src/Deployment/Access.antt =====
-- services/deployment/access.py and services/deployment/access_manifests.py: exposing a deployed
-- model by an Ingress, with credentials in a Secret.
pub mod Manifests
pub mod Api
pub mod Reads
pub mod Update
pub mod Views
pub mod Triples
pub mod Shapes
pub mod Writes
pub mod Leaves
pub mod Apply
pub mod Credentials
