-- ===== src/K8s.antt =====
-- internal/auth/k8s and internal/auth/k8sgate.go: the read-only gate for the Kubernetes API.
-- A request is classified as kube-apiserver does it and then held against a ClusterRole.
pub mod Request
pub mod Classify
pub mod Policy
pub mod Rbac
pub mod Methods
pub mod Paths
mod Tests
