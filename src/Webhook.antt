-- ===== src/Webhook.antt =====
-- internal/webhook/pod_webhook.go: the mutating webhook for pods.
pub mod Names
pub mod Inject
pub mod Handle
