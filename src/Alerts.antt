-- ===== src/Alerts.antt =====
-- The alerts queue: web/src/hooks/useAlerts.ts, web/src/routes/_authed/alerts.tsx and
-- web/src/components/AlertsQueue.
pub mod Sorting
pub mod Queue
pub mod Filter
pub mod Polling
pub mod Search
pub mod Keyboard
pub mod Ranges
pub mod Chips
pub mod Page
pub mod Results
