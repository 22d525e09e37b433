-- ===== src/Infra.antt =====
-- What the processes are set up with: internal/infra/config, NewGormDB of
-- internal/apps/provider.go, and the loggers of internal/infra/gorm and internal/infra/logger.
pub mod Config
pub mod Once
pub mod Database
pub mod Opened
pub mod QueryLog
pub mod Logged
