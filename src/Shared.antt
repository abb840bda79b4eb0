-- ===== src/Shared.antt =====
-- frontend/src/components/shared: the components that stand alone. The command palette is a part of
-- its own.
pub mod CopyButton
pub mod DateRangePicker
pub mod ErrorBoundary
pub mod UserInitials
