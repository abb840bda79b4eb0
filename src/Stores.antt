-- ===== src/Stores.antt =====
-- The Zustand stores of frontend/src/stores: each is a record, and each action a function from the
-- state to the next. A store file here has the state and the actions; its children have the laws.
pub mod AuthStore
pub mod AiStore
pub mod AppConfigStore
pub mod DataProductStore
pub mod DateRangeStore
pub mod FavoritesStore
pub mod LocalStorage
pub mod NavigationStore
pub mod OnboardingStore
pub mod ThemeStore
