-- ===== src/Lib.antt =====
-- The frontend of ETL Nexus: a React application over Zustand stores, an axios client with
-- interceptors, and queries against the backend.
--
-- The stores of frontend/src/stores hold the state that components share; the HTTP client of
-- frontend/src/api/client.ts reads and writes the auth store; hooks of frontend/src/hooks fetch
-- from the backend; components filter, group and edit what is fetched, and their effects write
-- selections and navigation back to the stores. A store or a component with state is a record here,
-- an action or a handler a function from state to state, an effect the function of one run, and
-- what users and the environment may do a step relation. Names are those of the source in snake
-- case.
--
--   Stores           frontend/src/stores, one file for each store: AuthStore (with
--                    frontend/src/types/auth.ts and frontend/src/lib/permissions.ts),
--                    DataProductStore, NavigationStore (with frontend/src/lib/constants.ts and the
--                    listener of frontend/src/App.tsx), OnboardingStore, ThemeStore,
--                    FavoritesStore, DateRangeStore, AppConfigStore, AiStore. LocalStorage is the
--                    interface of the browser's storage, whose every call may throw.
--   App              frontend/src/App.tsx: the command palette over the registry and the page of a
--                    product; a documentation from its editor, or a revision from its history,
--                    through the server, the queries that are invalidated and the next render; and
--                    a session that expires at the client, up to what the guard of Bootstrap shows.
--                    The server is a parameter.
--   Api              pipelines.ts, tables.ts, auth.ts and ai.ts of frontend/src/api and the calls that
--                    components make themselves, beside the routes of backend/app/routers.
--   Client           frontend/src/api/client.ts: a call is a loop over transmissions with the token
--                    renewal, the retries with backoff and the sign-out.
--   Bootstrap        frontend/src/components/auth and frontend/src/hooks/use-auth.ts: the settings
--                    fetched at the start, and who is shown the application.
--   Paging           frontend/src/hooks/use-data-products.ts: page after page of products.
--   Registry         frontend/src/components/data-products/DataProductRegistry.tsx: filters, groups
--                    and the effects that keep a selection; its SearchBox is DataProductSearch.tsx,
--                    its View what the list, DataProductFilters.tsx and DataProductListItem.tsx show.
--   Products         frontend/src/components/data-products/CreateDataProductModal.tsx and the edit
--                    modal of DataProductWorkspace.tsx beside it.
--   Catalog          frontend/src/components/tables/TablesView.tsx,
--                    frontend/src/components/data-products/TableSelect.tsx and
--                    frontend/src/types/table.ts.
--   Onboarding       frontend/src/components/onboarding: the tour over the onboarding store; its
--                    View is what the overlay shows of a step, its Spotlights what it highlights.
--   Assistant        frontend/src/components/ai-terminal and frontend/src/hooks/use-ai-chat.ts;
--                    its Requests are what frontend/src/api/ai.ts sends for a question.
--   EditableTitle, SchemaEditor
--                    the components of those subjects in frontend/src/components/bento-workspace.
--   Documentation    DocumentationPreview.tsx, DocumentationModal.tsx and MarkdownEditor.tsx there:
--                    the modal that shows and edits the documentation of a product; its Toolbar is
--                    documentation/doc-toolbar.tsx, its Code the code blocks of
--                    documentation/markdown-components.tsx.
--   Revisions        RevisionHistoryPanel.tsx there: the histories and the restoring of a revision.
--   Workspace        the page of a product: DataProductWorkspace.tsx of
--                    frontend/src/components/data-products without its edit modal, and BentoHeader.
--   Queries          the keys of the queries in frontend/src/hooks, and the keys that each mutation
--                    invalidates. How keys match is a parameter with the documented law.
--   CommandPalette   frontend/src/components/shared/CommandPalette.tsx.
--   Layout           the sidebar of frontend/src/components/layout, the content of
--                    frontend/src/App.tsx and frontend/src/components/auth/LoginPage.tsx.
--   Shared           the other components of frontend/src/components/shared: CopyButton,
--                    DateRangePicker, ErrorBoundary, UserInitials.
--   Diagrams         frontend/src/lib/export-visual.ts: the exports of a diagram (Downloads) and the
--                    decoding of data URLs. What html-to-image and atob answer are parameters.
--   Export           frontend/src/lib/export.ts: a CSV file, and a reader of such texts.
--   Format, StatusConfig
--                    frontend/src/lib/format.ts and frontend/src/lib/status-config.ts.
--   Common           lists, sets, sorting, grouping and texts that the others share.
--
-- Texts whose characters are looked at are lists of UTF-16 code units, all others the native
-- strings. Numbers are natural numbers; durations are thousandths of a second, dates milliseconds.
-- What is not in the repository is a parameter: the server, the OIDC provider, the storage, the
-- clock, JSON, and functions of JavaScript such as localeCompare, toFixed or toLocaleDateString.
--
-- Fuel: a call of the client has fuel for four transmissions, one for the call, one after a renewed
-- token and two for retries. Loading page after page has fuel for each product and one page more.
-- That both are enough is among the results.
--
-- Not modelled: markup, class names, focus and scrolling; the drawing of exported diagrams; the
-- rendering of Markdown; the internals of the query library, whose documented behaviour the
-- definitions of its clients write out; the Python backend, which the frontend sees as a server, but
-- for the list of its routes.
pub mod Api
pub mod App
pub mod Assistant
pub mod Bootstrap
pub mod Catalog
pub mod Client
pub mod CommandPalette
pub mod Common
pub mod Diagrams
pub mod Documentation
pub mod EditableTitle
pub mod Export
pub mod Format
pub mod Layout
pub mod Onboarding
pub mod Paging
pub mod Products
pub mod Queries
pub mod Registry
pub mod Revisions
pub mod SchemaEditor
pub mod Shared
pub mod StatusConfig
pub mod Stores
pub mod Workspace
