-- ===== src/App/Tests.antt =====
-- A product is opened from the palette, a documentation is saved and a session expires, at small
-- servers.
use etl_nexus.Common.{
  ℕ, ◌+◌, take, drop, length, Bool, true, false, String, List, [], ◌∷◌, Option, none, some, Text,
  codes, ◌≡◌, ◌≢◌, refl, eq_iff, false≢true, leb, has, sort, group_by,
}
use Prim.Native.String.{len}
use etl_nexus.Bootstrap.{initial_app, Oidc, Query, render}
use etl_nexus.Client.{Env, rejected, threw, Settled, fresh_config, request}
use etl_nexus.Stores.AuthStore.{AuthState, initial_auth, logout}
use etl_nexus.CommandPalette.{initial_palette}
use etl_nexus.Documentation.{DocState, edit}
use etl_nexus.Queries.Prefixes.{
  begins, same_part, begins-prefixes, begins-only_prefixes, same_part-same, same_part-equal,
}
use etl_nexus.Registry.{ListItem}
use etl_nexus.Stores.NavigationStore.{Navigation, data_products, initial_navigation}
use etl_nexus.Workspace.{ProductDetail, DetailQuery, fetched}
use etl_nexus.App.{ListOptions, list_shown, open_result, press_save}
use etl_nexus.App.Opening.{Lands, IsListed, open_result-Lands}
use etl_nexus.App.Browsing.{unfiltered, open_result-loaded}
use etl_nexus.Paging.{Page, load_all, all_items}
use etl_nexus.Paging.Complete.{Serves}
use etl_nexus.App.Expiry.{unsigned_screen, request_expired-render}
use etl_nexus.App.Saving.{AnswersUpdates, IsSaved, press_save-IsSaved}

abbrev by_length : String → String → Bool
by_length s t = leb (len s) (len t)

abbrev item : String → Option String → ListItem
item id team = record { id = id; name = id; description = none; schedule_type = none; team = team }

abbrev loaded : List ListItem
loaded = item "1" (some "bi") ∷ item "2" none ∷ []

abbrev bi_only : ListOptions
bi_only = record { teams = "bi" ∷ []; schedules = []; favorite_ids = [] }

abbrev at_ai : Navigation
at_ai = initial_navigation (codes "#ai")

abbrev chosen : String
chosen = "2"

two_ne : chosen ≢ ""
two_ne e = false≢true ((eq_iff "2" "").1 e)

-- the filter hides the product that was chosen
first_instead :
    (open_result by_length bi_only loaded chosen initial_palette at_ai).1.1 ≡ some (some "1")
unfolding open_result has sort group_by
first_instead = refl

open_result-Lands_example :
    let (closed, (there, left)) =
      open_result by_length bi_only loaded chosen initial_palette at_ai in
    ((closed.is_open ≡ false) × (there.active_tab ≡ data_products))
    × (Lands chosen (list_shown by_length bi_only loaded) left
        × (IsListed bi_only loaded chosen → left ≡ some (some chosen)))
open_result-Lands_example =
    open_result-Lands by_length bi_only loaded chosen initial_palette at_ai two_ne

-- The server keeps one documentation, and refuses an empty one.
abbrev keep : String → Text → Text → Option Text
keep id [] server = none
keep id (c ∷ text) server = some (c ∷ text)

abbrev with_text : Text → ProductDetail
with_text text = record {
  id = "7";
  name = "Sales";
  description = none;
  tables = [];
  documentation = some text;
  team = none;
  schedule_type = none;
  can_edit = true;
  default_import_snippet = "read";
}

abbrev detail : String → Text → DetailQuery
detail id server = fetched (with_text server)

keep-AnswersUpdates : AnswersUpdates keep detail
keep-AnswersUpdates id [] before after e = absurd (cc)
keep-AnswersUpdates id (c ∷ text) before after e = (with_text after, refl, cc)

abbrev old_text : Text
old_text = codes "old"

abbrev edited : DocState
edited = record {
  doc_open = true;
  active_tab = edit;
  edit_value = codes "new";
  cheatsheet_open = false;
}

press_save-IsSaved_example :
    IsSaved keep detail
      (begins same_part)
      "7"
      (with_text old_text)
      old_text
      (codes "new")
      (press_save keep detail (begins same_part) "7" (with_text old_text) old_text edited)
press_save-IsSaved_example =
    press_save-IsSaved keep detail (begins same_part) (begins-prefixes same_part same_part-same)
      (begins-only_prefixes same_part same_part-equal) "7" (with_text old_text) old_text edited
      keep-AnswersUpdates refl refl refl

-- Every answer is a 401, and the silent sign-in throws.
abbrev refusing : Env
refusing = record {
  respond = λ n config. rejected true (some 401);
  meanwhile = λ n s. s;
  signin = λ n. threw;
  during_signin = λ n s. s;
  during_signout = λ n s. s;
  random = λ n. record { numerator = 1; denominator = 2 };
}

abbrev signed_on : AuthState
signed_on = record initial_auth {
  is_authenticated = true;
  sso_enabled = true;
  oidc_signout = true;
  oidc_signin_silent = true;
}

abbrev refused_call : Settled
refused_call = record {
  response = rejected true (some 401);
  store = record signed_on { is_authenticated = false };
  log = record { sent = fresh_config (some "get") ∷ []; signins = 1; signouts = 1; delays = [] };
}

call_refused : request (λ name. name) refusing (some "get") signed_on ≡ some refused_call
unfolding request logout
call_refused = refl

abbrev provider : Oidc
provider = record { is_loading = false; is_authenticated = true; access_token = some "old" }

abbrev no_user : String → Query
no_user token = record { is_loading = false; is_error = true; user = none }

request_expired-render_example :
    (refused_call.response ≡ rejected true (some 401))
    × (render provider no_user (record initial_app { loading = false; auth = refused_call.store })
        ≡ unsigned_screen provider)
request_expired-render_example =
    request_expired-render (λ name. name) refusing (some "get") signed_on refused_call provider
      no_user (record initial_app { loading = false }) refl refl refl tt call_refused
      (λ left out. out) refl refl

-- a server that answers with the slices of what is loaded
abbrev slices : ℕ → ℕ → Page ListItem
slices skip limit = record { items = take limit (drop skip loaded); total = length loaded }

slices-Serves : Serves loaded slices
slices-Serves = record { items = λ skip limit. refl; total = λ skip limit. refl }

open_result-loaded_example :
    (pages : List (Page ListItem)) × (load_all slices (length loaded + 1) ≡ some pages)
    × ((open_result by_length (unfiltered []) (all_items pages) chosen initial_palette at_ai).1.1
        ≡ some (some chosen))
open_result-loaded_example =
    open_result-loaded by_length [] loaded slices chosen initial_palette at_ai slices-Serves two_ne
      refl
