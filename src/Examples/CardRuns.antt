-- ===== src/Examples/CardRuns.antt =====
-- The credit card pages and the page of the versions (src/frontend/src/pages) on concrete states.
use easytrade.Base.{◌≡◌, ◌↔◌, ◌++◌, String, true, false, none, some, List, [], ◌∷◌}
use easytrade.Base.{map, All, string_eq}
use easytrade.Base.Text.{codes}
use easytrade.Base.Result.{ok}
use easytrade.Loadgen.Selectors
use easytrade.Frontend.StatusDisplay.{initial_status}
use easytrade.Frontend.CardOrder.{OrderStatusEntry, OrderStatusHistoryResponse, card_delivered}
use easytrade.Frontend.CardOrder.{card_ordered, success, not_found, history_success}
use easytrade.Frontend.CardOrder.Pages.{open_location, credit_card_order, credit_card_active}
use easytrade.Frontend.CardOrder.Pages.{CardPage, click_revoke}
use easytrade.Frontend.CardOrder.Pages.Laws.{root, path_of, order_location, open_location_lem}
use easytrade.Frontend.CardOrder.Pages.Laws.{click_revoke_lem}
use easytrade.Frontend.CardOrder.Visit.{IsOn, Fits, steps-Fits}
use easytrade.Frontend.Forms.Views.{credit_card_view}
use easytrade.Frontend.Versions.{ServiceVersionData, services, get_all_versions}
use easytrade.Frontend.Versions.Page.{
  VersionRow, version_page, version_page_lem, row_name, all_quiet,
}
use easytrade.Examples.FrontendPages.{Cache, cache_client, cache_client-IsClient, full_cache}
use easytrade.Examples.FrontendPages.{only_engine}
use easytrade.Examples.LoadgenRuns.{browser, user, always}

abbrev delivered : OrderStatusEntry
delivered = record { status = card_delivered; order_id = "7"; timestamp = "now"; details = "" }

abbrev ordered_entry : OrderStatusEntry
ordered_entry = record delivered { status = card_ordered }

abbrev history : OrderStatusHistoryResponse
history = history_success "7" (ordered_entry ∷ [])

open_location_example :
    open_location (some (success delivered)) none (path_of order_location) ≡ credit_card_active
open_location_example = open_location_lem (some (success delivered)) none order_location

no_card-IsOn : IsOn (browser false) (open_location (some not_found) (some history) (path_of root))
unfolding credit_card_order credit_card_view string_eq
no_card-IsOn = rw (open_location_lem (some not_found) (some history) root) (
  always false Selectors.credit_card_page_order_id_display,
  always false Selectors.credit_card_page_revoke_card,
)

steps-Fits_example : Fits (browser false) user "Gold" (some not_found) (some history)
steps-Fits_example =
    steps-Fits (browser false) user "Gold" (some not_found) (some history) root no_card-IsOn

abbrev card_page : CardPage Cache
card_page = record { status = initial_status; cache = full_cache; requests = [] }

click_revoke_example :
    let after = click_revoke cache_client {E = String} codes "3" (ok tt) card_page in
    after.requests ≡ [] ++ (record { method = "DELETE"; url = codes "orders/" ++ codes "3" } ∷ [])
click_revoke_example =
    (click_revoke_lem {E = String} cache_client cache_client-IsClient codes "3" card_page).0.0

abbrev own_build : ServiceVersionData
own_build = record { build_version = "1"; build_date = ""; build_commit = "" }

version_page_example :
    (rows : List VersionRow) × (version_page own_build false (some (get_all_versions only_engine))
      ≡ some rows)
    × (map row_name rows ≡ "Frontend" ∷ map (λ s. s.service_name) services)
    × ((all_quiet rows ≡ true) ↔ All (λ s. only_engine s.version_url ≡ ok own_build) services)
version_page_example = version_page_lem own_build only_engine
