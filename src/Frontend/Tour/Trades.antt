-- ===== src/Frontend/Tour/Trades.antt =====
-- The steps of the visits on the pages of the instruments.
use easytrade.Base.{ℕ, ◌≡◌, refl, String, Option, none, some}
use easytrade.Base.{string_eq, nat_eq}
use easytrade.Loadgen.Browser.{Browser, Selector}
use easytrade.Loadgen.Browser.{get_property}
use easytrade.Loadgen.Numbers.{Floats}
use easytrade.Loadgen.Selectors
use easytrade.Loadgen.Helpers.Instruments.{goto_instruments_page, goto_instrument_page}
use easytrade.Loadgen.Helpers.Instruments.{wait_for_instruments, all_handles, get_random_instrument}
use easytrade.Loadgen.Helpers.Instruments.{get_random_owned_instrument, open_card}
use easytrade.Loadgen.Helpers.Instruments.{goto_random_instrument, goto_random_owned_instrument}
use easytrade.Loadgen.Helpers.Instruments.{select_quick_buy, select_quick_sell, select_buy}
use easytrade.Loadgen.Helpers.Instruments.{select_sell, get_instrument_name, value_of}
use easytrade.Loadgen.Helpers.Instruments.{get_instrument_price, get_current_balance}
use easytrade.Loadgen.Helpers.Instruments.{get_instrument_possessed_amount}
use easytrade.Frontend.Forms.Views.{number, Field, FormView, quick_buy_view, quick_sell_view}
use easytrade.Frontend.Forms.Views.{buy_view, sell_view}
use easytrade.Frontend.Forms.Views.Rendering.{At, here, there, Rendering, by_id}
use easytrade.Frontend.Instrument.{FormId, quick_buy, quick_sell, buy, sell, panel}
use easytrade.Frontend.Tour.{Inner, inside, instruments_page, instrument_page, next, form_at, meets}
use easytrade.Frontend.Tour.{has_around, has_inside}
use easytrade.Frontend.Tour.Rules.{Tours, pure-Tours, throw-Tours, bind-Tours, seq-Tours}
use easytrade.Frontend.Tour.Rules.{perform-Tours, query-Tours}
use easytrade.Frontend.Tour.Laws.{nav-Tours}

-- A number's field of a form, which may be read-only.
abbrev HasNumber : String → FormView → Type 0
HasNumber id view = (f : Field) × At f view.fields × (f.kind ≡ number) × (f.id ≡ some id)

price_field : (form_id : FormId) → HasNumber "price" (panel form_id)
unfolding panel quick_buy_view quick_sell_view buy_view sell_view
price_field quick_buy = (_, there here, refl, refl)
price_field quick_sell = (_, there here, refl, refl)
price_field buy = (_, there here, refl, refl)
price_field sell = (_, there here, refl, refl)

module _ {S H E : Type 0} {r : Rendering} (b : Browser S H E) where
  open_card-Tours :
      (message : String) (card : Option H)
      → Tours r
          (inside instruments_page)
          (inside (instrument_page quick_buy))
          (open_card b message card)
  unfolding open_card goto_instrument_page meets has_around next
  open_card-Tours message none = throw-Tours _ _ message
  open_card-Tours message (some card) = perform-Tours (inside instruments_page) b _ refl

  pub random-Tours :
      (p : Inner) (pick : ℕ → ℕ)
      → Tours r (inside p) (inside (instrument_page quick_buy)) (goto_random_instrument b pick)
        × Tours r
            (inside p)
            (inside (instrument_page quick_buy))
            (goto_random_owned_instrument b pick)
  unfolding goto_random_instrument goto_random_owned_instrument goto_instruments_page
      get_random_instrument get_random_owned_instrument wait_for_instruments all_handles meets
      has_around next string_eq nat_eq
  random-Tours p pick = (
    seq-Tours _ _ (nav-Tours b p instruments_page _ refl) (
        bind-Tours _ _
          (bind-Tours _ _ (query-Tours (inside instruments_page) _ _ refl) (λ _.
            bind-Tours _ _ (query-Tours (inside instruments_page) _ _ refl)
              (λ cards. pure-Tours _ _)))
          (λ card. open_card-Tours _ card)),
    seq-Tours _ _ (nav-Tours b p instruments_page _ refl) (
        bind-Tours _ _
          (bind-Tours _ _ (query-Tours (inside instruments_page) _ _ refl) (λ _.
            bind-Tours _ _ (query-Tours (inside instruments_page) _ _ refl)
              (λ cards. pure-Tours _ _)))
          (λ card. open_card-Tours _ card)),
  )

  pub tabs-Tours :
      (f : FormId)
      → Tours r
          (inside (instrument_page f))
          (inside (instrument_page quick_buy))
          (select_quick_buy b)
        × Tours r
            (inside (instrument_page f))
            (inside (instrument_page quick_sell))
            (select_quick_sell b)
        × Tours r (inside (instrument_page f)) (inside (instrument_page buy)) (select_buy b)
        × Tours r (inside (instrument_page f)) (inside (instrument_page sell)) (select_sell b)
  unfolding select_quick_buy select_quick_sell select_buy select_sell meets has_around next
      string_eq
  tabs-Tours f = (
    perform-Tours (inside (instrument_page f)) b _ refl,
    perform-Tours (inside (instrument_page f)) b _ refl,
    perform-Tours (inside (instrument_page f)) b _ refl,
    perform-Tours (inside (instrument_page f)) b _ refl,
  )

  pub name-Tours :
      (f : FormId)
      → Tours r (inside (instrument_page f)) (inside (instrument_page f)) (get_instrument_name b)
  unfolding get_instrument_name meets has_around next string_eq
  name-Tours f = query-Tours (inside (instrument_page f)) _ _ refl

  -- A number is read from a field of the form that is open.
  value-Tours :
      (f : FormId) (sel : Selector) (id : String)
      → sel.xpath ≡ by_id "input" id
      → HasNumber id (panel f)
      → Tours r (inside (instrument_page f)) (inside (instrument_page f)) (value_of b sel)
  unfolding value_of meets has_around has_inside form_at next
  value-Tours f sel id e (field, at, kind, same) =
      query-Tours (inside (instrument_page f)) (get_property sel "value") _
        (rw e (r.number_found (panel f) field id at kind same))

  module _ {N : Type 0} (n : Floats N) where
    pub price-Tours :
        (f : FormId)
        → Tours r
            (inside (instrument_page f))
            (inside (instrument_page f))
            (get_instrument_price b n)
    unfolding get_instrument_price
    price-Tours f =
        bind-Tours _ _
          (value-Tours f Selectors.instrument_page_price_input "price" refl (price_field f))
          (λ price. pure-Tours _ _)

    pub balance-Tours :
        Tours r
          (inside (instrument_page quick_buy))
          (inside (instrument_page quick_buy))
          (get_current_balance b n)
    unfolding get_current_balance panel quick_buy_view
    balance-Tours =
        bind-Tours _ _
          (value-Tours quick_buy Selectors.common_current_balance "currentBalance" refl
            (_, there (there here), refl, refl))
          (λ balance. pure-Tours _ _)

    pub possessed-Tours :
        Tours r
          (inside (instrument_page quick_sell))
          (inside (instrument_page quick_sell))
          (get_instrument_possessed_amount b n)
    unfolding get_instrument_possessed_amount panel quick_sell_view
    possessed-Tours =
        bind-Tours _ _
          (value-Tours quick_sell Selectors.instrument_page_possessed_amount "posessedAmount" refl
            (_, there (there here), refl, refl))
          (λ amount. pure-Tours _ _)
