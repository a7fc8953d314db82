-- ===== src/Frontend/Tour/Laws.antt =====
-- The steps of the visits that trade, page by page.
use easytrade.Base.{arith, ◌≡◌, refl, true, not, some}
use easytrade.Base.{string_eq, nat_eq, sym}
use easytrade.Loadgen.Browser.{Browser, Call, Selector, perform, click, navigate}
use easytrade.Loadgen.Browser.Within.{within_rules}
use easytrade.Loadgen.Numbers.{Floats}
use easytrade.Loadgen.User.{User}
use easytrade.Loadgen.Selectors
use easytrade.Loadgen.Helpers.{goto_page_with_nav_bar, show_navbar, toggle_if, is_present}
use easytrade.Loadgen.Helpers.{deposit, withdraw, fill_user_deposit_data, fill_user_withdraw_data}
use easytrade.Loadgen.Helpers.{fill_card_data, select_card_provider}
use easytrade.Frontend.Forms.Views.{deposit_view, withdraw_view}
use easytrade.Frontend.Forms.Views.Rendering.{Rendering}
use easytrade.Frontend.Forms.Views.Scripts.{deposit-Within, withdraw-Within}
use easytrade.Frontend.Shell.{navigation_items}
use easytrade.Frontend.Tour.{TourPage, Inner, inside, home, deposit_page, withdraw_page}
use easytrade.Frontend.Tour.{credit_card_page, instruments_page, instrument_page, linked, next}
use easytrade.Frontend.Tour.{form_at, meets, has_around}
use easytrade.Frontend.Tour.Rules.{Tours, pure-Tours, bind-Tours, seq-Tours, perform-Tours}
use easytrade.Frontend.Tour.Rules.{query-Tours, if-Tours}
use easytrade.Frontend.Tour.Forms.{form-Tours}

toggler_stays :
    (H : Type 0) (p : Inner)
    → next {H = H} (inside p) (click Selectors.navigation_sidebar_toggler) ≡ inside p
unfolding next string_eq
toggler_stays H home = refl
toggler_stays H deposit_page = refl
toggler_stays H withdraw_page = refl
toggler_stays H credit_card_page = refl
toggler_stays H instruments_page = refl
toggler_stays H (instrument_page form_id) = refl

module _ {S H E : Type 0} {r : Rendering} (b : Browser S H E) where
  -- A call that leads to a given page.
  pub perform-at :
      {p : TourPage} (q : TourPage) (c : Call H)
      → meets r p c ≡ true
      → next p c ≡ q
      → Tours r p q (perform b c)
  perform-at {p} q c found to = rw (sym to) (perform-Tours p b c found)

  show_navbar-Tours : (p : Inner) → Tours r (inside p) (inside p) (show_navbar b)
  unfolding show_navbar toggle_if is_present meets has_around next string_eq
  show_navbar-Tours p = seq-Tours _ _ (perform-Tours (inside p) b _ refl) (
      bind-Tours _ _ (query-Tours (inside p) _ _ refl) (λ shown.
        if-Tours (not shown) _ _
          (seq-Tours _ _ (perform-at (inside p) _ refl (toggler_stays H p))
            (perform-Tours (inside p) b _ refl))
          (pure-Tours (inside p) tt)))

  -- From every page, a link of the navigation leads to its page.
  pub nav-Tours :
      (p q : Inner) (sel : Selector)
      → linked navigation_items sel.xpath ≡ some q
      → Tours r (inside p) (inside q) (goto_page_with_nav_bar b sel)
  unfolding goto_page_with_nav_bar meets has_around next
  nav-Tours p q sel link = seq-Tours _ _ (show_navbar-Tours p) (
      seq-Tours _ _ (perform-at (inside q) (navigate sel) (rw link refl) (ground (arith, link)))
        (perform-Tours (inside q) b _ refl))

  pub deposit-Tours :
      {N : Type 0} (n : Floats N) (user : User) (value : N)
      → Tours r (inside deposit_page) (inside deposit_page) (deposit b n user value)
  unfolding deposit fill_user_deposit_data fill_card_data select_card_provider form_at
  deposit-Tours n user value =
      form-Tours r (inside deposit_page) deposit_view _ refl (deposit-Within r b n user value)
        (search within_rules depth 30)

  pub withdraw-Tours :
      {N : Type 0} (n : Floats N) (user : User) (value : N)
      → Tours r (inside withdraw_page) (inside withdraw_page) (withdraw b n user value)
  unfolding withdraw fill_user_withdraw_data fill_card_data select_card_provider form_at
  withdraw-Tours n user value =
      form-Tours r (inside withdraw_page) withdraw_view _ refl (withdraw-Within r b n user value)
        (search within_rules depth 30)
