-- ===== src/Frontend/Tour/Visits.antt =====
-- The visits that trade (src/loadgen/src/visits) on the pages of the frontend.
use easytrade.Base.{ℕ, refl, string_eq, nat_eq}
use easytrade.Loadgen.Browser.{Browser}
use easytrade.Loadgen.Browser.Within.{within_rules}
use easytrade.Loadgen.Numbers.{Floats}
use easytrade.Loadgen.User.{User}
use easytrade.Loadgen.Calculators.{BuyOptions, SellOptions, Deal}
use easytrade.Loadgen.Helpers.{goto_deposit_page, goto_withdraw_page, goto_credit_card_page}
use easytrade.Loadgen.Helpers.Instruments.{trade, schedule_transaction}
use easytrade.Loadgen.Visits.{
  deposit_and_buy_steps, deposit_and_long_buy_steps, long_sell_steps, sell_and_withdraw_steps,
}
use easytrade.Frontend.Forms.Views.{quick_buy_view, quick_sell_view, buy_view, sell_view}
use easytrade.Frontend.Forms.Views.Rendering.{here, there, Rendering}
use easytrade.Frontend.Forms.Views.Scripts.{trade-Within, schedule_transaction-Within}
use easytrade.Frontend.Instrument.{quick_buy, quick_sell, buy, sell, panel}
use easytrade.Frontend.Tour.{Inner, inside, deposit_page, withdraw_page, credit_card_page}
use easytrade.Frontend.Tour.{instrument_page, form_at}
use easytrade.Frontend.Tour.Rules.{Tours, bind-Tours, seq-Tours}
use easytrade.Frontend.Tour.Forms.{form-Tours}
use easytrade.Frontend.Tour.Laws.{nav-Tours, deposit-Tours, withdraw-Tours}
use easytrade.Frontend.Tour.Trades.{
  random-Tours, tabs-Tours, name-Tours, price-Tours, balance-Tours, possessed-Tours,
}

module _ {S H E : Type 0} (r : Rendering) (b : Browser S H E) where
  goto-Tours :
      (p : Inner)
      → Tours r (inside p) (inside deposit_page) (goto_deposit_page b)
        × Tours r (inside p) (inside withdraw_page) (goto_withdraw_page b)
        × Tours r (inside p) (inside credit_card_page) (goto_credit_card_page b)
  unfolding goto_deposit_page goto_withdraw_page goto_credit_card_page string_eq nat_eq
  goto-Tours p = (nav-Tours b p _ _ refl, nav-Tours b p _ _ refl, nav-Tours b p _ _ refl)

  module _ {N : Type 0} (n : Floats N) where
    trade-Tours :
        (amount : N)
        → Tours r
            (inside (instrument_page quick_buy))
            (inside (instrument_page quick_buy))
            (trade b n amount)
          × Tours r
              (inside (instrument_page quick_sell))
              (inside (instrument_page quick_sell))
              (trade b n amount)
    unfolding trade form_at panel quick_buy_view quick_sell_view string_eq
    trade-Tours amount = (
      form-Tours r (inside (instrument_page quick_buy)) quick_buy_view _ refl
          (trade-Within r b n amount quick_buy_view (_, here, refl, refl, refl) refl)
          (search within_rules depth 20),
      form-Tours r (inside (instrument_page quick_sell)) quick_sell_view _ refl
          (trade-Within r b n amount quick_sell_view (_, here, refl, refl, refl) refl)
          (search within_rules depth 20),
    )

    schedule-Tours :
        (price duration amount : N)
        → Tours r
            (inside (instrument_page buy))
            (inside (instrument_page buy))
            (schedule_transaction b n price duration amount)
          × Tours r
              (inside (instrument_page sell))
              (inside (instrument_page sell))
              (schedule_transaction b n price duration amount)
    unfolding schedule_transaction form_at panel buy_view sell_view string_eq
    schedule-Tours price duration amount = (
      form-Tours r (inside (instrument_page buy)) buy_view _ refl
          (schedule_transaction-Within r b n price duration amount buy_view
            (_, here, refl, refl, refl) (_, there here, refl, refl, refl)
            (_, there (there here), refl, refl, refl) refl)
          (search within_rules depth 20),
      form-Tours r (inside (instrument_page sell)) sell_view _ refl
          (schedule_transaction-Within r b n price duration amount sell_view
            (_, here, refl, refl, refl) (_, there here, refl, refl, refl)
            (_, there (there here), refl, refl, refl) refl)
          (search within_rules depth 20),
    )

    module _ (pick : ℕ → ℕ) (p : Inner) where
      deposit_and_buy-Tours :
          (user : User) (value : N)
          → Tours r (inside p) (inside credit_card_page) (deposit_and_buy_steps b n pick user value)
      unfolding deposit_and_buy_steps
      deposit_and_buy-Tours user value = seq-Tours _ _ (goto-Tours p).0 (
          seq-Tours _ _ (deposit-Tours b n user value) (
            seq-Tours _ _ (random-Tours b _ pick).0 (
              seq-Tours _ _ (tabs-Tours b quick_buy).0 (
                bind-Tours _ _ (price-Tours b n quick_buy) (λ price.
                  bind-Tours _ _ (balance-Tours b n) (λ _.
                    bind-Tours _ _ (name-Tours b quick_buy)
                      (λ _. seq-Tours _ _ (trade-Tours _).0 (goto-Tours _).2)))))))

      deposit_and_long_buy-Tours :
          (calculator : BuyOptions N → Deal N) (user : User) (value duration : N)
          → Tours r
              (inside p)
              (inside credit_card_page)
              (deposit_and_long_buy_steps b n pick calculator user value duration)
      unfolding deposit_and_long_buy_steps
      deposit_and_long_buy-Tours calculator user value duration = seq-Tours _ _ (goto-Tours p).0 (
          seq-Tours _ _ (deposit-Tours b n user value) (
            seq-Tours _ _ (random-Tours b _ pick).0 (
              bind-Tours _ _ (balance-Tours b n) (λ balance.
                seq-Tours _ _ (tabs-Tours b quick_buy).2 (
                  bind-Tours _ _ (price-Tours b n buy) (λ price.
                    bind-Tours _ _ (name-Tours b buy)
                      (λ _. seq-Tours _ _ (schedule-Tours _ _ _).0 (goto-Tours _).2)))))))

      long_sell-Tours :
          (calculator : SellOptions N → Deal N) (ratio duration : N)
          → Tours r
              (inside p)
              (inside credit_card_page)
              (long_sell_steps b n pick calculator ratio duration)
      unfolding long_sell_steps
      long_sell-Tours calculator ratio duration = seq-Tours _ _ (random-Tours b p pick).1 (
          seq-Tours _ _ (tabs-Tours b quick_buy).1 (
            bind-Tours _ _ (possessed-Tours b n) (λ amount.
              seq-Tours _ _ (tabs-Tours b quick_sell).3 (
                bind-Tours _ _ (price-Tours b n sell) (λ price.
                  bind-Tours _ _ (name-Tours b sell)
                    (λ _. seq-Tours _ _ (schedule-Tours _ _ _).1 (goto-Tours _).2))))))

      sell_and_withdraw-Tours :
          (user : User) (ratio value : N)
          → Tours r
              (inside p)
              (inside credit_card_page)
              (sell_and_withdraw_steps b n pick user ratio value)
      unfolding sell_and_withdraw_steps
      sell_and_withdraw-Tours user ratio value = seq-Tours _ _ (random-Tours b p pick).1 (
          seq-Tours _ _ (tabs-Tours b quick_buy).1 (
            bind-Tours _ _ (possessed-Tours b n) (λ amount.
              bind-Tours _ _ (price-Tours b n quick_sell) (λ price.
                bind-Tours _ _ (name-Tours b quick_sell) (λ _. seq-Tours _ _ (trade-Tours _).1 (
                  seq-Tours _ _ (goto-Tours _).1
                    (seq-Tours _ _ (withdraw-Tours b n user _) (goto-Tours _).2)))))))

      -- If the forms are rendered as documented, every call of the steps of the four visits that
      -- trade finds what it is for on the page that the calls before it lead to: the links, the
      -- cards, the tabs, the fields that are filled, those that are read, and the buttons. This holds
      -- from every page, whatever the browser answers and wherever it throws; steps that return have
      -- led to the pages of the credit card.
      pub trades-Tours :
          (user : User) (value ratio duration : N) (buy_calculator : BuyOptions N → Deal N)
          (sell_calculator : SellOptions N → Deal N)
          → Tours r (inside p) (inside credit_card_page) (deposit_and_buy_steps b n pick user value)
            × Tours r
                (inside p)
                (inside credit_card_page)
                (deposit_and_long_buy_steps b n pick buy_calculator user value duration)
            × Tours r
                (inside p)
                (inside credit_card_page)
                (long_sell_steps b n pick sell_calculator ratio duration)
            × Tours r
                (inside p)
                (inside credit_card_page)
                (sell_and_withdraw_steps b n pick user ratio value)
      trades-Tours user value ratio duration buy_calculator sell_calculator = (
        deposit_and_buy-Tours user value,
        deposit_and_long_buy-Tours buy_calculator user value duration,
        long_sell-Tours sell_calculator ratio duration,
        sell_and_withdraw-Tours user ratio value,
      )
