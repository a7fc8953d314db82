-- ===== src/Frontend/Forms/Views/Scripts.antt =====
-- The forms against the scripts of the load generator (src/loadgen/src/helpers), which fill them
-- through the selectors of src/loadgen/src/selectors.ts.
use easytrade.Base.{◌≡◌, refl, String, Bool, true, false, some}
use easytrade.Loadgen.Browser.{Browser, Call, input, click, navigate, get_handle}
use easytrade.Loadgen.Browser.Within.{Within, within_rules}
use easytrade.Loadgen.Numbers.{Floats}
use easytrade.Loadgen.User.{User, CardProvider, visa_debit, visa_credit, mastercard}
use easytrade.Loadgen.User.{american_express, credit_card_mapping}
use easytrade.Loadgen.Helpers.{deposit, withdraw, order_card, fill_card_data}
use easytrade.Loadgen.Helpers.{fill_user_deposit_data, fill_user_withdraw_data}
use easytrade.Loadgen.Helpers.{select_card_provider}
use easytrade.Loadgen.Helpers.Instruments.{trade, schedule_transaction}
use easytrade.Frontend.Forms.Views.Rendering.{At, here, there, Rendering, by_id}
use easytrade.Frontend.Forms.Views.{text, number, select, Field}
use easytrade.Frontend.Forms.Views.{FormView, deposit_view, withdraw_view, credit_card_view}
use easytrade.Frontend.Forms.Views.{
  quick_buy_view, quick_sell_view, buy_view, sell_view, card_types, card_levels, field,
}
use easytrade.Frontend.Forms.Views.{agreement}

-- The call addresses an element of the form, and types only into a field that can be changed.
abbrev pub addresses : {H : Type 0} → Rendering → FormView → Call H → Bool
addresses r view (input sel value) = r.writable view sel.xpath
addresses r view (click sel) = r.finds view sel.xpath
addresses r view (navigate sel) = r.finds view sel.xpath
addresses r view (get_handle sel) = r.finds view sel.xpath
addresses r view _ = true

-- The option of the form for a user's card.
card_option : (p : CardProvider) → (value : String) × At (value, credit_card_mapping p) card_types
card_option visa_debit = ("visaDebit", here)
card_option visa_credit = ("visaCredit", there here)
card_option mastercard = ("mastercard", there (there here))
card_option american_express = ("americanExpress", there (there (there here)))

-- The shared fields of the deposit and the withdraw form, by their place in the form.
abbrev IsText : String → FormView → Type 0
IsText id view =
    (f : Field) × At f view.fields × (f.kind ≡ text) × (f.id ≡ some id) × (f.read_only ≡ false)

abbrev pub IsNumber : String → FormView → Type 0
IsNumber id view =
    (f : Field) × At f view.fields × (f.kind ≡ number) × (f.id ≡ some id) × (f.read_only ≡ false)

module _ (r : Rendering) where
  text_writable :
      (view : FormView) (id : String) → IsText id view → r.writable view (by_id "input" id) ≡ true
  text_writable view id (f, at, kind, same, open_field) =
      r.text_written view f id at kind same open_field

  number_writable :
      (view : FormView) (id : String) → IsNumber id view → r.writable view (by_id "input" id) ≡ true
  number_writable view id (f, at, kind, same, open_field) =
      r.number_written view f id at kind same open_field

module _ {S H E : Type 0} (r : Rendering) (b : Browser S H E) where
  fill_card-Within :
      (user : User) (view : FormView)
      → IsText "cardholderName" view
      → IsText "address" view
      → IsText "email" view
      → IsText "cardNumber" view
      → At (record (field select "cardType" "Card type") { options = card_types }) view.fields
      → Within (addresses r view) (fill_card_data b user)
  unfolding fill_card_data select_card_provider
  fill_card-Within user view name address email card at =
      let name_there = text_writable r view "cardholderName" name in
      let address_there = text_writable r view "address" address in
      let email_there = text_writable r view "email" email in
      let card_there = text_writable r view "cardNumber" card in
      let type_there = r.select_found view _ "cardType" at refl refl in
      let (value, option) = card_option user.credit_card_provider in
      let option_there = r.option_found view _ value _ at refl option in
      search within_rules depth 30

  pub deposit-Within :
      {N : Type 0} (n : Floats N) (user : User) (value : N)
      → Within (addresses r deposit_view) (deposit b n user value)
  unfolding deposit fill_user_deposit_data deposit_view
  deposit-Within n user value =
      let card =
        fill_card-Within user deposit_view (_, there here, refl, refl, refl)
          (_, there (there here), refl, refl, refl)
          (_, there (there (there here)), refl, refl, refl)
          (_, there (there (there (there here))), refl, refl, refl)
          (there (there (there (there (there here))))) in
      let amount_there = r.number_written deposit_view _ "amount" here refl refl refl in
      let terms_there =
        r.checkbox_found deposit_view agreement "agreement"
          (there (there (there (there (there (there (there here))))))) refl refl in
      let cvv_there =
        text_writable r deposit_view "cvv"
          (_, there (there (there (there (there (there here))))), refl, refl, refl) in
      let submit_there = r.submit_found deposit_view in search within_rules depth 30

  pub withdraw-Within :
      {N : Type 0} (n : Floats N) (user : User) (value : N)
      → Within (addresses r withdraw_view) (withdraw b n user value)
  unfolding withdraw fill_user_withdraw_data withdraw_view
  withdraw-Within n user value =
      let card =
        fill_card-Within user withdraw_view (_, there here, refl, refl, refl)
          (_, there (there here), refl, refl, refl)
          (_, there (there (there here)), refl, refl, refl)
          (_, there (there (there (there here))), refl, refl, refl)
          (there (there (there (there (there here))))) in
      let amount_there = r.number_written withdraw_view _ "amount" here refl refl refl in
      let terms_there =
        r.checkbox_found withdraw_view agreement "agreement"
          (there (there (there (there (there (there here)))))) refl refl in
      let submit_there = r.submit_found withdraw_view in search within_rules depth 30

  order_card-Within :
      (user : User) (value label : String)
      → At (value, label) card_levels
      → Within (addresses r credit_card_view) (order_card b user label)
  unfolding order_card credit_card_view
  order_card-Within user value label level =
      let name_there = text_writable r credit_card_view "name" (_, here, refl, refl, refl) in
      let address_there =
        text_writable r credit_card_view "address" (_, there here, refl, refl, refl) in
      let email_there =
        text_writable r credit_card_view "email" (_, there (there here), refl, refl, refl) in
      let type_there =
        r.select_found credit_card_view _ "type" (there (there (there here))) refl refl in
      let option_there =
        r.option_found credit_card_view _ value label (there (there (there here))) refl level in
      let terms_there =
        r.checkbox_found credit_card_view agreement "agreement" (there (there (there (there here))))
          refl refl in
      let submit_there = r.button_found credit_card_view "submitButton" refl in
      search within_rules depth 40

  pub trade-Within :
      {N : Type 0} (n : Floats N) (amount : N) (view : FormView)
      → IsNumber "amount" view
      → view.submit.id ≡ some "submitButton"
      → Within (addresses r view) (trade b n amount)
  unfolding trade
  trade-Within n amount view field_there button =
      let amount_there = number_writable r view "amount" field_there in
      let submit_there = r.button_found view "submitButton" button in search within_rules depth 20

  pub schedule_transaction-Within :
      {N : Type 0} (n : Floats N) (price duration amount : N) (view : FormView)
      → IsNumber "amount" view
      → IsNumber "price" view
      → IsNumber "time" view
      → view.submit.id ≡ some "submitButton"
      → Within (addresses r view) (schedule_transaction b n price duration amount)
  unfolding schedule_transaction
  schedule_transaction-Within n price duration amount view field₁ field₂ field₃ button =
      let amount_there = number_writable r view "amount" field₁ in
      let price_there = number_writable r view "price" field₂ in
      let time_there = number_writable r view "time" field₃ in
      let submit_there = r.button_found view "submitButton" button in search within_rules depth 20

  -- Every call of the scripts that fill a form addresses an element of the form that they are for,
  -- and what they type goes into fields that can be changed: the deposit and the withdraw script,
  -- for every user, the order of a card of each level, and the scripts for quick and for scheduled
  -- trades, if the forms are rendered as documented.
  pub scripts-Within :
      {N : Type 0} (n : Floats N) (user : User) (value price duration amount : N)
      (level label : String)
      → At (level, label) card_levels
      → Within (addresses r deposit_view) (deposit b n user value)
        × Within (addresses r withdraw_view) (withdraw b n user value)
        × Within (addresses r credit_card_view) (order_card b user label)
        × Within (addresses r quick_buy_view) (trade b n amount)
        × Within (addresses r quick_sell_view) (trade b n amount)
        × Within (addresses r buy_view) (schedule_transaction b n price duration amount)
        × Within (addresses r sell_view) (schedule_transaction b n price duration amount)
  unfolding quick_buy_view quick_sell_view buy_view sell_view
  scripts-Within n user value price duration amount level label known = (
    deposit-Within n user value,
    withdraw-Within n user value,
    order_card-Within user level label known,
    trade-Within n amount quick_buy_view (_, here, refl, refl, refl) refl,
    trade-Within n amount quick_sell_view (_, here, refl, refl, refl) refl,
    schedule_transaction-Within n price duration amount buy_view (_, here, refl, refl, refl)
        (_, there here, refl, refl, refl) (_, there (there here), refl, refl, refl) refl,
    schedule_transaction-Within n price duration amount sell_view (_, here, refl, refl, refl)
        (_, there here, refl, refl, refl) (_, there (there here), refl, refl, refl) refl,
  )
