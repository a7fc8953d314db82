-- ===== src/Loadgen/Visits/Draws.antt =====
-- The steps of the visits that trade (src/loadgen/src/helpers) come to their end over a browser that
-- rejects no call and shows an instrument.
use easytrade.Base.Result.{ok}
use easytrade.Base.{ℕ, zero, suc, ◌<◌, ◌≡◌, refl, String, Option, none, some, List, [], ◌∷◌}
use easytrade.Base.{arith, length, get_elem?}
use easytrade.Loadgen.Browser.{Browser, Selector, Script, query, pure, ◌>>=◌, ◌>>◌}
use easytrade.Loadgen.Browser.{get_all_handles, get_property, get_inner_text}
use easytrade.Loadgen.Browser.Total.{
  Total, IsWorking, seq-Total, total_rules, Gives, bind-Gives, pure-Gives,
}
use easytrade.Loadgen.Browser.Total.{Total-Gives, Gives-Total}
use easytrade.Loadgen.Numbers.{Floats}
use easytrade.Loadgen.User.{User, array_random}
use easytrade.Loadgen.Selectors
use easytrade.Loadgen.Helpers.{goto_page_with_nav_bar, show_navbar, toggle_if, is_present}
use easytrade.Loadgen.Helpers.{goto_deposit_page, goto_withdraw_page, deposit, withdraw}
use easytrade.Loadgen.Helpers.{fill_user_deposit_data, fill_user_withdraw_data, fill_card_data}
use easytrade.Loadgen.Helpers.{select_card_provider}
use easytrade.Loadgen.Helpers.Instruments.{goto_instruments_page, goto_instrument_page}
use easytrade.Loadgen.Helpers.Instruments.{wait_for_instruments, all_handles, get_random_instrument}
use easytrade.Loadgen.Helpers.Instruments.{get_random_owned_instrument, open_card}
use easytrade.Loadgen.Helpers.Instruments.{goto_random_instrument, goto_random_owned_instrument}
use easytrade.Loadgen.Helpers.Instruments.{get_instrument_name, value_of, get_instrument_price}
use easytrade.Loadgen.Helpers.Instruments.{get_current_balance, get_instrument_possessed_amount}

-- Every list of elements that is asked for has one, and all texts and properties can be read.
pub record IsStocked {S H E : Type 0} (b : Browser S H E) : Type 0 where
  pub lists :
      (sel : Selector) (s : S)
      → (h : H) × (hs : List H) × (t : S) × (b.handles sel s ≡ ok (h ∷ hs, t))
  pub properties :
      (sel : Selector) (name : String) (s : S) → (r : String × S) × (b.property sel name s ≡ ok r)
  pub texts : (sel : Selector) (s : S) → (r : String × S) × (b.inner_text sel s ≡ ok r)

-- A draw from a list that is not empty gives one of its elements.
get_elem?_total :
    {A : Type 0} (xs : List A) (i : ℕ) → i < length xs → (x : A) × (get_elem? xs i ≡ some x)
get_elem?_total [] i h = elim h [ ]
get_elem?_total (x ∷ xs) zero h = (x, refl)
get_elem?_total (x ∷ xs) (suc i) h = get_elem?_total xs i (omega arith)

abbrev IsThere : {A : Type 0} → Option A → Type 0
IsThere none = ⊥
IsThere (some a) = Unit {0}

array_random-IsThere :
    {A : Type 0} (pick : ℕ → ℕ) (x : A) (xs : List A)
    → pick (length (x ∷ xs)) < length (x ∷ xs)
    → IsThere (array_random pick (x ∷ xs))
unfolding array_random
array_random-IsThere pick x xs below =
    let (a, e) = get_elem?_total (x ∷ xs) (pick (length (x ∷ xs))) below in rw e tt

module _ {S H E : Type 0} (b : Browser S H E) (works : IsWorking b) (stocked : IsStocked b) where
  nav-Total : (sel : Selector) → Total (goto_page_with_nav_bar b sel)
  unfolding goto_page_with_nav_bar show_navbar toggle_if is_present
  nav-Total sel = search total_rules depth 12

  pub pages-Total :
      Total (goto_deposit_page b) × Total (goto_withdraw_page b) × Total (goto_instruments_page b)
  unfolding goto_deposit_page goto_withdraw_page goto_instruments_page
  pages-Total = (nav-Total _, nav-Total _, nav-Total _)

  fill_card-Total : (user : User) → Total (fill_card_data b user)
  unfolding fill_card_data select_card_provider
  fill_card-Total user = search total_rules depth 30

  pub deposit-Total :
      {N : Type 0} (n : Floats N) (user : User) (value : N) → Total (deposit b n user value)
  unfolding deposit fill_user_deposit_data
  deposit-Total n user value = let card = fill_card-Total user in search total_rules depth 20

  pub withdraw-Total :
      {N : Type 0} (n : Floats N) (user : User) (value : N) → Total (withdraw b n user value)
  unfolding withdraw fill_user_withdraw_data
  withdraw-Total n user value = let card = fill_card-Total user in search total_rules depth 20

  handles-Gives :
      (sel : Selector)
      → Gives (λ hs. (h : H) × (rest : List H) × (hs ≡ h ∷ rest)) (all_handles b sel)
  unfolding all_handles query
  handles-Gives sel = record {
    at = λ s.
        let (h, hs, t, e) = stocked.lists sel s in
        (h ∷ hs, t, get_all_handles sel ∷ [], rw (e, query) refl, (h, hs, refl));
  }

  property-Total : (sel : Selector) → Total (value_of b sel)
  unfolding value_of query
  property-Total sel = record {
    at = λ s.
        let (r, e) = stocked.properties sel "value" s in
        (r.0, r.1, get_property sel "value" ∷ [], rw (e, query) refl);
  }

  pub name-Total : Total (get_instrument_name b)
  unfolding get_instrument_name query
  name-Total = record {
    at = λ s.
        let (r, e) = stocked.texts Selectors.instrument_page_instrument_name s in
        (
          r.0,
          r.1,
          get_inner_text Selectors.instrument_page_instrument_name ∷ [],
          rw (e, query) refl,
        );
  }

  open_card-Total :
      (message : String) (card : Option H) → IsThere card → Total (open_card b message card)
  unfolding open_card goto_instrument_page
  open_card-Total message none there = absurd there
  open_card-Total message (some card) there = search total_rules depth 3

  module _ {N : Type 0} (n : Floats N) where
    pub reads-Total :
        Total (get_instrument_price b n)
        × Total (get_current_balance b n)
        × Total (get_instrument_possessed_amount b n)
    unfolding get_instrument_price get_current_balance get_instrument_possessed_amount
    reads-Total =
        let price = property-Total Selectors.instrument_page_price_input in
        let balance = property-Total Selectors.common_current_balance in
        let amount = property-Total Selectors.instrument_page_possessed_amount in
        (search total_rules depth 5, search total_rules depth 5, search total_rules depth 5)

  module _ (pick : ℕ → ℕ) (below : (k : ℕ) → pick (suc k) < suc k) where
    drawn-IsThere :
        (cards : List H)
        → (h : H) × (rest : List H) × (cards ≡ h ∷ rest)
        → IsThere (array_random pick cards)
    drawn-IsThere cards (h, rest, e) = rw e (array_random-IsThere pick h rest (below (length rest)))

    drawn-Gives :
        (sel : Selector)
        → Gives IsThere (all_handles b sel >>= λ cards. pure (array_random pick cards))
    drawn-Gives sel =
        bind-Gives _ _ (handles-Gives sel) (λ cards there. pure-Gives _ (drawn-IsThere cards there))

    draw-Gives :
        Gives IsThere (get_random_instrument b pick)
        × Gives IsThere (get_random_owned_instrument b pick)
    unfolding get_random_instrument get_random_owned_instrument wait_for_instruments
    draw-Gives =
        let wait : Total (wait_for_instruments b) = search total_rules depth 3 in
        (
          bind-Gives _ _ (Total-Gives _ wait) (λ _ _. drawn-Gives _),
          bind-Gives _ _ (Total-Gives _ wait) (λ _ _. drawn-Gives _),
        )

    -- Whatever is drawn is opened.
    opened-Total :
        (message : String) (draw : Script S H E (Option H))
        → Gives IsThere draw
        → Total (goto_instruments_page b >> (draw >>= open_card b message))
    opened-Total message draw given = seq-Total _ _ pages-Total.2 (
        Gives-Total _
          (bind-Gives _ _ given (λ card there. Total-Gives _ (open_card-Total message card there))))

    pub random-Total :
        Total (goto_random_instrument b pick) × Total (goto_random_owned_instrument b pick)
    unfolding goto_random_instrument goto_random_owned_instrument
    random-Total = (opened-Total _ _ draw-Gives.0, opened-Total _ _ draw-Gives.1)
