-- ===== src/Frontend/Tour/Forms.antt =====
-- A script that fills the form of a page finds what it is for there, and stays on the page.
use easytrade.Base.{◌≡◌, refl, true, not, Option, none, some, List, [], ◌∷◌}
use easytrade.Base.{arith}
use easytrade.Loadgen.Browser.{Call, Selector, Script, Outcome, returned, thrown, calls}
use easytrade.Loadgen.Browser.{input, click, get_handle, click_handle, short_delay, standard_delay}
use easytrade.Loadgen.Browser.Within.{Within, Passes}
use easytrade.Frontend.Forms.Views.{FormView}
use easytrade.Frontend.Forms.Views.Rendering.{Rendering}
use easytrade.Frontend.Forms.Views.Scripts.{addresses}
use easytrade.Frontend.Instrument.{FormId, tabs}
use easytrade.Frontend.Tour.{
  TourPage, login_page, inside, home, deposit_page, withdraw_page, credit_card_page,
  instruments_page, instrument_page, tab_at, next, form_at, meets, has_around, has_inside, Follows,
  arrive, is_some,
}
use easytrade.Frontend.Tour.Rules.{Tours, Toured, stays}

option_stays :
    (o : Option FormId) (form_id : FormId)
    → not (is_some o) ≡ true
    → (elim o as (λ _. TourPage) [
      | none ↦ inside (instrument_page form_id)
      | some other ↦ inside (instrument_page other)
    ])
      ≡ inside (instrument_page form_id)
option_stays none form_id k = refl
option_stays (some other) form_id k = absurd (ground arith)

click_stays :
    (H : Type 0) (p : TourPage) (sel : Selector)
    → stays {H = H} p (click sel) ≡ true
    → next {H = H} p (click sel) ≡ p
unfolding next
click_stays H login_page sel k = refl
click_stays H (inside home) sel k = refl
click_stays H (inside deposit_page) sel k = refl
click_stays H (inside withdraw_page) sel k = refl
click_stays H (inside credit_card_page) sel k = refl
click_stays H (inside instruments_page) sel k = refl
click_stays H (inside (instrument_page form_id)) sel k =
    option_stays (tab_at tabs sel.xpath) form_id k

module _ {H : Type 0} (r : Rendering) (p : TourPage) (view : FormView) where
  -- A call that the form has is found, if the page is the form's.
  found_inside :
      (c : Call H)
      → form_at p ≡ some view
      → addresses r view c ≡ true
      → stays p c ≡ true
      → meets r p c ≡ true
  unfolding meets has_inside has_around
  found_inside (input sel value) e h k = rw e (ground arith)
  found_inside (get_handle sel) e h k = rw e (ground arith)
  found_inside (click_handle x) e h k = refl
  found_inside short_delay e h k = refl
  found_inside standard_delay e h k = refl
  found_inside (click sel) e h k = rw e (ground arith)
  found_inside _ e h k = absurd (ground arith)

  same_page : (c : Call H) → stays p c ≡ true → next p c ≡ p
  unfolding next
  same_page (input sel value) k = refl
  same_page (get_handle sel) k = refl
  same_page (click_handle x) k = refl
  same_page short_delay k = refl
  same_page standard_delay k = refl
  same_page (click sel) k = click_stays H p sel k
  same_page _ k = absurd (ground arith)

  follows :
      (cs : List (Call H))
      → form_at p ≡ some view
      → Passes (addresses r view) cs
      → Passes (stays p) cs
      → Follows r p cs × (arrive p cs ≡ p)
  unfolding Follows arrive
  follows [] e h k = (tt, refl)
  follows (c ∷ cs) e (found, h) (stay, k) =
      let (rest, there) = follows cs e h k in
      ((found_inside c e found stay, rw (same_page c stay) rest), rw (same_page c stay) there)

module _ {S H E A : Type 0} (r : Rendering) (p : TourPage) (view : FormView) where
  outcome :
      (o : Outcome S H E A)
      → form_at p ≡ some view
      → Passes (addresses r view) (calls o)
      → Passes (stays p) (calls o)
      → Toured r p p o
  outcome (returned a t cs) e h k = follows r p view cs e h k
  outcome (thrown x cs) e h k = (follows r p view cs e h k).0

  pub form-Tours :
      (m : Script S H E A)
      → form_at p ≡ some view
      → Within (addresses r view) m
      → Within (stays p) m
      → Tours r p p m
  form-Tours m e h k = record { at = λ s. outcome (m s) e (h.at s) (k.at s) }
