-- ===== src/Examples/ViewRuns.antt =====
-- The scripts of the load generator (src/loadgen/src/helpers) on the forms of the frontend
-- (src/frontend/src/components), rendered by a concrete function.
use easytrade.Base.{◌≡◌, String, Bool, true, false, ◌||◌, Option, none, some, List, [], ◌∷◌}
use easytrade.Base.{◌==◌, string_eq, arith}
use easytrade.Loadgen.Browser.Within.{Within}
use easytrade.Loadgen.Helpers.{deposit}
use easytrade.Frontend.Forms.Views.{text, number, password, select, checkbox, Field}
use easytrade.Frontend.Forms.Views.{deposit_view}
use easytrade.Frontend.Forms.Views.Rendering.{At, here, there, Rendering, by_id, by_option}
use easytrade.Frontend.Forms.Views.Scripts.{addresses, scripts-Within}
use easytrade.Loadgen.Visits.{deposit_and_buy}
use easytrade.Frontend.Tour.{login_page}
use easytrade.Frontend.Tour.Rules.{Tours}
use easytrade.Frontend.Tour.Sessions.{visits-Tours}
use easytrade.Examples.LoadgenRuns.{hundredths, browser, user}

or_left : (a b : Bool) → a ≡ true → (a || b) ≡ true
or_left a b h = ground arith

or_right : (a b : Bool) → b ≡ true → (a || b) ≡ true
or_right a b h = ground arith

abbrev any : {A : Type 0} → (A → Bool) → List A → Bool
any p [] = false
any p (x ∷ xs) = p x || any p xs

any-At : {A : Type 0} (p : A → Bool) (x : A) (xs : List A) → At x xs → p x ≡ true → any p xs ≡ true
any-At p x [] at h = elim at [ ]
any-At p x (y ∷ xs) here h = ground arith
any-At p x (y ∷ xs) (there at) h = let rest = any-At p x xs at h in ground arith

abbrev has_id : String → Option String → String → Bool
has_id tag none xpath = false
has_id tag (some id) xpath = by_id tag id == xpath

abbrev is_found : String → Field → Bool
is_found xpath f = elim f.kind [
  | select ↦ has_id "div" f.id xpath || any (λ o. by_option f.name o.1 == xpath) f.options
  | _ ↦ has_id "input" f.id xpath
]

abbrev is_written : String → Field → Bool
is_written xpath f = elim f.kind [
  | text ↦ elim f.read_only [ true ↦ false | false ↦ has_id "input" f.id xpath ]
  | password ↦ elim f.read_only [ true ↦ false | false ↦ has_id "input" f.id xpath ]
  | number ↦ elim f.read_only [ true ↦ false | false ↦ has_id "input" f.id xpath ]
  | _ ↦ false
]

self : (s : String) → (s == s) ≡ true
self s = ground arith

by_its_id :
    (tag : String) (o : Option String) (id : String)
    → o ≡ some id
    → has_id tag o (by_id tag id) ≡ true
by_its_id tag o id same = ground (arith, self (by_id tag id))

text-is_written :
    (f : Field) (id : String)
    → f.kind ≡ text
    → f.id ≡ some id
    → f.read_only ≡ false
    → is_written (by_id "input" id) f ≡ true
text-is_written f id kind same open_field =
    let found = by_its_id "input" f.id id same in ground arith

password-is_written :
    (f : Field) (id : String)
    → f.kind ≡ password
    → f.id ≡ some id
    → f.read_only ≡ false
    → is_written (by_id "input" id) f ≡ true
password-is_written f id kind same open_field =
    let found = by_its_id "input" f.id id same in ground arith

number-is_written :
    (f : Field) (id : String)
    → f.kind ≡ number
    → f.id ≡ some id
    → f.read_only ≡ false
    → is_written (by_id "input" id) f ≡ true
number-is_written f id kind same open_field =
    let found = by_its_id "input" f.id id same in ground arith

number-is_found :
    (f : Field) (id : String)
    → f.kind ≡ number
    → f.id ≡ some id
    → is_found (by_id "input" id) f ≡ true
number-is_found f id kind same = let found = by_its_id "input" f.id id same in ground arith

checkbox-is_found :
    (f : Field) (id : String)
    → f.kind ≡ checkbox
    → f.id ≡ some id
    → is_found (by_id "input" id) f ≡ true
checkbox-is_found f id kind same = let found = by_its_id "input" f.id id same in ground arith

select-is_found :
    (f : Field) (id : String)
    → f.kind ≡ select
    → f.id ≡ some id
    → is_found (by_id "div" id) f ≡ true
select-is_found f id kind same = let found = by_its_id "div" f.id id same in ground arith

option-is_found :
    (f : Field) (value label : String)
    → f.kind ≡ select
    → At (value, label) f.options
    → is_found (by_option f.name label) f ≡ true
option-is_found f value label kind option =
    let found =
      any-At (λ o. by_option f.name o.1 == by_option f.name label) (value, label) f.options option
        (self _) in
    ground arith

abbrev rendering : Rendering
rendering = record {
  finds = λ view xpath.
      any (is_found xpath) view.fields
      || ("//form//button[@type=\"submit\"]" == xpath || has_id "button" view.submit.id xpath);
  writable = λ view xpath. any (is_written xpath) view.fields;
  text_written = λ view f id at kind same open_field.
      any-At _ f _ at (text-is_written f id kind same open_field);
  password_written = λ view f id at kind same open_field.
      any-At _ f _ at (password-is_written f id kind same open_field);
  number_written = λ view f id at kind same open_field.
      any-At _ f _ at (number-is_written f id kind same open_field);
  number_found =
      λ view f id at kind same. or_left _ _ (any-At _ f _ at (number-is_found f id kind same));
  checkbox_found =
      λ view f id at kind same. or_left _ _ (any-At _ f _ at (checkbox-is_found f id kind same));
  select_found =
      λ view f id at kind same. or_left _ _ (any-At _ f _ at (select-is_found f id kind same));
  option_found = λ view f value label at kind option.
      or_left _ _ (any-At _ f _ at (option-is_found f value label kind option));
  submit_found = λ view. or_right _ _ (or_left _ _ (self _));
  button_found =
      λ view id same. or_right _ _ (or_right _ _ (by_its_id "button" view.submit.id id same));
}

scripts-Within_example :
    Within (addresses rendering deposit_view) (deposit (browser true) hundredths user 100)
scripts-Within_example =
    (scripts-Within rendering (browser true) hundredths user 100 10 1 5 "gold" "Gold"
      (there here)).0

visits-Tours_example :
    Tours rendering login_page login_page
      (deposit_and_buy (browser true) hundredths (λ n. 0) "http://easytrade" user 100)
visits-Tours_example =
    (visits-Tours rendering (browser true) hundredths (λ n. 0) "http://easytrade" user 100 10 5
      (λ o. record { price = o.ask_price; amount = 100 })
      (λ o. record { price = o.ask_price; amount = 100 })).0
