-- ===== src/Frontend/Forms/Views/Rendering.antt =====
-- The interface to the packages that render the forms of src/frontend/src/components: what a
-- selector finds on a page with a form, as documented.
use easytrade.Base.{◌≡◌, String, ◌<>◌, Bool, true, false, some, List, ◌∷◌}
use easytrade.Frontend.Forms.Views.{text, number, password, select, checkbox, Field, FormView}

-- An item of a list, by its position.
pub data At {A : Type 0} (a : A) : List A → Type 0 where
  here : {xs : List A} → At a (a ∷ xs)
  there : {x : A} {xs : List A} → At a xs → At a (x ∷ xs)

abbrev pub by_id : String → String → String
by_id tag id = "//" <> tag <> "[@id=\"" <> id <> "\"]"

abbrev pub by_option : String → String → String
by_option name label =
    ("//*[@id=\"menu-" <> name <> "\"]//li[contains(text(), \"") <> (label <> "\")]")

-- What a selector finds on a page with a form, and what can be typed into: a text, number or password
-- field that is not read-only is an `input` with the field's id, a checkbox too; a select is a `div`, and
-- its options are items of a menu; the submit button is a `button` of the form.
pub record Rendering : Type 0 where
  pub finds : FormView → String → Bool
  pub writable : FormView → String → Bool
  pub text_written :
      (view : FormView) (f : Field) (id : String)
      → At f view.fields
      → f.kind ≡ text
      → f.id ≡ some id
      → f.read_only ≡ false
      → writable view (by_id "input" id) ≡ true
  pub password_written :
      (view : FormView) (f : Field) (id : String)
      → At f view.fields
      → f.kind ≡ password
      → f.id ≡ some id
      → f.read_only ≡ false
      → writable view (by_id "input" id) ≡ true
  pub number_written :
      (view : FormView) (f : Field) (id : String)
      → At f view.fields
      → f.kind ≡ number
      → f.id ≡ some id
      → f.read_only ≡ false
      → writable view (by_id "input" id) ≡ true
  pub number_found :
      (view : FormView) (f : Field) (id : String)
      → At f view.fields
      → f.kind ≡ number
      → f.id ≡ some id
      → finds view (by_id "input" id) ≡ true
  pub checkbox_found :
      (view : FormView) (f : Field) (id : String)
      → At f view.fields
      → f.kind ≡ checkbox
      → f.id ≡ some id
      → finds view (by_id "input" id) ≡ true
  pub select_found :
      (view : FormView) (f : Field) (id : String)
      → At f view.fields
      → f.kind ≡ select
      → f.id ≡ some id
      → finds view (by_id "div" id) ≡ true
  pub option_found :
      (view : FormView) (f : Field) (value label : String)
      → At f view.fields
      → f.kind ≡ select
      → At (value, label) f.options
      → finds view (by_option f.name label) ≡ true
  pub submit_found : (view : FormView) → finds view "//form//button[@type=\"submit\"]" ≡ true
  pub button_found :
      (view : FormView) (id : String)
      → view.submit.id ≡ some id
      → finds view (by_id "button" id) ≡ true
