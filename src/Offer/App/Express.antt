-- ===== src/Offer/App/Express.antt =====
-- The part of Express that src/offerservice/src/app.ts uses: what a list of layers does to a request.
use easytrade.Base.{◌≡◌, refl, String, false, Option, none, some, List, [], ◌∷◌}
use easytrade.Base.{◌++◌, ◌==◌, string_eq, arith, if◌then◌else◌, ◌∙◌, ap}
use easytrade.Offer.App.{Exchange, AppEvent, Handled, passes, ends, Handler, Layer, use_layer}
use easytrade.Offer.App.{use_at, get_at, post_at}

module _ {B N D : Type 0} where
  abbrev pub after : Handled B N D → (Exchange B → List (AppEvent N D)) → List (AppEvent N D)
  after (passes events x) rest = events ++ rest x
  after (ends events) rest = events

abbrev pub Serve : Type 0 → Type 0 → Type 0 → Type 0
Serve B N D = List (Layer B N D) → Exchange B → List (AppEvent N D)

-- A layer's handler runs with the value of its path, or the layers after it do.
abbrev pub reaches :
    {B N D : Type 0}
    → (Exchange B → List (AppEvent N D))
    → (String → Handler B N D)
    → Exchange B
    → Option String
    → List (AppEvent N D)
reaches rest h x none = rest x
reaches rest h x (some v) = after (h v x) rest

-- The value of a path for a method.
abbrev pub only_for : {B : Type 0} → String → Exchange B → Option String → Option String
only_for method x value = if x.method == method then value else none

-- What the code relies on: the layers are walked in their order. A layer for all requests always
-- runs, one below a path if the request's path lies there, one for a method and a path if both are
-- the request's; GET also stands for HEAD. What a handler passes on goes to the layers after it.
pub record IsExpress {B N D : Type 0} (matches mounted : String → String → Option String)
    (serve : Serve B N D) : Type 0 where
  pub use_always :
      (h : Handler B N D) (ls : List (Layer B N D)) (x : Exchange B)
      → serve (use_layer h ∷ ls) x ≡ after (h x) (serve ls)
  pub use_below :
      (p : String) (h : String → Handler B N D) (ls : List (Layer B N D)) (x : Exchange B)
      → serve (use_at p h ∷ ls) x ≡ reaches (serve ls) h x (mounted p x.path)
  pub get_matching :
      (p : String) (h : String → Handler B N D) (ls : List (Layer B N D)) (x : Exchange B)
      → (x.method == "HEAD") ≡ false
      → serve (get_at p h ∷ ls) x ≡ reaches (serve ls) h x (only_for "GET" x (matches p x.path))
  pub post_matching :
      (p : String) (h : String → Handler B N D) (ls : List (Layer B N D)) (x : Exchange B)
      → serve (post_at p h ∷ ls) x ≡ reaches (serve ls) h x (only_for "POST" x (matches p x.path))

module _ {B : Type 0} (x : Exchange B) where
  other : (method m : String) → x.method ≡ method → (method == m) ≡ false → (x.method == m) ≡ false
  other method m e h = rw e h

  same :
      (method : String) {value : Option String}
      → x.method ≡ method
      → only_for method x value ≡ value
  same method e = ground arith

  differs :
      (method m : String) (value : Option String)
      → x.method ≡ method
      → (method == m) ≡ false
      → only_for m x value ≡ none
  differs method m value e h = rw (e, h) refl

module _ {B N D : Type 0} (matches mounted : String → String → Option String) (serve : Serve B N D)
    (express : IsExpress matches mounted serve) where
  pub passes-on :
      (h : Handler B N D) (ls : List (Layer B N D)) (x y : Exchange B)
      → h x ≡ passes [] y
      → serve (use_layer h ∷ ls) x ≡ serve ls y
  passes-on h ls x y e = express.use_always h ls x ∙ ap (λ r. after r (serve ls)) e

  -- A layer that is reached by the method and the path runs, and another does not.
  module _ (p : String) (h : String → Handler B N D) (ls : List (Layer B N D))
      (x : Exchange B) where
    pub get-serve :
        x.method ≡ "GET" → serve (get_at p h ∷ ls) x ≡ reaches (serve ls) h x (matches p x.path)
    unfolding string_eq
    get-serve get =
        express.get_matching p h ls x (other x "GET" "HEAD" get refl)
        ∙ ap (reaches (serve ls) h x) (same x "GET" get)

    pub get-skips_post : x.method ≡ "POST" → serve (get_at p h ∷ ls) x ≡ serve ls x
    unfolding string_eq
    get-skips_post post =
        express.get_matching p h ls x (other x "POST" "HEAD" post refl)
        ∙ ap (reaches (serve ls) h x) (differs x "POST" "GET" _ post refl)

    pub post-serve :
        x.method ≡ "POST" → serve (post_at p h ∷ ls) x ≡ reaches (serve ls) h x (matches p x.path)
    post-serve post =
        express.post_matching p h ls x ∙ ap (reaches (serve ls) h x) (same x "POST" post)

    pub post-skips_get : x.method ≡ "GET" → serve (post_at p h ∷ ls) x ≡ serve ls x
    unfolding string_eq
    post-skips_get get =
        express.post_matching p h ls x
        ∙ ap (reaches (serve ls) h x) (differs x "GET" "POST" _ get refl)
