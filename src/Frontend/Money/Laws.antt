-- ===== src/Frontend/Money/Laws.antt =====
-- What the handlers send and answer: each request is posted once, and the events tell its story.
use easytrade.Base.{◌≡◌, refl, ◌↔◌, String, Option, none, some, List, [], ◌∷◌}
use easytrade.Base.{◌<>◌, ◌++◌, arith, inl, inr, Bool-cases, ◌∙◌, sym, ap}
use mathlib.Core.List.{append-nil}
use easytrade.Base.Result.{Result, ok, Result-cases}
use easytrade.Frontend.Money.{Operation, deposits, withdraws, sells, buys, start, finish, error}
use easytrade.Frontend.Money.{event_type, EventBody, request, status_finished, status_error}
use easytrade.Frontend.Money.{BizEvent, Effect, send, report, post, Window, Handled}
use easytrade.Frontend.Money.{QuickTransactionRequest, LongTransactionRequest, DepositRequest}
use easytrade.Frontend.Money.{WithdrawRequest, send_biz_event, tracked, untracked, quick_buy}
use easytrade.Frontend.Money.{quick_sell, buy, sell, deposit, withdraw, quick_request, long_request}

-- The story of the effects: events and posts in their order, without the reported errors.
abbrev pub story : {R E : Type 0} → List (Effect R E) → List (Effect R E)
story [] = []
story (send e ∷ es) = send e ∷ story es
story (report e ∷ es) = story es
story (post p r ∷ es) = post p r ∷ story es

-- The event that closes an operation with this answer.
abbrev pub closing : {R : Type 0} → Operation → Option String → BizEvent R
closing op none = record { kind = event_type op finish; body = status_finished }
closing op (some msg) = record { kind = event_type op error; body = status_error msg }

-- With an agent, the start event comes first, the one post next and the event that fits the answer
-- last; without one there is the post only. The answer is an error exactly if the post failed.
pub record IsTracked {R E : Type 0} (w : Window R E) (op : Operation) (endpoint : String) (r : R)
    (reply : Result E (Unit {0})) (answer : Handled R E) : Type 0 where
  pub with_agent :
      (agent : BizEvent R → Result E (Unit {0}))
      → w.dynatrace ≡ some agent
      → story answer.1
        ≡ send (record { kind = event_type op start; body = request r })
          ∷ post endpoint r
          ∷ send (closing op answer.0)
          ∷ []
  pub without_agent : w.dynatrace ≡ none → answer.1 ≡ post endpoint r ∷ []
  pub succeeds : (answer.0 ≡ none) ↔ (reply ≡ ok tt)

-- Only the one post, and an error exactly if it failed.
pub record IsUntracked {R E : Type 0} (endpoint : String) (r : R) (reply : Result E (Unit {0}))
    (answer : Handled R E) : Type 0 where
  pub only_post : answer.1 ≡ post endpoint r ∷ []
  pub succeeds : (answer.0 ≡ none) ↔ (reply ≡ ok tt)

untracked-IsUntracked :
    {R E : Type 0} (endpoint msg : String) (send_post : String → R → Result E (Unit {0})) (r : R)
    → IsUntracked endpoint r (send_post endpoint r) (untracked endpoint msg send_post r)
unfolding untracked
untracked-IsUntracked endpoint msg send_post r = elim (Result-cases (send_post endpoint r)) [
  | inl (_, posted) ↦
      rw (posted, untracked) (record { only_post = refl; succeeds = (λ _. refl, λ _. refl) })
  | inr (e, failed) ↦
      rw (failed, untracked)
        (record { only_post = refl; succeeds = (λ same. ground arith, λ same. ground arith) })
]

module _ {R E : Type 0} (w : Window R E) where
  story-send :
      (kind : String) (body : EventBody R) (agent : BizEvent R → Result E (Unit {0}))
      (es : List (Effect R E))
      → w.dynatrace ≡ some agent
      → story (send_biz_event w kind body ++ es)
        ≡ send (record { kind = kind; body = body }) ∷ story es
  unfolding send_biz_event
  story-send kind body agent es there =
      let event : BizEvent R = record { kind = kind; body = body } in
      elim (Result-cases (agent event)) [
        | inl (_, sent) ↦ rw (there, sent, send_biz_event) refl
        | inr (e, refused) ↦ elim (Bool-cases w.dtrum) [
          | inl on ↦ rw (there, refused, on, send_biz_event) refl
          | inr off ↦ rw (there, refused, off, send_biz_event) refl
        ]
      ]

  send_nothing :
      (kind : String) (body : EventBody R) → w.dynatrace ≡ none → send_biz_event w kind body ≡ []
  unfolding send_biz_event
  send_nothing kind body missing = rw missing refl

  two_events :
      (kind : String) (body : EventBody R) (endpoint : String) (r : R) (last : String)
      (closed : EventBody R) (agent : BizEvent R → Result E (Unit {0}))
      → w.dynatrace ≡ some agent
      → story (send_biz_event w kind body ++ (post endpoint r ∷ send_biz_event w last closed))
        ≡ send (record { kind = kind; body = body })
          ∷ post endpoint r
          ∷ send (record { kind = last; body = closed })
          ∷ []
  two_events kind body endpoint r last closed agent there =
      story-send kind body agent (post endpoint r ∷ send_biz_event w last closed) there
      ∙ ap (λ es. send (record { kind = kind; body = body }) ∷ post endpoint r ∷ es)
          (ap story (sym (append-nil (send_biz_event w last closed)))
            ∙ story-send last closed agent [] there)

  no_event :
      (kind : String) (body : EventBody R) (endpoint : String) (r : R) (last : String)
      (closed : EventBody R)
      → w.dynatrace ≡ none
      → send_biz_event w kind body ++ (post endpoint r ∷ send_biz_event w last closed)
        ≡ post endpoint r ∷ []
  no_event kind body endpoint r last closed missing =
      rw (send_nothing kind body missing, send_nothing last closed missing)

  tracked-IsTracked :
      (op : Operation) (endpoint msg : String) (send_post : String → R → Result E (Unit {0}))
      (r : R)
      → IsTracked w op endpoint r (send_post endpoint r) (tracked w op endpoint msg send_post r)
  unfolding tracked
  tracked-IsTracked op endpoint msg send_post r = elim (Result-cases (send_post endpoint r)) [
    | inl (_, posted) ↦
        rw (posted, tracked)
          (record {
            with_agent = λ agent there. two_events _ _ endpoint r _ _ agent there;
            without_agent = λ missing. no_event _ _ endpoint r _ _ missing;
            succeeds = (λ _. refl, λ _. refl);
          })
    | inr (e, failed) ↦
        rw (failed, tracked)
          (record {
            with_agent = λ agent there. two_events _ _ endpoint r _ _ agent there;
            without_agent = λ missing. no_event _ _ endpoint r _ _ missing;
            succeeds = (λ same. ground arith, λ same. ground arith);
          })
  ]

-- Every handler of the frontend that moves money or shares posts its request once. A quick trade, a
-- deposit and a withdrawal send a start event before it and, after it, a finish or an error event
-- that fits the answer, if there is an agent to send them, also if the agent throws; scheduled
-- trades send none. Each answer is an error exactly if the post failed.
pub handlers-IsTracked :
    {N E : Type 0} (to_number : String → N) (show : N → String)
    (w : Window (QuickTransactionRequest N) E)
    (send_quick : String → QuickTransactionRequest N → Result E (Unit {0}))
    (w_deposit : Window (DepositRequest N) E)
    (send_deposit : String → DepositRequest N → Result E (Unit {0}))
    (w_withdraw : Window (WithdrawRequest N) E)
    (send_withdraw : String → WithdrawRequest N → Result E (Unit {0}))
    (send_long : String → LongTransactionRequest N → Result E (Unit {0}))
    (user_id instrument_id : String) (amount price time : N) (d : DepositRequest N)
    (c : WithdrawRequest N)
    → let q = quick_request to_number user_id instrument_id amount in
      let l = long_request to_number user_id instrument_id amount price time in
      let deposit_path = "/balance/" <> show d.account_id <> "/deposit" in
      let withdraw_path = "/balance/" <> show c.account_id <> "/withdraw" in
      IsTracked w buys "/trade/buy" q
        (send_quick "/trade/buy" q)
        (quick_buy to_number w send_quick user_id instrument_id amount)
      × IsTracked w sells "/trade/sell" q
          (send_quick "/trade/sell" q)
          (quick_sell to_number w send_quick user_id instrument_id amount)
      × IsTracked w_deposit deposits deposit_path d
          (send_deposit deposit_path d)
          (deposit show w_deposit send_deposit d)
      × IsTracked w_withdraw withdraws withdraw_path c
          (send_withdraw withdraw_path c)
          (withdraw show w_withdraw send_withdraw c)
      × IsUntracked "/trade/long/buy" l
          (send_long "/trade/long/buy" l)
          (buy to_number send_long user_id instrument_id amount price time)
      × IsUntracked "/trade/long/sell" l
          (send_long "/trade/long/sell" l)
          (sell to_number send_long user_id instrument_id amount price time)
unfolding quick_buy quick_sell deposit withdraw buy sell
handlers-IsTracked to_number show w send_quick w_deposit send_deposit w_withdraw send_withdraw
      send_long user_id instrument_id amount price time d c =
    (
      tracked-IsTracked w buys _ _ send_quick _,
      tracked-IsTracked w sells _ _ send_quick _,
      tracked-IsTracked w_deposit deposits _ _ send_deposit d,
      tracked-IsTracked w_withdraw withdraws _ _ send_withdraw c,
      untracked-IsUntracked _ _ send_long _,
      untracked-IsUntracked _ _ send_long _,
    )
