-- ===== src/Frontend/Tables/Laws.antt =====
-- That each transaction has a colour and a status of the table, that the table and the chart of the
-- instruments agree, and that each entry of the timeline has a title.
use mathlib.Core.Option
use mathlib.Core.List.{foldl, reverse, map-append, reverse-append}
use easytrade.Base.{ℕ, suc, ◌+◌, ◌≡◌, ◌≢◌, refl, ap, ◌∙◌, inl, inr, String, Option, none, some}
use easytrade.Base.{List, [], ◌∷◌, ◌++◌, map, select, All, ◌==◌, string_eq, nat_eq, arith}
use easytrade.Base.{Bool-cases, Eq}
use easytrade.Base.Dict
use easytrade.Base.Dict.{Dict}
use easytrade.Base.Text.{Text, codes, split, join, titles}
use easytrade.Base.Result.{Result, ok, err}
use easytrade.Frontend.Forms.{Numbers}
use easytrade.Frontend.Prices.{ListedInstrument, InstrumentBar, instruments_data}
use easytrade.Frontend.CardOrder.{
  OrderStatus, OrderStatusEntry, order_created, card_ordered, card_created, card_shipped,
  card_delivered, card_error, sequence_error,
}
use easytrade.Frontend.Transactions.{RawTransaction, map_status, map_direction, map_from}
use easytrade.Frontend.Transactions.{get_transactions, count_one, counted, get_transactions_data}
use easytrade.Frontend.Transactions.{inside}
use easytrade.Frontend.Tables.{InstrumentRow, instruments_table, instrument_cells, pie_cells}
use easytrade.Frontend.Tables.{colour, status_text, timeline_entry, timeline}

-- A key that is inserted is the only one that may be new.
All-insert :
    {K V : Type 0} ⦃e : Eq K⦄ (P : K → Type 0) (k : K) (v : V) (d : Dict K V)
    → P k
    → All (λ (j, w). P j) d
    → All (λ (j, w). P j) (Dict.insert k v d)
unfolding Dict.insert
All-insert P k v [] p _ = (p, tt)
All-insert P k v ((j, w) ∷ d) p (q, qs) = elim (Bool-cases (k == j)) [
  | inl same ↦ rw same (q, qs)
  | inr other ↦ rw other (q, All-insert P k v d p qs)
]

All-counts :
    {K : Type 0} ⦃e : Eq K⦄ (P : K → Type 0) (ks : List K) (d : Dict K ℕ)
    → All P ks
    → All (λ (j, w). P j) d
    → All (λ (j, w). P j) (foldl count_one d ks)
unfolding count_one
All-counts P [] d _ qs = qs
All-counts P (k ∷ ks) d (p, ps) qs =
    All-counts P ks (count_one d k) ps (All-insert P k (counted k d + 1) d p qs)

IsColoured : String → Type 0
IsColoured name = colour name ≢ none

-- The titles of the seven statuses are made, whatever the letters become.
status_title :
    (upper : ℕ → Text) (lower : Text → Text) (status : OrderStatus)
    → (t : List Text) × (titles upper lower (split b'_' (status_text status)) ≡ some t)
unfolding titles split nat_eq
status_title upper lower order_created = (_, refl)
status_title upper lower card_ordered = (_, refl)
status_title upper lower card_created = (_, refl)
status_title upper lower card_shipped = (_, refl)
status_title upper lower card_delivered = (_, refl)
status_title upper lower card_error = (_, refl)
status_title upper lower sequence_error = (_, refl)

module _ {N : Type 0} (numbers : Numbers N) (price_formatter : N → Text) where
  -- What the table and the chart have in common of an instrument.
  abbrev pub Common : Type 0
  Common = String × String × N × Text

  abbrev pub of_row : InstrumentRow N → Common
  of_row r = (r.code, r.name, r.amount, r.total_value)

  abbrev pub of_bar : InstrumentBar N → Common
  of_bar b = (b.code, b.name, b.amount, price_formatter b.total_value)

  -- The table of the instruments has a row for each bar of the chart that stands for a positive amount,
  -- in the order of the chart, with the same code, name, amount and total value.
  pub instruments_table-instruments_data :
      (instruments : List (ListedInstrument N))
      → map of_row (instruments_table numbers price_formatter instruments)
        ≡ map of_bar (
            select
              (λ b. numbers.lt (numbers.of_nat 0) b.amount)
              (instruments_data numbers instruments))
  unfolding instruments_table instruments_data
  instruments_table-instruments_data [] = refl
  instruments_table-instruments_data (i ∷ is) =
      elim (Bool-cases (numbers.lt (numbers.of_nat 0) i.amount)) [
        | inl owned ↦
            rw (owned, select)
              (ap (λ l. of_row (instrument_cells numbers price_formatter i) ∷ l)
                (instruments_table-instruments_data is))
        | inr other ↦ rw (other, select) (instruments_table-instruments_data is)
      ]

colour_status : (status : String) → IsColoured (map_status status)
unfolding map_status colour IsColoured string_eq
colour_status status = elim (Bool-cases (inside status "finished")) [
  | inl finished ↦ rw finished (λ e. absurd (ground arith))
  | inr other ↦ elim (Bool-cases (inside status "failed")) [
    | inl failed ↦ rw (other, failed) (λ e. absurd (ground arith))
    | inr active ↦ rw (other, active) (λ e. absurd (ground arith))
  ]
]

colour_direction : (direction : String) → IsColoured (map_direction direction)
unfolding map_direction colour IsColoured string_eq
colour_direction direction = elim (Bool-cases (inside direction "buy")) [
  | inl bought ↦ rw bought (λ e. absurd (ground arith))
  | inr sold ↦ rw sold (λ e. absurd (ground arith))
]

map_from-IsColoured :
    {N : Type 0} (to_iso : String → Option String) (i : ℕ) (raws : List (RawTransaction N))
    → All IsColoured (map (λ t. t.status) (map_from to_iso i raws))
      × All IsColoured (map (λ t. t.action_type) (map_from to_iso i raws))
unfolding map_from
map_from-IsColoured to_iso i [] = (tt, tt)
map_from-IsColoured to_iso i (raw ∷ raws) =
    let (statuses, actions) = map_from-IsColoured to_iso (suc i) raws in
    ((colour_status raw.status, statuses), (colour_direction raw.direction, actions))

pie_cells-counted :
    (d : Dict String ℕ) → All (λ (j, n). IsColoured j) d → All (λ c. c ≢ none) (pie_cells d)
unfolding pie_cells IsColoured
pie_cells-counted [] _ = tt
pie_cells-counted ((j, n) ∷ d) (q, qs) = (q, pie_cells-counted d qs)

-- Whatever the broker service answers, every slice of the two pie charts has a colour.
pie_cells-coloured :
    {N E : Type 0} (to_iso : String → Option String) (reply : Result E (List (RawTransaction N)))
    → let found = get_transactions to_iso reply in
      All (λ c. c ≢ none) (pie_cells (get_transactions_data found (λ t. t.status)))
      × All (λ c. c ≢ none) (pie_cells (get_transactions_data found (λ t. t.action_type)))
unfolding get_transactions get_transactions_data pie_cells
pie_cells-coloured to_iso (err e) = (tt, tt)
pie_cells-coloured to_iso (ok raws) =
    let (statuses, actions) = map_from-IsColoured to_iso 0 raws in
    (
      pie_cells-counted _ (All-counts IsColoured _ [] statuses tt),
      pie_cells-counted _ (All-counts IsColoured _ [] actions tt),
    )

module _ (upper : ℕ → Text) (lower : Text → Text) (parse : String → ℕ) (now : ℕ) where
  entry_title :
      (entry : OrderStatusEntry)
      → (t : Text) × ((timeline_entry upper lower parse now entry).shown_title ≡ some t)
  unfolding timeline_entry
  entry_title entry =
      let (ts, e) = status_title upper lower entry.status in
      (join (codes " ") ts, ap (Option.map (join (codes " "))) e)

  -- The timeline of an order begins with its last status, and each of its entries has a title.
  timeline-append :
      (before : List OrderStatusEntry) (last : OrderStatusEntry)
      → (timeline upper lower parse now (before ++ (last ∷ []))
          ≡ timeline_entry upper lower parse now last ∷ timeline upper lower parse now before)
        × ((t : Text) × ((timeline_entry upper lower parse now last).shown_title ≡ some t))
  unfolding timeline
  timeline-append before last = (
    ap reverse (map-append (timeline_entry upper lower parse now) before (last ∷ []))
        ∙ reverse-append (map (timeline_entry upper lower parse now) before)
            (map (timeline_entry upper lower parse now) (last ∷ [])),
    entry_title last,
  )
